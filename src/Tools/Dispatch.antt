-- ===== src/Tools/Dispatch.antt =====
-- handlers: the tools by their names (tools.go).
use repo_extension.Base.Text.{Text}
use repo_extension.Json.{Fields}
use repo_extension.Effects.{Prog}
use repo_extension.Tools.Host.{Host, ToolResult}
use repo_extension.Tools.Files
use repo_extension.Tools.Files.Writing
use repo_extension.Tools.Listing
use repo_extension.Tools.Listing.Exploring
use repo_extension.Tools.Listing.Searching
use repo_extension.Tools.History
use repo_extension.Tools.History.Graphs
use repo_extension.Tools.History.Patches
use repo_extension.Tools.Merges
use repo_extension.Tools.Merges.Changing
use repo_extension.Tools.Bookmarks

-- The keys of the map of handlers, under the names of their definitions.
pub data Tool : Type 0 where
  read_tool write_tool delete_tool edit_tool resolve_tool : Tool
  ls_tool grep_tool explore_tool : Tool
  graph_tool diff_tool rebase_tool blame_tool log_tool show_tool : Tool
  mr_create_tool mr_list_tool mr_view_tool mr_review_tool mr_merge_tool : Tool
  fork_tool delete_bookmark_tool : Tool

module _ (host : Host) where
  unfoldable pub execute : Tool → Fields → Text → Text → Prog ToolResult
  execute read_tool args call_id session_name = Files.read host args session_name
  execute write_tool args call_id session_name = Writing.write host args session_name
  execute delete_tool args call_id session_name = Writing.delete host args session_name
  execute edit_tool args call_id session_name = Writing.edit host args session_name
  execute resolve_tool args call_id session_name = Writing.resolve_conflict host args session_name
  execute ls_tool args call_id session_name = Listing.ls host args session_name
  execute grep_tool args call_id session_name = Searching.grep host args session_name
  execute explore_tool args call_id session_name = Exploring.explore host args session_name
  execute graph_tool args call_id session_name = Graphs.graph host args session_name
  execute diff_tool args call_id session_name = Patches.diff host args session_name
  execute rebase_tool args call_id session_name = Graphs.rebase host args session_name
  execute blame_tool args call_id session_name = History.blame host args session_name
  execute log_tool args call_id session_name = History.log host args session_name
  execute show_tool args call_id session_name = Patches.show host args session_name
  execute mr_create_tool args call_id session_name = Changing.create host args session_name
  execute mr_list_tool args call_id session_name = Merges.list_open host args session_name
  execute mr_view_tool args call_id session_name = Merges.view host args session_name
  execute mr_review_tool args call_id session_name = Changing.review host args session_name
  execute mr_merge_tool args call_id session_name = Changing.merge host args session_name
  execute fork_tool args call_id session_name =
      Bookmarks.fork_bookmark host args call_id session_name
  execute delete_bookmark_tool args call_id session_name =
      Bookmarks.delete_bookmark host args call_id session_name
