-- ===== src/Tools/Effect/Execute.antt =====
-- What the tools call, by their names (tools.go: handlers).
use repo_extension.Base.Text.{Text}
use repo_extension.Json.{Fields}
use repo_extension.Tools.Host.{Host}
use repo_extension.Tools.Dispatch.{
  Tool, read_tool, write_tool, delete_tool, edit_tool, resolve_tool, ls_tool, grep_tool,
  explore_tool, graph_tool, diff_tool, rebase_tool, blame_tool, log_tool, show_tool, mr_create_tool,
  mr_list_tool, mr_view_tool, mr_review_tool, mr_merge_tool, fork_tool, delete_bookmark_tool,
  execute,
}
use repo_extension.Tools.Effect.{Policy, IsSafe}
use repo_extension.Tools.Effect.Requests.{Grants}
use repo_extension.Tools.Effect.Readers
use repo_extension.Tools.Effect.Writers
use repo_extension.Tools.Effect.Proposals
use repo_extension.Tools.Effect.Merging

-- The tools that only read.
abbrev pub IsReader : Tool → Type 0
IsReader read_tool = Unit
IsReader ls_tool = Unit
IsReader grep_tool = Unit
IsReader explore_tool = Unit
IsReader graph_tool = Unit
IsReader diff_tool = Unit
IsReader blame_tool = Unit
IsReader log_tool = Unit
IsReader show_tool = Unit
IsReader mr_list_tool = Unit
IsReader mr_view_tool = Unit
IsReader _ = ⊥

module _ (p : Policy) (host : Host) (args : Fields) (call_id sid : Text) where
  pub reader-IsSafe : (tool : Tool) → IsReader tool → IsSafe p (execute host tool args call_id sid)
  unfolding execute
  reader-IsSafe read_tool h = Readers.read-IsSafe p host args sid
  reader-IsSafe ls_tool h = Readers.ls-IsSafe p host args sid
  reader-IsSafe grep_tool h = Readers.grep-IsSafe p host args sid
  reader-IsSafe explore_tool h = Readers.explore-IsSafe p host args sid
  reader-IsSafe graph_tool h = Readers.graph-IsSafe p host args sid
  reader-IsSafe diff_tool h = Readers.diff-IsSafe p host args sid
  reader-IsSafe blame_tool h = Readers.blame-IsSafe p host args sid
  reader-IsSafe log_tool h = Readers.log-IsSafe p host args sid
  reader-IsSafe show_tool h = Readers.show-IsSafe p host args sid
  reader-IsSafe mr_list_tool h = Readers.list_open-IsSafe p host args sid
  reader-IsSafe mr_view_tool h = Readers.view-IsSafe p host args sid
  reader-IsSafe write_tool h = absurd h
  reader-IsSafe delete_tool h = absurd h
  reader-IsSafe edit_tool h = absurd h
  reader-IsSafe resolve_tool h = absurd h
  reader-IsSafe rebase_tool h = absurd h
  reader-IsSafe mr_create_tool h = absurd h
  reader-IsSafe mr_review_tool h = absurd h
  reader-IsSafe mr_merge_tool h = absurd h
  reader-IsSafe fork_tool h = absurd h
  reader-IsSafe delete_bookmark_tool h = absurd h

  module _ (grants : Grants p sid (host.arg_string args "target")) where
    pub execute-IsSafe : (tool : Tool) → IsSafe p (execute host tool args call_id sid)
    unfolding execute
    execute-IsSafe read_tool = reader-IsSafe read_tool tt
    execute-IsSafe ls_tool = reader-IsSafe ls_tool tt
    execute-IsSafe grep_tool = reader-IsSafe grep_tool tt
    execute-IsSafe explore_tool = reader-IsSafe explore_tool tt
    execute-IsSafe graph_tool = reader-IsSafe graph_tool tt
    execute-IsSafe diff_tool = reader-IsSafe diff_tool tt
    execute-IsSafe blame_tool = reader-IsSafe blame_tool tt
    execute-IsSafe log_tool = reader-IsSafe log_tool tt
    execute-IsSafe show_tool = reader-IsSafe show_tool tt
    execute-IsSafe mr_list_tool = reader-IsSafe mr_list_tool tt
    execute-IsSafe mr_view_tool = reader-IsSafe mr_view_tool tt
    execute-IsSafe write_tool = Writers.write-IsSafe p sid _ grants host args
    execute-IsSafe delete_tool = Writers.delete-IsSafe p sid _ grants host args
    execute-IsSafe edit_tool = Writers.edit-IsSafe p sid _ grants host args
    execute-IsSafe resolve_tool = Writers.resolve_conflict-IsSafe p sid _ grants host args
    execute-IsSafe rebase_tool = Writers.rebase-IsSafe p sid _ grants host args
    execute-IsSafe mr_create_tool = Merging.create-IsSafe p sid host args grants
    execute-IsSafe mr_review_tool = Merging.review-IsSafe p sid _ grants host args
    execute-IsSafe mr_merge_tool = Merging.merge-IsSafe p sid _ grants host args
    execute-IsSafe fork_tool = Proposals.fork_bookmark-IsSafe p sid _ grants host args call_id
    execute-IsSafe delete_bookmark_tool =
        Proposals.delete_bookmark-IsSafe p sid _ grants host args call_id
