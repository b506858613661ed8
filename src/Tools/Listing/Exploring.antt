-- ===== src/Tools/Listing/Exploring.antt =====
-- The tool explore (tools.go).
use repo_extension.Base.{Bool, true, false, not, List, [], ◌∷◌, ◌++◌, if◌then◌else◌}
use repo_extension.Base.Text.{Text, codes, is_empty, text_eq, contains}
use repo_extension.Base.Lists.{length}
use repo_extension.Errs.{Message, format, ◌%s◌, ◌%v◌, ◌%d◌, message_of}
use repo_extension.Json.{Fields}
use repo_extension.Effects.{Prog, ret, handle}
use repo_extension.Jjlab.{get_repo_tree}
use repo_extension.Jjlab.Tree.{BookmarkInfo, Repos, RepoTree}
use repo_extension.I18n.{ef}
use repo_extension.Tools.Host.{
  Host, string, list, map, Values, no_values, value, no_entries, ◌=>◌⨾◌, ToolResult, tool_result,
  say, short_id,
}
use repo_extension.Tools.Listing.{comma_joined}

-- The texts of bookmarkTargets: name(target)
abbrev targets : List BookmarkInfo → List Text
targets [] = []
targets (b ∷ bms) = (b.name ++ (codes "(" ++ (short_id b.sha ++ codes ")"))) ∷ targets bms

unfoldable pub bookmark_targets : List BookmarkInfo → Text
unfolding short_id
bookmark_targets bms = comma_joined (targets bms)

unfoldable pub bookmark_meta : List BookmarkInfo → Values
bookmark_meta [] = no_values
bookmark_meta (b ∷ bms) =
    value (map ("bookmark" => string b.name ⨾ "sha" => string b.sha ⨾ no_entries))
      (bookmark_meta bms)

-- A filter argument that is empty lets everything pass.
abbrev passes : Text → Text → Text → Bool
passes wanted keyword name =
    if not (is_empty wanted)
    then (if text_eq name wanted then has_keyword else false)
    else has_keyword
  where
    has_keyword : Bool
    has_keyword = if is_empty keyword then true else contains name keyword

-- The repositories of explore, in the order of the tree: Go leaves the order of its maps open.
unfoldable pub explore_repos : Text → Text → Repos → List Message × Values
unfolding bookmark_targets bookmark_meta contains
explore_repos repo_arg keyword [] = ([], no_values)
explore_repos repo_arg keyword ((repo, bms) ∷ repos) =
    let (lines, meta) = explore_repos repo_arg keyword repos in
    if passes repo_arg keyword repo
    then (
      (format "  - %s (bookmarks: %s)\n" %s repo %s bookmark_targets bms) ∷ lines,
      value (map ("repo" => string repo ⨾ "bookmarks" => list (bookmark_meta bms) ⨾ no_entries))
          meta,
    )
    else (lines, meta)

unfoldable pub explore_orgs : Text → Text → Text → RepoTree → List Message × Values
unfolding explore_repos
explore_orgs org_arg repo_arg keyword [] = ([], no_values)
explore_orgs org_arg repo_arg keyword ((org, repos) ∷ orgs) =
    let (lines, meta) = explore_orgs org_arg repo_arg keyword orgs in
    let (repo_lines, repo_meta) = explore_repos repo_arg keyword repos in
    if passes org_arg keyword org
    then (
      (format "organization '%s' (%d repo(s)):\n" %s org %d length repos) ∷ (repo_lines ++ lines),
      value (map ("org" => string org ⨾ "repos" => list repo_meta ⨾ no_entries)) meta,
    )
    else (lines, meta)

unfoldable pub show_orgs : Text → List Message → Values → Prog ToolResult
show_orgs session_name lines no_values =
    say session_name (format "no organizations or repositories.") (format "没有组织或仓库。")
      ("orgs" => list no_values ⨾ no_entries)
show_orgs session_name lines (value m meta) =
    ret (tool_result lines ("orgs" => list (value m meta) ⨾ no_entries))

module _ (host : Host) where
  unfoldable pub explore : Fields → Text → Prog ToolResult
  unfolding explore_orgs show_orgs
  explore args session_name =
      handle get_repo_tree
        (λ tree.
          let (lines, meta) =
            explore_orgs (host.arg_string args "org") (host.arg_string args "repo")
              (host.arg_string args "keyword") tree in
          show_orgs session_name lines meta)
        (λ e.
          ef session_name (format "failed to browse structure: %v" %v message_of e)
            (format "浏览结构失败：%v" %v message_of e))
