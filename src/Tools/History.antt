-- ===== src/Tools/History.antt =====
-- The tools git-blame and git-log (tools.go).
pub mod Patches
pub mod Narrowing
pub mod Graphs
use repo_extension.Base.{
  ℕ, zero, suc, ◌==◌, String, Bool, false, ◌||◌, Option, none, some, List, [], ◌∷◌, ◌++◌,
  if◌then◌else◌,
}
use repo_extension.Base.Int.{pos, less}
use repo_extension.Base.Text.{Text, codes, is_empty, text_eq}
use repo_extension.Base.Lists.{length}
use repo_extension.Errs.{Message, format, ◌%s◌, ◌%v◌, ◌%d◌, message_of}
use repo_extension.Json
use repo_extension.Json.{
  Json, array, boolean, Items, nil, cons, Fields, end, str_from, slice_of, as_map, map_or_nil,
}
use repo_extension.Effects.{
  Piece, raw, path_escape, query_escape, integer, Prog, ret, handle, ◌>>=◌,
}
use repo_extension.Http.{get_json, post_json, string_field, repo_path}
use repo_extension.I18n.{ef}
use repo_extension.Tools.{newline, ends_newline}
use repo_extension.Tools.Host.{
  Host, Value, string, flag, decoded, list, map, Values, no_values, value, string_values,
  no_entries, ◌=>◌⨾◌, ToolResult, tool_result, say, or_default, short_id, strings_of,
}
use repo_extension.Tools.Sessions.{session_base, ref_base, session_base_xo}
use repo_extension.Tools.Listing.{query_params, optional, comma_joined}
use repo_extension.Tools.Files.{esc_path}

-- An annotation's line, with a newline where it has none.
abbrev blame_line : Fields → Message
blame_line m =
    let content = str_from m (codes "content") in
    (if ends_newline content then format "  %s: %s" else format "  %s: %s\n")
    %s short_id (or_default (str_from m (codes "change_id")) (str_from m (codes "commit_id")))
    %s content

unfoldable pub blame_lines : Items → List Message × Values
unfolding short_id ends_newline
blame_lines nil = ([], no_values)
blame_lines (cons a rest) =
    let (lines, meta) = blame_lines rest in
    elim (as_map a) [
      | none ↦ (lines, meta)
      | some m ↦ (
        blame_line m ∷ lines,
        value
            (map (
              "commit_id"
              => string (str_from m (codes "commit_id")) ⨾ "change_id"
              => string (str_from m (codes "change_id")) ⨾ "content"
              => string (str_from m (codes "content")) ⨾ no_entries))
            meta,
      )
    ]

-- commitInfo
pub record CommitInfo : Type 0 where
  pub change_id : Text
  pub message : Text
  pub author : Text

abbrev commits_of : Items → List CommitInfo
commits_of nil = []
commits_of (cons e rest) = elim (as_map e) [
  | none ↦ commits_of rest
  | some m ↦
      record {
        change_id = str_from m (codes "change_id");
        message = str_from m (codes "description");
        author = str_from m (codes "author");
      }
      ∷ commits_of rest
]

unfoldable pub to_commits : Fields → List CommitInfo
to_commits v = commits_of (slice_of (Json.get v (codes "commits")))

unfoldable pub commit_lines : List CommitInfo → List Message × Values
unfolding short_id
commit_lines [] = ([], no_values)
commit_lines (c ∷ cs) =
    let (lines, meta) = commit_lines cs in
    (
      (format "  %s %s（%s）\n"
            %s short_id c.change_id
            %s or_default c.message (codes "(no description)")
            %s c.author)
          ∷ lines,
      value
          (map (
            "change_id"
            => string c.change_id ⨾ "message"
            => string c.message ⨾ "author"
            => string c.author ⨾ no_entries))
          meta,
    )

unfoldable pub show_commits : Text → List CommitInfo → Prog ToolResult
unfolding commit_lines
show_commits session_name [] =
    say session_name (format "no commits.") (format "无提交。")
      ("commits" => list no_values ⨾ no_entries)
show_commits session_name (c ∷ cs) =
    let (lines, meta) = commit_lines (c ∷ cs) in
    ret (
      tool_result ((format "latest %d commit(s):\n" %d length (c ∷ cs)) ∷ lines)
        ("commits" => list meta ⨾ no_entries))

module _ (host : Host) where
  unfoldable pub blame : Fields → Text → Prog ToolResult
  unfolding session_base_xo blame_lines esc_path
  blame args session_name = do
    (o, r, _) ← session_base_xo host args session_name
    let rev = or_default (host.arg_string args "rev") (codes "main")
    let path = host.arg_string args "path"
    if is_empty path
        then ef session_name (format "missing 'path' argument") (format "缺少 'path' 参数")
        else handle
            (get_json (
              repo_path o r (
                raw "/annotate/"
                ∷ (esc_path path ++ (raw "?" ∷ query_params (("rev", query_escape rev) ∷ []))))))
            (λ v.
              let (lines, meta) = blame_lines (slice_of (Json.get v (codes "annotations"))) in
              ret (
                tool_result ((format "per-line origin of file '%s':\n" %s path) ∷ lines)
                  ("lines" => list meta ⨾ no_entries)))
            (λ e.
              ef session_name (format "failed to get blame: %v" %v message_of e)
                (format "获取 blame 失败：%v" %v message_of e))

  abbrev log_query : Fields → Text → List (String × Piece)
  log_query args b =
      ("limit", integer (host.arg_int args "limit" (pos 50)))
      ∷ ("page", raw "1")
      ∷ ("sha", query_escape (or_default (host.arg_string args "rev") b))
      ∷ (optional "since" (host.arg_string args "since")
          ++ optional "until" (host.arg_string args "until"))

  unfoldable pub log : Fields → Text → Prog ToolResult
  unfolding session_base to_commits show_commits
  log args session_name = do
    (o, r, b) ← session_base session_name
    handle (get_json (repo_path o r (raw "/commits?" ∷ query_params (log_query args b))))
        (λ v. show_commits session_name (to_commits v))
        (λ e.
          ef session_name (format "failed to get commit history: %v" %v message_of e)
            (format "获取提交历史失败：%v" %v message_of e))
