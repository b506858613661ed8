-- ===== src/Tools/History/Patches.antt =====
-- The tools git-diff and git-show (tools.go).
use repo_extension.Base.{
  ℕ, zero, suc, ◌==◌, Bool, false, ◌||◌, Option, none, some, List, [], ◌∷◌, ◌++◌, if◌then◌else◌,
}
use repo_extension.Base.Text.{Text, codes, is_empty, text_eq}
use repo_extension.Base.Lists.{length}
use repo_extension.Errs.{Message, format, ◌%s◌, ◌%v◌, message_of}
use repo_extension.Json.{Fields, str_from}
use repo_extension.Effects.{raw, path_escape, query_escape, Prog, handle, ◌>>=◌}
use repo_extension.Http.{get_json, repo_path}
use repo_extension.I18n.{ef}
use repo_extension.Tools.{newline}
use repo_extension.Tools.Host.{Host, string, no_entries, ◌=>◌⨾◌, ToolResult, say}
use repo_extension.Tools.Sessions.{session_base, session_base_xo}
use repo_extension.Tools.Listing.{query_params}

-- The parts between the separators of strings.Split(diff, "\ndiff --git "); `here` is the part that
-- the scan is in.
abbrev block_mark : Text
block_mark = newline ∷ codes "diff --git "

-- The text behind a prefix.
unfoldable pub without_prefix : Text → Text → Option Text
without_prefix [] s = some s
without_prefix (c ∷ p) [] = none
without_prefix (c ∷ p) (d ∷ s) = if c == d then without_prefix p s else none

-- `skip` bytes of a separator are still to be passed over.
unfoldable pub split_blocks : ℕ → Text → List Text
unfolding without_prefix
split_blocks skip [] = [] ∷ []
split_blocks (suc skip) (c ∷ s) = split_blocks skip s
split_blocks zero (c ∷ s) = elim (without_prefix block_mark (c ∷ s)) [
  | some _ ↦ [] ∷ split_blocks (length (codes "diff --git ")) s
  | none ↦ put_first c (split_blocks 0 s)
]
  where
    put_first : ℕ → List Text → List Text
    put_first c [] = (c ∷ []) ∷ []
    put_first c (b ∷ bs) = (c ∷ b) ∷ bs

-- trimmed[:i] for the first newline.
unfoldable pub first_text_line : Text → Option Text
first_text_line [] = none
first_text_line (c ∷ s) =
    if c == newline
    then some []
    else elim (first_text_line s) [ none ↦ none | some l ↦ some (c ∷ l) ]

abbrev pub is_block_of : Text → Text → Bool
is_block_of header block = elim (first_text_line block) [ none ↦ false | some l ↦ text_eq l header ]

abbrev pub blocks_of : Text → List Text → List Text
blocks_of header [] = []
blocks_of header (block ∷ blocks) =
    if is_block_of header block
    then (codes "diff --git " ++ block) ∷ blocks_of header blocks
    else blocks_of header blocks

abbrev pub newline_joined : List Text → Text
newline_joined [] = []
newline_joined (p ∷ []) = p
newline_joined (p ∷ q ∷ ps) = p ++ (newline ∷ newline_joined (q ∷ ps))

unfoldable pub diff_for_path : Text → Text → Text
unfolding split_blocks first_text_line
diff_for_path diff path =
    newline_joined (blocks_of (codes "a/" ++ (path ++ (codes " b/" ++ path))) (split_blocks 0 diff))

module _ (host : Host) where
  -- The scope of a diff, as it is printed.
  abbrev scope_of : Text → Message
  scope_of path = if is_empty path then format "tree" else format "file '%s'" %s path

  unfoldable pub show_diff : Text → Text → Text → Text → Text → Prog ToolResult
  unfolding diff_for_path
  show_diff session_name path rev_a rev_b whole =
      let diff = if is_empty path then whole else diff_for_path whole path in
      let entries =
        "path" => string path ⨾ "rev-a" => string rev_a ⨾ "rev-b" => string rev_b ⨾ no_entries in
      if is_empty (host.trim_space diff)
      then say session_name
          (format "no diff between '%s' and '%s' (%s)." %s rev_a %s rev_b %v scope_of path)
          (format "'%s' 与 '%s' 之间无差异（%s）。" %s rev_a %s rev_b %v scope_of path) entries
      else say session_name
          (format "diff (%s) between '%s'..'%s':\n%s" %v scope_of path %s rev_a %s rev_b %s diff)
          (format "差异（%s）介于 '%s'..'%s'：\n%s" %v scope_of path %s rev_a %s rev_b %s diff) entries

  unfoldable pub diff : Fields → Text → Prog ToolResult
  unfolding session_base_xo show_diff
  diff args session_name = do
    (o, r, _) ← session_base_xo host args session_name
    let rev_a = host.arg_string args "rev-a"
    let rev_b = host.arg_string args "rev-b"
    if is_empty rev_a || is_empty rev_b
        then ef session_name (format "rev_a and rev_b are required") (format "rev_a 与 rev_b 均为必填")
        else handle
            (get_json (
              repo_path o r (
                raw "/compare?"
                ∷ query_params (("base", query_escape rev_a) ∷ ("head", query_escape rev_b) ∷ []))))
            (λ v.
              show_diff session_name (host.arg_string args "path") rev_a rev_b
                (str_from v (codes "diff")))
            (λ e.
              ef session_name (format "failed to get diff: %v" %v message_of e)
                (format "获取差异失败：%v" %v message_of e))

  unfoldable pub show : Fields → Text → Prog ToolResult
  unfolding session_base
  show args session_name = do
    (o, r, _) ← session_base session_name
    let rev = host.arg_string args "rev"
    if is_empty rev
        then ef session_name (format "missing 'rev' argument") (format "缺少 'rev' 参数")
        else handle
            (get_json (repo_path o r (raw "/commits/" ∷ path_escape rev ∷ raw "/diff" ∷ [])))
            (λ v.
              let shown = str_from v (codes "diff") in
              if is_empty (host.trim_space shown)
              then say session_name (format "change '%s' has no content diff." %s rev)
                  (format "变更 '%s' 没有内容差异。" %s rev) ("rev" => string rev ⨾ no_entries)
              else say session_name (format "changes of '%s':\n%s" %s rev %s shown)
                  (format "'%s' 的变更：\n%s" %s rev %s shown)
                  ("rev" => string rev ⨾ "patch" => string shown ⨾ no_entries))
            (λ e.
              ef session_name (format "failed to view change: %v" %v message_of e)
                (format "查看变更失败：%v" %v message_of e))
