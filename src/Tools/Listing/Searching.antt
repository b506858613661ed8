-- ===== src/Tools/Listing/Searching.antt =====
-- The tool grep (tools.go).
use repo_extension.Base.{List, [], ◌∷◌, ◌++◌, if◌then◌else◌}
use repo_extension.Base.Int.{ℤ, pos}
use repo_extension.Base.Text.{Text, codes, is_empty}
use repo_extension.Base.Lists.{length}
use repo_extension.Errs.{Message, format, ◌%s◌, ◌%v◌, ◌%d◌, message_of}
use repo_extension.Json
use repo_extension.Json.{
  Json, array, text, number, Items, nil, cons, Fields, str_from, slice_of, as_map,
}
use repo_extension.Effects.{raw, query_escape, Prog, ret, handle, ◌>>=◌}
use repo_extension.Http.{get_json, repo_path}
use repo_extension.I18n.{ef}
use repo_extension.Tools.{split_match}
use repo_extension.Tools.Host.{
  Host, Value, string, count, flag, list, map, Values, no_values, value, no_entries, ◌=>◌⨾◌,
  ToolResult, tool_result, say, strings_of, size_of,
}
use repo_extension.Tools.Sessions.{ref_base}
use repo_extension.Tools.Listing.{query_params, optional, limited, truncation}

abbrev match_lines : List Text → List Message
match_lines [] = []
match_lines (m ∷ ms) = (format "  %s\n" %s m) ∷ match_lines ms

abbrev match_value : Text × Text × Text → Value
match_value (path, line, rest) =
    map ("path" => string path ⨾ "line" => string line ⨾ "text" => string rest ⨾ no_entries)

unfoldable pub parsed_matches : List Text → Values
unfolding split_match
parsed_matches [] = no_values
parsed_matches (m ∷ ms) = value (match_value (split_match m)) (parsed_matches ms)

module _ (host : Host) where
  -- The arguments of the first texts stand in the order of the source.
  unfoldable pub show_matches : Text → Text → Text → ℤ → List Text → Prog ToolResult
  unfolding limited parsed_matches
  show_matches session_name b pattern max [] =
      say session_name (format "no matches for '%s' in rev '%s'." %s b %s pattern)
        (format "在版本 '%s' 中未找到 '%s' 的匹配。" %s b %s pattern)
        ("matches" => list no_values ⨾ "count" => count (pos 0) ⨾ no_entries)
  show_matches session_name b pattern max (m ∷ ms) =
      let (shown, truncated) = limited max (m ∷ ms) in
      ret (
        tool_result
          ((format "found %d match(es):\n" %d length shown)
            ∷ (match_lines shown
                ++ truncation "\n(results truncated; narrow the pattern or path)\n" truncated))
          ("matches"
            => list (parsed_matches shown) ⨾ "count"
            => count (size_of shown) ⨾ "truncated"
            => flag truncated ⨾ no_entries))

  unfoldable pub grep : Fields → Text → Prog ToolResult
  unfolding ref_base show_matches
  grep args session_name = do
    (o, r, b) ← ref_base host args session_name
    let pattern = host.arg_string args "pattern"
    if is_empty pattern
        then ef session_name (format "missing 'pattern' argument") (format "缺少 'pattern' 参数")
        else handle
            (get_json (
              repo_path o r (
                raw "/search?"
                ∷ query_params (
                    optional "path" (host.arg_string args "path")
                    ++ (("pattern", query_escape pattern) ∷ ("ref", query_escape b) ∷ [])))))
            (λ v.
              show_matches session_name b pattern (host.arg_int args "max" (pos 0))
                (strings_of (slice_of (Json.get v (codes "matches")))))
            (λ e.
              ef session_name (format "search failed: %v" %v message_of e)
                (format "搜索失败：%v" %v message_of e))
