-- ===== src/Tools/History/Graphs.antt =====
-- The tools git-graph and git-rebase (tools.go).
use repo_extension.Base.{ℕ, suc, Bool, false, List, [], ◌∷◌, ◌++◌, if◌then◌else◌}
use repo_extension.Base.Int.{pos, less}
use repo_extension.Base.Text.{Text, codes, is_empty}
use repo_extension.Base.Lists.{length}
use repo_extension.Errs.{Message, format, ◌%s◌, ◌%v◌, ◌%d◌, message_of}
use repo_extension.Json
use repo_extension.Json.{
  Json, array, boolean, Items, nil, cons, Fields, end, str_from, slice_of, as_map, map_or_nil,
}
use repo_extension.Effects.{raw, integer, Prog, ret, handle, ◌>>=◌}
use repo_extension.Http.{get_json, post_json, string_field, repo_path}
use repo_extension.I18n.{ef}
use repo_extension.Tools.Host.{
  Host, Value, string, flag, decoded, list, map, Values, no_values, value, string_values,
  no_entries, ◌=>◌⨾◌, ToolResult, tool_result, say, short_id, strings_of,
}
use repo_extension.Tools.Sessions.{session_base, ref_base}
use repo_extension.Tools.Listing.{query_params, comma_joined}

abbrev named : List Text → List Text
named [] = []
named (s ∷ rest) = if is_empty s then named rest else s ∷ named rest

-- bookmarkLabels
unfoldable pub bookmark_labels : Json → Text
bookmark_labels v = elim (named (strings_of (slice_of v))) [
  | [] ↦ []
  | n ∷ names ↦ codes " (" ++ (comma_joined (n ∷ names) ++ codes ")")
]

-- headLabel
unfoldable pub head_label : Bool → Text
head_label is_head = if is_head then codes " [HEAD]" else []

abbrev as_bool : Json → Bool
as_bool (boolean b) = b
as_bool _ = false

abbrev node_line : Fields → Message
node_line m =
    format "  %s %s%s%s\n"
    %s short_id (str_from m (codes "commit_id"))
    %s str_from m (codes "message")
    %s bookmark_labels (Json.get m (codes "bookmarks"))
    %s head_label (as_bool (Json.get m (codes "is_head")))

abbrev node_value : Fields → Value
node_value m = map (
    "commit_id"
    => string (str_from m (codes "commit_id")) ⨾ "change_id"
    => string (str_from m (codes "change_id")) ⨾ "message"
    => string (str_from m (codes "message")) ⨾ "author"
    => string (str_from m (codes "author")) ⨾ "parents"
    => decoded (Json.get m (codes "parents")) ⨾ "is_head"
    => flag (as_bool (Json.get m (codes "is_head"))) ⨾ "bookmarks"
    => decoded (Json.get m (codes "bookmarks")) ⨾ no_entries)

-- A node that is no map is a nil map.
unfoldable pub graph_nodes : Items → List Message × Values
unfolding bookmark_labels head_label short_id
graph_nodes nil = ([], no_values)
graph_nodes (cons e rest) =
    let (lines, meta) = graph_nodes rest in
    (node_line (map_or_nil e) ∷ lines, value (node_value (map_or_nil e)) meta)

abbrev count_items : Items → ℕ
count_items nil = 0
count_items (cons _ rest) = suc (count_items rest)

unfoldable pub show_graph : Text → Items → Prog ToolResult
unfolding graph_nodes
show_graph session_name nil =
    say session_name (format "no commits in graph.") (format "图中无提交。")
      ("graph" => list no_values ⨾ no_entries)
show_graph session_name (cons e rest) =
    let (lines, meta) = graph_nodes (cons e rest) in
    ret (
      tool_result ((format "commit graph (%d nodes):\n" %d count_items (cons e rest)) ∷ lines)
        ("graph" => list meta ⨾ no_entries))

-- The result of git-rebase, with its conflicts.
abbrev pub show_rebased : Text → Text → Text → Text → Text → List Text → Prog ToolResult
show_rebased session_name source b commit_id change_id (c ∷ cs) =
    say session_name
      (format "rebased '%s' onto '%s' with %d conflict(s): %s"
        %s source
        %s b
        %d length (c ∷ cs)
        %s comma_joined (c ∷ cs))
      (format "已将 '%s' 变基到 '%s' 上，共 %d 个冲突：%s"
        %s source
        %s b
        %d length (c ∷ cs)
        %s comma_joined (c ∷ cs))
      ("commit_id"
        => string commit_id ⨾ "change_id"
        => string change_id ⨾ "conflicts"
        => list (string_values (c ∷ cs)) ⨾ no_entries)
show_rebased session_name source b commit_id change_id [] =
    say session_name
      (format "rebased '%s' onto '%s' (tip %s, change %s)."
        %s source
        %s b
        %s short_id commit_id
        %s short_id change_id)
      (format "已将 '%s' 变基到 '%s'（尖端 %s，变更 %s）。"
        %s source
        %s b
        %s short_id commit_id
        %s short_id change_id)
      ("commit_id"
        => string commit_id ⨾ "change_id"
        => string change_id ⨾ "conflicts"
        => list no_values ⨾ no_entries)

-- The result for the map of the reply's `rebase`.
unfoldable pub show_rebase : Text → Text → Text → Fields → Prog ToolResult
unfolding short_id
show_rebase session_name source b sum =
    show_rebased session_name source b (str_from sum (codes "commit_id"))
      (str_from sum (codes "change_id")) (strings_of (slice_of (Json.get sum (codes "conflicts"))))

abbrev pub post_rebase : Text → Text → Text → Text → Prog Fields
post_rebase o r source dest =
    post_json (repo_path o r (raw "/rebase" ∷ []))
      (string_field "source" source (string_field "dest" dest end))

module _ (host : Host) where
  unfoldable pub graph : Fields → Text → Prog ToolResult
  unfolding ref_base show_graph
  graph args session_name = do
    (o, r, _) ← ref_base host args session_name
    let limit = host.arg_int args "limit" (pos 0)
    handle
        (get_json (
          repo_path o r (
            raw "/graph?"
            ∷ query_params (if less (pos 0) limit then ("limit", integer limit) ∷ [] else []))))
        (λ v. show_graph session_name (slice_of (Json.get v (codes "graph"))))
        (λ e.
          ef session_name (format "failed to get graph: %v" %v message_of e)
            (format "获取图失败：%v" %v message_of e))

  unfoldable pub rebase : Fields → Text → Prog ToolResult
  unfolding session_base show_rebase
  rebase args session_name = do
    (o, r, b) ← session_base session_name
    let source = host.arg_string args "source"
    if is_empty source
        then ef session_name (format "missing 'source' argument") (format "缺少 'source' 参数")
        else handle (post_rebase o r source b)
            (λ v. show_rebase session_name source b (map_or_nil (Json.get v (codes "rebase"))))
            (λ e.
              ef session_name (format "rebase failed: %v" %v message_of e)
                (format "变基失败：%v" %v message_of e))
