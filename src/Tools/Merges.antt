-- ===== src/Tools/Merges.antt =====
-- The tools mr-list and mr-view (tools.go).
pub mod Changing
pub mod Guards
use repo_extension.Base.{
  ℕ, suc, String, not, ◌&&◌, none, some, List, [], ◌∷◌, ◌++◌, ltb, if◌then◌else◌,
}
use repo_extension.Base.Int.{ℤ, pos, less, magnitude}
use repo_extension.Base.Text.{Text, codes, is_empty, text_eq}
use repo_extension.Base.Lists.{length, take}
use repo_extension.Names.{Triple, naming_session}
use repo_extension.Errs.{Message, format, ◌%s◌, ◌%v◌, ◌%d◌, ◌%int64◌, ◌%json◌, message_of}
use repo_extension.Json
use repo_extension.Json.{
  Json, number, object, Items, nil, cons, Fields, str_from, slice_of, as_map, map_or_nil,
}
use repo_extension.Effects.{Prog, ret, handle, ◌>>=◌, ◌>>◌}
use repo_extension.I18n.{ef, tell}
use repo_extension.Session.{adopt_bookmark}
use repo_extension.Jjlab.MergeRequests.{
  create_mr, list_mrs, get_mr, mr_diff, add_mr_review, update_mr_state, list_mr_reviews,
  list_mr_comments,
}
use repo_extension.Tools.Host.{
  Host, string, count, decoded, list, Values, no_values, value, string_values, no_entries, ◌=>◌⨾◌,
  ToolResult, tool_result, tool_reply, say, or_default, short_id, strings_of,
}
use repo_extension.Tools.Sessions.{session_base}
use repo_extension.Tools.Listing.{comma_joined}
use repo_extension.Tools.History.Graphs.{post_rebase}

abbrev count_items : Items → ℕ
count_items nil = 0
count_items (cons _ rest) = suc (count_items rest)

abbrev json_at : Fields → String → Json
json_at m k = Json.get m (codes k)

-- A merge request of a listing; one that is no map is a nil map.
unfoldable pub mr_lines : Items → List Message × Values
mr_lines nil = ([], no_values)
mr_lines (cons e rest) =
    let m = map_or_nil e in
    let (lines, meta) = mr_lines rest in
    (
      (format "  #%v  %s → %s  [%s]  %v\n"
            %json json_at m "number"
            %json json_at m "head_bookmark"
            %json json_at m "base"
            %json json_at m "state"
            %json json_at m "title")
          ∷ lines,
      value (decoded (object m)) meta,
    )

unfoldable pub show_mrs : Text → Text → Items → Prog ToolResult
unfolding mr_lines
show_mrs session_name state nil =
    say session_name (format "no %s merge requests." %s state) (format "没有 %s 状态的合并请求。" %s state)
      ("mrs" => list no_values ⨾ no_entries)
show_mrs session_name state (cons e rest) =
    let (lines, meta) = mr_lines (cons e rest) in
    ret (
      tool_result ((format "merge requests (%d):\n" %d count_items (cons e rest)) ∷ lines)
        ("mrs" => list meta ⨾ no_entries))

abbrev invalid_number : {A : Type 0} → Text → Prog A
invalid_number session_name =
    ef session_name (format "missing or invalid 'mr' argument") (format "缺少或无效的 'mr' 参数")

abbrev not_fetched : {A : Type 0} → Text → ℕ → Message → Prog A
not_fetched session_name n e =
    ef session_name (format "failed to fetch merge request #%d: %v" %d n %v e)
      (format "获取合并请求 #%d：%v" %d n %v e)

-- The head of mr-view, its arguments in the order of the source.
abbrev view_header : Fields → Message
view_header mr =
    format "MR #%v  %s\n  state: %s  review: %s\n  head: %s → base: %s\n  title: %v\n\n"
    %json json_at mr "number"
    %json json_at mr "state"
    %json json_at mr "state"
    %json json_at mr "review_state"
    %json json_at mr "head_bookmark"
    %json json_at mr "base"
    %json json_at mr "title"

unfoldable pub clipped : Text → Message
clipped s =
    if ltb 8000 (length s) then format "%s\n… (diff truncated)" %s take 8000 s else format "%s" %s s

abbrev review_lines : Items → List Message
review_lines nil = []
review_lines (cons e rest) = elim (as_map e) [
  | none ↦ review_lines rest
  | some rv ↦
      (format "  [%v] %v\n" %json json_at rv "state" %json json_at rv "body") ∷ review_lines rest
]

abbrev comment_lines : Items → List Message
comment_lines nil = []
comment_lines (cons e rest) = elim (as_map e) [
  | none ↦ comment_lines rest
  | some cm ↦ (format "  %v\n" %json json_at cm "body") ∷ comment_lines rest
]

abbrev titled : String → (Items → List Message) → Items → List Message
titled title lines nil = []
titled title lines (cons e rest) = (format title %d count_items (cons e rest)) ∷ lines (cons e rest)

-- A part of mr-view that is left out when its request fails.
abbrev pub or_nothing : {A : Type 0} → Prog A → (A → List Message) → Prog (List Message)
or_nothing m f = handle m (λ a. ret (f a)) (λ _. ret [])

module _ (host : Host) where
  unfoldable pub list_open : Fields → Text → Prog ToolResult
  unfolding session_base show_mrs
  list_open args session_name = do
    (o, r, _) ← session_base session_name
    let state = or_default (host.arg_string args "state") (codes "open")
    handle (list_mrs o r state) (show_mrs session_name state) (λ e.
        ef session_name (format "failed to list merge requests: %v" %v message_of e)
          (format "列出合并请求失败：%v" %v message_of e))

  -- The tests of mr-view, mr-review and mr-merge on their number.
  abbrev pub with_number : Fields → Text → (ℕ → Prog ToolResult) → Prog ToolResult
  with_number args session_name f =
      let number = host.arg_int args "mr" (pos 0) in
      if less (pos 0) number then f (magnitude number) else invalid_number session_name

  -- mr-view for a merge request that was fetched.
  unfoldable pub view_fetched : Text → Text → ℕ → Fields → Prog ToolResult
  unfolding clipped
  view_fetched o r n mr = do
    shown ←
        or_nothing (mr_diff o r n) (λ d. (format "diff:\n%s\n" %v clipped (host.print_map d)) ∷ [])
    reviews ← or_nothing (list_mr_reviews o r n) (titled "\nreviews (%d):\n" review_lines)
    comments ← or_nothing (list_mr_comments o r n) (titled "\ncomments (%d):\n" comment_lines)
    ret (tool_reply (view_header mr ∷ (shown ++ (reviews ++ comments))) mr)

  unfoldable pub view : Fields → Text → Prog ToolResult
  unfolding session_base view_fetched
  view args session_name = do
    (o, r, _) ← session_base session_name
    with_number args session_name (λ n.
        handle (get_mr o r n) (view_fetched o r n) (λ e. not_fetched session_name n (message_of e)))
