-- ===== src/Tools/Merges/Changing.antt =====
-- The tools mr-create, mr-review and mr-merge (tools.go).
use repo_extension.Base.{ℕ, not, ◌&&◌, List, [], ◌∷◌, ◌++◌, if◌then◌else◌}
use repo_extension.Base.Int.{ℤ, pos}
use repo_extension.Base.Text.{Text, codes, is_empty, text_eq}
use repo_extension.Base.Lists.{length}
use repo_extension.Names.{Triple, naming_session}
use repo_extension.Errs.{Message, format, ◌%s◌, ◌%v◌, ◌%d◌, ◌%int64◌, message_of}
use repo_extension.Json.{Json, number, Fields, str_from, slice_of, map_or_nil}
use repo_extension.Effects.{Prog, ret, handle, ◌>>=◌, ◌>>◌}
use repo_extension.I18n.{ef, tell}
use repo_extension.Session.{adopt_bookmark}
use repo_extension.Jjlab.MergeRequests.{create_mr, get_mr, add_mr_review, update_mr_state}
use repo_extension.Tools.Host.{
  Host, string, count, list, string_values, no_entries, ◌=>◌⨾◌, ToolResult, say, or_default,
  short_id, strings_of,
}
use repo_extension.Tools.Sessions.{session_base}
use repo_extension.Tools.Listing.{comma_joined}
use repo_extension.Tools.History.Graphs.{post_rebase}
use repo_extension.Tools.Merges.{json_at, not_fetched, with_number}

-- reviewSuffix and reviewSuffixZh, as texts that Sprintf makes.
unfoldable pub review_suffix : Text → Message
review_suffix body = if is_empty body then format "" else format ": %s" %s body

unfoldable pub review_suffix_zh : Text → Message
review_suffix_zh body = if is_empty body then format "" else format "：%s" %s body

abbrev prompt : Text → Message → Message → Prog Unit
prompt target en zh = tell target "user_prompt" "text" en zh

-- The verdict of mr-review for the session that asked.
unfoldable pub tell_verdict : ℕ → Text → Text → Text → Prog Unit
unfolding review_suffix review_suffix_zh
tell_verdict n state body head_session =
    if text_eq state (codes "approved")
    then prompt head_session
        (format "merge request #%d passed review%s." %d n %v review_suffix body)
        (format "合并请求 #%d 已通过评审%s。" %d n %v review_suffix_zh body)
    else prompt head_session
        (format "merge request #%d was rejected in review%s." %d n %v review_suffix body)
        (format "合并请求 #%d 在评审中被拒绝%s。" %d n %v review_suffix_zh body)

-- The session of the head's bookmark learns the verdict, unless it gave it.
unfoldable pub notify_initiator : Text → Text → ℕ → Text → Text → Text → Prog Unit
unfolding tell_verdict
notify_initiator o r n state body session_name =
    handle (get_mr o r n)
      (λ mr.
        let head = str_from mr (codes "head_bookmark") in
        if is_empty head
        then ret tt
        else if text_eq (naming_session o r head) session_name
        then ret tt
        else tell_verdict n state body (naming_session o r head))
      (λ _. ret tt)

-- The end of mr-merge behind a rebase without conflicts.
unfoldable pub finish_merge : Text → Text → ℕ → Text → Text → Fields → Text → Prog ToolResult
unfolding short_id
finish_merge o r n head base sum session_name =
    handle (add_mr_review o r n (codes "approved") (codes "merged by zergx agent")) ret
      (λ _. ret tt)
    >> handle (update_mr_state o r n (codes "merged"))
        (λ _.
          let commit_id = str_from sum (codes "commit_id") in
          let change_id = str_from sum (codes "change_id") in
          prompt (naming_session o r head)
            (format "merge request #%d into '%s' was merged (tip %s)."
              %d n
              %s base
              %s short_id commit_id)
            (format "你发往「%s」的合并请求 #%d 已合并（尖端 %s）。" %s base %d n %s short_id commit_id)
          >> say session_name
              (format "merge request #%d merged into '%s' (tip %s, change %s)."
                %d n
                %s base
                %s short_id commit_id
                %s short_id change_id)
              (format "合并请求 #%d 已并入「%s」（尖端 %s，变更 %s）。"
                %d n
                %s base
                %s short_id commit_id
                %s short_id change_id)
              ("mr"
                => count (pos n) ⨾ "commit_id"
                => string commit_id ⨾ "change_id"
                => string change_id ⨾ no_entries))
        (λ e.
          ef session_name (format "merged but failed to update MR state: %v" %v message_of e)
            (format "已合并但更新 MR 状态失败：%v" %v message_of e))

abbrev pub merge_or_conflicts :
    Text → Text → ℕ → Text → Text → Fields → Text → List Text → Prog ToolResult
merge_or_conflicts o r n head base sum session_name [] =
    finish_merge o r n head base sum session_name
merge_or_conflicts o r n head base sum session_name (c ∷ cs) =
    say session_name
      (format
          "merge of MR #%d left %d conflict(s) on '%s': %s — resolve them (git-resolve), then retry"
        %d n
        %d length (c ∷ cs)
        %s base
        %s comma_joined (c ∷ cs))
      (format "MR #%d 合并在「%s」上留下 %d 个冲突：%s——请用 git-resolve 解决后重试"
        %d n
        %s base
        %d length (c ∷ cs)
        %s comma_joined (c ∷ cs))
      ("mr" => count (pos n) ⨾ "conflicts" => list (string_values (c ∷ cs)) ⨾ no_entries)

unfoldable pub conclude_merge : Text → Text → ℕ → Text → Text → Fields → Text → Prog ToolResult
unfolding finish_merge
conclude_merge o r n head base sum session_name =
    merge_or_conflicts o r n head base sum session_name
      (strings_of (slice_of (json_at sum "conflicts")))

-- mr-merge for a merge request that was fetched: its guards, and the rebase of the reviewed snapshot.
unfoldable pub merge_fetched : Triple → ℕ → Fields → Text → Prog ToolResult
unfolding conclude_merge
merge_fetched (o, r, b) n mr session_name =
    let state = str_from mr (codes "state") in
    let base = str_from mr (codes "base") in
    let head_sha = str_from mr (codes "head_sha") in
    if not (text_eq state (codes "open"))
    then ef session_name
        (format "merge request #%d is %s (only open MRs can merge)" %d n %s state %d n %s state)
        (format "合并请求 #%d 状态为 %s（仅允许合并打开的 MR）" %d n %s state %d n %s state)
    else if is_empty head_sha
    then ef session_name
        (format "merge request #%d has no head sha (force-push refresh needed?)" %d n %d n)
        (format "合并请求 #%d 没有 head sha（需要 force-push 刷新？）" %d n %d n)
    else if not (text_eq b base)
    then ef session_name
        (format "merge must be invoked from the target bookmark's session (%s:%s#%s), not '%s'"
          %s o
          %s r
          %s base
          %s b
          %s o
          %s r
          %s base
          %s b)
        (format "必须从目标书签的会话（%s:%s#%s）发起合并，而非 '%s'" %s o %s r %s base %s b %s o %s r %s base %s b)
    else handle (post_rebase o r head_sha base)
        (λ v.
          conclude_merge o r n (str_from mr (codes "head_bookmark")) base
            (map_or_nil (json_at v "rebase")) session_name)
        (λ e.
          ef session_name (format "merge failed: %v" %v message_of e)
            (format "合并失败：%v" %v message_of e))

module _ (host : Host) where
  -- toInt64 of a decoded value
  abbrev to_int64 : Json → ℤ
  to_int64 (number n) = host.int64_of n
  to_int64 _ = pos 0

  -- mr-create once the target has its session.
  unfoldable pub submit_mr : Triple → Text → Text → Text → Text → Text → Prog ToolResult
  submit_mr (o, r, b) target title description target_session session_name =
      handle (create_mr o r title description b target)
        (λ mr.
          let n = to_int64 (json_at mr "number") in
          prompt target_session
            (format "Merge request #%d from bookmark '%s': %s. Review it with mr-view #%d."
              %int64 n
              %s b
              %s title
              %int64 n)
            (format "收到来自书签「%s」的合并请求 #%d：%s。可用 mr-view #%d 审查。" %s b %int64 n %s title %int64 n)
          >> say session_name
              (format "merge request #%d submitted to '%s' (target session notified)"
                %int64 n
                %s target)
              (format "已向「%s」提交合并请求 #%d（已通知目标会话）" %s target %int64 n)
              ("mr" => count n ⨾ "head" => string b ⨾ "base" => string target ⨾ no_entries))
        (λ e.
          ef session_name (format "failed to create merge request: %v" %v message_of e)
            (format "创建合并请求失败：%v" %v message_of e))

  unfoldable pub create : Fields → Text → Prog ToolResult
  unfolding session_base submit_mr adopt_bookmark
  create args session_name = do
    (o, r, b) ← session_base session_name
    let target = host.arg_string args "target"
    if is_empty target
        then ef session_name (format "missing 'target' argument") (format "缺少 'target' 参数")
        else if text_eq target b
        then ef session_name (format "target must differ from the current bookmark '%s'" %s b)
            (format "目标必须不同于当前书签 '%s'" %s b)
        else do
          (target_session, _) ← adopt_bookmark o r target
          submit_mr (o, r, b) target
              (or_default (host.arg_string args "title")
                (codes "Merge " ++ (b ++ (codes " into " ++ target))))
              (host.arg_string args "description") target_session session_name

  unfoldable pub review_valid : Text → Text → ℕ → Text → Text → Text → Prog ToolResult
  unfolding notify_initiator
  review_valid o r n state body session_name =
      handle (add_mr_review o r n state body)
        (λ _.
          notify_initiator o r n state body session_name
          >> say session_name
              (format "review '%s' recorded on MR #%d (initiator notified)." %s state %d n)
              (format "已在 MR #%d 记录「%s」评审（已通知发起者）。" %d n %s state)
              ("mr" => count (pos n) ⨾ "state" => string state ⨾ no_entries))
        (λ e.
          ef session_name (format "failed to add review: %v" %v message_of e)
            (format "添加评审失败：%v" %v message_of e))

  unfoldable pub review : Fields → Text → Prog ToolResult
  unfolding session_base review_valid
  review args session_name = do
    (o, r, _) ← session_base session_name
    with_number host args session_name (λ n.
        let state = host.arg_string args "state" in
        if not (text_eq state (codes "approved")) && not (text_eq state (codes "rejected"))
        then ef session_name (format "'state' must be approved or rejected")
            (format "'state' 必须为 approved 或 rejected")
        else review_valid o r n state (host.arg_string args "body") session_name)

  unfoldable pub merge : Fields → Text → Prog ToolResult
  unfolding session_base merge_fetched
  merge args session_name = do
    (o, r, b) ← session_base session_name
    with_number host args session_name (λ n.
        handle (get_mr o r n) (λ mr. merge_fetched (o, r, b) n mr session_name)
          (λ e. not_fetched session_name n (message_of e)))
