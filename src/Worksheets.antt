-- ===== src/Worksheets.antt =====
-- worksheets.go: actions that a human approves. The arguments of a call are a map of JSON values.
pub mod Keeping
pub mod Decisions
pub mod Rejection
pub mod Approvals
use repo_extension.Base.{
  ℕ, String, Bool, true, false, not, Option, none, some, List, [], ◌∷◌, ◌==◌, if◌then◌else◌,
}
use repo_extension.Base.Int.{ℤ, pos}
use repo_extension.Base.Text.{Text, codes, text_eq, is_empty}
use repo_extension.Names.{Triple, parse_session, naming_session}
use repo_extension.Errs.{Err, Message, format, ◌%s◌, ◌%v◌, plain, message_of, err_bad}
use repo_extension.Json
use repo_extension.Json.{Json, number, object, text, Fields, end, field, str_from, map_or_nil}
use repo_extension.Effects.{
  MapRow, ExtReply, replied, ext_failed, ext, random_id, publish_mailbox_event, publish_prose, Prog,
  ret, fail, call, handle, ◌>>=◌, ◌>>◌, downstream,
}
use repo_extension.Http.{string_field}
use repo_extension.I18n.{lc, tell, text_or_empty}
use repo_extension.Store.{get_row_by_session, executed_worksheet}
use repo_extension.Jjlab.{ensure_repo, ensure_bookmark, delete_bookmark}
use repo_extension.Agent
use repo_extension.Session.{postgres, bind_row}
use repo_extension.Lifecycle.{ensure_deleted}

abbrev pub arg : Fields → String → Text
arg args k = str_from args (codes k)

-- A number of the arguments; `int64_of` is the conversion of a decoded float64.
unfoldable pub arg_int : (Text → ℤ) → Fields → String → ℤ
arg_int int64_of args k = elim (Json.get args (codes k)) [ number n ↦ int64_of n | _ ↦ pos 0 ]

-- An English text and its Chinese equivalent.
abbrev pub Prose : Type 0
Prose = Message × Message

-- The keys of worksheetRegistry.
pub data Action : Type 0 where
  fork_action delete_action : Action

unfoldable pub worksheet_registry : Text → Option Action
worksheet_registry action =
    if text_eq action (codes "fork-bookmark")
    then some fork_action
    else if text_eq action (codes "delete-bookmark")
    then some delete_action
    else none

unfoldable pub title : Action → Fields → Prose
title fork_action args =
    (format "Fork to '%s'" %s arg args "bookmark", format "派生到 '%s'" %s arg args "bookmark")
title delete_action args = (
  format "Delete bookmark '%s'" %s arg args "bookmark",
  format "删除书签 '%s'" %s arg args "bookmark",
)

unfoldable pub bind_fork : Text → Text → Text → Text → Text → Text → Prog Unit
bind_fork org repo new_bm new_session base_rev parent_bm = do
  ensure_repo org repo
  ensure_bookmark org repo (if is_empty base_rev then parent_bm else base_rev) new_bm
  bind_row org repo new_bm new_session

unfoldable pub ensure_forked_at : Text → Text → Text → Text → Text → Text → Prog Unit
unfolding bind_fork
ensure_forked_at org repo new_bm new_session base_rev parent_bm = do
  row ← downstream postgres (get_row_by_session new_session)
  elim row [ some _ ↦ ret tt | none ↦ bind_fork org repo new_bm new_session base_rev parent_bm ]

abbrev not_named : {A : Type 0} → Text → Prog A
not_named session =
    fail (err_bad (format "session %q does not match org:repo:bookmark naming" %s session))

abbrev refuse : {A : Type 0} → String → Prog A
refuse m = fail (err_bad (format m))

-- The part of execForkRequest behind its tests.
unfoldable pub fork_steps : Triple → Text → Fields → Prog Prose
unfolding ensure_forked_at
fork_steps (org, repo, parent_bm) session args = do
  let new_bm = arg args "bookmark"
  let new_session = naming_session org repo new_bm
  ensure_forked_at org repo new_bm new_session (arg args "base_rev") parent_bm
  Agent.fork_session session new_session (arg args "fork_tip") (codes "build")
  tell new_session "event" "content"
      (format
          "You are forked from bookmark '%s'. After completing your quest, use the mr-create tool to send a merge request back to bookmark '%s'."
        %s parent_bm
        %s parent_bm)
      (format "你从书签「%s」派生而来。完成任务后，使用 mr-create 工具向书签「%s」发起合并请求。" %s parent_bm %s parent_bm)
  call
      (ext (
        publish_mailbox_event new_session "user_prompt"
          (string_field "text" (arg args "quest") end)))
      (λ _. ret (
        format "fork '%s' created; sub-agent started on the quest" %s new_bm,
        format "已创建派生「%s」；子代理已开始执行任务" %s new_bm,
      ))

unfoldable pub exec_fork_request : Text → Fields → Prog Prose
unfolding fork_steps
exec_fork_request session args = elim (parse_session session) [
  | none ↦ not_named session
  | some triple ↦
      if is_empty (arg args "bookmark")
      then refuse "fork-bookmark: missing 'bookmark'"
      else if is_empty (arg args "quest")
      then refuse "fork-bookmark: missing 'quest'"
      else fork_steps triple session args
]

unfoldable pub delete_target : Text → Text → Text → Text → Prog Unit
delete_target org repo bm target = do
  Agent.delete_session target
  row ← downstream postgres (get_row_by_session target)
  elim row [ some _ ↦ ensure_deleted target | none ↦ delete_bookmark org repo bm ]

abbrev pub target_of : Text → Text → Fields → Text
target_of org repo args =
    if is_empty (arg args "session")
    then naming_session org repo (arg args "bookmark")
    else arg args "session"

unfoldable pub exec_delete_bookmark : Text → Fields → Prog Prose
unfolding delete_target
exec_delete_bookmark session args = elim (parse_session session) [
  | none ↦ not_named session
  | some (org, repo, own_bm) ↦
      let bm = arg args "bookmark" in
      if is_empty bm
      then refuse "delete-bookmark: missing 'bookmark'"
      else if text_eq bm own_bm
      then refuse "delete-bookmark: refusing to delete this session's own bookmark"
      else if text_eq bm (codes "main")
      then refuse "delete-bookmark: refusing to delete the default bookmark 'main'"
      else delete_target org repo bm (target_of org repo args)
        >> ret (format "bookmark '%s' and its session deleted" %s bm, format "书签「%s」及其会话已删除" %s bm)
]

unfoldable pub exec_action : Action → Text → Fields → Prog Prose
unfolding exec_fork_request exec_delete_bookmark
exec_action fork_action session args = exec_fork_request session args
exec_action delete_action session args = exec_delete_bookmark session args

-- HookResponse of the SDK: success, or a code with a message.
pub data HookResponse : Type 0 where
  hook_ok : HookResponse
  hook_not_found hook_invalid hook_internal : Message → HookResponse

-- What an approval does behind its claim: `first` tells that this delivery made the claim.
unfoldable pub after_claim : Action → Text → Fields → Bool → Prog HookResponse
after_claim action target args first =
    if first
    then handle (exec_action action target (map_or_nil (Json.get args (codes "args"))))
        (λ prose. tell target "user_prompt" "text" prose.0 prose.1 >> ret hook_ok)
        (λ e. ret (hook_internal (message_of e)))
    else ret hook_ok

unfoldable pub approve : Action → Text → Text → Fields → Prog HookResponse
approve action worksheet_id target args =
    handle (executed_worksheet worksheet_id) (after_claim action target args)
      (λ _. ret (hook_internal (format "dedup check failed")))

unfoldable pub reject : Text → Fields → Prog HookResponse
reject target args =
    tell target "event" "content"
      (format "worksheet '%s' was rejected by the user" %s arg args "title")
      (format "工单「%s」已被用户拒绝" %s arg args "title")
    >> ret hook_ok

unfoldable pub on_call_hook : Text → Text → Fields → Prog HookResponse
unfolding approve after_claim reject worksheet_registry
on_call_hook hook session_name args =
    if text_eq hook (codes "worksheet-decided")
    then if is_empty (arg args "worksheet_id")
      then ret (hook_invalid (format "missing worksheet_id"))
      else elim (worksheet_registry (arg args "action")) [
        | none ↦ ret (hook_invalid (format "unknown worksheet action %q" %s arg args "action"))
        | some action ↦
            let target =
              if is_empty (arg args "session") then session_name else arg args "session" in
            if text_eq (arg args "decision") (codes "approve")
            then approve action (arg args "worksheet_id") target args
            else reject target args
      ]
    else ret (hook_not_found (format "no handler for hook " %s hook))

abbrev origin_field : Text → Fields
origin_field origin_call_id =
    if is_empty origin_call_id then end else string_field "origin_call_id" origin_call_id end

-- The worksheet without its title.
abbrev pub worksheet_fields : Text → Text → Fields → Text → Fields
worksheet_fields id action args origin_call_id = string_field "worksheet_id" id (
    string_field "ext_id" (codes "repo") (
      string_field "action" action
        (field (codes "args") (object args) (origin_field origin_call_id))))

abbrev pub published : ExtReply → Prog Unit
published (replied _) = ret tt
published (ext_failed e) = fail (plain e)

-- newWorksheetID: "ws-" and the hex text of 16 random bytes, made by the services.
unfoldable pub publish_worksheet : Text → Text → Fields → Text → Prog Unit
publish_worksheet session action args origin_call_id = elim (worksheet_registry action) [
  | none ↦ fail (plain (format "unknown worksheet action %q" %s action))
  | some spec ↦ do
    id ← call (ext random_id) (λ r. ret (text_or_empty r))
    m ← lc session (title spec args).0 (title spec args).1
    call
        (ext (
          publish_prose session "worksheet_proposed"
            (worksheet_fields id action args origin_call_id) "title" m))
        published
]
