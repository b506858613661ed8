-- ===== src/Worksheets/Approvals.antt =====
-- What the approval of a proposal executes (tools.go: forkBookmark and deleteBookmark; worksheets.go:
-- onCallHook and the actions). The decision carries back what the proposal published.
use repo_extension.Base.{
  Bool-cases, inl, inr, ◌≡◌, refl, ap, ◌∙◌, false, some, [], ◌∷◌, if◌then◌else◌,
}
use repo_extension.Base.Text.{Text, codes, text_eq, is_empty}
use repo_extension.Names.{Triple, parse_session, naming_session}
use repo_extension.Errs.{format, ◌%s◌, message_of}
use repo_extension.Json
use repo_extension.Json.{Fields, end}
use repo_extension.Effects.{publish_mailbox_event, ext, Prog, ret, call, handle, ◌>>◌}
use repo_extension.Http.{string_field}
use repo_extension.I18n.{tell}
use repo_extension.Store.{executed_worksheet}
use repo_extension.Agent.{fork_session}
use repo_extension.Worksheets.{
  Action, fork_action, delete_action, Prose, ensure_forked_at, delete_target, target_of,
  HookResponse, hook_ok, hook_internal, on_call_hook, worksheet_fields, exec_fork_request,
  exec_delete_bookmark, fork_steps, exec_action, after_claim, approve, worksheet_registry, arg,
}
use repo_extension.Tools.Bookmarks.{fork_args, delete_args}

-- The answer of the user to a published worksheet.
abbrev pub approval : Text → Text → Fields → Text → Fields
approval id action args origin =
    string_field "decision" (codes "approve") (worksheet_fields id action args origin)

-- An action that is executed by the first delivery of its decision alone, and reports to the session.
abbrev pub once : Text → Text → Prog Prose → Prog HookResponse
once id session_name action =
    handle (executed_worksheet id)
      (λ first.
        if first
        then handle action
            (λ prose. tell session_name "user_prompt" "text" prose.0 prose.1 >> ret hook_ok)
            (λ e. ret (hook_internal (message_of e)))
        else ret hook_ok)
      (λ _. ret (hook_internal (format "dedup check failed")))

-- The new workspace stands at the head that was pinned, and its session is forked at the pinned tip and
-- gets the quest.
abbrev pub forked : Triple → Text → Text → Text → Text → Text → Prog Prose
forked (o, r, b) session_name bookmark quest tip head = do
  ensure_forked_at o r bookmark (naming_session o r bookmark) head b
  fork_session session_name (naming_session o r bookmark) tip (codes "build")
  tell (naming_session o r bookmark) "event" "content"
      (format
          "You are forked from bookmark '%s'. After completing your quest, use the mr-create tool to send a merge request back to bookmark '%s'."
        %s b
        %s b)
      (format "你从书签「%s」派生而来。完成任务后，使用 mr-create 工具向书签「%s」发起合并请求。" %s b %s b)
  call
      (ext (
        publish_mailbox_event (naming_session o r bookmark) "user_prompt"
          (string_field "text" quest end)))
      (λ _. ret (
        format "fork '%s' created; sub-agent started on the quest" %s bookmark,
        format "已创建派生「%s」；子代理已开始执行任务" %s bookmark,
      ))

-- The bookmark and its session are gone.
abbrev pub deleted : Triple → Text → Text → Prog Prose
deleted (o, r, b) bookmark target =
    delete_target o r bookmark target
    >> ret (
      format "bookmark '%s' and its session deleted" %s bookmark,
      format "书签「%s」及其会话已删除" %s bookmark,
    )

naming_nonempty : (o r b : Text) → is_empty (naming_session o r b) ≡ false
unfolding naming_session
naming_nonempty [] r b = refl
naming_nonempty (c ∷ o) r b = refl

-- The decision names no other session.
no_session :
    (id action origin : Text) (args : Fields) → arg (approval id action args origin) "session" ≡ []
unfolding Json.get Json.str_from text_eq
no_session id action origin args = elim (Bool-cases (is_empty origin)) [
  | inl e ↦ rw e refl
  | inr e ↦ rw e refl
]

module _ (session_name id action origin : Text) (args : Fields) (known : Action)
    (identified : is_empty id ≡ false) (registered : worksheet_registry action ≡ some known) where
  -- An approval executes the action for the session that proposed it, with the published arguments.
  approved_action :
      on_call_hook (codes "worksheet-decided") session_name (approval id action args origin)
      ≡ once id session_name (exec_action known session_name args)
  unfolding on_call_hook Json.get Json.str_from text_eq approve after_claim
  approved_action =
      rw (identified, registered)
        (ap
          (λ sid.
            approve known id (if is_empty sid then session_name else sid)
              (approval id action args origin))
          (no_session id action origin args))

fork_registered : worksheet_registry (codes "fork-bookmark") ≡ some fork_action
unfolding worksheet_registry text_eq
fork_registered = refl

delete_registered : worksheet_registry (codes "delete-bookmark") ≡ some delete_action
unfolding worksheet_registry text_eq
delete_registered = refl

fork_fields :
    (bookmark quest b tip head : Text)
    → (arg (fork_args bookmark quest b tip head) "bookmark" ≡ bookmark)
      × (arg (fork_args bookmark quest b tip head) "quest" ≡ quest)
      × (arg (fork_args bookmark quest b tip head) "base_rev" ≡ head)
      × (arg (fork_args bookmark quest b tip head) "fork_tip" ≡ tip)
unfolding Json.get Json.str_from text_eq
fork_fields bookmark quest b tip head = (refl, refl, refl, refl)

delete_fields :
    (t : Triple) (bookmark : Text)
    → (arg (delete_args t bookmark) "bookmark" ≡ bookmark)
      × (arg (delete_args t bookmark) "session" ≡ naming_session t.0 t.1 bookmark)
unfolding Json.get Json.str_from text_eq
delete_fields t bookmark = (refl, refl)

steps_forked :
    (t : Triple) (session_name : Text) (args : Fields)
    → fork_steps t session_name args
      ≡ forked t session_name
          (arg args "bookmark")
          (arg args "quest")
          (arg args "fork_tip")
          (arg args "base_rev")
unfolding fork_steps
steps_forked t session_name args = refl

-- The tests of the actions are those of the tools.
module _ (session_name o r b : Text) (args : Fields)
    (spells : parse_session session_name ≡ some (o, r, b))
    (named : is_empty (arg args "bookmark") ≡ false) where
  fork_passes :
      is_empty (arg args "quest") ≡ false
      → exec_fork_request session_name args ≡ fork_steps (o, r, b) session_name args
  unfolding exec_fork_request
  fork_passes asked = rw (spells, exec_fork_request, named, asked)

  delete_passes :
      text_eq (arg args "bookmark") b ≡ false
      → text_eq (arg args "bookmark") (codes "main") ≡ false
      → exec_delete_bookmark session_name args
        ≡ deleted (o, r, b) (arg args "bookmark") (target_of o r args)
  unfolding exec_delete_bookmark
  delete_passes foreign kept = rw (spells, exec_delete_bookmark, named, foreign, kept)

module _ (session_name id origin bookmark o r b : Text)
    (spells : parse_session session_name ≡ some (o, r, b)) (named : is_empty bookmark ≡ false) where
  fork_executed :
      (quest tip head : Text)
      → is_empty quest ≡ false
      → exec_action fork_action session_name (fork_args bookmark quest b tip head)
        ≡ forked (o, r, b) session_name bookmark quest tip head
  unfolding exec_action
  fork_executed quest tip head asked =
      let (e1, e2, e3, e4) = fork_fields bookmark quest b tip head in
      let args = fork_args bookmark quest b tip head in
      fork_passes session_name o r b args spells (ap is_empty e1 ∙ named) (ap is_empty e2 ∙ asked)
      ∙ steps_forked (o, r, b) session_name args
      ∙ (λ i. forked (o, r, b) session_name (e1 i) (e2 i) (e4 i) (e3 i))

  delete_executed :
      text_eq bookmark b ≡ false
      → text_eq bookmark (codes "main") ≡ false
      → exec_action delete_action session_name (delete_args (o, r, b) bookmark)
        ≡ deleted (o, r, b) bookmark (naming_session o r bookmark)
  unfolding exec_action
  delete_executed foreign kept =
      let (e1, e2) = delete_fields (o, r, b) bookmark in
      let args = delete_args (o, r, b) bookmark in
      let target : target_of o r args ≡ naming_session o r bookmark =
        rw (e2, naming_nonempty o r bookmark) in
      delete_passes session_name o r b args spells (ap is_empty e1 ∙ named)
        (ap (λ x. text_eq x b) e1 ∙ foreign) (ap (λ x. text_eq x (codes "main")) e1 ∙ kept)
      ∙ (λ i. deleted (o, r, b) (e1 i) (target i))

  -- For a session whose name spells (o, r, b), a bookmark that is neither empty nor b nor main, a quest
  -- that is not empty, and a worksheet with an id: an approval that carries back what fork-bookmark
  -- or delete-bookmark published does, on its first delivery alone, exactly what was proposed.
  -- The fork is made with the head and the tip that were pinned when it was proposed, and the
  -- deletion is of this bookmark and the session that is named after it.
  pub on_call_hook-approved :
      (quest tip head : Text)
      → is_empty id ≡ false
      → is_empty quest ≡ false
      → text_eq bookmark b ≡ false
      → text_eq bookmark (codes "main") ≡ false
      → (on_call_hook
            (codes "worksheet-decided")
            session_name
            (approval id (codes "fork-bookmark") (fork_args bookmark quest b tip head) origin)
          ≡ once id session_name (forked (o, r, b) session_name bookmark quest tip head))
        × (on_call_hook
              (codes "worksheet-decided")
              session_name
              (approval id (codes "delete-bookmark") (delete_args (o, r, b) bookmark) origin)
            ≡ once id session_name (deleted (o, r, b) bookmark (naming_session o r bookmark)))
  on_call_hook-approved quest tip head identified asked foreign kept = (
    approved_action session_name id (codes "fork-bookmark") origin
          (fork_args bookmark quest b tip head) fork_action identified fork_registered
        ∙ ap (once id session_name) (fork_executed quest tip head asked),
    approved_action session_name id (codes "delete-bookmark") origin
          (delete_args (o, r, b) bookmark) delete_action identified delete_registered
        ∙ ap (once id session_name) (delete_executed foreign kept),
  )
