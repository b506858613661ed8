-- ===== src/Worksheets/Keeping.antt =====
-- The worksheet actions under the discipline of the mapping (worksheets.go).
use repo_extension.Base.{◌≡◌, String, some, if◌then◌else◌}
use repo_extension.Base.Text.{Text, codes, text_eq, is_empty, Lacks}
use repo_extension.Names.{Triple, parse_session, naming_session, colon}
use repo_extension.Names.Bijection.{parse_session-naming_session, naming_session-parse_session}
use repo_extension.Errs.{Message, t}
use repo_extension.Json
use repo_extension.Json.{Fields, map_or_nil}
use repo_extension.Effects.{row_by_session, ret, ExecReply, affected, unique_violation, exec_failed}
use repo_extension.Effects.Sound.{Sound-option}
use repo_extension.I18n.{lc, tell, env_or, locale_of}
use repo_extension.Store
use repo_extension.Store.{claim_reply}
use repo_extension.Jjlab.{ensure_repo, ensure_bookmark}
use repo_extension.Agent
use repo_extension.Session.Resolve.{get_row_by_session-Keeps, bind_row-Keeps}
use repo_extension.Lifecycle.Keeping.{
  then-Keeps, row-Keeps, ensure_repo-Keeps, ensure_bookmark-Keeps, delete_bookmark-Keeps,
  ensure_deleted-Keeps,
}
use repo_extension.Discipline.{Allowed, Rely, Keeps, Always}
use repo_extension.Discipline.Steps.{Keeps-bind, Keeps-handle, Keeps-if, RowFits}
use repo_extension.Worksheets.{
  after_claim, arg, Action, fork_action, delete_action, bind_fork, ensure_forked_at, fork_steps,
  exec_fork_request, delete_target, exec_delete_bookmark, exec_action, approve, reject,
  on_call_hook, worksheet_registry,
}

env_or-Keeps : (k : String) (d : Text) → Keeps Always (env_or k d)
unfolding env_or
env_or-Keeps k d = (tt, λ r _. tt)

locale_of-Keeps : (session fallback : Text) → Keeps Always (locale_of session fallback)
unfolding locale_of
locale_of-Keeps session fallback =
    Keeps-if Always (is_empty session) _ _ (λ _. tt) (λ _. (tt, λ r _. tt))

pub lc-Keeps : (session : Text) (en zh : Message) → Keeps Always (lc session en zh)
unfolding lc
lc-Keeps session en zh =
    then-Keeps Always (env_or "ZERGX_LOCALE" (codes "en")) _
      (env_or-Keeps "ZERGX_LOCALE" (codes "en"))
      λ fallback.
        then-Keeps Always (locale_of session fallback) (λ locale. ret (t locale en zh))
          (locale_of-Keeps session fallback) (λ _. tt)

pub tell-Keeps :
    (target : Text) (kind key : String) (en zh : Message)
    → Keeps Always (tell target kind key en zh)
unfolding tell
tell-Keeps target kind key en zh =
    then-Keeps Always (lc target en zh) _ (lc-Keeps target en zh) (λ m. (tt, λ _ _. tt))

module _ (o r new_bm sid base_rev parent : Text)
    (spells : parse_session sid ≡ some (o, r, new_bm)) where
  bind_fork-Keeps : Keeps Always (bind_fork o r new_bm sid base_rev parent)
  unfolding bind_fork
  bind_fork-Keeps = then-Keeps Always (ensure_repo o r) _ (ensure_repo-Keeps o r) λ _.
      then-Keeps Always
        (ensure_bookmark o r (if is_empty base_rev then parent else base_rev) new_bm) _
        (ensure_bookmark-Keeps o r (if is_empty base_rev then parent else base_rev) new_bm)
        (λ _. bind_row-Keeps o r new_bm sid spells)

  ensure_forked_at-Keeps : Keeps Always (ensure_forked_at o r new_bm sid base_rev parent)
  unfolding ensure_forked_at
  ensure_forked_at-Keeps =
      Keeps-bind (RowFits (row_by_session sid)) Always _ _ (get_row_by_session-Keeps sid)
        λ row _. row-Keeps Always row _ _ (λ _. tt) bind_fork-Keeps

fork_steps-Keeps :
    (v : Triple) (session : Text) (args : Fields)
    → parse_session (naming_session v.0 v.1 (arg args "bookmark"))
      ≡ some (v.0, v.1, arg args "bookmark")
    → Keeps Always (fork_steps v session args)
unfolding fork_steps
fork_steps-Keeps (o, r, parent) session args spells =
    let bm : Text = arg args "bookmark" in
    let sid : Text = naming_session o r bm in
    then-Keeps Always (ensure_forked_at o r bm sid (arg args "base_rev") parent) _
      (ensure_forked_at-Keeps o r bm sid (arg args "base_rev") parent spells)
      λ _.
        then-Keeps Always (Agent.fork_session session sid (arg args "fork_tip") (codes "build")) _
          (Agent.Effect.fork_session-Sound Allowed Rely (λ _ _ _. tt) session sid
            (arg args "fork_tip") (codes "build"))
          λ _.
            then-Keeps Always (tell sid "event" "content" _ _) _
              (tell-Keeps sid "event" "content" _ _) (λ _. (tt, λ _ _. tt))

exec_fork_request-Keeps :
    (session : Text) (args : Fields)
    → Lacks colon (arg args "bookmark")
    → Keeps Always (exec_fork_request session args)
unfolding exec_fork_request
exec_fork_request-Keeps session args plain_name =
    Sound-option Allowed Rely Always (parse_session session) _ _ (λ _. tt)
      λ v h.
        let (_, lo, lr, _) = naming_session-parse_session session v.0 v.1 v.2 h in
        Keeps-if Always (is_empty (arg args "bookmark")) _ _ (λ _. tt)
          λ _.
            Keeps-if Always (is_empty (arg args "quest")) _ _ (λ _. tt)
              λ _.
                fork_steps-Keeps v session args
                  (parse_session-naming_session v.0 v.1 (arg args "bookmark") lo lr plain_name)

delete_target-Keeps : (o r b target : Text) → Keeps Always (delete_target o r b target)
unfolding delete_target
delete_target-Keeps o r b target =
    then-Keeps Always (Agent.delete_session target) _
      (Agent.Effect.delete_session-Sound Allowed Rely (λ _ _ _. tt) target)
      λ _.
        Keeps-bind (RowFits (row_by_session target)) Always _ _ (get_row_by_session-Keeps target)
          λ row _.
            row-Keeps Always row _ _ (λ _. ensure_deleted-Keeps target)
              (delete_bookmark-Keeps o r b)

exec_delete_bookmark-Keeps :
    (session : Text) (args : Fields) → Keeps Always (exec_delete_bookmark session args)
unfolding exec_delete_bookmark
exec_delete_bookmark-Keeps session args =
    Sound-option Allowed Rely Always (parse_session session) _ _ (λ _. tt)
      λ v _.
        Keeps-if Always (is_empty (arg args "bookmark")) _ _ (λ _. tt)
          λ _.
            Keeps-if Always (text_eq (arg args "bookmark") v.2) _ _ (λ _. tt)
              λ _.
                Keeps-if Always (text_eq (arg args "bookmark") (codes "main")) _ _ (λ _. tt)
                  λ _.
                    then-Keeps Always (delete_target v.0 v.1 (arg args "bookmark") _) _
                      (delete_target-Keeps v.0 v.1 (arg args "bookmark") _) (λ _. tt)

exec_action-Keeps :
    (action : Action) (session : Text) (args : Fields)
    → Lacks colon (arg args "bookmark")
    → Keeps Always (exec_action action session args)
unfolding exec_action
exec_action-Keeps fork_action session args h = exec_fork_request-Keeps session args h
exec_action-Keeps delete_action session args h = exec_delete_bookmark-Keeps session args

claim_reply-Keeps : (r : ExecReply) → Keeps Always (claim_reply r)
claim_reply-Keeps (affected n) = tt
claim_reply-Keeps unique_violation = tt
claim_reply-Keeps (exec_failed m) = tt

claim-Keeps : (id : Text) → Keeps Always (Store.executed_worksheet id)
unfolding Store.executed_worksheet
claim-Keeps id = (tt, λ r _. claim_reply-Keeps r)

-- The arguments of the worksheet itself, inside those of the hook.
abbrev pub worksheet_args : Fields → Fields
worksheet_args args = map_or_nil (Json.get args (codes "args"))

approve-Keeps :
    (action : Action) (id target : Text) (args : Fields)
    → Lacks colon (arg (worksheet_args args) "bookmark")
    → Keeps Always (approve action id target args)
unfolding approve after_claim
approve-Keeps action id target args h =
    Keeps-handle Always Always (Store.executed_worksheet id) _ _ (claim-Keeps id)
      (λ first _.
        Keeps-if Always first _ _
          (λ _.
            Keeps-handle Always Always (exec_action action target (worksheet_args args)) _ _
              (exec_action-Keeps action target (worksheet_args args) h)
              (λ prose _.
                then-Keeps Always (tell target "user_prompt" "text" prose.0 prose.1) _
                  (tell-Keeps target "user_prompt" "text" prose.0 prose.1) (λ _. tt))
              (λ e. tt))
          (λ _. tt))
      (λ e. tt)

reject-Keeps : (target : Text) (args : Fields) → Keeps Always (reject target args)
unfolding reject
reject-Keeps target args =
    then-Keeps Always (tell target "event" "content" _ _) _
      (tell-Keeps target "event" "content" _ _) (λ _. tt)

pub on_call_hook-Keeps :
    (hook session : Text) (args : Fields)
    → Lacks colon (arg (worksheet_args args) "bookmark")
    → Keeps Always (on_call_hook hook session args)
unfolding on_call_hook
on_call_hook-Keeps hook session args h =
    Keeps-if Always (text_eq hook (codes "worksheet-decided")) _ _
      (λ _.
        Keeps-if Always (is_empty (arg args "worksheet_id")) _ _ (λ _. tt)
          λ _.
            Sound-option Allowed Rely Always (worksheet_registry (arg args "action")) _ _ (λ _. tt)
              λ action _.
                Keeps-if Always (text_eq (arg args "decision") (codes "approve")) _ _
                  (λ _. approve-Keeps action (arg args "worksheet_id") _ args h)
                  (λ _. reject-Keeps _ args))
      (λ _. tt)
