-- ===== src/Worksheets/Rejection.antt =====
-- Decisions other than an approval (worksheets.go: onCallHook).
use repo_extension.Base.{◌≡◌, String, false, if◌then◌else◌}
use repo_extension.Base.Text.{Text, codes, text_eq, is_empty}
use repo_extension.Errs.{Message}
use repo_extension.Json.{Fields}
use repo_extension.Effects.{Eff, ext, get_env, get_session_variable, publish_prose, Prog}
use repo_extension.Effects.Sound.{Sound, Sound-bind, Sound-if, Sound-option, Sound-then}
use repo_extension.Effects.Run.{AnyAnswer}
use repo_extension.Jjlab.Effect.{Any}
use repo_extension.I18n.{lc, tell, env_or, locale_of}
use repo_extension.Worksheets.{
  arg, worksheet_registry, HookResponse, hook_internal, reject, on_call_hook,
}

-- The notice of a rejection: an event for the session `target`, and what finds the language of it.
pub data IsNotice (target : Text) : Eff → Type 0 where
  asks_env : (k : String) → IsNotice target (ext (get_env k))
  asks_locale : (k : String) → IsNotice target (ext (get_session_variable target k))
  notifies :
      (body : Fields) (key : String) (m : Message)
      → IsNotice target (ext (publish_prose target "event" body key m))

-- The decision is taken, or refused as unknown, and is no failure of the server.
abbrev pub IsTaken : HookResponse → Type 0
IsTaken (hook_internal _) = ⊥
IsTaken _ = Unit

-- The session that a decision is for.
abbrev pub decided_session : Text → Fields → Text
decided_session session_name args =
    if is_empty (arg args "session") then session_name else arg args "session"

module _ (target : Text) where
  abbrev Notices : {A : Type 0} → (A → Type 0) → Prog A → Type 0
  Notices Q m = Sound (IsNotice target) AnyAnswer Q m

  locale_of-Notices : (fallback : Text) → Notices Any (locale_of target fallback)
  unfolding locale_of
  locale_of-Notices fallback =
      Sound-if (IsNotice target) AnyAnswer Any (is_empty target) _ _ (λ _. tt)
        (λ _. (asks_locale "locale", λ _ _. tt))

  lc-Notices : (en zh : Message) → Notices Any (lc target en zh)
  unfolding lc env_or
  lc-Notices en zh = (
    asks_env "ZERGX_LOCALE",
    λ r _.
        Sound-bind (IsNotice target) AnyAnswer Any Any (locale_of target _) _ (locale_of-Notices _)
          (λ _ _. tt),
  )

  reject-Notices : (args : Fields) → Notices IsTaken (reject target args)
  unfolding reject tell
  reject-Notices args =
      Sound-then (IsNotice target) AnyAnswer Any IsTaken (tell target "event" "content" _ _) _
        (Sound-bind (IsNotice target) AnyAnswer Any Any (lc target _ _) _ (lc-Notices _ _)
          (λ m _. (notifies _ "content" m, λ _ _. tt)))
        tt

-- For a decision that is not `approve`, whatever the hook, the action, the rest of the arguments and the
-- answers of the services: the hook reads environment variables and variables of the session that the
-- decision is for, and the only message is an event for that session; it sends no request and no statement
-- and does not touch the cache, so that the worksheet is not recorded as executed; and it does not answer
-- an internal error.
pub on_call_hook-Notices :
    (hook session_name : Text) (args : Fields)
    → text_eq (arg args "decision") (codes "approve") ≡ false
    → Sound
        (IsNotice (decided_session session_name args))
        AnyAnswer
        IsTaken
        (on_call_hook hook session_name args)
unfolding on_call_hook
on_call_hook-Notices hook session_name args h =
    let may = IsNotice (decided_session session_name args) in
    Sound-if may AnyAnswer IsTaken (text_eq hook (codes "worksheet-decided")) _ _
      (λ _.
        Sound-if may AnyAnswer IsTaken (is_empty (arg args "worksheet_id")) _ _ (λ _. tt)
          λ _.
            Sound-option may AnyAnswer IsTaken (worksheet_registry (arg args "action")) _ _
              (λ _. tt)
              λ action _.
                Sound-if may AnyAnswer IsTaken (text_eq (arg args "decision") (codes "approve")) _ _
                  (λ approved. cc) (λ _. reject-Notices (decided_session session_name args) args))
      (λ _. tt)
