-- ===== src/I18n.antt =====
-- i18n.go and helpers.go: the locale of a session, localized texts, and environment variables.
-- The server has its extension from the start, so the nil test of localeOf is not modelled.
use repo_extension.Base.{String, [], if◌then◌else◌}
use repo_extension.Base.Text.{Text, codes, is_empty}
use repo_extension.Errs.{Message, plain, t}
use repo_extension.Json.{end}
use repo_extension.Effects.{
  ExtReply, replied, ext_failed, get_session_variable, get_env, publish_prose, ext, Prog, ret, fail,
  call, ◌>>=◌,
}

-- A call of the SDK whose failure gives "".
abbrev pub text_or_empty : ExtReply → Text
text_or_empty (replied v) = v
text_or_empty (ext_failed _) = []

unfoldable pub env_or : String → Text → Prog Text
env_or k d =
    call (ext (get_env k)) λ r. ret (if is_empty (text_or_empty r) then d else text_or_empty r)

unfoldable pub locale_of : Text → Text → Prog Text
locale_of session_name fallback =
    if is_empty session_name
    then ret fallback
    else call (ext (get_session_variable session_name "locale"))
        λ r. ret (if is_empty (text_or_empty r) then fallback else text_or_empty r)

unfoldable pub lc : Text → Message → Message → Prog Message
lc session_name en zh = do
  fallback ← env_or "ZERGX_LOCALE" (codes "en")
  locale ← locale_of session_name fallback
  ret (t locale en zh)

-- `return ef(...)`
unfoldable pub ef : {A : Type 0} → Text → Message → Message → Prog A
ef session_name en zh = do m ← lc session_name en zh; fail (plain m)

-- `_ = s.ext.PublishMailboxEvent(ctx, target, kind, {key: lc(...)})`
unfoldable pub tell : Text → String → String → Message → Message → Prog Unit
tell target kind key en zh = do
  m ← lc target en zh
  call (ext (publish_prose target kind end key m)) λ _. ret tt
