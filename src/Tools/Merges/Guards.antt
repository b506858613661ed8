-- ===== src/Tools/Merges/Guards.antt =====
-- The guards of mr-merge (tools.go).
use repo_extension.Base.{ℕ, ◌≡◌, Bool, true, false, not, ◌&&◌, if◌then◌else◌}
use repo_extension.Base.Text.{Text, codes, is_empty, text_eq}
use repo_extension.Json.{Fields, str_from}
use repo_extension.Errs.{Message}
use repo_extension.Effects.{Eff, ext, get_env, get_session_variable, Prog, ret}
use repo_extension.Effects.Run.{AnyAnswer}
use repo_extension.Effects.Sound.{Sound, Sound-bind, Sound-if}
use repo_extension.Jjlab.Effect.{Any}
use repo_extension.I18n.{lc, ef, env_or, locale_of}
use repo_extension.Tools.Host.{ToolResult}
use repo_extension.Tools.Merges.Changing.{merge_fetched}

-- The language of a text is asked for, and nothing else.
abbrev pub AsksLocale : Eff → Type 0
AsksLocale (ext (get_env _)) = Unit
AsksLocale (ext (get_session_variable _ _)) = Unit
AsksLocale _ = ⊥

-- A program that asks for a language at most and never succeeds.
abbrev pub Refuses : {A : Type 0} → Prog A → Type 0
Refuses m = Sound AsksLocale AnyAnswer (λ _. ⊥) m

locale-Asks : (s fallback : Text) → Sound AsksLocale AnyAnswer Any (locale_of s fallback)
unfolding locale_of
locale-Asks s fallback =
    Sound-if AsksLocale AnyAnswer Any (is_empty s) (ret fallback) _ (λ _. tt) (λ _. (tt, λ _ _. tt))

lc-Asks : (s : Text) (en zh : Message) → Sound AsksLocale AnyAnswer Any (lc s en zh)
unfolding lc env_or
lc-Asks s en zh = (
  tt,
  λ r _. Sound-bind AsksLocale AnyAnswer Any Any (locale_of s _) _ (locale-Asks s _) (λ _ _. tt),
)

ef-Refuses : (s : Text) (en zh : Message) → Refuses (ef {A = ToolResult} s en zh)
unfolding ef
ef-Refuses s en zh =
    Sound-bind AsksLocale AnyAnswer Any (λ _. ⊥) (lc s en zh) _ (lc-Asks s en zh) (λ _ _. tt)

-- The merge request is open, has a snapshot, and goes to the bookmark of the session.
unfoldable pub may_merge : Text → Fields → Bool
may_merge b mr =
    text_eq (str_from mr (codes "state")) (codes "open")
    && not (is_empty (str_from mr (codes "head_sha")))
    && text_eq b (str_from mr (codes "base"))

guarded :
    (m e1 e2 e3 : Prog ToolResult) (is_open no_sha is_base : Bool)
    → (is_open && not no_sha && is_base) ≡ false
    → Refuses e1
    → Refuses e2
    → Refuses e3
    → Refuses (if not is_open then e1 else if no_sha then e2 else if not is_base then e3 else m)
guarded m e1 e2 e3 false no_sha is_base h h1 h2 h3 = h1
guarded m e1 e2 e3 true true is_base h h1 h2 h3 = h2
guarded m e1 e2 e3 true false false h h1 h2 h3 = h3
guarded m e1 e2 e3 true false true h h1 h2 h3 = absurd (cc)

-- A fetched merge request that is not open, has no head sha or does not go to the bookmark of the session is
-- refused, whatever the answers: mr-merge then asks for the language of its text at most, so it rebases
-- nothing, reviews nothing and changes no state, and it ends with an error.
pub merge_fetched-Refuses :
    (o r b : Text) (n : ℕ) (mr : Fields) (sid : Text)
    → may_merge b mr ≡ false
    → Refuses (merge_fetched (o, r, b) n mr sid)
unfolding merge_fetched may_merge
merge_fetched-Refuses o r b n mr sid h =
    guarded _ _ _ _ (text_eq (str_from mr (codes "state")) (codes "open"))
      (is_empty (str_from mr (codes "head_sha"))) (text_eq b (str_from mr (codes "base"))) h
      (ef-Refuses sid _ _) (ef-Refuses sid _ _) (ef-Refuses sid _ _)
