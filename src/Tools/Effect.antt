-- ===== src/Tools/Effect.antt =====
-- Rules for what the tools call: localized texts, the workspace of a call, requests that only read
-- (tools.go, i18n.go).
pub mod Readers
pub mod Requests
pub mod Writers
pub mod Proposals
pub mod Merging
pub mod Execute
pub mod Quiet
pub mod Own
pub mod Keeping
use repo_extension.Base.{
  String, Bool, true, false, Option, none, some, ◌≡◌, refl, ◌||◌, List, if◌then◌else◌, ◌==◌,
}
use repo_extension.Base.Text.{Text, codes, is_empty}
use repo_extension.Names.{Triple}
use repo_extension.Errs.{Message, Err}
use repo_extension.Json.{Fields}
use repo_extension.Effects.{
  Eff, Answer, http, ext, Server, jjlab, get, Piece, get_session_variable, get_env, Prog, ret, fail,
  call, handle, ◌>>=◌,
}
use repo_extension.Effects.Sound.{Sound, Sound-handle, Sound-bind, Sound-if, Sound-weaken}
use repo_extension.Http.{get_json}
use repo_extension.Jjlab.Effect.{request, Any, do_json-Sound}
use repo_extension.I18n.{env_or, locale_of, lc, ef}
use repo_extension.Session.{resolve_session}
use repo_extension.Tools.Host.{Host, Entries, ToolResult, say}
use repo_extension.Tools.Sessions.{session_base, ref_base, full_ref, session_base_xo, ref_parts}

-- What a tool may call and what it relies on. Every tool may ask for the locale, read at the
-- servers, and resolve sessions, which are then known to have their workspaces.
pub record Policy : Type 1 where
  pub Allowed : Eff → Type 0
  pub Rely : (e : Eff) → Answer e → Type 0
  pub asks_env : (k : String) → Allowed (ext (get_env k))
  pub asks_variable : (s : Text) (k : String) → Allowed (ext (get_session_variable s k))
  pub lookups :
      (server : Server) (path : List Piece) → Allowed (http server (request get path none))
  pub Has : Text → Triple → Type 0
  pub resolves : (sid : Text) → Sound Allowed Rely (Has sid) (resolve_session sid)

module _ (p : Policy) where
  -- The calls of `m` keep to the policy.
  pub record IsSafe {A : Type 0} (m : Prog A) : Type 0 where
    pub sound : Sound p.Allowed p.Rely Any m

  pub safe : {A : Type 0} (m : Prog A) → Sound p.Allowed p.Rely Any m → IsSafe m
  safe m h = record { sound = h }

  pub returns : {A : Type 0} (a : A) → IsSafe (ret a)
  returns a = safe (ret a) tt

  pub fails : {A : Type 0} (e : Err) → IsSafe {A = A} (fail e)
  fails {A} e = safe {A = A} (fail e) tt

  pub calls :
      {A : Type 0} (e : Eff) (k : Answer e → Prog A)
      → p.Allowed e
      → ((a : Answer e) → IsSafe (k a))
      → IsSafe (call e k)
  calls e k h hk = safe (call e k) (h, λ a _. (hk a).sound)

  -- Both outcomes are handled by programs that are safe.
  pub handled :
      {A B : Type 0} (m : Prog A) (f : A → Prog B) (g : Err → Prog B)
      → IsSafe m
      → ((a : A) → IsSafe (f a))
      → ((e : Err) → IsSafe (g e))
      → IsSafe (handle m f g)
  handled m f g h hf hg = safe (handle m f g) (
      Sound-handle p.Allowed p.Rely Any Any m f g h.sound (λ a _. (hf a).sound) (λ e. (hg e).sound))

  pub within :
      {A B : Type 0} (m : Prog A) (f : A → Prog B)
      → IsSafe m
      → ((a : A) → IsSafe (f a))
      → IsSafe (m >>= f)
  within m f h hf = handled m f fail h hf fails

  pub either :
      {A : Type 0} (b : Bool) (m n : Prog A) → IsSafe m → IsSafe n → IsSafe (if b then m else n)
  either true m n hm hn = hm
  either false m n hm hn = hn

  -- The same where a branch may use how the test came out.
  pub either_by :
      {A : Type 0} (b : Bool) (m n : Prog A)
      → (b ≡ true → IsSafe m)
      → (b ≡ false → IsSafe n)
      → IsSafe (if b then m else n)
  either_by true m n hm hn = hm refl
  either_by false m n hm hn = hn refl

  pub decoded :
      {A B : Type 0} (o : Option A) (n : Prog B) (f : A → Prog B)
      → IsSafe n
      → ((a : A) → IsSafe (f a))
      → IsSafe (elim o [ none ↦ n | some a ↦ f a ])
  decoded none n f hn hf = hn
  decoded (some a) n f hn hf = hf a

  env_or-IsSafe : (k : String) (d : Text) → IsSafe (env_or k d)
  unfolding env_or
  env_or-IsSafe k d = safe (env_or k d) (p.asks_env k, λ _ _. tt)

  locale_of-IsSafe : (s fallback : Text) → IsSafe (locale_of s fallback)
  unfolding locale_of
  locale_of-IsSafe s fallback =
      either (is_empty s) _ _ (returns fallback) (safe _ (p.asks_variable s "locale", λ _ _. tt))

  pub lc-IsSafe : (s : Text) (en zh : Message) → IsSafe (lc s en zh)
  unfolding lc
  lc-IsSafe s en zh =
      within (env_or "ZERGX_LOCALE" (codes "en")) _ (env_or-IsSafe "ZERGX_LOCALE" (codes "en"))
        (λ fallback. within (locale_of s fallback) _ (locale_of-IsSafe s fallback) (λ _. returns _))

  pub ef-IsSafe : {A : Type 0} (s : Text) (en zh : Message) → IsSafe (ef {A = A} s en zh)
  unfolding ef
  ef-IsSafe s en zh = within (lc s en zh) _ (lc-IsSafe s en zh) (λ _. fails _)

  pub say-IsSafe : (s : Text) (en zh : Message) (meta : Entries) → IsSafe (say s en zh meta)
  say-IsSafe s en zh meta = within (lc s en zh) _ (lc-IsSafe s en zh) (λ _. returns _)

  pub get_json-IsSafe : (path : List Piece) → IsSafe (get_json path)
  get_json-IsSafe path =
      safe (get_json path) (do_json-Sound p.Allowed p.Rely get path none (p.lookups jjlab path))

  session_base-Sound : (sid : Text) → Sound p.Allowed p.Rely (p.Has sid) (session_base sid)
  unfolding session_base
  session_base-Sound sid =
      Sound-if p.Allowed p.Rely (p.Has sid) (is_empty sid) (fail _) _ (λ _. tt)
        (λ _. p.resolves sid)

  pub session_base-IsSafe : (sid : Text) → IsSafe (session_base sid)
  session_base-IsSafe sid = safe (session_base sid) (
      Sound-weaken p.Allowed p.Rely (p.Has sid) Any (session_base sid) (λ _ _. tt)
        (session_base-Sound sid))

  -- A tool that works in the workspace of its session.
  pub in_workspace :
      {A : Type 0} (sid : Text) (f : Triple → Prog A)
      → ((w : Triple) → p.Has sid w → IsSafe (f w))
      → IsSafe (session_base sid >>= f)
  in_workspace sid f hf = safe (session_base sid >>= f) (
      Sound-bind p.Allowed p.Rely (p.Has sid) Any (session_base sid) f (session_base-Sound sid)
        (λ w h. (hf w h).sound))

  module _ (host : Host) where
    full_ref-IsSafe : (ref : Text) (parts : Option Triple) → IsSafe (full_ref ref parts)
    full_ref-IsSafe ref none = fails _
    full_ref-IsSafe ref (some (o, r, b)) =
        either (is_empty o || is_empty r || is_empty b) _ _ (fails _) (returns _)

    -- A tool that reads at a reference.
    pub at_ref :
        {A : Type 0} (args : Fields) (sid : Text) (f : Triple → Prog A)
        → ((w : Triple) → IsSafe (f w))
        → IsSafe (ref_base host args sid >>= f)
    unfolding ref_base
    at_ref args sid f hf =
        within (ref_base host args sid) f
          (either (is_empty (host.arg_string args "ref")) (session_base sid) _
            (session_base-IsSafe sid)
            (full_ref-IsSafe (host.arg_string args "ref") (ref_parts (host.arg_string args "ref"))))
          hf

    pub in_other :
        {A : Type 0} (args : Fields) (sid : Text) (f : Triple → Prog A)
        → ((w : Triple) → IsSafe (f w))
        → IsSafe (session_base_xo host args sid >>= f)
    unfolding session_base_xo
    in_other args sid f hf =
        within (session_base_xo host args sid) f
          (within (session_base sid) _ (session_base-IsSafe sid) (λ w. returns _)) hf
