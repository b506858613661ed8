-- ===== src/Tools/Refs.antt =====
-- How references and matches are taken apart (tools.go: refBase, splitMatch).
use repo_extension.Base.{ℕ, ◌≡◌, ◌≢◌, refl, false, none, some, [], ◌∷◌, ◌++◌, ◌==◌, ==-refl, arith}
use repo_extension.Base.Text.{Text, Lacks, is_empty}
use repo_extension.Names.{colon, naming_session}
use repo_extension.Json.{Fields}
use repo_extension.Effects.{ret}
use repo_extension.Tools.{cut, split_match}
use repo_extension.Tools.Host.{Host}
use repo_extension.Tools.Sessions.{ref_parts, ref_base}

cut-append : (sep : ℕ) (p q : Text) → Lacks sep p → cut sep (p ++ (sep ∷ q)) ≡ some (p, q)
unfolding cut
cut-append sep [] q h = rw (==-refl sep)
cut-append sep (c ∷ p) q h =
    let apart : (c == sep) ≡ false = ground (arith, h.0) in rw (apart, cut-append sep p q h.1)

cut-none : (sep : ℕ) (p : Text) → Lacks sep p → cut sep p ≡ none
unfolding cut
cut-none sep [] h = refl
cut-none sep (c ∷ p) h =
    let apart : (c == sep) ≡ false = ground (arith, h.0) in rw (apart, cut-none sep p h.1)

-- A match of grep whose path and line number have no colon is taken apart in each of its three forms:
-- with a line number, the text then being any text; without one; and the path alone.
pub split_match_lem :
    (path line text : Text)
    → Lacks colon path
    → Lacks colon line
    → (split_match (path ++ (colon ∷ (line ++ (colon ∷ text)))) ≡ (path, line, text))
      × (split_match (path ++ (colon ∷ line)) ≡ (path, [], line))
      × (split_match path ≡ (path, [], []))
unfolding split_match
split_match_lem path line text hp hl = (
  rw (
    cut-append colon path (line ++ (colon ∷ text)) hp,
    split_match,
    cut-append colon line text hl,
  ),
  rw (cut-append colon path line hp, split_match, cut-none colon line hl),
  rw (cut-none colon path hp, split_match),
)

filled : (s : Text) → s ≢ [] → is_empty s ≡ false
filled [] h = absurd (h refl)
filled (c ∷ s) h = refl

is_empty-naming_session : (org repo rev : Text) → is_empty (naming_session org repo rev) ≡ false
unfolding naming_session
is_empty-naming_session [] repo rev = refl
is_empty-naming_session (c ∷ org) repo rev = refl

ref_parts-naming_session :
    (org repo rev : Text)
    → Lacks colon org
    → Lacks colon repo
    → ref_parts (naming_session org repo rev) ≡ some (org, repo, rev)
unfolding ref_parts naming_session
ref_parts-naming_session org repo rev ho hr =
    rw (cut-append colon org (repo ++ (colon ∷ rev)) ho, ref_parts, cut-append colon repo rev hr)

-- A ref argument `org:repo:rev` with three parts that are not empty, the first two without a colon, is
-- resolved to those parts with no call, for every session: the revision may hold colons.
pub ref_base-naming_session :
    (host : Host) (args : Fields) (session_name org repo rev : Text)
    → host.arg_string args "ref" ≡ naming_session org repo rev
    → Lacks colon org × (org ≢ [])
    → Lacks colon repo × (repo ≢ [])
    → rev ≢ []
    → ref_base host args session_name ≡ ret (org, repo, rev)
unfolding ref_base
ref_base-naming_session host args session_name org repo rev e (ho, ko) (hr, kr) kv = rw (
  e,
  is_empty-naming_session org repo rev,
  ref_parts-naming_session org repo rev ho hr,
  ref_base,
  filled org ko,
  filled repo kr,
  filled rev kv,
)
