-- ===== src/Names/Components.antt =====
-- Accepted components and session names (helpers.go: validSessionComponent).
use repo_extension.Base.{ℕ, ◌≡◌, ◌≢◌, ◌≤◌, true, some, [], ◌∷◌, arith, leb, inl, inr, Bool-cases}
use repo_extension.Base.Text.{Text, Lacks}
use repo_extension.Base.Lists.{length}
use repo_extension.Names.{
  colon, naming_session, parse_session, all_component_bytes, session_component_re,
  valid_session_component, is_component_byte, is_alnum,
}
use repo_extension.Names.Bijection.{parse_session-naming_session}

is_component_byte-ne-colon : (c : ℕ) → is_component_byte c ≡ true → c ≢ colon
is_component_byte-ne-colon c h = ground arith

is_alnum-ne-colon : (c : ℕ) → is_alnum c ≡ true → c ≢ colon
is_alnum-ne-colon c h = ground arith

all_component_bytes-Lacks : (s : Text) → all_component_bytes s ≡ true → Lacks colon s
unfolding all_component_bytes
all_component_bytes-Lacks [] h = tt
all_component_bytes-Lacks (c ∷ s) h = elim (Bool-cases (is_component_byte c)) [
  | inl e ↦ (is_component_byte-ne-colon c e, all_component_bytes-Lacks s (rw e at h))
  | inr e ↦ cc (rw e at h)
]

re-Lacks : (s : Text) → session_component_re s ≡ true → Lacks colon s × (length s ≤ 128) × (s ≢ [])
unfolding session_component_re
re-Lacks [] h = cc
re-Lacks (c ∷ s) h = elim (Bool-cases (is_alnum c)) [
  | inl e ↦ elim (Bool-cases (leb (length s) 127)) [
    | inl l ↦
        ((is_alnum-ne-colon c e, all_component_bytes-Lacks s (rw (e, l) at h)), ground arith, cc)
    | inr l ↦ cc (rw (e, l) at h)
  ]
  | inr e ↦ cc (rw e at h)
]

pub valid-re : (s : Text) → valid_session_component s ≡ true → session_component_re s ≡ true
unfolding valid_session_component
valid-re s h = ground arith

pub valid-Lacks : (s : Text) → valid_session_component s ≡ true → Lacks colon s
valid-Lacks s h = (re-Lacks s (valid-re s h)).0

-- A session name made of three parts that the validator accepts is parsed back to those parts,
-- and an accepted bookmark has between 1 and 128 bytes.
pub valid_session_component-parse_session :
    (org repo bookmark : Text)
    → valid_session_component org ≡ true
    → valid_session_component repo ≡ true
    → valid_session_component bookmark ≡ true
    → (parse_session (naming_session org repo bookmark) ≡ some (org, repo, bookmark))
      × (length bookmark ≤ 128)
      × (bookmark ≢ [])
valid_session_component-parse_session org repo bookmark ho hr hb =
    let (l, n, e) = re-Lacks bookmark (valid-re bookmark hb) in
    (
      parse_session-naming_session org repo bookmark (valid-Lacks org ho) (valid-Lacks repo hr) l,
      n,
      e,
    )
