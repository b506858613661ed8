-- ===== src/Names.antt =====
-- helpers.go: session names and the port of an address.
pub mod Bijection
pub mod Components
pub mod Port
pub mod Tests
use repo_extension.Base.{
  ℕ, String, Bool, true, false, ◌||◌, ◌&&◌, Option, none, some, List, [], ◌∷◌, ◌++◌, leb, ltb, ◌==◌,
  if◌then◌else◌,
}
use repo_extension.Base.Text.{
  Text, codes, split, text_eq, has_prefix, has_suffix, contains, is_empty,
}
use repo_extension.Base.Lists.{length}

abbrev pub colon : ℕ
colon = b':'

-- (org, repo, bookmark)
abbrev pub Triple : Type 0
Triple = Text × Text × Text

-- org + ":" + repo + ":" + bookmark
unfoldable pub naming_session : Text → Text → Text → Text
naming_session org repo bookmark = org ++ (colon ∷ (repo ++ (colon ∷ bookmark)))

-- The test `len(parts) != 3`.
abbrev pub three_parts : List Text → Option Triple
three_parts (org ∷ repo ∷ bookmark ∷ []) = some (org, repo, bookmark)
three_parts _ = none

-- `ok == false` is `none`.
unfoldable pub parse_session : Text → Option Triple
parse_session name = three_parts (split colon name)

abbrev pub between : ℕ → ℕ → ℕ → Bool
between lo hi c = leb lo c && leb c hi

-- [A-Za-z0-9]
abbrev pub is_alnum : ℕ → Bool
is_alnum c = between b'A' b'Z' c || between b'a' b'z' c || between b'0' b'9' c

-- [A-Za-z0-9._/-]
abbrev pub is_component_byte : ℕ → Bool
is_component_byte c = is_alnum c || c == b'.' || c == b'_' || c == b'/' || c == b'-'

unfoldable pub all_component_bytes : Text → Bool
all_component_bytes [] = true
all_component_bytes (c ∷ s) = is_component_byte c && all_component_bytes s

-- `^[A-Za-z0-9][A-Za-z0-9._/-]{0,127}$`
unfoldable pub session_component_re : Text → Bool
unfolding all_component_bytes
session_component_re [] = false
session_component_re (c ∷ s) = is_alnum c && leb (length s) 127 && all_component_bytes s

-- the second test of `validSessionComponent`
unfoldable pub has_reserved_part : Text → Bool
unfolding contains has_suffix
has_reserved_part s =
    contains s (codes ":")
    || contains s (codes "..")
    || has_prefix s (codes "/")
    || has_suffix s (codes "/")
    || contains s (codes "//")
    || has_suffix s (codes ".")
    || has_suffix s (codes ".lock")

unfoldable pub valid_session_component : Text → Bool
unfolding session_component_re has_reserved_part
valid_session_component s =
    if session_component_re s then (if has_reserved_part s then false else true) else false

-- `strings.LastIndexByte(v, ':')` and the slice behind it: the text behind the last separator.
unfoldable pub after_last : ℕ → Text → Option Text
after_last sep [] = none
after_last sep (c ∷ s) =
    let rest = after_last sep s in
    elim rest [ some t ↦ some t | none ↦ if c == sep then some s else none ]

unfoldable pub env_normalize_port : Text → Text
unfolding after_last
env_normalize_port v = elim (after_last colon v) [ none ↦ v | some c ↦ if is_empty c then v else c ]
