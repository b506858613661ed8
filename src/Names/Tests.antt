-- ===== src/Names/Tests.antt =====
-- The theorems on names at work.
use repo_extension.Base.{◌≤◌, arith, ◌≡◌, ◌≢◌, refl, true, some, [], ◌∷◌, ◌++◌}
use repo_extension.Base.Text.{Text, Lacks, codes, split}
use repo_extension.Base.Lists.{length}
use repo_extension.Names.{
  colon, naming_session, parse_session, valid_session_component, env_normalize_port,
}
use repo_extension.Names.Bijection.{parse_session-naming_session, naming_session-parse_session}
use repo_extension.Names.Components.{valid_session_component-parse_session}
use repo_extension.Names.Port.{env_normalize_port_lem}

abbrev org : Text
org = codes "o"

abbrev repo : Text
repo = codes "r"

abbrev bookmark : Text
bookmark = codes "b"

abbrev sid : Text
sid = codes "o:r:b"

spells : parse_session sid ≡ some (org, repo, bookmark)
unfolding parse_session split
spells = refl

parse_session-naming_session_example :
    parse_session (naming_session org repo bookmark) ≡ some (org, repo, bookmark)
parse_session-naming_session_example =
    parse_session-naming_session org repo bookmark (omega arith, tt) (omega arith, tt)
      (omega arith, tt)

naming_session-parse_session_example :
    (naming_session org repo bookmark ≡ sid)
    × Lacks colon org
    × Lacks colon repo
    × Lacks colon bookmark
naming_session-parse_session_example = naming_session-parse_session sid org repo bookmark spells

valid_o : valid_session_component org ≡ true
unfolding valid_session_component
valid_o = refl

valid_r : valid_session_component repo ≡ true
unfolding valid_session_component
valid_r = refl

valid_b : valid_session_component (codes "b/x") ≡ true
unfolding valid_session_component
valid_b = refl

valid_session_component-parse_session_example :
    (parse_session (naming_session org repo (codes "b/x")) ≡ some (org, repo, codes "b/x"))
    × (length (codes "b/x") ≤ 128)
    × (codes "b/x" ≢ [])
valid_session_component-parse_session_example =
    valid_session_component-parse_session org repo (codes "b/x") valid_o valid_r valid_b

env_normalize_port_lem_example :
    (env_normalize_port (codes "::" ++ (colon ∷ codes "80")) ≡ codes "80")
    × (env_normalize_port (codes "80") ≡ codes "80")
    × (env_normalize_port (codes "::" ++ (colon ∷ [])) ≡ codes "::" ++ (colon ∷ []))
env_normalize_port_lem_example =
    env_normalize_port_lem (codes "::") (codes "80") (omega arith, (omega arith, tt)) (cc)
