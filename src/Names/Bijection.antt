-- ===== src/Names/Bijection.antt =====
-- Session names and the triples that they spell (helpers.go: namingSession, parseSession).
use repo_extension.Base.{◌≡◌, some, List, [], ◌∷◌, ◌++◌}
use repo_extension.Base.Text.{
  Text, Lacks, split, join, join-split, split-Lacks, split_single, split-append,
}
use repo_extension.Base.Lists.{All}
use repo_extension.Names.{colon, Triple, naming_session, three_parts, parse_session}

-- A session name that is built from three parts without a colon is parsed back to those parts.
pub parse_session-naming_session :
    (org repo bookmark : Text)
    → Lacks colon org
    → Lacks colon repo
    → Lacks colon bookmark
    → parse_session (naming_session org repo bookmark) ≡ some (org, repo, bookmark)
unfolding parse_session naming_session
parse_session-naming_session org repo bookmark ho hr hb = rw (
  split-append colon org (repo ++ (colon ∷ bookmark)) ho,
  split-append colon repo bookmark hr,
  split_single colon bookmark hb,
)

three_parts-inv :
    (ps : List Text) (o r b : Text) → three_parts ps ≡ some (o, r, b) → ps ≡ o ∷ r ∷ b ∷ []
three_parts-inv (x ∷ y ∷ z ∷ []) o r b h = cc
three_parts-inv [] o r b h = cc
three_parts-inv (x ∷ []) o r b h = cc
three_parts-inv (x ∷ y ∷ []) o r b h = cc
three_parts-inv (x ∷ y ∷ z ∷ w ∷ ps) o r b h = cc

-- A name that parses is the name built from its parts, and none of the parts holds a colon.
pub naming_session-parse_session :
    (name : Text) (o r b : Text)
    → parse_session name ≡ some (o, r, b)
    → (naming_session o r b ≡ name) × Lacks colon o × Lacks colon r × Lacks colon b
unfolding parse_session naming_session
naming_session-parse_session name o r b h =
    let e : split colon name ≡ o ∷ r ∷ b ∷ [] = three_parts-inv (split colon name) o r b h in
    let j : join colon (o ∷ r ∷ b ∷ []) ≡ name = rw (← e) (join-split colon name) in
    let l : All (Lacks colon) (o ∷ r ∷ b ∷ []) = rw e at (split-Lacks colon name) in
    (unfold join in j, l.0, l.1.0, l.1.1.0)

-- Two names that parse to the same triple are the same name.
pub parse_session-injective :
    (name other : Text) {t : Triple}
    → parse_session name ≡ some t
    → parse_session other ≡ some t
    → name ≡ other
parse_session-injective name other {t = (o, r, b)} h k =
    cc (
      (naming_session-parse_session name o r b h).0,
      (naming_session-parse_session other o r b k).0,
    )
