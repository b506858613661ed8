-- ===== src/Jjlab/Tree.antt =====
-- client_jj.go: the snapshot of organizations, repositories and bookmarks.
use repo_extension.Base.{Bool, true, false, Option, none, some, List, [], ◌∷◌, if◌then◌else◌}
use repo_extension.Base.Text.{Text, codes, text_eq}
use repo_extension.Json
use repo_extension.Json.{Json, array, Items, nil, cons, Fields, str_from, slice_of, as_map}

pub record BookmarkInfo : Type 0 where
  pub name : Text
  pub sha : Text

-- The maps of Go, as lists of keys and values with one entry for each key.
abbrev pub Repos : Type 0
Repos = List (Text × List BookmarkInfo)

abbrev pub RepoTree : Type 0
RepoTree = List (Text × Repos)

abbrev pub find_key : {V : Type 0} → Text → List (Text × V) → Option V
find_key k [] = none
find_key k ((j, v) ∷ m) = if text_eq j k then some v else find_key k m

abbrev pub set_key : {V : Type 0} → Text → V → List (Text × V) → List (Text × V)
set_key k v [] = (k, v) ∷ []
set_key k v ((j, u) ∷ m) = if text_eq j k then (j, v) ∷ m else (j, u) ∷ set_key k v m

unfoldable pub put_repo : Text → List BookmarkInfo → Repos → Repos
put_repo repo bms repos = set_key repo bms repos

unfoldable pub put_org : Text → Repos → RepoTree → RepoTree
put_org org repos tree = set_key org repos tree

unfoldable pub bookmarks_of : Items → List BookmarkInfo
bookmarks_of nil = []
bookmarks_of (cons e rest) = elim (as_map e) [
  | none ↦ bookmarks_of rest
  | some m ↦
      record { name = str_from m (codes "name"); sha = str_from m (codes "sha") }
      ∷ bookmarks_of rest
]

unfoldable pub to_bookmarks : Fields → List BookmarkInfo
unfolding bookmarks_of
to_bookmarks v = bookmarks_of (slice_of (Json.get v (codes "bookmarks")))

abbrev pub has_name : Text → List BookmarkInfo → Bool
has_name bookmark [] = false
has_name bookmark (b ∷ bms) = if text_eq b.name bookmark then true else has_name bookmark bms

unfoldable pub repo_exists : RepoTree → Text → Text → Bool
repo_exists tree org repo = elim (find_key org tree) [
  | none ↦ false
  | some repos ↦ elim (find_key repo repos) [ none ↦ false | some _ ↦ true ]
]

-- A repository that the tree lacks has a nil slice of bookmarks.
unfoldable pub bookmark_exists : RepoTree → Text → Text → Text → Bool
bookmark_exists tree org repo bookmark = elim (find_key org tree) [
  | none ↦ false
  | some repos ↦ elim (find_key repo repos) [ none ↦ false | some bms ↦ has_name bookmark bms ]
]
