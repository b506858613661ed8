-- ===== src/Surface.antt =====
-- The HTTP handlers of sessions_http.go: what they reply. A JSON body is a value of its own shape, and
-- a bookmark without a session has none where the source writes null.
pub mod Listing
pub mod Ensuring
pub mod Adoption
pub mod Queries
pub mod Tests
use repo_extension.Base.{
  ◌&&◌, ℕ, String, Bool, true, false, Option, none, some, List, [], ◌∷◌, ◌++◌, if◌then◌else◌,
}
use repo_extension.Base.Text.{Text, codes, is_empty, text_eq}
use repo_extension.Base.Lists.{any}
use repo_extension.Names.{valid_session_component}
use repo_extension.Errs.{Err, Message, format, ◌%s◌, status_of, message_of, err_not_found}
use repo_extension.Effects.{Method, get, post, MapRow, Prog, ret, fail, handle, ◌>>=◌, downstream}
use repo_extension.Store.{list_all_rows, list_managed, list_rows_for_repo, get_row_by_session}
use repo_extension.Jjlab.{get_repo_tree}
use repo_extension.Jjlab.Tree.{BookmarkInfo, Repos, RepoTree, find_key, repo_exists}
use repo_extension.Session.{postgres, adopt_bookmark}

pub record BookmarkEntry : Type 0 where
  pub bookmark : Text
  pub session_name : Option Text

pub record RepoEntry : Type 0 where
  pub repo : Text
  pub managed : Bool
  pub bookmarks : List BookmarkEntry

pub record OrgEntry : Type 0 where
  pub org : Text
  pub repos : List RepoEntry

pub data Body : Type 0 where
  healthy : Body
  refused : Message → Body
  repo_listing : List OrgEntry → Body
  bookmark_listing : List BookmarkEntry → Body
  session_ensured : Text → Bool → Body
  session_mapping : Text → Text → Text → Body

pub record Response : Type 0 where
  pub code : ℕ
  pub body : Body

abbrev pub write_json : ℕ → Body → Response
write_json code body = record { code = code; body = body }

unfoldable pub write_err : Err → Response
write_err e = write_json (status_of e) (refused (message_of e))

abbrev pub health : Response
health = write_json 200 healthy

abbrev pub slash : ℕ
slash = b'/'

-- The keys of the maps: org/repo and org/repo/bookmark.
abbrev pub repo_key : Text → Text → Text
repo_key org repo = org ++ (slash ∷ repo)

abbrev pub bookmark_key : Text → Text → Text → Text
bookmark_key org repo bookmark = org ++ (slash ∷ (repo ++ (slash ∷ bookmark)))

-- The map `bound` at a key: a later row takes the place of an earlier one.
unfoldable pub bound_at : (MapRow → Text) → List MapRow → Text → Option Text
bound_at key [] k = none
bound_at key (row ∷ rows) k =
    let later = bound_at key rows k in
    elim later [
      | some sid ↦ some sid
      | none ↦ if text_eq (key row) k then some row.session_name else none
    ]

abbrev pub is_managed_in : List MapRow → Text → Text → Bool
is_managed_in managed org repo =
    any (λ m. text_eq (repo_key m.org m.repo) (repo_key org repo)) managed

abbrev pub bookmark_entries : (Text → Option Text) → List BookmarkInfo → List BookmarkEntry
bookmark_entries session_at [] = []
bookmark_entries session_at (bm ∷ bms) =
    record { bookmark = bm.name; session_name = session_at bm.name }
    ∷ bookmark_entries session_at bms

abbrev pub row_key : MapRow → Text
row_key row = bookmark_key row.org row.repo row.bookmark

unfoldable pub repo_entries : List MapRow → List MapRow → Text → Repos → List RepoEntry
unfolding bound_at
repo_entries rows managed org [] = []
repo_entries rows managed org ((repo, bms) ∷ repos) =
    record {
      repo = repo;
      managed = is_managed_in managed org repo;
      bookmarks = bookmark_entries (λ bm. bound_at row_key rows (bookmark_key org repo bm)) bms;
    }
    ∷ repo_entries rows managed org repos

unfoldable pub org_entries : List MapRow → List MapRow → RepoTree → List OrgEntry
unfolding repo_entries
org_entries rows managed [] = []
org_entries rows managed ((org, repos) ∷ tree) =
    record { org = org; repos = repo_entries rows managed org repos }
    ∷ org_entries rows managed tree

-- A handler that writes its error.
abbrev pub answered_with : Prog Body → Prog Response
answered_with m = handle m (λ body. ret (write_json 200 body)) (λ e. ret (write_err e))

unfoldable pub list_repos : Prog Response
unfolding org_entries write_err
list_repos = answered_with (do
  tree ← get_repo_tree
  rows ← downstream postgres list_all_rows
  managed ← downstream postgres list_managed
  ret (repo_listing (org_entries rows managed tree)))

-- tree[org][repo]
abbrev bookmarks_at : RepoTree → Text → Text → List BookmarkInfo
bookmarks_at tree org repo = elim (find_key org tree) [
  | none ↦ []
  | some repos ↦ elim (find_key repo repos) [ none ↦ [] | some bms ↦ bms ]
]

unfoldable pub list_bookmarks : Text → Text → Prog Response
unfolding bound_at write_err
list_bookmarks org repo = answered_with (do
  tree ← get_repo_tree
  if repo_exists tree org repo
      then (do
        rows ← downstream postgres (list_rows_for_repo org repo)
        ret (
            bookmark_listing (
              bookmark_entries (bound_at (λ row. row.bookmark) rows) (bookmarks_at tree org repo))))
      else fail (err_not_found (format "repository %s/%s does not exist" %s org %s repo)))

-- completeAdopt
unfoldable pub complete_adopt : Text → Text → Text → Prog (Text × Bool)
complete_adopt org repo bookmark = adopt_bookmark org repo bookmark

unfoldable pub ensure_bookmark_session : Text → Text → Text → Prog Response
unfolding write_err complete_adopt
ensure_bookmark_session org repo bm =
    if valid_session_component bm
    then answered_with
        (do (name, adopted) ← complete_adopt org repo bm; ret (session_ensured name adopted))
    else ret (write_json 400 (refused (format "invalid bookmark name; cannot derive session")))

-- The row of a session-map request.
abbrev pub mapping_body : Text → Option MapRow → Prog Body
mapping_body sid none = fail (err_not_found (format "session %s has no mapping row" %s sid))
mapping_body sid (some row) = ret (session_mapping row.org row.repo row.bookmark)

unfoldable pub get_session_map : Text → Prog Response
unfolding write_err
get_session_map sid =
    if is_empty sid
    then ret (write_json 400 (refused (format "session is required")))
    else answered_with (do row ← downstream postgres (get_row_by_session sid); mapping_body sid row)

-- The routes below /api/v1 for the segments of a path; `session` is the parameter of the query.
unfoldable pub get_route : List Text → Text → Option (Prog Response)
unfolding list_repos list_bookmarks get_session_map
get_route (name ∷ []) session =
    if text_eq name (codes "health")
    then some (ret health)
    else if text_eq name (codes "session-map")
    then some (get_session_map session)
    else if text_eq name (codes "repos")
    then some list_repos
    else none
get_route (name ∷ org ∷ repo ∷ part ∷ []) session =
    if text_eq name (codes "repos") && text_eq part (codes "bookmarks")
    then some (list_bookmarks org repo)
    else none
get_route _ session = none

unfoldable pub post_route : List Text → Option (Prog Response)
unfolding ensure_bookmark_session
post_route (name ∷ org ∷ repo ∷ part ∷ bm ∷ last ∷ []) =
    if text_eq name (codes "repos")
      && text_eq part (codes "bookmarks")
      && text_eq last (codes "session")
    then some (ensure_bookmark_session org repo bm)
    else none
post_route _ = none

-- The handler of a request; none where chi answers itself.
unfoldable pub router : Method → List Text → Text → Option (Prog Response)
unfolding get_route post_route
router get segments session = get_route segments session
router post segments session = post_route segments
router _ segments session = none
