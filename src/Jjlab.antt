-- ===== src/Jjlab.antt =====
-- client_jj.go: repositories and bookmarks of the jjlab server.
pub mod Tree
pub mod Effect
pub mod MergeRequests
use repo_extension.Base.{
  ℕ, String, Bool, true, false, ◌||◌, not, Option, none, some, List, [], ◌∷◌, ◌++◌, leb, ◌==◌,
  if◌then◌else◌,
}
use repo_extension.Base.Text.{Text, codes, is_empty}
use repo_extension.Errs.{Message, format, ◌%s◌, ◌%v◌, ◌%d◌, plain, err_downstream, err_not_found}
use repo_extension.Json
use repo_extension.Json.{
  Json, Items, nil, cons, Fields, end, field, text, str_from, slice_of, as_map, map_or_nil,
  err_text,
}
use repo_extension.Effects.{
  jjlab, get, post, delete, Piece, raw, path_escape, Prog, ret, fail, call, handle, ◌>>=◌, ◌>>◌,
  downstream,
}
use repo_extension.Http.{send, get_json, post_json, string_field, repo_path}
use Tree.{
  BookmarkInfo, RepoTree, Repos, put_repo, put_org, to_bookmarks, repo_exists, bookmark_exists,
}

abbrev jjlab_name : Text
jjlab_name = codes "jjlab"

abbrev jj_call : List Piece → Prog (ℕ × Fields)
jj_call path = downstream jjlab_name (send jjlab get path none)

abbrev pub bad_status : String → ℕ → {A : Type 0} → Prog A
bad_status what status = fail (err_downstream jjlab_name (plain (format what %d status)))

-- The arguments of the error text stand in the order of the format.
abbrev pub bad_reply : String → ℕ → Fields → {A : Type 0} → Prog A
bad_reply what status v =
    fail (err_downstream jjlab_name (plain (format what %d status %s err_text v)))

unfoldable pub get_bookmarks_detail : Text → Text → Prog (List BookmarkInfo)
get_bookmarks_detail org repo = do
  v ← get_json (repo_path org repo (raw "/bookmarks" ∷ []))
  ret (to_bookmarks v)

-- A repository whose listing fails has no bookmarks in the tree.
unfoldable pub scan_repos : Text → Items → Repos → Prog Repos
unfolding get_bookmarks_detail
scan_repos org nil repos = ret repos
scan_repos org (cons re rest) repos = elim (as_map re) [
  | none ↦ scan_repos org rest repos
  | some rm ↦
      handle (get_bookmarks_detail org (str_from rm (codes "repo")))
        (λ bms. scan_repos org rest (put_repo (str_from rm (codes "repo")) bms repos))
        (λ _. scan_repos org rest (put_repo (str_from rm (codes "repo")) [] repos))
]

unfoldable pub scan_orgs : Items → RepoTree → Prog RepoTree
unfolding scan_repos
scan_orgs nil tree = ret tree
scan_orgs (cons oe rest) tree = elim (as_map oe) [
  | none ↦ scan_orgs rest tree
  | some om ↦
      scan_repos (str_from om (codes "org")) (slice_of (Json.get om (codes "repos"))) []
      >>= λ repos. scan_orgs rest (put_org (str_from om (codes "org")) repos tree)
]

unfoldable pub get_repo_tree : Prog RepoTree
unfolding scan_orgs
get_repo_tree = do
  (status, v) ← jj_call (raw "/api/v1/repos" ∷ [])
  if status == 200
      then scan_orgs (slice_of (Json.get v (codes "orgs"))) []
      else bad_status "GET /repos: HTTP %d" status

-- EnsureRepo: a 409 is success.
unfoldable pub ensure_repo : Text → Text → Prog Unit
ensure_repo org repo = do
  (status, v) ← downstream jjlab_name (
      send jjlab post (repo_path org repo [])
        (some (string_field "default_bookmark" (codes "main") end)))
  if status == 200 || status == 201 || status == 409
      then ret tt
      else bad_reply "ensure repo: HTTP %d %s" status v

abbrev pub bookmark_path : Text → Text → Text → List Piece
bookmark_path org repo bookmark = repo_path org repo (raw "/bookmarks/" ∷ path_escape bookmark ∷ [])

-- The write of EnsureBookmark.
unfoldable pub create_bookmark : Text → Text → Text → Text → Prog Unit
create_bookmark org repo src bookmark = do
  (status, v) ←
      downstream jjlab_name
        (send jjlab post (bookmark_path org repo bookmark) (some (string_field "target" src end)))
  if status == 200 || status == 201
      then ret tt
      else fail (
          err_downstream jjlab_name
            (plain (format "create bookmark %q: HTTP %d %s" %s src %d status %s err_text v)))

unfoldable pub ensure_bookmark : Text → Text → Text → Text → Prog Unit
unfolding create_bookmark
ensure_bookmark org repo src bookmark = do
  tree ← get_repo_tree
  if bookmark_exists tree org repo bookmark
      then ret tt
      else if repo_exists tree org repo
      then create_bookmark org repo src bookmark
      else fail (err_not_found (format "repository %s/%s does not exist" %s org %s repo))

unfoldable pub delete_bookmark : Text → Text → Text → Prog Unit
delete_bookmark org repo bookmark = do
  tree ← get_repo_tree
  if bookmark_exists tree org repo bookmark
      then (do
        (status, v) ←
            downstream jjlab_name (send jjlab delete (bookmark_path org repo bookmark) none)
        if status == 200 || status == 204
            then ret tt
            else bad_reply "delete bookmark: HTTP %d %s" status v)
      else ret tt

-- CanResolve asks for the listing of the bookmarks: `rev` stands in the error text alone.
unfoldable pub can_resolve : Text → Text → Text → Prog Bool
can_resolve org repo rev = do
  (status, v) ← jj_call (repo_path org repo (raw "/bookmarks" ∷ []))
  if status == 200
      then ret true
      else if status == 404
      then ret false
      else fail (err_downstream jjlab_name (plain (format "resolve %q: HTTP %d" %s rev %d status)))
