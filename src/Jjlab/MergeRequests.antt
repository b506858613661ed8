-- ===== src/Jjlab/MergeRequests.antt =====
-- client_jj.go: commits, merge requests and heads, which the tools ask for. The number of a merge
-- request is a natural number.
use repo_extension.Base.{ℕ, ◌≡◌, refl, false, none, some, List, [], ◌∷◌, ◌==◌, if◌then◌else◌}
use repo_extension.Base.Text.{Text, codes, is_empty}
use repo_extension.Errs.{format, plain, err_downstream}
use repo_extension.Json
use repo_extension.Json.{
  Json, array, Items, nil, cons, Fields, end, field, slice_of, as_map, str_from, err_text,
}
use repo_extension.Effects.{
  Eff, http, jjlab, agent, select, exec, cache, ext, get, patch, Piece, raw, query_escape, decimal,
  Prog, ret, fail, ◌>>=◌, downstream,
}
use repo_extension.Effects.Sound.{Sound, Sound-bind, Sound-if, Sound-option, Sound-downstream}
use repo_extension.Effects.Run.{AnyAnswer}
use repo_extension.Http.{send, get_json, post_json, string_field, repo_path}
use repo_extension.Jjlab.{bad_status, bad_reply, bookmark_path, jj_call, jjlab_name}
use repo_extension.Jjlab.Effect
use repo_extension.Jjlab.Effect.{Any}

-- The loop of GetBookmarks: nameless entries are skipped.
unfoldable pub bookmark_names : Items → List Text
bookmark_names nil = []
bookmark_names (cons be rest) =
    let names = bookmark_names rest in
    elim (as_map be) [
      | none ↦ names
      | some bm ↦
          if is_empty (str_from bm (codes "name"))
          then names
          else str_from bm (codes "name") ∷ names
    ]

unfoldable pub get_bookmarks : Text → Text → Prog (List Text)
unfolding bookmark_names
get_bookmarks org repo = do
  (status, v) ← jj_call (repo_path org repo (raw "/bookmarks" ∷ []))
  if status == 200
      then ret (bookmark_names (slice_of (Json.get v (codes "bookmarks"))))
      else bad_status "GET bookmarks: HTTP %d" status

unfoldable pub commit : Text → Text → Text → Text → Items → Prog Fields
commit org repo bookmark message actions = post_json (repo_path org repo (raw "/commits" ∷ [])) (
    string_field "bookmark" bookmark
      (string_field "message" message (field (codes "actions") (array actions) end)))

abbrev pub mr_path : Text → Text → List Piece → List Piece
mr_path org repo rest = repo_path org repo (raw "/pulls" ∷ rest)

abbrev numbered : ℕ → List Piece → List Piece
numbered number rest = raw "/" ∷ decimal number ∷ rest

unfoldable pub create_mr : Text → Text → Text → Text → Text → Text → Prog Fields
create_mr org repo title body head base = post_json (mr_path org repo []) (
    string_field "title" title
      (string_field "body" body (string_field "head" head (string_field "base" base end))))

unfoldable pub list_mrs : Text → Text → Text → Prog Items
list_mrs org repo state = do
  v ←
      get_json
        (mr_path org repo (if is_empty state then [] else raw "?state=" ∷ query_escape state ∷ []))
  ret (slice_of (Json.get v (codes "pull_requests")))

unfoldable pub get_mr : Text → Text → ℕ → Prog Fields
get_mr org repo number = do
  v ← get_json (mr_path org repo (numbered number []))
  elim (as_map (Json.get v (codes "mr"))) [ some m ↦ ret m | none ↦ ret v ]

unfoldable pub mr_diff : Text → Text → ℕ → Prog Fields
mr_diff org repo number = get_json (mr_path org repo (numbered number (raw "/diff" ∷ [])))

unfoldable pub add_mr_review : Text → Text → ℕ → Text → Text → Prog Unit
add_mr_review org repo number state body = do
  v ←
      post_json (mr_path org repo (numbered number (raw "/reviews" ∷ [])))
        (string_field "state" state (string_field "body" body end))
  ret tt

unfoldable pub update_mr_state : Text → Text → ℕ → Text → Prog Unit
update_mr_state org repo number state = do
  (status, v) ← downstream jjlab_name (
      send jjlab patch (mr_path org repo (numbered number []))
        (some (string_field "state" state end)))
  if status == 200 then ret tt else bad_reply "update mr: HTTP %d %s" status v

unfoldable pub list_mr_reviews : Text → Text → ℕ → Prog Items
list_mr_reviews org repo number = do
  v ← get_json (mr_path org repo (numbered number (raw "/reviews" ∷ [])))
  ret (slice_of (Json.get v (codes "reviews")))

unfoldable pub list_mr_comments : Text → Text → ℕ → Prog Items
list_mr_comments org repo number = do
  v ← get_json (mr_path org repo (numbered number (raw "/comments" ∷ [])))
  ret (slice_of (Json.get v (codes "comments")))

abbrev no_sha : {A : Type 0} → Prog A
no_sha = fail (err_downstream jjlab_name (plain (format "get bookmark: no sha in response")))

abbrev pub sha_or : Fields → Prog Text → Prog Text
sha_or v rest = if is_empty (str_from v (codes "sha")) then rest else ret (str_from v (codes "sha"))

unfoldable pub get_bookmark_head : Text → Text → Text → Prog Text
get_bookmark_head org repo bookmark = do
  (status, v) ← jj_call (bookmark_path org repo bookmark)
  if status == 200
      then sha_or v (elim (as_map (Json.get v (codes "head"))) [
        | none ↦ no_sha
        | some head ↦ sha_or head no_sha
      ])
      else bad_reply "get bookmark: HTTP %d %s" status v

-- A GET to jjlab, and no other call.
abbrev pub IsLookup : Eff → Type 0
IsLookup (http jjlab q) = q.method ≡ get
IsLookup (http agent q) = ⊥
IsLookup (select q) = ⊥
IsLookup (exec x) = ⊥
IsLookup (cache c) = ⊥
IsLookup (ext c) = ⊥

abbrev pub IsPresent : Text → Type 0
IsPresent s = is_empty s ≡ false

sha_or-Sound :
    (v : Fields) (rest : Prog Text)
    → Sound IsLookup AnyAnswer IsPresent rest
    → Sound IsLookup AnyAnswer IsPresent (sha_or v rest)
sha_or-Sound v rest h =
    Sound-if IsLookup AnyAnswer IsPresent (is_empty (str_from v (codes "sha"))) rest _ (λ _. h)
      (λ e. e)

-- Whatever jjlab answers, the lookup of a bookmark's head makes GET requests to jjlab alone, and what it
-- returns is not empty.
pub get_bookmark_head-Sound :
    (org repo bookmark : Text)
    → Sound IsLookup AnyAnswer IsPresent (get_bookmark_head org repo bookmark)
unfolding get_bookmark_head
get_bookmark_head-Sound org repo bookmark =
    Sound-bind IsLookup AnyAnswer Any IsPresent (jj_call (bookmark_path org repo bookmark)) _
      (Sound-downstream IsLookup AnyAnswer Any jjlab_name
        (send jjlab get (bookmark_path org repo bookmark) none)
        (Effect.send-Sound IsLookup AnyAnswer jjlab get (bookmark_path org repo bookmark) none
          refl))
      λ (status, v) _.
        Sound-if IsLookup AnyAnswer IsPresent (status == 200) _ _
          (λ _. sha_or-Sound v _ (
            Sound-option IsLookup AnyAnswer IsPresent (as_map (Json.get v (codes "head"))) no_sha
              (λ head. sha_or head no_sha) (λ _. tt) (λ head _. sha_or-Sound head no_sha tt)))
          (λ _. tt)
