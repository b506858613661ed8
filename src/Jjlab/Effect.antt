-- ===== src/Jjlab/Effect.antt =====
-- What the operations of client_jj.go ask of the server: which requests a policy must allow.
use repo_extension.Base.{
  ℕ, ◌≡◌, Bool, true, false, Option, none, List, [], ◌==◌, leb, if◌then◌else◌, ◌||◌,
}
use repo_extension.Base.Text.{Text, codes}
use repo_extension.Json
use repo_extension.Json.{Items, nil, cons, Fields, as_map, str_from, slice_of}
use repo_extension.Effects.{
  Eff, Answer, http, jjlab, Server, Method, get, post, delete, Piece, Request, HttpReply,
  transport_error, answered, garbled, Prog, ret, fail, ◌>>=◌, downstream,
}
use repo_extension.Effects.Sound.{
  Sound, Sound-handle, Sound-bind, Sound-downstream, Sound-if, Sound-option,
}
use repo_extension.Http.{send, status_and_body, do_json, json_reply, checked, get_json}
use repo_extension.Jjlab.{
  get_bookmarks_detail, scan_repos, scan_orgs, get_repo_tree, ensure_repo, create_bookmark,
  ensure_bookmark, delete_bookmark, can_resolve,
}
use repo_extension.Jjlab.Tree.{Repos, RepoTree, repo_exists, bookmark_exists}

abbrev pub request : Method → List Piece → Option Fields → Request
request method path body = record { method = method; path = path; body = body }

abbrev pub Any : {A : Type 0} → A → Type 0
Any _ = Unit

module _ (Allowed : Eff → Type 0) (Rely : (e : Eff) → Answer e → Type 0) where
  status_and_body-Sound : (r : HttpReply) → Sound Allowed Rely Any (status_and_body r)
  status_and_body-Sound (transport_error m) = tt
  status_and_body-Sound (answered status v) = tt
  status_and_body-Sound (garbled status m) = tt

  pub send-Sound :
      (server : Server) (method : Method) (path : List Piece) (body : Option Fields)
      → Allowed (http server (request method path body))
      → Sound Allowed Rely Any (send server method path body)
  send-Sound server method path body h = (h, λ r _. status_and_body-Sound r)

  checked-Sound :
      (status : ℕ) (m : Prog Fields)
      → Sound Allowed Rely Any m
      → Sound Allowed Rely Any (checked status m)
  checked-Sound status m h =
      Sound-if Allowed Rely Any (status == 404) (fail _) _ (λ _. tt)
        λ _. Sound-if Allowed Rely Any (leb 400 status) (fail _) m (λ _. tt) (λ _. h)

  json_reply-Sound : (r : HttpReply) → Sound Allowed Rely Any (json_reply r)
  json_reply-Sound (transport_error m) = tt
  json_reply-Sound (answered status v) = checked-Sound status (ret v) tt
  json_reply-Sound (garbled status m) = checked-Sound status (fail _) tt

  pub do_json-Sound :
      (method : Method) (path : List Piece) (body : Option Fields)
      → Allowed (http jjlab (request method path body))
      → Sound Allowed Rely Any (do_json method path body)
  do_json-Sound method path body h = (h, λ r _. json_reply-Sound r)

  module _ (reads : (path : List Piece) → Allowed (http jjlab (request get path none))) where
    detail-Sound : (org repo : Text) → Sound Allowed Rely Any (get_bookmarks_detail org repo)
    unfolding get_bookmarks_detail
    detail-Sound org repo =
        Sound-bind Allowed Rely Any Any (get_json _) _ (do_json-Sound get _ none (reads _))
          (λ a _. tt)

    scan_repos-Sound :
        (org : Text) (items : Items) (repos : Repos)
        → Sound Allowed Rely Any (scan_repos org items repos)
    unfolding scan_repos
    scan_repos-Sound org nil repos = tt
    scan_repos-Sound org (cons re rest) repos =
        Sound-option Allowed Rely Any (as_map re) _ _ (λ _. scan_repos-Sound org rest repos)
          λ rm _.
            Sound-handle Allowed Rely Any Any
              (get_bookmarks_detail org (str_from rm (codes "repo"))) _ _
              (detail-Sound org (str_from rm (codes "repo"))) (λ bms _. scan_repos-Sound org rest _)
              (λ _. scan_repos-Sound org rest _)

    scan_orgs-Sound :
        (items : Items) (tree : RepoTree) → Sound Allowed Rely Any (scan_orgs items tree)
    unfolding scan_orgs
    scan_orgs-Sound nil tree = tt
    scan_orgs-Sound (cons oe rest) tree =
        Sound-option Allowed Rely Any (as_map oe) _ _ (λ _. scan_orgs-Sound rest tree)
          λ om _.
            Sound-bind Allowed Rely Any Any
              (scan_repos (str_from om (codes "org")) (slice_of (Json.get om (codes "repos"))) []) _
              (scan_repos-Sound (str_from om (codes "org")) (slice_of (Json.get om (codes "repos")))
                [])
              (λ repos _. scan_orgs-Sound rest _)

    call_then :
        {A : Type 0} (server : Server) (method : Method) (path : List Piece) (body : Option Fields)
        (what : Text) (f : ℕ × Fields → Prog A)
        → Allowed (http server (request method path body))
        → ((a : ℕ × Fields) → Sound Allowed Rely Any (f a))
        → Sound Allowed Rely Any (downstream what (send server method path body) >>= f)
    call_then server method path body what f h hf =
        Sound-bind Allowed Rely Any Any (downstream what (send server method path body)) f
          (Sound-downstream Allowed Rely Any what (send server method path body)
            (send-Sound server method path body h))
          (λ a _. hf a)

    either :
        {A : Type 0} (b : Bool) (m n : Prog A)
        → (b ≡ true → Sound Allowed Rely Any m)
        → (b ≡ false → Sound Allowed Rely Any n)
        → Sound Allowed Rely Any (if b then m else n)
    either b m n hm hn = Sound-if Allowed Rely Any b m n hm hn

    then-Any :
        {A B : Type 0} (m : Prog A) (f : A → Prog B)
        → Sound Allowed Rely Any m
        → ((a : A) → Sound Allowed Rely Any (f a))
        → Sound Allowed Rely Any (m >>= f)
    then-Any m f hm hf = Sound-bind Allowed Rely Any Any m f hm (λ a _. hf a)

    -- The directory walk only reads.
    pub get_repo_tree-Sound : Sound Allowed Rely Any get_repo_tree
    unfolding get_repo_tree
    get_repo_tree-Sound = call_then jjlab get _ none _ _ (reads _) λ (status, v).
        Sound-if Allowed Rely Any (status == 200) _ _
          (λ _. scan_orgs-Sound (slice_of (Json.get v (codes "orgs"))) []) (λ _. tt)

    pub can_resolve-Sound :
        (org repo rev : Text) → Sound Allowed Rely Any (can_resolve org repo rev)
    unfolding can_resolve
    can_resolve-Sound org repo rev = call_then jjlab get _ none _ _ (reads _) λ (status, v).
        either (status == 200) _ _ (λ _. tt) (λ _. either (status == 404) _ _ (λ _. tt) (λ _. tt))

    module _ (writes : (req : Request) → Allowed (http jjlab req)) where
      create_bookmark-Sound :
          (org repo src bm : Text) → Sound Allowed Rely Any (create_bookmark org repo src bm)
      unfolding create_bookmark
      create_bookmark-Sound org repo src bm =
          call_then jjlab post _ _ _ _ (writes _)
            λ (status, v). either (status == 200 || status == 201) _ _ (λ _. tt) (λ _. tt)

      pub ensure_repo-Sound : (org repo : Text) → Sound Allowed Rely Any (ensure_repo org repo)
      unfolding ensure_repo
      ensure_repo-Sound org repo = call_then jjlab post _ _ _ _ (writes _) λ (status, v).
          either (status == 200 || status == 201 || status == 409) _ _ (λ _. tt) (λ _. tt)

      pub ensure_bookmark-Sound :
          (org repo src bm : Text) → Sound Allowed Rely Any (ensure_bookmark org repo src bm)
      unfolding ensure_bookmark
      ensure_bookmark-Sound org repo src bm = then-Any get_repo_tree _ get_repo_tree-Sound λ tree.
          either (bookmark_exists tree org repo bm) _ _ (λ _. tt)
            λ _.
              either (repo_exists tree org repo) _ _ (λ _. create_bookmark-Sound org repo src bm)
                (λ _. tt)

      pub delete_bookmark-Sound :
          (org repo bm : Text) → Sound Allowed Rely Any (delete_bookmark org repo bm)
      unfolding delete_bookmark
      delete_bookmark-Sound org repo bm = then-Any get_repo_tree _ get_repo_tree-Sound λ tree.
          either (bookmark_exists tree org repo bm) _ _
            (λ _.
              call_then jjlab delete _ none _ _ (writes _)
                λ (status, v). either (status == 200 || status == 204) _ _ (λ _. tt) (λ _. tt))
            (λ _. tt)
