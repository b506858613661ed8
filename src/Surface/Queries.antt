-- ===== src/Surface/Queries.antt =====
-- What the GET requests of the surface call (sessions_http.go: router and its handlers).
use repo_extension.Base.{
  ◌≡◌, Bool, true, false, ◌&&◌, Option, none, some, List, [], ◌∷◌, if◌then◌else◌,
}
use mathlib.Core.Path.{subst}
use repo_extension.Base.Text.{Text, codes, text_eq, is_empty}
use repo_extension.Effects.{
  Eff, http, select, exec, cache, ext, jjlab, agent, Method, get, MapRow, Select, SelectReply,
  selected, select_failed, Prog, ◌>>=◌, downstream, row_by_session, all_rows, all_managed,
  rows_for_repo,
}
use repo_extension.Effects.Sound.{Sound, Sound-bind, Sound-handle, Sound-downstream, Sound-if}
use repo_extension.Effects.Run.{AnyAnswer}
use repo_extension.Store
use repo_extension.Store.{list_rows, rows_reply, scan_map_row}
use repo_extension.Jjlab.{get_repo_tree}
use repo_extension.Jjlab.Effect
use repo_extension.Jjlab.Effect.{Any}
use repo_extension.Jjlab.Tree.{repo_exists}
use repo_extension.Session.{postgres}
use repo_extension.Surface.{
  Body, Response, answered_with, mapping_body, list_repos, list_bookmarks, get_session_map,
  get_route, router,
}

abbrev IsGet : Method → Type 0
IsGet get = Unit
IsGet _ = ⊥

-- A GET to jjlab or a SELECT.
abbrev pub IsQuery : Eff → Type 0
IsQuery (http jjlab q) = IsGet q.method
IsQuery (http agent q) = ⊥
IsQuery (select q) = Unit
IsQuery (exec x) = ⊥
IsQuery (cache c) = ⊥
IsQuery (ext c) = ⊥

abbrev pub Queries : {A : Type 0} → Prog A → Type 0
Queries m = Sound IsQuery AnyAnswer Any m

rows_reply-Queries : (r : SelectReply) → Queries (rows_reply r)
rows_reply-Queries (selected rows) = tt
rows_reply-Queries (select_failed m) = tt

then-Queries :
    {A B : Type 0} (m : Prog A) (f : A → Prog B)
    → Queries m
    → ((a : A) → Queries (f a))
    → Queries (m >>= f)
then-Queries m f hm hf = Sound-bind IsQuery AnyAnswer Any Any m f hm (λ a _. hf a)

list-Queries : (q : Select) → Queries (downstream postgres (list_rows q))
list-Queries q =
    Sound-downstream IsQuery AnyAnswer Any postgres (list_rows q) (tt, λ r _. rows_reply-Queries r)

tree-Queries : Queries get_repo_tree
tree-Queries = Effect.get_repo_tree-Sound IsQuery AnyAnswer (λ _. tt)

answered-Queries : (m : Prog Body) → Queries m → Queries (answered_with m)
answered-Queries m h = Sound-handle IsQuery AnyAnswer Any Any m _ _ h (λ b _. tt) (λ e. tt)

list_repos-Queries : Queries list_repos
unfolding list_repos Store.list_all_rows Store.list_managed
list_repos-Queries = answered-Queries _ (
    then-Queries get_repo_tree _ tree-Queries λ tree.
      then-Queries (downstream postgres (list_rows all_rows)) _ (list-Queries all_rows) λ rows.
        then-Queries (downstream postgres (list_rows all_managed)) _ (list-Queries all_managed)
          (λ managed. tt))

list_bookmarks-Queries : (org repo : Text) → Queries (list_bookmarks org repo)
unfolding list_bookmarks Store.list_rows_for_repo
list_bookmarks-Queries org repo = answered-Queries _ (
    then-Queries get_repo_tree _ tree-Queries λ tree.
      Sound-if IsQuery AnyAnswer Any (repo_exists tree org repo) _ _
        (λ _.
          then-Queries (downstream postgres (list_rows (rows_for_repo org repo))) _
            (list-Queries (rows_for_repo org repo)) (λ rows. tt))
        (λ _. tt))

mapping_body-Queries : (sid : Text) (row : Option MapRow) → Queries (mapping_body sid row)
mapping_body-Queries sid none = tt
mapping_body-Queries sid (some row) = tt

get_session_map-Queries : (sid : Text) → Queries (get_session_map sid)
unfolding get_session_map Store.get_row_by_session
get_session_map-Queries sid =
    Sound-if IsQuery AnyAnswer Any (is_empty sid) _ _ (λ _. tt)
      λ _.
        answered-Queries
          (downstream postgres (scan_map_row (row_by_session sid)) >>= mapping_body sid)
          (then-Queries (downstream postgres (scan_map_row (row_by_session sid))) _
            (Sound-downstream IsQuery AnyAnswer Any postgres (scan_map_row (row_by_session sid))
              (tt, λ r _. then-Queries (rows_reply r) _ (rows_reply-Queries r) (λ _. tt)))
            (mapping_body-Queries sid))

abbrev Found : Option (Prog Response) → Type 0
Found none = Unit
Found (some handler) = Queries handler

either-Found :
    (b : Bool) (x y : Option (Prog Response)) → Found x → Found y → Found (if b then x else y)
either-Found true x y hx hy = hx
either-Found false x y hx hy = hy

get_route-Found : (segments : List Text) (session : Text) → Found (get_route segments session)
unfolding get_route
get_route-Found (name ∷ []) session = either-Found (text_eq name (codes "health")) _ _ tt (
    either-Found (text_eq name (codes "session-map")) _ _ (get_session_map-Queries session)
      (either-Found (text_eq name (codes "repos")) (some list_repos) none list_repos-Queries tt))
get_route-Found (name ∷ org ∷ repo ∷ part ∷ []) session =
    either-Found (text_eq name (codes "repos") && text_eq part (codes "bookmarks"))
      (some (list_bookmarks org repo)) none (list_bookmarks-Queries org repo) tt
get_route-Found _ session = tt

-- The handler of a GET request of the surface, whatever its path and its parameter and whatever is
-- answered to it, makes no call but GETs to jjlab and queries of the database.
pub router-Queries :
    (segments : List Text) (session : Text) (handler : Prog Response)
    → router get segments session ≡ some handler
    → Queries handler
unfolding router
router-Queries segments session handler e = subst Found e (get_route-Found segments session)
