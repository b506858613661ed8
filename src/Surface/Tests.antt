-- ===== src/Surface/Tests.antt =====
-- The theorems on the surface, the bindings of the table and the cache on one small table.
use repo_extension.Base.{◌≡◌, refl, some, [], ◌∷◌, arith}
use repo_extension.Base.Text.{codes, text_eq}
use repo_extension.Errs.{ok}
use repo_extension.Effects.{rename_row, get}
use repo_extension.Effects.World.{run, World}
use repo_extension.Cache
use repo_extension.Cache.{put, new_sess_cache}
use repo_extension.Names.{Triple}
use repo_extension.Discipline.{Rely, IsConsistent}
use repo_extension.Effects.Sound.{Sound}
use repo_extension.Store.Tables.{Tables, apply_exec}
use repo_extension.Store.Refinement.{bindings, promised, apply_exec-promised}
use repo_extension.Jjlab.Tree.{RepoTree}
use repo_extension.Session.{resolve_session}
use repo_extension.Session.Answers.{IsKnown, resolve_session-exact}
use repo_extension.Surface.{ensure_bookmark_session, org_entries, list_repos, router}
use repo_extension.Surface.Queries.{Queries, router-Queries}
use repo_extension.Surface.Listing.{described, org_entries-described}
use repo_extension.Surface.Adoption.{IsAdoptionCall, AnswersOwn, ensure_bookmark_session-Own}
use repo_extension.System.Fixture.{
  org, repo, bookmark, sid, net, world, bound_row, spells, reorders,
}

abbrev tables : Tables
tables = record { rows = bound_row ∷ []; managed = []; executed = [] }

apply_exec-promised_example :
    bindings
      (apply_exec (rename_row org repo bookmark (codes "n") (codes "o:r:n")) tables).1.rows
      sid
      org
      repo
      bookmark
    ≡ promised
        (rename_row org repo bookmark (codes "n") (codes "o:r:n"))
        (apply_exec (rename_row org repo bookmark (codes "n") (codes "o:r:n")) tables).0
        (bindings tables.rows)
        sid
        org
        repo
        bookmark
apply_exec-promised_example =
    apply_exec-promised tables sid org repo bookmark
      (rename_row org repo bookmark (codes "n") (codes "o:r:n"))

-- A session without a row, whose cache entry is left.
abbrev stale_world : World Unit
stale_world = record (world [] []) { cache = put 0 sid (org, repo, bookmark) (new_sess_cache 5) }

stale_hit : Cache.get 0 sid stale_world.cache ≡ some (org, repo, bookmark)
unfolding Cache.get put text_eq
stale_hit = refl

stale_good : IsConsistent stale_world
unfolding put
stale_good = record { named = tt; unique = tt; cached = (spells, tt) }

resolve_session-exact_example :
    (IsKnown sid org repo bookmark stale_world
      → (run net (resolve_session sid) stale_world).0 ≡ ok (org, repo, bookmark))
    × ((v : Triple)
        → (run net (resolve_session sid) stale_world).0 ≡ ok v
        → (v ≡ (org, repo, bookmark)) × IsKnown sid org repo bookmark stale_world)
resolve_session-exact_example =
    resolve_session-exact net reorders sid org repo bookmark stale_world spells stale_good

abbrev tree : RepoTree
tree =
    (
      org,
      (
        repo,
        record { name = bookmark; sha = codes "1" }
            ∷ record { name = codes "n"; sha = codes "2" }
            ∷ [],
      )
          ∷ [],
    )
    ∷ []

org_entries-described_example :
    org_entries (bound_row ∷ []) [] tree ≡ described (bound_row ∷ []) [] tree
org_entries-described_example =
    org_entries-described (bound_row ∷ []) [] (tt, tt) (((omega arith, tt), (omega arith, tt)), tt)
      tt tree (((omega arith, tt), ((omega arith, tt), tt)), tt)

ensure_bookmark_session-Own_example :
    Sound
      (IsAdoptionCall org repo bookmark)
      Rely
      (AnswersOwn org repo bookmark)
      (ensure_bookmark_session org repo bookmark)
ensure_bookmark_session-Own_example = ensure_bookmark_session-Own org repo bookmark

repos_route : router get (codes "repos" ∷ []) [] ≡ some list_repos
unfolding router text_eq
repos_route = refl

router-Queries_example : Queries list_repos
router-Queries_example = router-Queries (codes "repos" ∷ []) [] list_repos repos_route
