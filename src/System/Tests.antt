-- ===== src/System/Tests.antt =====
-- The theorems at work on one small server.
use repo_extension.Base.{◌+◌, ◌≡◌, false, refl, none, some, [], ◌∷◌, ltb, if◌then◌else◌}
use repo_extension.Base.Text.{Text, codes, split, text_eq}
use repo_extension.Base.Lists.{All}
use repo_extension.Names.{parse_session}
use repo_extension.Errs.{ok}
use repo_extension.Json.{Json, Items, nil, cons, Fields, end, field, text, array, object}
use repo_extension.Effects.{
  MapRow, insert_row, ret, cache, look_up, put_entry, select, row_by_session,
}
use repo_extension.Effects.World.{perform, World, done, refused, run, fate_now}
use repo_extension.Store.Tables.{apply_exec}
use repo_extension.Store.Distinct.{Distinct, apply_exec-Distinct}
use repo_extension.Cache.{new_sess_cache, get, put, evict}
use repo_extension.Cache.Expiry.{get-put}
use repo_extension.Discipline.{IsNamed, IsNamedEntry}
use repo_extension.Session.{mapping, postgres, resolve_session}
use repo_extension.Store
use repo_extension.Jjlab
use repo_extension.Jjlab.Tree
use repo_extension.Json
use repo_extension.Session
use repo_extension.Jjlab.{delete_bookmark}
use repo_extension.Lifecycle.{ensure_created, ensure_forked, ensure_renamed, ensure_deleted}
use repo_extension.Lifecycle.Redelivery.{read_once}
use repo_extension.Worksheets.{
  fork_action, after_claim, exec_action, approve, ensure_forked_at, hook_ok, arg, on_call_hook,
}
use repo_extension.Worksheets.Decisions.{approve_once}
use repo_extension.Worksheets.Rejection.{IsNotice, IsTaken, decided_session, on_call_hook-Notices}
use repo_extension.System.{
  resolving, on_tool, System, resolving_turn, start, act, Reach, here, next, AllPlain,
}
use repo_extension.Store.Tables.{repo_row}
use repo_extension.Jjlab.Tree.{RepoTree}
use repo_extension.Reconcile.Rows.{Leaves, fresh, converge_repos-fresh}
use repo_extension.Reconcile.{converge_drift, converge_repos}
use repo_extension.Effects.Sound.{Sound}
use repo_extension.Effects.Run.{AnyAnswer}
use repo_extension.Jjlab.MergeRequests.{
  IsLookup, IsPresent, get_bookmark_head, get_bookmark_head-Sound,
}
use repo_extension.Reconcile.ReadOnly.{Careful, converge_drift-Careful}
use repo_extension.System.Invariant.{Reach-safe, IsResolved}
use repo_extension.System.Fixture.{
  org, repo, bookmark, sid, net, world, bound_row, reorders, bound_world,
}

abbrev new_sid : Text
new_sid = codes "o:r:n"

abbrev new_row : MapRow
new_row = mapping org repo (codes "n") new_sid

bound_row-Distinct : Distinct (bound_row ∷ [])
bound_row-Distinct = (tt, tt)

apply_exec-Distinct_example :
    Distinct (apply_exec (insert_row new_row) (world (bound_row ∷ []) []).tables).1.rows
apply_exec-Distinct_example =
    apply_exec-Distinct (insert_row new_row) (world (bound_row ∷ []) []).tables bound_row-Distinct

get-put_example :
    (get 8 sid (put 3 sid (org, repo, bookmark) (new_sess_cache 5))
      ≡ (if ltb (3 + 5) 8 then none else some (org, repo, bookmark)))
    × (get 8 sid (evict sid (new_sess_cache 5)) ≡ none)
    × (get 8 [] (put 3 sid (org, repo, bookmark) (new_sess_cache 5)) ≡ get 8 [] (new_sess_cache 5))
    × (get 8 [] (evict sid (new_sess_cache 5)) ≡ get 8 [] (new_sess_cache 5))
get-put_example = get-put 3 8 sid [] (org, repo, bookmark) (new_sess_cache 5) (cc)

abbrev fork_args : Fields
fork_args =
    field (codes "args")
      (object (
        field (codes "bookmark") (text (codes "n")) (field (codes "quest") (text (codes "q")) end)))
      end

-- The first approval claims the worksheet and fails on the services, and the worksheet stays claimed.
abbrev claimed_world : World Unit
claimed_world =
    (run net (approve fork_action (codes "ws") sid fork_args) (world [] (done ∷ refused ∷ []))).1

fates_after : fate_now (run net (ensure_deleted sid) claimed_world).1.fates ≡ done
unfolding ensure_created ensure_forked ensure_renamed ensure_deleted ensure_forked_at approve run
    perform Store.get_row_by_session Store.get_row Store.rename_mapping Store.delete_mapping
    Store.executed_worksheet Store.insert_mapping Store.insert_managed_repo Jjlab.ensure_repo
    Jjlab.can_resolve Jjlab.ensure_bookmark Jjlab.delete_bookmark Jjlab.get_repo_tree Json.get
    text_eq Tree.bookmark_exists Tree.put_org Json.str_from Tree.put_repo Tree.to_bookmarks
    Tree.repo_exists Session.bind_row parse_session split after_claim exec_action
fates_after = refl

approve_once_example :
    run net
      (approve fork_action (codes "ws") sid fork_args)
      (run net (ensure_deleted sid) claimed_world).1
    ≡ (ok hook_ok, read_once (run net (ensure_deleted sid) claimed_world).1)
approve_once_example =
    approve_once net fork_action fork_action (codes "ws") sid sid fork_args fork_args
      (ensure_deleted sid) (world [] (done ∷ refused ∷ [])) refl fates_after

abbrev rejection : Fields
rejection = field (codes "worksheet_id") (text (codes "ws")) (
    field (codes "action") (text (codes "fork-bookmark"))
      (field (codes "decision") (text (codes "reject")) end))

rejected : text_eq (arg rejection "decision") (codes "approve") ≡ false
unfolding Json.str_from Json.get text_eq
rejected = refl

on_call_hook-Notices_example :
    Sound
      (IsNotice (decided_session sid rejection))
      AnyAnswer
      IsTaken
      (on_call_hook (codes "worksheet-decided") sid rejection)
on_call_hook-Notices_example =
    on_call_hook-Notices (codes "worksheet-decided") sid rejection rejected

-- A tool call asks the cache and then the table for its session, and has its workspace.
abbrev idle : System Unit
idle = record { tasks = []; world = world (bound_row ∷ []) [] }

abbrev resolved : System Unit
resolved = record {
  tasks = resolving sid (ret (org, repo, bookmark)) ∷ [];
  world = record (world (bound_row ∷ []) []) {
    cache = put 0 sid (org, repo, bookmark) (new_sess_cache 5);
  };
}

tool-Reach : Reach net idle resolved
unfolding resolve_session perform get put Store.get_row_by_session text_eq
tool-Reach =
    next
      (next
        (next (next here (start (resolving sid (resolve_session sid)) (on_tool sid) refl))
          (act [] [] _ _ _ refl (resolving_turn sid (cache (look_up sid)) _) refl))
        (act [] [] _ _ _ refl (resolving_turn sid (select (row_by_session sid)) _) refl))
      (act [] [] _ _ _ refl (resolving_turn sid (cache (put_entry sid (org, repo, bookmark))) _)
        refl)

tool-AllPlain : AllPlain net tool-Reach
unfolding tool-Reach
tool-AllPlain = ((((tt, tt), tt), tt), tt)

Reach-safe_example :
    Distinct resolved.world.tables.rows
    × All IsNamed resolved.world.tables.rows
    × All IsNamedEntry resolved.world.cache.m
    × All IsResolved resolved.tasks
Reach-safe_example =
    Reach-safe net reorders idle resolved refl (bound_world []) tool-Reach tool-AllPlain

converge_drift-Careful_example : Careful (converge_drift (sid ∷ []))
converge_drift-Careful_example = converge_drift-Careful (sid ∷ [])

abbrev managed_repo : MapRow
managed_repo = repo_row org repo

-- The bookmark is there, and the session is gone.
abbrev snapshot : RepoTree
snapshot = (org, (repo, record { name = bookmark; sha = [] } ∷ []) ∷ []) ∷ []

converge_repos-fresh_example :
    Leaves snapshot [] net 0 tt
      (converge_repos snapshot [] (managed_repo ∷ []))
      (world (bound_row ∷ []) []).tables
      (new_sess_cache 5)
      (fresh snapshot [] (managed_repo ∷ []) (bound_row ∷ []))
converge_repos-fresh_example =
    converge_repos-fresh snapshot [] net 0 tt reorders (managed_repo ∷ [])
      (world (bound_row ∷ []) []).tables (new_sess_cache 5) (tt, tt)

get_bookmark_head-Sound_example :
    Sound IsLookup AnyAnswer IsPresent (get_bookmark_head org repo bookmark)
get_bookmark_head-Sound_example = get_bookmark_head-Sound org repo bookmark
