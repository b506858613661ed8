-- ===== src/System/LifecycleTests.antt =====
-- The theorems of the lifecycle handlers at work.
use repo_extension.Base.{◌≡◌, refl, not, none, some, [], ◌∷◌, inl}
use repo_extension.Base.Text.{Text, codes, split, text_eq}
use repo_extension.Base.Lists.{keep}
use repo_extension.Names.{parse_session}
use repo_extension.Errs.{ok, err, err_downstream, plain}
use repo_extension.Json.{Json, Items, nil, cons, Fields, end, field, text, array, object}
use repo_extension.Effects.World.{perform, done, refused, run, lost}
use repo_extension.Store.Tables.{has_session}
use repo_extension.Session.{mapping, postgres, resolve_session}
use repo_extension.Session.Binding.{Bound}
use repo_extension.Store
use repo_extension.Jjlab
use repo_extension.Jjlab.Tree
use repo_extension.Json
use repo_extension.Session
use repo_extension.Jjlab.{delete_bookmark}
use repo_extension.Lifecycle.{
  projected, LifecycleEvent, handle_lifecycle_event, ensure_created, ensure_forked, ensure_renamed,
  ensure_deleted,
}
use repo_extension.Lifecycle.Binding.{ensure_created-Bound, ensure_forked-Bound}
use repo_extension.Lifecycle.Renaming.{ensure_renamed-Bound}
use repo_extension.Lifecycle.Removal.{ensure_deleted-Removed, ensure_deleted_interrupted}
use repo_extension.Lifecycle.Redelivery.{read_once}
use repo_extension.Lifecycle.Repetition.{
  IsMirrored, Treats, renamed, variables, behind_reads, handle_lifecycle_event-again,
}
use repo_extension.Effects.{MapRow}
use repo_extension.Worksheets.{after_claim, approve, ensure_forked_at}
use repo_extension.Jjlab.Tree.{RepoTree}
use repo_extension.System.Fixture.{
  org, repo, bookmark, sid, net, world, bound_row, spells, reorders, empty_world, bound_world,
}

abbrev parent : Text
parent = codes "o:r:p"

abbrev new_sid : Text
new_sid = codes "o:r:n"

-- The runs of the handlers; the parent of the fork has no row, and is created first.
runs :
    (run net (ensure_created org repo bookmark sid) (world [] [])
      ≡ (ok tt, (run net (ensure_created org repo bookmark sid) (world [] [])).1))
    × (run net (ensure_forked org repo bookmark sid parent) (world [] [])
        ≡ (ok tt, (run net (ensure_forked org repo bookmark sid parent) (world [] [])).1))
    × (run net (ensure_renamed sid new_sid) (world (bound_row ∷ []) [])
        ≡ (ok tt, (run net (ensure_renamed sid new_sid) (world (bound_row ∷ []) [])).1))
    × (run net (ensure_deleted sid) (world (bound_row ∷ []) [])
        ≡ (ok tt, (run net (ensure_deleted sid) (world (bound_row ∷ []) [])).1))
    × (run net
          (delete_bookmark org repo bookmark)
          (read_once (world (bound_row ∷ []) (done ∷ refused ∷ [])))
        ≡ (ok tt, read_once (world (bound_row ∷ []) (done ∷ refused ∷ []))))
unfolding ensure_created ensure_forked ensure_renamed ensure_deleted ensure_forked_at approve run
    perform Store.get_row_by_session Store.get_row Store.rename_mapping Store.delete_mapping
    Store.executed_worksheet Store.insert_mapping Store.insert_managed_repo Jjlab.ensure_repo
    Jjlab.can_resolve Jjlab.ensure_bookmark Jjlab.delete_bookmark Jjlab.get_repo_tree Json.get
    text_eq Tree.bookmark_exists Tree.put_org Json.str_from Tree.put_repo Tree.to_bookmarks
    Tree.repo_exists Session.bind_row parse_session split after_claim
runs = (refl, refl, refl, refl, refl)

ensure_created-Bound_example :
    Bound sid (org, repo, bookmark) (run net (ensure_created org repo bookmark sid) (world [] [])).1
ensure_created-Bound_example =
    ensure_created-Bound net org repo bookmark sid spells (world [] [])
      (run net (ensure_created org repo bookmark sid) (world [] [])).1 (empty_world []) runs.0

ensure_forked-Bound_example :
    Bound sid
      (org, repo, bookmark)
      (run net (ensure_forked org repo bookmark sid parent) (world [] [])).1
ensure_forked-Bound_example =
    ensure_forked-Bound net org repo bookmark sid spells reorders parent (world [] [])
      (run net (ensure_forked org repo bookmark sid parent) (world [] [])).1 (empty_world []) runs.1

new_spells : parse_session new_sid ≡ some (org, repo, codes "n")
unfolding parse_session split
new_spells = refl

ensure_renamed-Bound_example :
    Bound new_sid
      (org, repo, codes "n")
      (run net (ensure_renamed sid new_sid) (world (bound_row ∷ []) [])).1
ensure_renamed-Bound_example =
    ensure_renamed-Bound net sid new_sid org repo (codes "n") new_spells (world (bound_row ∷ []) [])
      (run net (ensure_renamed sid new_sid) (world (bound_row ∷ []) [])).1 (bound_world []) runs.2

ensure_deleted-Removed_example :
    (run net (ensure_deleted sid) (world (bound_row ∷ []) [])).1.tables.rows
    ≡ keep (λ x. not (has_session sid x)) (bound_row ∷ [])
ensure_deleted-Removed_example =
    ensure_deleted-Removed net org repo bookmark sid spells (world (bound_row ∷ []) [])
      (run net (ensure_deleted sid) (world (bound_row ∷ []) [])).1 (bound_world []) runs.3

ensure_deleted_interrupted_example :
    (run net (ensure_deleted sid) (world (bound_row ∷ []) (done ∷ refused ∷ [])) ≡ (
      err (err_downstream postgres (plain lost)),
      read_once (read_once (world (bound_row ∷ []) (done ∷ refused ∷ []))),
    ))
    × Bound sid (org, repo, bookmark) (read_once (world (bound_row ∷ []) (done ∷ refused ∷ [])))
ensure_deleted_interrupted_example =
    ensure_deleted_interrupted net org repo bookmark sid spells
      (world (bound_row ∷ []) (done ∷ refused ∷ []))
      (read_once (world (bound_row ∷ []) (done ∷ refused ∷ []))) (inl refl) refl refl runs.4

-- The rename of the session has been mirrored.
abbrev moved_row : MapRow
moved_row = mapping org repo (codes "n") new_sid

abbrev rename_event : LifecycleEvent
rename_event = record {
  session_name = new_sid;
  parent = none;
  source = some sid;
  destination = some new_sid;
}

moved_mirrored : IsMirrored (world (moved_row ∷ []) []).tables rename_event (codes "renamed")
unfolding text_eq
moved_mirrored = renamed org repo bookmark (codes "n") spells new_spells refl (inl refl)

handle_lifecycle_event-again_example :
    (run net (handle_lifecycle_event (codes "renamed") rename_event) (world (moved_row ∷ []) [])
      ≡ run net
          (variables (codes "renamed") rename_event)
          (behind_reads (codes "renamed") (world (moved_row ∷ []) [])))
    × Treats (projected (codes "renamed") rename_event) (variables (codes "renamed") rename_event)
    × ((run net
          (handle_lifecycle_event (codes "renamed") rename_event)
          (world (moved_row ∷ []) [])).1.tables
        ≡ (world (moved_row ∷ []) []).tables)
handle_lifecycle_event-again_example =
    handle_lifecycle_event-again net (codes "renamed") rename_event (world (moved_row ∷ []) [])
      moved_mirrored refl refl
