-- ===== src/Reconcile/Keeping.antt =====
-- The reconciler under the discipline of the mapping (reconcile.go).
use repo_extension.Base.{List, [], ◌∷◌}
use repo_extension.Base.Text.{Text}
use repo_extension.Base.Lists.{All}
use repo_extension.Names.{parse_session}
use repo_extension.Errs.{Message, is_permanent}
use repo_extension.Effects.{
  MapRow, Prog, ◌>>=◌, downstream, rows_for_repo, all_rows, all_managed, Select,
}
use repo_extension.Effects.Sound.{Sound-option}
use repo_extension.Store
use repo_extension.Store.{list_rows}
use repo_extension.Jjlab.Effect
use repo_extension.Jjlab.Tree.{RepoTree}
use repo_extension.Agent
use repo_extension.Session.{postgres}
use repo_extension.Lifecycle.{ensure_created}
use repo_extension.Lifecycle.Keeping.{then-Keeps, ensure_created-Keeps}
use repo_extension.Discipline.{Allowed, Rely, Keeps, Always, Fits}
use repo_extension.Discipline.Steps.{
  Keeps-bind, Keeps-handle, Keeps-if, list_rows-Keeps, delete_mapping-Keeps, evict-Keeps,
  wrapped-Keeps,
}
use repo_extension.Reconcile.{
  wrap, is_stale, unmap, converge_rows, converge_repos, converge_drift, is_mapped, backfill_one,
  backfill_names, backfill_workspaces, reconcile_once,
}

unmap-Keeps : (row : MapRow) → Keeps Always (unmap row)
unfolding unmap
unmap-Keeps row =
    then-Keeps Always _ _
      (wrapped-Keeps Always postgres (Store.delete_mapping row.org row.repo row.bookmark)
        (delete_mapping-Keeps row.org row.repo row.bookmark))
      (λ _. evict-Keeps row.session_name)

converge_rows-Keeps :
    (tree : RepoTree) (sessions : List Text) (m : MapRow) (rows : List MapRow)
    → Keeps Always (converge_rows tree sessions m rows)
unfolding converge_rows
converge_rows-Keeps tree sessions m [] = tt
converge_rows-Keeps tree sessions m (row ∷ rows) =
    Keeps-if Always (is_stale tree sessions m row) _ _
      (λ _.
        then-Keeps Always (unmap row) _ (unmap-Keeps row)
          (λ _. converge_rows-Keeps tree sessions m rows))
      (λ _. converge_rows-Keeps tree sessions m rows)

listed-Keeps :
    {B : Type 0} (q : Select) (what : Message) (f : List MapRow → Prog B)
    → ((rows : List MapRow) → Keeps Always (f rows))
    → Keeps Always (wrap what (list_rows q) >>= f)
listed-Keeps q what f hf =
    Keeps-bind Always Always (wrap what (list_rows q)) f
      (Keeps-handle (All (Fits q)) Always (list_rows q) _ _ (list_rows-Keeps q) (λ a _. tt)
        (λ e. tt))
      (λ rows _. hf rows)

converge_repos-Keeps :
    (tree : RepoTree) (sessions : List Text) (managed : List MapRow)
    → Keeps Always (converge_repos tree sessions managed)
unfolding converge_repos Store.list_rows_for_repo
converge_repos-Keeps tree sessions [] = tt
converge_repos-Keeps tree sessions (m ∷ managed) =
    listed-Keeps (rows_for_repo m.org m.repo) _ _ λ rows.
      then-Keeps Always (converge_rows tree sessions m rows) _
        (converge_rows-Keeps tree sessions m rows) (λ _. converge_repos-Keeps tree sessions managed)

pub converge_drift-Keeps : (sessions : List Text) → Keeps Always (converge_drift sessions)
unfolding converge_drift Store.list_managed
converge_drift-Keeps sessions = listed-Keeps all_managed _ _ (elim [
  | [] ↦ tt
  | m ∷ rest ↦
      then-Keeps Always _ _ (Effect.get_repo_tree-Sound Allowed Rely (λ _. tt))
        (λ tree. converge_repos-Keeps tree sessions (m ∷ rest))
])

backfill_one-Keeps : (rows : List MapRow) (name : Text) → Keeps Always (backfill_one rows name)
unfolding backfill_one
backfill_one-Keeps rows name =
    Keeps-if Always (is_mapped rows name) _ _ (λ _. tt)
      λ _.
        Sound-option Allowed Rely Always (parse_session name) _ _ (λ _. tt)
          λ v h.
            Keeps-handle Always Always (ensure_created v.0 v.1 v.2 name) _ _
              (ensure_created-Keeps v.0 v.1 v.2 name h) (λ _ _. tt)
              (λ e. Keeps-if Always (is_permanent e) _ _ (λ _. tt) (λ _. tt))

backfill_names-Keeps :
    (rows : List MapRow) (names : List Text) → Keeps Always (backfill_names rows names)
unfolding backfill_names
backfill_names-Keeps rows [] = tt
backfill_names-Keeps rows (name ∷ names) =
    then-Keeps Always (backfill_one rows name) _ (backfill_one-Keeps rows name)
      (λ _. backfill_names-Keeps rows names)

pub backfill_workspaces-Keeps : (sessions : List Text) → Keeps Always (backfill_workspaces sessions)
unfolding backfill_workspaces Store.list_all_rows
backfill_workspaces-Keeps sessions =
    Keeps-bind (All (Fits all_rows)) Always (downstream postgres (list_rows all_rows)) _
      (wrapped-Keeps (All (Fits all_rows)) postgres (list_rows all_rows) (list_rows-Keeps all_rows))
      (λ rows _. backfill_names-Keeps rows sessions)

pub reconcile_once-Keeps : Keeps Always reconcile_once
unfolding reconcile_once
reconcile_once-Keeps =
    then-Keeps Always Agent.list_sessions _
      (Agent.Effect.list_sessions-Sound Allowed Rely (λ _. tt))
      λ sessions.
        then-Keeps Always (converge_drift sessions) _ (converge_drift-Keeps sessions)
          (λ _. backfill_workspaces-Keeps sessions)
