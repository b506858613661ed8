-- ===== src/Reconcile/Managed.antt =====
-- The managed repositories in a round of the reconciler (reconcile.go).
use repo_extension.Base.{◌≡◌, inl, inr, Bool-cases, Option-cases}
use repo_extension.Base.Text.{Text, text_eq}
use repo_extension.Base.Lists.{Member, any}
use repo_extension.Effects.{
  MapRow, Eff, exec, Exec, insert_row, rename_row, delete_row, delete_rows_for_repo, insert_managed,
  delete_managed, insert_executed,
}
use repo_extension.Effects.Sound.{Sound, Sound-bind, Sound-then}
use repo_extension.Effects.World.{Net, World, run}
use repo_extension.Effects.Run.{AnyAnswer}
use repo_extension.Effects.Preserves.{Sound-imply, run_keeps}
use repo_extension.Store.Tables.{
  Tables, apply_exec, apply_insert, apply_rename, in_repo, clashes, find, is_at, moved, others,
}
use repo_extension.Jjlab.Effect.{Any}
use repo_extension.Agent
use repo_extension.Lifecycle.Growing.{IsGrowing, Fails, Member-append}
use repo_extension.Reconcile.{backfill_workspaces, converge_drift, reconcile_once}
use repo_extension.Reconcile.ReadOnly.{IsCareful, converge_drift-Careful}
use repo_extension.Reconcile.Tidy.{is_orphaned, backfill_workspaces-Adds}

abbrev NoRemoval : Exec → Type 0
NoRemoval (delete_managed _ _) = ⊥
NoRemoval _ = Unit

abbrev IsKeeping : Eff → Type 0
IsKeeping (exec x) = NoRemoval x
IsKeeping _ = Unit

managed-insert : (row : MapRow) (t : Tables) → (apply_insert row t).1.managed ≡ t.managed
unfolding apply_insert
managed-insert row t = elim (Bool-cases (any (clashes row) t.rows)) [ inl e ↦ rw e | inr e ↦ rw e ]

managed-rename : (o r b c s : Text) (t : Tables) → (apply_rename o r b c s t).1.managed ≡ t.managed
unfolding apply_rename
managed-rename o r b c s t = elim (Option-cases (find (is_at o r b) t.rows)) [
  | inl e ↦ rw (e, apply_rename)
  | inr (x, e) ↦ elim (Bool-cases (any (clashes (moved c s x)) (others o r b t.rows))) [
    | inl k ↦ rw (e, apply_rename, k)
    | inr k ↦ rw (e, apply_rename, k)
  ]
]

apply_exec-managed :
    (m : MapRow) (s : Exec) (t : Tables)
    → NoRemoval s
    → Member m t.managed
    → Member m (apply_exec s t).1.managed
unfolding apply_exec
apply_exec-managed m (insert_row row) t h k = rw (managed-insert row t) k
apply_exec-managed m (rename_row o r b c s) t h k = rw (managed-rename o r b c s t) k
apply_exec-managed m (delete_row _ _ _) t h k = k
apply_exec-managed m (delete_rows_for_repo _ _) t h k = k
apply_exec-managed m (insert_managed o r) t h k = elim (Bool-cases (any (in_repo o r) t.managed)) [
  | inl e ↦ rw e k
  | inr e ↦ rw e (Member-append m t.managed _ k)
]
apply_exec-managed m (delete_managed _ _) t h k = absurd h
apply_exec-managed m (insert_executed id) t h k = elim (Bool-cases (any (text_eq id) t.executed)) [
  | inl e ↦ rw e k
  | inr e ↦ rw e k
]

IsKeeping-of_IsCareful : (e : Eff) → IsCareful e → IsKeeping e
IsKeeping-of_IsCareful (exec (delete_row _ _ _)) h = tt
IsKeeping-of_IsCareful (exec (delete_managed _ _)) h = h
IsKeeping-of_IsCareful (exec _) h = tt
IsKeeping-of_IsCareful _ h = tt

IsKeeping-of_IsGrowing : (Rows : MapRow → Type 0) (e : Eff) → IsGrowing Rows e → IsKeeping e
IsKeeping-of_IsGrowing Rows (exec (delete_managed _ _)) h = h
IsKeeping-of_IsGrowing Rows (exec _) h = tt
IsKeeping-of_IsGrowing Rows _ h = tt

reconcile_once-Keeping : (m : MapRow) → Sound IsKeeping AnyAnswer Any reconcile_once
unfolding reconcile_once
reconcile_once-Keeping m =
    Sound-bind IsKeeping AnyAnswer Any Any Agent.list_sessions _
      (Agent.Effect.list_sessions-Sound IsKeeping AnyAnswer (λ _. tt))
      λ sessions _.
        Sound-then IsKeeping AnyAnswer Any Any (converge_drift sessions) _
          (Sound-imply IsCareful IsKeeping (converge_drift sessions) IsKeeping-of_IsCareful
            (converge_drift-Careful sessions))
          (Sound-imply (IsGrowing (Fails (is_orphaned sessions m))) IsKeeping
            (backfill_workspaces sessions) (IsKeeping-of_IsGrowing (Fails (is_orphaned sessions m)))
            (backfill_workspaces-Adds sessions m))

pub run-managed :
    {R : Type 0} (net : Net R) (m : MapRow) (w : World R)
    → Member m w.tables.managed
    → Member m (run net reconcile_once w).1.tables.managed
run-managed net m w k =
    run_keeps (λ t. Member m t.managed) net IsKeeping (apply_exec-managed m) reconcile_once w
      (reconcile_once-Keeping m) k
