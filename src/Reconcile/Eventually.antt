-- ===== src/Reconcile/Eventually.antt =====
-- The loop of the reconciler over many rounds (reconcile.go: runReconciler).
use mathlib.Core.Path.{subst}
use repo_extension.Base.{
  ◌&&◌, &&-eq_true, Bool-cases, false, ℕ, zero, suc, ◌≡◌, ◌≤◌, ◌<◌, ◌-◌, ◌⊎◌, refl, sym, ◌∙◌, true,
  some, List, [], ◌∷◌, inl, inr, arith,
}
use repo_extension.Base.Text.{Text, text_eq, eq_of_text_eq}
use repo_extension.Base.Lists.{Member, length, any}
use repo_extension.Names.{parse_session}
use repo_extension.Errs.{ok}
use repo_extension.Effects.{MapRow, Select, select, Answer, Prog, ret, call, ◌>>◌}
use repo_extension.Effects.World.{Net, World, Fate, fates_next, run, perform, perform_select}
use repo_extension.Effects.Run.{run-bind_ok, run-handle, run-SameData_ok, IsNetwork, AnyAnswer}
use repo_extension.Effects.Faults.{run-fates, run-faultless}
use repo_extension.Store
use repo_extension.Store.Tables.{in_repo, repo_row}
use repo_extension.Jjlab.Effect.{Any}
use repo_extension.Agent
use repo_extension.Discipline.{IsConsistent, Always}
use repo_extension.Discipline.Rows.{IsReordering}
use repo_extension.Discipline.Perform.{run-Keeps}
use repo_extension.Session.Binding.{Bound, any-Member}
use repo_extension.Reconcile.{
  Wakeup, ticked, converge_drift, backfill_workspaces, reconcile_once, reconcile_round,
  run_reconciler,
}
use repo_extension.Reconcile.Keeping.{reconcile_once-Keeps}
use repo_extension.Reconcile.Tidy.{is_orphaned}
use repo_extension.Reconcile.Managed.{run-managed}
use repo_extension.Reconcile.Repair.{IsServing}
use repo_extension.Reconcile.Round.{Converged, Converges, round_done}

abbrev pub ticks : ℕ → List Wakeup
ticks zero = []
ticks (suc n) = ticked ∷ ticks n

fates_next-length : (fs : List Fate) → length (fates_next fs) ≤ length fs - 1
fates_next-length [] = omega arith
fates_next-length (f ∷ fs) = omega arith

nil_or_fault : (fs : List Fate) → (fs ≡ []) ⊎ (1 ≤ length fs)
nil_or_fault [] = inl refl
nil_or_fault (f ∷ fs) = inr (omega arith)

module _ {R : Type 0} (net : Net R) (sessions : List Text) (serves : IsServing net sessions)
    (reorders : IsReordering net.order) where
  select_fates :
      {A : Type 0} (q : Select) (k : Answer (select q) → Prog A) (w : World R)
      → length (run net (call (select q) k) w).1.fates ≤ length w.fates - 1
  unfolding run perform perform_select
  select_fates q k w = omega (
    arith,
    run-fates net (k (perform net (select q) w).0) (perform net (select q) w).1,
    fates_next-length w.fates,
  )

  -- A round spends a fault.
  round_spends : (w : World R) → length (run net reconcile_once w).1.fates ≤ length w.fates - 1
  unfolding reconcile_once converge_drift Store.list_managed
  round_spends w =
      let (w1, k1) = serves.lists w in
      let same =
        run-SameData_ok net Any Agent.list_sessions w w1 (ok sessions)
          (Agent.Effect.list_sessions-Sound IsNetwork AnyAnswer (λ _. tt)) k1 in
      subst (λ y. length y.1.fates ≤ length w.fates - 1)
        (sym (run-bind_ok net Agent.list_sessions _ w w1 sessions k1))
        (subst
          (λ fs.
            length (run net (converge_drift sessions >> backfill_workspaces sessions) w1).1.fates
            ≤ length fs - 1)
          same.same_fates (select_fates _ _ w1))

  round_run : (w : World R) → run net reconcile_round w ≡ (ok tt, (run net reconcile_once w).1)
  unfolding reconcile_round run
  round_run w =
      run-handle net (λ y. y ≡ (ok tt, (run net reconcile_once w).1)) reconcile_once ret _ w
        (λ a w1 e i. (ok tt, (sym e i).1)) (λ x w1 e i. (ok tt, (sym e i).1))

  -- What is known behind a round: there are still faults to come, or the state has converged.
  abbrev Ready : MapRow → Type 0 → ℕ → World R → Type 0
  Ready m H n w = (length w.fates < n) ⊎ ((w.fates ≡ []) × Converged sessions m H w)

  module _ (m : MapRow) (H : Type 0) where
    settled :
        (n : ℕ) (w : World R)
        → IsConsistent w
        → w.fates ≡ []
        → (H → Member m w.tables.managed)
        → Ready m H n (run net reconcile_once w).1
    settled n w c e is_managed =
        let (w3, k, done) = round_done net sessions serves reorders m H w c e is_managed in
        inr (
          run-faultless net reconcile_once w e,
          subst (λ y. Converged sessions m H y.1) (sym k) done,
        )

    later :
        (n : ℕ) (w : World R)
        → IsConsistent w
        → (H → Member m w.tables.managed)
        → Ready m H (suc n) w
        → (w.fates ≡ []) ⊎ (1 ≤ length w.fates)
        → Ready m H n (run net reconcile_once w).1
    later n w c is_managed p (inl e) = settled n w c e is_managed
    later n w c is_managed (inr (e, _)) (inr q) = settled n w c e is_managed
    later n w c is_managed (inl p) (inr q) = inl (omega (arith, round_spends w))

    repeated :
        (n : ℕ) (w : World R)
        → IsConsistent w
        → (H → Member m w.tables.managed)
        → Ready m H n w
        → Converges net sessions m H (run_reconciler (ticks n)) w
    unfolding run_reconciler run
    repeated zero w c is_managed (inl h) = absurd (omega arith)
    repeated zero w c is_managed (inr (e, done)) = (w, refl, done)
    repeated (suc n) w c is_managed h =
        let w1 : World R = (run net reconcile_once w).1 in
        let c1 = (run-Keeps net reorders Always reconcile_once w reconcile_once-Keeps c).0 in
        let (w2, k, done) =
          repeated n w1 c1 (λ i. run-managed net m w (is_managed i))
            (later n w c is_managed h (nil_or_fault w.fates)) in
        (w2, run-bind_ok net reconcile_round _ w w1 tt (round_run w) ∙ k, done)

  is_orphaned_at :
      (n : MapRow) (org repo : Text) (rows : List MapRow)
      → in_repo org repo n ≡ true
      → any (is_orphaned sessions n) rows ≡ any (is_orphaned sessions (repo_row org repo)) rows
  is_orphaned_at n org repo rows h =
      let (a, b) = &&-eq_true (text_eq n.org org) (text_eq n.repo repo) h in
      let eo = eq_of_text_eq n.org org a in
      let er = eq_of_text_eq n.repo repo b in
      λ i. any (is_orphaned sessions (repo_row (eo i) (er i))) rows

  -- In a consistent world, if ORDER BY only reorders rows, and while the agent lists the same
  -- sessions and jjlab shows its tree and makes the workspaces of these sessions, the loop of the
  -- reconciler, woken more often than there are faulty database calls to come, returns; and then
  -- a listed session whose name spells a workspace has its row, and a repository that was managed
  -- has no row of a session that is not listed: whatever the rows were before, and although rounds in
  -- between may fail.
  pub run_reconciler-converges :
      (n : ℕ) (w : World R)
      → IsConsistent w
      → length w.fates < n
      → (sid o r b org repo : Text) → Member sid sessions
      → parse_session sid ≡ some (o, r, b)
      → (w1 : World R) × (run net (run_reconciler (ticks n)) w ≡ (ok tt, w1))
        × Bound sid (o, r, b) w1
        × ((any (in_repo org repo) w.tables.managed
              && any (is_orphaned sessions (repo_row org repo)) w1.tables.rows)
            ≡ false)
  run_reconciler-converges n w c h sid o r b org repo listed spells =
      elim (Bool-cases (any (in_repo org repo) w.tables.managed)) [
        | inl e ↦
            let (m, is_managed, here) = any-Member (in_repo org repo) w.tables.managed e in
            let (w1, k, (bound, tidy)) = repeated m Unit n w c (λ _. is_managed) (inl h) in
            (
              w1,
              k,
              bound sid o r b listed spells,
              rw e (sym (is_orphaned_at m org repo w1.tables.rows here) ∙ tidy tt),
            )
        | inr e ↦
            let (w1, k, (bound, _)) =
              repeated (repo_row org repo) ⊥ n w c (λ i. absurd i) (inl h) in
            (w1, k, bound sid o r b listed spells, rw e refl)
      ]
