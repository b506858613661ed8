-- ===== src/Reconcile/Round.antt =====
-- A round in which no database call fails (reconcile.go: reconcileOnce).
use mathlib.Core.Path.{subst}
use repo_extension.Base.{false, ◌≡◌, refl, sym, ◌∙◌, true, some, List, [], ◌∷◌}
use repo_extension.Base.Text.{Text, text_eq, eq_of_text_eq}
use repo_extension.Base.Lists.{Member, any}
use repo_extension.Names.{parse_session}
use repo_extension.Errs.{ok}
use repo_extension.Effects.{MapRow, Prog, ret, ◌>>=◌}
use repo_extension.Effects.World.{Net, World, run, perform, perform_select}
use repo_extension.Effects.Run.{run-bind_ok, run-SameData_ok, IsNetwork, AnyAnswer}
use repo_extension.Effects.Faults.{run-faultless}
use repo_extension.Store
use repo_extension.Store.Tables.{query}
use repo_extension.Jjlab.{get_repo_tree}
use repo_extension.Jjlab.Effect
use repo_extension.Jjlab.Effect.{Any}
use repo_extension.Agent
use repo_extension.Discipline.{IsConsistent, Always}
use repo_extension.Discipline.Rows.{IsReordering, member_of_All}
use repo_extension.Discipline.Perform.{run-Keeps}
use repo_extension.Session.Binding.{Bound, any-Member, same_session}
use repo_extension.Reconcile.{
  is_mapped, converge_drift, converge_repos, backfill_workspaces, reconcile_once,
}
use repo_extension.Reconcile.Keeping.{converge_drift-Keeps}
use repo_extension.Reconcile.Rows.{converge_repos-fresh}
use repo_extension.Reconcile.Tidy.{is_orphaned, any-fresh, backfill_workspaces-Adds}
use repo_extension.Lifecycle.Growing.{run-any}
use repo_extension.Reconcile.Repair.{IsServing, AllBound}
use repo_extension.Reconcile.Backfill.{names_done}

-- The sessions have their rows, and under `H` no row of the repository is of a session that is not
-- listed.
abbrev pub Converged : {R : Type 0} → List Text → MapRow → Type 0 → World R → Type 0
Converged sessions m H w =
    AllBound sessions w × (H → any (is_orphaned sessions m) w.tables.rows ≡ false)

abbrev pub Converges :
    {R : Type 0} → Net R → List Text → MapRow → Type 0 → Prog Unit → World R → Type 0
Converges net sessions m H p w =
    (w1 : World _) × (run net p w ≡ (ok tt, w1)) × Converged sessions m H w1

module _ {R : Type 0} (net : Net R) (sessions : List Text) (serves : IsServing net sessions)
    (reorders : IsReordering net.order) where
  -- The session has a row in the listing.
  is_mapped-Bound :
      (w : World R) (sid o r b : Text)
      → IsConsistent w
      → is_mapped (net.order w.tables.rows) sid ≡ true
      → parse_session sid ≡ some (o, r, b)
      → Bound sid (o, r, b) w
  is_mapped-Bound w sid o r b c h spells =
      let (x, m, k) = any-Member (λ x. text_eq x.session_name sid) (net.order w.tables.rows) h in
      let here = (reorders w.tables.rows x).0 m in
      subst (λ y. Member y w.tables.rows)
        (same_session o r b sid x spells (member_of_All _ w.tables.rows x c.named here)
          (eq_of_text_eq x.session_name sid k))
        here

  Drifted : MapRow → List MapRow → Prog Unit → World R → Type 0
  Drifted m managed p w =
      (w1 : World R) × (run net p w ≡ (ok tt, w1))
      × (Member m managed → any (is_orphaned sessions m) w1.tables.rows ≡ false)

  repos_done :
      (m : MapRow) (managed : List MapRow) (w : World R)
      → IsConsistent w
      → Drifted m managed
          (elim managed [
            | [] ↦ ret tt
            | m ∷ rest ↦ get_repo_tree >>= λ tree. converge_repos tree sessions (m ∷ rest)
          ])
          (record w { fates = [] })
  unfolding run Drifted
  repos_done m [] w c = (record w { fates = [] }, refl, λ k. absurd k)
  repos_done m (n ∷ rest) w c =
      let w0 : World R = record w { fates = [] } in
      let (tree, w1, e) = serves.shows w0 in
      let same =
        run-SameData_ok net Any get_repo_tree w0 w1 (ok tree)
          (Effect.get_repo_tree-Sound IsNetwork AnyAnswer (λ _. tt)) e in
      let unique = subst (λ t. Store.Unique.Unique t.rows) (sym same.same_tables) c.unique in
      let (c2, k) =
        converge_repos-fresh tree sessions net w1.now w1.remote reorders (n ∷ rest) w1.tables
          w1.cache unique in
      let (w2, k2, tidy) =
        subst (Drifted m (n ∷ rest) (converge_repos tree sessions (n ∷ rest)))
          (λ i. record w1 { fates = sym same.same_fates i })
          (_, k, any-fresh sessions tree (n ∷ rest) w1.tables.rows m) in
      (w2, run-bind_ok net get_repo_tree _ w0 w1 tree e ∙ k2, tidy)

  drift_done :
      (m : MapRow) (w : World R)
      → IsConsistent w
      → w.fates ≡ []
      → Drifted m w.tables.managed (converge_drift sessions) w
  unfolding Drifted converge_drift run perform perform_select query Store.list_managed
  drift_done m w c e =
      subst (Drifted m w.tables.managed (converge_drift sessions))
        (λ i. record w { fates = sym e i })
        (let (w1, k, tidy) = repos_done m (net.order w.tables.managed) w c in
          (w1, k, λ h. tidy ((reorders w.tables.managed m).1 h)))

  -- The run succeeds, and then every session has its row.
  Repairs : Prog Unit → World R → Type 0
  Repairs m w = (w1 : World R) × (run net m w ≡ (ok tt, w1)) × AllBound sessions w1

  backfill_done :
      (w : World R) → IsConsistent w → w.fates ≡ [] → Repairs (backfill_workspaces sessions) w
  unfolding Repairs backfill_workspaces run perform perform_select query Store.list_all_rows
  backfill_done w c e =
      subst (Repairs (backfill_workspaces sessions)) (λ i. record w { fates = sym e i })
        (let w0 : World R = record w { fates = [] } in
          let c0 = subst IsConsistent (λ i. record w { fates = e i }) c in
          let (w1, k, _, bound) =
            names_done net sessions serves reorders (net.order w.tables.rows) sessions w0 (λ s m. m)
              c0 refl (λ sid o r b. is_mapped-Bound w0 sid o r b c0) in
          (w1, k, bound))

  pub round_done :
      (m : MapRow) (H : Type 0) (w : World R)
      → IsConsistent w
      → w.fates ≡ []
      → (H → Member m w.tables.managed)
      → Converges net sessions m H reconcile_once w
  unfolding Repairs Drifted reconcile_once
  round_done m H w c e is_managed =
      let (w1, k1) = serves.lists w in
      let same =
        run-SameData_ok net Any Agent.list_sessions w w1 (ok sessions)
          (Agent.Effect.list_sessions-Sound IsNetwork AnyAnswer (λ _. tt)) k1 in
      let c1 =
        subst (λ y. IsConsistent y.1) k1
          (run-Keeps net reorders Always Agent.list_sessions w
            (Agent.Effect.list_sessions-Sound _ _ (λ _. tt)) c).0 in
      let e1 = same.same_fates ∙ e in
      let (w2, k2, tidy) = drift_done m w1 c1 e1 in
      let c2 =
        subst (λ y. IsConsistent y.1) k2
          (run-Keeps net reorders Always (converge_drift sessions) w1
            (converge_drift-Keeps sessions) c1).0 in
      let e2 = subst (λ y. y.1.fates ≡ []) k2 (run-faultless net (converge_drift sessions) w1 e1) in
      let (w3, k3, bound) = backfill_done w2 c2 e2 in
      (
        w3,
        run-bind_ok net Agent.list_sessions _ w w1 sessions k1
            ∙ run-bind_ok net (converge_drift sessions) _ w1 w2 tt k2
            ∙ k3,
        (
          bound,
          λ h.
              subst (λ y. any (is_orphaned sessions m) y.1.tables.rows ≡ false) k3
                (run-any (is_orphaned sessions m) net (backfill_workspaces sessions) w2
                  (backfill_workspaces-Adds sessions m)
                  (tidy (subst (λ t. Member m t.managed) (sym same.same_tables) (is_managed h)))),
        ),
      )
