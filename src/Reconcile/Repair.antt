-- ===== src/Reconcile/Repair.antt =====
-- A round of the reconciler in which no call fails (reconcile.go: reconcileOnce).
use mathlib.Core.Path.{subst}
use repo_extension.Base.{
  ◌≡◌, refl, sym, ap, ◌∙◌, Option, none, some, List, [], ◌⊎◌, ℕ, ◌==◌, inl, inr, Bool-cases,
  if◌then◌else◌,
}
use repo_extension.Base.Text.{Text}
use repo_extension.Base.Lists.{Member, any, keep}
use repo_extension.Names.{parse_session}
use repo_extension.Errs.{ok, status_of}
use repo_extension.Effects.{
  MapRow, ExecReply, affected, unique_violation, Prog, ret, fail, handle, insert_managed,
}
use repo_extension.Effects.World.{Net, World, run, perform, perform_exec}
use repo_extension.Effects.Run.{run-SameData_ok, IsNetwork, AnyAnswer}
use repo_extension.Effects.Faults.{Succeeds, Succeeds-bind, of_faultless}
use repo_extension.Store
use repo_extension.Store.{first_row, exec_reply, insert_reply}
use repo_extension.Store.Tables.{
  Tables, apply_exec, apply_insert, clashes, in_repo, query, has_session,
}
use repo_extension.Jjlab.{ensure_repo, get_repo_tree}
use repo_extension.Jjlab.Effect
use repo_extension.Jjlab.Effect.{Any}
use repo_extension.Jjlab.Tree.{RepoTree}
use repo_extension.Agent
use repo_extension.Session.{mapping, bind_row}
use repo_extension.Session.Binding.{Bound}
use repo_extension.Lifecycle.{ensure_bookmark_anchored, create_workspace, ensure_created}
use repo_extension.Lifecycle.Binding.{anchored-IsNetwork}

-- The agent lists these sessions, jjlab shows its tree, and jjlab has the repository and the bookmark
-- of each named session or makes them.
pub record IsServing {R : Type 0} (net : Net R) (sessions : List Text) : Type 0 where
  pub lists : (w : World R) → (w' : World R) × (run net Agent.list_sessions w ≡ (ok sessions, w'))
  pub shows :
      (w : World R) → (tree : RepoTree) × (w' : World R) × (run net get_repo_tree w ≡ (ok tree, w'))
  pub makes :
      (sid o r b : Text)
      → Member sid sessions
      → parse_session sid ≡ some (o, r, b)
      → (w : World R)
      → (w1 : World R) × (w2 : World R) × (run net (ensure_repo o r) w ≡ (ok tt, w1))
        × (run net (ensure_bookmark_anchored o r b) w1 ≡ (ok tt, w2))

-- The sessions among `names` that name a workspace have their row.
abbrev pub AllBound : {R : Type 0} → List Text → World R → Type 0
AllBound names w =
    (sid o r b : Text)
    → Member sid names
    → parse_session sid ≡ some (o, r, b)
    → Bound sid (o, r, b) w

managed_reply :
    (o r : Text) (t : Tables) → (n : ℕ) × ((apply_exec (insert_managed o r) t).0 ≡ affected n)
unfolding apply_exec
managed_reply o r t = elim (Bool-cases (any (in_repo o r) t.managed)) [
  | inl e ↦ rw e (0, refl)
  | inr e ↦ rw e (1, refl)
]

row_reply :
    (row : MapRow) (t : Tables)
    → ((apply_insert row t).0 ≡ affected 1) ⊎ ((apply_insert row t).0 ≡ unique_violation)
unfolding apply_insert
row_reply row t = elim (Bool-cases (any (clashes row) t.rows)) [
  | inl e ↦ rw e (inr refl)
  | inr e ↦ rw e (inl refl)
]

module _ {R : Type 0} (net : Net R) where
  managed_done :
      (o r : Text) (w : World R)
      → Succeeds net (Store.insert_managed_repo o r) (record w { fates = [] })
  unfolding run perform perform_exec Store.insert_managed_repo
  managed_done o r w =
      let (n, e) = managed_reply o r w.tables in
      let t : Tables = (apply_exec (insert_managed o r) w.tables).1 in
      (
        record w { tables = t; fates = [] },
        ap (λ x. run net (exec_reply x) (record w { tables = t; fates = [] })) e,
      )

  -- A conflict with a row is taken for convergence.
  bind_done :
      (o r b sid : Text) (w : World R) → Succeeds net (bind_row o r b sid) (record w { fates = [] })
  unfolding run perform perform_exec apply_exec bind_row Store.insert_mapping
  bind_done o r b sid w =
      let t : Tables = (apply_insert (mapping o r b sid) w.tables).1 in
      let w1 : World R = record w { tables = t; fates = [] } in
      let after : ExecReply → Prog Unit = λ x.
        handle (insert_reply x) (λ _. Store.insert_managed_repo o r)
          (λ e. if status_of e == 409 then ret tt else fail e) in
      elim (row_reply (mapping o r b sid) w.tables) [
        | inl e ↦ subst (λ x. Succeeds net (after x) w1) (sym e) (managed_done o r w1)
        | inr e ↦ subst (λ x. Succeeds net (after x) w1) (sym e) (w1, refl)
      ]

  module _ (sessions : List Text) (serves : IsServing net sessions) where
    create_done :
        (sid o r b : Text)
        → Member sid sessions
        → parse_session sid ≡ some (o, r, b)
        → (w : World R) → w.fates ≡ []
        → Succeeds net (create_workspace o r b sid) w
    unfolding create_workspace
    create_done sid o r b m spells w e =
        let (w1, w2, e1, e2) = serves.makes sid o r b m spells w in
        let f1 =
          run-SameData_ok net Any (ensure_repo o r) w w1 (ok tt)
            (Effect.ensure_repo-Sound IsNetwork AnyAnswer (λ _. tt) (λ _. tt) o r) e1 in
        let f2 =
          run-SameData_ok net Any (ensure_bookmark_anchored o r b) w1 w2 (ok tt)
            (anchored-IsNetwork net o r b) e2 in
        Succeeds-bind net (ensure_repo o r) _ tt w w1 e1 (
          Succeeds-bind net (ensure_bookmark_anchored o r b) _ tt w1 w2 e2 (
            of_faultless net (bind_row o r b sid) w2 (f2.same_fates ∙ f1.same_fates ∙ e)
              (bind_done o r b sid w2)))

    pub created_done :
        (sid o r b : Text)
        → Member sid sessions
        → parse_session sid ≡ some (o, r, b)
        → (w : World R) → w.fates ≡ []
        → Succeeds net (ensure_created o r b sid) w
    unfolding ensure_created run perform query Store.get_row_by_session
    created_done sid o r b m spells w e =
        of_faultless net (ensure_created o r b sid) w e
          (found (first_row (keep (has_session sid) w.tables.rows)))
      where
        found :
            (row : Option MapRow)
            → Succeeds net
                (elim row [ some _ ↦ ret tt | none ↦ create_workspace o r b sid ])
                (record w { fates = [] })
        found (some x) = (record w { fates = [] }, refl)
        found none = create_done sid o r b m spells (record w { fates = [] }) refl
