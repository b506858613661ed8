-- ===== src/Reconcile/Backfill.antt =====
-- The backfill when no call fails (reconcile.go: backfillWorkspaces).
use mathlib.Core.Path.{subst}
use repo_extension.Base.{
  some_inj, ◌≡◌, refl, sym, ap, ◌∙◌, true, some, List, [], ◌∷◌, inl, inr, Bool-cases, Option-cases,
  if◌then◌else◌,
}
use repo_extension.Base.Text.{Text}
use repo_extension.Base.Lists.{Member}
use repo_extension.Names.{parse_session}
use repo_extension.Errs.{ok, is_permanent}
use repo_extension.Effects.{MapRow, Prog, ret, fail, handle}
use repo_extension.Effects.World.{Net, World, run}
use repo_extension.Effects.Run.{run-bind_ok, run-handle}
use repo_extension.Effects.Faults.{run-faultless}
use repo_extension.Discipline.{IsConsistent, Always}
use repo_extension.Discipline.Rows.{IsReordering}
use repo_extension.Discipline.Perform.{run-Keeps}
use repo_extension.Session.{mapping}
use repo_extension.Session.Binding.{Bound}
use repo_extension.Lifecycle.{ensure_created}
use repo_extension.Lifecycle.Keeping.{ensure_created-Keeps}
use repo_extension.Lifecycle.Binding.{ensure_created-Bound}
use repo_extension.Lifecycle.Growing.{AnyRow, run-Member, ensure_created-Growing}
use repo_extension.Reconcile.{is_mapped, backfill_one, backfill_names}
use repo_extension.Reconcile.Repair.{IsServing, AllBound, created_done}

module _ {R : Type 0} (net : Net R) where
  created_state :
      (sid o r b : Text) (w w1 : World R)
      → IsReordering net.order
      → parse_session sid ≡ some (o, r, b)
      → IsConsistent w
      → w.fates ≡ []
      → run net (ensure_created o r b sid) w ≡ (ok tt, w1)
      → IsConsistent w1
        × (w1.fates ≡ [])
        × Bound sid (o, r, b) w1
        × ((x : MapRow) → Member x w.tables.rows → Member x w1.tables.rows)
  created_state sid o r b w w1 reorders spells c e k = (
    subst (λ y. IsConsistent y.1) k
        (run-Keeps net reorders Always (ensure_created o r b sid) w
          (ensure_created-Keeps o r b sid spells) c).0,
    subst (λ y. y.1.fates ≡ []) k (run-faultless net (ensure_created o r b sid) w e),
    ensure_created-Bound net o r b sid spells w w1 c k,
    λ x m.
        subst (λ y. Member x y.1.tables.rows) k
          (run-Member net (ensure_created o r b sid) x w
            (ensure_created-Growing AnyRow o r b sid tt) m),
  )

  -- A step that loses no row, in a state where no call fails.
  pub record Advances (w w1 : World R) : Type 0 where
    pub consistent : IsConsistent w1
    pub faultless : w1.fates ≡ []
    pub keeps : (x : MapRow) → Member x w.tables.rows → Member x w1.tables.rows

  handled_ok :
      (m : Prog Unit) (w w1 : World R)
      → run net m w ≡ (ok tt, w1)
      → run net (handle m ret (λ e. if is_permanent e then ret tt else fail e)) w ≡ (ok tt, w1)
  unfolding run
  handled_ok m w w1 k =
      run-handle net (λ y. y ≡ (ok tt, w1)) m ret _ w (λ a w2 h. sym h ∙ k) (λ e w2 h. cc)

  module _ (sessions : List Text) (serves : IsServing net sessions)
      (reorders : IsReordering net.order) (rows : List MapRow) where
    Backfills : Text → World R → Type 0
    Backfills sid w =
        (w1 : World R) × (run net (backfill_one rows sid) w ≡ (ok tt, w1))
        × Advances w w1
        × ((o r b : Text) → parse_session sid ≡ some (o, r, b) → Bound sid (o, r, b) w1)

    backfill_one-Backfills :
        (sid : Text) (w : World R)
        → Member sid sessions
        → IsConsistent w
        → w.fates ≡ []
        → ((o r b : Text)
            → is_mapped rows sid ≡ true
            → parse_session sid ≡ some (o, r, b)
            → Bound sid (o, r, b) w)
        → Backfills sid w
    unfolding Backfills backfill_one run
    backfill_one-Backfills sid w m c e known = elim (Bool-cases (is_mapped rows sid)) [
      | inl k ↦ rw k (
        w,
        refl,
        record { consistent = c; faultless = e; keeps = λ x h. h },
        λ o r b. known o r b k,
      )
      | inr k ↦ elim (Option-cases (parse_session sid)) [
        | inl n ↦
            rw (k, n)
              (w, refl, record { consistent = c; faultless = e; keeps = λ x h. h }, λ o r b h. cc)
        | inr ((o, r, b), n) ↦
            let (w1, k1) = created_done net sessions serves sid o r b m n w e in
            let (c1, e1, bound, kept) = created_state sid o r b w w1 reorders n c e k1 in
            rw (k, n)
              (
                w1,
                handled_ok (ensure_created o r b sid) w w1 k1,
                record { consistent = c1; faultless = e1; keeps = kept },
                λ o2 r2 b2 h. subst (λ t. Bound sid t w1) (some_inj (o, r, b) (o2, r2, b2) h) bound,
              )
      ]
    ]

    pub names_done :
        (names : List Text) (w : World R)
        → ((sid : Text) → Member sid names → Member sid sessions)
        → IsConsistent w
        → w.fates ≡ []
        → ((sid o r b : Text)
            → is_mapped rows sid ≡ true
            → parse_session sid ≡ some (o, r, b)
            → Bound sid (o, r, b) w)
        → (w1 : World R) × (run net (backfill_names rows names) w ≡ (ok tt, w1))
          × Advances w w1
          × AllBound names w1
    unfolding Backfills backfill_names run
    names_done [] w sub c e known = (
      w,
      refl,
      record { consistent = c; faultless = e; keeps = λ x h. h },
      λ sid o r b m. absurd m,
    )
    names_done (sid ∷ names) w sub c e known =
        let (w1, k1, a1, bound1) =
          backfill_one-Backfills sid w (sub sid (inl refl)) c e (known sid) in
        let (w2, k2, a2, bound2) =
          names_done names w1 (λ s m. sub s (inr m)) a1.consistent a1.faultless
            (λ s o r b h n. a1.keeps (mapping o r b s) (known s o r b h n)) in
        (
          w2,
          run-bind_ok net (backfill_one rows sid) _ w w1 tt k1 ∙ k2,
          record {
            consistent = a2.consistent;
            faultless = a2.faultless;
            keeps = λ x m. a2.keeps x (a1.keeps x m);
          },
          λ s o r b m n. elim m [
            | inl same ↦
                a2.keeps (mapping o r b s) (
                  subst (λ t. Bound t (o, r, b) w1) same (bound1 o r b (ap parse_session same ∙ n)))
            | inr k ↦ bound2 s o r b k n
          ],
        )
