-- ===== src/Lifecycle/Binding.antt =====
-- What the creating handlers leave when they succeed (events_sub.go: ensureCreated, ensureForked).
use mathlib.Core.Path.{subst}
use repo_extension.Base.{◌≡◌, sym, Option, none, some}
use repo_extension.Base.Text.{Text, codes}
use repo_extension.Base.Lists.{All}
use repo_extension.Names.{parse_session}
use repo_extension.Errs.{Result, ok}
use repo_extension.Effects.{MapRow, row_by_session, Prog, ◌>>=◌, downstream}
use repo_extension.Effects.Sound.{Sound, Sound-bind}
use repo_extension.Effects.World.{Net, World, run}
use repo_extension.Effects.Run.{run-bind, Ends, Ends-ok, IsNetwork, AnyAnswer, run-SameData_ok}
use repo_extension.Store
use repo_extension.Jjlab.{ensure_repo, ensure_bookmark, can_resolve}
use repo_extension.Jjlab.Effect
use repo_extension.Jjlab.Effect.{Any}
use repo_extension.Discipline.{IsNamed, IsConsistent, Keeps, Always}
use repo_extension.Discipline.Rows.{IsReordering}
use repo_extension.Discipline.Perform.{run-Keeps}
use repo_extension.Session.{postgres}
use repo_extension.Session.Resolve.{get_row_by_session-Keeps}
use repo_extension.Discipline.Steps.{RowFits}
use repo_extension.Session.Binding.{Bound, found_binds, lookup_tables, bind_row_ends}
use repo_extension.Lifecycle.{
  ensure_bookmark_anchored, create_workspace, ensure_created, fork_workspace, ensure_forked,
  parent_bookmark,
}
use repo_extension.Lifecycle.Keeping.{parent_bookmark-Keeps}

module _ {R : Type 0} (net : Net R) where
  -- A network call in front: the rows stay named.
  pub network_then :
      {A B : Type 0} (Q : B → World R → Type 0) (m : Prog A) (f : A → Prog B) (w : World R)
      → Sound IsNetwork AnyAnswer Any m
      → All IsNamed w.tables.rows
      → ((a : A) (w1 : World R) → All IsNamed w1.tables.rows → Ends net Q (run net (f a) w1))
      → Ends net Q (run net (m >>= f) w)
  network_then Q m f w s n h = run-bind net Q m f w λ a w1 e. h a w1 (
      subst (λ t. All IsNamed t.rows) (sym (run-SameData_ok net Any m w w1 (ok a) s e).same_tables)
        n)

  pub anchored-IsNetwork :
      (o r b : Text) → Sound IsNetwork AnyAnswer Any (ensure_bookmark_anchored o r b)
  unfolding ensure_bookmark_anchored
  anchored-IsNetwork o r b =
      Sound-bind IsNetwork AnyAnswer Any Any (can_resolve o r (codes "main")) _
        (Effect.can_resolve-Sound IsNetwork AnyAnswer (λ _. tt) o r (codes "main"))
        (λ x _. Effect.ensure_bookmark-Sound IsNetwork AnyAnswer (λ _. tt) (λ _. tt) o r _ b)

  pub IsConsistent-after :
      {A : Type 0} (reorders : IsReordering net.order) (Q : A → Type 0) (m : Prog A)
      (w w1 : World R) (x : Result A)
      → Keeps Q m
      → run net m w ≡ (x, w1)
      → IsConsistent w
      → IsConsistent w1
  IsConsistent-after reorders Q m w w1 x k e c =
      subst (λ y. IsConsistent y.1) e (run-Keeps net reorders Q m w k c).0

  -- The lookup in front of every handler.
  pub lookup_then :
      {B : Type 0} (Q : B → World R → Type 0) (sid : Text) (f : Option MapRow → Prog B)
      (w : World R)
      → All IsNamed w.tables.rows
      → ((w1 : World R)
          → run net (downstream postgres (Store.get_row_by_session sid)) w ≡ (ok none, w1)
          → All IsNamed w1.tables.rows
          → Ends net Q (run net (f none) w1))
      → ((x : MapRow) (w1 : World R)
          → run net (downstream postgres (Store.get_row_by_session sid)) w ≡ (ok (some x), w1)
          → Ends net Q (run net (f (some x)) w1))
      → Ends net Q (run net (downstream postgres (Store.get_row_by_session sid) >>= f) w)
  unfolding Store.get_row_by_session
  lookup_then Q sid f w n hn hs = run-bind net Q _ f w (elim [
    | none ↦ λ w1 e. hn w1 e (
        subst (λ t. All IsNamed t.rows) (sym (lookup_tables net (row_by_session sid) w w1 none e))
          n)
    | some x ↦ λ w1 e. hs x w1 e
  ])

  module _ (o r b sid : Text) (spells : parse_session sid ≡ some (o, r, b)) where
    abbrev pub IsBound : Unit {0} → World R → Type 0
    IsBound _ w = Bound sid (o, r, b) w

    create_ends :
        (w : World R)
        → All IsNamed w.tables.rows
        → Ends net IsBound (run net (create_workspace o r b sid) w)
    unfolding create_workspace
    create_ends w n =
        network_then IsBound (ensure_repo o r) _ w
          (Effect.ensure_repo-Sound IsNetwork AnyAnswer (λ _. tt) (λ _. tt) o r) n
          λ _ w1 n1.
            network_then IsBound (ensure_bookmark_anchored o r b) _ w1 (anchored-IsNetwork o r b) n1
              λ _ w2 n2. bind_row_ends net o r b sid spells w2 n2

    pub created_ends :
        (w : World R)
        → All IsNamed w.tables.rows
        → Ends net IsBound (run net (ensure_created o r b sid) w)
    unfolding ensure_created run
    created_ends w n =
        lookup_then IsBound sid _ w n (λ w1 _ n1. create_ends w1 n1)
          (λ x w1 e. found_binds net o r b sid w w1 x spells n e)

    -- In a consistent world, when the event handler of a creation succeeds for a session whose name
    -- spells (o, r, b), the table holds the row that binds the session to that bookmark: whatever the
    -- database calls that failed or lost their answer and whatever the services answered, and also when
    -- the success is a conflict that was taken for convergence.
    pub ensure_created-Bound :
        (w w' : World R)
        → IsConsistent w
        → run net (ensure_created o r b sid) w ≡ (ok tt, w')
        → Bound sid (o, r, b) w'
    ensure_created-Bound w w' c e =
        Ends-ok net IsBound (ensure_created o r b sid) w tt w' (created_ends w c.named) e

    module _ (reorders : IsReordering net.order) (parent_sid : Text) where
      fork_ends :
          (w : World R)
          → IsConsistent w
          → Ends net IsBound (run net (fork_workspace o r b sid parent_sid) w)
      unfolding fork_workspace
      fork_ends w c = run-bind net IsBound (parent_bookmark o r parent_sid) _ w λ p w1 e.
          let c1 =
            IsConsistent-after reorders Always (parent_bookmark o r parent_sid) w w1 (ok p)
              (parent_bookmark-Keeps o r parent_sid) e c in
          network_then IsBound (ensure_bookmark o r p b) _ w1
            (Effect.ensure_bookmark-Sound IsNetwork AnyAnswer (λ _. tt) (λ _. tt) o r p b) c1.named
            λ _ w2 n2. bind_row_ends net o r b sid spells w2 n2

      forked_ends :
          (w : World R)
          → IsConsistent w
          → Ends net IsBound (run net (ensure_forked o r b sid parent_sid) w)
      unfolding ensure_forked run
      forked_ends w c =
          lookup_then IsBound sid _ w c.named
            (λ w1 e _. fork_ends w1 (
              IsConsistent-after reorders (RowFits (row_by_session sid)) _ w w1 (ok none)
                (get_row_by_session-Keeps sid) e c))
            (λ x w1 e. found_binds net o r b sid w w1 x spells c.named e)

      -- In a consistent world, and if ORDER BY only reorders rows, when the event handler of a
      -- fork succeeds for a session whose name spells (o, r, b), the table holds the row that
      -- binds the session to that bookmark: whatever the database calls that failed or lost their
      -- answer and whatever the services answered, and also when the success is a conflict that
      -- was taken for convergence or the parent had to be materialized.
      pub ensure_forked-Bound :
          (w w' : World R)
          → IsConsistent w
          → run net (ensure_forked o r b sid parent_sid) w ≡ (ok tt, w')
          → Bound sid (o, r, b) w'
      ensure_forked-Bound w w' c e =
          Ends-ok net IsBound (ensure_forked o r b sid parent_sid) w tt w' (forked_ends w c) e
