-- ===== src/Reconcile/Rows.antt =====
-- Which rows the convergence of drift removes (reconcile.go: convergeDrift).
use mathlib.Core.Path.{subst}
use repo_extension.Base.{
  ℕ, ◌≡◌, refl, sym, ◌∙◌, ap, Bool, true, false, not, ◌&&◌, List, [], ◌∷◌, if◌then◌else◌, inl, inr,
  Bool-cases, &&-eq_true,
}
use repo_extension.Base.Text.{Text}
use repo_extension.Base.Lists.{Member, keep, any}
use repo_extension.Errs.{ok}
use repo_extension.Effects.{MapRow, Prog, ◌>>◌}
use repo_extension.Effects.World.{Net, World, run, perform}
use repo_extension.Effects.Run.{run-bind_ok}
use repo_extension.Store
use repo_extension.Store.Tables.{Tables, in_repo, is_at, query, apply_exec}
use repo_extension.Store.Unique.{Unique, Unique-keep, is_at_self}
use repo_extension.Cache
use repo_extension.Cache.{SessCache}
use repo_extension.Discipline.Rows.{IsReordering}
use repo_extension.Jjlab.Tree.{RepoTree, bookmark_exists}
use repo_extension.Session.Binding.{any-Member}
use repo_extension.Lifecycle.Removal.{Member-of_keep, keep_agree}
use repo_extension.Reconcile.{has_text, is_stale, unmap, converge_rows, converge_repos}
use repo_extension.Reconcile.Kept.{keep_fuse, keep-true, Member-keep, Member-any, Unique-place}

module _ (tree : RepoTree) (sessions : List Text) where
  -- A row that a pass over `listed` removes.
  abbrev is_hit : MapRow → List MapRow → MapRow → Bool
  is_hit m listed x =
      any (λ y. is_stale tree sessions m y && is_at y.org y.repo y.bookmark x) listed

  -- The bookmark or the session of the row is gone.
  abbrev pub gone : MapRow → MapRow → Bool
  gone m x = not (bookmark_exists tree m.org m.repo x.bookmark && has_text x.session_name sessions)

  is_stale_lem : (m x : MapRow) → is_stale tree sessions m x ≡ gone m x
  unfolding is_stale
  is_stale_lem m x = elim (Bool-cases (bookmark_exists tree m.org m.repo x.bookmark)) [
    | inl e ↦ rw e
    | inr e ↦ rw e
  ]

  -- The rows of no managed repository, and those whose bookmark and session are there.
  abbrev pub fresh : List MapRow → List MapRow → List MapRow
  fresh managed rows = keep (λ x. not (any (λ m. in_repo m.org m.repo x && gone m x) managed)) rows

  hit_stale :
      (m row : MapRow) (listed : List MapRow)
      → is_stale tree sessions m row ≡ true
      → (x : MapRow)
      → not (is_hit m (row ∷ listed) x)
        ≡ (if not (is_at row.org row.repo row.bookmark x) then not (is_hit m listed x) else false)
  hit_stale m row listed e x = elim (Bool-cases (is_at row.org row.repo row.bookmark x)) [
    | inl k ↦ rw (e, k)
    | inr k ↦ rw (e, k)
  ]

  hit_fresh :
      (m row : MapRow) (listed : List MapRow)
      → is_stale tree sessions m row ≡ false
      → (x : MapRow) → not (is_hit m listed x) ≡ not (is_hit m (row ∷ listed) x)
  hit_fresh m row listed e x = rw e

  module _ {R : Type 0} (net : Net R) (now : ℕ) (remote : R) where
    -- A world in which no database call fails.
    abbrev pub calm : Tables → SessCache → World R
    calm t c = record { tables = t; cache = c; now = now; fates = []; remote = remote }

    -- The run succeeds, leaves these rows, and touches nothing else but the cache.
    abbrev pub Leaves : Prog Unit → Tables → SessCache → List MapRow → Type 0
    Leaves m t c rows =
        (c' : SessCache) × (run net m (calm t c) ≡ (ok tt, calm (record t { rows = rows }) c'))

    unmapped :
        (row : MapRow) (t : Tables) (c : SessCache)
        → run net (unmap row) (calm t c) ≡ (
          ok tt,
          calm
              (record t { rows = keep (λ x. not (is_at row.org row.repo row.bookmark x)) t.rows })
              (Cache.evict row.session_name c),
        )
    unfolding run perform unmap apply_exec Store.delete_mapping Cache.evict
    unmapped row t c = refl

    rows_left :
        (m : MapRow) (listed : List MapRow) (t : Tables) (c : SessCache)
        → Leaves
            (converge_rows tree sessions m listed)
            t
            c
            (keep (λ x. not (is_hit m listed x)) t.rows)
    unfolding converge_rows run
    rows_left m [] t c =
        (c, ap (λ rs. (ok tt, calm (record t { rows = rs }) c)) (sym (keep-true t.rows)))
    rows_left m (row ∷ listed) t c = elim (Bool-cases (is_stale tree sessions m row)) [
      | inl e ↦
          let t1 : Tables = record t {
            rows = keep (λ x. not (is_at row.org row.repo row.bookmark x)) t.rows;
          } in
          let c1 : SessCache = Cache.evict row.session_name c in
          let (c', k) = rows_left m listed t1 c1 in
          (
            c',
            ap
                  (λ b.
                    run net
                      (if b
                        then unmap row >> converge_rows tree sessions m listed
                        else converge_rows tree sessions m listed)
                      (calm t c))
                  e
                ∙ run-bind_ok net (unmap row) _ (calm t c) (calm t1 c1) tt (unmapped row t c)
                ∙ k
                ∙ ap (λ rs. (ok tt, calm (record t { rows = rs }) c'))
                    (keep_fuse (λ x. not (is_hit m listed x))
                      (λ x. not (is_at row.org row.repo row.bookmark x))
                      (λ x. not (is_hit m (row ∷ listed) x)) t.rows (hit_stale m row listed e)),
          )
      | inr e ↦
          let (c', k) = rows_left m listed t c in
          (
            c',
            ap
                  (λ b.
                    run net
                      (if b
                        then unmap row >> converge_rows tree sessions m listed
                        else converge_rows tree sessions m listed)
                      (calm t c))
                  e
                ∙ k
                ∙ ap (λ rs. (ok tt, calm (record t { rows = rs }) c'))
                    (keep_agree (λ x. not (is_hit m listed x))
                      (λ x. not (is_hit m (row ∷ listed) x)) t.rows
                      (λ x _. hit_fresh m row listed e x)),
          )
    ]

    module _ (reorders : IsReordering net.order) where
      -- What the query for the repository of `m` answers.
      abbrev listing : MapRow → Tables → List MapRow
      listing m t = net.order (keep (in_repo m.org m.repo) t.rows)

      hit_iff :
          (m : MapRow) (t : Tables) (x : MapRow)
          → Unique t.rows
          → Member x t.rows
          → is_hit m (listing m t) x ≡ (in_repo m.org m.repo x && is_stale tree sessions m x)
      hit_iff m t x u k = elim (Bool-cases (is_hit m (listing m t) x)) [
        | inl e ↦
            let (y, my, hy) = any-Member _ (listing m t) e in
            let (ky, ry) = Member-of_keep (in_repo m.org m.repo) t.rows y ((reorders _ y).0 my) in
            let (sy, ay) =
              &&-eq_true (is_stale tree sessions m y) (is_at y.org y.repo y.bookmark x) hy in
            let same = Unique-place t.rows x y u k ky ay in
            rw (
              e,
              subst (λ z. in_repo m.org m.repo z ≡ true) same ry,
              subst (λ z. is_stale tree sessions m z ≡ true) same sy,
            )
        | inr e ↦ elim (Bool-cases (in_repo m.org m.repo x)) [
          | inl r ↦ elim (Bool-cases (is_stale tree sessions m x)) [
            | inl q ↦
                let own : (is_stale tree sessions m x && is_at x.org x.repo x.bookmark x) ≡ true =
                  rw (q, is_at_self x) in
                let hit : is_hit m (listing m t) x ≡ true =
                  Member-any (λ y. is_stale tree sessions m y && is_at y.org y.repo y.bookmark x)
                    (listing m t) x
                    ((reorders _ x).1 (Member-keep (in_repo m.org m.repo) t.rows x k r)) own in
                cc (hit, e)
            | inr q ↦ rw (e, r, q)
          ]
          | inr r ↦ rw (e, r)
        ]
      ]

      fresh_step :
          (m : MapRow) (managed : List MapRow) (t : Tables)
          → Unique t.rows
          → fresh managed (keep (λ x. not (is_hit m (listing m t) x)) t.rows)
            ≡ fresh (m ∷ managed) t.rows
      fresh_step m managed t u =
          ap (fresh managed) (
            keep_agree (λ x. not (is_hit m (listing m t) x))
              (λ x. not (in_repo m.org m.repo x && gone m x)) t.rows
              (λ x k.
                ap not
                  (hit_iff m t x u k ∙ ap (λ b. in_repo m.org m.repo x && b) (is_stale_lem m x))))
          ∙ keep_fuse (λ x. not (any (λ k. in_repo k.org k.repo x && gone k x) managed))
              (λ x. not (in_repo m.org m.repo x && gone m x))
              (λ x. not (any (λ k. in_repo k.org k.repo x && gone k x) (m ∷ managed))) t.rows
              (λ x. elim (Bool-cases (in_repo m.org m.repo x && gone m x)) [
                | inl e ↦ rw e
                | inr e ↦ rw e
              ])

      -- In a table without duplicates, while the database answers, and if ORDER BY only reorders
      -- rows, a pass over the managed repositories with a snapshot of the bookmarks and the
      -- sessions succeeds and removes exactly the rows of a managed repository whose bookmark or
      -- session is gone: the other rows stay in their order, and of the rest of the state the
      -- cache alone may change.
      pub converge_repos-fresh :
          (managed : List MapRow) (t : Tables) (c : SessCache)
          → Unique t.rows
          → Leaves (converge_repos tree sessions managed) t c (fresh managed t.rows)
      unfolding converge_repos run perform query Store.list_rows_for_repo
      converge_repos-fresh [] t c u =
          (c, ap (λ rs. (ok tt, calm (record t { rows = rs }) c)) (sym (keep-true t.rows)))
      converge_repos-fresh (m ∷ managed) t c u =
          let (c1, k1) = rows_left m (listing m t) t c in
          let t1 : Tables = record t { rows = keep (λ x. not (is_hit m (listing m t) x)) t.rows } in
          let (c2, k2) =
            converge_repos-fresh managed t1 c1
              (Unique-keep (λ x. not (is_hit m (listing m t) x)) t.rows u) in
          (
            c2,
            run-bind_ok net (converge_rows tree sessions m (listing m t)) _ (calm t c) (calm t1 c1)
                  tt k1
                ∙ k2
                ∙ ap (λ rs. (ok tt, calm (record t { rows = rs }) c2)) (fresh_step m managed t u),
          )
