-- ===== src/Reconcile/Tidy.antt =====
-- What a round leaves of the rows of a managed repository (reconcile.go).
use repo_extension.Base.{
  &&-eq_true, ◌≡◌, refl, ap, Bool, true, false, not, ◌&&◌, List, [], ◌∷◌, inl, inr, Bool-cases,
}
use repo_extension.Base.Text.{Text, text_eq, text_eq_refl}
use repo_extension.Base.Lists.{Member, any, keep}
use repo_extension.Names.{parse_session}
use repo_extension.Errs.{is_permanent}
use repo_extension.Effects.{
  MapRow, SelectReply, selected, select_failed, Prog, downstream, all_rows,
}
use repo_extension.Effects.Sound.{
  Sound-bind, Sound-then, Sound-if, Sound-handle, Sound-option, Sound-downstream,
}
use repo_extension.Effects.Run.{AnyAnswer}
use repo_extension.Store
use repo_extension.Store.{list_rows, rows_reply}
use repo_extension.Store.Tables.{in_repo}
use repo_extension.Jjlab.Effect.{Any}
use repo_extension.Jjlab.Tree.{RepoTree, bookmark_exists}
use repo_extension.Session.{mapping, postgres}
use repo_extension.Lifecycle.{ensure_created}
use repo_extension.Lifecycle.Growing.{Growing, IsGrowing, Fails, ensure_created-Growing}
use repo_extension.Reconcile.{
  has_text, is_mapped, backfill_one, backfill_names, backfill_workspaces,
}
use repo_extension.Reconcile.Rows.{fresh, gone}
use repo_extension.Reconcile.Kept.{Member-any}

module _ (sessions : List Text) where
  -- A row of the repository whose session is not listed.
  abbrev pub is_orphaned : MapRow → MapRow → Bool
  is_orphaned m x = in_repo m.org m.repo x && not (has_text x.session_name sessions)

  orphan_gone :
      (tree : RepoTree) (m x : MapRow)
      → is_orphaned m x ≡ true
      → (in_repo m.org m.repo x && gone tree sessions m x) ≡ true
  orphan_gone tree m x h =
      let (i, n) = &&-eq_true (in_repo m.org m.repo x) (not (has_text x.session_name sessions)) h in
      elim (Bool-cases (bookmark_exists tree m.org m.repo x.bookmark)) [
        | inl e ↦ rw (i, e) n
        | inr e ↦ rw (i, e) refl
      ]

  keep_none :
      (p q : MapRow → Bool) (rows : List MapRow)
      → ((x : MapRow) → p x ≡ true → q x ≡ false)
      → any p (keep q rows) ≡ false
  keep_none p q [] h = refl
  keep_none p q (x ∷ rows) h = elim (Bool-cases (p x)) [
    | inl e ↦ rw (h x e) (keep_none p q rows h)
    | inr e ↦ elim (Bool-cases (q x)) [
      | inl k ↦ rw (k, e) (keep_none p q rows h)
      | inr k ↦ rw k (keep_none p q rows h)
    ]
  ]

  -- Behind the convergence of drift no row of a managed repository is of a session that is not listed.
  pub any-fresh :
      (tree : RepoTree) (managed rows : List MapRow) (m : MapRow)
      → Member m managed
      → any (is_orphaned m) (fresh tree sessions managed rows) ≡ false
  any-fresh tree managed rows m k = keep_none (is_orphaned m) _ rows λ x h. ap not (
      Member-any (λ n. in_repo n.org n.repo x && gone tree sessions n x) managed m k
        (orphan_gone tree m x h))

  listed_text : (name : Text) (names : List Text) → Member name names → has_text name names ≡ true
  listed_text name [] k = absurd k
  listed_text name (s ∷ names) (inl e) = rw (e, text_eq_refl name)
  listed_text name (s ∷ names) (inr k) = elim (Bool-cases (text_eq s name)) [
    | inl e ↦ rw e
    | inr e ↦ rw e (listed_text name names k)
  ]

  module _ (m : MapRow) where
    listed-Fails :
        (o r b name : Text)
        → has_text name sessions ≡ true
        → Fails (is_orphaned m) (mapping o r b name)
    listed-Fails o r b name h = elim (Bool-cases (in_repo m.org m.repo (mapping o r b name))) [
      | inl e ↦ rw (e, h)
      | inr e ↦ rw e
    ]

    abbrev Adds : {A : Type 0} → Prog A → Type 0
    Adds p = Growing (Fails (is_orphaned m)) p

    backfill_one-Adds :
        (rows : List MapRow) (name : Text)
        → has_text name sessions ≡ true
        → Adds (backfill_one rows name)
    unfolding backfill_one
    backfill_one-Adds rows name h =
        Sound-if (IsGrowing (Fails (is_orphaned m))) AnyAnswer Any (is_mapped rows name) _ _
          (λ _. tt)
          λ _.
            Sound-option (IsGrowing (Fails (is_orphaned m))) AnyAnswer Any (parse_session name) _ _
              (λ _. tt)
              λ v _.
                Sound-handle (IsGrowing (Fails (is_orphaned m))) AnyAnswer Any Any
                  (ensure_created v.0 v.1 v.2 name) _ _
                  (ensure_created-Growing (Fails (is_orphaned m)) v.0 v.1 v.2 name
                    (listed-Fails v.0 v.1 v.2 name h))
                  (λ _ _. tt)
                  (λ e.
                    Sound-if (IsGrowing (Fails (is_orphaned m))) AnyAnswer Any (is_permanent e) _ _
                      (λ _. tt) (λ _. tt))

    backfill_names-Adds :
        (rows : List MapRow) (names : List Text)
        → ((name : Text) → Member name names → Member name sessions)
        → Adds (backfill_names rows names)
    unfolding backfill_names
    backfill_names-Adds rows [] sub = tt
    backfill_names-Adds rows (name ∷ names) sub =
        Sound-then (IsGrowing (Fails (is_orphaned m))) AnyAnswer Any Any (backfill_one rows name) _
          (backfill_one-Adds rows name (listed_text name sessions (sub name (inl refl))))
          (backfill_names-Adds rows names (λ n k. sub n (inr k)))

    rows_reply-Adds : (r : SelectReply) → Adds (rows_reply r)
    rows_reply-Adds (selected rows) = tt
    rows_reply-Adds (select_failed e) = tt

    -- The backfill inserts rows of listed sessions alone.
    pub backfill_workspaces-Adds : Adds (backfill_workspaces sessions)
    unfolding backfill_workspaces Store.list_all_rows
    backfill_workspaces-Adds =
        Sound-bind (IsGrowing (Fails (is_orphaned m))) AnyAnswer Any Any
          (downstream postgres (list_rows all_rows)) _
          (Sound-downstream (IsGrowing (Fails (is_orphaned m))) AnyAnswer Any postgres
            (list_rows all_rows) (tt, λ r _. rows_reply-Adds r))
          (λ rows _. backfill_names-Adds rows sessions (λ _ k. k))
