-- ===== src/Lifecycle/Growing.antt =====
-- The rows behind a creation (events_sub.go: ensureCreated).
use repo_extension.Base.{
  Bool, false, ◌≡◌, none, some, List, [], ◌∷◌, ◌++◌, inl, inr, Bool-cases, ◌==◌,
}
use repo_extension.Base.Text.{Text, codes}
use repo_extension.Base.Lists.{Member, any}
use repo_extension.Errs.{status_of}
use repo_extension.Effects.{
  MapRow, Eff, exec, Exec, insert_row, insert_managed, SelectReply, selected, select_failed,
  ExecReply, affected, unique_violation, exec_failed, Prog, row_by_session, ◌>>=◌, downstream,
}
use repo_extension.Effects.Sound.{Sound, Sound-bind, Sound-handle, Sound-downstream, Sound-if}
use repo_extension.Effects.World.{Net, World, run}
use repo_extension.Effects.Run.{AnyAnswer}
use repo_extension.Effects.Preserves.{run_keeps}
use repo_extension.Store
use repo_extension.Store.{rows_reply, insert_reply, exec_reply, scan_map_row}
use repo_extension.Store.Tables.{Tables, apply_exec, apply_insert, clashes, in_repo}
use repo_extension.Jjlab.{ensure_repo, can_resolve}
use repo_extension.Jjlab.Effect
use repo_extension.Jjlab.Effect.{Any}
use repo_extension.Session.{postgres, bind_row, mapping}
use repo_extension.Lifecycle.{ensure_bookmark_anchored, create_workspace, ensure_created}

-- Calls that remove and change no row, and insert rows of one kind.
abbrev IsInsertion : (MapRow → Type 0) → Exec → Type 0
IsInsertion Rows (insert_row row) = Rows row
IsInsertion Rows (insert_managed _ _) = Unit
IsInsertion Rows _ = ⊥

abbrev pub IsGrowing : (MapRow → Type 0) → Eff → Type 0
IsGrowing Rows (exec x) = IsInsertion Rows x
IsGrowing Rows _ = Unit

abbrev pub Growing : (MapRow → Type 0) → {A : Type 0} → Prog A → Type 0
Growing Rows m = Sound (IsGrowing Rows) AnyAnswer Any m

abbrev pub AnyRow : MapRow → Type 0
AnyRow _ = Unit

pub Member-append : (x : MapRow) (rows more : List MapRow) → Member x rows → Member x (rows ++ more)
Member-append x [] more m = absurd m
Member-append x (y ∷ rows) more (inl e) = inl e
Member-append x (y ∷ rows) more (inr m) = inr (Member-append x rows more m)

apply_exec-Member :
    (Rows : MapRow → Type 0) (s : Exec) (x : MapRow) (t : Tables)
    → IsInsertion Rows s
    → Member x t.rows
    → Member x (apply_exec s t).1.rows
unfolding apply_exec apply_insert
apply_exec-Member Rows (insert_row row) x t h m = elim (Bool-cases (any (clashes row) t.rows)) [
  | inl e ↦ rw e m
  | inr e ↦ rw e (Member-append x t.rows (row ∷ []) m)
]
apply_exec-Member Rows (insert_managed o r) x t h m =
    elim (Bool-cases (any (in_repo o r) t.managed)) [ inl e ↦ rw e m | inr e ↦ rw e m ]
apply_exec-Member Rows _ x t h m = absurd h

-- A program of such calls keeps every row.
pub run-Member :
    {A R : Type 0} (net : Net R) (m : Prog A) (x : MapRow) (w : World R)
    → Growing AnyRow m
    → Member x w.tables.rows
    → Member x (run net m w).1.tables.rows
run-Member net m x w h k =
    run_keeps (λ t. Member x t.rows) net (IsGrowing AnyRow)
      (λ s t a i. apply_exec-Member AnyRow s x t a i) m w h k

any-append-false :
    (p : MapRow → Bool) (rows : List MapRow) (row : MapRow)
    → any p rows ≡ false
    → p row ≡ false
    → any p (rows ++ row ∷ []) ≡ false
any-append-false p [] row h k = rw k
any-append-false p (y ∷ rows) row h k = elim (Bool-cases (p y)) [
  | inl e ↦ absurd (cc (e, rw e at h))
  | inr e ↦ rw e (any-append-false p rows row (rw e at h) k)
]

module _ (p : MapRow → Bool) where
  abbrev pub Fails : MapRow → Type 0
  Fails row = p row ≡ false

  apply_exec-any :
      (s : Exec) (t : Tables)
      → IsInsertion Fails s
      → any p t.rows ≡ false
      → any p (apply_exec s t).1.rows ≡ false
  unfolding apply_exec apply_insert
  apply_exec-any (insert_row row) t h m = elim (Bool-cases (any (clashes row) t.rows)) [
    | inl e ↦ rw e m
    | inr e ↦ rw e (any-append-false p t.rows row m h)
  ]
  apply_exec-any (insert_managed o r) t h m = elim (Bool-cases (any (in_repo o r) t.managed)) [
    | inl e ↦ rw e m
    | inr e ↦ rw e m
  ]
  apply_exec-any _ t h m = absurd h

  -- Where no inserted row passes a test, none passes it in the end if none did.
  pub run-any :
      {A R : Type 0} (net : Net R) (m : Prog A) (w : World R)
      → Growing Fails m
      → any p w.tables.rows ≡ false
      → any p (run net m w).1.tables.rows ≡ false
  run-any net m w h k =
      run_keeps (λ t. any p t.rows ≡ false) net (IsGrowing Fails) apply_exec-any m w h k

module _ (Rows : MapRow → Type 0) where
  exec_reply-Growing : (r : ExecReply) → Growing Rows (exec_reply r)
  exec_reply-Growing (affected n) = tt
  exec_reply-Growing unique_violation = tt
  exec_reply-Growing (exec_failed m) = tt

  insert_reply-Growing : (r : ExecReply) → Growing Rows (insert_reply r)
  insert_reply-Growing (affected n) = tt
  insert_reply-Growing unique_violation = tt
  insert_reply-Growing (exec_failed m) = tt

  rows_reply-Growing : (r : SelectReply) → Growing Rows (rows_reply r)
  rows_reply-Growing (selected rows) = tt
  rows_reply-Growing (select_failed m) = tt

  then-Growing :
      {A B : Type 0} (m : Prog A) (f : A → Prog B)
      → Growing Rows m
      → ((a : A) → Growing Rows (f a))
      → Growing Rows (m >>= f)
  then-Growing m f hm hf = Sound-bind (IsGrowing Rows) AnyAnswer Any Any m f hm (λ a _. hf a)

  module _ (o r b sid : Text) (h : Rows (mapping o r b sid)) where
    bind_row-Growing : Growing Rows (bind_row o r b sid)
    unfolding bind_row Store.insert_mapping Store.insert_managed_repo
    bind_row-Growing =
        Sound-handle (IsGrowing Rows) AnyAnswer Any Any (Store.insert_mapping (mapping o r b sid)) _
          _ (h, λ a _. insert_reply-Growing a) (λ _ _. (tt, λ a _. exec_reply-Growing a))
          (λ e.
            Sound-if (IsGrowing Rows) AnyAnswer Any (status_of e == 409) _ _ (λ _. tt) (λ _. tt))

    create_workspace-Growing : Growing Rows (create_workspace o r b sid)
    unfolding create_workspace ensure_bookmark_anchored
    create_workspace-Growing =
        then-Growing (ensure_repo o r) _
          (Effect.ensure_repo-Sound (IsGrowing Rows) AnyAnswer (λ _. tt) (λ _. tt) o r)
          λ _.
            then-Growing (ensure_bookmark_anchored o r b) _
              (then-Growing (can_resolve o r (codes "main")) _
                (Effect.can_resolve-Sound (IsGrowing Rows) AnyAnswer (λ _. tt) o r (codes "main"))
                (λ a.
                  Effect.ensure_bookmark-Sound (IsGrowing Rows) AnyAnswer (λ _. tt) (λ _. tt) o r _
                    b))
              (λ _. bind_row-Growing)

    pub ensure_created-Growing : Growing Rows (ensure_created o r b sid)
    unfolding ensure_created Store.get_row_by_session
    ensure_created-Growing =
        then-Growing (downstream postgres (scan_map_row (row_by_session sid))) _
          (Sound-downstream (IsGrowing Rows) AnyAnswer Any postgres
            (scan_map_row (row_by_session sid))
            (tt, λ a _. then-Growing (rows_reply a) _ (rows_reply-Growing a) (λ _. tt)))
          (elim [ some _ ↦ tt | none ↦ create_workspace-Growing ])
