-- ===== src/Store/Refinement.antt =====
-- The table of mapping rows as a relation between sessions and workspaces (pg.go).
use repo_extension.Base.{
  suc, ◌≡◌, refl, Bool, true, false, not, ◌&&◌, ◌||◌, some, List, [], ◌∷◌, ◌++◌, arith, Bool-cases,
  Option-cases, inl, inr, ap,
}
use repo_extension.Base.Text.{Text, text_eq}
use repo_extension.Base.Lists.{keep, any}
use repo_extension.Effects.{
  MapRow, Exec, ExecReply, affected, insert_row, rename_row, delete_row, delete_rows_for_repo,
  insert_managed, delete_managed, insert_executed,
}
use repo_extension.Store.Tables.{
  Tables, in_repo, is_at, has_session, clashes, moved, others, update_at, find, apply_insert,
  apply_rename, apply_exec,
}
use repo_extension.Store.Unique.{is_at-inv, target, moved-eq-target}

-- Which session is bound to which bookmark of which repository.
abbrev pub Bindings : Type 0
Bindings = (sid org repo bookmark : Text) → Bool

abbrev pub is_row : Text → Text → Text → Text → MapRow → Bool
is_row sid org repo bookmark x = has_session sid x && is_at org repo bookmark x

-- What a table says.
abbrev pub bindings : List MapRow → Bindings
bindings rows sid org repo bookmark = any (is_row sid org repo bookmark) rows

-- What the statements promise, for each reply: a binding more, those of a bookmark or of a repository
-- less, one binding in the place of another.
abbrev pub promised : Exec → ExecReply → Bindings → Bindings
promised (insert_row row) (affected _) v sid o r b = v sid o r b || is_row sid o r b row
promised (delete_row o' r' b') (affected _) v sid o r b =
    v sid o r b && not ((text_eq o o' && text_eq r r') && text_eq b b')
promised (delete_rows_for_repo o' r') (affected _) v sid o r b =
    v sid o r b && not (text_eq o o' && text_eq r r')
promised (rename_row o' r' from_bm to_bm to_session) (affected (suc _)) v sid o r b =
    (v sid o r b && not ((text_eq o o' && text_eq r r') && text_eq b from_bm))
    || is_row sid o r b (target o' r' to_bm to_session)
promised _ _ v sid o r b = v sid o r b

any-append :
    (p : MapRow → Bool) (rows : List MapRow) (x : MapRow)
    → any p (rows ++ x ∷ []) ≡ (any p rows || p x)
any-append p [] x = ground arith
any-append p (y ∷ rows) x = ground (arith, any-append p rows x)

-- What is left of the rows that are told apart by `q`.
any-keep :
    (p q : MapRow → Bool) (c : Bool) (rows : List MapRow)
    → ((x : MapRow) → p x ≡ true → q x ≡ c)
    → any p (keep q rows) ≡ (any p rows && c)
any-keep p q c [] h = ground arith
any-keep p q c (y ∷ rows) h = ground (arith, any-keep p q c rows h, h y)

module _ (sid o r b : Text) where
  is_row-inv :
      (x : MapRow) → is_row sid o r b x ≡ true → (x.org ≡ o) × (x.repo ≡ r) × (x.bookmark ≡ b)
  is_row-inv x h = is_at-inv o r b x (ground arith)

  placed :
      (o' r' b' : Text) (x : MapRow)
      → is_row sid o r b x ≡ true
      → not (is_at o' r' b' x) ≡ not ((text_eq o o' && text_eq r r') && text_eq b b')
  placed o' r' b' x h = let (eo, er, eb) = is_row-inv x h in rw (eo, er, eb) refl

  kept :
      (o' r' : Text) (x : MapRow)
      → is_row sid o r b x ≡ true
      → not (in_repo o' r' x) ≡ not (text_eq o o' && text_eq r r')
  kept o' r' x h = let (eo, er, eb) = is_row-inv x h in rw (eo, er) refl

  module _ (o' r' from_bm to_bm to_session : Text) where
    updated :
        (rows : List MapRow)
        → any (is_row sid o r b) (update_at o' r' from_bm (moved to_bm to_session) rows) ≡ (
            (any (is_row sid o r b) rows
              && not ((text_eq o o' && text_eq r r') && text_eq b from_bm))
            || (any (is_at o' r' from_bm) rows && is_row sid o r b (target o' r' to_bm to_session)))
    updated [] = ground arith
    updated (y ∷ rows) = elim (Bool-cases (is_at o' r' from_bm y)) [
      | inl e ↦
          let m = ap (is_row sid o r b) (moved-eq-target o' r' from_bm to_bm to_session y e) in
          let d : is_row sid o r b y ≡ true
              → not true ≡ not ((text_eq o o' && text_eq r r') && text_eq b from_bm) =
            λ h. rw e at (placed o' r' from_bm y h) in
          rw e (ground (arith, m, d, updated rows))
      | inr e ↦
          let d : is_row sid o r b y ≡ true
              → not false ≡ not ((text_eq o o' && text_eq r r') && text_eq b from_bm) =
            λ h. rw e at (placed o' r' from_bm y h) in
          rw e (ground (arith, d, updated rows))
    ]

found :
    (p : MapRow → Bool) (rows : List MapRow) (x : MapRow) → find p rows ≡ some x → any p rows ≡ true
found p [] x h = cc
found p (y ∷ rows) x h = elim (Bool-cases (p y)) [
  | inl e ↦ rw e refl
  | inr e ↦ rw e (found p rows x (rw e at h))
]

module _ (t : Tables) (sid o r b : Text) where
  apply_insert-promised :
      (row : MapRow)
      → bindings (apply_insert row t).1.rows sid o r b
        ≡ promised (insert_row row) (apply_insert row t).0 (bindings t.rows) sid o r b
  unfolding apply_insert
  apply_insert-promised row = elim (Bool-cases (any (clashes row) t.rows)) [
    | inl e ↦ rw (e, apply_insert) refl
    | inr e ↦ rw (e, apply_insert) (any-append (is_row sid o r b) t.rows row)
  ]

  apply_rename-promised :
      (o' r' from_bm to_bm to_session : Text)
      → bindings (apply_rename o' r' from_bm to_bm to_session t).1.rows sid o r b
        ≡ promised
            (rename_row o' r' from_bm to_bm to_session)
            (apply_rename o' r' from_bm to_bm to_session t).0
            (bindings t.rows)
            sid
            o
            r
            b
  unfolding apply_rename
  apply_rename-promised o' r' from_bm to_bm to_session =
      elim (Option-cases (find (is_at o' r' from_bm) t.rows)) [
        | inl e ↦ rw (e, apply_rename) refl
        | inr (x, e) ↦
            elim (Bool-cases
              (any (clashes (moved to_bm to_session x)) (others o' r' from_bm t.rows))) [
                | inl c ↦ rw (e, apply_rename, c) refl
                | inr c ↦
                    let f = found (is_at o' r' from_bm) t.rows x e in
                    rw (e, apply_rename, c)
                      (rw f at (updated sid o r b o' r' from_bm to_bm to_session t.rows))
              ]
      ]

  -- Whatever the statement, the table and the reply, the table says afterwards which session is bound to
  -- which bookmark as the statement promises for its reply: an accepted insertion adds one binding and no
  -- other, a deletion takes away those of its bookmark or repository, an accepted rename puts one binding
  -- in the place of another, and every other statement and every refusal leaves all bindings.
  pub apply_exec-promised :
      (x : Exec)
      → bindings (apply_exec x t).1.rows sid o r b
        ≡ promised x (apply_exec x t).0 (bindings t.rows) sid o r b
  unfolding apply_exec
  apply_exec-promised (insert_row row) = apply_insert-promised row
  apply_exec-promised (rename_row o' r' from_bm to_bm to_session) =
      apply_rename-promised o' r' from_bm to_bm to_session
  apply_exec-promised (delete_row o' r' b') =
      any-keep (is_row sid o r b) _ _ t.rows (placed sid o r b o' r' b')
  apply_exec-promised (delete_rows_for_repo o' r') =
      any-keep (is_row sid o r b) _ _ t.rows (kept sid o r b o' r')
  apply_exec-promised (insert_managed o' r') = elim (Bool-cases (any (in_repo o' r') t.managed)) [
    | inl e ↦ rw e refl
    | inr e ↦ rw e refl
  ]
  apply_exec-promised (delete_managed o' r') = refl
  apply_exec-promised (insert_executed id) = elim (Bool-cases (any (text_eq id) t.executed)) [
    | inl e ↦ rw e refl
    | inr e ↦ rw e refl
  ]
