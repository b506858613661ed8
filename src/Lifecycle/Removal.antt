-- ===== src/Lifecycle/Removal.antt =====
-- What a deletion leaves (events_sub.go: ensureDeleted).
use mathlib.Core.Path.{subst}
use repo_extension.Base.{
  ℕ, ◌≡◌, refl, sym, ◌∙◌, ap, Bool, true, not, none, some, List, [], ◌∷◌, inl, inr, Bool-cases,
}
use repo_extension.Base.Text.{Text, text_eq_refl, eq_of_text_eq}
use repo_extension.Base.Lists.{All, Member, keep, length}
use repo_extension.Names.{Triple, parse_session}
use repo_extension.Errs.{ok, err, err_downstream, plain}
use repo_extension.Effects.{MapRow, row_by_session, ret, fail, handle, ◌>>◌, downstream, affected}
use repo_extension.Effects.World.{
  Net, World, Fate, done, refused, unacked, fate_now, fates_next, exec_reply as exec_reply_of,
  exec_tables, lost, perform, perform_exec, perform_cache, run,
}
use repo_extension.Effects.Run.{
  run-bind, run-bind_ok, run-bind_err, Ends, Ends-ok, IsNetwork, AnyAnswer, run-SameData_ok,
}
use repo_extension.Store
use repo_extension.Store.{exec_reply, first_row}
use repo_extension.Store.Tables.{Tables, is_at, has_session, apply_exec, query}
use repo_extension.Store.Unique.{is_at_self}
use repo_extension.Jjlab.{delete_bookmark}
use repo_extension.Jjlab.Effect
use repo_extension.Jjlab.Effect.{Any}
use repo_extension.Discipline.{IsNamed, IsConsistent}
use repo_extension.Discipline.Rows.{member_of_All}
use repo_extension.Session.{mapping, postgres, evict}
use repo_extension.Session.Binding.{Bound, same_session, same_bookmark, run-scan_map_row}
use repo_extension.Lifecycle.{delete_workspace, ensure_deleted}
use repo_extension.Lifecycle.Binding.{lookup_then}
use repo_extension.Lifecycle.Redelivery.{read_once, found_run}

abbrev pub left_by_delete : Triple → List MapRow → List MapRow
left_by_delete (o, r, b) rows = keep (λ x. not (is_at o r b x)) rows

keep_step :
    (p : MapRow → Bool) (y x : MapRow) (kept rows : List MapRow)
    → p y ≡ true
    → (Member x kept → Member x rows × (p x ≡ true))
    → Member x (y ∷ kept)
    → Member x (y ∷ rows) × (p x ≡ true)
keep_step p y x kept rows e ih (inl q) = (inl q, subst (λ z. p z ≡ true) q e)
keep_step p y x kept rows e ih (inr k) = let (m, h) = ih k in (inr m, h)

pub Member-of_keep :
    (p : MapRow → Bool) (rows : List MapRow) (x : MapRow)
    → Member x (keep p rows)
    → Member x rows × (p x ≡ true)
Member-of_keep p [] x m = absurd m
Member-of_keep p (y ∷ rows) x m = elim (Bool-cases (p y)) [
  | inl e ↦ keep_step p y x (keep p rows) rows e (Member-of_keep p rows x) (rw e at m)
  | inr e ↦ let (k, q) = Member-of_keep p rows x (rw e at m) in (inr k, q)
]

pub keep_agree :
    (p q : MapRow → Bool) (rows : List MapRow)
    → ((x : MapRow) → Member x rows → p x ≡ q x)
    → keep p rows ≡ keep q rows
keep_agree p q [] h = refl
keep_agree p q (x ∷ rows) h = elim (Bool-cases (q x)) [
  | inl e ↦ rw (h x (inl refl), e) (ap (λ ys. x ∷ ys) (keep_agree p q rows (λ y m. h y (inr m))))
  | inr e ↦ rw (h x (inl refl), e) (keep_agree p q rows (λ y m. h y (inr m)))
]

keep_all_of_none :
    (sid : Text) (rows : List MapRow)
    → first_row (keep (has_session sid) rows) ≡ none
    → keep (λ x. not (has_session sid x)) rows ≡ rows
keep_all_of_none sid [] h = refl
keep_all_of_none sid (x ∷ rows) h = elim (Bool-cases (has_session sid x)) [
  | inl e ↦ cc (rw e at h)
  | inr e ↦ rw e (ap (λ ys. x ∷ ys) (keep_all_of_none sid rows (rw e at h)))
]

module _ {R : Type 0} (net : Net R) (o r b sid : Text)
    (spells : parse_session sid ≡ some (o, r, b)) where
  ends_delete_reply :
      (f : Fate) (n : ℕ) (w : World R) (before after : Tables)
      → w.tables ≡ exec_tables f before after
      → Ends net
          (λ _ w'. w'.tables.rows ≡ after.rows)
          (run net
            (handle
              (exec_reply (exec_reply_of f (affected n)))
              ret
              (λ e. fail (err_downstream postgres e)))
            w)
  unfolding run
  ends_delete_reply done n w before after e = ap (λ (t : Tables). t.rows) e
  ends_delete_reply refused n w before after e = tt
  ends_delete_reply unacked n w before after e = tt

  delete_ends :
      (w : World R)
      → Ends net
          (λ _ w'. w'.tables.rows ≡ left_by_delete (o, r, b) w.tables.rows)
          (run net (downstream postgres (Store.delete_mapping o r b)) w)
  unfolding run perform perform_exec apply_exec Store.delete_mapping
  delete_ends w =
      ends_delete_reply (fate_now w.fates) (length (keep (is_at o r b) w.tables.rows)) _ w.tables
        (record w.tables { rows = left_by_delete (o, r, b) w.tables.rows }) refl

  -- The rows behind a deletion.
  abbrev Removed : World R → World R → Type 0
  Removed w w' = w'.tables.rows ≡ keep (λ x. not (has_session sid x)) w.tables.rows

  same_rows :
      (rows : List MapRow)
      → All IsNamed rows
      → (x : MapRow) → Member x rows
      → not (is_at o r b x) ≡ not (has_session sid x)
  same_rows rows n x m = elim (Bool-cases (is_at o r b x)) [
    | inl e ↦
        let s = same_bookmark o r b sid x spells (member_of_All IsNamed rows x n m) e in
        cc (e, subst (λ y. has_session sid y ≡ true) (sym s) (text_eq_refl sid))
    | inr e ↦ elim (Bool-cases (has_session sid x)) [
      | inl k ↦
          let s =
            same_session o r b sid x spells (member_of_All IsNamed rows x n m)
              (eq_of_text_eq x.session_name sid k) in
          let at : is_at o r b x ≡ true =
            subst (λ y. is_at o r b y ≡ true) (sym s) (is_at_self (mapping o r b sid)) in
          cc (at, e)
      | inr k ↦ cc (e, k)
    ]
  ]

  Removed-rows :
      (w w' : World R)
      → All IsNamed w.tables.rows
      → w'.tables.rows ≡ left_by_delete (o, r, b) w.tables.rows
      → Removed w w'
  Removed-rows w w' n e =
      e
      ∙ keep_agree (λ x. not (is_at o r b x)) (λ x. not (has_session sid x)) w.tables.rows
          (same_rows w.tables.rows n)

  unmapped_ends :
      (w w1 : World R)
      → run net (downstream postgres (Store.get_row_by_session sid)) w ≡ (ok none, w1)
      → Removed w w1
  unfolding Store.get_row_by_session query
  unmapped_ends w w1 e =
      let (h, same) = run-scan_map_row net (row_by_session sid) w w1 none e in
      ap (λ (u : World R). u.tables.rows) same ∙ sym (keep_all_of_none sid w.tables.rows (sym h))

  mapped_ends :
      (w w1 : World R)
      → All IsNamed w.tables.rows
      → w1.tables ≡ w.tables
      → Ends net
          (λ _ w'. Removed w w')
          (run net
            (delete_bookmark o r b >> downstream postgres (Store.delete_mapping o r b) >> evict sid)
            w1)
  mapped_ends w w1 n same =
      run-bind net (λ _ w'. Removed w w') _ _ w1
        λ _ w3 e3.
          let rows3 : w3.tables.rows ≡ left_by_delete (o, r, b) w.tables.rows =
            Ends-ok net (λ _ w'. w'.tables.rows ≡ left_by_delete (o, r, b) w.tables.rows) _ w1 tt w3
              (run-bind net (λ _ w'. w'.tables.rows ≡ left_by_delete (o, r, b) w.tables.rows)
                (delete_bookmark o r b) _ w1
                λ _ w2 e2.
                  let same2 =
                    (run-SameData_ok net Any (delete_bookmark o r b) w1 w2 (ok tt)
                      (Effect.delete_bookmark-Sound IsNetwork AnyAnswer (λ _. tt) (λ _. tt) o r b)
                      e2).same_tables in
                  subst
                    (λ t.
                      Ends net (λ _ w'. w'.tables.rows ≡ left_by_delete (o, r, b) t.rows)
                        (run net (downstream postgres (Store.delete_mapping o r b)) w2))
                    (same2 ∙ same) (delete_ends w2))
              e3 in
          unfold run perform perform_cache in Removed-rows w w3 n rows3

  -- In a consistent world, when the deletion of a session that spells (o, r, b) succeeds, whatever the
  -- faults on the way, the rows are those of before without the rows of that session: no more and no
  -- fewer, in the same order.
  pub ensure_deleted-Removed :
      (w w' : World R)
      → IsConsistent w
      → run net (ensure_deleted sid) w ≡ (ok tt, w')
      → w'.tables.rows ≡ keep (λ x. not (has_session sid x)) w.tables.rows
  unfolding ensure_deleted delete_workspace
  ensure_deleted-Removed w w' c e =
      Ends-ok net (λ _ u. Removed w u) (delete_workspace (o, r, b) sid) w tt w'
        (lookup_then net (λ _ u. Removed w u) sid _ w c.named
          (λ w1 e1 _. unfold run in unmapped_ends w w1 e1)
          (λ x w1 e1. mapped_ends w w1 c.named (
            unfold Store.get_row_by_session in
            ap (λ (u : World R). u.tables)
              (run-scan_map_row net (row_by_session sid) w w1 (some x) e1).1)))
        (rw (spells, ensure_deleted) at e)

  interrupted :
      (w : World R)
      → fate_now w.fates ≡ refused
      → run net (downstream postgres (Store.delete_mapping o r b)) w
        ≡ (err (err_downstream postgres (plain lost)), read_once w)
  unfolding run perform perform_exec apply_exec Store.delete_mapping
  interrupted w e =
      ap
        (λ f.
          run net
            (handle
              (exec_reply (exec_reply_of f (affected (length (keep (is_at o r b) w.tables.rows)))))
              ret (λ x. fail (err_downstream postgres x)))
            (record w {
              tables =
                  exec_tables f w.tables
                    (record w.tables { rows = left_by_delete (o, r, b) w.tables.rows });
              fates = fates_next w.fates;
            }))
        e

  -- When the database answers the read for a bound session whose name spells (o, r, b), the
  -- removal of the bookmark then succeeds and the database refuses the next call, the handler
  -- fails as unavailable and the row of the session is still in the table.
  pub ensure_deleted_interrupted :
      (w w1 : World R)
      → Bound sid (o, r, b) w
      → fate_now w.fates ≡ done
      → fate_now (fates_next w.fates) ≡ refused
      → run net (delete_bookmark o r b) (read_once w) ≡ (ok tt, w1)
      → (run net (ensure_deleted sid) w
          ≡ (err (err_downstream postgres (plain lost)), read_once w1))
        × Bound sid (o, r, b) w1
  unfolding ensure_deleted delete_workspace
  ensure_deleted_interrupted w w1 bound answers refuses e =
      let s =
        run-SameData_ok net Any (delete_bookmark o r b) (read_once w) w1 (ok tt)
          (Effect.delete_bookmark-Sound IsNetwork AnyAnswer (λ _. tt) (λ _. tt) o r b) e in
      (
        rw (spells, ensure_deleted)
            ((found_run net o r b sid w answers bound _).1
              ∙ run-bind_err net
                  (delete_bookmark o r b >> downstream postgres (Store.delete_mapping o r b)) _
                  (read_once w) (read_once w1) _
                  (run-bind_ok net (delete_bookmark o r b) _ (read_once w) w1 tt e
                    ∙ interrupted w1 (rw s.same_fates refuses))),
        subst (λ t. Member (mapping o r b sid) t.rows) (sym s.same_tables) bound,
      )
