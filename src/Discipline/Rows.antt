-- ===== src/Discipline/Rows.antt =====
-- The statements and queries of pg.go under the discipline.
use repo_extension.Base.{
  ◌≡◌, refl, Bool, true, not, some, List, [], ◌∷◌, ◌↔◌, Bool-cases, Option-cases, inl, inr, arith,
}
use repo_extension.Base.Text.{Text, text_eq, eq_of_text_eq}
use repo_extension.Base.Lists.{All, All-append, All-keep, keep, any, Member}
use repo_extension.Names.{parse_session}
use repo_extension.Effects.{
  MapRow, Select, Exec, row_at, row_by_session, rows_for_repo, all_rows, managed_at, all_managed,
  insert_row, rename_row, delete_row, delete_rows_for_repo, insert_managed, delete_managed,
  insert_executed,
}
use repo_extension.Store.Tables.{
  Tables, in_repo, is_at, has_session, clashes, moved, others, find, query, apply_rename,
  apply_exec,
}
use repo_extension.Store.Unique.{is_at-inv, All-update_at}
use repo_extension.Discipline.{IsNamed, AllowedExec, Fits}

-- ORDER BY returns the same rows.
abbrev pub IsReordering : (List MapRow → List MapRow) → Type 0
IsReordering order = (rows : List MapRow) (r : MapRow) → Member r (order rows) ↔ Member r rows

All-of_Member :
    (P : MapRow → Type 0) (rows : List MapRow) → ((r : MapRow) → Member r rows → P r) → All P rows
All-of_Member P [] h = tt
All-of_Member P (x ∷ rows) h = (h x (inl refl), All-of_Member P rows (λ r m. h r (inr m)))

pub member_of_All :
    (P : MapRow → Type 0) (rows : List MapRow) (r : MapRow) → All P rows → Member r rows → P r
member_of_All P [] r h m = absurd m
member_of_All P (x ∷ rows) r h (inl e) = rw (← e) h.0
member_of_All P (x ∷ rows) r h (inr m) = member_of_All P rows r h.1 m

pub All-order :
    (P : MapRow → Type 0) (order : List MapRow → List MapRow) (rows : List MapRow)
    → IsReordering order
    → All P rows
    → All P (order rows)
All-order P order rows o h =
    All-of_Member P (order rows) λ r m. member_of_All P rows r h ((o rows r).0 m)

-- A filter adds what its test says.
All-keep_test :
    (P Q : MapRow → Type 0) (p : MapRow → Bool) (rows : List MapRow)
    → ((r : MapRow) → p r ≡ true → P r → Q r)
    → All P rows
    → All Q (keep p rows)
All-keep_test P Q p [] f h = tt
All-keep_test P Q p (x ∷ rows) f h = elim (Bool-cases (p x)) [
  | inl e ↦ rw e (f x e h.0, All-keep_test P Q p rows f h.1)
  | inr e ↦ rw e (All-keep_test P Q p rows f h.1)
]

in_repo-inv : (o r : Text) (x : MapRow) → in_repo o r x ≡ true → (x.org ≡ o) × (x.repo ≡ r)
in_repo-inv o r x h = (eq_of_text_eq x.org o (ground arith), eq_of_text_eq x.repo r (ground arith))

All-unit : (rows : List MapRow) → All (λ _. Unit {0}) rows
All-unit [] = tt
All-unit (x ∷ rows) = (tt, All-unit rows)

-- What a query of a disciplined table answers.
pub query-Fits :
    (order : List MapRow → List MapRow) (q : Select) (t : Tables)
    → IsReordering order
    → All IsNamed t.rows
    → All (Fits q) (query order q t)
unfolding query
query-Fits order (row_at o r b) t h n =
    All-keep_test IsNamed (Fits (row_at o r b)) (is_at o r b) t.rows
      (λ x e k. let (eo, er, eb) = is_at-inv o r b x e in (k, eo, er, eb)) n
query-Fits order (row_by_session sid) t h n =
    All-keep_test IsNamed (Fits (row_by_session sid)) (has_session sid) t.rows
      (λ x e k. (k, eq_of_text_eq x.session_name sid e)) n
query-Fits order (rows_for_repo o r) t h n =
    All-order (Fits (rows_for_repo o r)) order (keep (in_repo o r) t.rows) h (
      All-keep_test IsNamed (Fits (rows_for_repo o r)) (in_repo o r) t.rows
        (λ x e k. let (eo, er) = in_repo-inv o r x e in (k, eo, er)) n)
query-Fits order all_rows t h n = All-order IsNamed order t.rows h n
query-Fits order (managed_at o r) t h n = All-unit (keep (in_repo o r) t.managed)
query-Fits order all_managed t h n = All-unit (order t.managed)

apply_rename-IsNamed :
    (o r b to_bm to_session : Text) (t : Tables)
    → parse_session to_session ≡ some (o, r, to_bm)
    → All IsNamed t.rows
    → All IsNamed (apply_rename o r b to_bm to_session t).1.rows
unfolding apply_rename
apply_rename-IsNamed o r b to_bm to_session t a n =
    elim (Option-cases (find (is_at o r b) t.rows)) [
      | inl e ↦ rw (e, apply_rename) n
      | inr (x, e) ↦
          elim (Bool-cases (any (clashes (moved to_bm to_session x)) (others o r b t.rows))) [
            | inl c ↦ rw (e, apply_rename, c) n
            | inr c ↦
                rw (e, apply_rename, c) (All-update_at o r b to_bm to_session IsNamed t.rows a n)
          ]
    ]

-- A disciplined statement keeps the rows named.
pub apply_exec-IsNamed :
    (x : Exec) (t : Tables)
    → AllowedExec x
    → All IsNamed t.rows
    → All IsNamed (apply_exec x t).1.rows
unfolding apply_exec
apply_exec-IsNamed (insert_row row) t a n = elim (Bool-cases (any (clashes row) t.rows)) [
  | inl e ↦ rw e n
  | inr e ↦ rw e (All-append IsNamed t.rows (row ∷ []) n (a, tt))
]
apply_exec-IsNamed (rename_row o r b to_bm to_session) t a n =
    apply_rename-IsNamed o r b to_bm to_session t a n
apply_exec-IsNamed (delete_row o r b) t a n = All-keep IsNamed (λ x. not (is_at o r b x)) t.rows n
apply_exec-IsNamed (delete_rows_for_repo o r) t a n =
    All-keep IsNamed (λ x. not (in_repo o r x)) t.rows n
apply_exec-IsNamed (insert_managed o r) t a n = elim (Bool-cases (any (in_repo o r) t.managed)) [
  | inl e ↦ rw e n
  | inr e ↦ rw e n
]
apply_exec-IsNamed (delete_managed o r) t a n = n
apply_exec-IsNamed (insert_executed k) t a n = elim (Bool-cases (any (text_eq k) t.executed)) [
  | inl e ↦ rw e n
  | inr e ↦ rw e n
]
