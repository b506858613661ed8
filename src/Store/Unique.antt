-- ===== src/Store/Unique.antt =====
-- The constraints of session_repos and the statements on it (pg.go: migrate, InsertRow, RenameRow,
-- DeleteRow).
use repo_extension.Base.{
  ◌≡◌, refl, Bool, true, false, not, some, List, [], ◌∷◌, ◌++◌, arith, Bool-cases, Option-cases,
  some_inj, inl, inr, ap,
}
use mathlib.Core.Path.{subst}
use repo_extension.Base.Text.{Text, text_eq, text_eq_iff, text_eq_refl, eq_of_text_eq}
use repo_extension.Base.Lists.{keep, any, All, All-append, All-keep}
use repo_extension.Effects.{
  MapRow, Exec, insert_row, rename_row, delete_row, delete_rows_for_repo, insert_managed,
  delete_managed, insert_executed,
}
use repo_extension.Store.Tables.{
  Tables, in_repo, is_at, clashes, moved, others, update_at, find, apply_rename, apply_exec,
}

abbrev pub Apart : MapRow → MapRow → Type 0
Apart new old = clashes new old ≡ false

abbrev pub Unique : List MapRow → Type 0
Unique [] = Unit
Unique (r ∷ rows) = All (Apart r) rows × Unique rows

text_eq_comm : (s t : Text) → text_eq s t ≡ text_eq t s
text_eq_comm s t = ground (arith, text_eq_iff s t, text_eq_iff t s)

pub Apart-symm : (a b : MapRow) → Apart a b → Apart b a
Apart-symm a b h =
    rw
      (
        text_eq_comm a.org b.org,
        text_eq_comm a.repo b.repo,
        text_eq_comm a.bookmark b.bookmark,
        text_eq_comm a.session_name b.session_name,
      )
      h

All-Apart_of_any :
    (r : MapRow) (rows : List MapRow) → any (clashes r) rows ≡ false → All (Apart r) rows
All-Apart_of_any r [] h = tt
All-Apart_of_any r (x ∷ rows) h = elim (Bool-cases (clashes r x)) [
  | inl e ↦ cc (rw e at h)
  | inr e ↦ (e, All-Apart_of_any r rows (rw e at h))
]

Unique-append :
    (rows : List MapRow) (r : MapRow) → Unique rows → All (Apart r) rows → Unique (rows ++ r ∷ [])
Unique-append [] r u a = (tt, tt)
Unique-append (x ∷ rows) r u a =
    (All-append (Apart x) rows (r ∷ []) u.0 (Apart-symm r x a.0, tt), Unique-append rows r u.1 a.1)

pub Unique-keep : (p : MapRow → Bool) (rows : List MapRow) → Unique rows → Unique (keep p rows)
Unique-keep p [] u = tt
Unique-keep p (x ∷ rows) u = elim (Bool-cases (p x)) [
  | inl e ↦ rw e (All-keep (Apart x) p rows u.0, Unique-keep p rows u.1)
  | inr e ↦ rw e (Unique-keep p rows u.1)
]

pub is_at-inv :
    (o r b : Text) (x : MapRow)
    → is_at o r b x ≡ true
    → (x.org ≡ o) × (x.repo ≡ r) × (x.bookmark ≡ b)
is_at-inv o r b x h = (
  eq_of_text_eq x.org o (ground arith),
  eq_of_text_eq x.repo r (ground arith),
  eq_of_text_eq x.bookmark b (ground arith),
)

pub is_at_self : (x : MapRow) → is_at x.org x.repo x.bookmark x ≡ true
is_at_self x = rw (text_eq_refl x.org, text_eq_refl x.repo, text_eq_refl x.bookmark)

pub Apart-is_at :
    (o r b : Text) (x y : MapRow) → is_at o r b x ≡ true → Apart x y → is_at o r b y ≡ false
Apart-is_at o r b x y h a =
    let (eo, er, eb) = is_at-inv o r b x h in rw (← eo, ← er, ← eb) (ground arith)

-- The row that an UPDATE writes.
abbrev pub target : Text → Text → Text → Text → MapRow
target o r to_bm to_session = record {
  org = o;
  repo = r;
  bookmark = to_bm;
  session_name = to_session;
}

module _ (o r b to_bm to_session : Text) where
  pub moved-eq-target :
      (x : MapRow) → is_at o r b x ≡ true → moved to_bm to_session x ≡ target o r to_bm to_session
  moved-eq-target x h =
      let (eo, er, eb) = is_at-inv o r b x h in
      λ i. record { org = eo i; repo = er i; bookmark = to_bm; session_name = to_session }

  pub update_at_none :
      (f : MapRow → MapRow) (x : MapRow) (rows : List MapRow)
      → is_at o r b x ≡ true
      → All (Apart x) rows
      → (update_at o r b f rows ≡ rows) × (others o r b rows ≡ rows)
  update_at_none f x [] h a = (refl, refl)
  update_at_none f x (y ∷ rows) h a =
      let e = Apart-is_at o r b x y h a.0 in
      let (p, q) = update_at_none f x rows h a.1 in
      (rw e (ap (λ l. y ∷ l) p), rw e (ap (λ l. y ∷ l) q))

  pub All-update_at :
      (P : MapRow → Type 0) (rows : List MapRow)
      → P (target o r to_bm to_session)
      → All P rows
      → All P (update_at o r b (moved to_bm to_session) rows)
  All-update_at P [] pt h = tt
  All-update_at P (y ∷ rows) pt h = elim (Bool-cases (is_at o r b y)) [
    | inl e ↦ rw (e, moved-eq-target y e) (pt, All-update_at P rows pt h.1)
    | inr e ↦ rw e (h.0, All-update_at P rows pt h.1)
  ]

  Unique-update_at :
      (rows : List MapRow)
      → Unique rows
      → any (clashes (target o r to_bm to_session)) (others o r b rows) ≡ false
      → Unique (update_at o r b (moved to_bm to_session) rows)
  Unique-update_at [] u h = tt
  Unique-update_at (y ∷ rows) u h = elim (Bool-cases (is_at o r b y)) [
    | inl e ↦
        let (p, q) = update_at_none (moved to_bm to_session) y rows e u.0 in
        rw (e, moved-eq-target y e, p)
          (All-Apart_of_any (target o r to_bm to_session) rows (rw (e, q) at h), u.1)
    | inr e ↦ elim (Bool-cases (clashes (target o r to_bm to_session) y)) [
      | inl c ↦ cc (rw (e, c) at h)
      | inr c ↦ rw e (
        All-update_at (Apart y) rows (Apart-symm (target o r to_bm to_session) y c) u.0,
        Unique-update_at rows u.1 (rw (e, c) at h),
      )
    ]
  ]

  pub find_sound :
      (rows : List MapRow) (x : MapRow) → find (is_at o r b) rows ≡ some x → is_at o r b x ≡ true
  find_sound [] x h = cc
  find_sound (y ∷ rows) x h = elim (Bool-cases (is_at o r b y)) [
    | inl e ↦ subst (λ z. is_at o r b z ≡ true) (some_inj y x (rw e at h)) e
    | inr e ↦ find_sound rows x (rw e at h)
  ]

apply_rename-Unique :
    (o r b to_bm to_session : Text) (t : Tables)
    → Unique t.rows
    → Unique (apply_rename o r b to_bm to_session t).1.rows
unfolding apply_rename
apply_rename-Unique o r b to_bm to_session t u = elim (Option-cases (find (is_at o r b) t.rows)) [
  | inl e ↦ rw (e, apply_rename) u
  | inr (x, e) ↦
      let m =
        moved-eq-target o r b to_bm to_session x (find_sound o r b to_bm to_session t.rows x e) in
      elim (Bool-cases (any (clashes (target o r to_bm to_session)) (others o r b t.rows))) [
        | inl c ↦ rw (e, apply_rename, m, c) u
        | inr c ↦ rw (e, apply_rename, m, c) (Unique-update_at o r b to_bm to_session t.rows u c)
      ]
]

-- Every statement keeps the constraints.
pub apply_exec-Unique : (x : Exec) (t : Tables) → Unique t.rows → Unique (apply_exec x t).1.rows
unfolding apply_exec
apply_exec-Unique (insert_row row) t u = elim (Bool-cases (any (clashes row) t.rows)) [
  | inl e ↦ rw e u
  | inr e ↦ rw e (Unique-append t.rows row u (All-Apart_of_any row t.rows e))
]
apply_exec-Unique (rename_row o r b to_bm to_session) t u =
    apply_rename-Unique o r b to_bm to_session t u
apply_exec-Unique (delete_row o r b) t u = Unique-keep (λ x. not (is_at o r b x)) t.rows u
apply_exec-Unique (delete_rows_for_repo o r) t u = Unique-keep (λ x. not (in_repo o r x)) t.rows u
apply_exec-Unique (insert_managed o r) t u = elim (Bool-cases (any (in_repo o r) t.managed)) [
  | inl e ↦ rw e u
  | inr e ↦ rw e u
]
apply_exec-Unique (delete_managed o r) t u = u
apply_exec-Unique (insert_executed k) t u = elim (Bool-cases (any (text_eq k) t.executed)) [
  | inl e ↦ rw e u
  | inr e ↦ rw e u
]
