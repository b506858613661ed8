-- ===== src/Store/Distinct.antt =====
-- The keys of session_repos read as equations of fields, apart from the tests of the store (pg.go: the DDL
-- of migrate, PRIMARY KEY and UNIQUE).
use repo_extension.Base.{◌≡◌, sym, List, [], ◌∷◌, Bool-cases, inl, inr}
use repo_extension.Base.Text.{text_eq_refl, eq_of_text_eq}
use repo_extension.Base.Lists.{All}
use repo_extension.Effects.{MapRow, Exec}
use repo_extension.Store.Tables.{Tables, is_at, has_session, apply_exec}
use repo_extension.Store.Unique.{Apart, Unique, is_at-inv, apply_exec-Unique}

abbrev pub SamePlace : MapRow → MapRow → Type 0
SamePlace x y = (x.org ≡ y.org) × (x.repo ≡ y.repo) × (x.bookmark ≡ y.bookmark)

-- PRIMARY KEY (org, repo, bookmark), and session_name UNIQUE.
abbrev pub Differs : MapRow → MapRow → Type 0
Differs x y = (¬ (SamePlace x y)) × (¬ (x.session_name ≡ y.session_name))

abbrev pub Distinct : List MapRow → Type 0
Distinct [] = Unit
Distinct (x ∷ rows) = All (Differs x) rows × Distinct rows

Apart-Differs : (x y : MapRow) → Apart x y → Differs x y
Apart-Differs x y h = elim (Bool-cases (is_at x.org x.repo x.bookmark y)) [
  | inl e ↦ cc (rw e at h)
  | inr e ↦ (
    λ (eo, er, eb).
        cc (rw (eo, er, eb, text_eq_refl y.org, text_eq_refl y.repo, text_eq_refl y.bookmark) at e),
    λ s. cc (rw (e, s, text_eq_refl y.session_name) at h),
  )
]

Differs-Apart : (x y : MapRow) → Differs x y → Apart x y
Differs-Apart x y d = elim (Bool-cases (is_at x.org x.repo x.bookmark y)) [
  | inl e ↦
      let (eo, er, eb) = is_at-inv x.org x.repo x.bookmark y e in
      absurd (d.0 (sym eo, sym er, sym eb))
  | inr e ↦ elim (Bool-cases (has_session x.session_name y)) [
    | inl s ↦ absurd (d.1 (sym (eq_of_text_eq y.session_name x.session_name s)))
    | inr s ↦ rw (e, s)
  ]
]

All-Differs : (x : MapRow) (rows : List MapRow) → All (Apart x) rows → All (Differs x) rows
All-Differs x [] h = tt
All-Differs x (y ∷ rows) h = (Apart-Differs x y h.0, All-Differs x rows h.1)

All-Apart : (x : MapRow) (rows : List MapRow) → All (Differs x) rows → All (Apart x) rows
All-Apart x [] h = tt
All-Apart x (y ∷ rows) h = (Differs-Apart x y h.0, All-Apart x rows h.1)

pub Unique-Distinct : (rows : List MapRow) → Unique rows → Distinct rows
Unique-Distinct [] h = tt
Unique-Distinct (x ∷ rows) h = (All-Differs x rows h.0, Unique-Distinct rows h.1)

Distinct-Unique : (rows : List MapRow) → Distinct rows → Unique rows
Distinct-Unique [] h = tt
Distinct-Unique (x ∷ rows) h = (All-Apart x rows h.0, Distinct-Unique rows h.1)

-- Whatever the statement, its arguments and the order of the rows: if no two rows of the table have the same
-- organization, repository and bookmark, and no two have the same session, then so it is after the statement.
pub apply_exec-Distinct :
    (x : Exec) (t : Tables) → Distinct t.rows → Distinct (apply_exec x t).1.rows
apply_exec-Distinct x t h =
    Unique-Distinct (apply_exec x t).1.rows (apply_exec-Unique x t (Distinct-Unique t.rows h))
