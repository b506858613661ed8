-- ===== src/Reconcile/Kept.antt =====
-- Rows that pass a test, and rows of a table without duplicates.
use mathlib.Core.Path.{subst}
use repo_extension.Base.{
  ◌≡◌, refl, sym, ◌∙◌, ap, Bool, true, false, List, [], ◌∷◌, if◌then◌else◌, inl, inr, Bool-cases,
}
use repo_extension.Base.Lists.{Member, keep, any}
use repo_extension.Effects.{MapRow}
use repo_extension.Store.Tables.{is_at}
use repo_extension.Store.Unique.{Unique, Apart, is_at_self, Apart-is_at}
use repo_extension.Discipline.Rows.{member_of_All}

pub keep_fuse :
    (p q g : MapRow → Bool) (xs : List MapRow)
    → ((x : MapRow) → g x ≡ (if q x then p x else false))
    → keep p (keep q xs) ≡ keep g xs
keep_fuse p q g [] h = refl
keep_fuse p q g (x ∷ xs) h = elim (Bool-cases (q x)) [
  | inl e ↦
      let k : g x ≡ p x = rw e at (h x) in
      elim (Bool-cases (p x)) [
        | inl f ↦ rw (e, f, k, f) (ap (λ ys. x ∷ ys) (keep_fuse p q g xs h))
        | inr f ↦ rw (e, f, k, f) (keep_fuse p q g xs h)
      ]
  | inr e ↦ let k : g x ≡ false = rw e at (h x) in rw (e, k) (keep_fuse p q g xs h)
]

pub keep-true : (xs : List MapRow) → keep (λ _. true) xs ≡ xs
keep-true [] = refl
keep-true (x ∷ xs) = ap (λ ys. x ∷ ys) (keep-true xs)

pub Member-keep :
    (p : MapRow → Bool) (rows : List MapRow) (x : MapRow)
    → Member x rows
    → p x ≡ true
    → Member x (keep p rows)
Member-keep p [] x m h = absurd m
Member-keep p (y ∷ rows) x (inl q) h = rw (subst (λ z. p z ≡ true) (sym q) h) (inl q)
Member-keep p (y ∷ rows) x (inr m) h = elim (Bool-cases (p y)) [
  | inl e ↦ rw e (inr (Member-keep p rows x m h))
  | inr e ↦ rw e (Member-keep p rows x m h)
]

pub Member-any :
    (p : MapRow → Bool) (rows : List MapRow) (x : MapRow)
    → Member x rows
    → p x ≡ true
    → any p rows ≡ true
Member-any p [] x m h = absurd m
Member-any p (y ∷ rows) x (inl q) h = rw (subst (λ z. p z ≡ true) (sym q) h)
Member-any p (y ∷ rows) x (inr m) h = elim (Bool-cases (p y)) [
  | inl e ↦ rw e
  | inr e ↦ rw e (Member-any p rows x m h)
]

-- In a table without duplicates the place determines the row.
pub Unique-place :
    (rows : List MapRow) (x y : MapRow)
    → Unique rows
    → Member x rows
    → Member y rows
    → is_at y.org y.repo y.bookmark x ≡ true
    → y ≡ x
Unique-place [] x y u m k h = absurd m
Unique-place (r ∷ rows) x y u (inl ex) (inl ey) h = sym ey ∙ ex
Unique-place (r ∷ rows) x y u (inl ex) (inr k) h =
    let a = member_of_All (Apart r) rows y u.0 k in
    let far =
      Apart-is_at y.org y.repo y.bookmark r y
        (subst (λ z. is_at y.org y.repo y.bookmark z ≡ true) (sym ex) h) a in
    cc (far, is_at_self y)
Unique-place (r ∷ rows) x y u (inr m) (inl ey) h =
    let a = member_of_All (Apart r) rows x u.0 m in
    let far = Apart-is_at r.org r.repo r.bookmark r x (is_at_self r) a in
    cc (far, subst (λ z. is_at z.org z.repo z.bookmark x ≡ true) (sym ey) h)
Unique-place (r ∷ rows) x y u (inr m) (inr k) h = Unique-place rows x y u.1 m k h
