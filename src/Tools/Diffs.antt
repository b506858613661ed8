-- ===== src/Tools/Diffs.antt =====
-- What a diff says of the two texts (tools.go: diffLines).
use repo_extension.Base.{
  ℕ, suc, zero, ◌+◌, ◌-◌, ◌≡◌, refl, sym, ◌∙◌, ap, List, [], ◌∷◌, ◌++◌, append_assoc, arith, inl,
  inr, Bool-cases,
}
use repo_extension.Base.Text.{Text, text_eq, eq_of_text_eq}
use repo_extension.Base.Lists.{length, take, drop, take-append-drop, length-drop}
use repo_extension.Tools.{Hunk, common, back_to_front, hunk_of}

-- What `patch -u` does with a hunk without context.
abbrev pub patched : Hunk → List Text → List Text
patched h olds = take h.start olds ++ (h.added ++ drop (h.start + length h.removed) olds)

common-take : (xs ys : List Text) → take (common xs ys) xs ≡ take (common xs ys) ys
unfolding common
common-take [] ys = refl
common-take (x ∷ xs) [] = refl
common-take (x ∷ xs) (y ∷ ys) = elim (Bool-cases (text_eq x y)) [
  | inl e ↦ rw (e, common, eq_of_text_eq x y e) (ap (λ zs. y ∷ zs) (common-take xs ys))
  | inr e ↦ rw (e, common)
]

module _ {ℓ} {A : Type ℓ} where
  take-length : (p s : List A) → take (length p) (p ++ s) ≡ p
  take-length [] s = refl
  take-length (x ∷ p) s = ap (λ zs. x ∷ zs) (take-length p s)

  drop-length : (p s : List A) → drop (length p) (p ++ s) ≡ s
  drop-length [] s = refl
  drop-length (x ∷ p) s = drop-length p s

  drop-nil : (n : ℕ) → ◌≡◌ {A = List A} (drop n []) []
  drop-nil zero = refl
  drop-nil (suc n) = refl

  drop_add : (i n : ℕ) (xs : List A) → drop (i + n) xs ≡ drop n (drop i xs)
  drop_add zero n xs = ap (λ m. drop m xs) (omega arith)
  drop_add (suc i) n [] = drop-nil (suc i + n) ∙ sym (drop-nil n)
  drop_add (suc i) n (x ∷ xs) =
      let e : suc i + n ≡ suc (i + n) = omega arith in ap (λ m. drop m (x ∷ xs)) e ∙ drop_add i n xs

back-length : (xs acc : List Text) → length (back_to_front xs acc) ≡ length xs + length acc
back-length [] acc = omega arith
back-length (x ∷ xs) acc = omega (arith, back-length xs (x ∷ acc))

back-append : (xs acc : List Text) → back_to_front xs acc ≡ back_to_front xs [] ++ acc
back-append [] acc = refl
back-append (x ∷ xs) acc =
    back-append xs (x ∷ acc)
    ∙ sym (
        ap (λ zs. zs ++ acc) (back-append xs (x ∷ []))
        ∙ append_assoc (back_to_front xs []) (x ∷ []) acc)

back_twice : (xs acc : List Text) → back_to_front (back_to_front xs acc) [] ≡ back_to_front acc xs
back_twice [] acc = refl
back_twice (x ∷ xs) acc = back_twice xs (x ∷ acc)

back-take :
    (n : ℕ) (xs acc : List Text)
    → back_to_front xs acc ≡ back_to_front (drop n xs) (back_to_front (take n xs) acc)
back-take zero xs acc = refl
back-take (suc n) [] acc = refl
back-take (suc n) (x ∷ xs) acc = back-take n xs (x ∷ acc)

-- A list is what stands before its last `n` elements, and those.
abbrev front : ℕ → List Text → List Text
front n xs = back_to_front (drop n (back_to_front xs [])) []

abbrev tail : ℕ → List Text → List Text
tail n xs = back_to_front (take n (back_to_front xs [])) []

front-tail : (n : ℕ) (xs : List Text) → front n xs ++ tail n xs ≡ xs
front-tail n xs =
    sym (back-append (drop n (back_to_front xs [])) (tail n xs))
    ∙ sym (back-take n (back_to_front xs []) [])
    ∙ back_twice xs []

front-length : (n : ℕ) (xs : List Text) → length (front n xs) ≡ length xs - n
front-length n xs = omega (
  arith,
  back-length (drop n (back_to_front xs [])) [],
  length-drop n (back_to_front xs []),
  back-length xs [],
)

take-front : (n : ℕ) (xs : List Text) → take (length xs - n) xs ≡ front n xs
take-front n xs =
    ap (λ m. take m xs) (sym (front-length n xs))
    ∙ ap (λ zs. take (length (front n xs)) zs) (sym (front-tail n xs))
    ∙ take-length (front n xs) (tail n xs)

drop-tail : (n : ℕ) (xs : List Text) → drop (length (front n xs)) xs ≡ tail n xs
drop-tail n xs =
    ap (λ zs. drop (length (front n xs)) zs) (sym (front-tail n xs))
    ∙ drop-length (front n xs) (tail n xs)

-- The slice between the two counts.
middle : (i j : ℕ) (xs : List Text) → take (length xs - j - i) (drop i xs) ≡ front j (drop i xs)
middle i j xs =
    ap (λ m. take m (drop i xs)) (omega (arith, length-drop i xs)) ∙ take-front j (drop i xs)

-- The hunk that a diff prints removes lines that stand at its place in the old text, and to apply it
-- to the lines of the old text gives the lines of the new one.
pub hunk_of-patched :
    (olds news : List Text)
    → (patched (hunk_of olds news) olds ≡ news)
      × (take (length (hunk_of olds news).removed) (drop (hunk_of olds news).start olds)
          ≡ (hunk_of olds news).removed)
unfolding hunk_of
hunk_of-patched olds news =
    let i = common olds news in
    let a = drop i olds in
    let b = drop i news in
    let j = common (back_to_front a []) (back_to_front b []) in
    let same_tail : tail j a ≡ tail j b =
      ap (λ zs. back_to_front zs []) (common-take (back_to_front a []) (back_to_front b [])) in
    (
      rw (
        middle i j olds,
        middle i j news,
        drop_add i (length (front j a)) olds,
        drop-tail j a,
        same_tail,
        front-tail j b,
        common-take olds news,
        take-append-drop i news,
      ),
      rw (middle i j olds) (
          ap (λ zs. take (length (front j a)) zs) (sym (front-tail j a))
          ∙ take-length (front j a) (tail j a)),
    )
