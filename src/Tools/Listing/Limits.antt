-- ===== src/Tools/Listing/Limits.antt =====
-- The limits of ls and grep (tools.go).
use mathlib.Core.List.{append-nil}
use repo_extension.Base.{
  ℕ, suc, ◌≡◌, ◌≤◌, ◌<◌, ◌↔◌, refl, Bool, true, List, [], ◌++◌, ltb, Bool-cases, inl, inr, arith,
}
use repo_extension.Base.Int.{pos, less}
use repo_extension.Base.Lists.{length, take, drop, take-append-drop, length-take}
use repo_extension.Tools.Listing.{limited}

-- What is shown and what is not.
pub record IsLimited {ℓ} {A : Type ℓ} (max : ℕ) (xs shown : List A) (truncated : Bool)
    : Type ℓ where
  pub rest : List A
  pub in_order : shown ++ rest ≡ xs
  pub bounded : length shown ≤ max
  pub flagged : (truncated ≡ true) ↔ (max < length xs)
  pub filled : truncated ≡ true → length shown ≡ max

-- A positive limit shows the first entries in their order and no more of them than the limit says; the
-- flag says exactly whether there are more, and then the limit is used up.
pub limited_lem {ℓ} :
    {A : Type ℓ} (m : ℕ) (xs : List A)
    → IsLimited (suc m) xs (limited (pos (suc m)) xs).0 (limited (pos (suc m)) xs).1
unfolding limited less
limited_lem m xs =
    let positive : ltb 0 (suc m) ≡ true = ground arith in
    elim (Bool-cases (ltb (suc m) (length xs))) [
      | inl e ↦
          let over : suc m < length xs = ground arith in
          let exact : length (take (suc m) xs) ≡ suc m = length-take (suc m) xs (omega arith) in
          rw (positive, e)
            (record {
              rest = drop (suc m) xs;
              in_order = take-append-drop (suc m) xs;
              bounded = omega arith;
              flagged = (λ _. over, λ _. refl);
              filled = λ _. exact;
            })
      | inr e ↦
          rw (positive, e)
            (record {
              rest = [];
              in_order = append-nil xs;
              bounded = ground arith;
              flagged = (λ t. cc, λ over. ground arith);
              filled = λ t. cc;
            })
    ]
