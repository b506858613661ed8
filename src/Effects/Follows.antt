-- ===== src/Effects/Follows.antt =====
-- A program logic that remembers answers: what a call must be may depend on what was answered before.
use repo_extension.Errs.{Err}
use repo_extension.Base.{◌≡◌, refl, Bool, true, false, if◌then◌else◌}
use repo_extension.Effects.{Eff, Answer, Prog, ret, fail, call, handle, ◌>>=◌}

module _ {S : Type 0} (Allowed : S → Eff → Type 0) (next : S → (e : Eff) → Answer e → S) where
  -- Whatever is answered, each call is allowed in the state that the answers before it have left, and
  -- a value is returned in a state as stated.
  abbrev pub Follows : {A : Type 0} → (A → S → Type 0) → Prog A → S → Type 0
  Follows Q (ret a) s = Q a s
  Follows Q (fail e) s = Unit
  Follows Q (call e k) s = Allowed s e × ((a : Answer e) → Follows Q (k a) (next s e a))

  pub Follows-handle :
      {A B : Type 0} (P : A → S → Type 0) (Q : B → S → Type 0) (m : Prog A) (f : A → Prog B)
      (g : Err → Prog B) (s : S)
      → Follows P m s
      → ((a : A) (t : S) → P a t → Follows Q (f a) t)
      → ((e : Err) (t : S) → Follows Q (g e) t)
      → Follows Q (handle m f g) s
  Follows-handle P Q (ret a) f g s h hf hg = hf a s h
  Follows-handle P Q (fail e) f g s h hf hg = hg e s
  Follows-handle P Q (call e k) f g s h hf hg =
      (h.0, λ a. Follows-handle P Q (k a) f g (next s e a) (h.1 a) hf hg)

  pub Follows-bind :
      {A B : Type 0} (P : A → S → Type 0) (Q : B → S → Type 0) (m : Prog A) (f : A → Prog B) (s : S)
      → Follows P m s
      → ((a : A) (t : S) → P a t → Follows Q (f a) t)
      → Follows Q (m >>= f) s
  Follows-bind P Q m f s h hf = Follows-handle P Q m f fail s h hf (λ e t. tt)

  pub Follows-if :
      {A : Type 0} (Q : A → S → Type 0) (b : Bool) (m n : Prog A) (s : S)
      → (b ≡ true → Follows Q m s)
      → (b ≡ false → Follows Q n s)
      → Follows Q (if b then m else n) s
  Follows-if Q true m n s hm hn = hm refl
  Follows-if Q false m n s hm hn = hn refl
