-- ===== src/Effects/Sound.antt =====
-- A program logic for `Prog`: each call that a program makes is allowed, and its result satisfies a
-- postcondition, provided that the answers are as relied upon.
use repo_extension.Base.{◌≡◌, refl, Bool, true, false, Option, none, some, if◌then◌else◌}
use repo_extension.Base.Text.{Text}
use repo_extension.Errs.{Err}
use repo_extension.Effects.{Eff, Answer, Prog, ret, fail, call, handle, ◌>>=◌, ◌>>◌, downstream}

module _ (Allowed : Eff → Type 0) (Rely : (e : Eff) → Answer e → Type 0) where
  abbrev pub Sound : {A : Type 0} → (A → Type 0) → Prog A → Type 0
  Sound Q (ret a) = Q a
  Sound Q (fail e) = Unit
  Sound Q (call e k) = Allowed e × ((a : Answer e) → Rely e a → Sound Q (k a))

  pub Sound-handle :
      {A B : Type 0} (P : A → Type 0) (Q : B → Type 0) (m : Prog A) (f : A → Prog B)
      (g : Err → Prog B)
      → Sound P m
      → ((a : A) → P a → Sound Q (f a))
      → ((e : Err) → Sound Q (g e))
      → Sound Q (handle m f g)
  Sound-handle P Q (ret a) f g h hf hg = hf a h
  Sound-handle P Q (fail e) f g h hf hg = hg e
  Sound-handle P Q (call e k) f g h hf hg = (h.0, λ a r. Sound-handle P Q (k a) f g (h.1 a r) hf hg)

  pub Sound-bind :
      {A B : Type 0} (P : A → Type 0) (Q : B → Type 0) (m : Prog A) (f : A → Prog B)
      → Sound P m
      → ((a : A) → P a → Sound Q (f a))
      → Sound Q (m >>= f)
  Sound-bind P Q m f h hf = Sound-handle P Q m f fail h hf (λ e. tt)

  pub Sound-then :
      {A B : Type 0} (P : A → Type 0) (Q : B → Type 0) (m : Prog A) (n : Prog B)
      → Sound P m
      → Sound Q n
      → Sound Q (m >> n)
  Sound-then P Q m n h hn = Sound-bind P Q m (λ _. n) h (λ a _. hn)

  pub Sound-downstream :
      {A : Type 0} (P : A → Type 0) (what : Text) (m : Prog A)
      → Sound P m
      → Sound P (downstream what m)
  Sound-downstream P what m h = Sound-handle P P m ret (λ e. fail _) h (λ a p. p) (λ e. tt)

  pub Sound-weaken :
      {A : Type 0} (P Q : A → Type 0) (m : Prog A) → ((a : A) → P a → Q a) → Sound P m → Sound Q m
  Sound-weaken P Q (ret a) w h = w a h
  Sound-weaken P Q (fail e) w h = tt
  Sound-weaken P Q (call e k) w h = (h.0, λ a r. Sound-weaken P Q (k a) w (h.1 a r))

  pub Sound-if :
      {A : Type 0} (Q : A → Type 0) (b : Bool) (m n : Prog A)
      → (b ≡ true → Sound Q m)
      → (b ≡ false → Sound Q n)
      → Sound Q (if b then m else n)
  Sound-if Q true m n hm hn = hm refl
  Sound-if Q false m n hm hn = hn refl

  pub Sound-option :
      {A C : Type 0} (Q : A → Type 0) (o : Option C) (n : Prog A) (f : C → Prog A)
      → (o ≡ none → Sound Q n)
      → ((c : C) → o ≡ some c → Sound Q (f c))
      → Sound Q (elim o [ none ↦ n | some c ↦ f c ])
  Sound-option Q none n f hn hf = hn refl
  Sound-option Q (some c) n f hn hf = hf c refl

-- A postcondition that was shown for other allowed calls holds for these.
pub Sound-both :
    {A : Type 0} (Other Allowed : Eff → Type 0) (Rely : (e : Eff) → Answer e → Type 0)
    (P Q : A → Type 0) (m : Prog A)
    → Sound Other Rely Q m
    → Sound Allowed Rely P m
    → Sound Allowed Rely Q m
Sound-both Other Allowed Rely P Q (ret a) h g = h
Sound-both Other Allowed Rely P Q (fail e) h g = tt
Sound-both Other Allowed Rely P Q (call e k) h g =
    (g.0, λ a r. Sound-both Other Allowed Rely P Q (k a) (h.1 a r) (g.1 a r))
