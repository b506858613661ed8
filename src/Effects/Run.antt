-- ===== src/Effects/Run.antt =====
-- How a program that runs alone ends: rules for sequences, and what the calls of the network leave.
use mathlib.Core.Path.{subst, ap₂}
use repo_extension.Base.{◌≡◌, refl, ◌∙◌, ap}
use repo_extension.Errs.{Err, Result, ok, err}
use repo_extension.Effects.{
  Eff, Answer, http, select, exec, cache, ext, Prog, ret, fail, call, handle, ◌>>=◌,
}
use repo_extension.Effects.Sound.{Sound}
use repo_extension.Effects.World.{Net, World, perform, run}

-- Calls that leave the tables, the cache and the fates alone.
abbrev pub IsNetwork : Eff → Type 0
IsNetwork (http _ _) = Unit
IsNetwork (ext _) = Unit
IsNetwork (select _) = ⊥
IsNetwork (exec _) = ⊥
IsNetwork (cache _) = ⊥

abbrev pub AnyAnswer : (e : Eff) → Answer e → Type 0
AnyAnswer _ _ = Unit

ok_inj : {A : Type 0} (x y : A) → ok x ≡ ok y → x ≡ y
ok_inj x y h = cc

err_inj : {A : Type 0} (x y : Err) → ◌≡◌ {A = Result A} (err x) (err y) → x ≡ y
err_inj x y h = cc

module _ {R : Type 0} (net : Net R) where
  -- A property of how `handle m f g` ends follows from the two ways in which `m` may end.
  pub run-handle :
      {A B : Type 0} (Q : Result B × World R → Type 0) (m : Prog A) (f : A → Prog B)
      (g : Err → Prog B) (w : World R)
      → ((a : A) (w' : World R) → run net m w ≡ (ok a, w') → Q (run net (f a) w'))
      → ((e : Err) (w' : World R) → run net m w ≡ (err e, w') → Q (run net (g e) w'))
      → Q (run net (handle m f g) w)
  unfolding run
  run-handle Q (ret a) f g w hf hg = hf a w refl
  run-handle Q (fail e) f g w hf hg = hg e w refl
  run-handle Q (call e k) f g w hf hg =
      run-handle Q (k (perform net e w).0) f g (perform net e w).1 hf hg

  -- What is stated of success alone.
  abbrev pub Ends : {A : Type 0} → (A → World R → Type 0) → Result A × World R → Type 0
  Ends Q (ok a, w) = Q a w
  Ends Q (err e, w) = Unit

  pub run-bind :
      {A B : Type 0} (Q : B → World R → Type 0) (m : Prog A) (f : A → Prog B) (w : World R)
      → ((a : A) (w' : World R) → run net m w ≡ (ok a, w') → Ends Q (run net (f a) w'))
      → Ends Q (run net (m >>= f) w)
  unfolding run
  run-bind Q m f w hf = run-handle (Ends Q) m f fail w hf (λ e w' _. tt)

  pub Ends-ok :
      {A : Type 0} (Q : A → World R → Type 0) (m : Prog A) (w : World R) (a : A) (w' : World R)
      → Ends Q (run net m w)
      → run net m w ≡ (ok a, w')
      → Q a w'
  Ends-ok Q m w a w' h e = subst (Ends Q) e h

  pub Ends_of_ok :
      {A : Type 0} (Q : A → World R → Type 0) (m : Prog A) (w : World R)
      → ((a : A) (w' : World R) → run net m w ≡ (ok a, w') → Q a w')
      → Ends Q (run net m w)
  unfolding run
  Ends_of_ok Q m w h = go (run net m w) refl
    where
      go : (x : Result _ × World R) → run net m w ≡ x → Ends Q x
      go (ok a, w') e = h a w' e
      go (err x, w') e = tt

  -- A program of network calls leaves the tables, the cache and the fates as they are.
  pub record SameData (w w' : World R) : Type 0 where
    pub same_tables : w'.tables ≡ w.tables
    pub same_cache : w'.cache ≡ w.cache
    pub same_fates : w'.fates ≡ w.fates

  pub SameData-refl : (w : World R) → SameData w w
  SameData-refl w = record { same_tables = refl; same_cache = refl; same_fates = refl }

  pub SameData-trans : {u v w : World R} → SameData u v → SameData v w → SameData u w
  SameData-trans a b = record {
    same_tables = b.same_tables ∙ a.same_tables;
    same_cache = b.same_cache ∙ a.same_cache;
    same_fates = b.same_fates ∙ a.same_fates;
  }

  perform-SameData : (e : Eff) (w : World R) → IsNetwork e → SameData w (perform net e w).1
  unfolding perform
  perform-SameData (http s q) w h = record {
    same_tables = refl;
    same_cache = refl;
    same_fates = refl;
  }
  perform-SameData (ext c) w h = record { same_tables = refl; same_cache = refl; same_fates = refl }
  perform-SameData (select q) w h = absurd h
  perform-SameData (exec x) w h = absurd h
  perform-SameData (cache c) w h = absurd h

  pub run-SameData :
      {A : Type 0} (Q : A → Type 0) (m : Prog A) (w : World R)
      → Sound IsNetwork AnyAnswer Q m
      → SameData w (run net m w).1
  unfolding run
  run-SameData Q (ret a) w h = SameData-refl w
  run-SameData Q (fail e) w h = SameData-refl w
  run-SameData Q (call e k) w h =
      SameData-trans (perform-SameData e w h.0)
        (run-SameData Q (k (perform net e w).0) (perform net e w).1 (h.1 (perform net e w).0 tt))

  pub run-SameData_ok :
      {A : Type 0} (Q : A → Type 0) (m : Prog A) (w w' : World R) (r : Result A)
      → Sound IsNetwork AnyAnswer Q m
      → run net m w ≡ (r, w')
      → SameData w w'
  run-SameData_ok Q m w w' r h e = subst (λ x. SameData w x.1) e (run-SameData Q m w h)

  pub run-bind_ok :
      {A B : Type 0} (m : Prog A) (f : A → Prog B) (w w' : World R) (a : A)
      → run net m w ≡ (ok a, w')
      → run net (m >>= f) w ≡ run net (f a) w'
  unfolding run
  run-bind_ok (ret x) f w w' a e =
      ap₂ (λ y u. run net (f y) u) (ok_inj x a (ap (λ (p : Result _ × World R). p.0) e))
        (ap (λ (p : Result _ × World R). p.1) e)
  run-bind_ok (fail x) f w w' a e = cc
  run-bind_ok (call c k) f w w' a e =
      run-bind_ok (k (perform net c w).0) f (perform net c w).1 w' a e

  pub run-bind_err :
      {A B : Type 0} (m : Prog A) (f : A → Prog B) (w w' : World R) (x : Err)
      → run net m w ≡ (err x, w')
      → run net (m >>= f) w ≡ (err x, w')
  unfolding run
  run-bind_err (ret y) f w w' x e = cc
  run-bind_err (fail y) f w w' x e =
      λ i. (err (err_inj y x (ap (λ (p : Result _ × World R). p.0) e) i), (e i).1)
  run-bind_err (call c k) f w w' x e =
      run-bind_err (k (perform net c w).0) f (perform net c w).1 w' x e
