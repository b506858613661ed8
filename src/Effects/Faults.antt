-- ===== src/Effects/Faults.antt =====
-- The fates of the database calls that a program spends.
use repo_extension.Base.{◌≡◌, refl, ap, sym, ◌≤◌, ◌∙◌, List, [], ◌∷◌, arith}
use mathlib.Core.Path.{subst}
use repo_extension.Base.Lists.{length}
use repo_extension.Errs.{ok}
use repo_extension.Effects.{
  Eff, http, select, exec, cache, ext, CacheCall, look_up, put_entry, evict_entry, Prog, ret, fail,
  call, ◌>>=◌,
}
use repo_extension.Effects.World.{
  Net, World, Fate, fates_next, perform, perform_select, perform_exec, perform_cache, run,
}
use repo_extension.Effects.Run.{run-bind_ok}

fates_next-length : (fs : List Fate) → length (fates_next fs) ≤ length fs
fates_next-length [] = omega arith
fates_next-length (f ∷ fs) = omega arith

pub nil_of_length : (fs : List Fate) → length fs ≤ 0 → fs ≡ []
nil_of_length [] h = refl
nil_of_length (f ∷ fs) h = absurd (omega arith)

module _ {R : Type 0} (net : Net R) where
  perform_cache-fates : (c : CacheCall) (w : World R) → (perform_cache net c w).1.fates ≡ w.fates
  unfolding perform_cache
  perform_cache-fates (look_up _) w = refl
  perform_cache-fates (put_entry _ _) w = refl
  perform_cache-fates (evict_entry _) w = refl

  perform-fates : (e : Eff) (w : World R) → length (perform net e w).1.fates ≤ length w.fates
  unfolding perform perform_select perform_exec
  perform-fates (http s q) w = omega arith
  perform-fates (select q) w = fates_next-length w.fates
  perform-fates (exec x) w = fates_next-length w.fates
  perform-fates (cache c) w = rw (perform_cache-fates c w) (omega arith)
  perform-fates (ext c) w = omega arith

  pub run-fates :
      {A : Type 0} (m : Prog A) (w : World R) → length (run net m w).1.fates ≤ length w.fates
  unfolding run
  run-fates (ret a) w = omega arith
  run-fates (fail e) w = omega arith
  run-fates (call e k) w =
      omega (arith, run-fates (k (perform net e w).0) (perform net e w).1, perform-fates e w)

  -- Once no database call fails, none fails later.
  pub run-faultless :
      {A : Type 0} (m : Prog A) (w : World R) → w.fates ≡ [] → (run net m w).1.fates ≡ []
  run-faultless m w e =
      nil_of_length (run net m w).1.fates (omega (arith, run-fates m w, ap length e))

  -- The program returns from this state.
  abbrev pub Succeeds : Prog Unit → World R → Type 0
  Succeeds m w = (w' : World R) × (run net m w ≡ (ok tt, w'))

  pub Succeeds-bind :
      {A : Type 0} (m : Prog A) (f : A → Prog Unit) (a : A) (w w1 : World R)
      → run net m w ≡ (ok a, w1)
      → Succeeds (f a) w1
      → Succeeds (m >>= f) w
  Succeeds-bind m f a w w1 e (w2, k) = (w2, run-bind_ok net m f w w1 a e ∙ k)

  -- It is enough to look at the state without faults.
  pub of_faultless :
      (m : Prog Unit) (w : World R)
      → w.fates ≡ []
      → Succeeds m (record w { fates = [] })
      → Succeeds m w
  of_faultless m w e h = subst (Succeeds m) (λ i. record w { fates = sym e i }) h
