-- ===== src/Startup/Interval.antt =====
-- The interval of the reconciler (main.go, reconcile.go: runReconciler).
use repo_extension.Base.{
  ℕ, ◌≡◌, ◌≤◌, ◌*◌, refl, true, false, Option, some, inl, inr, arith, Bool-cases,
}
use repo_extension.Base.Text.{Text, is_empty}
use repo_extension.Base.Int.{ℤ, pos, less, int64_limit, int64_size}
use repo_extension.Reconcile.{reconcile_interval}
use repo_extension.Startup.{Env, env_int, seconds, of_word, ticker_interval}

interval_positive : (i : ℤ) → less (pos 0) (reconcile_interval i) ≡ true
unfolding reconcile_interval less
interval_positive i = elim (Bool-cases (less (pos 0) i)) [
  | inl e ↦ rw (e, reconcile_interval) e
  | inr e ↦ rw (e, reconcile_interval) refl
]

seconds_kept :
    (n : ℕ)
    → 1 ≤ n
    → n ≤ 9_223_372_036
    → reconcile_interval (seconds (pos n)) ≡ pos (n * 1_000_000_000)
unfolding reconcile_interval seconds of_word less int64_limit int64_size
seconds_kept n lo hi = ground arith

module _ (getenv : Env) (atoi : Text → Option ℤ) where
  -- Whatever the environment says, time.NewTicker gets a positive interval and does not panic.
  pub ticker_interval-positive : less (pos 0) (ticker_interval getenv atoi) ≡ true
  unfolding ticker_interval
  ticker_interval-positive = interval_positive _

  -- Where the environment variable is set and strconv.Atoi reads it as a number from 1 to
  -- 9223372036, the interval of the ticker is that many seconds: the product with time.Second does not
  -- wrap around, and the default does not replace it.
  pub ticker_interval-seconds :
      (n : ℕ)
      → is_empty (getenv "ZERGX_RECONCILE_INTERVAL_SECS") ≡ false
      → atoi (getenv "ZERGX_RECONCILE_INTERVAL_SECS") ≡ some (pos n)
      → 1 ≤ n
      → n ≤ 9_223_372_036
      → ticker_interval getenv atoi ≡ pos (n * 1_000_000_000)
  unfolding ticker_interval env_int
  ticker_interval-seconds n set e lo hi = rw (set, e) (seconds_kept n lo hi)
