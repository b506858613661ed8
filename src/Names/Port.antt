-- ===== src/Names/Port.antt =====
-- The port of an address (helpers.go: envNormalizePort).
use repo_extension.Base.{
  ℕ, ◌≡◌, refl, ◌≢◌, none, some, [], ◌∷◌, ◌++◌, arith, ==-refl, if◌then◌else◌,
}
use repo_extension.Base.Text.{Text, Lacks, is_empty}
use repo_extension.Names.{colon, after_last, env_normalize_port}

after_last-none : (sep : ℕ) (s : Text) → Lacks sep s → after_last sep s ≡ none
unfolding after_last
after_last-none sep [] h = refl
after_last-none sep (c ∷ s) h = ground (arith, after_last-none sep s h.1)

after_last-some :
    (sep : ℕ) (host s : Text) → Lacks sep s → after_last sep (host ++ (sep ∷ s)) ≡ some s
unfolding after_last
after_last-some sep [] s h = rw (after_last-none sep s h, ==-refl sep)
after_last-some sep (c ∷ host) s h = rw (after_last-some sep host s h)

pick-nonempty : (p v : Text) → p ≢ [] → (if is_empty p then v else p) ≡ p
pick-nonempty [] v n = absurd (n refl)
pick-nonempty (c ∷ p) v n = refl

-- Of an address `host:port` with a port that is not empty and has no colon, the port is kept, the host being any text, with colons or not; such a
-- port alone is kept whole, and so is a text that ends in a colon.
pub env_normalize_port_lem :
    (host port : Text)
    → Lacks colon port
    → port ≢ []
    → (env_normalize_port (host ++ (colon ∷ port)) ≡ port)
      × (env_normalize_port port ≡ port)
      × (env_normalize_port (host ++ (colon ∷ [])) ≡ host ++ (colon ∷ []))
unfolding env_normalize_port
env_normalize_port_lem host port h n = (
  rw (after_last-some colon host port h, env_normalize_port)
      (pick-nonempty port (host ++ (colon ∷ port)) n),
  rw (after_last-none colon port h, env_normalize_port),
  rw (after_last-some colon host [] tt, env_normalize_port),
)
