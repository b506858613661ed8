-- ===== src/Cache/Expiry.antt =====
-- How long the cache answers (sessions_http.go: sessCache).
use repo_extension.Base.{ℕ, ◌+◌, ◌≡◌, ◌≢◌, none, some, List, [], ◌∷◌, ltb, if◌then◌else◌, arith}
use repo_extension.Base.Text.{Text, text_eq, text_eq_iff, text_eq_refl}
use repo_extension.Names.{Triple}
use repo_extension.Cache.{SessEntry, SessCache, find_entry, get, without, put, evict}

find_entry-without :
    (k j : Text) (m : List SessEntry)
    → find_entry j (without k m) ≡ (if text_eq k j then none else find_entry j m)
unfolding find_entry
find_entry-without k j [] = ground arith
find_entry-without k j (e ∷ m) =
    ground
      (arith, find_entry-without k j m, text_eq_iff e.sid k, text_eq_iff e.sid j, text_eq_iff k j)

-- An entry is answered up to and at the end of its time to live and not after it, by any clock
-- reading; an evicted key is never answered; and neither touches the answer for another key.
pub get-put :
    (t now : ℕ) (k j : Text) (v : Triple) (c : SessCache)
    → k ≢ j
    → (get now k (put t k v c) ≡ (if ltb (t + c.ttl) now then none else some v))
      × (get now k (evict k c) ≡ none)
      × (get now j (put t k v c) ≡ get now j c)
      × (get now j (evict k c) ≡ get now j c)
unfolding get put evict find_entry
get-put t now k j v c n = (
  ground (arith, text_eq_refl k),
  ground (arith, find_entry-without k k c.m, text_eq_refl k),
  ground (arith, find_entry-without k j c.m, text_eq_iff k j),
  ground (arith, find_entry-without k j c.m, text_eq_iff k j),
)
