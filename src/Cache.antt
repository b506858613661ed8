-- ===== src/Cache.antt =====
-- The session resolution cache of sessions_http.go: one mutex guards each operation, so each is one
-- step. Times are nanoseconds of one clock.
pub mod Expiry
use repo_extension.Base.{
  ℕ, ◌+◌, String, ◌≡◌, Bool, true, false, not, Option, none, some, List, [], ◌∷◌, ltb,
  if◌then◌else◌,
}
use repo_extension.Base.Text.{Text, text_eq}
use repo_extension.Base.Lists.{keep}
use repo_extension.Names.{Triple}

pub record SessEntry : Type 0 where
  pub sid : Text
  pub triple : Triple
  pub exp : ℕ

-- The map holds one entry for each key.
pub record SessCache : Type 0 where
  pub m : List SessEntry
  pub ttl : ℕ

abbrev pub new_sess_cache : ℕ → SessCache
new_sess_cache ttl = record { m = []; ttl = ttl }

unfoldable pub find_entry : Text → List SessEntry → Option SessEntry
find_entry sid [] = none
find_entry sid (e ∷ m) = if text_eq e.sid sid then some e else find_entry sid m

-- `time.Now().After(e.exp)` is a miss.
abbrev pub unexpired : ℕ → Option SessEntry → Option Triple
unexpired now none = none
unexpired now (some e) = if ltb e.exp now then none else some e.triple

unfoldable pub get : ℕ → Text → SessCache → Option Triple
unfolding find_entry
get now sid c = unexpired now (find_entry sid c.m)

abbrev pub without : Text → List SessEntry → List SessEntry
without sid m = keep (λ e. not (text_eq e.sid sid)) m

unfoldable pub put : ℕ → Text → Triple → SessCache → SessCache
put now sid triple c = record c {
  m = record { sid = sid; triple = triple; exp = now + c.ttl } ∷ without sid c.m;
}

unfoldable pub evict : Text → SessCache → SessCache
evict sid c = record c { m = without sid c.m }
