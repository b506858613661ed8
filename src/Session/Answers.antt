-- ===== src/Session/Answers.antt =====
-- Resolutions through the cache and the table (sessions_http.go: resolveSession).
use mathlib.Core.Path.{subst}
use repo_extension.Base.{◌≡◌, refl, sym, ◌∙◌, ap, Option, none, some, some_inj, ◌⊎◌, inl, inr}
use repo_extension.Base.Text.{Text, eq_of_text_eq}
use repo_extension.Base.Lists.{Member, keep}
use repo_extension.Names.{Triple, parse_session}
use repo_extension.Errs.{Result, ok}
use repo_extension.Effects.{put_entry, cache, Prog, ret, call, MapRow, ◌>>=◌, downstream}
use repo_extension.Effects.World.{
  Net, World, Fate, run, perform, perform_cache, fate_now, done, refused, unacked, select_reply,
}
use repo_extension.Cache
use repo_extension.Discipline.{IsConsistent}
use repo_extension.Discipline.Rows.{IsReordering, member_of_All}
use repo_extension.Discipline.Perform.{Outcome, run-Keeps}
use repo_extension.Store
use repo_extension.Store.{first_row, rows_reply}
use repo_extension.Store.Tables.{has_session}
use repo_extension.Session.{postgres, resolve_session, resolve_row, resolve_miss}
use repo_extension.Session.Resolve.{Spells, resolve_session-Keeps}
use repo_extension.Session.Binding.{Bound, first_keep, same_session}
use repo_extension.Lifecycle.Redelivery.{found_run, read_once}

-- The cache has an entry of the session that is not expired, or the database answers a read and has the
-- session's row.
abbrev pub IsKnown : {R : Type 0} → Text → Text → Text → Text → World R → Type 0
IsKnown sid o r b w =
    ((t : Triple) × (Cache.get w.now sid w.cache ≡ some t))
    ⊎ ((fate_now w.fates ≡ done) × Bound sid (o, r, b) w)

module _ {R : Type 0} (net : Net R) (reorders : IsReordering net.order) (sid o r b : Text)
    (w : World R) (spells : Spells sid (o, r, b)) (good : IsConsistent w) where
  exact : (v : Triple) → (run net (resolve_session sid) w).0 ≡ ok v → v ≡ (o, r, b)
  exact v e =
      let named : Spells sid v =
        subst (Outcome net reorders (Spells sid)) e
          (run-Keeps net reorders (Spells sid) (resolve_session sid) w (resolve_session-Keeps sid)
            good).1 in
      some_inj v (o, r, b) (sym named ∙ spells)

  abbrev after_row : Option MapRow → Prog Triple
  after_row row = elim row [
    | none ↦ resolve_miss sid (parse_session sid)
    | some x ↦
        call (cache (put_entry sid (x.org, x.repo, x.bookmark)))
          λ _. ret (x.org, x.repo, x.bookmark)
  ]

  row_found :
      fate_now w.fates ≡ done
      → Bound sid (o, r, b) w
      → (v : Triple) × ((run net (resolve_row sid) w).0 ≡ ok v)
  unfolding resolve_row run perform perform_cache
  row_found answers bound =
      let (y, e) = found_run net o r b sid w answers bound {B = Triple} after_row in
      ((y.org, y.repo, y.bookmark), ap (λ (u : Result Triple × World R). u.0) e)

  first_Bound :
      (row : Option MapRow) (w' : World R) (v : Triple)
      → first_row (keep (has_session sid) w.tables.rows) ≡ row
      → (run net (after_row row) w').0 ≡ ok v
      → Bound sid (o, r, b) w
  unfolding run
  first_Bound none w' v e h = cc (rw spells at h)
  first_Bound (some x) w' v e h =
      let (m, k) = first_keep (has_session sid) w.tables.rows x e in
      subst (λ y. Member y w.tables.rows)
        (same_session o r b sid x spells (member_of_All _ w.tables.rows x good.named m)
          (eq_of_text_eq x.session_name sid k))
        m

  by_fate :
      (f : Fate) (w' : World R) (v : Triple)
      → (run net
          (downstream postgres (
              rows_reply (select_reply f (keep (has_session sid) w.tables.rows)) >>= λ found.
              ret (first_row found))
            >>= after_row)
          w').0
        ≡ ok v
      → (f ≡ done) × Bound sid (o, r, b) w
  unfolding run
  by_fate done w' v h =
      (refl, first_Bound (first_row (keep (has_session sid) w.tables.rows)) w' v refl h)
  by_fate refused w' v h = cc
  by_fate unacked w' v h = cc

  row_needed :
      (v : Triple)
      → (run net (resolve_row sid) w).0 ≡ ok v
      → (fate_now w.fates ≡ done) × Bound sid (o, r, b) w
  unfolding resolve_row run perform Store.get_row_by_session
  row_needed v h = by_fate (fate_now w.fates) (read_once w) v h

  -- A resolution by what the cache answers.
  abbrev by_hit : Option Triple → Prog Triple
  by_hit hit = elim hit [ some t ↦ ret t | none ↦ resolve_row sid ]

  answers_known :
      (hit : Option Triple)
      → Cache.get w.now sid w.cache ≡ hit
      → IsKnown sid o r b w
      → (v : Triple) × ((run net (by_hit hit) w).0 ≡ ok v)
  unfolding run
  answers_known (some t) e k = (t, refl)
  answers_known none e (inl (t, q)) = cc
  answers_known none e (inr (answers, bound)) = row_found answers bound

  known_of_answer :
      (hit : Option Triple) (v : Triple)
      → Cache.get w.now sid w.cache ≡ hit
      → (run net (by_hit hit) w).0 ≡ ok v
      → IsKnown sid o r b w
  unfolding run
  known_of_answer (some t) v e h = inl (t, e)
  known_of_answer none v e h = inr (row_needed v h)

  answered : IsKnown sid o r b w → (v : Triple) × ((run net (resolve_session sid) w).0 ≡ ok v)
  unfolding resolve_session run perform perform_cache
  answered k = answers_known (Cache.get w.now sid w.cache) refl k

  known : (v : Triple) → (run net (resolve_session sid) w).0 ≡ ok v → IsKnown sid o r b w
  unfolding resolve_session run perform perform_cache
  known v h = known_of_answer (Cache.get w.now sid w.cache) v refl h

  -- In a consistent world, for a session whose name parses: if the cache has an entry of the session that is
  -- not expired, with or without a row behind it, or if the database answers a read and the session has its
  -- row, then the resolution succeeds with the workspace that the name spells; and in every other case it is
  -- an error, so that a success has that workspace and one of the two reasons.
  pub resolve_session-exact :
      (IsKnown sid o r b w → (run net (resolve_session sid) w).0 ≡ ok (o, r, b))
      × ((v : Triple)
          → (run net (resolve_session sid) w).0 ≡ ok v
          → (v ≡ (o, r, b)) × IsKnown sid o r b w)
  resolve_session-exact =
      (λ k. let (v, e) = answered k in e ∙ ap ok (exact v e), λ v e. (exact v e, known v e))
