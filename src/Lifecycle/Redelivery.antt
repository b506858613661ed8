-- ===== src/Lifecycle/Redelivery.antt =====
-- The lookup by session in front of the handlers, when the session has its row (events_sub.go).
use repo_extension.Base.{
  ◌≡◌, refl, ◌∙◌, ap, true, Option, some, List, [], ◌∷◌, inl, inr, Bool-cases,
}
use repo_extension.Base.Text.{Text, text_eq_refl}
use repo_extension.Base.Lists.{Member, keep}
use repo_extension.Effects.{MapRow, Prog, ret, ◌>>=◌, downstream}
use repo_extension.Effects.World.{
  Net, World, run, perform, select_reply, fate_now, fates_next, done,
}
use repo_extension.Store
use repo_extension.Store.{first_row, rows_reply}
use repo_extension.Store.Tables.{has_session}
use repo_extension.Session.{mapping, postgres}
use repo_extension.Session.Binding.{Bound}

-- A session with a row is found.
Member-first :
    (sid : Text) (x : MapRow) (rows : List MapRow)
    → x.session_name ≡ sid
    → Member x rows
    → (y : MapRow) × (first_row (keep (has_session sid) rows) ≡ some y)
Member-first sid x [] e m = absurd m
Member-first sid x (y ∷ rows) e (inl q) =
    let h : has_session sid y ≡ true = rw (q, e) (text_eq_refl sid) in (y, rw h)
Member-first sid x (y ∷ rows) e (inr m) = elim (Bool-cases (has_session sid y)) [
  | inl k ↦ (y, rw k)
  | inr k ↦ rw k (Member-first sid x rows e m)
]

-- The world behind one database call that reads.
abbrev pub read_once : {R : Type 0} → World R → World R
read_once w = record w { fates = fates_next w.fates }

module _ {R : Type 0} (net : Net R) (o r b sid : Text) (w : World R)
    (answers : fate_now w.fates ≡ done) (bound : Bound sid (o, r, b) w) where
  pub found_run :
      {B : Type 0} (f : Option MapRow → Prog B)
      → (y : MapRow) × (run net (downstream postgres (Store.get_row_by_session sid) >>= f) w
          ≡ run net (f (some y)) (read_once w))
  unfolding run perform Store.get_row_by_session
  found_run f =
      let (y, e) = Member-first sid (mapping o r b sid) w.tables.rows refl bound in
      let rows : List MapRow = keep (has_session sid) w.tables.rows in
      (
        y,
        ap
              (λ t.
                run net
                  (downstream postgres
                      (rows_reply (select_reply t rows) >>= λ found. ret (first_row found))
                    >>= f)
                  (read_once w))
              answers
            ∙ ap (λ row. run net (f row) (read_once w)) e,
      )
