-- ===== src/Session/Binding.antt =====
-- What binding and looking up a session do to the tables (sessions_http.go: bindRow).
use mathlib.Core.Path.{subst}
use repo_extension.Base.{
  ◌≡◌, ◌≢◌, refl, sym, ◌∙◌, ap, Bool, true, Option, some, List, [], ◌∷◌, ◌++◌, if◌then◌else◌, ◌==◌,
  inl, inr, Bool-cases, some_inj,
}
use repo_extension.Base.Text.{Text, eq_of_text_eq}
use repo_extension.Base.Lists.{All, Member, any, keep}
use repo_extension.Names.{Triple, parse_session}
use repo_extension.Names.Bijection.{parse_session-injective}
use repo_extension.Errs.{Message, ok, status_of, err_downstream}
use repo_extension.Effects.{
  MapRow, Select, row_by_session, Prog, ret, fail, handle, ◌>>=◌, downstream, ExecReply, affected,
  unique_violation, exec_failed, insert_managed,
}
use repo_extension.Effects.World.{
  Net, World, Fate, done, refused, unacked, fate_now, fates_next, select_reply,
  exec_reply as exec_reply_of, exec_tables, lost, perform, perform_exec, run,
}
use repo_extension.Effects.Run.{Ends}
use repo_extension.Store
use repo_extension.Store.{first_row, scan_map_row, rows_reply, exec_reply, insert_reply}
use repo_extension.Store.Tables.{
  Tables, query, clashes, is_at, has_session, in_repo, apply_insert, apply_exec,
}
use repo_extension.Store.Unique.{is_at-inv}
use repo_extension.Discipline.{IsNamed}
use repo_extension.Discipline.Rows.{member_of_All}
use repo_extension.Session.{postgres, mapping, bind_row}

-- The session has the row that its name spells.
abbrev pub Bound : {R : Type 0} → Text → Triple → World R → Type 0
Bound sid (o, r, b) w = Member (mapping o r b sid) w.tables.rows

mapping_of_fields :
    (o r b sid : Text) (x : MapRow)
    → x.org ≡ o
    → x.repo ≡ r
    → x.bookmark ≡ b
    → x.session_name ≡ sid
    → x ≡ mapping o r b sid
mapping_of_fields o r b sid x eo er eb es =
    λ i. record { org = eo i; repo = er i; bookmark = eb i; session_name = es i }

pub same_bookmark :
    (o r b sid : Text) (x : MapRow)
    → parse_session sid ≡ some (o, r, b)
    → IsNamed x
    → is_at o r b x ≡ true
    → x ≡ mapping o r b sid
same_bookmark o r b sid x h n c =
    let (eo, er, eb) = is_at-inv o r b x c in
    let named : parse_session x.session_name ≡ some (o, r, b) =
      n ∙ (λ i. some (eo i, er i, eb i)) in
    mapping_of_fields o r b sid x eo er eb (parse_session-injective x.session_name sid named h)

pub same_session :
    (o r b sid : Text) (x : MapRow)
    → parse_session sid ≡ some (o, r, b)
    → IsNamed x
    → x.session_name ≡ sid
    → x ≡ mapping o r b sid
same_session o r b sid x h n e =
    let t : ◌≡◌ {A = Option Triple} (some (x.org, x.repo, x.bookmark)) (some (o, r, b)) =
      sym n ∙ ap parse_session e ∙ h in
    mapping_of_fields o r b sid x (cc) (cc) (cc) e

-- A row that shares the bookmark or the session of the workspace is the workspace's row.
pub named-eq-mapping :
    (o r b sid : Text) (x : MapRow)
    → parse_session sid ≡ some (o, r, b)
    → IsNamed x
    → clashes (mapping o r b sid) x ≡ true
    → x ≡ mapping o r b sid
named-eq-mapping o r b sid x h n c = elim (Bool-cases (is_at o r b x)) [
  | inl e ↦ same_bookmark o r b sid x h n e
  | inr e ↦ same_session o r b sid x h n (eq_of_text_eq x.session_name sid (rw e at c))
]

pub any-Member :
    (p : MapRow → Bool) (rows : List MapRow)
    → any p rows ≡ true
    → (x : MapRow) × Member x rows × (p x ≡ true)
any-Member p [] h = cc
any-Member p (y ∷ rows) h = elim (Bool-cases (p y)) [
  | inl e ↦ (y, inl refl, e)
  | inr e ↦ let (x, m, k) = any-Member p rows (rw e at h) in (x, inr m, k)
]

pub Member-concat : (x : MapRow) (rows : List MapRow) → Member x (rows ++ x ∷ [])
Member-concat x [] = inl refl
Member-concat x (y ∷ rows) = inr (Member-concat x rows)

module _ {R : Type 0} (net : Net R) where
  after_select :
      (f : Fate) (rows : List MapRow) (row : Option MapRow) (w w' : World R)
      → run net
          (handle
            (rows_reply (select_reply f rows) >>= λ found. ret (first_row found))
            ret
            (λ e. fail (err_downstream postgres e)))
          w
        ≡ (ok row, w')
      → (row ≡ first_row rows) × (w' ≡ w)
  unfolding run
  after_select done rows row w w' h = (cc, cc)
  after_select refused rows row w w' h = (cc, cc)
  after_select unacked rows row w w' h = (cc, cc)

  -- A query for one row, when it succeeds, answers the first row and changes nothing but the fates.
  pub run-scan_map_row :
      (q : Select) (w w' : World R) (row : Option MapRow)
      → run net (downstream postgres (scan_map_row q)) w ≡ (ok row, w')
      → (row ≡ first_row (query net.order q w.tables))
        × (w' ≡ record w { fates = fates_next w.fates })
  unfolding run perform
  run-scan_map_row q w w' row h =
      after_select (fate_now w.fates) (query net.order q w.tables) row
        (record w { fates = fates_next w.fates }) w' h

  pub ends_exec_reply :
      (Q : Unit {0} → World R → Type 0) (x : ExecReply) (w : World R)
      → Q tt w
      → Ends net Q (run net (exec_reply x) w)
  unfolding run
  ends_exec_reply Q (affected n) w h = h
  ends_exec_reply Q unique_violation w h = tt
  ends_exec_reply Q (exec_failed m) w h = tt

  managed_rows : (o r : Text) (t : Tables) → (apply_exec (insert_managed o r) t).1.rows ≡ t.rows
  unfolding apply_exec
  managed_rows o r t = elim (Bool-cases (any (in_repo o r) t.managed)) [
    | inl e ↦ rw e
    | inr e ↦ rw e
  ]

  exec_tables_rows :
      (f : Fate) (old new : Tables) → new.rows ≡ old.rows → (exec_tables f old new).rows ≡ old.rows
  exec_tables_rows done old new e = e
  exec_tables_rows refused old new e = refl
  exec_tables_rows unacked old new e = e

  manage_keeps :
      (x : MapRow) (o r : Text) (w : World R)
      → Member x w.tables.rows
      → Ends net (λ _ w'. Member x w'.tables.rows) (run net (Store.insert_managed_repo o r) w)
  unfolding run perform perform_exec Store.insert_managed_repo
  manage_keeps x o r w m =
      ends_exec_reply (λ _ w'. Member x w'.tables.rows) _ _
        (subst (Member x)
          (sym (
            exec_tables_rows (fate_now w.fates) w.tables
              (apply_exec (insert_managed o r) w.tables).1 (managed_rows o r w.tables)))
          m)

  module _ (o r b sid : Text) (spells : parse_session sid ≡ some (o, r, b)) where
    abbrev after_reply : ExecReply → Prog Unit
    after_reply x =
        handle (insert_reply x) (λ _. Store.insert_managed_repo o r)
          (λ e. if status_of e == 409 then ret tt else fail e)

    after_reply_ends :
        (x : ExecReply) (w : World R)
        → (((m : Message) → x ≢ exec_failed m) → Bound sid (o, r, b) w)
        → Ends net (λ _ w'. Bound sid (o, r, b) w') (run net (after_reply x) w)
    unfolding run
    after_reply_ends (affected n) w h = manage_keeps (mapping o r b sid) o r w (h (λ m. cc))
    after_reply_ends unique_violation w h = h (λ m. cc)
    after_reply_ends (exec_failed m) w h = tt

    -- An INSERT that is acknowledged, as done or as a conflict, leaves the workspace bound.
    insert_binds :
        (f : Fate) (w : World R)
        → All IsNamed w.tables.rows
        → ((m : Message)
            → exec_reply_of f (apply_insert (mapping o r b sid) w.tables).0 ≢ exec_failed m)
        → Member
            (mapping o r b sid)
            (exec_tables f w.tables (apply_insert (mapping o r b sid) w.tables).1).rows
    unfolding apply_insert
    insert_binds refused w n h = absurd (h lost refl)
    insert_binds unacked w n h = absurd (h lost refl)
    insert_binds done w n h = elim (Bool-cases (any (clashes (mapping o r b sid)) w.tables.rows)) [
      | inl e ↦
          let (x, k, c) = any-Member (clashes (mapping o r b sid)) w.tables.rows e in
          let same =
            named-eq-mapping o r b sid x spells (member_of_All IsNamed w.tables.rows x n k) c in
          rw e (subst (λ y. Member y w.tables.rows) same k)
      | inr e ↦ rw e (Member-concat (mapping o r b sid) w.tables.rows)
    ]

    -- A binding that succeeds leaves the session bound, whether it wrote the row or met it.
    pub bind_row_ends :
        (w : World R)
        → All IsNamed w.tables.rows
        → Ends net (λ _ w'. Bound sid (o, r, b) w') (run net (bind_row o r b sid) w)
    unfolding run perform perform_exec bind_row Store.insert_mapping
    bind_row_ends w n = after_reply_ends _ _ (λ h. insert_binds (fate_now w.fates) w n h)

pub first_keep :
    (p : MapRow → Bool) (rows : List MapRow) (x : MapRow)
    → first_row (keep p rows) ≡ some x
    → Member x rows × (p x ≡ true)
first_keep p [] x h = cc
first_keep p (y ∷ rows) x h = elim (Bool-cases (p y)) [
  | inl e ↦
      let same : y ≡ x = some_inj y x (rw e at h) in (inl same, subst (λ z. p z ≡ true) same e)
  | inr e ↦ let (m, k) = first_keep p rows x (rw e at h) in (inr m, k)
]

module _ {R : Type 0} (net : Net R) where
  -- A row that the lookup by session answers shows that the session is bound.
  pub found_binds :
      (o r b sid : Text) (w w' : World R) (x : MapRow)
      → parse_session sid ≡ some (o, r, b)
      → All IsNamed w.tables.rows
      → run net (downstream postgres (Store.get_row_by_session sid)) w ≡ (ok (some x), w')
      → Bound sid (o, r, b) w'
  unfolding Store.get_row_by_session query
  found_binds o r b sid w w' x spells n h =
      let (e, same) = run-scan_map_row net (row_by_session sid) w w' (some x) h in
      let (m, k) = first_keep (has_session sid) w.tables.rows x (sym e) in
      let is_ours : x ≡ mapping o r b sid =
        same_session o r b sid x spells (member_of_All IsNamed w.tables.rows x n m)
          (eq_of_text_eq x.session_name sid k) in
      subst (λ u. Bound sid (o, r, b) u) (sym same) (subst (λ y. Member y w.tables.rows) is_ours m)

  -- A lookup leaves the tables alone.
  pub lookup_tables :
      (q : Select) (w w' : World R) (row : Option MapRow)
      → run net (downstream postgres (scan_map_row q)) w ≡ (ok row, w')
      → w'.tables ≡ w.tables
  lookup_tables q w w' row h = ap (λ (u : World R). u.tables) (run-scan_map_row net q w w' row h).1
