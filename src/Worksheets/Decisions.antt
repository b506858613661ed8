-- ===== src/Worksheets/Decisions.antt =====
-- Approvals of worksheets and the keys that they record (worksheets.go: onCallHook; pg.go:
-- ExecutedWorksheet).
use mathlib.Core.Path.{subst}
use repo_extension.Base.{
  ◌≡◌, sym, ◌∙◌, ap, true, List, [], ◌∷◌, ◌++◌, inl, inr, Bool-cases, Option-cases,
}
use repo_extension.Base.Text.{Text, text_eq, text_eq_refl}
use repo_extension.Base.Lists.{any}
use repo_extension.Errs.{format, ok, t}
use repo_extension.Json.{Fields}
use repo_extension.Effects.{
  Eff, Exec, exec, ExecReply, affected, insert_executed, insert_row, rename_row, delete_row,
  delete_rows_for_repo, insert_managed, delete_managed, http, select, cache, ext, look_up,
  put_entry, evict_entry, Prog, ret, fail, call, handle,
}
use repo_extension.Effects.World.{
  Net, World, Fate, done, refused, unacked, fate_now, fates_next, exec_reply as exec_reply_of,
  exec_tables, perform, perform_exec, perform_select, perform_cache, run,
}
use repo_extension.Store
use repo_extension.Store.{claim_reply}
use repo_extension.Store.Tables.{
  Tables, clashes, in_repo, find, is_at, others, moved, apply_exec, apply_insert, apply_rename,
}
use repo_extension.Lifecycle.Redelivery.{read_once}
use repo_extension.Worksheets.{Action, after_claim, approve, HookResponse, hook_ok, hook_internal}

abbrev pub Claimed : Text → Tables → Type 0
Claimed id t = any (text_eq id) t.executed ≡ true

any-append :
    (id : Text) (xs ys : List Text)
    → any (text_eq id) xs ≡ true
    → any (text_eq id) (xs ++ ys) ≡ true
any-append id [] ys h = cc
any-append id (x ∷ xs) ys h = elim (Bool-cases (text_eq id x)) [
  | inl e ↦ rw e
  | inr e ↦ rw e (any-append id xs ys (rw e at h))
]

any-concat : (id : Text) (xs : List Text) → any (text_eq id) (xs ++ id ∷ []) ≡ true
any-concat id [] = rw (text_eq_refl id)
any-concat id (x ∷ xs) = elim (Bool-cases (text_eq id x)) [
  | inl e ↦ rw e
  | inr e ↦ rw e (any-concat id xs)
]

executed-insert : (row : _) (t : Tables) → (apply_insert row t).1.executed ≡ t.executed
unfolding apply_insert
executed-insert row t = elim (Bool-cases (any (clashes row) t.rows)) [ inl e ↦ rw e | inr e ↦ rw e ]

executed-rename :
    (o r b c s : Text) (t : Tables) → (apply_rename o r b c s t).1.executed ≡ t.executed
unfolding apply_rename
executed-rename o r b c s t = elim (Option-cases (find (is_at o r b) t.rows)) [
  | inl e ↦ rw (e, apply_rename)
  | inr (x, e) ↦ elim (Bool-cases (any (clashes (moved c s x)) (others o r b t.rows))) [
    | inl k ↦ rw (e, apply_rename, k)
    | inr k ↦ rw (e, apply_rename, k)
  ]
]

-- No statement of the program forgets a worksheet.
apply_exec-Claimed :
    (id : Text) (x : Exec) (t : Tables) → Claimed id t → Claimed id (apply_exec x t).1
unfolding apply_exec
apply_exec-Claimed id (insert_row row) t h = rw (executed-insert row t) h
apply_exec-Claimed id (rename_row o r b c s) t h = rw (executed-rename o r b c s t) h
apply_exec-Claimed id (delete_row o r b) t h = h
apply_exec-Claimed id (delete_rows_for_repo o r) t h = h
apply_exec-Claimed id (insert_managed o r) t h = elim (Bool-cases (any (in_repo o r) t.managed)) [
  | inl e ↦ rw e h
  | inr e ↦ rw e h
]
apply_exec-Claimed id (delete_managed o r) t h = h
apply_exec-Claimed id (insert_executed k) t h = elim (Bool-cases (any (text_eq k) t.executed)) [
  | inl e ↦ rw e h
  | inr e ↦ rw e (any-append id t.executed (k ∷ []) h)
]

module _ {R : Type 0} (net : Net R) where
  exec_tables-Claimed :
      (id : Text) (f : Fate) (old new : Tables)
      → Claimed id old
      → Claimed id new
      → Claimed id (exec_tables f old new)
  exec_tables-Claimed id done old new h k = k
  exec_tables-Claimed id refused old new h k = h
  exec_tables-Claimed id unacked old new h k = k

  perform-Claimed :
      (id : Text) (e : Eff) (w : World R)
      → Claimed id w.tables
      → Claimed id (perform net e w).1.tables
  unfolding perform perform_exec perform_select perform_cache
  perform-Claimed id (exec x) w h =
      exec_tables-Claimed id (fate_now w.fates) w.tables (apply_exec x w.tables).1 h
        (apply_exec-Claimed id x w.tables h)
  perform-Claimed id (cache (look_up s)) w h = h
  perform-Claimed id (cache (put_entry s v)) w h = h
  perform-Claimed id (cache (evict_entry s)) w h = h
  perform-Claimed id (http s q) w h = h
  perform-Claimed id (select q) w h = h
  perform-Claimed id (ext c) w h = h

  run-Claimed :
      {A : Type 0} (id : Text) (m : Prog A) (w : World R)
      → Claimed id w.tables
      → Claimed id (run net m w).1.tables
  unfolding run
  run-Claimed id (ret a) w h = h
  run-Claimed id (fail e) w h = h
  run-Claimed id (call e k) w h =
      run-Claimed id (k (perform net e w).0) (perform net e w).1 (perform-Claimed id e w h)

  claim_tables : (id : Text) (t : Tables) → Claimed id (apply_exec (insert_executed id) t).1
  unfolding apply_exec
  claim_tables id t = elim (Bool-cases (any (text_eq id) t.executed)) [
    | inl e ↦ rw e e
    | inr e ↦ rw e (any-concat id t.executed)
  ]

  -- What runs behind the claim of an approval, given the answer of the database.
  abbrev behind_claim : Action → Text → Fields → ExecReply → Prog HookResponse
  behind_claim action target args r =
      handle (claim_reply r) (after_claim action target args)
        (λ _. ret (hook_internal (format "dedup check failed")))

  -- The first call of an approval claims the worksheet, whatever comes of the rest.
  approve-Claimed :
      (action : Action) (id target : Text) (args : Fields) (w : World R)
      → fate_now w.fates ≡ done
      → Claimed id (run net (approve action id target args) w).1.tables
  unfolding run perform perform_exec approve Store.executed_worksheet
  approve-Claimed action id target args w h =
      run-Claimed id
        (behind_claim action target args
          (exec_reply_of (fate_now w.fates) (apply_exec (insert_executed id) w.tables).0))
        (record w {
          tables =
              exec_tables (fate_now w.fates) w.tables (apply_exec (insert_executed id) w.tables).1;
          fates = fates_next w.fates;
        })
        (subst
          (λ f. Claimed id (exec_tables f w.tables (apply_exec (insert_executed id) w.tables).1))
          (sym h) (claim_tables id w.tables))

  Claimed-reply :
      (id : Text) (t : Tables) → Claimed id t → apply_exec (insert_executed id) t ≡ (affected 0, t)
  unfolding apply_exec
  Claimed-reply id t h = rw h

  again :
      (action : Action) (id target : Text) (args : Fields) (w : World R)
      → fate_now w.fates ≡ done
      → Claimed id w.tables
      → run net (approve action id target args) w ≡ (ok hook_ok, read_once w)
  unfolding run perform perform_exec approve Store.executed_worksheet after_claim
  again action id target args w h c =
      ap
        (λ f.
          run net
            (behind_claim action target args
              (exec_reply_of f (apply_exec (insert_executed id) w.tables).0))
            (record w {
              tables = exec_tables f w.tables (apply_exec (insert_executed id) w.tables).1;
              fates = fates_next w.fates;
            }))
        h
      ∙ ap
          (λ (x : ExecReply × Tables).
            run net (behind_claim action target args x.0)
              (record w { tables = x.1; fates = fates_next w.fates }))
          (Claimed-reply id w.tables c)

  -- Once the database has done the claim of an approval, a later approval of the same worksheet,
  -- with any action and arguments, whose one call the database does too answers success after
  -- that call: it calls no service and writes nothing. This holds however the first approval
  -- ended and whatever program ran alone in between.
  pub approve_once :
      {A : Type 0} (first second : Action) (id t1 t2 : Text) (args1 args2 : Fields)
      (between : Prog A) (w : World R)
      → fate_now w.fates ≡ done
      → fate_now (run net between (run net (approve first id t1 args1) w).1).1.fates ≡ done
      → run net
          (approve second id t2 args2)
          (run net between (run net (approve first id t1 args1) w).1).1
        ≡ (ok hook_ok, read_once (run net between (run net (approve first id t1 args1) w).1).1)
  approve_once first second id t1 t2 args1 args2 between w h k =
      again second id t2 args2 (run net between (run net (approve first id t1 args1) w).1).1 k (
        run-Claimed id between (run net (approve first id t1 args1) w).1
          (approve-Claimed first id t1 args1 w h))
