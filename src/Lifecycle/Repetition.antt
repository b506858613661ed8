-- ===== src/Lifecycle/Repetition.antt =====
-- Deliveries of an event that the tables already show (events_sub.go: handleLifecycleEvent and the handlers
-- behind it).
use repo_extension.Base.{
  String, ◌≡◌, refl, ◌∙◌, ap, Bool, false, Option, none, some, List, [], ◌∷◌, inl, inr, Bool-cases,
  if◌then◌else◌,
}
use repo_extension.Base.Text.{Text, codes, text_eq, text_eq_refl}
use repo_extension.Base.Lists.{Member, any, keep}
use repo_extension.Names.{Triple, parse_session}
use repo_extension.Errs.{ok}
use repo_extension.Effects.{
  ExtCall, CacheCall, http, select, cache, ext, set_session_variable, delete_session_variables,
  look_up, put_entry, Eff, exec, MapRow, Select, row_at, row_by_session, Prog, ret, ◌>>=◌,
  downstream,
}
use repo_extension.Effects.Sound.{Sound, Sound-handle}
use repo_extension.Effects.World.{
  Net, World, run, perform, select_reply, fate_now, fates_next, done,
}
use repo_extension.Effects.Run.{AnyAnswer, run-bind_ok}
use repo_extension.Effects.Preserves.{run_keeps}
use repo_extension.Store
use repo_extension.Store.{first_row, rows_reply, scan_map_row}
use repo_extension.Store.Tables.{Tables, query, is_at, has_session}
use repo_extension.Jjlab.Effect.{Any}
use repo_extension.Session.{
  mapping, postgres, publish_session_vars, clear_session_vars, resolve_session,
}
use repo_extension.Session.Calls.{resolve_session-Sound}
use repo_extension.Lifecycle.{
  LifecycleEvent, strp, ensure_created, ensure_forked, ensure_renamed, ensure_deleted,
  rename_in_repo, rename_workspace, delete_workspace, mirror, projected, handle_lifecycle_event,
}
use repo_extension.Lifecycle.Redelivery.{found_run, read_once}

-- The tables show the event already: the session that was created or forked has its row; of a rename within
-- a repository, the old bookmark has no row and the new session has its own; a deleted session has no row.
pub data IsMirrored (t : Tables) (env : LifecycleEvent) : Text → Type 0 where
  created :
      (o r b : Text)
      → parse_session env.session_name ≡ some (o, r, b)
      → Member (mapping o r b env.session_name) t.rows
      → IsMirrored t env (codes "created")
  forked :
      (o r b : Text)
      → parse_session env.session_name ≡ some (o, r, b)
      → Member (mapping o r b env.session_name) t.rows
      → IsMirrored t env (codes "forked")
  renamed :
      (o r from_bm to_bm : Text)
      → parse_session (strp env.source) ≡ some (o, r, from_bm)
      → parse_session (strp env.destination) ≡ some (o, r, to_bm)
      → any (is_at o r from_bm) t.rows ≡ false
      → Member (mapping o r to_bm (strp env.destination)) t.rows
      → IsMirrored t env (codes "renamed")
  deleted :
      (o r b : Text)
      → parse_session env.session_name ≡ some (o, r, b)
      → any (has_session env.session_name) t.rows ≡ false
      → IsMirrored t env (codes "deleted")

-- The session variables that the event touches, behind the mirror.
abbrev pub variables : Text → LifecycleEvent → Prog Unit
variables event env =
    if text_eq event (codes "deleted")
    then clear_session_vars env.session_name
    else publish_session_vars (projected event env)

-- The world behind the reads of the mirror: two for a rename, and one otherwise.
abbrev pub behind_reads : {R : Type 0} → Text → World R → World R
behind_reads event w =
    if text_eq event (codes "renamed") then read_once (read_once w) else read_once w

first_row-absent :
    (p : MapRow → Bool) (rows : List MapRow) → any p rows ≡ false → first_row (keep p rows) ≡ none
first_row-absent p [] h = refl
first_row-absent p (x ∷ rows) h = elim (Bool-cases (p x)) [
  | inl e ↦ cc (rw e at h)
  | inr e ↦ rw e (first_row-absent p rows (rw e at h))
]

-- A look into the cache for the session `sid`, or a new entry of it.
pub data IsOwnEntry (sid : Text) : CacheCall → Type 0 where
  looks : IsOwnEntry sid (look_up sid)
  fills : (w : Triple) → IsOwnEntry sid (put_entry sid w)

-- A write or the removal of the variables of the session `sid`.
pub data IsOwnVariable (sid : Text) : ExtCall → Type 0 where
  writes : (name : String) (v : Text) → IsOwnVariable sid (set_session_variable sid name v)
  clears : IsOwnVariable sid (delete_session_variables sid)

-- A call that treats the variables of the session `sid`.
abbrev pub IsVariableCall : Text → Eff → Type 0
IsVariableCall sid (http server q) = ⊥
IsVariableCall sid (select q) = Unit
IsVariableCall sid (exec x) = ⊥
IsVariableCall sid (cache c) = IsOwnEntry sid c
IsVariableCall sid (ext c) = IsOwnVariable sid c

abbrev pub Treats : {A : Type 0} → Text → Prog A → Type 0
Treats sid m = Sound (IsVariableCall sid) AnyAnswer Any m

publish-Treats : (sid : Text) → Treats sid (publish_session_vars sid)
unfolding publish_session_vars
publish-Treats sid =
    Sound-handle (IsVariableCall sid) AnyAnswer Any Any (resolve_session sid) _ _
      (resolve_session-Sound (IsVariableCall sid) AnyAnswer (λ q. tt) sid looks fills)
      (λ (o, r, b) _.
        (writes "org" o, λ _ _. (writes "repo" r, λ _ _. (writes "bookmark" b, λ _ _. tt))))
      (λ e. tt)

variables-Treats :
    (t : Tables) (event : Text) (env : LifecycleEvent)
    → IsMirrored t env event
    → Treats (projected event env) (variables event env)
unfolding projected clear_session_vars text_eq
variables-Treats t _ env (created o r b h m) = publish-Treats env.session_name
variables-Treats t _ env (forked o r b h m) = publish-Treats (projected (codes "forked") env)
variables-Treats t _ env (renamed o r f to hs hd gone m) =
    publish-Treats (projected (codes "renamed") env)
variables-Treats t _ env (deleted o r b h gone) = (clears, λ _ _. tt)

within_repo :
    (o r from_bm to_bm source dest : Text)
    → parse_session source ≡ some (o, r, from_bm)
    → parse_session dest ≡ some (o, r, to_bm)
    → ensure_renamed source dest ≡ rename_in_repo (o, r, from_bm) (o, r, to_bm) source dest
unfolding ensure_renamed rename_workspace
within_repo o r from_bm to_bm source dest hs hd =
    rw (hs, ensure_renamed, hd, rename_workspace, text_eq_refl o, text_eq_refl r) refl

of_workspace :
    (o r b sid : Text)
    → parse_session sid ≡ some (o, r, b)
    → ensure_deleted sid ≡ delete_workspace (o, r, b) sid
unfolding ensure_deleted
of_workspace o r b sid hs = rw (hs, ensure_deleted) refl

module _ {R : Type 0} (net : Net R) where
  -- A query for one row that the database answers.
  scan_run :
      {B : Type 0} (q : Select) (row : Option MapRow) (f : Option MapRow → Prog B) (w : World R)
      → fate_now w.fates ≡ done
      → first_row (query net.order q w.tables) ≡ row
      → run net (downstream postgres (scan_map_row q) >>= f) w ≡ run net (f row) (read_once w)
  unfolding run perform
  scan_run q row f w answers e =
      ap
        (λ t.
          run net
            (downstream postgres (
                rows_reply (select_reply t (query net.order q w.tables)) >>= λ found.
                ret (first_row found))
              >>= f)
            (read_once w))
        answers
      ∙ ap (λ x. run net (f x) (read_once w)) e

  created_idle :
      (o r b sid : Text) (w : World R)
      → fate_now w.fates ≡ done
      → Member (mapping o r b sid) w.tables.rows
      → run net (ensure_created o r b sid) w ≡ (ok tt, read_once w)
  unfolding ensure_created run
  created_idle o r b sid w answers m = (found_run net o r b sid w answers m _).1

  forked_idle :
      (o r b sid parent : Text) (w : World R)
      → fate_now w.fates ≡ done
      → Member (mapping o r b sid) w.tables.rows
      → run net (ensure_forked o r b sid parent) w ≡ (ok tt, read_once w)
  unfolding ensure_forked run
  forked_idle o r b sid parent w answers m = (found_run net o r b sid w answers m _).1

  renamed_idle :
      (o r from_bm to_bm source dest : Text) (w : World R)
      → fate_now w.fates ≡ done
      → fate_now (fates_next w.fates) ≡ done
      → parse_session source ≡ some (o, r, from_bm)
      → parse_session dest ≡ some (o, r, to_bm)
      → any (is_at o r from_bm) w.tables.rows ≡ false
      → Member (mapping o r to_bm dest) w.tables.rows
      → run net (ensure_renamed source dest) w ≡ (ok tt, read_once (read_once w))
  unfolding run rename_in_repo Store.get_row query
  renamed_idle o r from_bm to_bm source dest w first second hs hd gone m =
      ap (λ (p : Prog Unit). run net p w) (within_repo o r from_bm to_bm source dest hs hd)
      ∙ scan_run (row_at o r from_bm) none _ w first
          (first_row-absent (is_at o r from_bm) w.tables.rows gone)
      ∙ created_idle o r to_bm dest (read_once w) second m

  deleted_idle :
      (o r b sid : Text) (w : World R)
      → fate_now w.fates ≡ done
      → parse_session sid ≡ some (o, r, b)
      → any (has_session sid) w.tables.rows ≡ false
      → run net (ensure_deleted sid) w ≡ (ok tt, read_once w)
  unfolding delete_workspace Store.get_row_by_session query run
  deleted_idle o r b sid w answers hs gone =
      ap (λ (p : Prog Unit). run net p w) (of_workspace o r b sid hs)
      ∙ scan_run (row_by_session sid) none _ w answers
          (first_row-absent (has_session sid) w.tables.rows gone)

  mirror_idle :
      (event : Text) (env : LifecycleEvent) (w : World R)
      → IsMirrored w.tables env event
      → fate_now w.fates ≡ done
      → fate_now (fates_next w.fates) ≡ done
      → run net (mirror event env) w ≡ (ok tt, behind_reads event w)
  unfolding mirror text_eq
  mirror_idle _ env w (created o r b h m) first second =
      rw h (created_idle o r b env.session_name w first m)
  mirror_idle _ env w (forked o r b h m) first second =
      rw h (forked_idle o r b env.session_name (strp env.parent) w first m)
  mirror_idle _ env w (renamed o r f t hs hd gone m) first second =
      renamed_idle o r f t (strp env.source) (strp env.destination) w first second hs hd gone m
  mirror_idle _ env w (deleted o r b h gone) first second =
      deleted_idle o r b env.session_name w first h gone

  behind_reads-tables : (event : Text) (w : World R) → (behind_reads event w).tables ≡ w.tables
  behind_reads-tables event w = elim (Bool-cases (text_eq event (codes "renamed"))) [
    | inl e ↦ rw e refl
    | inr e ↦ rw e refl
  ]

  -- When the tables already show an event, and the database answers the next two calls: the handler runs as
  -- the treatment of the session variables alone, behind one read of the table (two for a rename); every call
  -- of that treatment, whatever is answered, is a query, a look into the cache or a new entry for the session
  -- that the event is about, or a write or the removal of its variables; and the tables are unchanged at the
  -- end.
  pub handle_lifecycle_event-again :
      (event : Text) (env : LifecycleEvent) (w : World R)
      → IsMirrored w.tables env event
      → fate_now w.fates ≡ done
      → fate_now (fates_next w.fates) ≡ done
      → (run net (handle_lifecycle_event event env) w
          ≡ run net (variables event env) (behind_reads event w))
        × Treats (projected event env) (variables event env)
        × ((run net (handle_lifecycle_event event env) w).1.tables ≡ w.tables)
  unfolding handle_lifecycle_event
  handle_lifecycle_event-again event env w m first second =
      let e =
        run-bind_ok net (mirror event env) (λ _. variables event env) w (behind_reads event w) tt
          (mirror_idle event env w m first second) in
      let treats = variables-Treats w.tables event env m in
      (
        e,
        treats,
        ap (λ x. x.1.tables) e
            ∙ run_keeps (λ t. t ≡ w.tables) net (IsVariableCall (projected event env))
                (λ s t a h. absurd a) (variables event env) (behind_reads event w) treats
                (behind_reads-tables event w),
      )
