-- ===== src/Discipline/Perform.antt =====
-- A call under the discipline, and a program that runs alone.
use repo_extension.Base.{
  ℕ, ◌≡◌, not, some, List, [], ◌∷◌, Bool-cases, inl, inr, some_inj, Option-cases, ltb,
}
use mathlib.Core.Path.{subst}
use repo_extension.Base.Text.{Text, text_eq, eq_of_text_eq}
use repo_extension.Base.Lists.{All, All-keep}
use repo_extension.Names.{parse_session}
use repo_extension.Errs.{Result, ok, err}
use repo_extension.Effects.{
  MapRow, Select, Exec, Eff, http, select, exec, cache, ext, CacheCall, look_up, put_entry,
  evict_entry, Prog, ret, fail, call,
}
use repo_extension.Effects.World.{
  Net, World, Fate, done, refused, unacked, fate_now, select_reply, exec_tables, perform,
  perform_exec, perform_cache, run,
}
use repo_extension.Store.Tables.{Tables, query, apply_exec}
use repo_extension.Store.Unique.{Unique, apply_exec-Unique}
use repo_extension.Cache
use repo_extension.Cache.{SessEntry, SessCache, find_entry}
use repo_extension.Discipline.{
  IsNamed, IsNamedEntry, Allowed, AllowedExec, AllowedCache, Rely, RowsFit, Fits, Hit, Keeps,
  IsConsistent,
}
use repo_extension.Discipline.Rows.{IsReordering, query-Fits, apply_exec-IsNamed}

find_entry-named :
    (sid : Text) (m : List SessEntry) (e : SessEntry)
    → All IsNamedEntry m
    → find_entry sid m ≡ some e
    → parse_session sid ≡ some e.triple
unfolding find_entry
find_entry-named sid [] e n h = cc
find_entry-named sid (x ∷ m) e n h = elim (Bool-cases (text_eq x.sid sid)) [
  | inl b ↦
      let same : parse_session sid ≡ some x.triple = rw (eq_of_text_eq x.sid sid b) at n.0 in
      subst (λ y. parse_session sid ≡ some y.triple) (some_inj x e (rw b at h)) same
  | inr b ↦ find_entry-named sid m e n.1 (rw b at h)
]

select_reply-RowsFit :
    (f : Fate) (q : Select) (rows : List MapRow)
    → All (Fits q) rows
    → RowsFit q (select_reply f rows)
select_reply-RowsFit done q rows h = h
select_reply-RowsFit refused q rows h = tt
select_reply-RowsFit unacked q rows h = tt

exec_tables_rows :
    (P : List MapRow → Type 0) (f : Fate) (old new : Tables)
    → P old.rows
    → P new.rows
    → P (exec_tables f old new).rows
exec_tables_rows P done old new h k = k
exec_tables_rows P refused old new h k = h
exec_tables_rows P unacked old new h k = k

get-Hit :
    (now : ℕ) (sid : Text) (c : SessCache)
    → All IsNamedEntry c.m
    → Hit (look_up sid) (Cache.get now sid c)
unfolding Cache.get
get-Hit now sid c n = elim (Option-cases (find_entry sid c.m)) [
  | inl e ↦ rw (e, Cache.get) tt
  | inr (x, e) ↦ elim (Bool-cases (ltb x.exp now)) [
    | inl b ↦ rw (e, Cache.get, b) tt
    | inr b ↦ rw (e, Cache.get, b) (find_entry-named sid c.m x n e)
  ]
]

module _ {R : Type 0} (net : Net R) (reorders : IsReordering net.order) where
  perform_cache-IsConsistent :
      (c : CacheCall) (w : World R)
      → AllowedCache c
      → IsConsistent w
      → IsConsistent (perform_cache net c w).1 × Hit c (perform_cache net c w).0
  unfolding perform_cache
  perform_cache-IsConsistent (look_up sid) w a i = (i, get-Hit w.now sid w.cache i.cached)
  perform_cache-IsConsistent (put_entry sid v) w a i = (
    record {
      named = i.named;
      unique = i.unique;
      cached = (a, All-keep IsNamedEntry (λ e. not (text_eq e.sid sid)) w.cache.m i.cached);
    },
    tt,
  )
  perform_cache-IsConsistent (evict_entry sid) w a i = (
    record {
      named = i.named;
      unique = i.unique;
      cached = All-keep IsNamedEntry (λ e. not (text_eq e.sid sid)) w.cache.m i.cached;
    },
    tt,
  )

  perform_exec-IsConsistent :
      (x : Exec) (w : World R)
      → AllowedExec x
      → IsConsistent w
      → IsConsistent (perform_exec net x w).1
  unfolding perform_exec
  perform_exec-IsConsistent x w a i =
      let t = (apply_exec x w.tables).1 in
      record {
        named =
            exec_tables_rows (All IsNamed) (fate_now w.fates) w.tables t i.named
              (apply_exec-IsNamed x w.tables a i.named);
        unique =
            exec_tables_rows Unique (fate_now w.fates) w.tables t i.unique
              (apply_exec-Unique x w.tables i.unique);
        cached = i.cached;
      }

  -- A call that the discipline allows keeps the state consistent and is answered as relied upon.
  pub perform-IsConsistent :
      (e : Eff) (w : World R)
      → Allowed e
      → IsConsistent w
      → IsConsistent (perform net e w).1 × Rely e (perform net e w).0
  unfolding perform
  perform-IsConsistent (http s q) w a i =
      (record { named = i.named; unique = i.unique; cached = i.cached }, tt)
  perform-IsConsistent (select q) w a i = (
    record { named = i.named; unique = i.unique; cached = i.cached },
    select_reply-RowsFit (fate_now w.fates) q (query net.order q w.tables)
        (query-Fits net.order q w.tables reorders i.named),
  )
  perform-IsConsistent (exec x) w a i = (perform_exec-IsConsistent x w a i, tt)
  perform-IsConsistent (cache c) w a i = perform_cache-IsConsistent c w a i
  perform-IsConsistent (ext c) w a i =
      (record { named = i.named; unique = i.unique; cached = i.cached }, tt)

  abbrev pub Outcome : {A : Type 0} → (A → Type 0) → Result A → Type 0
  Outcome Q (ok a) = Q a
  Outcome Q (err e) = Unit

  -- A disciplined program that runs alone.
  pub run-Keeps :
      {A : Type 0} (Q : A → Type 0) (m : Prog A) (w : World R)
      → Keeps Q m
      → IsConsistent w
      → IsConsistent (run net m w).1 × Outcome Q (run net m w).0
  unfolding run
  run-Keeps Q (ret a) w h i = (i, h)
  run-Keeps Q (fail e) w h i = (i, tt)
  run-Keeps Q (call e k) w h i =
      let (i', r) = perform-IsConsistent e w h.0 i in
      run-Keeps Q (k (perform net e w).0) (perform net e w).1 (h.1 (perform net e w).0 r) i'
