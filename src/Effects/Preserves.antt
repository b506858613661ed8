-- ===== src/Effects/Preserves.antt =====
-- What a program keeps of the tables, shown from the statements that it may send.
use repo_extension.Effects.{
  Eff, http, select, exec, cache, ext, Exec, CacheCall, look_up, put_entry, evict_entry, Prog, ret,
  fail, call,
}
use repo_extension.Effects.Sound.{Sound}
use repo_extension.Effects.World.{
  Net, World, Fate, done, refused, unacked, perform, perform_exec, perform_cache, exec_tables,
  fate_now, run,
}
use repo_extension.Effects.Run.{AnyAnswer}
use repo_extension.Store.Tables.{Tables, apply_exec}
use repo_extension.Jjlab.Effect.{Any}

-- A program with fewer calls.
pub Sound-imply :
    {A : Type 0} (Few Many : Eff → Type 0) (m : Prog A)
    → ((e : Eff) → Few e → Many e)
    → Sound Few AnyAnswer Any m
    → Sound Many AnyAnswer Any m
Sound-imply Few Many (ret a) i h = tt
Sound-imply Few Many (fail e) i h = tt
Sound-imply Few Many (call e k) i h = (i e h.0, λ a r. Sound-imply Few Many (k a) i (h.1 a r))

module _ (I : Tables → Type 0) where
  exec_tables-I : (f : Fate) (old new : Tables) → I old → I new → I (exec_tables f old new)
  exec_tables-I done old new h k = k
  exec_tables-I refused old new h k = h
  exec_tables-I unacked old new h k = k

  module _ {R : Type 0} (net : Net R) where
    cache_keeps : (c : CacheCall) (w : World R) → I w.tables → I (perform_cache net c w).1.tables
    unfolding perform_cache
    cache_keeps (look_up _) w h = h
    cache_keeps (put_entry _ _) w h = h
    cache_keeps (evict_entry _) w h = h

    module _ (Allowed : Eff → Type 0)
        (statements : (s : Exec) (t : Tables) → Allowed (exec s) → I t → I (apply_exec s t).1) where
      perform_keeps :
          (e : Eff) (w : World R) → Allowed e → I w.tables → I (perform net e w).1.tables
      unfolding perform perform_exec
      perform_keeps (exec s) w a h =
          exec_tables-I (fate_now w.fates) w.tables (apply_exec s w.tables).1 h
            (statements s w.tables a h)
      perform_keeps (http s q) w a h = h
      perform_keeps (select q) w a h = h
      perform_keeps (cache c) w a h = cache_keeps c w h
      perform_keeps (ext c) w a h = h

      -- A program of allowed calls keeps what each allowed statement keeps, done or not.
      pub run_keeps :
          {A : Type 0} (m : Prog A) (w : World R)
          → Sound Allowed AnyAnswer Any m
          → I w.tables
          → I (run net m w).1.tables
      unfolding run
      run_keeps (ret a) w h k = k
      run_keeps (fail e) w h k = k
      run_keeps (call e f) w h k =
          run_keeps (f (perform net e w).0) (perform net e w).1 (h.1 (perform net e w).0 tt)
            (perform_keeps e w h.0 k)
