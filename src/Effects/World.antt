-- ===== src/Effects/World.antt =====
-- The state behind the calls, and what a call does to it: the tables and the cache are computed,
-- the HTTP servers and the message bus are a parameter, and any database call may fail.
use repo_extension.Base.{ℕ, Option, none, List, [], ◌∷◌}
use repo_extension.Names.{Triple}
use repo_extension.Errs.{Message, format, Result, ok, err}
use repo_extension.Effects.{
  Server, Request, HttpReply, Select, Exec, SelectReply, selected, select_failed, ExecReply,
  exec_failed, CacheCall, look_up, put_entry, evict_entry, ExtCall, ExtReply, Eff, http, select,
  exec, cache, ext, Answer, Prog, ret, fail, call, MapRow,
}
use repo_extension.Store.Tables.{Tables, query, apply_exec}
use repo_extension.Cache
use repo_extension.Cache.{SessCache}

-- What becomes of a database call: it is done, it is refused with no effect, or it takes effect and
-- the acknowledgement is lost.
pub data Fate : Type 0 where
  done refused unacked : Fate

-- The services, as functions of a state that only they know: jjlab and the agent over HTTP, the
-- extension SDK, and the order of ORDER BY.
pub record Net (R : Type 0) : Type 0 where
  pub http_call : Server → Request → R → HttpReply × R
  pub ext_call : ExtCall → R → ExtReply × R
  pub order : List MapRow → List MapRow

-- `fates` are the fates of the database calls to come; when it is used up, every call is done.
pub record World (R : Type 0) : Type 0 where
  pub tables : Tables
  pub cache : SessCache
  pub now : ℕ
  pub fates : List Fate
  pub remote : R

abbrev pub lost : Message
lost = format "connection lost"

abbrev pub fate_now : List Fate → Fate
fate_now [] = done
fate_now (f ∷ _) = f

abbrev pub fates_next : List Fate → List Fate
fates_next [] = []
fates_next (_ ∷ fs) = fs

abbrev pub select_reply : Fate → List MapRow → SelectReply
select_reply done rows = selected rows
select_reply refused rows = select_failed lost
select_reply unacked rows = select_failed lost

abbrev pub exec_reply : Fate → ExecReply → ExecReply
exec_reply done r = r
exec_reply refused r = exec_failed lost
exec_reply unacked r = exec_failed lost

abbrev pub exec_tables : Fate → Tables → Tables → Tables
exec_tables done old new = new
exec_tables refused old new = old
exec_tables unacked old new = new

module _ {R : Type 0} (net : Net R) where
  unfoldable pub perform_select : Select → World R → SelectReply × World R
  unfolding query
  perform_select q w = (
    select_reply (fate_now w.fates) (query net.order q w.tables),
    record w { fates = fates_next w.fates },
  )

  unfoldable pub perform_exec : Exec → World R → ExecReply × World R
  unfolding apply_exec
  perform_exec x w =
      let (r, t) = apply_exec x w.tables in
      (
        exec_reply (fate_now w.fates) r,
        record w { tables = exec_tables (fate_now w.fates) w.tables t; fates = fates_next w.fates },
      )

  unfoldable pub perform_cache : CacheCall → World R → Option Triple × World R
  unfolding Cache.get Cache.put Cache.evict
  perform_cache (look_up sid) w = (Cache.get w.now sid w.cache, w)
  perform_cache (put_entry sid triple) w =
      (none, record w { cache = Cache.put w.now sid triple w.cache })
  perform_cache (evict_entry sid) w = (none, record w { cache = Cache.evict sid w.cache })

  unfoldable pub perform : (e : Eff) → World R → Answer e × World R
  unfolding perform_select perform_exec perform_cache
  perform (http server request) w =
      let (r, s) = net.http_call server request w.remote in (r, record w { remote = s })
  perform (select q) w = perform_select q w
  perform (exec x) w = perform_exec x w
  perform (cache c) w = perform_cache c w
  perform (ext c) w = let (r, s) = net.ext_call c w.remote in (r, record w { remote = s })

  -- A program that runs alone.
  unfoldable pub run : {A : Type 0} → Prog A → World R → Result A × World R
  run (ret a) w = (ok a, w)
  run (fail e) w = (err e, w)
  run (call e k) w = let (r, w') = perform e w in run (k r) w'
