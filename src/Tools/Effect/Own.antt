-- ===== src/Tools/Effect/Own.antt =====
-- What a tool calls, against the workspace of its session (tools.go).
use repo_extension.Base.Text.{Text}
use repo_extension.Names.{naming_session}
use repo_extension.Json.{Fields}
use repo_extension.Effects.{
  Eff, http, select, exec, cache, ext, ExtCall, get_env, get_session_variable, publish_prose,
  random_id, CacheCall, look_up, put_entry, Exec, insert_row, MapRow, jjlab,
}
use repo_extension.Effects.Sound.{Sound, Sound-both}
use repo_extension.Discipline
use repo_extension.Jjlab.Effect.{Any}
use repo_extension.Session.{mapping, resolve_session}
use repo_extension.Session.Calls.{resolve_session-Sound, adopt_bookmark-Sound}
use repo_extension.Session.Resolve.{Spells, resolve_session-Keeps}
use repo_extension.Tools.Host.{Host}
use repo_extension.Tools.Dispatch.{Tool, execute}
use repo_extension.Tools.Effect.{Policy, safe}
use repo_extension.Tools.Effect.Requests.{IsOwn, reads, opens, Grants}
use repo_extension.Tools.Effect.Execute.{execute-IsSafe}

-- The row that an adoption binds: the bookmark `target` in the session's own repository.
pub data IsBeside (sid target : Text) : MapRow → Type 0 where
  beside :
      (o r b : Text)
      → Spells sid (o, r, b)
      → IsBeside sid target (mapping o r target (naming_session o r target))

abbrev IsOwnExec : Text → Text → Exec → Type 0
IsOwnExec sid target (insert_row row) = IsBeside sid target row
IsOwnExec sid target _ = ⊥

abbrev IsCaching : CacheCall → Type 0
IsCaching (look_up _) = Unit
IsCaching (put_entry _ _) = Unit
IsCaching _ = ⊥

abbrev IsSpeech : ExtCall → Type 0
IsSpeech (get_env _) = Unit
IsSpeech (get_session_variable _ _) = Unit
IsSpeech (publish_prose _ _ _ _ _) = Unit
IsSpeech random_id = Unit
IsSpeech _ = ⊥

-- What a tool of the session `sid` may call: the requests of IsOwn, queries, the binding of `target`,
-- the filling of the cache, and messages.
abbrev pub IsOwnCall : Text → Text → Eff → Type 0
IsOwnCall sid target (http server q) = IsOwn sid server q
IsOwnCall sid target (select q) = Unit
IsOwnCall sid target (exec x) = IsOwnExec sid target x
IsOwnCall sid target (cache c) = IsCaching c
IsOwnCall sid target (ext c) = IsSpeech c

module _ (sid target : Text) where
  abbrev own : Policy
  own = record {
    Allowed = IsOwnCall sid target;
    Rely = Discipline.Rely;
    asks_env = λ k. tt;
    asks_variable = λ s k. tt;
    lookups = λ server path. reads server path;
    Has = Spells;
    resolves = λ s.
        Sound-both Discipline.Allowed (IsOwnCall sid target) Discipline.Rely Any (Spells s)
          (resolve_session s) (resolve_session-Keeps s)
          (resolve_session-Sound (IsOwnCall sid target) Discipline.Rely (λ q. tt) s tt (λ w. tt));
  }

  own-Grants : Grants own sid target
  own-Grants = record {
    knows = λ w h. h;
    sends = λ server q h. h;
    tells = λ to kind body key m. tt;
    draws = tt;
    adopts = λ o r b h. safe own _ (
        adopt_bookmark-Sound (IsOwnCall sid target) Discipline.Rely (λ q. tt) o r target
          (reads jjlab) (opens o r b target h) (beside o r b h));
  }

-- Where each row that the database answers and each entry of the cache binds a session to the workspace
-- that its name spells, every call of every tool is its session's own: of the requests that are no GET,
-- a commit goes to the session's own bookmark, a rebase onto it, a merge request comes from it, reviews
-- and new states are for merge requests of its repository, and a session is opened for the bookmark
-- `target` of its repository; the one row that may be written binds that bookmark; no row, entry or
-- variable is deleted or renamed.
pub execute-Own :
    (host : Host) (tool : Tool) (args : Fields) (call_id sid : Text)
    → Sound
        (IsOwnCall sid (host.arg_string args "target"))
        Discipline.Rely
        Any
        (execute host tool args call_id sid)
execute-Own host tool args call_id sid =
    (execute-IsSafe (own sid (host.arg_string args "target")) host args call_id sid
      (own-Grants sid (host.arg_string args "target")) tool).sound
