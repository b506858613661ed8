-- ===== src/Tools/Effect/Quiet.antt =====
-- What the tools that only read call (tools.go).
use repo_extension.Base.{◌≡◌, refl}
use repo_extension.Base.Text.{Text}
use repo_extension.Json.{Fields}
use repo_extension.Effects.{
  Eff, http, select, exec, cache, ext, get, ExtCall, get_env, get_session_variable,
}
use repo_extension.Effects.Run.{AnyAnswer}
use repo_extension.Effects.Sound.{Sound}
use repo_extension.Jjlab.Effect.{Any}
use repo_extension.Session.Calls.{resolve_session-Sound}
use repo_extension.Tools.Host.{Host}
use repo_extension.Tools.Dispatch.{Tool, execute}
use repo_extension.Tools.Effect.{Policy}
use repo_extension.Tools.Effect.Execute.{IsReader, reader-IsSafe}

abbrev IsQuestion : ExtCall → Type 0
IsQuestion (get_env _) = Unit
IsQuestion (get_session_variable _ _) = Unit
IsQuestion _ = ⊥

-- A GET, a query, a call of the cache, or the reading of a variable.
abbrev pub IsQuiet : Eff → Type 0
IsQuiet (http server q) = q.method ≡ get
IsQuiet (select q) = Unit
IsQuiet (exec x) = ⊥
IsQuiet (cache c) = Unit
IsQuiet (ext c) = IsQuestion c

abbrev quiet : Policy
quiet = record {
  Allowed = IsQuiet;
  Rely = AnyAnswer;
  asks_env = λ k. tt;
  asks_variable = λ s k. tt;
  lookups = λ server path. refl;
  Has = λ sid w. Unit;
  resolves = λ sid. resolve_session-Sound IsQuiet AnyAnswer (λ q. tt) sid tt (λ w. tt);
}

-- Whatever the services, the database and the cache answer, a call of one of the tools read, ls, grep,
-- explore, git-graph, git-diff, git-blame, git-log, git-show, mr-list and mr-view sends GET requests,
-- queries, cache calls and reads of variables alone: it executes no statement and publishes no message.
pub reader-Quiet :
    (host : Host) (tool : Tool) (args : Fields) (call_id sid : Text)
    → IsReader tool
    → Sound IsQuiet AnyAnswer Any (execute host tool args call_id sid)
reader-Quiet host tool args call_id sid h = (reader-IsSafe quiet host args call_id sid tool h).sound
