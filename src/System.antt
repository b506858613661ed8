-- ===== src/System.antt =====
-- The whole server: main.go starts the event handler, the reconciler, the hook, the HTTP surface and
-- the tools over one store and one cache. Each call is one step, and the steps of the programs that
-- run at the same time interleave in any order, with steps of the world outside.
pub mod Invariant
pub mod Fixture
pub mod LifecycleTests
pub mod Tests
pub mod ReconcilerTests
use repo_extension.Base.{ℕ, ◌≡◌, Bool, Option, List, [], ◌∷◌, ◌++◌}
use repo_extension.Base.Text.{Text, Lacks}
use repo_extension.Names.{Triple, colon}
use repo_extension.Json.{Fields}
use repo_extension.Effects.{Eff, Answer, Prog, ret, fail, call, ◌>>=◌, ◌>>◌}
use repo_extension.Effects.World.{Net, World, Fate, perform}
use repo_extension.Cache.{SessCache, new_sess_cache}
use repo_extension.Session.{resolve_session, publish_session_vars}
use repo_extension.Lifecycle.{LifecycleEvent, handle_lifecycle_event}
use repo_extension.Reconcile.{reconcile_once}
use repo_extension.Worksheets.{arg, on_call_hook}
use repo_extension.Tools.Host.{Host}
use repo_extension.Tools.Dispatch.{Tool, execute}
use repo_extension.Surface.{ensure_bookmark_session}
use repo_extension.Worksheets.Keeping.{worksheet_args}

-- A program on the way; of a tool call, the session whose workspace it is about to resolve.
pub data Task : Type 0 where
  background : Prog Unit → Task
  resolving : Text → Prog Triple → Task

-- What main.go starts: the event handler, the reconciler, the hook, the HTTP route and the tools.
pub data Started : Task → Type 0 where
  on_lifecycle :
      (event : Text) (env : LifecycleEvent)
      → Started (background (handle_lifecycle_event event env))
  on_tick : Started (background reconcile_once)
  on_hook :
      (hook session : Text) (args : Fields)
      → Started (background (on_call_hook hook session args >> ret tt))
  on_ensure :
      (org repo bookmark : Text)
      → Started (background (ensure_bookmark_session org repo bookmark >> ret tt))
  on_call :
      (host : Host) (tool : Tool) (args : Fields) (call_id session : Text)
      → Started (background (execute host tool args call_id session >> ret tt))
  on_tool : (sid : Text) → Started (resolving sid (resolve_session sid))

-- A start with names that a session's name can spell, a condition that the source does not test: the
-- bookmark of a worksheet, the organization and the repository of the HTTP route, and the target of a tool
-- hold no colon.
abbrev pub IsPlain : {t : Task} → Started t → Type 0
IsPlain (on_lifecycle event env) = Unit
IsPlain on_tick = Unit
IsPlain (on_hook hook session args) = Lacks colon (arg (worksheet_args args) "bookmark")
IsPlain (on_ensure org repo bookmark) = Lacks colon org × Lacks colon repo
IsPlain (on_call host tool args call_id session) = Lacks colon (host.arg_string args "target")
IsPlain (on_tool sid) = Unit

pub record System (R : Type 0) : Type 0 where
  pub tasks : List Task
  pub world : World R

module _ {R : Type 0} (net : Net R) where
  -- One call of one task.
  pub data Turn (w : World R) : Task → Task → World R → Type 0 where
    background_turn :
        (e : Eff) (k : Answer e → Prog Unit)
        → Turn w (background (call e k)) (background (k (perform net e w).0)) (perform net e w).1
    resolving_turn :
        (sid : Text) (e : Eff) (k : Answer e → Prog Triple)
        → Turn w
            (resolving sid (call e k))
            (resolving sid (k (perform net e w).0))
            (perform net e w).1

  pub data Step (s u : System R) : Type 0 where
    start : (t : Task) → Started t → u ≡ record s { tasks = t ∷ s.tasks } → Step s u
    act :
        (before after : List Task) (t t' : Task) (w' : World R)
        → s.tasks ≡ before ++ (t ∷ after)
        → Turn s.world t t' w'
        → u ≡ record { tasks = before ++ (t' ∷ after); world = w' }
        → Step s u
    -- Time passes, other clients use the services, and the database connection has its fate.
    outside :
        (now : ℕ) (fates : List Fate) (remote : R)
        → u ≡ record s { world = record s.world { now = now; fates = fates; remote = remote } }
        → Step s u
    -- The process dies wherever it stands and starts again: the tables remain.
    restart :
        (ttl : ℕ)
        → u ≡ record { tasks = []; world = record s.world { cache = new_sess_cache ttl } }
        → Step s u

  pub data Reach (s : System R) : System R → Type 0 where
    here : Reach s s
    next : {t u : System R} → Reach s t → Step t u → Reach s u

  -- What a step starts is plain.
  abbrev pub StartsPlain : {s u : System R} → Step s u → Type 0
  StartsPlain (start t h e) = IsPlain h
  StartsPlain (act before after t t' w' es turn e) = Unit
  StartsPlain (outside now fates remote e) = Unit
  StartsPlain (restart ttl e) = Unit

  abbrev pub AllPlain : {s u : System R} → Reach s u → Type 0
  AllPlain here = Unit
  AllPlain (next r st) = AllPlain r × StartsPlain st
