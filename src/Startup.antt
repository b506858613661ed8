-- ===== src/Startup.antt =====
-- The start of the process: pg.go (the private database is created and its pool opened), main.go and
-- envInt of helpers.go. The driver, the message bus and the extension SDK answer as they like, and the
-- environment is a function. Logging, signals and the contents of the manifest are not modelled.
pub mod Pools
pub mod Interval
mod Tests
use Prim.Native.Nat.{◌%◌}
use repo_extension.Base.{
  ℕ, String, ◌+◌, ◌-◌, ◌*◌, suc, Bool, true, false, Option, none, some, ◌++◌, ltb, if◌then◌else◌,
}
use repo_extension.Base.Text.{Text, codes, text_eq, is_empty}
use repo_extension.Base.Int.{ℤ, pos, negsuc, int64_limit, int64_size}
use repo_extension.Names.{env_normalize_port}
use repo_extension.Errs.{Message, format, ◌%v◌}
use repo_extension.Reconcile.{reconcile_interval}

-- The pool on the maintenance database, and the pool of the store.
pub data Pool : Type 0 where
  maintenance private : Pool

-- pgxpool.New, Ping, QueryRow and Exec on a pool and Close; natsbus.Connect, manifest.ParseManifest and
-- extension.Serve.
pub data StartCall : Type 0 where
  open_pool : Pool → Text → StartCall
  ping : Pool → StartCall
  find_database : Pool → Text → StartCall
  create_database : Pool → Text → StartCall
  apply_ddl : Pool → StartCall
  close_pool : Pool → StartCall
  connect_bus : Text → StartCall
  parse_manifest : StartCall
  serve : StartCall

-- A nil error, pgx.ErrNoRows, or an error with its SQLSTATE (empty for an error of another kind).
pub data Reply : Type 0 where
  succeeded no_rows : Reply
  failed : Text → Message → Reply

pub data Boot (A : Type 0) : Type 0 where
  finish : A → Boot A
  ask : StartCall → (Reply → Boot A) → Boot A

abbrev pub and_then : {A B : Type 0} → Boot A → (A → Boot B) → Boot B
and_then (finish a) f = f a
and_then (ask c k) f = ask c (λ r. and_then (k r) f)

-- PgConfig of pg.go.
pub record PgConfig : Type 0 where
  pub host : Text
  pub port : Text
  pub user : Text
  pub password : Text
  pub db : Text

unfoldable pub dsn : PgConfig → Text → Text
dsn c db =
    codes "postgres://"
    ++ c.user
    ++ codes ":"
    ++ c.password
    ++ codes "@"
    ++ c.host
    ++ codes ":"
    ++ c.port
    ++ codes "/"
    ++ db

abbrev no_rows_error : Message
no_rows_error = format "no rows in result set"

-- CREATE DATABASE; the error that it exists is success.
unfoldable pub created : PgConfig → Boot (Option Message)
created cfg = ask (create_database maintenance cfg.db) (elim [
  | succeeded ↦ finish none
  | no_rows ↦ finish (some no_rows_error)
  | failed code m ↦ finish (if text_eq code (codes "42P04") then none else some m)
])

-- The error of ensureDatabase. The switch returns for an error alone: a database that is there is
-- created again.
unfoldable pub ensure_database : PgConfig → Boot (Option Message)
unfolding dsn created
ensure_database cfg = ask (open_pool maintenance (dsn cfg (codes "postgres"))) (elim [
  | failed _ m ↦ finish (some m)
  | no_rows ↦ finish (some no_rows_error)
  | succeeded ↦
      and_then
        (ask (find_database maintenance cfg.db)
          (elim [ failed _ m ↦ finish (some m) | no_rows ↦ created cfg | succeeded ↦ created cfg ]))
        λ e. ask (close_pool maintenance) λ _. finish e
])

-- `if err != nil` for a call that is no query.
abbrev checked : {A : Type 0} → StartCall → (Message → Boot A) → Boot A → Boot A
checked c bad good =
    ask c (elim [ succeeded ↦ good | no_rows ↦ bad no_rows_error | failed _ m ↦ bad m ])

-- The store, or the error of OpenStore.
pub data Opened : Type 0 where
  store : Opened
  not_opened : Message → Opened

unfoldable pub migrate : Boot Opened
migrate =
    checked (apply_ddl private) (λ m. finish (not_opened (format "ddl: %w" %v m))) (finish store)

abbrev close_with : Message → Boot Opened
close_with m = ask (close_pool private) λ _. finish (not_opened m)

abbrev close_unless : Opened → Boot Opened
close_unless store = finish store
close_unless (not_opened m) = close_with m

unfoldable pub open_private : PgConfig → Boot Opened
unfolding dsn migrate
open_private cfg =
    checked (open_pool private (dsn cfg cfg.db))
      (λ m. finish (not_opened (format "pg connect: %w" %v m)))
      (checked (ping private) (λ m. close_with (format "pg ping: %w" %v m))
        (and_then migrate close_unless))

-- OpenStore: the error of ensureDatabase is only logged.
unfoldable pub open_store : PgConfig → Boot Opened
unfolding ensure_database open_private
open_store cfg = and_then (ensure_database cfg) λ _. open_private cfg

-- The addresses that main reads, with the token of jjlab.
pub record Setup : Type 0 where
  pub base : Text
  pub agent : Text
  pub token : Text

-- os.Getenv, empty where the variable is not set.
abbrev pub Env : Type 0
Env = String → Text

module _ (getenv : Env) where
  abbrev pub env_text : String → Text → Text
  env_text k d = if is_empty (getenv k) then d else getenv k

  unfoldable pub pg_config : PgConfig
  pg_config = record {
    host = env_text "POSTGRES_HOST" (codes "postgres.zergx.svc.cluster.local");
    port = env_normalize_port (env_text "POSTGRES_PORT" (codes "5432"));
    user = env_text "POSTGRES_USER" (codes "root");
    password = env_text "POSTGRES_PASSWORD" (codes "devpassword");
    db = env_text "POSTGRES_DB_REPOEXT" (codes "zergx_repoext");
  }

  -- `atoi` is strconv.Atoi.
  unfoldable pub env_int : (Text → Option ℤ) → String → ℤ → ℤ
  env_int atoi k d =
      if is_empty (getenv k) then d else elim (atoi (getenv k)) [ none ↦ d | some n ↦ n ]

  unfoldable pub setup : Setup
  setup = record {
    base =
        env_text "ZERGX_JJ_SERVER_URL"
          (env_text "ZERGX_REPO_MANAGER_URL" (codes "http://jj-lab.temp.svc.cluster.local:80"));
    agent = env_text "ZERGX_AGENT_URL" (codes "http://agent.zergx.svc.cluster.local:80");
    token = env_text "JJLAB_TOKEN" (env_text "ZERGX_JJLAB_TOKEN" (codes "devtoken"));
  }

  unfoldable pub nats_url : Text
  nats_url = env_text "NATS_URL" (codes "nats://nats.zergx.svc.cluster.local:4222")

  -- The exit code. os.Exit skips the deferred Close of the store.
  unfoldable pub serve_with : Opened → Boot ℕ
  unfolding nats_url
  serve_with (not_opened _) = finish 1
  serve_with store =
      checked (connect_bus nats_url) (λ _. finish 1)
        (checked parse_manifest (λ _. finish 1)
          (checked serve (λ _. finish 1) (ask (close_pool private) λ _. finish 0)))

  unfoldable pub main : Boot ℕ
  unfolding pg_config open_store serve_with
  main = and_then (open_store pg_config) serve_with

-- int64 arithmetic wraps around.
unfoldable pub of_word : ℕ → ℤ
unfolding int64_limit int64_size
of_word w = if ltb w int64_limit then pos w else negsuc (int64_size - w - 1)

-- time.Duration(n) * time.Second
unfoldable pub seconds : ℤ → ℤ
unfolding of_word int64_size
seconds (pos n) = of_word ((n * 1_000_000_000) % int64_size)
seconds (negsuc n) = of_word ((int64_size - (suc n * 1_000_000_000) % int64_size) % int64_size)

-- The interval of the ticker that runReconciler makes.
unfoldable pub ticker_interval : Env → (Text → Option ℤ) → ℤ
unfolding env_int seconds
ticker_interval getenv atoi =
    reconcile_interval (seconds (env_int getenv atoi "ZERGX_RECONCILE_INTERVAL_SECS" (pos 60)))
