-- ===== src/Startup/Tests.antt =====
-- The start of the process in one environment.
use repo_extension.Base.{◌≡◌, refl, Option, some, arith}
use repo_extension.Base.Text.{Text, codes}
use repo_extension.Base.Int.{ℤ, pos}
use repo_extension.Startup.{Env, PgConfig, dsn, open_store, main, ticker_interval}
use repo_extension.Startup.Pools.{
  Boots, HasOpened, HasExited, nothing_seen, open_store-Boots, main-Boots,
}
use repo_extension.Startup.Interval.{ticker_interval-seconds}

abbrev config : PgConfig
config = record {
  host = codes "h";
  port = codes "5432";
  user = codes "u";
  password = codes "p";
  db = codes "d";
}

dsn_of_config : dsn config config.db ≡ codes "postgres://u:p@h:5432/d"
unfolding dsn
dsn_of_config = refl

open_store-Boots_example : Boots HasOpened (open_store config) nothing_seen
open_store-Boots_example = open_store-Boots config

-- Every variable is set to one text.
abbrev getenv : Env
getenv _ = codes "90"

main-Boots_example : Boots HasExited (main getenv) nothing_seen
main-Boots_example = main-Boots getenv

abbrev atoi : Text → Option ℤ
atoi _ = some (pos 90)

ticker_interval-seconds_example : ticker_interval getenv atoi ≡ pos 90_000_000_000
ticker_interval-seconds_example =
    ticker_interval-seconds getenv atoi 90 refl refl (omega arith) (omega arith)
