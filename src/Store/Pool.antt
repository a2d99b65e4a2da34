-- ===== src/Store/Pool.antt =====
-- internal/store/postgres.go. The package pgxpool is a parameter.
use glsync.Base.{ℕ, ◌*◌, Text, Bool, Option, none, some, if◌then◌else◌, ◌+◌, ◌-◌}
use glsync.Config.{DatabaseConfig, minute}

pub record PoolConfig : Type 0 where
  pub dsn : Text
  pub max_conns : ℕ
  pub min_conns : ℕ
  pub max_conn_lifetime : ℕ
  pub max_conn_idle_time : ℕ
  pub health_check_period : ℕ

-- What pgxpool answers: a URL is parsed or refused, a pool is created or not, the database answers or not.
pub record Pgxpool : Type 0 where
  pub parse_config : Text → Option PoolConfig
  pub new_with_config : PoolConfig → Bool
  pub ping : PoolConfig → Bool

pub data PoolError : Type 0 where
  bad_url not_created no_answer : PoolError

pub data PoolResult : Type 0 where
  ok : PoolConfig → PoolResult
  err : PoolError → PoolResult

abbrev pub hour : ℕ
hour = 60 * minute

-- The settings of `cfg` and of the program over those that the URL has.
abbrev pub pool_settings : DatabaseConfig → PoolConfig → PoolConfig
pool_settings cfg p = record p {
  max_conns = cfg.max_connections;
  min_conns = cfg.min_connections;
  max_conn_lifetime = 1 * hour;
  max_conn_idle_time = 30 * minute;
  health_check_period = 1 * minute;
}

-- A result, and how many pools are open: a pool whose `Ping` fails is closed again.
unfoldable pub connect : Pgxpool → PoolConfig → ℕ → PoolResult × ℕ
connect pgx p n =
    if pgx.new_with_config p
    then (if pgx.ping p then (ok p, n + 1) else (err no_answer, n + 1 - 1))
    else (err not_created, n)

unfoldable pub configured : Pgxpool → DatabaseConfig → Option PoolConfig → ℕ → PoolResult × ℕ
unfolding connect
configured pgx cfg none n = (err bad_url, n)
configured pgx cfg (some p) n = connect pgx (pool_settings cfg p) n

unfoldable pub new_pool : Pgxpool → DatabaseConfig → ℕ → PoolResult × ℕ
unfolding configured
new_pool pgx cfg n = configured pgx cfg (pgx.parse_config cfg.url) n
