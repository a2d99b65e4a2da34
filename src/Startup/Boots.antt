-- ===== src/Startup/Boots.antt =====
-- The ways in which the start of cmd/glsync/main.go goes.
use glsync.Base.{ℕ, ◌+◌, text, List, true, false, none, some, ◌≡◌, ◌≢◌}
use glsync.Config.{Config, Setting, LoadError, load, validate, value_of, DatabaseConfig}
use glsync.Config
use glsync.Store.Pool.{
  PoolConfig, Pgxpool, PoolError, PoolResult, bad_url, not_created, no_answer, pool_settings,
}
use glsync.Store.Pool
use glsync.Startup.{Outside, wire, Boot, load_config, invalid_config, connect_to_database, wired}

-- Why there is no pool.
abbrev pub IsRefused : Pgxpool → DatabaseConfig → PoolError → Type 0
IsRefused pgx cfg bad_url = pgx.parse_config cfg.url ≡ none
IsRefused pgx cfg not_created =
    (p : PoolConfig) × ((pgx.parse_config cfg.url ≡ some p)
      × (pgx.new_with_config (pool_settings cfg p) ≡ false))
IsRefused pgx cfg no_answer =
    (p : PoolConfig) × ((pgx.parse_config cfg.url ≡ some p)
      × (pgx.new_with_config (pool_settings cfg p) ≡ true)
      × (pgx.ping (pool_settings cfg p) ≡ false))

-- A pool that is open has the settings, was created, and has been answered by the database.
data IsOpened (pgx : Pgxpool) (cfg : DatabaseConfig) (n : ℕ) : PoolResult → ℕ → Type 0 where
  opened :
      (p : PoolConfig)
      → pgx.parse_config cfg.url ≡ some p
      → pgx.new_with_config (pool_settings cfg p) ≡ true
      → pgx.ping (pool_settings cfg p) ≡ true
      → IsOpened pgx cfg n (Pool.ok (pool_settings cfg p)) (n + 1)
  failed : (x : PoolError) → IsRefused pgx cfg x → IsOpened pgx cfg n (Pool.err x) n

-- How the process has started, with the number of its open pools.
pub data IsBooted (o : Outside) : Boot → ℕ → Type 0 where
  not_loaded :
      (x : LoadError) → load o.source o.config_path ≡ Config.err x → IsBooted o (load_config x) 0
  refused :
      (cfg : Config) (missing : List Setting)
      → load o.source o.config_path ≡ Config.ok cfg
      → validate cfg ≡ some missing
      → IsBooted o (invalid_config missing) 0
  no_pool :
      (cfg : Config) (x : PoolError)
      → load o.source o.config_path ≡ Config.ok cfg
      → ((s : Setting) → value_of s cfg ≢ text "")
      → IsRefused o.pgx cfg.database x
      → IsBooted o (connect_to_database x) 0
  started :
      (cfg : Config) (p : PoolConfig)
      → load o.source o.config_path ≡ Config.ok cfg
      → ((s : Setting) → value_of s cfg ≢ text "")
      → o.pgx.parse_config cfg.database.url ≡ some p
      → o.pgx.new_with_config (pool_settings cfg.database p) ≡ true
      → o.pgx.ping (pool_settings cfg.database p) ≡ true
      → IsBooted o (wired (wire o cfg (pool_settings cfg.database p))) 1
