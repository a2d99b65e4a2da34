-- ===== src/Server/Listen.antt =====
-- `New`, `Start` and `Shutdown` of internal/server/server.go. What `ListenAndServe` and `Shutdown` of
-- net/http return is a parameter.
use glsync.Base.{ℤ, ℕ, ◌*◌, Text, text, ◌++◌, pos, print_int, Bool, Option, none, some}
use glsync.Config.{Config, second}
use glsync.Plugin.{Registry}
use glsync.Store.{Env}
use glsync.Store.Run.{M}
use glsync.Server.{Reply}
use glsync.Server.Routes.{Route, serve}

pub record HttpServer : Type 0 where
  pub addr : Text
  pub handler : Route → M Reply
  pub read_timeout : ℤ
  pub read_header_timeout : ℤ
  pub write_timeout : ℤ
  pub idle_timeout : ℤ

unfoldable pub new_server : Env → Config → Registry → (ℕ → Bool) → HttpServer
unfolding print_int
new_server env cfg registry ping = record {
  addr = text ":" ++ print_int (pos cfg.server.port);
  handler = serve env cfg registry ping;
  read_timeout = cfg.server.read_timeout;
  read_header_timeout = pos (5 * second);
  write_timeout = cfg.server.write_timeout;
  idle_timeout = pos (60 * second);
}

-- How `ListenAndServe` returns.
pub data Served : Type 0 where
  no_error server_closed : Served
  serve_error : Text → Served

-- `Start` has an error, unless the server was closed.
unfoldable pub start : Served → Option Text
start no_error = none
start server_closed = none
start (serve_error x) = some x
