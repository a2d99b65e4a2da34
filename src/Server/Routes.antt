-- ===== src/Server/Routes.antt =====
-- The routes of internal/server/server.go and the handlers of health_handler.go. The router's and the
-- rate limiter's own answers are not modelled: a request stands for one that reached its route.
pub mod Reads
use glsync.Base.{ℕ, Text, text, Bool, true, false, none}
use glsync.Config.{Config}
use glsync.Plugin.{Registry}
use glsync.Store.{Env}
use glsync.Store.Run.{M, pure, ◌>>=◌, ◌>>◌, bump, time_now}
use glsync.Server.{Reply, status}
use glsync.Server.Webhook.{Request, Handler, handle_gitlab}
use glsync.Server.Admin.{list_events, list_failed_jobs, require_admin_token}

pub data Route : Type 0 where
  healthz : Route
  readyz : Route
  webhook : Request → Route
  -- The header "Authorization", and the query's "limit".
  admin_events : Text → Text → Route
  admin_failed_jobs : Text → Text → Route

abbrev liveness : M Reply
liveness = pure (status 200 (text "ok") none)

-- The body of the failure also holds the error's text.
abbrev ping_reply : Bool → Reply
ping_reply true = status 200 (text "ok") none
ping_reply false = status 503 (text "unavailable") none

-- Whether `Ping` succeeds depends on the number of the call.
abbrev readiness : (ℕ → Bool) → M Reply
readiness ping w = (ping_reply (ping w.step), bump w)

unfoldable pub webhook_handler : Config → Registry → Handler
webhook_handler cfg registry = record {
  webhook_secret = cfg.gitlab.webhook_secret;
  workflow = cfg.workflow;
  max_attempts = cfg.worker.max_attempts;
  event_handlers = registry.event_handlers;
}

unfoldable pub route : Env → Config → Registry → (ℕ → Bool) → Route → M Reply
unfolding webhook_handler
route env cfg registry ping healthz = liveness
route env cfg registry ping readyz = readiness ping
route env cfg registry ping (webhook r) = handle_gitlab env (webhook_handler cfg registry) r
route env cfg registry ping (admin_events auth limit) =
    require_admin_token cfg.server.admin_token auth (list_events env limit)
route env cfg registry ping (admin_failed_jobs auth limit) =
    require_admin_token cfg.server.admin_token auth (list_failed_jobs env limit)

-- The log line itself is left out; it reads the clock before and after.
unfoldable pub request_logger : Env → M Reply → M Reply
request_logger env next = do time_now env; reply ← next; time_now env; pure reply

-- The handler that `NewHandler` returns.
unfoldable pub serve : Env → Config → Registry → (ℕ → Bool) → Route → M Reply
unfolding route request_logger
serve env cfg registry ping r = request_logger env (route env cfg registry ping r)
