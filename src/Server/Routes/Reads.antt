-- ===== src/Server/Routes/Reads.antt =====
-- The routes of internal/server that only read: the health and the admin routes.
use glsync.Base.{ℕ, Bool, refl}
use glsync.Config.{Config}
use glsync.Plugin.{Registry}
use glsync.Store.{World, Env}
use glsync.Store.Run.{time_now}
use glsync.Server.Admin.Reads.{
  IsUnchanged, unchanged, require_admin_token-IsUnchanged, list_events-IsUnchanged,
  list_failed_jobs-IsUnchanged,
}
use glsync.Server.Routes.{
  Route, healthz, readyz, webhook, admin_events, admin_failed_jobs, route, serve,
}

abbrev pub IsRead : Route → Type 0
IsRead (webhook r) = ⊥
IsRead _ = Unit

module _ (env : Env) (cfg : Config) (registry : Registry) (ping : ℕ → Bool) where
  route-IsUnchanged :
      (r : Route) (w : World) → IsRead r → IsUnchanged w (route env cfg registry ping r w).1
  unfolding route
  route-IsUnchanged healthz w h = unchanged w
  route-IsUnchanged readyz w h = record { same_db = refl; same_calls = refl; same_notices = refl }
  route-IsUnchanged (webhook r) w h = absurd h
  route-IsUnchanged (admin_events auth limit) w h =
      require_admin_token-IsUnchanged cfg.server.admin_token _ w
        (list_events-IsUnchanged env limit w) auth
  route-IsUnchanged (admin_failed_jobs auth limit) w h =
      require_admin_token-IsUnchanged cfg.server.admin_token _ w
        (list_failed_jobs-IsUnchanged env limit w) auth

  -- Every request but a webhook's, whatever its token and its limit are and whatever faults the
  -- statements meet, leaves the tables as they are, and calls neither Jira nor a plugin.
  pub serve-IsUnchanged :
      (r : Route) (w : World) → IsRead r → IsUnchanged w (serve env cfg registry ping r w).1
  unfolding serve time_now
  serve-IsUnchanged r w h =
      let k = route-IsUnchanged r _ h in
      record { same_db = k.same_db; same_calls = k.same_calls; same_notices = k.same_notices }
