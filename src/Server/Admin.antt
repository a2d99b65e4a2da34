-- ===== src/Server/Admin.antt =====
-- internal/server/admin_handler.go and the bearer token of middleware.go.
pub mod Access
pub mod Reads
use glsync.Base.{
  ℤ, pos, negsuc, atoi, ℕ, ◌+◌, ◌*◌, ◌-◌, zero, suc, Text, text, List, [], ◌∷◌, Bool, true, false,
  not, ◌&&◌, ◌||◌, Option, none, some, ◌==◌, leb, ltb, eqb, if◌then◌else◌,
}
use glsync.Domain.{NormalizedEvent, Job}
use glsync.Store.{Env, Result, ok, err}
use glsync.Store.Run.{M, pure, ◌>>=◌}
use glsync.Store.Events.{list_recent}
use glsync.Store.Jobs.{list_failed}
use glsync.Gitlab.Parser.{strip_prefix}
use glsync.Server.{Reply, error, event_list, job_list}

unfoldable pub bounded : ℕ → ℕ → Option ℤ → ℕ
bounded default bound none = default
bounded default bound (some (negsuc n)) = default
bounded default bound (some (pos n)) = if ltb 0 n && leb n bound then n else default

-- The query's value "limit", where an absent one is the empty text.
unfoldable pub read_limit : ℕ → ℕ → Text → ℕ
unfolding bounded
read_limit default bound v = if v == text "" then default else bounded default bound (atoi v)

module _ (env : Env) where
  events_reply : Result (List NormalizedEvent) → M Reply
  events_reply (err _) = pure (error 500 (text "failed to list events"))
  events_reply (ok events) = pure (event_list 200 events)

  unfoldable pub list_events : Text → M Reply
  unfolding events_reply read_limit
  list_events limit = do events ← list_recent env (read_limit 50 500 limit); events_reply events

  jobs_reply : Result (List Job) → M Reply
  jobs_reply (err _) = pure (error 500 (text "failed to list jobs"))
  jobs_reply (ok jobs) = pure (job_list 200 jobs)

  unfoldable pub list_failed_jobs : Text → M Reply
  unfolding jobs_reply read_limit
  list_failed_jobs limit = do jobs ← list_failed env (read_limit 200 1000 limit); jobs_reply jobs

abbrev bearer : Text → Option Text → M Reply → M Reply
bearer token none next = pure (error 401 (text "unauthorized"))
bearer token (some sent) next =
    if not (sent == token) then pure (error 401 (text "unauthorized")) else next

-- `auth` is the header "Authorization".
unfoldable pub require_admin_token : Text → Text → M Reply → M Reply
require_admin_token token auth next =
    if token == text ""
    then pure (error 404 (text "not found"))
    else bearer token (strip_prefix (text "Bearer ") auth) next
