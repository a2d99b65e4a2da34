-- ===== src/Server/Admin/Reads.antt =====
-- The admin routes of internal/server/admin_handler.go only read.
use glsync.Base.{ℕ, Text, text, List, Bool-cases, inl, inr, Option, none, some, ◌≡◌, refl, ◌==◌}
use glsync.Domain.{NormalizedEvent, Job}
use glsync.Store.{Db, World, Env, Fault, delivered, refused, unacknowledged, Result, ok, err}
use glsync.Store.Run.{M, exec}
use glsync.Store.Jobs.{list_failed}
use glsync.Store.Events.{list_recent}
use glsync.Gitlab.Parser.{strip_prefix}
use glsync.Server.{Reply}
use glsync.Server.Admin.{
  read_limit, list_events, list_failed_jobs, events_reply, jobs_reply, bearer, require_admin_token,
}

-- The tables, the calls of Jira and the calls of plugins are the same.
pub record IsUnchanged (w w' : World) : Type 0 where
  pub same_db : w'.db ≡ w.db
  pub same_calls : w'.jira_calls ≡ w.jira_calls
  pub same_notices : w'.notices ≡ w.notices

pub unchanged : (w : World) → IsUnchanged w w
unchanged w = record { same_db = refl; same_calls = refl; same_notices = refl }

-- A query.
exec-IsUnchanged {ℓ} :
    (env : Env) {A : Type ℓ} (f : ℕ → Db → A) (w : World)
    → IsUnchanged w (exec env (λ now db. some (f now db, db)) w).1
unfolding exec
exec-IsUnchanged env f w = go (env.fault w.step) refl
  where
    go :
        (x : Fault)
        → env.fault w.step ≡ x
        → IsUnchanged w (exec env (λ now db. some (f now db, db)) w).1
    go delivered e = rw e (record { same_db = refl; same_calls = refl; same_notices = refl })
    go refused e = rw e (record { same_db = refl; same_calls = refl; same_notices = refl })
    go unacknowledged e = rw e (record { same_db = refl; same_calls = refl; same_notices = refl })

module _ (token : Text) (next : M Reply) (w : World) (k : IsUnchanged w (next w).1) where
  bearer-IsUnchanged : (sent : Option Text) → IsUnchanged w (bearer token sent next w).1
  bearer-IsUnchanged none = unchanged w
  bearer-IsUnchanged (some sent) = elim (Bool-cases (sent == token)) [
    | inl e ↦ rw e k
    | inr e ↦ rw e (unchanged w)
  ]

  pub require_admin_token-IsUnchanged :
      (auth : Text) → IsUnchanged w (require_admin_token token auth next w).1
  unfolding require_admin_token
  require_admin_token-IsUnchanged auth = elim (Bool-cases (token == text "")) [
    | inl e ↦ rw e (unchanged w)
    | inr e ↦ rw e (bearer-IsUnchanged (strip_prefix (text "Bearer ") auth))
  ]

module _ (env : Env) where
  events_reply_world :
      (r : Result (List NormalizedEvent)) (w : World) → (events_reply env r w).1 ≡ w
  unfolding events_reply
  events_reply_world (err x) w = refl
  events_reply_world (ok events) w = refl

  jobs_reply_world : (r : Result (List Job)) (w : World) → (jobs_reply env r w).1 ≡ w
  unfolding jobs_reply
  jobs_reply_world (err x) w = refl
  jobs_reply_world (ok jobs) w = refl

  pub list_events-IsUnchanged :
      (limit : Text) (w : World) → IsUnchanged w (list_events env limit w).1
  unfolding list_events list_recent
  list_events-IsUnchanged limit w =
      let (r, w') = list_recent env (read_limit 50 500 limit) w in
      rw (events_reply_world r w') (exec-IsUnchanged env _ w)

  pub list_failed_jobs-IsUnchanged :
      (limit : Text) (w : World) → IsUnchanged w (list_failed_jobs env limit w).1
  unfolding list_failed_jobs list_failed
  list_failed_jobs-IsUnchanged limit w =
      let (r, w') = list_failed env (read_limit 200 1000 limit) w in
      rw (jobs_reply_world r w') (exec-IsUnchanged env _ w)
