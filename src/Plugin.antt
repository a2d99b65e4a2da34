-- ===== src/Plugin.antt =====
-- plugin/plugin.go: the two registries. What a handler does is a parameter; that it was called is
-- recorded in the world as a notice.
use glsync.Base.{ℕ, Text, List, [], ◌∷◌, ◌++◌, Bool, Option}
use glsync.Errors.{ExecError}
use glsync.Domain.{NormalizedEvent, Job}

-- A handler of events answers each call with success or an error.
pub record EventHandler : Type 0 where
  pub name : Text
  pub succeeds : ℕ → NormalizedEvent → Bool

pub record JobHandler : Type 0 where
  pub name : Text

pub record Registry : Type 0 where
  pub event_handlers : List EventHandler
  pub job_handlers : List JobHandler

unfoldable pub register_event_handler : EventHandler → Registry → Registry
register_event_handler h r = record r { event_handlers = r.event_handlers ++ h ∷ [] }

unfoldable pub register_job_handler : JobHandler → Registry → Registry
register_job_handler h r = record r { job_handlers = r.job_handlers ++ h ∷ [] }

pub data Notice : Type 0 where
  event_notice : Text → NormalizedEvent → Notice
  job_notice : Text → Job → Option ExecError → Notice
