-- ===== src/Worker/Processor/Entries.antt =====
-- What is expected of the audit entries of `process` of internal/worker/processor.go.
use glsync.Base.{
  ℕ, ◌+◌, ◌≤◌, Text, text, List, [], ◌∷◌, ◌++◌, map, true, false, Option, none, some, ◌≡◌, refl, ap,
  arith, contains, leb, if◌then◌else◌,
}
use glsync.Errors.{ExecError}
use glsync.Domain
use glsync.Domain.{Job, AuditDetail, target_state, failure, non_retryable}
use glsync.Store.{AuditRow, World, Env}
use glsync.Store.Jobs.{event_ids, job_ids}
use glsync.Store.Audit.{nullable_string, refers, audit_ids}
use glsync.Worker.Processor.{fatal_code}

-- What an entry says: of which event and job, what happened, and its detail.
abbrev pub Entry : Type 0
Entry = Option Text × (Option Text × (Text × AuditDetail))

abbrev pub trail_of : List AuditRow → List Entry
trail_of = map (λ r. (r.event_id, (r.job_id, (r.action, r.detail))))

abbrev pub trail : World → List Entry
trail w = trail_of w.audit_logs

-- A world in which the entries of a job can be written: its rows are there, no uuid to come is taken.
pub record IsReady (env : Env) (job : Job) (w : World) : Type 0 where
  pub event_there : contains job.event_id (event_ids w.events) ≡ true
  pub job_there : contains job.id (job_ids w.jobs) ≡ true
  pub fresh : (n : ℕ) → w.step ≤ n → contains (env.uuid n) (audit_ids w.audit_logs) ≡ false

pub refers-nullable_string :
    (s : Text) (ids : List Text) → contains s ids ≡ true → refers (nullable_string s) ids ≡ true
unfolding refers nullable_string
refers-nullable_string s ids h = ground arith

pub map-append_one :
    (rows : List AuditRow) (r : AuditRow)
    → trail_of (rows ++ r ∷ [])
      ≡ trail_of rows ++ (r.event_id, (r.job_id, (r.action, r.detail))) ∷ []
map-append_one [] r = refl
map-append_one (s ∷ rows) r =
    ap (λ t. (s.event_id, (s.job_id, (s.action, s.detail))) ∷ t) (map-append_one rows r)

pub audit_ids-append :
    (rows : List AuditRow) (r : AuditRow) → audit_ids (rows ++ r ∷ []) ≡ audit_ids rows ++ r.id ∷ []
audit_ids-append [] r = refl
audit_ids-append (s ∷ rows) r = ap (λ t. s.id ∷ t) (audit_ids-append rows r)

abbrev pub entry : Job → Text → AuditDetail → Entry
entry job action detail = (nullable_string job.event_id, (nullable_string job.id, (action, detail)))

-- The entries that the outcome of an execution asks for.
abbrev pub last_words : Job → Option ℕ → List Entry
last_words job (some code) = entry job (text "job_dead") (non_retryable code) ∷ []
last_words job none =
    if leb job.max_attempts (job.attempts + 1)
    then entry job (text "job_dead") Domain.exhausted ∷ []
    else []

abbrev pub expected : Job → Option ExecError → List Entry
expected job none = entry job (text "transition_success") (target_state job.target_state) ∷ []
expected job (some e) =
    entry job (text "transition_failed") (failure e (job.attempts + 1))
    ∷ last_words job (fatal_code e)
