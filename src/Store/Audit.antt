-- ===== src/Store/Audit.antt =====
-- internal/store/audit_repo.go. An empty reference is stored as NULL; the others refer to rows.
use glsync.Base.{
  contains, Text, text, List, [], ◌∷◌, ◌++◌, map, Bool, true, not, ◌&&◌, Option, none, some, ◌==◌,
  if◌then◌else◌,
}
use glsync.Domain.{AuditEntry}
use glsync.Store.{AuditRow, Env, Result}
use glsync.Store.Run.{M, Statement, exec}
use glsync.Store.Jobs.{event_ids, job_ids}

unfoldable pub nullable_string : Text → Option Text
nullable_string s = if s == text "" then none else some s

-- A foreign key: NULL, or a value of the column that it refers to.
unfoldable pub refers : Option Text → List Text → Bool
unfolding contains
refers none ids = true
refers (some id) ids = contains id ids

abbrev pub audit_ids : List AuditRow → List Text
audit_ids = map (λ r. r.id)

unfoldable pub to_row : AuditEntry → AuditRow
unfolding nullable_string
to_row e = record {
  id = e.id;
  event_id = nullable_string e.event_id;
  job_id = nullable_string e.job_id;
  action = e.action;
  issue_key = e.issue_key;
  detail = e.detail;
  created_at = e.created_at;
}

unfoldable pub insert_audit : AuditRow → Statement (Unit {0})
unfolding refers
insert_audit r now db =
    if refers r.event_id (event_ids db.events)
      && refers r.job_id (job_ids db.jobs)
      && not (contains r.id (audit_ids db.audit_logs))
    then some (tt, record db { audit_logs = db.audit_logs ++ r ∷ [] })
    else none

module _ (env : Env) where
  unfoldable pub insert : AuditEntry → M (Result (Unit {0}))
  insert e = exec env (insert_audit (to_row e))
