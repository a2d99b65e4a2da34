-- ===== src/Store/Invariant/Inserts.antt =====
-- The constraints of the schema under the inserts of the three repositories.
use glsync.Base.{
  IsUnique-append, contains-append_left, contains, ℕ, List, [], ◌∷◌, ◌++◌, map, true, false, none,
  ◌≡◌, refl, All-append, All-mono, Bool-cases, inl, inr, ap,
}
use glsync.Domain.{Job}
use glsync.Store.{EventRow, JobRow, AuditRow, Db}
use glsync.Store.Jobs
use glsync.Store.Events
use glsync.Store.Jobs.{event_ids, job_ids, is_running, insert_job}
use glsync.Store.Events.{event_keys, insert_event}
use glsync.Store.Audit.{insert_audit, refers, audit_ids}
use glsync.Store.Invariant.{IsValid, refers-append, Kept}

map-append {ℓ κ} :
    {A : Type ℓ} {B : Type κ} (f : A → B) (xs : List A) (x : A)
    → map f (xs ++ x ∷ []) ≡ map f xs ++ f x ∷ []
map-append f [] x = refl
map-append f (y ∷ xs) x = ap (λ t. f y ∷ t) (map-append f xs x)

-- A row whose id and key are new.
event_added :
    (r : EventRow) (db : Db)
    → contains r.idempotency_key (event_keys db.events) ≡ false
    → contains r.id (event_ids db.events) ≡ false
    → IsValid db
    → IsValid (record db { events = db.events ++ r ∷ [] })
event_added r db fresh_key fresh_id v =
    let ids = map-append (λ (x : EventRow). x.id) db.events r in
    record {
      event_ids_unique = rw ids (IsUnique-append _ _ v.event_ids_unique fresh_id);
      keys_unique =
          rw (map-append (λ (x : EventRow). x.idempotency_key) db.events r)
            (IsUnique-append _ _ v.keys_unique fresh_key);
      job_ids_unique = v.job_ids_unique;
      jobs_refer = rw ids (All-mono (λ j h. contains-append_left _ _ _ h) db.jobs v.jobs_refer);
      jobs_consistent = v.jobs_consistent;
      audit_ids_unique = v.audit_ids_unique;
      audits_refer =
          rw ids (All-mono (λ a h. (refers-append _ _ _ h.0, h.1)) db.audit_logs v.audits_refer);
    }

pub insert_event_keeps :
    (r : EventRow) (now : ℕ) (db : Db) → IsValid db → Kept (insert_event r now db)
unfolding insert_event
insert_event_keeps r now db v = elim (Bool-cases (Events.fits_columns r)) [
  | inr wide ↦ rw wide tt
  | inl fits ↦ elim (Bool-cases (contains r.idempotency_key (event_keys db.events))) [
    | inl taken ↦ rw (fits, taken) v
    | inr fresh_key ↦ elim (Bool-cases (contains r.id (event_ids db.events))) [
      | inl taken ↦ rw (fits, fresh_key, taken) tt
      | inr fresh_id ↦ rw (fits, fresh_key, fresh_id) (event_added r db fresh_key fresh_id v)
    ]
  ]
]

job_added :
    (j : Job) (db : Db)
    → is_running j.status ≡ false
    → contains j.event_id (event_ids db.events) ≡ true
    → contains j.id (job_ids db.jobs) ≡ false
    → IsValid db
    → IsValid (record db { jobs = db.jobs ++ record { job = j; running_since = none } ∷ [] })
job_added j db idle refer fresh v =
    let row : JobRow = record { job = j; running_since = none } in
    let ids = map-append (λ (x : JobRow). x.id) db.jobs row in
    record {
      event_ids_unique = v.event_ids_unique;
      keys_unique = v.keys_unique;
      job_ids_unique = rw ids (IsUnique-append _ _ v.job_ids_unique fresh);
      jobs_refer = All-append _ db.jobs (row ∷ []) v.jobs_refer (refer, tt);
      jobs_consistent = All-append _ db.jobs (row ∷ []) v.jobs_consistent (idle, tt);
      audit_ids_unique = v.audit_ids_unique;
      audits_refer =
          rw ids (All-mono (λ a h. (h.0, refers-append _ _ _ h.1)) db.audit_logs v.audits_refer);
    }

pub insert_job_keeps :
    (j : Job) (now : ℕ) (db : Db)
    → is_running j.status ≡ false
    → IsValid db
    → Kept (insert_job j now db)
unfolding insert_job
insert_job_keeps j now db idle v = elim (Bool-cases (Jobs.fits_columns j)) [
  | inr wide ↦ rw wide tt
  | inl fits ↦ elim (Bool-cases (contains j.event_id (event_ids db.events))) [
    | inr missing ↦ rw (fits, missing) tt
    | inl refer ↦ elim (Bool-cases (contains j.id (job_ids db.jobs))) [
      | inl taken ↦ rw (fits, refer, taken) tt
      | inr fresh ↦ rw (fits, refer, fresh) (job_added j db idle refer fresh v)
    ]
  ]
]

audit_added :
    (r : AuditRow) (db : Db)
    → refers r.event_id (event_ids db.events) ≡ true
    → refers r.job_id (job_ids db.jobs) ≡ true
    → contains r.id (audit_ids db.audit_logs) ≡ false
    → IsValid db
    → IsValid (record db { audit_logs = db.audit_logs ++ r ∷ [] })
audit_added r db refer_event refer_job fresh v = record {
  event_ids_unique = v.event_ids_unique;
  keys_unique = v.keys_unique;
  job_ids_unique = v.job_ids_unique;
  jobs_refer = v.jobs_refer;
  jobs_consistent = v.jobs_consistent;
  audit_ids_unique =
      rw (map-append (λ (x : AuditRow). x.id) db.audit_logs r)
        (IsUnique-append _ _ v.audit_ids_unique fresh);
  audits_refer = All-append _ db.audit_logs (r ∷ []) v.audits_refer ((refer_event, refer_job), tt);
}

pub insert_audit_keeps :
    (r : AuditRow) (now : ℕ) (db : Db) → IsValid db → Kept (insert_audit r now db)
unfolding insert_audit
insert_audit_keeps r now db v = elim (Bool-cases (refers r.event_id (event_ids db.events))) [
  | inr missing ↦ rw missing tt
  | inl refer_event ↦ elim (Bool-cases (refers r.job_id (job_ids db.jobs))) [
    | inr missing ↦ rw (refer_event, missing) tt
    | inl refer_job ↦ elim (Bool-cases (contains r.id (audit_ids db.audit_logs))) [
      | inl taken ↦ rw (refer_event, refer_job, taken) tt
      | inr fresh ↦
          rw (refer_event, refer_job, fresh) (audit_added r db refer_event refer_job fresh v)
    ]
  ]
]
