-- ===== src/Worker/Processor/Trail.antt =====
-- The audit entries of `process` of internal/worker/processor.go.
use mathlib.Core.List.{append-nil, append_assoc}
use glsync.Base.{
  ℕ, ◌+◌, ◌≤◌, ◌<◌, Text, text, List, [], ◌∷◌, ◌++◌, true, false, Option, none, some, ◌≡◌, ◌≢◌,
  refl, sym, ap, ◌∙◌, arith, contains, contains-append, ◌==◌, ==_iff, Bool-cases, inl, inr, leb,
}
use glsync.Errors.{ExecError}
use glsync.Domain
use glsync.Domain.{Job, AuditDetail, target_state, failure, non_retryable}
use glsync.Plugin.{Registry, JobHandler}
use glsync.Store.{AuditRow, JobRow, Db, World, Env, Fault, delivered, refused, unacknowledged}
use glsync.Store.Run.{exec, bump, time_now, new_uuid}
use glsync.Store.Jobs.{
  event_ids, job_ids, update_job, update_jobs, set_completed, set_failed, set_dead, mark_completed,
  mark_failed, mark_dead,
}
use glsync.Store.Jobs.Rows.{job_ids-update_where}
use glsync.Store.Audit
use glsync.Store.Audit.{nullable_string, refers, audit_ids, insert_audit}
use glsync.Worker.Executor.{Executor, execute}
use glsync.Worker.Executor.Outcomes.{db-execute}
use glsync.Worker.Processor.{
  fatal_code, write_audit, notify, on_success, on_dead, on_retry, after_failure, conclude, process,
}
use glsync.Worker.Processor.Entries.{
  Entry, trail_of, trail, IsReady, refers-nullable_string, map-append_one, audit_ids-append, entry,
  last_words, expected,
}

module _ (env : Env) (job : Job) (faultless : (n : ℕ) → env.detached n ≡ delivered)
    (apart : (n m : ℕ) → n < m → env.uuid m ≢ env.uuid n) where
  written : Text → AuditDetail → World → AuditRow
  written action detail w = record {
    id = env.uuid w.step;
    event_id = nullable_string job.event_id;
    job_id = nullable_string job.id;
    action = action;
    issue_key = job.issue_key;
    detail = detail;
    created_at = env.now (w.step + 1);
  }

  write_audit_lem :
      (action : Text) (detail : AuditDetail) (w : World)
      → IsReady env job w
      → (write_audit env job action detail w).1 ≡ record w {
        db = record w.db { audit_logs = w.audit_logs ++ written action detail w ∷ [] };
        step = w.step + 1 + 1 + 1;
      }
  unfolding write_audit Audit.insert Audit.to_row exec insert_audit time_now new_uuid written
  write_audit_lem action detail w r =
      let event = refers-nullable_string job.event_id (event_ids w.events) r.event_there in
      let job_row = refers-nullable_string job.id (job_ids w.jobs) r.job_there in
      let new = r.fresh w.step (omega arith) in
      let sent = faultless (w.step + 1 + 1) in rw (sent, event, job_row, new) refl

  not-eq : (s t : Text) → s ≢ t → s == t ≡ false
  not-eq s t h = ground (arith, ==_iff s t)

  still_fresh :
      (w : World)
      → ((n : ℕ) → w.step ≤ n → contains (env.uuid n) (audit_ids w.audit_logs) ≡ false)
      → (r : AuditRow) → r.id ≡ env.uuid w.step
      → (n : ℕ) → w.step < n
      → contains (env.uuid n) (audit_ids (w.audit_logs ++ r ∷ [])) ≡ false
  unfolding contains
  still_fresh w h r e n later =
      rw
        (
          audit_ids-append w.audit_logs r,
          contains-append (env.uuid n) (audit_ids w.audit_logs) (r.id ∷ []),
          e,
          h n (omega (arith, later)),
          not-eq (env.uuid n) (env.uuid w.step) (apart w.step n later),
        )
        refl

  -- The trail after some calls, and more entries can be written.
  pub record Logged (entries : List Entry) (w w' : World) : Type 0 where
    pub ready : IsReady env job w'
    pub said : trail w' ≡ trail w ++ entries

  pub Logged-trans :
      {es fs : List Entry} {w w' w'' : World}
      → Logged es w w'
      → Logged fs w' w''
      → Logged (es ++ fs) w w''
  Logged-trans {es} {fs} {w} a b = record {
    ready = b.ready;
    said = b.said ∙ (ap (λ t. t ++ fs) a.said ∙ append_assoc (trail w) es fs);
  }

  write_audit-Logged :
      (action : Text) (detail : AuditDetail) (w : World)
      → IsReady env job w
      → Logged (entry job action detail ∷ []) w (write_audit env job action detail w).1
  unfolding written
  write_audit-Logged action detail w r =
      let row = written action detail w in
      rw (write_audit_lem action detail w r) (record {
        ready = record {
          event_there = r.event_there;
          job_there = r.job_there;
          fresh = λ n later. still_fresh w r.fresh row refl n (omega (arith, later));
        };
        said = map-append_one w.audit_logs row;
      })

  pub quiet-Logged :
      (w w' : World) → IsReady env job w → w'.db ≡ w.db → w.step ≤ w'.step → Logged [] w w'
  quiet-Logged w w' r same later = record {
    ready = record {
      event_there =
          ap (λ (d : Db). contains job.event_id (event_ids d.events)) same ∙ r.event_there;
      job_there = ap (λ (d : Db). contains job.id (job_ids d.jobs)) same ∙ r.job_there;
      fresh = λ n h.
          ap (λ (d : Db). contains (env.uuid n) (audit_ids d.audit_logs)) same
          ∙ r.fresh n (omega (arith, h, later));
    };
    said = ap (λ (d : Db). trail_of d.audit_logs) same ∙ sym (append-nil (trail w));
  }

  updated-Logged :
      (rows : List JobRow) (w : World)
      → IsReady env job w
      → contains job.id (job_ids rows) ≡ true
      → Logged [] w (record w { db = record w.db { jobs = rows }; step = w.step + 1 })
  updated-Logged rows w r there = record {
    ready = record {
      event_there = r.event_there;
      job_there = there;
      fresh = λ n h. r.fresh n (omega (arith, h));
    };
    said = sym (append-nil (trail w));
  }

  -- Whatever becomes of the statement.
  mark-Logged :
      (change : ℕ → JobRow → JobRow) (w : World)
      → ((now : ℕ) (r : JobRow) → (change now r).id ≡ r.id)
      → IsReady env job w
      → Logged [] w (exec env (λ now. update_jobs (update_job job.id (change now))) w).1
  unfolding exec update_job
  mark-Logged change w same r = go (env.fault w.step) refl
    where
      there : contains job.id (job_ids (update_job job.id (change (env.now w.step)) w.jobs)) ≡ true
      there = rw (job_ids-update_where _ (change (env.now w.step)) (same _) w.jobs) r.job_there

      go :
          (x : Fault)
          → env.fault w.step ≡ x
          → Logged [] w (exec env (λ now. update_jobs (update_job job.id (change now))) w).1
      go delivered e = rw e (updated-Logged _ w r there)
      go refused e = rw e (quiet-Logged w (bump w) r refl (omega arith))
      go unacknowledged e = rw e (updated-Logged _ w r there)

  module _ (registry : Registry) (ex : Executor) where
    on_dead-Logged :
        (e : ExecError) (detail : AuditDetail) (w : World)
        → IsReady env job w
        → Logged
            (entry job (text "job_dead") detail ∷ [])
            w
            (on_dead env registry ex job e detail w).1
    unfolding on_dead mark_dead set_dead
    on_dead-Logged e detail w r =
        let a = mark-Logged (λ _. set_dead e) w (λ _ _. refl) r in
        Logged-trans a (write_audit-Logged (text "job_dead") detail _ a.ready)

    after_failure-Logged :
        (e : ExecError) (code : Option ℕ) (w : World)
        → IsReady env job w
        → Logged (last_words job code) w (after_failure env registry ex job e code w).1
    unfolding after_failure on_retry mark_failed set_failed time_now
    after_failure-Logged e (some code) w r = on_dead-Logged e (non_retryable code) w r
    after_failure-Logged e none w r = elim (Bool-cases (leb job.max_attempts (job.attempts + 1))) [
      | inl last ↦ rw last (on_dead-Logged e Domain.exhausted w r)
      | inr more ↦ rw more (
          let a = quiet-Logged w (bump w) r refl (omega arith) in
          Logged-trans a (mark-Logged (λ _. set_failed e _) (bump w) (λ _ _. refl) a.ready))
    ]

    pub conclude-Logged :
        (result : Option ExecError) (w : World)
        → IsReady env job w
        → Logged (expected job result) w (conclude env registry ex job result w).1
    unfolding conclude on_success mark_completed set_completed
    conclude-Logged none w r =
        let a = mark-Logged set_completed w (λ _ _. refl) r in
        Logged-trans a (write_audit-Logged (text "transition_success") _ _ a.ready)
    conclude-Logged (some e) w r =
        let a = write_audit-Logged (text "transition_failed") (failure e (job.attempts + 1)) w r in
        Logged-trans a (after_failure-Logged e (fatal_code e) _ a.ready)

    step-execute : (w : World) → w.step ≤ (execute env ex job w).1.step
    unfolding execute time_now
    step-execute w = ground arith

    pub quiet-notify :
        (hs : List JobHandler) (result : Option ExecError) (w : World)
        → ((notify hs job result w).1.db ≡ w.db) × ((notify hs job result w).1.step ≡ w.step)
    unfolding notify
    quiet-notify [] result w = (refl, refl)
    quiet-notify (h ∷ hs) result w = quiet-notify hs result _

    -- If the statements in detached contexts meet no fault, the rows of the job and its event are there,
    -- and the uuids to come are new and different, then a processed job adds exactly the entries to the
    -- trail that its outcome asks for, whatever faults the other statements meet, in this order: a success;
    -- or a failure with the number of the attempt, and then, if the job is not to be retried, the reason
    -- why it is dead.
    pub process-expected :
        (w : World)
        → IsReady env job w
        → trail (process env registry ex job w).1 ≡ trail w ++ expected job (execute env ex job w).0
    unfolding process
    process-expected w r =
        let (result, ran) = execute env ex job w in
        let a = quiet-Logged w ran r (db-execute env ex job w) (step-execute w) in
        let (_, told) = notify registry.job_handlers job result ran in
        let (same, steps) = quiet-notify registry.job_handlers result ran in
        let b = quiet-Logged ran told a.ready same (omega (arith, steps)) in
        (Logged-trans a (Logged-trans b (conclude-Logged result told b.ready))).said
