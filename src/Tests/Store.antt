-- ===== src/Tests/Store.antt =====
-- Claims and calls of the repositories on a small table.
use mathlib.Core.List.{append-nil}
use glsync.Domain.{NormalizedEvent}
use glsync.Store.Events
use glsync.Store.Events.{event_keys, scan_event, get_by_id}
use glsync.Store.Events.ReadBack.{IsReadBack, get_by_id-insert}
use glsync.Base.{
  pos, sym, none, true, some, text, List, [], ◌∷◌, map, ◌≡◌, refl, All, contains, false, ◌==◌,
  sort_by,
}
use glsync.Errors.{unknown_job_type}
use glsync.Domain.{Job, pending, failed, completed}
use glsync.Store.{JobRow, World, ok}
use glsync.Store.Jobs.{
  job_ids, insert_job, dequeue, claim, select_due, is_claimable, mark_running, set_running,
  update_where,
}
use glsync.Store.Jobs.Claims.{Claim, dequeue-Claim, dequeue-dequeue}
use glsync.Store.Invariant.{IsValid}
use glsync.Store.Invariant.Calls.{
  Call, insert_event, enqueue, reset_stuck, mark_failed, perform, performs, performs-IsValid,
}
use glsync.Store.Invariant.Calls
use glsync.Store.Run.{exec}
use glsync.Store.Jobs
use glsync.Store.Lifecycle.{Evolves}
use glsync.Store.Lifecycle.Late.{mark_failed_late}
use glsync.Store.Lifecycle.Refines.{AreOwned, performs-Evolves}
use glsync.Tests.Fixtures.{event_row, env, table, job_of}

-- Of two due jobs one is claimed, the earlier.
abbrev first : List Job
first = job_of (text "a") pending 10 ∷ []

abbrev after_first : World
after_first = (dequeue env 1 table).1

claimed : dequeue env 1 table ≡ (ok first, after_first)
unfolding dequeue claim select_due is_claimable contains ◌==◌ sort_by
claimed = refl

-- The next claim gets the other.
abbrev second : List Job
second = job_of (text "b") pending 20 ∷ []

claimed_next : dequeue env 2 after_first ≡ (ok second, (dequeue env 2 after_first).1)
unfolding dequeue claim select_due is_claimable contains ◌==◌ mark_running update_where set_running
    sort_by
claimed_next = refl

dequeue-Claim_example : Claim env 1 table first after_first
dequeue-Claim_example = dequeue-Claim env 1 table claimed

dequeue-dequeue_example : All (λ k. contains k.id (map (λ (j : Job). j.id) first) ≡ false) second
dequeue-dequeue_example = dequeue-dequeue env 1 2 table after_first claimed refl claimed_next

abbrev calls : List Call
calls =
    Calls.enqueue (job_of (text "d") pending 5)
    ∷ Calls.dequeue 2
    ∷ Calls.reset_stuck (pos 0)
    ∷ Calls.mark_failed (text "a") (unknown_job_type (text "x")) 9
    ∷ []

pub table-IsValid : IsValid table.db
unfolding contains ◌==◌
table-IsValid = record {
  event_ids_unique = (refl, tt);
  keys_unique = (refl, tt);
  job_ids_unique = (refl, (refl, (refl, tt)));
  jobs_refer = (refl, (refl, (refl, tt)));
  jobs_consistent = (refl, (refl, (refl, tt)));
  audit_ids_unique = tt;
  audits_refer = tt;
}

performs-IsValid_example : IsValid (performs env calls table).db
performs-IsValid_example =
    performs-IsValid env calls table (refl, (tt, (tt, (tt, tt)))) table-IsValid

abbrev lived : List Call
lived =
    Calls.enqueue (job_of (text "d") pending 5)
    ∷ Calls.dequeue 2
    ∷ Calls.mark_failed (text "a") (unknown_job_type (text "x")) 9
    ∷ []

lived-AreOwned : AreOwned env lived table
unfolding dequeue claim select_due is_claimable contains ◌==◌ mark_running update_where set_running
    sort_by perform Jobs.enqueue insert_job Jobs.fits_columns exec
lived-AreOwned = (refl, (tt, (((λ h. cc), ((λ _. refl), ((λ h. cc), ((λ h. cc), tt)))), tt)))

performs-Evolves_example : Evolves table.jobs (performs env lived table).jobs
performs-Evolves_example = performs-Evolves env lived table table-IsValid lived-AreOwned

-- A worker that reports a failure after the job was completed sends the finished job round again.
abbrev late : List Call
late =
    Calls.dequeue 1
    ∷ Calls.mark_completed (text "a")
    ∷ Calls.mark_failed (text "a") (unknown_job_type (text "x")) 9
    ∷ []

late_failure :
    map (λ (r : JobRow). r.status) (performs env late table).jobs ≡ pending ∷ failed ∷ pending ∷ []
unfolding performs perform Jobs.mark_failed exec Jobs.update_job Jobs.mark_completed dequeue claim
    select_due sort_by ◌==◌ Jobs.set_completed Jobs.set_failed is_claimable contains mark_running
    update_where set_running
late_failure = refl

-- An event under a new id and a new key.
abbrev news : NormalizedEvent
news = scan_event (record event_row { id = text "e2"; idempotency_key = text "push:3:dev:" })

abbrev after_news : World
after_news = (Events.insert env news table).1

inserted : Events.insert env news table ≡ (ok tt, after_news)
unfolding Events.insert exec Events.insert_event Events.to_row scan_event ◌==◌ contains
inserted = refl

new_key : contains news.idempotency_key (event_keys table.events) ≡ false
unfolding contains ◌==◌ scan_event
new_key = refl

get_by_id-insert_example :
    (e : NormalizedEvent) × (((get_by_id env news.id after_news).0 ≡ ok (some e))
      × IsReadBack news e)
get_by_id-insert_example =
    get_by_id-insert env news table after_news [] inserted new_key
      (sym (append-nil after_news.events)) refl

-- Another worker has completed the job.
abbrev finished : World
finished = record table {
  db = record table.db {
    jobs = record { job = job_of (text "a") completed 10; running_since = none } ∷ [];
  };
}

there : contains (text "a") (job_ids finished.jobs) ≡ true
unfolding contains ◌==◌
there = refl

mark_failed_late_example :
    ¬ Evolves finished.jobs
      (Jobs.mark_failed env (text "a") (unknown_job_type []) 5 finished).1.jobs
mark_failed_late_example =
    mark_failed_late (text "a") (unknown_job_type []) 5 env finished (λ e. cc e) there
      ((λ e. refl), tt)
