-- ===== src/Worker/Processor/Lives.antt =====
-- The lives of the jobs under the loop `Run` of internal/worker/processor.go, with others who enqueue and
-- claim.
use mathlib.Core.List.{append-nil, append_assoc}
use glsync.Base.{
  ◌+◌, List, [], ◌∷◌, ◌++◌, Option, some, ◌≡◌, refl, sym, ap, ◌∙◌, arith, IsUnique, All, All-append,
  All-mono, All-mono2,
}
use glsync.Errors.{ExecError}
use glsync.Domain.{Job}
use glsync.Store.{Db, World, Result, ok, err}
use glsync.Store.Jobs.{job_ids, select_due, dequeue}
use glsync.Store.Jobs.Claims.{claim_lem, dequeue_inv}
use glsync.Store.Invariant.{IsValid}
use glsync.Store.Invariant.Calls.{Call, perform, perform-IsValid, IsIdle}
use glsync.Store.Invariant.Calls
use glsync.Store.Lifecycle.{Evolves}
use glsync.Store.Lifecycle.Moves.{Evolves-refl, Evolves-trans}
use glsync.Store.Lifecycle.Refines.{perform-Evolves}
use glsync.Worker.Executor.Outcomes.{db-execute}
use glsync.Worker.Processor.{notify, conclude}
use glsync.Worker.Processor.Settle.{db-notify, IsSettled, conclude-IsSettled}
use glsync.Worker.Processor.Keeps.{same-IsValid, conclude-IsValid}
use glsync.Worker.Processor.Holds.{
  IsHeld, select_due-IsUnique, mark_running-IsHeld, marked-IsHeld, select_due-apart,
  contains-select_due,
}
use glsync.Worker.Processor.Foreign.{IsForeign, perform-IsHeld}
use glsync.Worker.Processor.Owned.{
  IsUnique-middle, All-middle, IsUnique-join, All-self, settled-Evolves, settled-IsHeld,
}
use glsync.Worker.Processor.Run.{
  slots, Processor, ProcessorConfig, At, selecting, Goroutine, executed, Loop, env_in, exec_in,
  initial, start_loop, take_batch, tick, run_job, finish_job, Step, ticked, handed, all_handed, ran,
  ended, cancel, done, drained, other, Steps, stay, step,
}
use glsync.Worker.Processor.Account.{waiting_in}
use glsync.Worker.Processor.Owner.{
  foreign-IsOwned, handed_ids, ran_ids, ended_ids, ids_of, ids_in, ids_in-append, ids_of-job,
  held_ids, Owns, IsPeaceful, ArePeaceful, Lives,
}

start_loop_lem :
    (cfg : ProcessorConfig) (w : World) (s : Loop) → start_loop cfg w ≡ some s → s ≡ initial w
unfolding start_loop
start_loop_lem cfg w s h = ground arith

module _ (p : Processor) where
  -- The same jobs are held, and the tables are the same.
  same-Lives : (s t : Loop) → Owns s → t.world.db ≡ s.world.db → held_ids t ≡ held_ids s → Lives s t
  same-Lives s t o db ids = record {
    evolves = rw (ap (λ (d : Db). d.jobs) db) (Evolves-refl s.world.jobs);
    owns = record {
      valid = same-IsValid db o.valid;
      once = rw ids o.once;
      held = rw (ap (λ (d : Db). d.jobs) db) (rw ids o.held);
    };
  }

  nothing_waits : (a : At) → a ≡ selecting → ids_of (waiting_in a) ≡ []
  nothing_waits a e = rw e refl

  other-Lives :
      (c : Call) (s : Loop)
      → IsIdle c
      → IsForeign c
      → Owns s
      → Lives s (record s { world = perform p.env c s.world })
  other-Lives c s idle f o = record {
    evolves = perform-Evolves p.env c s.world o.valid.job_ids_unique (foreign-IsOwned c s.world f);
    owns = record {
      valid = perform-IsValid p.env c s.world idle o.valid;
      once = o.once;
      held = All-mono (λ k h. perform-IsHeld p.env c s.world k f h) (held_ids s) o.held;
    };
  }

  ended-Lives :
      (s : Loop) (before : List Goroutine) (j : Job) (result : Option ExecError)
      (after : List Goroutine)
      → s.running ≡ before ++ executed j result ∷ after
      → Owns s
      → Lives s (finish_job p before j result after s)
  unfolding finish_job
  ended-Lives s before j result after e o =
      let (_, told) = notify p.registry.job_handlers j result s.world in
      let told_db : told.db ≡ s.world.db = db-notify p.registry.job_handlers j result s.world in
      let (_, w) = conclude (env_in p s) p.registry p.exec j result told in
      let rest = ids_in after ++ ids_of (waiting_in s.at) in
      let middle = ended_ids before j result after s.running (ids_of (waiting_in s.at)) e in
      let (once, others) = IsUnique-middle (ids_in before) rest j.id (rw middle at o.once) in
      let (mine, held) =
        All-middle (IsHeld s.world.jobs) (ids_in before) rest j.id (rw middle at o.held) in
      let told_jobs : told.jobs ≡ s.world.jobs = ap (λ (d : Db). d.jobs) told_db in
      let settled : IsSettled (env_in p s) j result s.world.jobs w.jobs =
        rw told_jobs at (conclude-IsSettled (env_in p s) p.registry p.exec j result told) in
      let left : ids_in (before ++ after) ++ ids_of (waiting_in s.at) ≡ ids_in before ++ rest =
        ap (λ x. x ++ ids_of (waiting_in s.at)) (ids_in-append before after)
        ∙ append_assoc (ids_in before) (ids_in after) (ids_of (waiting_in s.at)) in
      record {
        evolves = settled-Evolves (env_in p s) j result s.world.jobs w.jobs settled mine;
        owns = record {
          valid =
              conclude-IsValid (env_in p s) p.registry p.exec j result told
                (same-IsValid told_db o.valid);
          once = rw left once;
          held = rw left (
              All-mono2
                (λ k apart h.
                  settled-IsHeld (env_in p s) j result s.world.jobs w.jobs k settled apart h)
                (ids_in before ++ rest) others held);
        };
      }

  -- A batch is held from its claim on.
  claimed-Lives :
      (s : Loop) (js : List Job) (w : World)
      → dequeue (env_in p s) (slots p.cfg) s.world ≡ (ok js, w)
      → s.at ≡ selecting
      → Owns s
      → Evolves s.world.jobs w.jobs
      → IsValid w.db
      → Lives s (take_batch s (ok js, w))
  unfolding take_batch
  claimed-Lives s js w h a o evolves valid =
      let env = env_in p s in
      let now = env.now s.world.step in
      let locked = env.locked (s.world.step + 1) in
      let n = slots p.cfg in
      let rows = select_due now locked n s.world.jobs in
      let (same, marked, _) =
        claim_lem (env_in p s) now rows _ (dequeue_inv (env_in p s) n s.world h) in
      let batch : ids_of js ≡ job_ids rows = ap ids_of same ∙ ids_of-job rows in
      let old : held_ids s ≡ ids_in s.running =
        ap (λ t. ids_in s.running ++ t) (nothing_waits s.at a) ∙ append-nil (ids_in s.running) in
      let once : IsUnique (ids_in s.running) = rw old at o.once in
      let held : All (IsHeld s.world.jobs) (ids_in s.running) = rw old at o.held in
      let unique = o.valid.job_ids_unique in
      record {
        evolves = evolves;
        owns = record {
          valid = valid;
          once = rw batch (
              IsUnique-join (ids_in s.running) (job_ids rows) once
                (select_due-IsUnique now locked n s.world.jobs unique)
                (All-mono (λ k x. select_due-apart now locked n s.world.jobs k unique x)
                  (ids_in s.running) held));
          held =
              rw (batch, marked)
                (All-append _ (ids_in s.running) (job_ids rows)
                  (All-mono (λ k x. mark_running-IsHeld now (job_ids rows) s.world.jobs k x)
                    (ids_in s.running) held)
                  (All-mono
                    (λ k x.
                      marked-IsHeld now (job_ids rows) s.world.jobs k x
                        (contains-select_due now locked n s.world.jobs k x))
                    (job_ids rows) (All-self (job_ids rows))));
        };
      }

  tick-Lives : (s : Loop) → s.at ≡ selecting → Owns s → Lives s (tick p s)
  unfolding tick take_batch perform
  tick-Lives s a o =
      go (dequeue (env_in p s) (slots p.cfg) s.world) refl
        (perform-Evolves (env_in p s) (Calls.dequeue (slots p.cfg)) s.world o.valid.job_ids_unique
          tt)
        (perform-IsValid (env_in p s) (Calls.dequeue (slots p.cfg)) s.world tt o.valid)
        (All-mono (λ k h. perform-IsHeld (env_in p s) (Calls.dequeue (slots p.cfg)) s.world k tt h)
          (held_ids s) o.held)
    where
      go :
          (r : Result (List Job) × World)
          → dequeue (env_in p s) (slots p.cfg) s.world ≡ r
          → Evolves s.world.jobs r.1.jobs
          → IsValid r.1.db
          → All (IsHeld r.1.jobs) (held_ids s)
          → Lives s (take_batch s r)
      go (ok js, w) e ev v h = claimed-Lives s js w e a o ev v
      go (err x, w) e ev v h = record {
        evolves = ev;
        owns = record { valid = v; once = o.once; held = h };
      }

  Step-Lives : {s t : Loop} (x : Step p s t) → IsPeaceful x → Owns s → Lives s t
  unfolding run_job
  Step-Lives (ticked {s} a) f o = tick-Lives s a o
  Step-Lives (handed {s} j js a free) f o = same-Lives s _ o refl (handed_ids s.running s.at j js a)
  Step-Lives (all_handed {s} a) f o =
      same-Lives s _ o refl (ap (λ x. ids_in s.running ++ ids_of (waiting_in x)) (sym a))
  Step-Lives (ran {s} before j after e) f o =
      same-Lives s _ o (db-execute (env_in p s) (exec_in p s) j s.world)
        (ap (λ x. x ++ ids_of (waiting_in s.at)) (ran_ids before j _ after s.running e))
  Step-Lives (ended {s} before j result after e) f o = ended-Lives s before j result after e o
  Step-Lives (cancel {s}) f o = same-Lives s _ o refl refl
  Step-Lives (done {s} a c) f o =
      same-Lives s _ o refl (ap (λ x. ids_in s.running ++ ids_of (waiting_in x)) (sym a))
  Step-Lives (drained {s} a none_runs) f o =
      same-Lives s _ o refl (ap (λ x. ids_in s.running ++ ids_of (waiting_in x)) (sym a))
  Step-Lives (other {s} c idle) f o = other-Lives c s idle f o

  Steps-Lives : {s t : Loop} (xs : Steps p s t) → ArePeaceful xs → Owns s → Lives s t
  Steps-Lives (stay {s}) f o = same-Lives s s o refl refl
  Steps-Lives (step x xs) (f, fs) o =
      let first = Step-Lives x f o in
      let later = Steps-Lives xs fs first.owns in
      record { evolves = Evolves-trans first.evolves later.evolves; owns = later.owns }

  initial-Owns : (w : World) → IsValid w.db → Owns (initial w)
  initial-Owns w v = record { valid = v; once = tt; held = tt }

  -- The processor marks only jobs that it holds: as long as the others only store events, enqueue
  -- pending jobs, write audit entries, claim jobs themselves and read, and the constraints of the schema
  -- hold at first, then in whatever order the loop, its goroutines and the others take their turns, and
  -- whatever faults they meet, every job moves along its life, and none is lost or changed otherwise.
  pub Steps-Evolves :
      (w : World) (s t : Loop)
      → start_loop p.cfg w ≡ some s
      → IsValid w.db
      → (xs : Steps p s t) → ArePeaceful xs
      → Evolves w.jobs t.world.jobs
  Steps-Evolves w s t h v xs f =
      let e : s ≡ initial w = start_loop_lem p.cfg w s h in
      let k = Steps-Lives xs f (rw e (initial-Owns w v)) in rw e at k.evolves
