-- ===== src/Worker/Processor/Drain.antt =====
-- What holds at every point of the loop `Run` of internal/worker/processor.go.
use glsync.Base.{◌≤◌, [], Bool, true, some, ◌≡◌, refl, arith, length}
use glsync.Domain.{Job}
use glsync.Store.{World}
use glsync.Worker.Processor.Run.{
  slots, Processor, returned, Loop, start_loop, Step, ticked, handed, all_handed, ran, ended,
  cancel, done, drained, other, Steps, stay, step,
}
use glsync.Worker.Processor.Account.{
  tally, jobs_in, waiting_in, IsSound, cancelled-IsQuiet, draining_cancelled, returned_quiet,
  start_loop-IsSound, tick-IsSound, handed-IsSound, ran-IsSound, ended-IsSound,
}

module _ (p : Processor) where
  pub Step-IsSound : {s t : Loop} → Step p s t → IsSound p s → IsSound p t
  Step-IsSound (ticked {s} a) k = tick-IsSound p s a k
  Step-IsSound (handed {s} j js a free) k = handed-IsSound p s j js a free k
  Step-IsSound (all_handed {s} a) k = record {
    within = k.within;
    accounted = λ q.
        let empty : tally q (waiting_in s.at) ≡ 0 = rw a refl in
        omega (arith, k.accounted q, empty);
    quiet = tt;
  }
  Step-IsSound (ran {s} before j after e) k = ran-IsSound p s before j after e k
  Step-IsSound (ended {s} before j result after e) k = ended-IsSound p s before j result after e k
  Step-IsSound (cancel {s}) k = record {
    within = k.within;
    accounted = k.accounted;
    quiet = cancelled-IsQuiet s.at s.cancelled s.running k.quiet;
  }
  Step-IsSound (done {s} a c) k = record {
    within = k.within;
    accounted = λ q.
        let empty : tally q (waiting_in s.at) ≡ 0 = rw a refl in
        omega (arith, k.accounted q, empty);
    quiet = c;
  }
  Step-IsSound (drained {s} a none_runs) k = record {
    within = k.within;
    accounted = λ q.
        let empty : tally q (waiting_in s.at) ≡ 0 = rw a refl in
        omega (arith, k.accounted q, empty);
    quiet = (draining_cancelled s.at s.cancelled s.running a k.quiet, none_runs);
  }
  Step-IsSound (other {s} c idle) k = record {
    within = k.within;
    accounted = k.accounted;
    quiet = k.quiet;
  }

  Steps-IsSound : {s t : Loop} → Steps p s t → IsSound p s → IsSound p t
  Steps-IsSound stay k = k
  Steps-IsSound (step x xs) k = Steps-IsSound xs (Step-IsSound x k)

  -- However the loop, its goroutines and the other users of the store take turns, at most `Concurrency`
  -- jobs are worked on at a time.
  pub running-bounded :
      (w : World) (s t : Loop)
      → start_loop p.cfg w ≡ some s
      → Steps p s t
      → length t.running ≤ slots p.cfg
  running-bounded w s t h run = (Steps-IsSound run (start_loop-IsSound p w s h)).within

  -- What holds when `Run` has returned.
  pub record IsDrained (t : Loop) : Type 0 where
    pub was_cancelled : t.cancelled ≡ true
    pub none_runs : t.running ≡ []
    pub all_finished : (q : Job → Bool) → tally q t.finished ≡ tally q t.claimed

  pub IsSound-IsDrained : (t : Loop) → IsSound p t → t.at ≡ returned → IsDrained t
  IsSound-IsDrained t k a =
      let (c, e) = returned_quiet t.at t.cancelled t.running a k.quiet in
      record {
        was_cancelled = c;
        none_runs = e;
        all_finished = λ q.
            let empty : tally q (waiting_in t.at) ≡ 0 = rw a refl in
            let idle : tally q (jobs_in t.running) ≡ 0 = rw e refl in
            omega (arith, k.accounted q, empty, idle);
      }

  -- `Run` returns only after its context was cancelled; no goroutine runs then, and each job that it
  -- ever took from the store has been processed, exactly as often as it was taken.
  pub returned-IsDrained :
      (w : World) (s t : Loop)
      → start_loop p.cfg w ≡ some s
      → Steps p s t
      → t.at ≡ returned
      → IsDrained t
  returned-IsDrained w s t h run =
      IsSound-IsDrained t (Steps-IsSound run (start_loop-IsSound p w s h))
