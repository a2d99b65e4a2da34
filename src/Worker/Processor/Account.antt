-- ===== src/Worker/Processor/Account.antt =====
-- The account of the jobs that the loop `Run` of internal/worker/processor.go takes, at each kind of step.
use glsync.Base.{
  ℕ, ◌+◌, ◌≤◌, ◌<◌, List, [], ◌∷◌, ◌++◌, map, Bool, true, Option, some, ◌≡◌, refl, sym, ap, ◌∙◌,
  arith, length, select, length-append, Bool-cases, inl, inr,
}
use glsync.Errors.{ExecError}
use glsync.Domain.{Job}
use glsync.Store.{World, Result}
use glsync.Store
use glsync.Store.Jobs.{dequeue}
use glsync.Worker.Executor.{execute}
use glsync.Worker.Processor.Run.{
  slots, Processor, At, selecting, handing, draining, returned, Goroutine, executing, executed,
  job_in, Loop, env_in, exec_in, initial, start_loop, take_batch, tick, run_job, finish_job,
}

-- How many of the jobs pass a test.
abbrev pub tally : (Job → Bool) → List Job → ℕ
tally q js = length (select q js)

abbrev pub jobs_in : List Goroutine → List Job
jobs_in = map job_in

tally-append : (q : Job → Bool) (js ks : List Job) → tally q (js ++ ks) ≡ tally q js + tally q ks
tally-append q [] ks = omega arith
tally-append q (j ∷ js) ks = elim (Bool-cases (q j)) [
  | inl e ↦ rw e (omega (arith, tally-append q js ks))
  | inr e ↦ rw e (tally-append q js ks)
]

in_flight-append :
    (q : Job → Bool) (gs hs : List Goroutine)
    → tally q (jobs_in (gs ++ hs)) ≡ tally q (jobs_in gs) + tally q (jobs_in hs)
in_flight-append q [] hs = omega arith
in_flight-append q (g ∷ gs) hs = elim (Bool-cases (q (job_in g))) [
  | inl e ↦ rw e (omega (arith, in_flight-append q gs hs))
  | inr e ↦ rw e (in_flight-append q gs hs)
]

-- The jobs of a batch that no goroutine has yet.
abbrev pub waiting_in : At → List Job
waiting_in (handing js) = js
waiting_in _ = []

abbrev pub IsQuiet : At → Bool → List Goroutine → Type 0
IsQuiet draining cancelled gs = cancelled ≡ true
IsQuiet returned cancelled gs = (cancelled ≡ true) × (gs ≡ [])
IsQuiet _ cancelled gs = Unit

-- While a goroutine runs the loop has not returned.
still-IsQuiet :
    (at : At) (cancelled : Bool) (gs gs' before : List Goroutine) (g : Goroutine)
    (after : List Goroutine)
    → gs ≡ before ++ g ∷ after
    → IsQuiet at cancelled gs
    → IsQuiet at cancelled gs'
still-IsQuiet selecting c gs gs' before g after e h = tt
still-IsQuiet (handing js) c gs gs' before g after e h = tt
still-IsQuiet draining c gs gs' before g after e h = h
still-IsQuiet returned c gs gs' before g after e (d, h) =
    let full = ap length (sym h ∙ e) in
    absurd (omega (arith, full, length-append before (g ∷ after)))

pub cancelled-IsQuiet :
    (at : At) (c : Bool) (gs : List Goroutine) → IsQuiet at c gs → IsQuiet at true gs
cancelled-IsQuiet selecting c gs h = tt
cancelled-IsQuiet (handing js) c gs h = tt
cancelled-IsQuiet draining c gs h = refl
cancelled-IsQuiet returned c gs h = (refl, h.1)

pub draining_cancelled :
    (at : At) (c : Bool) (gs : List Goroutine) → at ≡ draining → IsQuiet at c gs → c ≡ true
draining_cancelled at c gs e h = rw e at h

pub returned_quiet :
    (at : At) (c : Bool) (gs : List Goroutine)
    → at ≡ returned
    → IsQuiet at c gs
    → (c ≡ true) × (gs ≡ [])
returned_quiet at c gs e h = rw e at h

pub record IsSound (p : Processor) (s : Loop) : Type 0 where
  pub within : length s.running ≤ slots p.cfg
  pub accounted :
      (q : Job → Bool)
      → tally q s.claimed
        ≡ tally q s.finished + tally q (jobs_in s.running) + tally q (waiting_in s.at)
  pub quiet : IsQuiet s.at s.cancelled s.running

module _ (p : Processor) where
  initial-IsSound : (w : World) → IsSound p (initial w)
  initial-IsSound w = record { within = omega arith; accounted = λ q. omega arith; quiet = tt }

  pub start_loop-IsSound : (w : World) (s : Loop) → start_loop p.cfg w ≡ some s → IsSound p s
  unfolding start_loop
  start_loop-IsSound w s h = let e : s ≡ initial w = ground arith in rw e (initial-IsSound w)

  pub tick-IsSound : (s : Loop) → s.at ≡ selecting → IsSound p s → IsSound p (tick p s)
  unfolding tick take_batch
  tick-IsSound s a k = go (dequeue (env_in p s) (slots p.cfg) s.world)
    where
      go : (r : Result (List Job) × World) → IsSound p (take_batch s r)
      go (Store.err x, w) = record { within = k.within; accounted = k.accounted; quiet = k.quiet }
      go (Store.ok jobs, w) = record {
        within = k.within;
        accounted = λ q.
            let none_waits : tally q (waiting_in s.at) ≡ 0 = rw a refl in
            omega (arith, tally-append q s.claimed jobs, k.accounted q, none_waits);
        quiet = tt;
      }

  pub handed-IsSound :
      (s : Loop) (j : Job) (js : List Job)
      → s.at ≡ handing (j ∷ js)
      → length s.running < slots p.cfg
      → IsSound p s
      → IsSound p (record s { at = handing js; running = s.running ++ executing j ∷ [] })
  handed-IsSound s j js a free k = record {
    within = omega (arith, length-append s.running (executing j ∷ []));
    accounted = λ q.
        let before : tally q (waiting_in s.at) ≡ tally q (j ∷ js) = rw a refl in
        omega (
          arith,
          k.accounted q,
          before,
          in_flight-append q s.running (executing j ∷ []),
          tally-append q (j ∷ []) js,
        );
    quiet = tt;
  }

  pub ran-IsSound :
      (s : Loop) (before : List Goroutine) (j : Job) (after : List Goroutine)
      → s.running ≡ before ++ executing j ∷ after
      → IsSound p s
      → IsSound p (run_job p before j after s)
  unfolding run_job
  ran-IsSound s before j after e k =
      let (result, w) = execute (env_in p s) (exec_in p s) j s.world in
      let same_length = ap length e in
      record {
        within = omega (
          arith,
          k.within,
          same_length,
          length-append before (executing j ∷ after),
          length-append before (executed j result ∷ after),
        );
        accounted = λ q.
            let same = ap (λ gs. tally q (jobs_in gs)) e in
            omega (
              arith,
              k.accounted q,
              same,
              in_flight-append q before (executing j ∷ after),
              in_flight-append q before (executed j result ∷ after),
            );
        quiet = still-IsQuiet s.at s.cancelled s.running _ before _ after e k.quiet;
      }

  pub ended-IsSound :
      (s : Loop) (before : List Goroutine) (j : Job) (result : Option ExecError)
      (after : List Goroutine)
      → s.running ≡ before ++ executed j result ∷ after
      → IsSound p s
      → IsSound p (finish_job p before j result after s)
  unfolding finish_job
  ended-IsSound s before j result after e k =
      let same_length = ap length e in
      record {
        within = omega (
          arith,
          k.within,
          same_length,
          length-append before (executed j result ∷ after),
          length-append before after,
        );
        accounted = λ q.
            let same = ap (λ gs. tally q (jobs_in gs)) e in
            omega (
              arith,
              k.accounted q,
              same,
              tally-append q s.finished (j ∷ []),
              in_flight-append q before (executed j result ∷ after),
              in_flight-append q (executed j result ∷ []) after,
              in_flight-append q before after,
            );
        quiet = still-IsQuiet s.at s.cancelled s.running _ before _ after e k.quiet;
      }
