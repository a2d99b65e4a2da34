-- ===== src/Startup/Life/Exits.antt =====
-- The way out of the process of cmd/glsync/main.go.
use glsync.Base.{◌≤◌, List, Bool, true, ◌≡◌, ◌≢◌, refl}
use glsync.Domain.{Job}
use glsync.Store.{World, Result}
use glsync.Store
use glsync.Store.Jobs.{dequeue}
use glsync.Worker.Processor.Run.{
  slots, Loop, initial, start_loop, ticked, handed, all_handed, ran, ended, cancel, done, drained,
  other, tick, take_batch, run_job, finish_job,
}
use glsync.Worker.Processor.Run as Proc
use glsync.Worker.Processor.Stops.{cancelled-Ends}
use glsync.Worker.Reconciler.Run as Rec
use glsync.Startup.{App}
use glsync.Startup.Life.{
  MainAt, serving, shutting_down, waiting, exited, Process, Step, processor, reconciler, signalled,
  shut, awaited, Steps, stay, step,
}

module _ (app : App) where
  -- The end of the process as the end of some run.
  abbrev pub Exits : Process → Type 0
  Exits s = (t : Process) × (Steps app s t × (t.main ≡ exited))

  Exits-Step : {s t : Process} → Step app s t → Exits t → Exits s
  Exits-Step x (t, (xs, e)) = (t, (step x xs, e))

  lift-Exits :
      {l l' : Loop} (s : Process)
      → Proc.Steps app.proc l l'
      → Exits (record s { proc = l' })
      → Exits (record s { proc = l })
  lift-Exits s Proc.stay k = k
  lift-Exits s (Proc.step {t = m} x xs) k = Exits-Step (processor m x) (lift-Exits s xs k)

  waiting-Exits :
      (s : Process) → s.main ≡ waiting → s.proc.at ≡ Proc.returned → s.rec ≢ Rec.selecting → Exits s
  waiting-Exits s m a b = (_, (step (awaited m a b) stay, refl))

  shutting-Exits :
      (s : Process)
      → s.main ≡ shutting_down
      → s.proc.at ≡ Proc.returned
      → s.rec ≢ Rec.selecting
      → Exits s
  shutting-Exits s m a b = Exits-Step (shut m) (waiting-Exits _ refl a b)

  idle-Exits :
      (s : Process)
      → s.proc.cancelled ≡ true
      → s.proc.at ≡ Proc.returned
      → s.rec ≢ Rec.selecting
      → Exits s
  idle-Exits s c a b = go s.main refl
    where
      go : (m : MainAt) → s.main ≡ m → Exits s
      go serving m = Exits-Step (signalled m c) (shutting-Exits _ refl a b)
      go shutting_down m = shutting-Exits s m a b
      go waiting m = waiting-Exits s m a b
      go exited m = (s, (stay, m))

batch_cancelled :
    (l : Loop) (r : Result (List Job) × World)
    → l.cancelled ≡ true
    → (take_batch l r).cancelled ≡ true
unfolding take_batch
batch_cancelled l (Store.err x, w) h = h
batch_cancelled l (Store.ok jobs, w) h = h

cancelled_stays :
    (p : Proc.Processor) {l l' : Loop} → Proc.Step p l l' → l.cancelled ≡ true → l'.cancelled ≡ true
unfolding run_job finish_job tick
cancelled_stays p (ticked {s} a) h =
    batch_cancelled s (dequeue (Proc.env_in p s) (slots p.cfg) s.world) h
cancelled_stays p (handed j js a free) h = h
cancelled_stays p (all_handed a) h = h
cancelled_stays p (ran before j after e) h = h
cancelled_stays p (ended before j result after e) h = h
cancelled_stays p cancel h = refl
cancelled_stays p (done a c) h = h
cancelled_stays p (drained a e) h = h
cancelled_stays p (other c idle) h = h

cancelled_remains :
    (p : Proc.Processor) {l l' : Loop}
    → Proc.Steps p l l'
    → l.cancelled ≡ true
    → l'.cancelled ≡ true
cancelled_remains p Proc.stay h = h
cancelled_remains p (Proc.step x xs) h = cancelled_remains p xs (cancelled_stays p x h)

reconciler_done :
    (r : Rec.Reconciler) (c : Bool) (a : Rec.At) (w : World)
    → a ≡ Rec.selecting
    → c ≡ true
    → Rec.Step r c a w Rec.returned w
reconciler_done r c a w e h = rw e (Rec.done h)

module _ (app : App) (positive : 1 ≤ slots app.proc.cfg) where
  processor-Exits : (s : Process) → s.proc.cancelled ≡ true → s.rec ≢ Rec.selecting → Exits app s
  processor-Exits s c b =
      let (l, (xs, a)) = cancelled-Ends app.proc positive s.proc c in
      lift-Exits app s xs
        (idle-Exits app (record s { proc = l }) (cancelled_remains app.proc xs c) a b)

  -- With a positive concurrency, from any point at which the signal has come there is a way for the
  -- process to end: nothing that `main`, the reconciler, the processor or its goroutines are doing
  -- then is in the way.
  pub signalled-Exits : (s : Process) → s.proc.cancelled ≡ true → Exits app s
  signalled-Exits s c = go s.rec refl
    where
      go : (a : Rec.At) → s.rec ≡ a → Exits app s
      go Rec.selecting e =
          Exits-Step app
            (reconciler Rec.returned s.proc.world
              (reconciler_done app.rec s.proc.cancelled s.rec s.proc.world e c))
            (processor-Exits (record s { rec = Rec.returned }) c (λ x. cc x))
      go Rec.not_started e = processor-Exits s c (λ x. cc (e, x))
      go Rec.returned e = processor-Exits s c (λ x. cc (e, x))
