-- ===== src/Startup/Life/Ends.antt =====
-- The end of the process of cmd/glsync/main.go.
use glsync.Base.{Bool, Option, none, some, ◌≡◌, ◌≢◌, refl, arith}
use glsync.Store.{World}
use glsync.Worker.Processor.Run.{
  Loop, initial, start_loop, ticked, handed, all_handed, ran, ended, cancel, done, drained, other,
  tick, take_batch, run_job, finish_job,
}
use glsync.Worker.Processor.Run as Proc
use glsync.Worker.Processor.Account.{IsSound, start_loop-IsSound}
use glsync.Worker.Processor.Drain.{Step-IsSound, IsDrained, IsSound-IsDrained}
use glsync.Worker.Reconciler.Run as Rec
use glsync.Startup.{App}
use glsync.Startup.Life.{
  MainAt, serving, shutting_down, waiting, exited, HttpAt, listening, stopped, shut_down, Process,
  started, start_all, start_process, Step, processor, reconciler, answered, served, signalled,
  unserved, shut, awaited, Steps, stay, step,
}

-- A loop that has returned stays there.
returned_stays :
    (p : Proc.Processor) {l l' : Loop}
    → Proc.Step p l l'
    → l.at ≡ Proc.returned
    → l'.at ≡ Proc.returned
unfolding run_job finish_job
returned_stays p (ticked a) h = absurd (cc (a, h))
returned_stays p (handed j js a free) h = absurd (cc (a, h))
returned_stays p (all_handed a) h = absurd (cc (a, h))
returned_stays p (ran before j after e) h = h
returned_stays p (ended before j result after e) h = h
returned_stays p cancel h = h
returned_stays p (done a c) h = absurd (cc (a, h))
returned_stays p (drained a e) h = refl
returned_stays p (other c idle) h = h

reconciler_stays :
    {r : Rec.Reconciler} {c : Bool} {a a' : Rec.At} {w w' : World}
    → Rec.Step r c a w a' w'
    → a ≢ Rec.selecting
    → a' ≢ Rec.selecting
reconciler_stays Rec.ticked h = h
reconciler_stays (Rec.done c) h = λ e. h refl

abbrev IsClosed : MainAt → HttpAt → Type 0
IsClosed waiting h = h ≡ shut_down
IsClosed exited h = h ≡ shut_down
IsClosed _ h = Unit

abbrev IsEnded : MainAt → Proc.At → Rec.At → Type 0
IsEnded exited a b = (a ≡ Proc.returned) × (b ≢ Rec.selecting)
IsEnded _ a b = Unit

record IsKept (app : App) (s : Process) : Type 0 where
  pub sound : IsSound app.proc s.proc
  pub closed : IsClosed s.main s.http
  pub over : IsEnded s.main s.proc.at s.rec

still-IsClosed : (m : MainAt) (h h' : HttpAt) → h ≡ listening → IsClosed m h → IsClosed m h'
still-IsClosed serving h h' e k = tt
still-IsClosed shutting_down h h' e k = tt
still-IsClosed waiting h h' e k = absurd (cc (e, k))
still-IsClosed exited h h' e k = absurd (cc (e, k))

still_over :
    (m : MainAt) (a a' : Proc.At) (b b' : Rec.At)
    → (a ≡ Proc.returned → a' ≡ Proc.returned)
    → (b ≢ Rec.selecting → b' ≢ Rec.selecting)
    → IsEnded m a b
    → IsEnded m a' b'
still_over serving a a' b b' f g k = tt
still_over shutting_down a a' b b' f g k = tt
still_over waiting a a' b b' f g k = tt
still_over exited a a' b b' f g k = (f k.0, g k.1)

IsSound-world :
    (p : Proc.Processor) (l : Loop) (w : World) → IsSound p l → IsSound p (record l { world = w })
IsSound-world p l w k = record { within = k.within; accounted = k.accounted; quiet = k.quiet }

module _ (app : App) where
  Step-IsKept : {s t : Process} → Step app s t → IsKept app s → IsKept app t
  Step-IsKept (processor {s} l x) k = record {
    sound = Step-IsSound app.proc x k.sound;
    closed = k.closed;
    over = still_over s.main s.proc.at l.at s.rec s.rec (returned_stays app.proc x) (λ h. h) k.over;
  }
  Step-IsKept (reconciler {s} at w x) k = record {
    sound = IsSound-world app.proc s.proc w k.sound;
    closed = k.closed;
    over = still_over s.main s.proc.at s.proc.at s.rec at (λ h. h) (reconciler_stays x) k.over;
  }
  Step-IsKept (answered {s} r) k = record {
    sound = IsSound-world app.proc s.proc _ k.sound;
    closed = k.closed;
    over = k.over;
  }
  Step-IsKept (served {s} x e) k = record {
    sound = k.sound;
    closed = still-IsClosed s.main s.http (stopped x) e k.closed;
    over = k.over;
  }
  Step-IsKept (signalled m c) k = record { sound = k.sound; closed = tt; over = tt }
  Step-IsKept (unserved x m e) k = record { sound = k.sound; closed = tt; over = tt }
  Step-IsKept (shut m) k = record { sound = k.sound; closed = refl; over = tt }
  Step-IsKept (awaited {s} m a b) k = record {
    sound = k.sound;
    closed = (rw m at k.closed);
    over = (a, b);
  }

  Steps-IsKept : {s t : Process} → Steps app s t → IsKept app s → IsKept app t
  Steps-IsKept stay k = k
  Steps-IsKept (step x xs) k = Steps-IsKept xs (Step-IsKept x k)

  start_all_lem :
      (o : Option Loop) (s : Process)
      → start_all app o ≡ some s
      → (l : Loop) × ((o ≡ some l) × (s ≡ started app l))
  unfolding start_all
  start_all_lem none s h = absurd (cc h)
  start_all_lem (some l) s h = (l, (refl, ground arith))

  start_process-IsKept : (w : World) (s : Process) → start_process app w ≡ some s → IsKept app s
  unfolding start_process
  start_process-IsKept w s h =
      let (l, (e, same)) = start_all_lem (start_loop app.proc.cfg w) s h in
      rw same (record { sound = start_loop-IsSound app.proc w l e; closed = tt; over = tt })

  -- What holds when `main` has returned.
  pub record IsFinished (t : Process) : Type 0 where
    pub drained : IsDrained app.proc t.proc
    pub no_reconciler : t.rec ≢ Rec.selecting
    pub http_closed : t.http ≡ shut_down

  exited_over :
      (m : MainAt) (a : Proc.At) (b : Rec.At)
      → m ≡ exited
      → IsEnded m a b
      → (a ≡ Proc.returned) × (b ≢ Rec.selecting)
  exited_over m a b e k = rw e at k

  -- `main` returns only after a signal has cancelled the context, also when the HTTP server has failed
  -- before; the HTTP server was shut down then, the reconciler has returned, no job is worked on, and
  -- each job that was taken from the store has been processed.
  pub exited-IsFinished :
      (w : World) (s t : Process)
      → start_process app w ≡ some s
      → Steps app s t
      → t.main ≡ exited
      → IsFinished t
  exited-IsFinished w s t h run e =
      let k = Steps-IsKept run (start_process-IsKept w s h) in
      let (a, b) = exited_over t.main t.proc.at t.rec e k.over in
      record {
        drained = IsSound-IsDrained app.proc t.proc k.sound a;
        no_reconciler = b;
        http_closed = (rw e at k.closed);
      }
