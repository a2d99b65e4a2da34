-- ===== src/Startup/Life.antt =====
-- The process of cmd/glsync/main.go at work: its goroutines, the signal, and the steps of `main` from
-- `select` to the return.
pub mod Ends
pub mod Exits
pub mod Valid
use glsync.Base.{ltb, ◌&&◌, ◌||◌, not, Bool, true, Option, none, some, ◌≡◌, ◌≢◌, if◌then◌else◌}
use glsync.Store.{World}
use glsync.Worker.Processor.Run.{Loop, is_positive, start_loop}
use glsync.Worker.Processor.Run as Proc
use glsync.Worker.Reconciler.Run as Rec
use glsync.Server.Routes.{Route}
use glsync.Server.Listen.{Served}
use glsync.Startup.{App}

-- `main` waits in `select`, shuts the HTTP server down, waits for the group, or has returned.
pub data MainAt : Type 0 where
  serving shutting_down waiting exited : MainAt

-- The HTTP server listens, `ListenAndServe` has returned by itself, or `Shutdown` was called.
pub data HttpAt : Type 0 where
  listening : HttpAt
  stopped : Served → HttpAt
  shut_down : HttpAt

-- The world and the context are those of the processor's loop.
pub record Process : Type 0 where
  pub main : MainAt
  pub http : HttpAt
  pub proc : Loop
  pub rec : Rec.At

abbrev pub with_world : Process → World → Process
with_world s w = record s { proc = record s.proc { world = w } }

abbrev pub reconciler_at : App → Rec.At
reconciler_at app = if app.reconcile then Rec.selecting else Rec.not_started

abbrev pub started : App → Loop → Process
started app l = record { main = serving; http = listening; proc = l; rec = reconciler_at app }

-- `none` stands for the panic of a ticker whose interval is not positive, which ends the process.
unfoldable pub start_all : App → Option Loop → Option Process
start_all app none = none
start_all app (some l) =
    if not app.reconcile || is_positive app.rec.cfg.interval then some (started app l) else none

unfoldable pub start_process : App → World → Option Process
unfolding start_all
start_process app w = start_all app (start_loop app.proc.cfg w)

pub data Step (app : App) : Process → Process → Type 0 where
  -- The processor, its goroutines, the signal that cancels the context, and other processes.
  processor :
      {s : Process} (l : Loop) → Proc.Step app.proc s.proc l → Step app s (record s { proc = l })
  reconciler :
      {s : Process} (at : Rec.At) (w : World)
      → Rec.Step app.rec s.proc.cancelled s.rec s.proc.world at w
      → Step app s (record (with_world s w) { rec = at })
  -- A request that was accepted is answered, at any time.
  answered :
      {s : Process} (r : Route) → Step app s (with_world s (app.srv.handler r s.proc.world).1)
  served :
      {s : Process} (x : Served) → s.http ≡ listening → Step app s (record s { http = stopped x })
  signalled :
      {s : Process}
      → s.main ≡ serving
      → s.proc.cancelled ≡ true
      → Step app s (record s { main = shutting_down })
  -- `srv.Start` has returned, with an error or without.
  unserved :
      {s : Process} (x : Served)
      → s.main ≡ serving
      → s.http ≡ stopped x
      → Step app s (record s { main = shutting_down })
  -- An error of `Shutdown` is logged.
  shut :
      {s : Process}
      → s.main ≡ shutting_down
      → Step app s (record s { main = waiting; http = shut_down })
  awaited :
      {s : Process}
      → s.main ≡ waiting
      → s.proc.at ≡ Proc.returned
      → s.rec ≢ Rec.selecting
      → Step app s (record s { main = exited })

pub data Steps (app : App) : Process → Process → Type 0 where
  stay : {s : Process} → Steps app s s
  step : {s t u : Process} → Step app s t → Steps app t u → Steps app s u
