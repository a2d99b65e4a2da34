-- ===== src/Worker/Processor/Stops.antt =====
-- The way out of the loop `Run` of internal/worker/processor.go.
use glsync.Base.{◌≤◌, List, [], ◌∷◌, true, ◌≡◌, refl, ◌∙◌, ap, arith, length}
use glsync.Domain.{Job}
use glsync.Worker.Executor.{execute}
use glsync.Worker.Processor.Run.{
  slots, Processor, At, selecting, handing, draining, returned, Goroutine, executing, executed,
  Loop, env_in, exec_in, run_job, finish_job, Step, handed, all_handed, ran, ended, done, drained,
  Steps, stay, step,
}

module _ (p : Processor) where
  Steps-trans : {s t u : Loop} → Steps p s t → Steps p t u → Steps p s u
  Steps-trans stay h = h
  Steps-trans (step x xs) h = step x (Steps-trans xs h)

  -- A later point at which no goroutine runs, and the loop is where it was.
  record Cleared (s : Loop) : Type 0 where
    pub later : Loop
    pub run : Steps p s later
    pub same_at : later.at ≡ s.at
    pub same_cancelled : later.cancelled ≡ s.cancelled
    pub none_runs : later.running ≡ []

  Cleared-Step :
      {s t : Loop} → Step p s t → t.at ≡ s.at → t.cancelled ≡ s.cancelled → Cleared t → Cleared s
  Cleared-Step x a c k = record {
    later = k.later;
    run = step x k.run;
    same_at = k.same_at ∙ a;
    same_cancelled = k.same_cancelled ∙ c;
    none_runs = k.none_runs;
  }

  -- The goroutines end one after the other.
  clear : (gs : List Goroutine) (s : Loop) → s.running ≡ gs → Cleared s
  unfolding run_job finish_job
  clear [] s e = record {
    later = s;
    run = stay;
    same_at = refl;
    same_cancelled = refl;
    none_runs = e;
  }
  clear (executed j result ∷ gs) s e =
      Cleared-Step (ended [] j result gs e) refl refl
        (clear gs (finish_job p [] j result gs s) refl)
  clear (executing j ∷ gs) s e =
      let (result, w) = execute (env_in p s) (exec_in p s) j s.world in
      Cleared-Step (ran [] j gs e) refl refl (
        Cleared-Step (ended [] j result gs refl) refl refl
          (clear gs (finish_job p [] j result gs (run_job p [] j gs s)) refl))

  abbrev pub Ends : Loop → Type 0
  Ends s = (t : Loop) × (Steps p s t × (t.at ≡ returned))

  Ends-Steps : {s t : Loop} → Steps p s t → Ends t → Ends s
  Ends-Steps xs (t, (ys, a)) = (t, (Steps-trans xs ys, a))

  draining-Ends : (s : Loop) → s.at ≡ draining → Ends s
  draining-Ends s a =
      let k = clear s.running s refl in
      Ends-Steps k.run (_, (step (drained (k.same_at ∙ a) k.none_runs) stay, refl))

  selecting-Ends : (s : Loop) → s.at ≡ selecting → s.cancelled ≡ true → Ends s
  selecting-Ends s a c = Ends-Steps (step (done a c) stay) (draining-Ends _ refl)

  module _ (positive : 1 ≤ slots p.cfg) where
    handing-Ends : (js : List Job) (s : Loop) → s.at ≡ handing js → s.cancelled ≡ true → Ends s
    handing-Ends [] s a c = Ends-Steps (step (all_handed a) stay) (selecting-Ends _ refl c)
    handing-Ends (j ∷ js) s a c =
        let k = clear s.running s refl in
        let idle = ap length k.none_runs in
        Ends-Steps k.run (
          Ends-Steps (step (handed j js (k.same_at ∙ a) (omega (arith, idle, positive))) stay)
            (handing-Ends js _ refl (k.same_cancelled ∙ c)))

    -- With a positive `Concurrency`, a loop whose context is cancelled is never stuck: from wherever it
    -- is, in the middle of a batch or with goroutines at work, there is a way for it to return.
    pub cancelled-Ends : (s : Loop) → s.cancelled ≡ true → Ends s
    cancelled-Ends s c = go s.at refl
      where
        go : (a : At) → s.at ≡ a → Ends s
        go selecting a = selecting-Ends s a c
        go (handing js) a = handing-Ends js s a c
        go draining a = draining-Ends s a
        go returned a = (s, (stay, a))
