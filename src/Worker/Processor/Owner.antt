-- ===== src/Worker/Processor/Owner.antt =====
-- The jobs that a processor holds at a point of the loop `Run` of internal/worker/processor.go.
use mathlib.Core.List.{append_assoc}
use glsync.Base.{map, Text, List, [], ◌∷◌, ◌++◌, Option, ◌≡◌, refl, sym, ap, ◌∙◌, IsUnique, All}
use glsync.Errors.{ExecError}
use glsync.Domain.{Job}
use glsync.Store.{JobRow, World}
use glsync.Store.Jobs.{job_ids}
use glsync.Store.Invariant.{IsValid}
use glsync.Store.Invariant.Calls.{Call, perform, perform-IsValid, IsIdle}
use glsync.Store.Invariant.Calls
use glsync.Store.Lifecycle.{Evolves}
use glsync.Store.Lifecycle.Refines.{IsOwned}
use glsync.Worker.Processor.Holds.{IsHeld}
use glsync.Worker.Processor.Foreign.{IsForeign}
use glsync.Worker.Processor.Run.{
  job_in, Processor, At, handing, Goroutine, executing, executed, Loop, Step, other, Steps, stay,
  step,
}
use glsync.Worker.Processor.Account.{waiting_in}

abbrev pub ids_of : List Job → List Text
ids_of = map (λ j. j.id)

abbrev pub ids_in : List Goroutine → List Text
ids_in = map (λ g. (job_in g).id)

pub ids_in-append : (gs hs : List Goroutine) → ids_in (gs ++ hs) ≡ ids_in gs ++ ids_in hs
ids_in-append [] hs = refl
ids_in-append (g ∷ gs) hs = ap (λ t. (job_in g).id ∷ t) (ids_in-append gs hs)

pub ids_of-job : (rows : List JobRow) → ids_of (map (λ r. r.job) rows) ≡ job_ids rows
ids_of-job [] = refl
ids_of-job (r ∷ rows) = ap (λ t. r.id ∷ t) (ids_of-job rows)

-- The ids of the jobs that were claimed and not yet marked.
abbrev pub held_ids : Loop → List Text
held_ids s = ids_in s.running ++ ids_of (waiting_in s.at)

-- The processor holds each of these jobs, and each once.
pub record Owns (s : Loop) : Type 0 where
  pub valid : IsValid s.world.db
  pub once : IsUnique (held_ids s)
  pub held : All (IsHeld s.world.jobs) (held_ids s)

-- The others hold no job.
abbrev pub IsPeaceful : {p : Processor} {s t : Loop} → Step p s t → Type 0
IsPeaceful (other c idle) = IsForeign c
IsPeaceful _ = Unit

abbrev pub ArePeaceful : {p : Processor} {s t : Loop} → Steps p s t → Type 0
ArePeaceful stay = Unit
ArePeaceful (step x xs) = IsPeaceful x × ArePeaceful xs

-- What a step comes to.
pub record Lives (s t : Loop) : Type 0 where
  pub evolves : Evolves s.world.jobs t.world.jobs
  pub owns : Owns t

pub foreign-IsOwned : (c : Call) (w : World) → IsForeign c → IsOwned c w
foreign-IsOwned (Calls.enqueue j) w f = f
foreign-IsOwned (Calls.mark_completed id) w f = absurd (cc f)
foreign-IsOwned (Calls.mark_failed id e t) w f = absurd (cc f)
foreign-IsOwned (Calls.mark_dead id e) w f = absurd (cc f)
foreign-IsOwned (Calls.reset_stuck d) w f = absurd (cc f)
foreign-IsOwned (Calls.insert_event e) w f = tt
foreign-IsOwned (Calls.exists_by_idempotency_key key) w f = tt
foreign-IsOwned (Calls.get_by_id id) w f = tt
foreign-IsOwned (Calls.list_recent n) w f = tt
foreign-IsOwned (Calls.dequeue n) w f = tt
foreign-IsOwned (Calls.list_failed n) w f = tt
foreign-IsOwned (Calls.list_stale d) w f = tt
foreign-IsOwned (Calls.insert_audit a) w f = tt

pub handed_ids :
    (gs : List Goroutine) (a : At) (j : Job) (js : List Job)
    → a ≡ handing (j ∷ js)
    → ids_in (gs ++ executing j ∷ []) ++ ids_of js ≡ ids_in gs ++ ids_of (waiting_in a)
handed_ids gs a j js e =
    rw (e, ids_in-append gs (executing j ∷ [])) (append_assoc (ids_in gs) (j.id ∷ []) (ids_of js))

pub ran_ids :
    (before : List Goroutine) (j : Job) (result : Option ExecError) (after gs : List Goroutine)
    → gs ≡ before ++ executing j ∷ after
    → ids_in (before ++ executed j result ∷ after) ≡ ids_in gs
ran_ids before j result after gs e =
    ids_in-append before (executed j result ∷ after)
    ∙ sym (ap ids_in e ∙ ids_in-append before (executing j ∷ after))

pub ended_ids :
    (before : List Goroutine) (j : Job) (result : Option ExecError) (after gs : List Goroutine)
    (rest : List Text)
    → gs ≡ before ++ executed j result ∷ after
    → ids_in gs ++ rest ≡ ids_in before ++ j.id ∷ (ids_in after ++ rest)
ended_ids before j result after gs rest e =
    ap (λ x. ids_in x ++ rest) e
    ∙ (ap (λ x. x ++ rest) (ids_in-append before (executed j result ∷ after))
        ∙ append_assoc (ids_in before) (j.id ∷ ids_in after) rest)
