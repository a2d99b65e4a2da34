-- ===== src/Server/Webhook/Decisions.antt =====
-- The outcomes of `handleGitLab` for an event whose issue keys are found.
use glsync.Base.{
  ℕ, ◌+◌, ◌*◌, length, Text, List, [], ◌∷◌, ◌++◌, true, false, ◌||◌, Option, none, some, ◌≡◌, ◌≢◌,
  ◌⊎◌, refl, ap, ◌∙◌, arith, contains, Bool-cases, inl, inr, ◌==◌, ==_iff,
}
use glsync.Json.{Payload, Decoded, unmarshal}
use glsync.Json
use glsync.Domain.{
  EventType, push, mr_opened, mr_merged, mr_draft, emoji_award, unrecognized, NormalizedEvent,
}
use glsync.Domain.States.{WorkflowState, done}
use glsync.Workflow.Rules.{classify}
use glsync.Store.{
  EventRow, Db, World, Env, Fault, delivered, refused, unacknowledged, unavailable, violation,
  Result, ok, err, StoreError,
}
use glsync.Store.Run.{exec, bump, time_now, new_uuid, pure}
use glsync.Store.Jobs.{event_ids}
use glsync.Store.Events
use glsync.Store.Events.{event_keys, insert_event}
use glsync.Gitlab.Parser.{is_new_branch}
use glsync.Server.{Reply, accepted, code}
use glsync.Server.Webhook.{
  Handler, set_before, is_target_branch, internal_error, run_handlers, after_insert, accept,
  handle_emoji_award, accept_keys, rules_cfg, classified, with_keys,
}
use glsync.Server.Webhook.Plugins.{
  notices_of, notices-run_handlers, db-run_handlers, step-run_handlers,
}
use glsync.Server.Webhook.Enqueue.{
  event_ids-last, notices-enqueue_all, IsEnqueued, step-enqueue_all, enqueue_all-IsEnqueued,
  events-enqueue_all,
}

-- The event is stored under the uuid of the call of number `first`, with the time of the next call, and
-- after the plugins were called its keys' jobs are enqueued for it, with which the handler ends.
pub record IsTaken (env : Env) (h : Handler) (event : NormalizedEvent) (state : WorkflowState)
    (w : World) (reply : Reply) (w' : World) : Type 0 where
  pub first : ℕ
  pub id : Text
  pub new_id : id ≡ env.uuid first
  pub received_at : ℕ
  pub on_receipt : received_at ≡ env.now (first + 1)
  pub answered : reply ≡ accepted 202 id event.issue_keys state
  pub told :
      w'.notices
      ≡ w.notices
        ++ notices_of h.event_handlers (record event { id = id; received_at = received_at })
  pub stored :
      w'.events
      ≡ w.events ++ Events.to_row (record event { id = id; received_at = received_at }) ∷ []
  pub enqueued :
      IsEnqueued env id state h.max_attempts event.issue_keys
        (first + 3 + length h.event_handlers)
        w.jobs
        w'.jobs
  pub ended : w'.step ≡ first + 3 + length h.event_handlers + 4 * length event.issue_keys

-- The outcomes of handling an event, where `IsWanted` tells which state it asks for: nothing is
-- changed; the insert has failed, or its answer was lost, and nothing is enqueued; or it is taken.
pub data IsHandled (env : Env) (h : Handler) (IsWanted : NormalizedEvent → WorkflowState → Type 0)
    (w : World) (reply : Reply) (w' : World) : Type 0 where
  kept :
      code reply ≢ 202 → w'.db ≡ w.db → w'.notices ≡ w.notices → IsHandled env h IsWanted w reply w'
  failed :
      (event : NormalizedEvent) (state : WorkflowState)
      → IsWanted event state
      → reply ≡ internal_error
      → w'.jobs ≡ w.jobs
      → w'.notices ≡ w.notices
      → IsHandled env h IsWanted w reply w'
  taken :
      (event : NormalizedEvent) (state : WorkflowState)
      → IsWanted event state
      → event.issue_keys ≢ []
      → IsTaken env h event state w reply w'
      → IsHandled env h IsWanted w reply w'

module _ (env : Env) (h : Handler) where
  abbrev pub IsRun : (NormalizedEvent → WorkflowState → Type 0) → World → Reply × World → Type 0
  IsRun IsWanted w r = IsHandled env h IsWanted w r.0 r.1

  after_insert-IsTaken :
      (event : NormalizedEvent) (state : WorkflowState) (n : ℕ) (id : Text) (received_at : ℕ)
      (w v : World)
      → id ≡ env.uuid n
      → received_at ≡ env.now (n + 1)
      → v.step ≡ n + 3
      → let stamped = record event { id = id; received_at = received_at } in
        v.jobs ≡ w.jobs
        → v.notices ≡ w.notices
        → v.events ≡ w.events ++ Events.to_row stamped ∷ []
        → let r = after_insert env h (ok tt) stamped state v in IsTaken env h event state w r.0 r.1
  unfolding after_insert Events.to_row
  after_insert-IsTaken event state n id received_at w v own at_time here same_jobs same_notices
        stored =
      let stamped = record event { id = id; received_at = received_at } in
      let (_, told) = run_handlers h.event_handlers stamped v in
      let kept : told.db ≡ v.db = db-run_handlers h.event_handlers stamped v in
      let kept_events = events-enqueue_all env h id state event.issue_keys told in
      let jobs : told.jobs ≡ w.jobs = ap (λ (d : Db). d.jobs) kept ∙ same_jobs in
      let there : told.step ≡ n + 3 + length h.event_handlers =
        step-run_handlers h.event_handlers stamped v ∙ ap (λ m. m + length h.event_handlers) here in
      let found : contains id (event_ids told.events) ≡ true =
        rw (ap (λ (d : Db). d.events) kept ∙ stored)
          (event_ids-last w.events (Events.to_row stamped)) in
      record {
        first = n;
        id = id;
        new_id = own;
        received_at = received_at;
        on_receipt = at_time;
        answered = refl;
        told =
            notices-enqueue_all env h id state event.issue_keys told
            ∙ notices-run_handlers h.event_handlers stamped v
            ∙ ap (λ ns. ns ++ notices_of h.event_handlers stamped) same_notices;
        stored = kept_events ∙ ap (λ (d : Db). d.events) kept ∙ stored;
        enqueued =
            rw jobs at (enqueue_all-IsEnqueued env h id state event.issue_keys _ told there found);
        ended =
            step-enqueue_all env h id state event.issue_keys told
            ∙ ap (λ m. m + 4 * length event.issue_keys) there;
      }

  -- What the insert of a row with a new key can come to.
  abbrev IsAnswered : EventRow → World → Result (Unit {0}) × World → Type 0
  IsAnswered row w r =
      (r.1.jobs ≡ w.jobs)
      × (r.1.notices ≡ w.notices)
      × (((r.0 ≡ ok tt) × (r.1.events ≡ w.events ++ row ∷ [])) ⊎ ((e : StoreError) × (r.0 ≡ err e)))

  insert-IsAnswered :
      (x : Fault) (row : EventRow) (w : World)
      → env.fault w.step ≡ x
      → contains row.idempotency_key (event_keys w.events) ≡ false
      → IsAnswered row w (exec env (insert_event row) w)
  unfolding exec insert_event
  insert-IsAnswered refused row w f new =
      (ground arith, ground arith, inr (unavailable, ground arith))
  insert-IsAnswered unacknowledged row w f new =
      (ground arith, ground arith, inr (unavailable, ground arith))
  insert-IsAnswered delivered row w f new = elim (Bool-cases (Events.fits_columns row)) [
    | inr k ↦ (ground arith, ground arith, inr (violation, ground arith))
    | inl k ↦ elim (Bool-cases (contains row.id (event_ids w.events))) [
      | inl t ↦ (ground arith, ground arith, inr (violation, ground arith))
      | inr n ↦ (ground arith, ground arith, inl (ground arith, ground arith))
    ]
  ]

  after_insert-IsHandled :
      (IsWanted : NormalizedEvent → WorkflowState → Type 0) (event : NormalizedEvent)
      (state : WorkflowState) (n : ℕ) (id : Text) (received_at : ℕ) (w : World)
      (r : Result (Unit {0})) (v : World)
      → id ≡ env.uuid n
      → received_at ≡ env.now (n + 1)
      → v.step ≡ n + 3
      → IsWanted event state
      → event.issue_keys ≢ []
      → let stamped = record event { id = id; received_at = received_at } in
        IsAnswered (Events.to_row stamped) w (r, v)
        → IsRun IsWanted w (after_insert env h r stamped state v)
  unfolding after_insert
  after_insert-IsHandled IsWanted event state n id received_at w (err e) v _ _ _ wanted some_key
        (jobs, notices, _) =
      failed event state wanted refl jobs notices
  after_insert-IsHandled IsWanted event state n id received_at w (ok _) v own at_time here wanted
        some_key (jobs, notices, a) =
      elim a [
        | inr (e, x) ↦ cc
        | inl (_, stored) ↦ taken event state wanted some_key (
            after_insert-IsTaken event state n id received_at w v own at_time here jobs notices
              stored)
      ]

  step-insert :
      (w : World) (row : EventRow)
      → (exec env (insert_event row) (bump (bump w))).1.step ≡ w.step + 3
  unfolding exec insert_event
  step-insert w row = ground arith

  accept-IsHandled :
      (IsWanted : NormalizedEvent → WorkflowState → Type 0) (event : NormalizedEvent)
      (state : WorkflowState) (w : World)
      → contains event.idempotency_key (event_keys w.events) ≡ false
      → IsWanted event state
      → event.issue_keys ≢ []
      → IsRun IsWanted w (accept env h event state w)
  unfolding accept Events.insert new_uuid time_now Events.to_row
  accept-IsHandled IsWanted event state w new wanted some_key =
      let id = env.uuid w.step in
      let received_at = env.now (bump w).step in
      let v = bump (bump w) in
      let row = Events.to_row (record event { id = id; received_at = received_at }) in
      let (r, v') = exec env (insert_event row) v in
      after_insert-IsHandled IsWanted event state w.step id received_at w r v' refl refl
        (step-insert w row) wanted some_key (insert-IsAnswered (env.fault v.step) row v refl new)

  -- The state that the handler asks Jira for on behalf of an event, by its kind.
  pub data IsWanted (raw : Payload) (event : NormalizedEvent) (state : WorkflowState) : Type 0 where
    done_emoji :
        event.event_type ≡ emoji_award
        → event.emoji_name ≡ h.workflow.done_emoji
        → state ≡ done
        → IsWanted raw event state
    branch_push :
        (before : Text)
        → event.event_type ≡ push
        → unmarshal set_before [] raw ≡ Json.ok before
        → (is_new_branch before || is_target_branch h.workflow event) ≡ true
        → classify event (rules_cfg env h) ≡ some state
        → IsWanted raw event state
    merge_request :
        event.event_type ≢ push
        → event.event_type ≢ emoji_award
        → classify event (rules_cfg env h) ≡ some state
        → IsWanted raw event state

  abbrev pub IsFor : Payload → NormalizedEvent → NormalizedEvent → WorkflowState → Type 0
  IsFor raw event e state = (e ≡ event) × IsWanted raw e state

  -- A reply without any effect.
  pub replies :
      (P : NormalizedEvent → WorkflowState → Type 0) (reply : Reply) (w : World)
      → code reply ≢ 202
      → IsRun P w (pure reply w)
  replies P reply w c = kept c refl refl

  module _ (raw : Payload) (w : World) (event : NormalizedEvent)
      (new : contains event.idempotency_key (event_keys w.events) ≡ false) where
    abbrev IsDone : Reply × World → Type 0
    IsDone = IsRun (IsFor raw event) w

    accept_keys-IsDone :
        (keys : List Text) (reason : Text) (state : WorkflowState)
        → event.issue_keys ≡ keys
        → IsWanted raw event state
        → IsDone (accept_keys env h keys reason event state w)
    accept_keys-IsDone [] reason state e wanted = replies _ _ w (omega arith)
    accept_keys-IsDone (key ∷ keys) reason state e wanted =
        accept-IsHandled (IsFor raw event) event state w new (refl, wanted) (λ x. cc)

    handle_emoji_award-IsDone :
        event.event_type ≡ emoji_award → IsDone (handle_emoji_award env h event w)
    unfolding handle_emoji_award
    handle_emoji_award-IsDone kind = elim (Bool-cases (event.emoji_name == h.workflow.done_emoji)) [
      | inr e ↦ rw e (replies _ _ w (omega arith))
      | inl e ↦ rw e (
          accept_keys-IsDone event.issue_keys _ done refl (done_emoji kind ((==_iff _ _).0 e) refl))
    ]

    classified-IsDone :
        (o : Option WorkflowState)
        → ((state : WorkflowState) → o ≡ some state → IsWanted raw event state)
        → IsDone (classified env h o event w)
    unfolding classified
    classified-IsDone none wanted = replies _ _ w (omega arith)
    classified-IsDone (some state) wanted =
        accept_keys-IsDone event.issue_keys _ state refl (wanted state refl)

    pub with_keys-IsDone :
        (kind : EventType)
        → event.event_type ≡ kind
        → ((before : Text) × (unmarshal set_before [] raw ≡ Json.ok before)
            × ((is_new_branch before || is_target_branch h.workflow event) ≡ true))
          ⊎ (kind ≢ push)
        → IsDone (with_keys env h kind event w)
    unfolding with_keys
    with_keys-IsDone emoji_award k p = handle_emoji_award-IsDone k
    with_keys-IsDone push k (inl (before, b, t)) =
        classified-IsDone _ (λ s e. branch_push before k b t e)
    with_keys-IsDone push k (inr p) = absurd (p refl)
    with_keys-IsDone mr_opened k p =
        classified-IsDone _ (λ s e. merge_request (λ x. cc) (λ x. cc) e)
    with_keys-IsDone mr_merged k p =
        classified-IsDone _ (λ s e. merge_request (λ x. cc) (λ x. cc) e)
    with_keys-IsDone mr_draft k p = classified-IsDone _ (λ s e. merge_request (λ x. cc) (λ x. cc) e)
    with_keys-IsDone unrecognized k p =
        classified-IsDone _ (λ s e. merge_request (λ x. cc) (λ x. cc) e)
