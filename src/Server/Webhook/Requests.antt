-- ===== src/Server/Webhook/Requests.antt =====
-- The checks of `handleGitLab` that come before an event's issue keys are found.
use mathlib.Core.Path.{subst}
use glsync.Base.{
  ℕ, ◌+◌, length, Text, [], ◌∷◌, ◌++◌, Bool, true, false, not, ◌&&◌, ◌||◌, ◌≡◌, ◌≢◌, ◌⊎◌, refl, sym,
  ap, ◌∙◌, arith, contains, Bool-cases, inl, inr, ==_iff,
}
use glsync.Json.{Payload, Decoded, unmarshal}
use glsync.Json
use glsync.Domain.{
  EventType, push, mr_opened, mr_merged, mr_draft, emoji_award, unrecognized, NormalizedEvent,
}
use glsync.Domain.States.{WorkflowState}
use glsync.Store.{
  Db, World, Env, Fault, delivered, refused, unacknowledged, unavailable, Result, ok, err,
  StoreError,
}
use glsync.Store.Run.{exec, bump, time_now}
use glsync.Store.Events
use glsync.Store.Events.{event_keys, insert_event}
use glsync.Gitlab.Signature.{validate_token}
use glsync.Gitlab.Parser.{parse, is_new_branch}
use glsync.Gitlab.IssueKey.{issue_keys_from_event}
use glsync.Server.{Reply}
use glsync.Server.Webhook.{
  Body, read, over_limit, broken, Request, Handler, set_before, is_target_branch, extract,
  filter_push, fresh, checked, recognized, parsed, with_body, handle_gitlab,
}
use glsync.Server.Webhook.Plugins.{notices_of}
use glsync.Server.Webhook.Enqueue.{IsEnqueued}
use glsync.Server.Webhook.Decisions.{
  IsHandled, kept, failed, taken, IsRun, IsWanted, replies, with_keys-IsDone,
}

validated : (token secret : Text) → validate_token token secret ≡ true → token ≡ secret
unfolding validate_token
validated token secret = (==_iff token secret).0

de_morgan : (a b : Bool) → (not a && not b) ≡ not (a || b)
de_morgan a b = ground arith

module _ (env : Env) (h : Handler) where
  -- Reading the clock or asking a question leaves the tables and the notices.
  IsSame : World → World → Type 0
  IsSame w v = (v.db ≡ w.db) × (v.notices ≡ w.notices)

  rebase :
      {P Q : NormalizedEvent → WorkflowState → Type 0} (w v : World) {reply : Reply} {w' : World}
      → IsSame w v
      → ((event : NormalizedEvent) (state : WorkflowState) → P event state → Q event state)
      → IsHandled env h P v reply w'
      → IsHandled env h Q w reply w'
  unfolding IsSame
  rebase w v (d, n) f (kept c x y) = kept c (x ∙ d) (y ∙ n)
  rebase w v (d, n) f (failed event state p e x y) =
      failed event state (f event state p) e (x ∙ ap (λ (b : Db). b.jobs) d) (y ∙ n)
  rebase w v {reply} {w'} (d, n) f (taken event state p k t) =
      taken event state (f event state p) k (record {
        first = t.first;
        id = t.id;
        new_id = t.new_id;
        received_at = t.received_at;
        on_receipt = t.on_receipt;
        ended = t.ended;
        answered = t.answered;
        told =
            t.told
            ∙ ap
                (λ ns.
                  ns
                  ++ notices_of h.event_handlers
                      (record event { id = t.id; received_at = t.received_at }))
                n;
        stored =
            t.stored
            ∙ ap
                (λ (b : Db).
                  b.events
                  ++ Events.to_row (record event { id = t.id; received_at = t.received_at }) ∷ [])
                d;
        enqueued =
            subst
              (λ (b : Db).
                IsEnqueued env t.id state h.max_attempts event.issue_keys
                  (t.first + 3 + length h.event_handlers) b.jobs w'.jobs)
              d t.enqueued;
      })

  exists-kept :
      (x : Fault) (key : Text) (w : World)
      → env.fault w.step ≡ x
      → let r = Events.exists_by_idempotency_key env key w in
        IsSame w r.1
        × ((r.0 ≡ ok (contains key (event_keys w.events))) ⊎ ((e : StoreError) × (r.0 ≡ err e)))
  unfolding IsSame Events.exists_by_idempotency_key exec
  exists-kept delivered key w f = ((ground arith, ground arith), inl (ground arith))
  exists-kept refused key w f = ((ground arith, ground arith), inr (unavailable, ground arith))
  exists-kept unacknowledged key w f =
      ((ground arith, ground arith), inr (unavailable, ground arith))

  unfoldable pub with_found_keys : NormalizedEvent → NormalizedEvent
  with_found_keys event = record event {
    issue_keys =
        issue_keys_from_event h.workflow.project_key event.source_branch event.mr_title
          event.commit_messages;
  }

  unfoldable pub IsFrom :
      Payload → World → NormalizedEvent → NormalizedEvent → WorkflowState → Type 0
  IsFrom raw w e event state =
      (contains e.idempotency_key (event_keys w.events) ≡ false)
      × (e.event_type ≢ unrecognized)
      × (event ≡ with_found_keys e)
      × IsWanted env h raw event state

  IsPassed : Payload → NormalizedEvent → EventType → Type 0
  IsPassed raw event kind =
      ((before : Text) × (unmarshal set_before [] raw ≡ Json.ok before)
        × ((is_new_branch before || is_target_branch h.workflow event) ≡ true))
      ⊎ (kind ≢ push)

  module _ (raw : Payload) (event : NormalizedEvent) (w : World) where
    abbrev IsOver : Reply × World → Type 0
    IsOver = IsRun env h (IsFrom raw w event) w

    module _ (new : contains event.idempotency_key (event_keys w.events) ≡ false)
        (known : event.event_type ≢ unrecognized) where
      extract-IsOver : IsPassed raw event event.event_type → IsOver (extract env h event w)
      unfolding extract IsFrom with_found_keys IsSame IsPassed is_target_branch
      extract-IsOver passed =
          rebase w w (refl, refl) (λ e s (same, p). (new, known, same, p))
            (with_keys-IsDone env h raw w (with_found_keys event) new event.event_type refl passed)

      filter_push-IsOver :
          (before : Decoded Text)
          → unmarshal set_before [] raw ≡ before
          → IsOver (filter_push env h before event w)
      unfolding filter_push IsPassed
      filter_push-IsOver (Json.err e) b = replies env h _ _ w (omega arith)
      filter_push-IsOver (Json.ok before) b =
          elim (Bool-cases (is_new_branch before || is_target_branch h.workflow event)) [
            | inl t ↦ rw (de_morgan, t) (extract-IsOver (inl (before, b, t)))
            | inr t ↦ rw (de_morgan, t) (replies env h _ _ w (omega arith))
          ]

      fresh-IsOver :
          (kind : EventType) → event.event_type ≡ kind → IsOver (fresh env h kind raw event w)
      unfolding fresh IsPassed
      fresh-IsOver push k = filter_push-IsOver _ refl
      fresh-IsOver mr_opened k = extract-IsOver (inr (λ x. cc))
      fresh-IsOver mr_merged k = extract-IsOver (inr (λ x. cc))
      fresh-IsOver mr_draft k = extract-IsOver (inr (λ x. cc))
      fresh-IsOver emoji_award k = extract-IsOver (inr (λ x. cc))
      fresh-IsOver unrecognized k = extract-IsOver (inr (λ x. cc))

  module _ (raw : Payload) (event : NormalizedEvent) (w : World) where
    checked-IsOver :
        (r : Result Bool) (v : World)
        → IsSame w v
        → event.event_type ≢ unrecognized
        → (r ≡ ok (contains event.idempotency_key (event_keys w.events)))
          ⊎ ((e : StoreError) × (r ≡ err e))
        → IsOver raw event w (checked env h r raw event v)
    unfolding checked IsSame IsFrom
    checked-IsOver (err e) v (d, n) known p = kept (omega arith) d n
    checked-IsOver (ok true) v (d, n) known p = kept (omega arith) d n
    checked-IsOver (ok false) v (d, n) known (inr (e, x)) = cc
    checked-IsOver (ok false) v (d, n) known (inl x) =
        let new : contains event.idempotency_key (event_keys w.events) ≡ false = ground arith in
        let moved =
          subst (λ (b : Db). contains event.idempotency_key (event_keys b.events) ≡ false) (sym d)
            new in
        rebase w v (d, n) (λ e s (_, a, b, c). (new, a, b, c))
          (fresh-IsOver raw event v moved known event.event_type refl)

    asked-IsOver :
        event.event_type ≢ unrecognized
        → IsOver raw event w (
            let (r, v) = Events.exists_by_idempotency_key env event.idempotency_key w in
            checked env h r raw event v)
    asked-IsOver known =
        let (same, p) = exists-kept (env.fault w.step) event.idempotency_key w refl in
        checked-IsOver _ _ same known p

    recognized-IsOver :
        (kind : EventType)
        → event.event_type ≡ kind
        → IsOver raw event w (recognized env h kind raw event w)
    unfolding recognized
    recognized-IsOver unrecognized k = replies env h _ _ w (omega arith)
    recognized-IsOver push k = asked-IsOver (λ x. cc)
    recognized-IsOver mr_opened k = asked-IsOver (λ x. cc)
    recognized-IsOver mr_merged k = asked-IsOver (λ x. cc)
    recognized-IsOver mr_draft k = asked-IsOver (λ x. cc)
    recognized-IsOver emoji_award k = asked-IsOver (λ x. cc)

  -- The event and the state for which a request is accepted: the token is the secret; the body is read
  -- and parsed to an event that is recognized and whose key is new; the event gets the issue keys of
  -- its texts; and the state is the one that its kind asks for.
  unfoldable pub IsRequested : Request → World → NormalizedEvent → WorkflowState → Type 0
  IsRequested r w event state =
      (r.token ≡ h.webhook_secret)
      × ((raw : Payload) × (r.body ≡ read raw)
          × ((now : ℕ) × (e : NormalizedEvent) × (parse raw now ≡ Json.ok e)
              × IsFrom raw w e event state))

  parsed-IsHandled :
      (r : Request) (w : World) (raw : Payload) (now : ℕ) (result : Decoded NormalizedEvent)
      → r.token ≡ h.webhook_secret
      → r.body ≡ read raw
      → parse raw now ≡ result
      → IsRun env h (IsRequested r w) w (parsed env h result raw (bump w))
  unfolding parsed IsRequested IsSame IsFrom
  parsed-IsHandled r w raw now (Json.err e) t b p = kept (omega arith) refl refl
  parsed-IsHandled r w raw now (Json.ok event) t b p =
      rebase w (bump w) (refl, refl) (λ e s f. (t, (raw, b, (now, event, p, f))))
        (recognized-IsOver raw event (bump w) event.event_type refl)

  with_body-IsHandled :
      (r : Request) (w : World) (body : Body)
      → r.token ≡ h.webhook_secret
      → r.body ≡ body
      → IsRun env h (IsRequested r w) w (with_body env h body w)
  unfolding with_body time_now
  with_body-IsHandled r w over_limit t b = replies env h _ _ w (omega arith)
  with_body-IsHandled r w broken t b = replies env h _ _ w (omega arith)
  with_body-IsHandled r w (read raw) t b = parsed-IsHandled r w raw (env.now w.step) _ t b refl

  -- A request that is not accepted leaves the tables and calls no plugin, unless the reply is the
  -- internal error of a failed insert, after which there is no job either. A request is accepted only
  -- with the right token, for a recognized event with a new idempotency key and at least one issue key,
  -- and for the state that its kind asks for: then the event is stored under a uuid and the time read
  -- next, the plugins are told of it, and the keys have their turns, in their order, until the handler ends:
  -- each adds one job under its own uuid, unless its own statement is refused, its uuid is the id of
  -- a job, or the bound on attempts does not fit its column.
  pub handle_gitlab-IsHandled :
      (r : Request) (w : World)
      → let (reply, w') = handle_gitlab env h r w in IsHandled env h (IsRequested r w) w reply w'
  unfolding handle_gitlab IsRequested
  handle_gitlab-IsHandled r w = elim (Bool-cases (validate_token r.token h.webhook_secret)) [
    | inr e ↦ rw e (replies env h _ _ w (omega arith))
    | inl e ↦ rw e (with_body-IsHandled r w r.body (validated r.token h.webhook_secret e) refl)
  ]
