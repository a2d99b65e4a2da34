-- ===== src/Server/Webhook/Keeps.antt =====
-- The constraints of the schema under the handlers of internal/server.
use glsync.Base.{
  ◌+◌, Text, List, [], ◌∷◌, Bool, true, false, Bool-cases, inl, inr, Option, none, some, refl, not,
  ◌&&◌, ◌==◌,
}
use glsync.Json.{Payload, Decoded, unmarshal}
use glsync.Json
use glsync.Domain.{
  EventType, push, mr_opened, mr_merged, mr_draft, emoji_award, unrecognized, NormalizedEvent,
}
use glsync.Domain.States.{WorkflowState, done}
use glsync.Workflow.Rules.{classify}
use glsync.Gitlab.Parser.{is_new_branch, parse}
use glsync.Gitlab.Signature.{validate_token}
use glsync.Store.{World, Env, Result, ok, err}
use glsync.Store.Run.{bump, time_now, new_uuid}
use glsync.Store.Events
use glsync.Store.Invariant.{IsValid}
use glsync.Store.Invariant.Calls.{perform, perform-IsValid}
use glsync.Store.Invariant.Calls
use glsync.Worker.Processor.{new_job}
use glsync.Worker.Processor.Keeps.{same-IsValid}
use glsync.Server.Webhook.{
  Handler, Request, Body, over_limit, broken, read, enqueue_all, after_insert, accept, accept_keys,
  handle_emoji_award, rules_cfg, classified, with_keys, extract, set_before, is_target_branch,
  filter_push, fresh, checked, recognized, parsed, with_body, handle_gitlab,
}
use glsync.Server.Webhook.Plugins.{db-run_handlers}
use glsync.Server.Webhook.Enqueue.{after_key, enqueue_all_step}

module _ (env : Env) (h : Handler) where
  enqueue_all-IsValid :
      (event_id : Text) (state : WorkflowState) (keys : List Text) (w : World)
      → IsValid w.db
      → IsValid (enqueue_all env h event_id state keys w).1.db
  unfolding enqueue_all after_key new_job new_uuid time_now perform
  enqueue_all-IsValid event_id state [] w v = v
  enqueue_all-IsValid event_id state (key ∷ keys) w v =
      rw (enqueue_all_step env h event_id state key keys w) (
        enqueue_all-IsValid event_id state keys (after_key env h event_id state key w)
          (perform-IsValid env (Calls.enqueue _) (bump (bump (bump w))) refl v))

  after_insert-IsValid :
      (r : Result (Unit {0})) (event : NormalizedEvent) (state : WorkflowState) (w : World)
      → IsValid w.db
      → IsValid (after_insert env h r event state w).1.db
  unfolding after_insert
  after_insert-IsValid (err e) event state w v = v
  after_insert-IsValid (ok _) event state w v =
      enqueue_all-IsValid event.id state event.issue_keys _
        (same-IsValid (db-run_handlers h.event_handlers event w) v)

  accept-IsValid :
      (event : NormalizedEvent) (state : WorkflowState) (w : World)
      → IsValid w.db
      → IsValid (accept env h event state w).1.db
  unfolding accept new_uuid time_now perform
  accept-IsValid event state w v =
      let stamped = record event { id = env.uuid w.step; received_at = env.now (w.step + 1) } in
      let (r, stored) = Events.insert env stamped (bump (bump w)) in
      after_insert-IsValid r stamped state stored
        (perform-IsValid env (Calls.insert_event stamped) (bump (bump w)) tt v)

  accept_keys-IsValid :
      (keys : List Text) (reason : Text) (event : NormalizedEvent) (state : WorkflowState)
      (w : World)
      → IsValid w.db
      → IsValid (accept_keys env h keys reason event state w).1.db
  accept_keys-IsValid [] reason event state w v = v
  accept_keys-IsValid (key ∷ keys) reason event state w v = accept-IsValid event state w v

  classified-IsValid :
      (s : Option WorkflowState) (event : NormalizedEvent) (w : World)
      → IsValid w.db
      → IsValid (classified env h s event w).1.db
  unfolding classified
  classified-IsValid none event w v = v
  classified-IsValid (some state) event w v = accept_keys-IsValid event.issue_keys _ event state w v

  handle_emoji_award-IsValid :
      (event : NormalizedEvent) (w : World)
      → IsValid w.db
      → IsValid (handle_emoji_award env h event w).1.db
  unfolding handle_emoji_award
  handle_emoji_award-IsValid event w v =
      elim (Bool-cases (event.emoji_name == h.workflow.done_emoji)) [
        | inl e ↦ rw e (accept_keys-IsValid event.issue_keys _ event done w v)
        | inr e ↦ rw e v
      ]

  with_keys-IsValid :
      (t : EventType) (event : NormalizedEvent) (w : World)
      → IsValid w.db
      → IsValid (with_keys env h t event w).1.db
  unfolding with_keys
  with_keys-IsValid emoji_award event w v = handle_emoji_award-IsValid event w v
  with_keys-IsValid push event w v = classified-IsValid (classify event (rules_cfg env h)) event w v
  with_keys-IsValid mr_opened event w v =
      classified-IsValid (classify event (rules_cfg env h)) event w v
  with_keys-IsValid mr_merged event w v =
      classified-IsValid (classify event (rules_cfg env h)) event w v
  with_keys-IsValid mr_draft event w v =
      classified-IsValid (classify event (rules_cfg env h)) event w v
  with_keys-IsValid unrecognized event w v =
      classified-IsValid (classify event (rules_cfg env h)) event w v

  extract-IsValid :
      (event : NormalizedEvent) (w : World) → IsValid w.db → IsValid (extract env h event w).1.db
  unfolding extract
  extract-IsValid event w v = with_keys-IsValid event.event_type _ w v

  filter_push-IsValid :
      (before : Decoded Text) (event : NormalizedEvent) (w : World)
      → IsValid w.db
      → IsValid (filter_push env h before event w).1.db
  unfolding filter_push
  filter_push-IsValid (Json.err x) event w v = v
  filter_push-IsValid (Json.ok before) event w v =
      elim (Bool-cases (not (is_new_branch before) && not (is_target_branch h.workflow event))) [
        | inl e ↦ rw e v
        | inr e ↦ rw e (extract-IsValid event w v)
      ]

  fresh-IsValid :
      (t : EventType) (raw : Payload) (event : NormalizedEvent) (w : World)
      → IsValid w.db
      → IsValid (fresh env h t raw event w).1.db
  unfolding fresh
  fresh-IsValid push raw event w v = filter_push-IsValid (unmarshal set_before [] raw) event w v
  fresh-IsValid mr_opened raw event w v = extract-IsValid event w v
  fresh-IsValid mr_merged raw event w v = extract-IsValid event w v
  fresh-IsValid mr_draft raw event w v = extract-IsValid event w v
  fresh-IsValid emoji_award raw event w v = extract-IsValid event w v
  fresh-IsValid unrecognized raw event w v = extract-IsValid event w v

  checked-IsValid :
      (r : Result Bool) (raw : Payload) (event : NormalizedEvent) (w : World)
      → IsValid w.db
      → IsValid (checked env h r raw event w).1.db
  unfolding checked
  checked-IsValid (err x) raw event w v = v
  checked-IsValid (ok true) raw event w v = v
  checked-IsValid (ok false) raw event w v = fresh-IsValid event.event_type raw event w v

  asked-IsValid :
      (raw : Payload) (event : NormalizedEvent) (w : World)
      → IsValid w.db
      → let (known, w') = Events.exists_by_idempotency_key env event.idempotency_key w in
        IsValid (checked env h known raw event w').1.db
  unfolding perform
  asked-IsValid raw event w v =
      let (known, w') = Events.exists_by_idempotency_key env event.idempotency_key w in
      checked-IsValid known raw event w'
        (perform-IsValid env (Calls.exists_by_idempotency_key event.idempotency_key) w tt v)

  recognized-IsValid :
      (t : EventType) (raw : Payload) (event : NormalizedEvent) (w : World)
      → IsValid w.db
      → IsValid (recognized env h t raw event w).1.db
  unfolding recognized
  recognized-IsValid unrecognized raw event w v = v
  recognized-IsValid push raw event w v = asked-IsValid raw event w v
  recognized-IsValid mr_opened raw event w v = asked-IsValid raw event w v
  recognized-IsValid mr_merged raw event w v = asked-IsValid raw event w v
  recognized-IsValid mr_draft raw event w v = asked-IsValid raw event w v
  recognized-IsValid emoji_award raw event w v = asked-IsValid raw event w v

  parsed-IsValid :
      (d : Decoded NormalizedEvent) (raw : Payload) (w : World)
      → IsValid w.db
      → IsValid (parsed env h d raw w).1.db
  unfolding parsed
  parsed-IsValid (Json.err x) raw w v = v
  parsed-IsValid (Json.ok event) raw w v = recognized-IsValid event.event_type raw event w v

  with_body-IsValid : (b : Body) (w : World) → IsValid w.db → IsValid (with_body env h b w).1.db
  unfolding with_body time_now
  with_body-IsValid over_limit w v = v
  with_body-IsValid broken w v = v
  with_body-IsValid (read raw) w v = parsed-IsValid (parse raw (env.now w.step)) raw (bump w) v

  pub handle_gitlab-IsValid :
      (r : Request) (w : World) → IsValid w.db → IsValid (handle_gitlab env h r w).1.db
  unfolding handle_gitlab
  handle_gitlab-IsValid r w v = elim (Bool-cases (validate_token r.token h.webhook_secret)) [
    | inl e ↦ rw e (with_body-IsValid r.body w v)
    | inr e ↦ rw e v
  ]
