-- ===== src/Server/Webhook/Races.antt =====
-- Two deliveries of one payload to internal/server/webhook_handler.go, of which the second was checked
-- before the first stored its event.
use glsync.Base.{
  ◌+◌, Text, List, [], ◌∷◌, true, false, Bool-cases, ◌≡◌, ◌⊎◌, inl, inr, refl, ap, ◌∙◌, arith,
  contains,
}
use glsync.Domain.{NormalizedEvent, Job}
use glsync.Domain.States.{WorkflowState}
use glsync.Store.{
  Db, World, Env, Fault, delivered, refused, unacknowledged, unavailable, violation, Result, ok,
  err, StoreError,
}
use glsync.Store.Run.{exec, bump, time_now, new_uuid}
use glsync.Store.Jobs.{insert_job, event_ids, enqueue}
use glsync.Store.Events
use glsync.Store.Events.{event_keys, insert_event}
use glsync.Store.{EventRow}
use glsync.Worker.Processor.{new_job}
use glsync.Server.{Reply, accepted}
use glsync.Server.Webhook.{Handler, internal_error, run_handlers, enqueue_all, after_insert, accept}
use glsync.Server.Webhook.Plugins.{db-run_handlers}
use glsync.Server.Webhook.Enqueue.{after_key, enqueue_all_step}

module _ (env : Env) (h : Handler) where
  db-enqueue :
      (j : Job) (w : World)
      → contains j.event_id (event_ids w.events) ≡ false
      → (enqueue env j w).1.db ≡ w.db
  unfolding enqueue exec insert_job
  db-enqueue j w h = ground arith

  -- Without the event's row no job is added.
  module _ (event_id : Text) (state : WorkflowState) where
    db-after_key :
        (key : Text) (w : World)
        → contains event_id (event_ids w.events) ≡ false
        → (after_key env h event_id state key w).db ≡ w.db
    unfolding after_key new_job new_uuid time_now
    db-after_key key w e = db-enqueue _ (bump (bump (bump w))) e

    db-enqueue_all :
        (keys : List Text) (w : World)
        → contains event_id (event_ids w.events) ≡ false
        → (enqueue_all env h event_id state keys w).1.db ≡ w.db
    unfolding enqueue_all
    db-enqueue_all [] w e = refl
    db-enqueue_all (key ∷ keys) w e =
        let kept = db-after_key key w e in
        rw (enqueue_all_step env h event_id state key keys w) (
          db-enqueue_all keys (after_key env h event_id state key w)
            (ap (λ (d : Db). contains event_id (event_ids d.events)) kept ∙ e)
          ∙ kept)

  -- The insert of a row whose key is taken.
  insert_taken :
      (x : Fault) (row : EventRow) (w : World)
      → env.fault w.step ≡ x
      → contains row.idempotency_key (event_keys w.events) ≡ true
      → let r = exec env (insert_event row) w in
        (r.1.db ≡ w.db) × ((r.0 ≡ ok tt) ⊎ ((e : StoreError) × (r.0 ≡ err e)))
  unfolding exec insert_event
  insert_taken delivered row w f taken = elim (Bool-cases (Events.fits_columns row)) [
    | inl k ↦ (ground arith, inl (ground arith))
    | inr k ↦ (ground arith, inr (violation, ground arith))
  ]
  insert_taken refused row w f taken = (ground arith, inr (unavailable, ground arith))
  insert_taken unacknowledged row w f taken = (ground arith, inr (unavailable, ground arith))

  abbrev pub IsEmptyHanded : Text → List Text → WorkflowState → World → Reply → World → Type 0
  IsEmptyHanded id keys state w reply w' =
      (w'.db ≡ w.db) × ((reply ≡ internal_error) ⊎ (reply ≡ accepted 202 id keys state))

  after_insert-IsEmptyHanded :
      (event : NormalizedEvent) (state : WorkflowState) (w v : World) (r : Result (Unit {0}))
      → (r ≡ ok tt) ⊎ ((e : StoreError) × (r ≡ err e))
      → v.db ≡ w.db
      → contains event.id (event_ids w.events) ≡ false
      → let r' = after_insert env h r event state v in
        IsEmptyHanded event.id event.issue_keys state w r'.0 r'.1
  unfolding after_insert
  after_insert-IsEmptyHanded event state w v (err e) p same new = (same, inl refl)
  after_insert-IsEmptyHanded event state w v (ok _) p same new =
      let (_, told) = run_handlers h.event_handlers event v in
      let kept : told.db ≡ w.db = db-run_handlers h.event_handlers event v ∙ same in
      let fresh = ap (λ (d : Db). contains event.id (event_ids d.events)) kept ∙ new in
      (db-enqueue_all event.id state event.issue_keys told fresh ∙ kept, inr refl)

  -- An event whose key another delivery has stored since it was checked, and whose new uuid is the id of
  -- no event, adds no row to any table and changes none; the reply is an internal error, or says all the
  -- same that the event is accepted, under that uuid.
  pub accept-IsEmptyHanded :
      (event : NormalizedEvent) (state : WorkflowState) (w : World)
      → contains event.idempotency_key (event_keys w.events) ≡ true
      → contains (env.uuid w.step) (event_ids w.events) ≡ false
      → IsEmptyHanded
          (env.uuid w.step)
          event.issue_keys
          state
          w
          (accept env h event state w).0
          (accept env h event state w).1
  unfolding accept Events.insert Events.to_row new_uuid time_now
  accept-IsEmptyHanded event state w taken new =
      let stamped = record event { id = env.uuid w.step; received_at = env.now (w.step + 1) } in
      let v = bump (bump w) in
      let (same, p) = insert_taken (env.fault v.step) (Events.to_row stamped) v refl taken in
      after_insert-IsEmptyHanded stamped state w _ _ p same new
