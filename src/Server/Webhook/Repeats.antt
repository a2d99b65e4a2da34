-- ===== src/Server/Webhook/Repeats.antt =====
-- Redeliveries of a payload to internal/server/webhook_handler.go.
use mathlib.Core.Path.{subst}
use glsync.Base.{
  ℕ, List, [], ◌∷◌, ◌++◌, true, ◌≡◌, ◌≢◌, refl, sym, ap, ◌∙◌, arith, contains, ==_refl,
  contains-append,
}
use glsync.Json.{Payload}
use glsync.Json
use glsync.Domain.{NormalizedEvent}
use glsync.Domain.States.{WorkflowState}
use glsync.Store.{World, Env, EventRow}
use glsync.Store.Events
use glsync.Store.Events.{event_keys}
use glsync.Gitlab.Parser.{parse}
use glsync.Gitlab.Parser.Kinds.{parse-same_key}
use glsync.Server.{Reply, code}
use glsync.Server.Webhook.{read, internal_error, Request, Handler, handle_gitlab}
use glsync.Server.Webhook.Decisions.{IsTaken, kept, failed, taken}
use glsync.Server.Webhook.Requests.{IsRequested, IsFrom, with_found_keys, handle_gitlab-IsHandled}

not_both : {reply : Reply} → reply ≡ internal_error → code reply ≢ 202
not_both h = λ e. ground arith

read_inj : {a b : Payload} → read a ≡ read b → a ≡ b
read_inj h = cc

module _ (env : Env) (h : Handler) where
  -- What a request asks for is no event of a key that is stored.
  not-IsRequested :
      (r : Request) (w : World) (raw : Payload) (now : ℕ) {e : NormalizedEvent}
      → r.body ≡ read raw
      → parse raw now ≡ Json.ok e
      → contains e.idempotency_key (event_keys w.events) ≡ true
      → (event : NormalizedEvent) (state : WorkflowState) → ¬ IsRequested env h r w event state
  unfolding IsRequested IsFrom
  not-IsRequested r w raw now {e} b p known event state
        (_, (raw', b', (now', e', p', (new, _, _, _)))) =
      let same : raw' ≡ raw = read_inj (sym b' ∙ b) in
      let keys = parse-same_key raw now now' p (subst (λ x. parse x now' ≡ Json.ok e') same p') in
      ground arith

  -- A payload whose idempotency key is stored already changes no table and calls no plugin, whatever
  -- faults are met, and is not answered as accepted.
  handle_gitlab-known :
      (r : Request) (w : World) (raw : Payload) (now : ℕ) (e : NormalizedEvent)
      → r.body ≡ read raw
      → parse raw now ≡ Json.ok e
      → contains e.idempotency_key (event_keys w.events) ≡ true
      → let (reply, w') = handle_gitlab env h r w in
        (code reply ≢ 202) × (w'.db ≡ w.db) × (w'.notices ≡ w.notices)
  handle_gitlab-known r w raw now e b p known = elim (handle_gitlab-IsHandled env h r w) [
    | kept c d n ↦ (c, d, n)
    | failed event state q _ _ _ ↦ absurd (not-IsRequested r w raw now b p known event state q)
    | taken event state q _ _ ↦ absurd (not-IsRequested r w raw now b p known event state q)
  ]

event_keys-append :
    (rows rows' : List EventRow) → event_keys (rows ++ rows') ≡ event_keys rows ++ event_keys rows'
event_keys-append [] rows' = refl
event_keys-append (r ∷ rows) rows' =
    ap (λ ks. r.idempotency_key ∷ ks) (event_keys-append rows rows')

-- A row's key is among the keys of the table, and stays so when rows are added.
stored-contains :
    (row : EventRow) (rows later : List EventRow)
    → contains row.idempotency_key (event_keys ((rows ++ row ∷ []) ++ later)) ≡ true
unfolding contains
stored-contains row rows later = ground (
  arith,
  event_keys-append (rows ++ row ∷ []) later,
  event_keys-append rows (row ∷ []),
  contains-append row.idempotency_key (event_keys (rows ++ row ∷ [])) (event_keys later),
  contains-append row.idempotency_key (event_keys rows) (event_keys (row ∷ [])),
  ==_refl row.idempotency_key,
)

module _ (env : Env) (h : Handler) where
  accepted-known :
      (r : Request) (w w' : World) (event : NormalizedEvent) (state : WorkflowState) {reply : Reply}
      (later : List EventRow)
      → IsRequested env h r w event state
      → IsTaken env h event state w reply w'
      → (raw : Payload) × (now : ℕ) × (e : NormalizedEvent) × (r.body ≡ read raw)
        × (parse raw now ≡ Json.ok e)
        × (contains e.idempotency_key (event_keys (w'.events ++ later)) ≡ true)
  unfolding IsRequested IsFrom with_found_keys Events.to_row
  accepted-known r w w' event state later (_, (raw, b, (now, e, p, (_, _, same, _)))) t =
      let row = Events.to_row (record event { id = t.id; received_at = t.received_at }) in
      (
        raw,
        now,
        e,
        b,
        p,
        rw t.stored (
            subst (λ k. contains k (event_keys ((w.events ++ row ∷ []) ++ later)) ≡ true)
              (ap (λ (x : NormalizedEvent). x.idempotency_key) same)
              (stored-contains row w.events later)),
      )

  -- Once a request is accepted, another with the same payload, at any later time and under any faults,
  -- changes no table and calls no plugin, as long as no event is removed in between.
  pub handle_gitlab-repeated :
      (r r' : Request) (w v : World) (later : List EventRow)
      → code (handle_gitlab env h r w).0 ≡ 202
      → r'.body ≡ r.body
      → v.events ≡ (handle_gitlab env h r w).1.events ++ later
      → let (reply, v') = handle_gitlab env h r' v in
        (code reply ≢ 202) × (v'.db ≡ v.db) × (v'.notices ≡ v.notices)
  handle_gitlab-repeated r r' w v later c same grown = elim (handle_gitlab-IsHandled env h r w) [
    | kept other _ _ ↦ absurd (other c)
    | failed event state q a _ _ ↦ absurd (not_both a c)
    | taken event state q _ t ↦
        let (raw, now, e, b, p, known) = accepted-known r w _ event state later q t in
        handle_gitlab-known env h r' v raw now e (same ∙ b) p (rw grown known)
  ]
