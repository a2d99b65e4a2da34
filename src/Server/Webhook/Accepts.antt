-- ===== src/Server/Webhook/Accepts.antt =====
-- The way of an accepted request through internal/server/webhook_handler.go.
use glsync.Base.{
  ℕ, ◌+◌, Text, text, List, [], ◌∷◌, true, false, ◌||◌, Option, none, some, ◌≡◌, ◌≢◌, refl, sym, ap,
  ◌∙◌, arith, contains, ==_iff,
}
use glsync.Json.{Payload, Decoded, unmarshal}
use glsync.Json
use glsync.Domain.{
  EventType, push, mr_opened, mr_merged, mr_draft, emoji_award, unrecognized, NormalizedEvent,
}
use glsync.Domain.States.{WorkflowState, done}
use glsync.Workflow.Rules.{classify}
use glsync.Store.{fits_int32, World, Env, delivered}
use glsync.Store.Run.{exec, bump, time_now, new_uuid}
use glsync.Store.Jobs.{event_ids}
use glsync.Store.Events
use glsync.Store.Events.{event_keys, insert_event}
use glsync.Gitlab.Signature.{validate_token}
use glsync.Gitlab.Parser.{parse, is_new_branch}
use glsync.Server.{code}
use glsync.Server.Webhook.{
  read, Request, Handler, set_before, is_target_branch, after_insert, accept, accept_keys,
  handle_emoji_award, rules_cfg, classified, with_keys, extract, filter_push, fresh, checked,
  recognized, parsed, with_body, handle_gitlab,
}
use glsync.Server.Webhook.Decisions.{IsWanted, done_emoji, branch_push, merge_request}
use glsync.Server.Webhook.Requests.{with_found_keys}

module _ (env : Env) (h : Handler) where
  code-accept :
      (event : NormalizedEvent) (state : WorkflowState) (v : World)
      → env.fault (v.step + 2) ≡ delivered
      → fits_int32 event.mr_iid ≡ true
      → fits_int32 event.project_id ≡ true
      → contains event.idempotency_key (event_keys v.events) ≡ false
      → contains (env.uuid v.step) (event_ids v.events) ≡ false
      → code (accept env h event state v).0 ≡ 202
  unfolding accept after_insert Events.fits_columns Events.insert exec insert_event Events.to_row
      new_uuid time_now
  code-accept event state v f iid project new fresh_id = ground arith

  accept_keys-accept :
      (keys : List Text) (reason : Text) (event : NormalizedEvent) (state : WorkflowState)
      (v : World)
      → keys ≢ []
      → accept_keys env h keys reason event state v ≡ accept env h event state v
  accept_keys-accept [] reason event state v some_key = absurd (some_key refl)
  accept_keys-accept (k ∷ keys) reason event state v some_key = refl

  handle_emoji_award-accept :
      (event : NormalizedEvent) (v : World)
      → event.emoji_name ≡ h.workflow.done_emoji
      → event.issue_keys ≢ []
      → handle_emoji_award env h event v ≡ accept env h event done v
  unfolding handle_emoji_award
  handle_emoji_award-accept event v same some_key =
      rw ((==_iff event.emoji_name h.workflow.done_emoji).1 same)
        (accept_keys-accept event.issue_keys (text "no_issue_keys") event done v some_key)

  classified-accept :
      (event : NormalizedEvent) (state : WorkflowState) (o : Option WorkflowState) (v : World)
      → o ≡ some state
      → event.issue_keys ≢ []
      → classified env h o event v ≡ accept env h event state v
  unfolding classified
  classified-accept event state none v e some_key = cc
  classified-accept event state (some s) v e some_key =
      accept_keys-accept event.issue_keys (text "no_action") event s v some_key
      ∙ ap (λ x. accept env h event x v) (cc)

  with_keys-accept :
      (raw : Payload) (event : NormalizedEvent) (kind : EventType) (state : WorkflowState)
      (v : World)
      → event.event_type ≡ kind
      → kind ≢ unrecognized
      → IsWanted env h raw event state
      → event.issue_keys ≢ []
      → with_keys env h kind event v ≡ accept env h event state v
  unfolding with_keys
  with_keys-accept raw event kind state v k known (done_emoji k' same s) some_key =
      rw (sym k ∙ k', s) (handle_emoji_award-accept event v same some_key)
  with_keys-accept raw event kind state v k known (branch_push before k' b t c) some_key =
      rw (sym k ∙ k')
        (classified-accept event state (classify event (rules_cfg env h)) v c some_key)
  with_keys-accept raw event push state v k known (merge_request p q c) some_key = absurd (p k)
  with_keys-accept raw event emoji_award state v k known (merge_request p q c) some_key =
      absurd (q k)
  with_keys-accept raw event mr_opened state v k known (merge_request p q c) some_key =
      classified-accept event state (classify event (rules_cfg env h)) v c some_key
  with_keys-accept raw event mr_merged state v k known (merge_request p q c) some_key =
      classified-accept event state (classify event (rules_cfg env h)) v c some_key
  with_keys-accept raw event mr_draft state v k known (merge_request p q c) some_key =
      classified-accept event state (classify event (rules_cfg env h)) v c some_key
  with_keys-accept raw event unrecognized state v k known (merge_request p q c) some_key =
      absurd (known refl)

  module _ (raw : Payload) (e : NormalizedEvent) (state : WorkflowState)
      (known : e.event_type ≢ unrecognized)
      (wanted : IsWanted env h raw (with_found_keys env h e) state)
      (some_key : (with_found_keys env h e).issue_keys ≢ []) where
    extract-accept :
        (v : World) → extract env h e v ≡ accept env h (with_found_keys env h e) state v
    unfolding extract with_found_keys
    extract-accept v =
        with_keys-accept raw (with_found_keys env h e) e.event_type state v refl known wanted
          some_key

    IsPushed : Type 0
    IsPushed =
        (before : Text) × (unmarshal set_before [] raw ≡ Json.ok before)
        × ((is_new_branch before || is_target_branch h.workflow e) ≡ true)

    pushed : e.event_type ≡ push → IsPushed
    unfolding IsPushed with_found_keys is_target_branch
    pushed k = go wanted
      where
        go : IsWanted env h raw (with_found_keys env h e) state → IsPushed
        go (done_emoji k' _ _) = absurd (cc)
        go (branch_push before k' b t c) = (before, b, t)
        go (merge_request p _ _) = absurd (p k)

    fresh-accept :
        (kind : EventType) (v : World)
        → e.event_type ≡ kind
        → fresh env h kind raw e v ≡ accept env h (with_found_keys env h e) state v
    unfolding fresh filter_push IsPushed
    fresh-accept push v k = let (before, b, t) = pushed k in rw b (ground (arith, extract-accept v))
    fresh-accept mr_opened v k = extract-accept v
    fresh-accept mr_merged v k = extract-accept v
    fresh-accept mr_draft v k = extract-accept v
    fresh-accept emoji_award v k = extract-accept v
    fresh-accept unrecognized v k = extract-accept v

    recognized-accept :
        (v : World)
        → env.fault v.step ≡ delivered
        → contains e.idempotency_key (event_keys v.events) ≡ false
        → recognized env h e.event_type raw e v
          ≡ accept env h (with_found_keys env h e) state (bump v)
    unfolding recognized checked Events.exists_by_idempotency_key exec
    recognized-accept v f new = go e.event_type refl
      where
        asked :
            (let (x, v') = Events.exists_by_idempotency_key env e.idempotency_key v in
              checked env h x raw e v')
            ≡ accept env h (with_found_keys env h e) state (bump v)
        asked = rw (f, new) (fresh-accept e.event_type (bump v) refl)

        go :
            (kind : EventType)
            → e.event_type ≡ kind
            → recognized env h kind raw e v ≡ accept env h (with_found_keys env h e) state (bump v)
        go push k = asked
        go mr_opened k = asked
        go mr_merged k = asked
        go mr_draft k = asked
        go emoji_award k = asked
        go unrecognized k = absurd (known k)

    -- A request with the right token is accepted, if its payload is parsed to a recognized event with a
    -- new idempotency key, which has an issue key and asks for a state by its kind, all statements are
    -- answered, the new uuid is the id of no event, and the numbers of project and merge request fit 32 bits.
    -- An award of the done emoji asks for the state done, whether the merge request is merged or not.
    pub handle_gitlab_accepts :
        (r : Request) (w : World)
        → r.token ≡ h.webhook_secret
        → r.body ≡ read raw
        → parse raw (env.now w.step) ≡ Json.ok e
        → contains e.idempotency_key (event_keys w.events) ≡ false
        → contains (env.uuid (w.step + 2)) (event_ids w.events) ≡ false
        → fits_int32 e.mr_iid ≡ true
        → fits_int32 e.project_id ≡ true
        → ((n : ℕ) → env.fault n ≡ delivered)
        → code (handle_gitlab env h r w).0 ≡ 202
    unfolding handle_gitlab with_body parsed validate_token time_now with_found_keys
    handle_gitlab_accepts r w t b p new fresh_id iid project f =
        let reached = recognized-accept (bump w) (f _) new in
        let two : w.step + 1 + 1 ≡ w.step + 2 = omega arith in
        let answered =
          code-accept (with_found_keys env h e) state (bump (bump w)) (f _) iid project new
            (rw two fresh_id) in
        rw ((==_iff r.token h.webhook_secret).1 t, b, p, reached) answered
