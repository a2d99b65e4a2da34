-- ===== src/Server/Webhook.antt =====
-- internal/server/webhook_handler.go. What net/http makes of reading the body is the request's `body`.
pub mod Plugins
pub mod Enqueue
pub mod Decisions
pub mod Requests
pub mod Repeats
pub mod Accepts
pub mod Races
pub mod Keeps
use glsync.Base.{
  ℕ, ◌+◌, Text, text, List, [], ◌∷◌, ◌++◌, Bool, true, false, not, ◌&&◌, ◌||◌, Option, none, some,
  ◌==◌, if◌then◌else◌,
}
use glsync.Json.{Json, Payload, Decoded, equal_fold, to_string, unmarshal}
use glsync.Json
use glsync.Domain.{EventType, push, emoji_award, unrecognized, NormalizedEvent}
use glsync.Domain.States.{WorkflowState, done}
use glsync.Config.{WorkflowConfig}
use glsync.Workflow.Rules.{RuleConfig, classify}
use glsync.Plugin.{EventHandler, event_notice}
use glsync.Store.{World, Env, Result, ok, err}
use glsync.Store.Run.{M, pure, ◌>>=◌, ◌>>◌, time_now, new_uuid}
use glsync.Store.Events
use glsync.Store.Jobs.{enqueue}
use glsync.Gitlab.Signature.{validate_token}
use glsync.Gitlab.Parser.{parse, is_new_branch}
use glsync.Gitlab.IssueKey.{issue_keys_from_event}
use glsync.Worker.Processor.{new_job}
use glsync.Server.{Reply, error, status, accepted}

-- `io.ReadAll` of the limited body: all of it, the error of the 5 MB limit, or another error.
pub data Body : Type 0 where
  read : Payload → Body
  over_limit : Body
  broken : Body

pub record Request : Type 0 where
  pub token : Text
  pub body : Body

-- The handler's fields, with the registry of event handlers, which is global in the source.
pub record Handler : Type 0 where
  pub webhook_secret : Text
  pub workflow : WorkflowConfig
  pub max_attempts : ℕ
  pub event_handlers : List EventHandler

-- `var probe struct { Before string }`
unfoldable pub set_before : Text → Text → Json → Decoded Text
set_before before k v = if equal_fold k (text "before") then to_string before v else Json.ok before

unfoldable pub is_target_branch : WorkflowConfig → NormalizedEvent → Bool
is_target_branch cfg event =
    event.source_branch == cfg.develop_branch || event.source_branch == cfg.master_branch

abbrev ignored : Text → Reply
ignored reason = status 200 (text "ignored") (some reason)

abbrev internal_error : Reply
internal_error = error 500 (text "internal error")

-- An error of a handler is logged and dropped.
abbrev drop_answer {ℓ} : {A : Type ℓ} → Bool → A → A
drop_answer true rest = rest
drop_answer false rest = rest

unfoldable pub run_handlers : List EventHandler → NormalizedEvent → M (Unit {0})
run_handlers [] event w = (tt, w)
run_handlers (h ∷ hs) event w =
    let called = record w {
      step = w.step + 1;
      notices = w.notices ++ event_notice h.name event ∷ [];
    } in
    drop_answer (h.succeeds w.step event) (run_handlers hs event called)

-- An error of `Enqueue` is logged, and the loop goes on.
abbrev drop_error : Result (Unit {0}) → M (Unit {0})
drop_error (ok _) = pure tt
drop_error (err _) = pure tt

module _ (env : Env) (h : Handler) where
  -- One job for each key.
  unfoldable pub enqueue_all : Text → WorkflowState → List Text → M (Unit {0})
  enqueue_all event_id state [] = pure tt
  enqueue_all event_id state (key ∷ keys) = do
    job ← new_job env event_id key state h.max_attempts
    r ← enqueue env job
    drop_error r
    enqueue_all event_id state keys

  after_insert : Result (Unit {0}) → NormalizedEvent → WorkflowState → M Reply
  unfolding run_handlers enqueue_all
  after_insert (err _) event state = pure internal_error
  after_insert (ok _) event state = do
    run_handlers h.event_handlers event
    enqueue_all event.id state event.issue_keys
    pure (accepted 202 event.id event.issue_keys state)

  -- From `event.ID = uuid.NewString()` to the last reply: `handleEmojiAward` repeats these steps with the
  -- state done.
  unfoldable pub accept : NormalizedEvent → WorkflowState → M Reply
  unfolding after_insert
  accept event state = do
    id ← new_uuid env
    received_at ← time_now env
    let event = record event { id = id; received_at = received_at }
    r ← Events.insert env event
    after_insert r event state

  -- An event without keys is ignored, for the reason given.
  abbrev accept_keys : List Text → Text → NormalizedEvent → WorkflowState → M Reply
  accept_keys [] reason event state = pure (ignored reason)
  accept_keys (key ∷ keys) reason event state = accept event state

  unfoldable pub handle_emoji_award : NormalizedEvent → M Reply
  handle_emoji_award event =
      if not (event.emoji_name == h.workflow.done_emoji)
      then pure (ignored (text "wrong_emoji"))
      else accept_keys event.issue_keys (text "no_issue_keys") event done

  abbrev rules_cfg : RuleConfig
  rules_cfg = record {
    develop_branch = h.workflow.develop_branch;
    master_branch = h.workflow.master_branch;
  }

  classified : Option WorkflowState → NormalizedEvent → M Reply
  classified none event = pure (ignored (text "no_action"))
  classified (some state) event = accept_keys event.issue_keys (text "no_action") event state

  unfoldable pub with_keys : EventType → NormalizedEvent → M Reply
  unfolding handle_emoji_award classified
  with_keys emoji_award event = handle_emoji_award event
  with_keys _ event = classified (classify event rules_cfg) event

  extract : NormalizedEvent → M Reply
  unfolding with_keys
  extract event =
      let keys =
        issue_keys_from_event h.workflow.project_key event.source_branch event.mr_title
          event.commit_messages in
      with_keys event.event_type (record event { issue_keys = keys })

  filter_push : Decoded Text → NormalizedEvent → M Reply
  unfolding extract
  filter_push (Json.err _) event = pure (error 400 (text "failed to parse push event"))
  filter_push (Json.ok before) event =
      if not (is_new_branch before) && not (is_target_branch h.workflow event)
      then pure (ignored (text "not_new_branch"))
      else extract event

  fresh : EventType → Payload → NormalizedEvent → M Reply
  unfolding filter_push
  fresh push raw event = filter_push (unmarshal set_before [] raw) event
  fresh _ raw event = extract event

  checked : Result Bool → Payload → NormalizedEvent → M Reply
  unfolding fresh
  checked (err _) raw event = pure internal_error
  checked (ok true) raw event = pure (status 200 (text "already_processed") none)
  checked (ok false) raw event = fresh event.event_type raw event

  recognized : EventType → Payload → NormalizedEvent → M Reply
  unfolding checked
  recognized unrecognized raw event = pure (status 200 (text "ignored") none)
  recognized _ raw event = do
    exists ← Events.exists_by_idempotency_key env event.idempotency_key
    checked exists raw event

  parsed : Decoded NormalizedEvent → Payload → M Reply
  unfolding recognized
  parsed (Json.err _) raw = pure (error 400 (text "failed to parse event"))
  parsed (Json.ok event) raw = recognized event.event_type raw event

  -- The clock's reading goes unused if the payload cannot be parsed.
  with_body : Body → M Reply
  unfolding parsed
  with_body over_limit = pure (error 413 (text "payload too large"))
  with_body broken = pure (error 400 (text "failed to read body"))
  with_body (read raw) = do now ← time_now env; parsed (parse raw now) raw

  unfoldable pub handle_gitlab : Request → M Reply
  unfolding with_body
  handle_gitlab r =
      if not (validate_token r.token h.webhook_secret)
      then pure (error 401 (text "unauthorized"))
      else with_body r.body
