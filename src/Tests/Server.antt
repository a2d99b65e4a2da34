-- ===== src/Tests/Server.antt =====
-- The webhook handler and the admin routes on concrete requests.
use glsync.Base.{
  true, is_digit, leb, ℕ, text, List, [], ◌∷◌, ◌++◌, ◌≡◌, ◌≢◌, ◌⊎◌, refl, ap, contains, false, true,
  none,
}
use glsync.Domain.States.{in_progress}
use glsync.Domain.{NormalizedEvent, push}
use glsync.Json
use glsync.Store.{int32_max, fits_int32, World, EventRow}
use glsync.Store.Events.{event_keys}
use glsync.Store.Run.{pure, M}
use glsync.Gitlab.Parser.{parse}
use glsync.Server.{Reply, accepted, status, error, code}
use glsync.Server.Webhook.{handle_gitlab}
use glsync.Server.Webhook.Decisions.{IsHandled, IsWanted, branch_push}
use glsync.Server.Webhook.Accepts.{handle_gitlab_accepts}
use glsync.Server.Webhook.Requests.{IsRequested, with_found_keys, handle_gitlab-IsHandled}
use glsync.Server.Webhook.Repeats.{handle_gitlab-repeated}
use glsync.Server.Webhook.Races.{IsEmptyHanded, accept-IsEmptyHanded}
use glsync.Config.{defaults}
use glsync.Server.Routes.{admin_events, serve}
use glsync.Server.Routes.Reads.{serve-IsUnchanged}
use glsync.Server.Admin.Reads.{IsUnchanged}
use glsync.Server.Admin.{require_admin_token}
use glsync.Server.Admin.Access.{require_admin_token_lem}
use glsync.Base.{◌==◌, print_int, decimal}
use glsync.Json.{unmarshal, equal_fold, fold, to_string, to_int}
use glsync.Gitlab.Signature.{validate_token}
use glsync.Gitlab.Types.{set_push}
use glsync.Gitlab.Parser.{parse_push, set_kind, trim_prefix, push_key, is_new_branch}
use glsync.Gitlab.IssueKey.{
  issue_keys_from_event, find_all, match_key, match_fold, digits_of, after_digits, starts_word,
  is_word, to_upper,
}
use glsync.Workflow.Rules.{classify}
use glsync.Store.Events
use glsync.Store.Events.{insert_event}
use glsync.Store.Jobs.{event_ids, enqueue, insert_job}
use glsync.Store.Run.{exec, time_now, new_uuid}
use glsync.Worker.Processor.{new_job}
use glsync.Server.Webhook.{accept, set_before, is_target_branch}
use glsync.Tests.Fixtures.{registry, env, start, table, handler, delivery, push_payload}
use glsync.Gitlab.Parser.{bare}
use glsync.Base.{pos}

append-nil : (rows : List EventRow) → rows ≡ rows ++ []
append-nil [] = refl
append-nil (r ∷ rows) = ap (λ t. r ∷ t) (append-nil rows)

-- The push of a new branch is accepted under a new uuid, although the plugin fails.
push_accepted :
    (handle_gitlab env handler delivery start).0
    ≡ accepted 202 (2 ∷ []) (text "RIS-7" ∷ []) in_progress
unfolding handle_gitlab validate_token ◌==◌ time_now parse unmarshal set_kind equal_fold fold
    to_string to_int parse_push set_push trim_prefix push_key print_int decimal
    Events.exists_by_idempotency_key exec contains set_before is_new_branch is_target_branch
    issue_keys_from_event find_all match_key match_fold digits_of after_digits starts_word is_word
    is_digit to_upper classify new_uuid Events.insert Events.to_row insert_event new_job enqueue
    insert_job accept
push_accepted = refl

-- The event that the payload stands for, read at a given time.
abbrev pushed : ℕ → NormalizedEvent
pushed now = record (bare push push_payload now) {
  idempotency_key = text "push:3:feature/RIS-7:";
  source_branch = text "feature/RIS-7";
  project_id = pos 3;
}

parsed : (now : ℕ) → parse push_payload now ≡ Json.ok (pushed now)
unfolding ◌==◌ parse unmarshal set_kind equal_fold fold to_string to_int parse_push set_push
    trim_prefix push_key print_int decimal
parsed now = refl

handle_gitlab-IsHandled_example :
    IsHandled env handler
      (IsRequested env handler delivery start)
      start
      (handle_gitlab env handler delivery start).0
      (handle_gitlab env handler delivery start).1
handle_gitlab-IsHandled_example = handle_gitlab-IsHandled env handler delivery start

known : contains (text "push:3:feature/RIS-7:") (event_keys table.events) ≡ true
unfolding contains ◌==◌
known = refl

abbrev after_first : World
after_first = (handle_gitlab env handler delivery start).1

accepted_first : code (handle_gitlab env handler delivery start).0 ≡ 202
accepted_first = ap code push_accepted

handle_gitlab-repeated_example :
    let (reply, v') = handle_gitlab env handler delivery after_first in
    (code reply ≢ 202) × (v'.db ≡ after_first.db) × (v'.notices ≡ after_first.notices)
handle_gitlab-repeated_example =
    handle_gitlab-repeated env handler delivery delivery start after_first [] accepted_first refl
      (append-nil after_first.events)

abbrev passed : M Reply
passed = pure (status 200 (text "ok") none)

require_admin_token_lem_example :
    let reply = require_admin_token (text "k") (text "Bearer k") passed in
    ((text "k" ≢ []) × (text "Bearer k" ≡ text "Bearer " ++ text "k") × (reply ≡ passed))
    ⊎ (((text "k" ≡ []) × (reply ≡ pure (error 404 (text "not found"))))
        ⊎ ((text "k" ≢ [])
            × (text "Bearer k" ≢ text "Bearer " ++ text "k")
            × (reply ≡ pure (error 401 (text "unauthorized")))))
require_admin_token_lem_example = require_admin_token_lem (text "k") (text "Bearer k") passed

-- A new branch asks for In Progress.
wanted : IsWanted env handler push_payload (with_found_keys env handler (pushed 1000)) in_progress
unfolding ◌==◌ unmarshal set_before equal_fold fold to_string is_new_branch is_target_branch
    with_found_keys classify
wanted = branch_push [] refl refl refl refl

some_key : (with_found_keys env handler (pushed 1000)).issue_keys ≢ []
unfolding with_found_keys issue_keys_from_event find_all match_key match_fold digits_of after_digits
    starts_word is_word is_digit to_upper fold contains ◌==◌
some_key = λ e. cc

no_event : contains (env.uuid 2) (event_ids start.events) ≡ false
unfolding contains
no_event = refl

small : (n : ℕ) → leb n int32_max ≡ true → fits_int32 (pos n) ≡ true
unfolding fits_int32
small n h = h

no_key : contains (text "push:3:feature/RIS-7:") (event_keys start.events) ≡ false
unfolding contains
no_key = refl

handle_gitlab_accepts_example : code (handle_gitlab env handler delivery start).0 ≡ 202
handle_gitlab_accepts_example =
    handle_gitlab_accepts env handler push_payload (pushed 1000) in_progress (λ e. cc) wanted
      some_key delivery start refl refl (parsed 1000) no_key no_event (small 0 refl) (small 3 refl)
      (λ n. refl)

abbrev keyed : NormalizedEvent
keyed = record (pushed 1000) { issue_keys = text "RIS-7" ∷ [] }

-- The key was stored by another delivery since this one checked it.
new_id : contains (env.uuid 0) (event_ids table.events) ≡ false
unfolding contains ◌==◌
new_id = refl

accept-IsEmptyHanded_example :
    IsEmptyHanded env handler
      (0 ∷ [])
      (text "RIS-7" ∷ [])
      in_progress
      table
      (accept env handler keyed in_progress table).0
      (accept env handler keyed in_progress table).1
accept-IsEmptyHanded_example = accept-IsEmptyHanded env handler keyed in_progress table known new_id

-- The list of events, without a token configured.
serve-IsUnchanged_example :
    IsUnchanged table
      (serve env defaults registry (λ n. true) (admin_events (text "Bearer x") (text "7")) table).1
serve-IsUnchanged_example =
    serve-IsUnchanged env defaults registry (λ n. true) (admin_events (text "Bearer x") (text "7"))
      table tt
