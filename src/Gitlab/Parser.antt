-- ===== src/Gitlab/Parser.antt =====
-- internal/gitlab/parser.go. `time.Now()` is the argument `now`: no branch reads the clock twice.
pub mod Kinds
pub mod Identity
use glsync.Base.{
  ℕ, ℤ, pos, Text, text, List, [], ◌∷◌, ◌++◌, map, Bool, true, false, not, ◌&&◌, ◌||◌, eqb, Option,
  none, some, ◌==◌, print_int, if◌then◌else◌,
}
use glsync.Json.{Json, Payload, Decoded, ok, err, ◌>>=◌, equal_fold, to_string, unmarshal}
use glsync.Domain.{
  EventType, push, mr_opened, mr_merged, mr_draft, emoji_award, unrecognized, NormalizedEvent,
}
use glsync.Gitlab.Types.{
  Commit, PushEvent, MergeRequestEvent, EmojiEvent, MrFromEmoji, zero_push, zero_mr, zero_emoji,
  set_push, set_mr, set_emoji,
}

abbrev pub zero_sha : Text
zero_sha = text "0000000000000000000000000000000000000000"

-- The event with all fields at their zero values but three.
abbrev pub bare : EventType → Payload → ℕ → NormalizedEvent
bare type raw now = record {
  id = [];
  idempotency_key = [];
  event_type = type;
  issue_keys = [];
  source_branch = [];
  target_branch = [];
  mr_title = [];
  mr_iid = pos 0;
  project_id = pos 0;
  author_email = [];
  raw_payload = raw;
  received_at = now;
  commit_messages = [];
  emoji_name = [];
  mr_state = [];
}

-- `strings.TrimPrefix`
unfoldable pub strip_prefix : Text → Text → Option Text
strip_prefix [] s = some s
strip_prefix (p ∷ ps) [] = none
strip_prefix (p ∷ ps) (c ∷ s) = let rest = strip_prefix ps s in if eqb p c then rest else none

abbrev or_else : Option Text → Text → Text
or_else none s = s
or_else (some t) s = t

unfoldable pub trim_prefix : Text → Text → Text
unfolding strip_prefix
trim_prefix s prefix = or_else (strip_prefix prefix s) s

abbrev commit_messages : List Commit → List Text
commit_messages = map (λ c. c.message)

-- "push:%d:%s:%s"
unfoldable pub push_key : ℤ → Text → Text → Text
push_key project_id branch before =
    text "push:" ++ (print_int project_id ++ (text ":" ++ (branch ++ (text ":" ++ before))))

-- "mr:%d:%d:%s"
unfoldable pub mr_key : ℤ → ℤ → Text → Text
mr_key project_id iid action =
    text "mr:" ++ (print_int project_id ++ (text ":" ++ (print_int iid ++ (text ":" ++ action))))

-- "emoji:%d:%s:%d"
unfoldable pub emoji_key : ℤ → Text → ℤ → Text
emoji_key project_id name id =
    text "emoji:" ++ (print_int project_id ++ (text ":" ++ (name ++ (text ":" ++ print_int id))))

push_event : Payload → ℕ → PushEvent → NormalizedEvent
unfolding trim_prefix push_key
push_event raw now ev =
    let branch = trim_prefix ev.ref (text "refs/heads/") in
    record (bare push raw now) {
      idempotency_key = push_key ev.project_id branch ev.before;
      source_branch = branch;
      project_id = ev.project_id;
      author_email = ev.user_email;
      commit_messages = commit_messages ev.commits;
    }

unfoldable pub parse_push : Payload → ℕ → Decoded NormalizedEvent
unfolding push_event
parse_push raw now = do ev ← unmarshal set_push zero_push raw; ok (push_event raw now ev)

unfoldable pub is_new_branch : Text → Bool
is_new_branch before = before == zero_sha || before == text ""

unfoldable pub classify_mr : Text → Bool → EventType
classify_mr action is_draft =
    if action == text "open" || action == text "reopen"
    then (if is_draft then mr_draft else mr_opened)
    else if action == text "merge"
    then mr_merged
    else if action == text "update"
    then (if not is_draft then mr_opened else mr_draft)
    else unrecognized

mr_event : Payload → ℕ → MergeRequestEvent → NormalizedEvent
unfolding classify_mr mr_key
mr_event raw now ev =
    let oa = ev.object_attributes in
    record (bare (classify_mr oa.action (oa.draft || oa.work_in_progress)) raw now) {
      idempotency_key = mr_key ev.project oa.iid oa.action;
      source_branch = oa.source_branch;
      target_branch = oa.target_branch;
      mr_title = oa.title;
      mr_iid = oa.iid;
      project_id = ev.project;
      author_email = ev.user.email;
    }

unfoldable pub parse_mr : Payload → ℕ → Decoded NormalizedEvent
unfolding mr_event
parse_mr raw now = do ev ← unmarshal set_mr zero_mr raw; ok (mr_event raw now ev)

with_merge_request : Option MrFromEmoji → NormalizedEvent → NormalizedEvent
with_merge_request none e = e
with_merge_request (some m) e = record e {
  source_branch = m.source_branch;
  target_branch = m.target_branch;
  mr_title = m.title;
  mr_iid = m.iid;
  mr_state = m.state;
}

emoji_event : Payload → ℕ → EmojiEvent → NormalizedEvent
unfolding with_merge_request emoji_key
emoji_event raw now ev =
    let oa = ev.object_attributes in
    if not (ev.event_type == text "award") || not (oa.awardable_type == text "MergeRequest")
    then bare unrecognized raw now
    else record (with_merge_request ev.merge_request (bare emoji_award raw now)) {
      idempotency_key = emoji_key ev.project oa.name oa.id;
      project_id = ev.project;
      author_email = ev.user.email;
      emoji_name = oa.name;
    }

unfoldable pub parse_emoji : Payload → ℕ → Decoded NormalizedEvent
unfolding emoji_event
parse_emoji raw now = do ev ← unmarshal set_emoji zero_emoji raw; ok (emoji_event raw now ev)

-- The struct of the probe has the one field `object_kind`.
unfoldable pub set_kind : Text → Text → Json → Decoded Text
set_kind kind k v = if equal_fold k (text "object_kind") then to_string kind v else ok kind

parse_kind : Text → Payload → ℕ → Decoded NormalizedEvent
parse_kind kind raw now =
    if kind == text "push"
    then parse_push raw now
    else if kind == text "merge_request"
    then parse_mr raw now
    else if kind == text "emoji"
    then parse_emoji raw now
    else ok (bare unrecognized raw now)

unfoldable pub parse : Payload → ℕ → Decoded NormalizedEvent
unfolding parse_kind set_kind
parse raw now = do kind ← unmarshal set_kind [] raw; parse_kind kind raw now
