-- ===== src/Store/Events.antt =====
-- internal/store/event_repo.go: the statements on `events`. The idempotency key is UNIQUE, and the
-- insert does nothing where it is taken; the id is the primary key.
pub mod ReadBack
use glsync.Base.{
  not, ◌&&◌, contains, ℕ, Text, List, [], ◌∷◌, ◌++◌, map, Bool, Option, none, some, ◌==◌, take,
  sort_desc_by, if◌then◌else◌,
}
use glsync.Domain.{NormalizedEvent}
use glsync.Store.{fits_int32, EventRow, Env, Result}
use glsync.Store.Run.{M, Statement, exec}
use glsync.Store.Jobs.{event_ids}

abbrev pub event_keys : List EventRow → List Text
event_keys = map (λ r. r.idempotency_key)

-- The twelve columns of the insert.
unfoldable pub to_row : NormalizedEvent → EventRow
to_row e = record {
  id = e.id;
  idempotency_key = e.idempotency_key;
  event_type = e.event_type;
  issue_keys = e.issue_keys;
  source_branch = e.source_branch;
  target_branch = e.target_branch;
  mr_title = e.mr_title;
  mr_iid = e.mr_iid;
  project_id = e.project_id;
  author_email = e.author_email;
  raw_payload = e.raw_payload;
  received_at = e.received_at;
}

-- The fields that no column holds keep their zero values.
unfoldable pub scan_event : EventRow → NormalizedEvent
scan_event r = record {
  id = r.id;
  idempotency_key = r.idempotency_key;
  event_type = r.event_type;
  issue_keys = r.issue_keys;
  source_branch = r.source_branch;
  target_branch = r.target_branch;
  mr_title = r.mr_title;
  mr_iid = r.mr_iid;
  project_id = r.project_id;
  author_email = r.author_email;
  raw_payload = r.raw_payload;
  received_at = r.received_at;
  commit_messages = [];
  emoji_name = [];
  mr_state = [];
}

-- The columns `mr_iid` and `project_id` are of type INTEGER.
unfoldable pub fits_columns : EventRow → Bool
unfolding fits_int32
fits_columns r = fits_int32 r.mr_iid && fits_int32 r.project_id

unfoldable pub insert_event : EventRow → Statement (Unit {0})
unfolding contains fits_columns
insert_event r now db =
    if not (fits_columns r)
    then none
    else if contains r.idempotency_key (event_keys db.events)
    then some (tt, db)
    else if contains r.id (event_ids db.events)
    then none
    else some (tt, record db { events = db.events ++ r ∷ [] })

unfoldable pub find_event : Text → List EventRow → Option NormalizedEvent
unfolding scan_event
find_event id [] = none
find_event id (r ∷ rs) = if r.id == id then some (scan_event r) else find_event id rs

module _ (env : Env) where
  unfoldable pub insert : NormalizedEvent → M (Result (Unit {0}))
  insert e = exec env (insert_event (to_row e))

  unfoldable pub exists_by_idempotency_key : Text → M (Result Bool)
  exists_by_idempotency_key key = exec env (λ _ db. some (contains key (event_keys db.events), db))

  -- `CollectOneRow` fails where there is no row, which is `ok none` here.
  unfoldable pub get_by_id : Text → M (Result (Option NormalizedEvent))
  get_by_id id = exec env (λ _ db. some (find_event id db.events, db))

  -- ORDER BY received_at DESC LIMIT n
  unfoldable pub list_recent : ℕ → M (Result (List NormalizedEvent))
  list_recent limit =
      exec env (λ _ db.
        some (map scan_event (take limit (sort_desc_by (λ r. r.received_at) db.events)), db))
