-- ===== src/Store/Events/ReadBack.antt =====
-- Events that internal/store/event_repo.go stores and reads back.
use glsync.Base.{
  ℕ, ◌∷◌, ◌++◌, Text, List, [], false, some, ◌≡◌, refl, ap, ◌∙◌, arith, contains, ==_iff, ==_refl,
}
use glsync.Domain.{NormalizedEvent}
use glsync.Store.{EventRow, Db, World, Env, delivered, ok}
use glsync.Store.Run.{exec}
use glsync.Store.Jobs.{event_ids}
use glsync.Store.Events.{
  event_keys, to_row, scan_event, insert_event, find_event, insert, get_by_id,
}

-- The columns are read back, and the three fields without a column are empty.
pub record IsReadBack (e e' : NormalizedEvent) : Type 0 where
  pub same_id : e'.id ≡ e.id
  pub same_key : e'.idempotency_key ≡ e.idempotency_key
  pub same_type : e'.event_type ≡ e.event_type
  pub same_issue_keys : e'.issue_keys ≡ e.issue_keys
  pub same_branches : (e'.source_branch ≡ e.source_branch) × (e'.target_branch ≡ e.target_branch)
  pub same_title : e'.mr_title ≡ e.mr_title
  pub same_numbers : (e'.mr_iid ≡ e.mr_iid) × (e'.project_id ≡ e.project_id)
  pub same_author : e'.author_email ≡ e.author_email
  pub dropped : (e'.commit_messages ≡ []) × ((e'.emoji_name ≡ []) × (e'.mr_state ≡ []))

scan_event-IsReadBack : (e : NormalizedEvent) → IsReadBack e (scan_event (to_row e))
unfolding scan_event to_row
scan_event-IsReadBack e = record {
  same_id = refl;
  same_key = refl;
  same_type = refl;
  same_issue_keys = refl;
  same_branches = (refl, refl);
  same_title = refl;
  same_numbers = (refl, refl);
  same_author = refl;
  dropped = (refl, (refl, refl));
}

find_event-append :
    (r : EventRow) (rows : List EventRow)
    → contains r.id (event_ids rows) ≡ false
    → find_event r.id (rows ++ r ∷ []) ≡ some (scan_event r)
unfolding find_event contains
find_event-append r [] h = rw (==_refl r.id) refl
find_event-append r (s ∷ rows) h =
    ground (arith, find_event-append r rows, ==_iff r.id s.id, ==_iff s.id r.id)

find_event-later :
    (id : Text) (e : NormalizedEvent) (rows more : List EventRow)
    → find_event id rows ≡ some e
    → find_event id (rows ++ more) ≡ some e
unfolding find_event
find_event-later id e [] more h = cc
find_event-later id e (s ∷ rows) more h = ground (arith, find_event-later id e rows more)

-- An insert that succeeds under a new key has added the row, under a new id.
insert_event_lem :
    (r : EventRow) (now : ℕ) (db db' : Db)
    → insert_event r now db ≡ some (tt, db')
    → contains r.idempotency_key (event_keys db.events) ≡ false
    → (contains r.id (event_ids db.events) ≡ false) × (db'.events ≡ db.events ++ r ∷ [])
unfolding insert_event
insert_event_lem r now db db' h new = ground arith

module _ (env : Env) where
  insert_lem :
      (e : NormalizedEvent) (w : World) {w' : World}
      → insert env e w ≡ (ok tt, w')
      → insert_event (to_row e) (env.now w.step) w.db ≡ some (tt, w'.db)
  unfolding insert exec
  insert_lem e w {w'} h = ground arith

  -- An event that was inserted without an error under a key that was new is read back by its id, also
  -- when other events were stored since, unless the query meets a fault: with its columns, and without
  -- commit messages, emoji name and state of the merge request, which have no column. (Of the payload and
  -- the time nothing is said.)
  pub get_by_id-insert :
      (e : NormalizedEvent) (w v : World) (more : List EventRow) {w' : World}
      → insert env e w ≡ (ok tt, w')
      → contains e.idempotency_key (event_keys w.events) ≡ false
      → v.events ≡ w'.events ++ more
      → env.fault v.step ≡ delivered
      → (e' : NormalizedEvent) × (((get_by_id env e.id v).0 ≡ ok (some e')) × IsReadBack e e')
  unfolding get_by_id exec to_row
  get_by_id-insert e w v more {w'} h new later sent =
      let (fresh, added) =
        insert_event_lem (to_row e) (env.now w.step) w.db w'.db (insert_lem e w h) new in
      let found = find_event-later e.id _ _ more (find_event-append (to_row e) w.events fresh) in
      let read : find_event e.id v.events ≡ some (scan_event (to_row e)) =
        ap (find_event e.id) (later ∙ ap (λ rows. rows ++ more) added) ∙ found in
      (scan_event (to_row e), (rw (sent, read) refl, scan_event-IsReadBack e))
