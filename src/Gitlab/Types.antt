-- ===== src/Gitlab/Types.antt =====
-- internal/gitlab/types.go: the payload structs, with the rules that fill each from a document.
use glsync.Base.{ℤ, pos, Text, text, List, [], Bool, false, Option, none, some, if◌then◌else◌}
use glsync.Json.{
  Json, null, Decoded, ok, ◌>>=◌, equal_fold, to_string, to_int, to_bool, to_struct, to_slice,
}

pub record Commit : Type 0 where
  pub id : Text
  pub message : Text
  pub author_email : Text

pub record PushEvent : Type 0 where
  pub object_kind : Text
  pub ref : Text
  pub before : Text
  pub after : Text
  pub project_id : ℤ
  pub user_email : Text
  pub user_name : Text
  pub commits : List Commit

pub record User : Type 0 where
  pub email : Text
  pub name : Text

pub record MrObjectAttributes : Type 0 where
  pub iid : ℤ
  pub title : Text
  pub source_branch : Text
  pub target_branch : Text
  pub state : Text
  pub action : Text
  pub draft : Bool
  pub work_in_progress : Bool
  pub author_id : ℤ

-- `project` is the struct's one field, `project.id`.
pub record MergeRequestEvent : Type 0 where
  pub object_kind : Text
  pub user : User
  pub project : ℤ
  pub object_attributes : MrObjectAttributes

pub record EmojiAttributes : Type 0 where
  pub id : ℤ
  pub name : Text
  pub awardable_type : Text
  pub awardable_id : ℤ

pub record MrFromEmoji : Type 0 where
  pub iid : ℤ
  pub title : Text
  pub target_branch : Text
  pub state : Text
  pub source_branch : Text

pub record EmojiEvent : Type 0 where
  pub object_kind : Text
  pub event_type : Text
  pub user : User
  pub project : ℤ
  pub object_attributes : EmojiAttributes
  pub merge_request : Option MrFromEmoji

abbrev zero_commit : Commit
zero_commit = record { id = []; message = []; author_email = [] }

abbrev pub zero_push : PushEvent
zero_push = record {
  object_kind = [];
  ref = [];
  before = [];
  after = [];
  project_id = pos 0;
  user_email = [];
  user_name = [];
  commits = [];
}

abbrev zero_user : User
zero_user = record { email = []; name = [] }

abbrev pub zero_mr : MergeRequestEvent
zero_mr = record {
  object_kind = [];
  user = zero_user;
  project = pos 0;
  object_attributes = record {
    iid = pos 0;
    title = [];
    source_branch = [];
    target_branch = [];
    state = [];
    action = [];
    draft = false;
    work_in_progress = false;
    author_id = pos 0;
  };
}

abbrev zero_mr_from_emoji : MrFromEmoji
zero_mr_from_emoji = record {
  iid = pos 0;
  title = [];
  target_branch = [];
  state = [];
  source_branch = [];
}

abbrev pub zero_emoji : EmojiEvent
zero_emoji = record {
  object_kind = [];
  event_type = [];
  user = zero_user;
  project = pos 0;
  object_attributes = record { id = pos 0; name = []; awardable_type = []; awardable_id = pos 0 };
  merge_request = none;
}

-- The document's key is the field's tag, in any letter case.
abbrev is_key : Text → Text → Bool
is_key k tag = equal_fold k tag

set_author : Text → Text → Json → Decoded Text
set_author old k v = if is_key k (text "email") then to_string old v else ok old

set_commit : Commit → Text → Json → Decoded Commit
unfolding set_author
set_commit c k v =
    if is_key k (text "id")
    then (do x ← to_string c.id v; ok (record c { id = x }))
    else if is_key k (text "message")
    then (do x ← to_string c.message v; ok (record c { message = x }))
    else if is_key k (text "author")
    then (do x ← to_struct set_author c.author_email v; ok (record c { author_email = x }))
    else ok c

unfoldable pub set_push : PushEvent → Text → Json → Decoded PushEvent
unfolding set_commit
set_push e k v =
    if is_key k (text "object_kind")
    then (do x ← to_string e.object_kind v; ok (record e { object_kind = x }))
    else if is_key k (text "ref")
    then (do x ← to_string e.ref v; ok (record e { ref = x }))
    else if is_key k (text "before")
    then (do x ← to_string e.before v; ok (record e { before = x }))
    else if is_key k (text "after")
    then (do x ← to_string e.after v; ok (record e { after = x }))
    else if is_key k (text "project_id")
    then (do x ← to_int e.project_id v; ok (record e { project_id = x }))
    else if is_key k (text "user_email")
    then (do x ← to_string e.user_email v; ok (record e { user_email = x }))
    else if is_key k (text "user_name")
    then (do x ← to_string e.user_name v; ok (record e { user_name = x }))
    else if is_key k (text "commits")
    then (do x ← to_slice (to_struct set_commit zero_commit) v; ok (record e { commits = x }))
    else ok e

set_user : User → Text → Json → Decoded User
set_user u k v =
    if is_key k (text "email")
    then (do x ← to_string u.email v; ok (record u { email = x }))
    else if is_key k (text "name")
    then (do x ← to_string u.name v; ok (record u { name = x }))
    else ok u

set_project : ℤ → Text → Json → Decoded ℤ
set_project id k v = if is_key k (text "id") then to_int id v else ok id

set_mr_attributes : MrObjectAttributes → Text → Json → Decoded MrObjectAttributes
set_mr_attributes a k v =
    if is_key k (text "iid")
    then (do x ← to_int a.iid v; ok (record a { iid = x }))
    else if is_key k (text "title")
    then (do x ← to_string a.title v; ok (record a { title = x }))
    else if is_key k (text "source_branch")
    then (do x ← to_string a.source_branch v; ok (record a { source_branch = x }))
    else if is_key k (text "target_branch")
    then (do x ← to_string a.target_branch v; ok (record a { target_branch = x }))
    else if is_key k (text "state")
    then (do x ← to_string a.state v; ok (record a { state = x }))
    else if is_key k (text "action")
    then (do x ← to_string a.action v; ok (record a { action = x }))
    else if is_key k (text "draft")
    then (do x ← to_bool a.draft v; ok (record a { draft = x }))
    else if is_key k (text "work_in_progress")
    then (do x ← to_bool a.work_in_progress v; ok (record a { work_in_progress = x }))
    else if is_key k (text "author_id")
    then (do x ← to_int a.author_id v; ok (record a { author_id = x }))
    else ok a

unfoldable pub set_mr : MergeRequestEvent → Text → Json → Decoded MergeRequestEvent
unfolding set_user set_project set_mr_attributes
set_mr e k v =
    if is_key k (text "object_kind")
    then (do x ← to_string e.object_kind v; ok (record e { object_kind = x }))
    else if is_key k (text "user")
    then (do x ← to_struct set_user e.user v; ok (record e { user = x }))
    else if is_key k (text "project")
    then (do x ← to_struct set_project e.project v; ok (record e { project = x }))
    else if is_key k (text "object_attributes")
    then (do
      x ← to_struct set_mr_attributes e.object_attributes v
      ok (record e { object_attributes = x }))
    else ok e

set_emoji_attributes : EmojiAttributes → Text → Json → Decoded EmojiAttributes
set_emoji_attributes a k v =
    if is_key k (text "id")
    then (do x ← to_int a.id v; ok (record a { id = x }))
    else if is_key k (text "name")
    then (do x ← to_string a.name v; ok (record a { name = x }))
    else if is_key k (text "awardable_type")
    then (do x ← to_string a.awardable_type v; ok (record a { awardable_type = x }))
    else if is_key k (text "awardable_id")
    then (do x ← to_int a.awardable_id v; ok (record a { awardable_id = x }))
    else ok a

set_mr_from_emoji : MrFromEmoji → Text → Json → Decoded MrFromEmoji
set_mr_from_emoji m k v =
    if is_key k (text "iid")
    then (do x ← to_int m.iid v; ok (record m { iid = x }))
    else if is_key k (text "title")
    then (do x ← to_string m.title v; ok (record m { title = x }))
    else if is_key k (text "target_branch")
    then (do x ← to_string m.target_branch v; ok (record m { target_branch = x }))
    else if is_key k (text "state")
    then (do x ← to_string m.state v; ok (record m { state = x }))
    else if is_key k (text "source_branch")
    then (do x ← to_string m.source_branch v; ok (record m { source_branch = x }))
    else ok m

abbrev or_zero : Option MrFromEmoji → MrFromEmoji
or_zero none = zero_mr_from_emoji
or_zero (some m) = m

-- A null makes the pointer nil; an object fills what it points to, which is allocated if need be.
to_merge_request : Option MrFromEmoji → Json → Decoded (Option MrFromEmoji)
unfolding set_mr_from_emoji
to_merge_request old null = ok none
to_merge_request old v = do m ← to_struct set_mr_from_emoji (or_zero old) v; ok (some m)

unfoldable pub set_emoji : EmojiEvent → Text → Json → Decoded EmojiEvent
unfolding set_user set_project set_emoji_attributes to_merge_request
set_emoji e k v =
    if is_key k (text "object_kind")
    then (do x ← to_string e.object_kind v; ok (record e { object_kind = x }))
    else if is_key k (text "event_type")
    then (do x ← to_string e.event_type v; ok (record e { event_type = x }))
    else if is_key k (text "user")
    then (do x ← to_struct set_user e.user v; ok (record e { user = x }))
    else if is_key k (text "project")
    then (do x ← to_struct set_project e.project v; ok (record e { project = x }))
    else if is_key k (text "object_attributes")
    then (do
      x ← to_struct set_emoji_attributes e.object_attributes v
      ok (record e { object_attributes = x }))
    else if is_key k (text "merge_request")
    then (do x ← to_merge_request e.merge_request v; ok (record e { merge_request = x }))
    else ok e
