-- ===== src/Jira.antt =====
-- internal/integration/jira: the interface `Transitioner`, and the calls that the program makes of it.
pub mod Types
pub mod Client
use glsync.Base.{ℕ, Float64, Text, List, Option}
use glsync.Jira.Types.{Transition}
use glsync.Errors.{JiraError}

-- A value of the map `fields`; a date is the number of its calendar day, which `Format` prints.
pub data FieldValue : Type 0 where
  number : Float64 → FieldValue
  date : ℕ → FieldValue

abbrev pub FieldMap : Type 0
FieldMap = List (Text × FieldValue)

-- A call that was handed to the Jira client.
pub data JiraCall : Type 0 where
  transition : (issue_key transition_id : Text) → JiraCall
  transition_with_fields : (issue_key transition_id : Text) (fields : FieldMap) → JiraCall
  story_points : (issue_key story_points_field : Text) → JiraCall

pub data Points : Type 0 where
  ok : Float64 → Points
  err : JiraError → Points

pub data Status : Type 0 where
  ok : Text → Status
  err : JiraError → Status

pub data Transitions : Type 0 where
  ok : List Transition → Transitions
  err : JiraError → Transitions

-- The first argument numbers the call, and the answer may differ from call to call. An error is `some`.
pub record Transitioner : Type 0 where
  pub transition_issue : ℕ → Text → Text → Option JiraError
  pub transition_issue_with_fields : ℕ → Text → Text → FieldMap → Option JiraError
  pub update_issue_fields : ℕ → Text → FieldMap → Option JiraError
  pub get_issue_status : ℕ → Text → Status
  pub get_story_points : ℕ → Text → Text → Points
  pub get_transitions : ℕ → Text → Transitions
