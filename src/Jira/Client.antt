-- ===== src/Jira/Client.antt =====
-- internal/integration/jira/client.go. The HTTP transport is a parameter: it answers each request.
pub mod Answers
use glsync.Base.{
  ℕ, Float64, one, to_float, Text, text, List, [], ◌∷◌, ◌++◌, Bool, Option, none, some, eqb, ◌==◌,
  take, if◌then◌else◌,
}
use glsync.Json.{
  Json, null, bool, int, real, str, arr, obj, Fields, end, field, Payload, Decoded, to_string,
  to_struct, unmarshal,
}
use glsync.Json
use glsync.Errors.{JiraError, create, execute, decode, http}
use glsync.Jira.{FieldMap, Points, ok, err, Status, Transitions, Transitioner}
use glsync.Jira.Types.{
  IssueResponse, TransitionsResponse, set_issue, set_transitions, zero_issue, zero_transitions,
}

pub data Method : Type 0 where
  post put get : Method

-- What is sent: a transition with its fields, fields alone, or nothing.
pub data Body : Type 0 where
  transition_request : Text → FieldMap → Body
  update_request : FieldMap → Body
  no_body : Body

pub record Request : Type 0 where
  pub method : Method
  pub url : Text
  pub body : Body
  pub username : Text
  pub api_token : Text

-- The URL is refused, there is no answer, or a response with its status code, text and document.
pub data Reply : Type 0 where
  not_created not_executed : Reply
  response : ℕ → Text → Payload → Reply

pub record Client : Type 0 where
  pub base_url : Text
  pub username : Text
  pub api_token : Text
  pub do_request : ℕ → Request → Reply

-- `NewClient`; the HTTP client is what does the requests.
abbrev pub new_client : Text → Text → Text → (ℕ → Request → Reply) → Client
new_client base_url username api_token http_client = record {
  base_url = base_url;
  username = username;
  api_token = api_token;
  do_request = http_client;
}

abbrev pub max_error_body_bytes : ℕ
max_error_body_bytes = 4096

-- A body is the list of its bytes, so that this is `io.LimitReader`.
http_error : ℕ → Text → JiraError
http_error code body = http code (take max_error_body_bytes body)

-- A call that is done at status 204 and has no result.
check_no_content : Reply → Option JiraError
unfolding http_error
check_no_content not_created = some create
check_no_content not_executed = some execute
check_no_content (response code body doc) =
    if eqb code 204 then none else some (http_error code body)

-- A call whose result is read from the document of a response of status 200.
check_ok {ℓ} : {A : Type ℓ} → (JiraError → A) → (Payload → A) → Reply → A
unfolding http_error
check_ok fail use_body not_created = fail create
check_ok fail use_body not_executed = fail execute
check_ok fail use_body (response code body doc) =
    if eqb code 200 then use_body doc else fail (http_error code body)

abbrev issue_path : Client → Text → Text
issue_path c key = c.base_url ++ (text "/rest/api/2/issue/" ++ key)

-- One assignment to a field of a `map[string]any`: its last value under the key stands.
unfoldable pub map_value : Text → Option Json → Fields → Option Json
map_value key found end = found
map_value key found (field k v fs) = map_value key (if k == key then some v else found) fs

-- The member "fields" of the response, which must be an object or null.
pub record PointsResult : Type 0 where
  pub fields : Fields

-- A second object adds its members to the map.
append_fields : Fields → Fields → Fields
append_fields end gs = gs
append_fields (field k v fs) gs = field k v (append_fields fs gs)

fields_of : PointsResult → Json → Decoded PointsResult
fields_of r null = Decoded.ok r
fields_of r (obj fs) = Decoded.ok (record { fields = append_fields r.fields fs })
fields_of r _ = Decoded.err Json.mismatch

set_fields : PointsResult → Text → Json → Decoded PointsResult
unfolding fields_of append_fields
set_fields r key v = if Json.equal_fold key (text "fields") then fields_of r v else Decoded.ok r

-- `val.(float64)`, with 1 where the value is missing, null or no number
points_of : Option Json → Float64
points_of (some (int i)) = to_float i
points_of (some (real f)) = f
points_of _ = one

decode_points : Text → Decoded PointsResult → Points
decode_points key (Decoded.err e) = err decode
decode_points key (Decoded.ok r) = ok (points_of (map_value key none r.fields))

decode_status : Decoded IssueResponse → Status
decode_status (Decoded.err e) = Status.err decode
decode_status (Decoded.ok r) = Status.ok r.fields.status

decode_transitions : Decoded TransitionsResponse → Transitions
decode_transitions (Decoded.err e) = Transitions.err decode
decode_transitions (Decoded.ok r) = Transitions.ok r.transitions

module _ (c : Client) where
  request : Method → Text → Body → Request
  request m url body = record {
    method = m;
    url = url;
    body = body;
    username = c.username;
    api_token = c.api_token;
  }

  unfoldable pub transition_issue_with_fields : ℕ → Text → Text → FieldMap → Option JiraError
  unfolding request check_no_content
  transition_issue_with_fields n key id fields = check_no_content (
      c.do_request n
        (request post (issue_path c key ++ text "/transitions") (transition_request id fields)))

  unfoldable pub transition_issue : ℕ → Text → Text → Option JiraError
  unfolding transition_issue_with_fields
  transition_issue n key id = transition_issue_with_fields n key id []

  unfoldable pub update_issue_fields : ℕ → Text → FieldMap → Option JiraError
  unfolding request check_no_content
  update_issue_fields n key fields =
      check_no_content (c.do_request n (request put (issue_path c key) (update_request fields)))

  unfoldable pub get_story_points : ℕ → Text → Text → Points
  unfolding request check_ok decode_points points_of set_fields
  get_story_points n key points_field =
      check_ok err
        (λ doc. decode_points points_field (unmarshal set_fields (record { fields = end }) doc))
        (c.do_request n
          (request get (issue_path c key ++ (text "?fields=" ++ points_field)) no_body))

  unfoldable pub get_issue_status : ℕ → Text → Status
  unfolding request check_ok decode_status
  get_issue_status n key =
      check_ok Status.err (λ doc. decode_status (unmarshal set_issue zero_issue doc))
        (c.do_request n (request get (issue_path c key ++ text "?fields=status") no_body))

  unfoldable pub get_transitions : ℕ → Text → Transitions
  unfolding request check_ok decode_transitions
  get_transitions n key =
      check_ok Transitions.err
        (λ doc. decode_transitions (unmarshal set_transitions zero_transitions doc))
        (c.do_request n (request get (issue_path c key ++ text "/transitions") no_body))

  -- The client implements the interface.
  abbrev pub transitioner : Transitioner
  transitioner = record {
    transition_issue = transition_issue;
    transition_issue_with_fields = transition_issue_with_fields;
    update_issue_fields = update_issue_fields;
    get_issue_status = get_issue_status;
    get_story_points = get_story_points;
    get_transitions = get_transitions;
  }
