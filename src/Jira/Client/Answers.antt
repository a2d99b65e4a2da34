-- ===== src/Jira/Client/Answers.antt =====
-- Jira's answers and the results of internal/integration/jira/client.go.
use glsync.Base.{ℕ, ◌≤◌, Text, text, ◌++◌, none, some, ◌≡◌, ◌≢◌, ◌↔◌, arith, length, length-take-le}
use glsync.Json.{Payload}
use glsync.Errors.{http}
use glsync.Jira.{FieldMap}
use glsync.Jira.Client.{
  Client, Request, Reply, not_created, not_executed, response, post, transition_request,
  check_no_content, http_error, transition_issue_with_fields, max_error_body_bytes,
}

abbrev pub transition_post : Client → Text → Text → FieldMap → Request
transition_post c key id fields = record {
  method = post;
  url = c.base_url ++ (text "/rest/api/2/issue/" ++ key) ++ text "/transitions";
  body = transition_request id fields;
  username = c.username;
  api_token = c.api_token;
}

done_sound :
    (r : Reply)
    → check_no_content r ≡ none
    → (body : Text) × (doc : Payload) × (r ≡ response 204 body doc)
unfolding check_no_content
done_sound not_created h = cc
done_sound not_executed h = cc
done_sound (response code body doc) h = (body, doc, ground arith)

done_complete :
    (r : Reply) (body : Text) (doc : Payload)
    → r ≡ response 204 body doc
    → check_no_content r ≡ none
unfolding check_no_content
done_complete r body doc e = rw e

http_lem :
    (r : Reply) (code : ℕ) (text : Text)
    → check_no_content r ≡ some (http code text)
    → (code ≢ 204) × (length text ≤ max_error_body_bytes)
unfolding check_no_content http_error
http_lem not_created code text h = absurd (cc)
http_lem not_executed code text h = absurd (cc)
http_lem (response k body doc) code text h =
    ground (arith, length-take-le max_error_body_bytes body)

module _ (c : Client) (n : ℕ) (key id : Text) (fields : FieldMap) where
  -- A transition succeeds exactly if the one authenticated POST to the issue's transitions is answered
  -- with status 204.
  pub transition_ok_iff : (transition_issue_with_fields c n key id fields ≡ none) ↔ (
      (body : Text) × (doc : Payload) × (c.do_request n (transition_post c key id fields)
        ≡ response 204 body doc))
  unfolding transition_issue_with_fields
  transition_ok_iff = (done_sound _, λ (body, doc, e). done_complete _ body doc e)

  -- A JiraHTTPError of a transition carries the answer's status code, which is not 204, and at most
  -- 4096 characters of its body.
  transition_http_error :
      (code : ℕ) (text : Text)
      → transition_issue_with_fields c n key id fields ≡ some (http code text)
      → (code ≢ 204) × (length text ≤ 4096)
  unfolding transition_issue_with_fields
  transition_http_error code text =
      http_lem (c.do_request n (transition_post c key id fields)) code text
