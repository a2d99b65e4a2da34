-- ===== src/Tests/Edges.antt =====
-- The edges of the program: the configuration, the Jira client, and the keys in texts.
use glsync.Base.{◌*◌, ◌/◌, ℕ, Text, text, [], ◌∷◌, ◌≡◌, ◌↔◌, refl, none, some, ◌==◌, if◌then◌else◌}
use glsync.Errors.{http}
use glsync.Json.{Payload, malformed, fold}
use glsync.Config.Durations.{unmarshal_yaml}
use glsync.Config.{Config, database_url, value_of, validate, Source, load, defaults, ok, apply_env}
use glsync.Config.Checks.{required, variable, value_of-load}
use glsync.Base.{pos, arith}
use glsync.Gitlab.Parser.Identity.{IsPlainSource, key-injective}
use glsync.Gitlab.Parser.Identity
use glsync.Jira.Client.{Client, response, transition_issue_with_fields}
use glsync.Jira.Client.Answers.{transition_post, transition_ok_iff}
use glsync.Gitlab.IssueKey.{
  issue_keys, issue_keys_from_event, join, digits_of, after_digits, starts_word,
}
use glsync.Gitlab.IssueKey.Found.{
  IsFoundKey, IsKeysOf, issue_keys-IsKeysOf, IsFirst, issue_keys_from_event-IsFirst,
}

all_missing : validate defaults ≡ some required
unfolding validate ◌==◌
all_missing = refl

-- The file is there, and names no setting.
abbrev source : Source
source = record {
  read_file = λ _. some (text "server:");
  decode_yaml = λ _ _ c. some c;
  scaled = λ f unit scale. f * unit / scale;
  getenv = λ _. text "x";
}

abbrev loaded : Config
loaded = apply_env source.getenv defaults

load_run : load source (text "config.yaml") ≡ ok loaded
unfolding load
load_run = refl

value_of-load_example :
    (contents : Text) × (parsed : Config) × (source.read_file (text "config.yaml") ≡ some contents)
    × (source.decode_yaml (unmarshal_yaml source.scaled) contents defaults ≡ some parsed)
    × (value_of database_url loaded ≡ (
        if source.getenv (variable database_url) == text ""
        then value_of database_url parsed
        else source.getenv (variable database_url)))
value_of-load_example = value_of-load source (text "config.yaml") loaded database_url load_run

-- Jira answers "conflict".
abbrev client : Client
client = record {
  base_url = text "https://jira";
  username = text "u";
  api_token = text "t";
  do_request = λ _ _. response 409 (text "conflict") malformed;
}

transition_ok_iff_example :
    (transition_issue_with_fields client 0 (text "RIS-7") (text "41") [] ≡ none) ↔ (
      (body : Text) × (doc : Payload) × (client.do_request 0
          (transition_post client (text "RIS-7") (text "41") [])
        ≡ response 204 body doc))
transition_ok_iff_example = transition_ok_iff client 0 (text "RIS-7") (text "41") []

conflict :
    transition_issue_with_fields client 0 (text "RIS-7") (text "41") []
    ≡ some (http 409 (text "conflict"))
unfolding transition_issue_with_fields
conflict = refl

abbrev conflict_code : ℕ
conflict_code = 409

-- Keys of either case are found once each, and not inside words or before letters.
mixed_case :
    issue_keys (text "RIS") (text "Merge ris-100, RIS-200 and RIS-100 NORIS-3 RIS-4x")
    ≡ text "RIS-100" ∷ text "RIS-200" ∷ []
unfolding issue_keys fold starts_word after_digits ◌==◌ digits_of
mixed_case = refl

issue_keys-IsKeysOf_example :
    IsKeysOf
      (IsFoundKey (text "RIS") (text "fix ris-9"))
      (issue_keys (text "RIS") (text "fix ris-9"))
issue_keys-IsKeysOf_example = issue_keys-IsKeysOf (text "RIS") (text "fix ris-9")

-- The title's key, although the message has one, too.
issue_keys_from_event-IsFirst_example :
    IsFirst
      (IsFoundKey (text "RIS") (text "feature/x"))
      (IsFoundKey (text "RIS") (text "RIS-3: x"))
      (IsFoundKey (text "RIS") (join (text "RIS-4" ∷ [])))
      (issue_keys_from_event (text "RIS") (text "feature/x") (text "RIS-3: x") (text "RIS-4" ∷ []))
issue_keys_from_event-IsFirst_example =
    issue_keys_from_event-IsFirst (text "RIS") (text "feature/x") (text "RIS-3: x")
      (text "RIS-4" ∷ [])

-- A "before" may have colons; a branch has none.
abbrev pushed_source : Identity.Source
pushed_source = Identity.push_source (pos 3) (text "dev") (text "a:b")

dev-IsPlain : IsPlainSource pushed_source
dev-IsPlain = ((λ e. omega (arith, e)), ((λ e. omega (arith, e)), ((λ e. omega (arith, e)), tt)))

key-injective_example : Identity.push_source (pos 3) (text "dev") (text "a:b") ≡ pushed_source
key-injective_example = key-injective pushed_source pushed_source dev-IsPlain dev-IsPlain refl
