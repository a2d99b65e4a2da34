-- ===== src/Config/Checks.antt =====
-- `Validate` and the sources of a setting, of internal/config/config.go.
use glsync.Base.{
  Text, text, List, [], ◌∷◌, none, some, ◌≡◌, ◌≢◌, ◌↔◌, refl, arith, ◌==◌, ==_iff, Option-cases,
  inl, inr, if◌then◌else◌, ◌∙◌, sym, ap, Bool, false, select,
}
use glsync.Config.Durations.{unmarshal_yaml}
use glsync.Config.{
  Config, Setting, webhook_secret, jira_username, jira_api_token, database_url, value_of, validate,
  apply_env, Source, ok, missing_settings, error_of, load, parse, defaults,
}

abbrev is_empty : Config → Setting → Bool
is_empty c s = value_of s c == text ""

abbrev pub required : List Setting
required = webhook_secret ∷ jira_username ∷ jira_api_token ∷ database_url ∷ []

missing_settings_lem : (c : Config) → missing_settings c ≡ select (is_empty c) required
unfolding missing_settings
missing_settings_lem c = ground arith

select-eq-nil : (p : Setting → Bool) → select p required ≡ [] → (s : Setting) → p s ≡ false
select-eq-nil p h webhook_secret = ground arith
select-eq-nil p h jira_username = ground arith
select-eq-nil p h jira_api_token = ground arith
select-eq-nil p h database_url = ground arith

error_of-eq-none : (ss : List Setting) → error_of ss ≡ none → ss ≡ []
unfolding error_of
error_of-eq-none [] h = refl
error_of-eq-none (s ∷ ss) h = cc

validate_lem : (c : Config) → validate c ≡ error_of (select (is_empty c) required)
unfolding validate
validate_lem c = ap error_of (missing_settings_lem c)

validate_sound : (c : Config) → validate c ≡ none → (s : Setting) → value_of s c ≢ text ""
validate_sound c h s e = cc (
  select-eq-nil (is_empty c) (error_of-eq-none _ (sym (validate_lem c) ∙ h)) s,
  (==_iff (value_of s c) (text "")).1 e,
)

not-empty : (c : Config) (s : Setting) → value_of s c ≢ text "" → is_empty c s ≡ false
not-empty c s h = ground (arith, ==_iff (value_of s c) (text ""))

validate_complete : (c : Config) → ((s : Setting) → value_of s c ≢ text "") → validate c ≡ none
unfolding error_of
validate_complete c h = rw (
  validate_lem c,
  not-empty c webhook_secret (h webhook_secret),
  not-empty c jira_username (h jira_username),
  not-empty c jira_api_token (h jira_api_token),
  not-empty c database_url (h database_url),
)

-- `Validate` accepts a configuration exactly if none of the four required settings is empty.
pub validate_iff : (c : Config) → (validate c ≡ none) ↔ ((s : Setting) → value_of s c ≢ text "")
validate_iff c = (validate_sound c, validate_complete c)

error_of-eq-some : (ss ts : List Setting) → error_of ss ≡ some ts → ts ≡ ss
unfolding error_of
error_of-eq-some [] ts h = cc
error_of-eq-some (s ∷ ss) ts h = cc

-- The error names exactly the empty settings among the four, in their order.
validate_reports :
    (c : Config) (missing : List Setting)
    → validate c ≡ some missing
    → missing ≡ select (λ s. value_of s c == text "") required
validate_reports c missing h = error_of-eq-some _ missing (sym (validate_lem c) ∙ h)

-- The environment variable of a setting.
abbrev pub variable : Setting → Text
variable webhook_secret = text "GLSYNC_GITLAB__WEBHOOK_SECRET"
variable jira_username = text "GLSYNC_JIRA__USERNAME"
variable jira_api_token = text "GLSYNC_JIRA__API_TOKEN"
variable database_url = text "GLSYNC_DATABASE__URL"

value_of-apply_env :
    (getenv : Text → Text) (c : Config) (s : Setting)
    → value_of s (apply_env getenv c)
      ≡ (if getenv (variable s) == text "" then value_of s c else getenv (variable s))
unfolding apply_env
value_of-apply_env getenv c webhook_secret = refl
value_of-apply_env getenv c jira_username = refl
value_of-apply_env getenv c jira_api_token = refl
value_of-apply_env getenv c database_url = refl

load_inv :
    (src : Source) (path : Text) (c : Config)
    → load src path ≡ ok c
    → (contents : Text) × (parsed : Config) × (src.read_file path ≡ some contents)
      × (src.decode_yaml (unmarshal_yaml src.scaled) contents defaults ≡ some parsed)
      × (c ≡ apply_env src.getenv parsed)
unfolding load parse
load_inv src path c h = elim (Option-cases (src.read_file path)) [
  | inl e ↦ absurd (ground arith)
  | inr (contents, e) ↦
      elim (Option-cases (src.decode_yaml (unmarshal_yaml src.scaled) contents defaults)) [
        | inl f ↦ absurd (ground arith)
        | inr (parsed, f) ↦ (contents, parsed, e, f, ground arith)
      ]
]

-- In a configuration that was loaded, each required setting is its environment variable where that is
-- not empty, and else what the file's decoding over the defaults left there.
pub value_of-load :
    (src : Source) (path : Text) (c : Config) (s : Setting)
    → load src path ≡ ok c
    → (contents : Text) × (parsed : Config) × (src.read_file path ≡ some contents)
      × (src.decode_yaml (unmarshal_yaml src.scaled) contents defaults ≡ some parsed)
      × (value_of s c ≡ (
          if src.getenv (variable s) == text ""
          then value_of s parsed
          else src.getenv (variable s)))
value_of-load src path c s h =
    let (contents, parsed, read, decoded, e) = load_inv src path c h in
    (contents, parsed, read, decoded, ap (value_of s) e ∙ (value_of-apply_env src.getenv parsed s))
