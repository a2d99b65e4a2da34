-- ===== src/Config.antt =====
-- internal/config/config.go. Reading the file and decoding YAML are parameters of `load`.
pub mod Checks
pub mod Durations
pub use Durations.{second, minute}
use Durations.{unmarshal_yaml}
use glsync.Base.{
  ℕ, ◌*◌, ℤ, pos, Text, text, List, [], ◌∷◌, ◌++◌, Bool, true, Option, none, some, ◌==◌,
  if◌then◌else◌,
}

pub record ServerConfig : Type 0 where
  pub port : ℕ
  pub read_timeout : ℤ
  pub write_timeout : ℤ
  pub shutdown_timeout : ℤ
  pub admin_token : Text

pub record DatabaseConfig : Type 0 where
  pub url : Text
  pub max_connections : ℕ
  pub min_connections : ℕ

pub record GitlabConfig : Type 0 where
  pub webhook_secret : Text
  pub api_token : Text
  pub base_url : Text

pub record JiraConfig : Type 0 where
  pub base_url : Text
  pub username : Text
  pub api_token : Text
  pub timeout : ℤ

pub record InProgressConfig : Type 0 where
  pub transition_id : Text
  pub due_date_strategy : Text
  pub sprint_end_weekday : Text
  pub start_date_field : Text
  pub due_date_field : Text
  pub story_points_field : Text

pub record WorkflowConfig : Type 0 where
  pub project_key : Text
  pub develop_branch : Text
  pub master_branch : Text
  pub transitions : List (Text × Text)
  pub done_emoji : Text
  pub in_progress : InProgressConfig

pub record WorkerConfig : Type 0 where
  pub concurrency : ℤ
  pub poll_interval : ℤ
  pub max_attempts : ℕ

pub record ReconcileConfig : Type 0 where
  pub enabled : Bool
  pub interval : ℤ
  pub stuck_job_timeout : ℤ

pub record Config : Type 0 where
  pub server : ServerConfig
  pub database : DatabaseConfig
  pub gitlab : GitlabConfig
  pub jira : JiraConfig
  pub workflow : WorkflowConfig
  pub worker : WorkerConfig
  pub reconcile : ReconcileConfig

-- The four settings that `Validate` requires.
pub data Setting : Type 0 where
  webhook_secret jira_username jira_api_token database_url : Setting

abbrev pub value_of : Setting → Config → Text
value_of webhook_secret c = c.gitlab.webhook_secret
value_of jira_username c = c.jira.username
value_of jira_api_token c = c.jira.api_token
value_of database_url c = c.database.url

-- `if … == "" { missing = append(missing, …) }`
append_missing : Setting → Text → List Setting → List Setting
append_missing s value missing = if value == text "" then missing ++ s ∷ [] else missing

missing_settings : Config → List Setting
unfolding append_missing
missing_settings c = append_missing database_url c.database.url (
    append_missing jira_api_token c.jira.api_token (
      append_missing jira_username c.jira.username
        (append_missing webhook_secret c.gitlab.webhook_secret [])))

error_of : List Setting → Option (List Setting)
error_of [] = none
error_of (s ∷ ss) = some (s ∷ ss)

-- The error lists the missing settings.
unfoldable pub validate : Config → Option (List Setting)
unfolding missing_settings error_of
validate c = error_of (missing_settings c)

-- `if v := os.Getenv(…); v != "" { … = v }`
override : Text → Text → Text
override v old = if v == text "" then old else v

unfoldable pub apply_env : (Text → Text) → Config → Config
unfolding override
apply_env getenv c = record c {
  server = record c.server {
    admin_token = override (getenv (text "GLSYNC_SERVER__ADMIN_TOKEN")) c.server.admin_token;
  };
  gitlab = record {
    webhook_secret =
        override (getenv (text "GLSYNC_GITLAB__WEBHOOK_SECRET")) c.gitlab.webhook_secret;
    api_token = override (getenv (text "GLSYNC_GITLAB__API_TOKEN")) c.gitlab.api_token;
    base_url = override (getenv (text "GLSYNC_GITLAB__BASE_URL")) c.gitlab.base_url;
  };
  jira = record c.jira {
    base_url = override (getenv (text "GLSYNC_JIRA__BASE_URL")) c.jira.base_url;
    username = override (getenv (text "GLSYNC_JIRA__USERNAME")) c.jira.username;
    api_token = override (getenv (text "GLSYNC_JIRA__API_TOKEN")) c.jira.api_token;
  };
  database = record c.database {
    url = override (getenv (text "GLSYNC_DATABASE__URL")) c.database.url;
  };
}

abbrev pub defaults : Config
defaults = record {
  server = record {
    port = 8090;
    read_timeout = pos (10 * second);
    write_timeout = pos (10 * second);
    shutdown_timeout = pos (15 * second);
    admin_token = [];
  };
  database = record { url = []; max_connections = 20; min_connections = 2 };
  gitlab = record { webhook_secret = []; api_token = []; base_url = [] };
  jira = record { base_url = []; username = []; api_token = []; timeout = pos (15 * second) };
  workflow = record {
    project_key = text "RIS";
    develop_branch = text "develop";
    master_branch = text "master";
    transitions = [];
    done_emoji = text "thumbsup";
    in_progress = record {
      transition_id = [];
      due_date_strategy = text "sprint_end";
      sprint_end_weekday = text "tuesday";
      start_date_field = text "customfield_10040";
      due_date_field = text "duedate";
      story_points_field = text "customfield_10027";
    };
  };
  worker = record { concurrency = pos 1; poll_interval = pos (5 * second); max_attempts = 5 };
  reconcile = record {
    enabled = true;
    interval = pos (15 * minute);
    stuck_job_timeout = pos (5 * minute);
  };
}

pub data LoadError : Type 0 where
  not_read not_parsed : LoadError

pub data Loaded : Type 0 where
  ok : Config → Loaded
  err : LoadError → Loaded

-- What the operating system and gopkg.in/yaml.v3 answer; decoding reads durations by a given function
-- and fills a given configuration. `scaled` is the arithmetic of float64 in package time.
pub record Source : Type 0 where
  pub read_file : Text → Option Text
  pub decode_yaml : (Text → Option ℤ) → Text → Config → Option Config
  pub scaled : ℕ → ℕ → ℕ → ℕ
  pub getenv : Text → Text

parse : Source → Text → Loaded
unfolding apply_env
parse src contents = elim (src.decode_yaml (unmarshal_yaml src.scaled) contents defaults) [
  | none ↦ err not_parsed
  | some c ↦ ok (apply_env src.getenv c)
]

unfoldable pub load : Source → Text → Loaded
unfolding parse
load src path = elim (src.read_file path) [
  | none ↦ err not_read
  | some contents ↦ parse src contents
]
