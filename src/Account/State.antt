-- ===== src/Account/State.antt =====
-- src/adapters/copilot-account.mjs: the state that an account publishes, with its texts, and the world that
-- a check asks: what the SDK, the file system and GitHub answer.
use floe_runtime.Prelude.{ℕ, String, Bool, Option, none, if◌then◌else◌, ◌==◌, ◌||◌, List, [], ◌∷◌}
use floe_runtime.Prelude.Map.{Map}
use floe_runtime.Errors.{◌⧺◌}
use floe_runtime.Texts.{lower_is}
use floe_runtime.LoginSources.{Source, source_label, ClientOptions, CliAnswer, ChoiceFile}
use floe_runtime.LoginSources.Discovery.{Auth, Found}

-- What `listModels` answers: so many models, something that is no list, or an error with a code.
pub data Models : Type 0 where
  listed : ℕ → Models
  no_list : Models
  refused : String → Models

-- What an application passes to the adapter.
pub record Settings : Type 0 where
  pub accepted : List Source
  pub options : ClientOptions
  pub env : Map String

-- What the outside answers during a check: the choice file and whether it can be removed and written,
-- the GitHub CLI, and for a client with or without a token whether it starts and answers a ping, its
-- authentication (none: an error), the user that GitHub knows for it and its models.
pub record World : Type 0 where
  pub choice : ChoiceFile
  pub removable : Bool
  pub writable : Bool
  pub gh : Map String → CliAnswer
  pub starts : Option String → Bool
  pub pings : Option String → Bool
  pub ask : Option String → Option Auth
  pub user_login : String → Option String → Option String
  pub models : Option String → Models

pub data Phase : Type 0 where
  checking ready action_required unavailable : Phase

pub data Authentication : Type 0 where
  not_known signed_in signed_out : Authentication

pub data Access : Type 0 where
  unclear entitled not_entitled policy_blocked : Access

pub data Reachability : Type 0 where
  untried reachable unreachable : Reachability

pub data Action : Type 0 where
  retry sign_in check_subscription contact_admin : Action

pub record AccountName : Type 0 where
  pub label : String
  pub host : Option String

-- The state that the adapter publishes, without its time and its revision.
pub record State : Type 0 where
  pub phase : Phase
  pub authentication : Authentication
  pub access : Access
  pub reachability : Reachability
  pub action : Option Action
  pub message : String
  pub account : Option AccountName
  pub login_source : Option Source
  pub existing : Option (List Found)
  pub existing_unavailable : Option String

abbrev pub plain : Phase → Authentication → Access → Reachability → Option Action → String → State
plain p a c r x m = record {
  phase = p;
  authentication = a;
  access = c;
  reachability = r;
  action = x;
  message = m;
  account = none;
  login_source = none;
  existing = none;
  existing_unavailable = none;
}

abbrev pub first_state : State
first_state = plain checking not_known unclear untried none "Checking Copilot."

-- `PROCESS_GLOBAL_AUTH_TYPES` and `PROCESS_GLOBAL_AUTH_MESSAGES`
abbrev pub is_process_global : String → Bool
is_process_global t = t == "env" || t == "token" || t == "api-key" || t == "gh-cli"

abbrev found_but : String → String
found_but m = "Copilot isn't signed in for Floe. Floe found " ⧺ m ⧺ " Sign in to use Copilot here."

abbrev pub process_global_message : String → String
process_global_message t =
    if t == "env"
    then found_but "Copilot credentials in environment variables, but doesn't use them."
    else if t == "token"
    then found_but "a process-level GitHub token, but doesn't use it as your Copilot account."
    else if t == "api-key"
    then found_but "an API key, but doesn't use it as your Copilot account."
    else found_but "your GitHub CLI login, but doesn't use it."

-- `NOT_ENTITLED_CODES.has(errorCode(error))` and `POLICY_BLOCKED_CODES.has(errorCode(error))`
unfoldable pub says_not_entitled : String → Bool
says_not_entitled c =
    lower_is c "copilot_not_entitled"
    || lower_is c "no_copilot_subscription"
    || lower_is c "not_entitled"
    || lower_is c "subscription_required"

unfoldable pub says_policy_blocked : String → Bool
says_policy_blocked c =
    lower_is c "copilot_policy_blocked"
    || lower_is c "organization_policy_blocked"
    || lower_is c "policy_blocked"

-- `existingLoginsMessage`
abbrev offers : List Found → String
offers [] = ""
offers (x ∷ []) = "your " ⧺ source_label x.source ⧺ " (" ⧺ x.identity.login ⧺ ")"
offers (x ∷ y ∷ xs) =
    "your " ⧺ source_label x.source ⧺ " (" ⧺ x.identity.login ⧺ ") or " ⧺ offers (y ∷ xs)

abbrev pub existing_logins_message : List Found → String
existing_logins_message xs =
    "Copilot isn't signed in for Floe. You can use " ⧺ offers xs ⧺ ", or sign in."
