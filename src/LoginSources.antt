-- ===== src/LoginSources.antt =====
-- src/adapters/copilot-login-sources.mjs: where a Copilot login can come from, and the person's saved
-- choice between them. What the file system, the GitHub CLI and the SDK answer are parameters.
pub mod Saved
pub mod Discovery
use floe_runtime.Prelude.{
  ℕ, ◌+◌, ◌-◌, String, Bool, true, false, not, Option, none, some, List, [], ◌∷◌, ◌++◌, leb, nat_eq,
  if◌then◌else◌, keep_if, find, includes, or_else, ◌==◌, ◌&&◌, ◌||◌, some_of,
}
use floe_runtime.Prelude.Map
use floe_runtime.Prelude.Map.{Map}
use floe_runtime.Errors.{Result, ok, err, fault, ◌⧺◌}
use floe_runtime.Json.{Value, str, obj, Fields, member, no_members, fields_of}
use floe_runtime.Texts.{trim, upper_is, is_empty}

-- `LOGIN_SOURCES`
pub data Source : Type 0 where
  app github_cli environment : Source

abbrev pub source_text : Source → String
source_text app = "app"
source_text github_cli = "github-cli"
source_text environment = "environment"

abbrev pub same_source : Source → Source → Bool
same_source app app = true
same_source github_cli github_cli = true
same_source environment environment = true
same_source _ _ = false

-- `LOGIN_SOURCES.includes(text)`
unfoldable pub read_source : String → Option Source
read_source t =
    if t == "app"
    then some app
    else if t == "github-cli"
    then some github_cli
    else if t == "environment"
    then some environment
    else none

-- `loginSourceLabel`
abbrev pub source_label : Source → String
source_label app = "Floe sign-in"
source_label github_cli = "GitHub CLI login"
source_label environment = "environment token"

-- `CHOSEN_LOGIN_AUTH_TYPES`
abbrev pub is_chosen_type : String → Bool
is_chosen_type t = t == "token" || t == "env"

abbrev pub credential_keys : List String
credential_keys =
    "COPILOT_GITHUB_TOKEN" ∷ "COPILOT_DISABLE_KEYTAR" ∷ "COPILOT_SDK_AUTH_TOKEN" ∷ "GH_TOKEN"
    ∷ "GITHUB_TOKEN" ∷ []

abbrev pub upper_among : List String → String → Bool
upper_among [] key = false
upper_among (n ∷ ns) key = upper_is key n || upper_among ns key

-- `CREDENTIAL_ENVIRONMENT_KEYS.has(key.toUpperCase())`
unfoldable pub is_credential : String → Bool
unfolding upper_is
is_credential key = upper_among credential_keys key

-- `copilotChildEnvironment`
unfoldable pub child_environment : Map String → Map String
child_environment = Map.keep_keys (λ key. not (is_credential key))

abbrev pub in_sources : Source → List Source → Bool
in_sources s [] = false
in_sources s (t ∷ ts) = same_source t s || in_sources s ts

abbrev pub add_source : List Source → Source → List Source
add_source ss s = if in_sources s ss then ss else ss ++ s ∷ []

abbrev unsupported_source : String → Result (List Source)
unsupported_source t =
    err (fault "invalid_login_source" ("Unsupported Copilot login source '" ⧺ t ⧺ "'.") 400)

abbrev all_supported : List String → Result (List Source)
all_supported [] = ok []
all_supported (t ∷ ts) = elim (read_source t) [
  | none ↦ unsupported_source t
  | some s ↦ elim (all_supported ts) [ ok ss ↦ ok (s ∷ ss) | err e ↦ err e ]
]

-- `[...new Set(value)]`
abbrev pub without_repeats : List Source → List Source → List Source
without_repeats done [] = done
without_repeats done (s ∷ ss) = without_repeats (add_source done s) ss

abbrev accept_texts : Result (List Source) → Result (List Source)
accept_texts (ok ss) = ok (without_repeats [] ss)
accept_texts (err e) = err e

-- What an application passes for `acceptedLogins`.
pub data Accepted : Type 0 where
  unset no_array : Accepted
  texts : List String → Accepted

-- `normalizeAcceptedLogins`
unfoldable pub normalize_accepted : Accepted → Result (List Source)
unfolding read_source
normalize_accepted unset = ok (app ∷ [])
normalize_accepted (texts (t ∷ ts)) = accept_texts (all_supported (t ∷ ts))
normalize_accepted _ =
    err (
      fault "invalid_login_source" "acceptedLogins must be a non-empty array of login sources." 400)

-- What the choice file holds: nothing, a text that is no JSON, or a JSON value.
pub data ChoiceFile : Type 0 where
  absent unreadable : ChoiceFile
  holds : Value → ChoiceFile

abbrev other_than_app : Option Source → Option Source
other_than_app (some app) = none
other_than_app o = o

abbrev choice_in : Option Value → Option Source
choice_in (some (str t)) = other_than_app (read_source t)
choice_in _ = none

-- `readLoginChoice`
unfoldable pub read_choice : ChoiceFile → Option Source
unfolding read_source
read_choice (holds (obj fs)) = choice_in (Map.get (fields_of fs) "source")
read_choice _ = none

-- `saveLoginChoice` and `clearLoginChoice`, where the file system does not fail.
unfoldable pub save_choice : Source → ChoiceFile
save_choice s = holds (obj (member "source" (str (source_text s)) no_members))

abbrev pub clear_choice : ChoiceFile → ChoiceFile
clear_choice f = absent

abbrev entry_named : String → Map String → Option String
entry_named name [] = none
entry_named name ((k, v) ∷ es) = if upper_is k name then some v else entry_named name es

abbrev token_text : Option String → Option String
token_text none = none
token_text (some v) = let t = trim v in if is_empty t then none else some t

abbrev or_token : Option String → Option String → Option String
or_token (some t) later = some t
or_token none later = later

abbrev pub token_keys : List String
token_keys = "COPILOT_GITHUB_TOKEN" ∷ "GH_TOKEN" ∷ "GITHUB_TOKEN" ∷ []

abbrev first_token : List String → Map String → Option String
first_token [] env = none
first_token (n ∷ ns) env = or_token (token_text (entry_named n env)) (first_token ns env)

-- `environmentToken`
unfoldable pub environment_token : Map String → Option String
environment_token env = first_token token_keys env

-- What `gh auth token` does: it cannot be started, or it ends with a code and what it wrote.
pub data CliAnswer : Type 0 where
  no_cli : CliAnswer
  closed : (exit : ℕ) → (written : String) → CliAnswer

-- `githubCliToken`
unfoldable pub cli_token : CliAnswer → Option String
cli_token no_cli = none
cli_token (closed exit written) = if nat_eq exit 0 then token_text (some written) else none

-- The options of the SDK's client, as far as they are read here: whether it connects to an external
-- server, the environment of the connection, and that of the client.
pub record ClientOptions : Type 0 where
  pub external : Bool
  pub connection_env : Option (Map String)
  pub own_env : Map String

-- `{ ...a, ...b }`
abbrev pub merged_env : Map String → Map String → Map String
merged_env env [] = env
merged_env env ((k, v) ∷ es) = merged_env (Map.set env k v) es

-- `loginEnvironment`
abbrev pub login_environment : ClientOptions → Map String → Map String
login_environment o env = or_else o.connection_env (merged_env env o.own_env)

-- `resolveLoginToken`
unfoldable pub resolve_token :
    Source → ClientOptions → Map String → (Map String → CliAnswer) → Option String
unfolding environment_token cli_token
resolve_token environment o env gh = environment_token (login_environment o env)
resolve_token github_cli o env gh = cli_token (gh (child_environment (login_environment o env)))
resolve_token app o env gh = none

-- The login that an SDK client uses.
pub record Login : Type 0 where
  pub source : Source
  pub token : Option String
  pub unavailable : Option String

abbrev pub app_login : Login
app_login = record { source = app; token = none; unavailable = none }

abbrev pub unavailable_reason : String
unavailable_reason =
    "Existing logins can't be used while Floe connects to an external Copilot server."

-- `existingLoginsUnavailableReason`
abbrev pub unavailable_for : ClientOptions → Option String
unavailable_for o = if o.external then some unavailable_reason else none

abbrev pub resolved_login : Source → ClientOptions → Map String → (Map String → CliAnswer) → Login
resolved_login s o env gh = record {
  source = s;
  token = if o.external then none else resolve_token s o env gh;
  unavailable = unavailable_for o;
}

abbrev pub login_for :
    List Source
    → ClientOptions
    → Map String
    → (Map String → CliAnswer)
    → ChoiceFile
    → Option Source
    → Login × ChoiceFile
login_for accepted o env gh f none = (app_login, f)
login_for accepted o env gh f (some s) =
    if in_sources s accepted then (resolved_login s o env gh, f) else (app_login, clear_choice f)

-- `resolveSavedLogin`, where the file system does not fail. A choice that is not accepted is forgotten.
unfoldable pub resolve_saved_login :
    List Source
    → ClientOptions
    → Map String
    → (Map String → CliAnswer)
    → ChoiceFile
    → Login × ChoiceFile
unfolding resolve_token read_choice
resolve_saved_login accepted o env gh f = login_for accepted o env gh f (read_choice f)
