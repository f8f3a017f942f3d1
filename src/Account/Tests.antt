-- ===== src/Account/Tests.antt =====
-- Runs of the account's model, and its theorems on concrete inputs.
use floe_runtime.Prelude.{
  ◌≡◌, refl, ◌↔◌, String, true, false, none, some, is_some, if◌then◌else◌, List, [], ◌∷◌, ◌==◌,
}
use floe_runtime.Prelude.Map
use floe_runtime.Prelude.Map.{Map}
use floe_runtime.Errors.{ok}
use floe_runtime.Texts.{is_empty, trim_end, trim_start}
use floe_runtime.LoginSources.{
  resolve_token, Source, app, github_cli, read_source, ClientOptions, CliAnswer, closed, absent,
  save_choice, is_credential, login_environment, resolve_saved_login,
}
use floe_runtime.LoginSources.Discovery.{discover, Auth}
use floe_runtime.LoginSources.Saved.{Chosen, resolve_saved_login-Chosen}
use package.floe_runtime.Account.Options.{
  child_env, sdk_client_options, is_home, sdk_client_options-environment,
}
use package.floe_runtime.Account.State.{Settings, World, ready, listed, signed_in}
use package.floe_runtime.Account.Check.{new_board, check_account}
use package.floe_runtime.Account.Readiness.{Usable, check_account-Usable}
use package.floe_runtime.Account.Choice.{use_existing_login, choosing}
use package.floe_runtime.Account.Chosen.{InForce, use_existing_login-InForce}
use package.floe_runtime.Account.Operation.{done, result_completed, github, sdk}
use package.floe_runtime.Account.Flow.{
  new_operation, start_sdk, client_made, client_started, session_made, begun, last_status,
}
use package.floe_runtime.Account.SignIn.{SignIns, no_sign_ins, Request}
use package.floe_runtime.Account.History.{
  Happening, asks, client_comes, client_starts, session_comes, flow_begins, checked, happens,
  Reached, at_first, then_happens, ends, cancels,
}
use package.floe_runtime.Account.Invariant.{Sound, reached-Sound}
use package.floe_runtime.Account.Final.{other_ends, happen_all, cancel_sign_in-Final}

abbrev plain_options : ClientOptions
plain_options = record {
  external = false;
  connection_env = none;
  own_env = ("GH_TOKEN", "t") ∷ ("HOME", "h") ∷ [];
}

abbrev outer : Map String
outer = ("copilot_home", "x") ∷ ("github_token", "u") ∷ ("PATH", "p") ∷ []

abbrev gh_answers : Map String → CliAnswer
gh_answers env = closed 0 " secret "

abbrev accepts_all : Settings
accepts_all = record { accepted = app ∷ github_cli ∷ []; options = plain_options; env = outer }

abbrev somebody : Auth
somebody = record { is_authenticated = true; auth_type = "token"; login = none; host = none }

abbrev world : World
world = record {
  choice = absent;
  removable = true;
  writable = true;
  gh = gh_answers;
  starts = λ t. true;
  pings = λ t. true;
  ask = λ t. some somebody;
  user_login = λ t h. some "mona";
  models = λ t. listed 2;
}

sdk_client_options-environment_example :
    (e : Map String) × ((child_env (sdk_client_options plain_options "/floe" outer none) ≡ some e)
      × ((key : String)
          → Map.get e key ≡ (
              if is_credential key
              then none
              else if "COPILOT_HOME" == key
              then some "/floe"
              else if is_home key
              then none
              else Map.get (login_environment plain_options outer) key)))
sdk_client_options-environment_example =
    sdk_client_options-environment plain_options "/floe" outer none

has_token :
    is_some
      (resolve_saved_login
        (app ∷ github_cli ∷ [])
        plain_options
        outer
        gh_answers
        (save_choice github_cli)).0.token
    ≡ true
unfolding resolve_saved_login save_choice Map.get is_empty trim_end trim_start
has_token = refl

resolve_saved_login-Chosen_example :
    Chosen
      (app ∷ github_cli ∷ [])
      plain_options
      outer
      gh_answers
      (save_choice github_cli)
      (resolve_saved_login
        (app ∷ github_cli ∷ [])
        plain_options
        outer
        gh_answers
        (save_choice github_cli)).0
resolve_saved_login-Chosen_example =
    resolve_saved_login-Chosen (app ∷ github_cli ∷ []) plain_options outer gh_answers
      (save_choice github_cli) has_token

check_account-Usable_example :
    ((check_account accepts_all world new_board).current.phase ≡ ready) ↔ Usable accepts_all world
check_account-Usable_example = check_account-Usable accepts_all world new_board

chosen_github :
    use_existing_login accepts_all world new_board "github-cli"
    ≡ ok
        (choosing world github_cli, check_account accepts_all (choosing world github_cli) new_board)
unfolding use_existing_login read_source discover resolve_token is_empty trim_end trim_start
chosen_github = refl

use_existing_login-InForce_example :
    (s : Source) × ((read_source "github-cli" ≡ some s)
      × InForce accepts_all s (choosing world github_cli))
use_existing_login-InForce_example =
    use_existing_login-InForce accepts_all world new_board "github-cli" (choosing world github_cli)
      (check_account accepts_all (choosing world github_cli) new_board) chosen_github

abbrev sdk_request : Request
sdk_request = record {
  mode = none;
  provider = "github";
  browse = true;
  has_cli = false;
  cancels = false;
  starts = false;
}

-- A sign-in of the SDK that completes at once.
abbrev signing_in : List Happening → SignIns
signing_in [] = no_sign_ins
signing_in (h ∷ hs) = happens h (signing_in hs)

abbrev history : List Happening
history =
    checked 0 signed_in
    ∷ flow_begins 0 (some ("flow", done result_completed))
    ∷ session_comes 0 true
    ∷ client_starts 0 true
    ∷ client_comes 0 true
    ∷ asks sdk_request
    ∷ []

abbrev signed_history : (hs : List Happening) → Reached (signing_in hs)
signed_history [] = at_first
signed_history (h ∷ hs) = then_happens h (signed_history hs)

signing_in-ends : ends 0 (signing_in history).effects ≡ 1
unfolding happens start_sdk client_made client_started session_made begun last_status
signing_in-ends = refl

reached-Sound_example : Sound (signing_in history)
reached-Sound_example = reached-Sound (signing_in history) (signed_history history)

cancel_sign_in-Final_example :
    other_ends 0
      (happen_all history (happens (cancels 0) (signing_in (asks sdk_request ∷ [])))).effects
    ≡ 0
unfolding happens start_sdk
cancel_sign_in-Final_example =
    cancel_sign_in-Final 0 (signing_in (asks sdk_request ∷ []))
      (start_sdk false (new_operation 0 github sdk true)).0 history
      (signed_history (asks sdk_request ∷ [])) refl refl
