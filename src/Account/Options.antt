-- ===== src/Account/Options.antt =====
-- src/adapters/copilot-account.mjs: the options of an SDK client that is kept to Floe's own Copilot home.
use floe_runtime.Prelude.{
  String, ◌≡◌, refl, Bool, true, false, not, Option, none, some, Option-cases, arith, inl, inr,
  if◌then◌else◌, ◌==◌,
}
use floe_runtime.Prelude.Map
use floe_runtime.Prelude.Map.{Map, get-keep_keys, get-set}
use floe_runtime.Texts.{upper_is}
use floe_runtime.LoginSources.{
  ClientOptions, merged_env, login_environment, child_environment, is_credential,
}
use floe_runtime.LoginSources.Saved.{child_environment-credentials}

abbrev pub is_home : String → Bool
is_home key = upper_is key "COPILOT_HOME"

-- `copilotEnvironmentForHome`
unfoldable pub environment_for_home : Map String → String → Map String
environment_for_home env base =
    child_environment (Map.set (Map.keep_keys (λ key. not (is_home key)) env) "COPILOT_HOME" base)

-- The options of the SDK client that concern the login and the environment: `gitHubToken`,
-- `useLoggedInUser`, `connection.env` and `env`.
pub record SdkOptions : Type 0 where
  pub token : Option String
  pub use_logged_in : Option Bool
  pub connection_env : Option (Map String)
  pub env : Option (Map String)

abbrev own_login : Option String → Option Bool
own_login none = some true
own_login (some t) = some false

-- `loginOptions`: the token and the flag. The SDK takes neither where the server is external.
abbrev pub login_options : ClientOptions → Option String → Option String × Option Bool
login_options o token = if o.external then (none, none) else (token, own_login token)

-- `copilotConnectionForHome`
abbrev pub connection_for_home : Option (Map String) → String → Option (Map String)
connection_for_home none base = none
connection_for_home (some env) base = some (environment_for_home env base)

abbrev client_env : ClientOptions → Map String → String → Option (Map String) → Option (Map String)
client_env o env base none = some (environment_for_home (merged_env env o.own_env) base)
client_env o env base (some e) = none

-- `copilotSdkClientOptions`
unfoldable pub sdk_client_options : ClientOptions → String → Map String → Option String → SdkOptions
unfolding environment_for_home
sdk_client_options o base env token = record {
  token = (login_options o token).0;
  use_logged_in = (login_options o token).1;
  connection_env = connection_for_home o.connection_env base;
  env = client_env o env base o.connection_env;
}

-- The environment that the SDK starts its child with, where the options give one.
abbrev pub child_env : SdkOptions → Option (Map String)
child_env s = elim s.connection_env [ none ↦ s.env | some e ↦ some e ]

get-environment_for_home :
    (env : Map String) (base key : String)
    → Map.get (environment_for_home env base) key ≡ (
        if is_credential key
        then none
        else if "COPILOT_HOME" == key
        then some base
        else if is_home key
        then none
        else Map.get env key)
unfolding environment_for_home
get-environment_for_home env base key = ground (
  arith,
  child_environment-credentials
      (Map.set (Map.keep_keys (λ k. not (is_home k)) env) "COPILOT_HOME" base) key,
  get-set "COPILOT_HOME" key base (Map.keep_keys (λ k. not (is_home k)) env),
  get-keep_keys (λ k. not (is_home k)) env key,
)

-- The SDK's child always gets one environment, and it is the one that a login is looked up in, except
-- that no variable that holds a credential is in it and the Copilot home is Floe's own directory.
pub sdk_client_options-environment :
    (o : ClientOptions) (base : String) (env : Map String) (token : Option String)
    → (e : Map String) × ((child_env (sdk_client_options o base env token) ≡ some e)
        × ((key : String)
            → Map.get e key ≡ (
                if is_credential key
                then none
                else if "COPILOT_HOME" == key
                then some base
                else if is_home key
                then none
                else Map.get (login_environment o env) key)))
unfolding sdk_client_options
sdk_client_options-environment o base env token = elim (Option-cases o.connection_env) [
  | inl none_given ↦ (
    environment_for_home (merged_env env o.own_env) base,
    (rw none_given refl, rw none_given (get-environment_for_home (merged_env env o.own_env) base)),
  )
  | inr (e, given) ↦
      (environment_for_home e base, (rw given refl, rw given (get-environment_for_home e base)))
]
