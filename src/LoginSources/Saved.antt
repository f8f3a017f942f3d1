-- ===== src/LoginSources/Saved.antt =====
-- src/adapters/copilot-login-sources.mjs: what reaches a child process, and which login is resolved.
use floe_runtime.Prelude.{
  String, ◌≡◌, refl, Bool, true, false, not, Option, none, some, is_some, arith, if◌then◌else◌,
  if_both, List,
}
use floe_runtime.Prelude.Map
use floe_runtime.Prelude.Map.{Map, get-keep_keys}
use package.floe_runtime.LoginSources.{
  Source, app, github_cli, environment, child_environment, is_credential, ChoiceFile, absent,
  read_choice, save_choice, read_source, same_source, in_sources, ClientOptions, CliAnswer, Login,
  resolve_token, resolve_saved_login, app_login, login_for, resolved_login,
}

-- A child process is given the variables of the environment that hold no credential, and no others:
-- a name that is a credential in any case of its letters has no value, every other keeps its own.
pub child_environment-credentials :
    (env : Map String) (key : String)
    → Map.get (child_environment env) key ≡ (if is_credential key then none else Map.get env key)
unfolding child_environment
child_environment-credentials env key =
    ground (arith, get-keep_keys (λ k. not (is_credential k)) env key)

-- A saved choice is read back, except the application's own sign-in, which is no choice.
pub read-save_choice :
    (s : Source) → read_choice (save_choice s) ≡ (if same_source s app then none else some s)
unfolding read_choice save_choice read_source Map.get
read-save_choice app = refl
read-save_choice github_cli = refl
read-save_choice environment = refl

module _ (accepted : List Source) (o : ClientOptions) (env : Map String)
    (gh : Map String → CliAnswer) (f : ChoiceFile) where
  -- What a login with a token has behind it.
  pub record Chosen (login : Login) : Type 0 where
    pub saved : read_choice f ≡ some login.source
    pub accepts : in_sources login.source accepted ≡ true
    pub chosen : same_source login.source app ≡ false
    pub local : o.external ≡ false
    pub held : login.token ≡ resolve_token login.source o env gh

  -- A choice that is accepted is kept: no other login takes its place, whether or not it has a token.
  pub resolve_saved_login-kept :
      (s : Source)
      → read_choice f ≡ some s
      → in_sources s accepted ≡ true
      → ((resolve_saved_login accepted o env gh f).0.source ≡ s)
        × ((resolve_saved_login accepted o env gh f).1 ≡ f)
  unfolding resolve_saved_login
  resolve_saved_login-kept s h k = rw (h, k) (refl, refl)

  resolved_login-Chosen :
      (s : Source) (b : Bool)
      → read_choice f ≡ some s
      → in_sources s accepted ≡ true
      → o.external ≡ b
      → is_some (resolved_login s o env gh).token ≡ true
      → Chosen (resolved_login s o env gh)
  unfolding resolve_token
  resolved_login-Chosen s true h k e t = cc
  resolved_login-Chosen app false h k e t = cc
  resolved_login-Chosen github_cli false h k e t = record {
    saved = h;
    accepts = k;
    chosen = refl;
    local = e;
    held = rw e refl;
  }
  resolved_login-Chosen environment false h k e t = record {
    saved = h;
    accepts = k;
    chosen = refl;
    local = e;
    held = rw e refl;
  }

  login_for-Chosen :
      (c : Option Source)
      → read_choice f ≡ c
      → is_some (login_for accepted o env gh f c).0.token ≡ true
      → Chosen (login_for accepted o env gh f c).0
  login_for-Chosen none h = λ t. cc
  login_for-Chosen (some s) h =
      if_both (λ (login, file). is_some login.token ≡ true → Chosen login) (in_sources s accepted)
        (resolved_login s o env gh, f) (app_login, absent)
        (λ k. resolved_login-Chosen s o.external h k refl) (λ k t. cc)

  -- If the resolved saved login has a token, then it is the login that the file names as the person's choice,
  -- the application accepts it, it is not the application's own, Floe connects to no external server, and the
  -- token is the one that this login has now.
  pub resolve_saved_login-Chosen :
      is_some (resolve_saved_login accepted o env gh f).0.token ≡ true
      → Chosen (resolve_saved_login accepted o env gh f).0
  unfolding resolve_saved_login
  resolve_saved_login-Chosen = login_for-Chosen (read_choice f) refl
