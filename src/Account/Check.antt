-- ===== src/Account/Check.antt =====
-- src/adapters/copilot-account.mjs: the check of an account's readiness, from the saved login to the list
-- of models. The time of a check is left out.
use floe_runtime.Prelude.{
  ℕ, suc, zero, String, Bool, false, not, Option, none, some, if◌then◌else◌, keep_if, ◌&&◌, is_some,
  List, [], ◌∷◌, ◌++◌, or_else,
}
use floe_runtime.Errors.{◌⧺◌}
use floe_runtime.LoginSources.{
  Source, app, same_source, source_label, is_chosen_type, Login, in_sources, resolve_token,
  read_choice, resolve_saved_login, unavailable_for,
}
use floe_runtime.LoginSources.Discovery.{Auth, Found, token_identity, discover}
use package.floe_runtime.Account.State.{
  Access, AccountName, Action, Models, Reachability, Settings, State, World, action_required,
  check_subscription, contact_admin, entitled, existing_logins_message, first_state,
  is_process_global, listed, no_list, not_entitled, not_known, plain, policy_blocked,
  process_global_message, reachable, ready, refused, retry, says_not_entitled, says_policy_blocked,
  sign_in, signed_in, signed_out, unavailable, unclear, unreachable, untried,
}

abbrev forgets : List Source → Option Source → Bool
forgets accepted none = false
forgets accepted (some s) = not (in_sources s accepted)

-- `#resolveLogin`: none where a choice that is not accepted cannot be removed.
unfoldable pub resolve_login : Settings → World → Option Login
resolve_login a w =
    if forgets a.accepted (read_choice w.choice) && not w.removable
    then none
    else some (resolve_saved_login a.accepted a.options a.env w.gh w.choice).0

-- `#existingLoginSources`
abbrev pub existing_login_sources : Settings → List Source
existing_login_sources a = keep_if (λ s. not (same_source s app)) a.accepted

-- `#discoverExistingLogins`: a client per token, which answers where it starts.
abbrev pub discover_existing_logins : Settings → World → List Source → List Found
discover_existing_logins a w sources =
    discover (λ s. resolve_token s a.options a.env w.gh)
      (λ t. if w.starts (some t) then w.ask (some t) else none) w.user_login sources

abbrev listed_logins :
    Settings → World → List Source → Option String → Option (List Found) × Option String
listed_logins a w [] u = (none, none)
listed_logins a w (s ∷ ss) (some u) = (some [], some u)
listed_logins a w (s ∷ ss) none = (some (discover_existing_logins a w (s ∷ ss)), none)

-- `#existingLoginsState`
unfoldable pub existing_logins_state : Settings → World → Option (List Found) × Option String
existing_logins_state a w = listed_logins a w (existing_login_sources a) (unavailable_for a.options)

abbrev offer_or : Option (List Found) → String → String
offer_or (some (x ∷ xs)) m = existing_logins_message (x ∷ xs)
offer_or _ m = m

-- `#publishSignedOut`
abbrev pub signed_out_state : Settings → World → String → Reachability → State
signed_out_state a w m r =
    let s = existing_logins_state a w in
    record {
      phase = action_required;
      authentication = signed_out;
      access = unclear;
      reachability = r;
      action = some sign_in;
      message = offer_or s.0 m;
      account = none;
      login_source = none;
      existing = s.0;
      existing_unavailable = s.1;
    }

abbrev not_accepted : Source → String
not_accepted app = "Copilot is not signed in on this machine."
not_accepted s =
    "Copilot didn't accept your " ⧺ source_label s ⧺ ". Choose another login or sign in."

-- `#signedOutMessage`
unfoldable pub signed_out_message : Auth → Login → Option String
signed_out_message u l =
    if not u.is_authenticated
    then some (not_accepted l.source)
    else if not (is_process_global u.auth_type)
    then none
    else if is_some l.token && is_chosen_type u.auth_type
    then none
    else some (process_global_message u.auth_type)

abbrev named : Option String → Option String → Option AccountName
named none h = none
named (some l) h = some (record { label = l; host = h })

-- `accountOf`, on what a client without a token or `tokenIdentity` says.
abbrev pub account_of : World → Auth → Option String → Option AccountName
account_of w u none = named u.login u.host
account_of w u (some t) = elim (token_identity (w.user_login t) u) [
  | none ↦ none
  | some i ↦ named (some i.login) i.host
]

abbrev signed_in_as : Option AccountName → String
signed_in_as none = "Signed in"
signed_in_as (some n) = "Signed in as " ⧺ n.label

abbrev ready_for : Option AccountName → String
ready_for none = "Copilot is ready"
ready_for (some n) = "Copilot is ready for " ⧺ n.label

abbrev using : Source → String
using app = "."
using s = " using your " ⧺ source_label s ⧺ "."

abbrev needs : Access → Option AccountName → Source → Action → String → State
needs c n s x m = record {
  phase = action_required;
  authentication = signed_in;
  access = c;
  reachability = reachable;
  action = some x;
  message = signed_in_as n ⧺ m;
  account = n;
  login_source = some s;
  existing = none;
  existing_unavailable = none;
}

abbrev unconfirmed : Option AccountName → Source → State
unconfirmed n s = needs unclear n s retry ", but Copilot access could not be confirmed."

abbrev ready_state : Option AccountName → Source → State
ready_state n s = record {
  phase = ready;
  authentication = signed_in;
  access = entitled;
  reachability = reachable;
  action = none;
  message = ready_for n ⧺ using s;
  account = n;
  login_source = some s;
  existing = none;
  existing_unavailable = none;
}

abbrev refused_state : String → Option AccountName → Source → State
refused_state c n s =
    if says_not_entitled c
    then needs not_entitled n s check_subscription
        ", but this account has no Copilot plan usable by the CLI."
    else if says_policy_blocked c
    then needs policy_blocked n s contact_admin ", but the organization has disabled Copilot CLI."
    else unconfirmed n s

-- The check from the answer of `listModels` on.
unfoldable pub check_models : Models → Option AccountName → Source → State
check_models (listed zero) n s = unconfirmed n s
check_models (listed (suc m)) n s = ready_state n s
check_models no_list n s = unconfirmed n s
check_models (refused c) n s = refused_state c n s

abbrev pub signed_out_or : Settings → World → Login → Auth → Option String → State
signed_out_or a w l u (some m) = signed_out_state a w m reachable
signed_out_or a w l u none = check_models (w.models l.token) (account_of w u l.token) l.source

-- The check from the answer of `getAuthStatus` on.
unfoldable pub check_auth : Settings → World → Login → Option Auth → State
check_auth a w l none =
    plain unavailable not_known unclear reachable (some retry)
      "Copilot authentication could not be checked."
check_auth a w l (some u) = signed_out_or a w l u (signed_out_message u l)

abbrev pub not_available : Login → String
not_available l = or_else l.unavailable (
    "Floe is set to use your "
    ⧺ source_label l.source
    ⧺ ", but it isn't available now. Choose another login or sign in.")

abbrev pub unreached : State
unreached =
    plain unavailable not_known unclear unreachable (some retry) "Copilot could not be reached."

-- The check from the client's start on.
abbrev pub check_client : Settings → World → Login → State
check_client a w l =
    if w.starts l.token && w.pings l.token then check_auth a w l (w.ask l.token) else unreached

-- The check from the saved login on.
unfoldable pub check_login : Settings → World → Option Login → State
check_login a w none =
    plain unavailable not_known unclear untried (some retry)
      "Floe couldn't read your saved Copilot login choice."
check_login a w (some l) =
    if not (is_some l.token) && not (same_source l.source app)
    then signed_out_state a w (not_available l) untried
    else check_client a w l

-- What the adapter keeps: the state of the last publication, their number, and what it has emitted.
pub record Board : Type 0 where
  pub current : State
  pub revision : ℕ
  pub emitted : List (State × ℕ)

abbrev pub new_board : Board
new_board = record { current = first_state; revision = 0; emitted = [] }

-- `#publishState`
abbrev pub publish_state : State → Board → Board
publish_state s b = record {
  current = s;
  revision = suc b.revision;
  emitted = b.emitted ++ ((s, suc b.revision) ∷ []);
}

-- `#check`
unfoldable pub check_account : Settings → World → Board → Board
unfolding check_login resolve_login
check_account a w b =
    publish_state (check_login a w (resolve_login a w)) (publish_state first_state b)
