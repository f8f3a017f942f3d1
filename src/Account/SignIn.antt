-- ===== src/Account/SignIn.antt =====
-- src/adapters/copilot-account.mjs: the sign-ins of an account, as steps between awaits. An operation is
-- shared by the map of active operations and by the callbacks that still hold it, so the operations are
-- kept in a store, and the map is the list of the active ones. `randomUUID` never gives an id twice: the
-- ids are numbers in the order in which they are made.
use floe_runtime.Prelude.{
  ℕ, suc, String, Bool, true, false, not, Option, none, some, if◌then◌else◌, List, [], ◌∷◌, ◌++◌,
  ◌==◌, ◌&&◌, ◌||◌, nat_eq, find, or_else,
}
use floe_runtime.Errors.{Result, ok, err, fault, ◌⧺◌}
use package.floe_runtime.Account.State.{Authentication}
use package.floe_runtime.Account.Operation.{
  Provider, github, enterprise_cloud, entra, Mode, device, sdk, Outcome, Operation, Effect, Did,
  is_finished, say,
}
use package.floe_runtime.Account.Flow.{
  new_operation, cancel_operation, start_device, start_sdk, Answer, answer_input, resume,
  last_status, last_message,
}

pub record SignIns : Type 0 where
  pub store : List Operation
  pub active : List ℕ
  pub next : ℕ
  pub effects : List Effect

abbrev pub no_sign_ins : SignIns
no_sign_ins = record { store = []; active = []; next = 0; effects = [] }

-- A change of the operation with an id, and what it does.
abbrev pub change : (Operation → Did) → ℕ → List Operation → List Operation × List Effect
change f i [] = ([], [])
change f i (op ∷ ops) =
    let rest = change f i ops in
    if nat_eq op.id i then (let (op', es) = f op in (op' ∷ ops, es)) else (op ∷ rest.0, rest.1)

unfoldable pub on_operation : (Operation → Did) → ℕ → SignIns → SignIns
on_operation f i s =
    let (ops, es) = change f i s.store in record s { store = ops; effects = s.effects ++ es }

-- `this.operations.get(id)`, an operation that is not finished.
abbrev pub lookup : ℕ → SignIns → Option Operation
lookup i s = find (λ op. nat_eq op.id i) s.store

abbrev pub is_active : ℕ → List ℕ → Bool
is_active i [] = false
is_active i (j ∷ js) = nat_eq j i || is_active i js

abbrev pub unfinished : Option Operation → Option Operation
unfinished none = none
unfinished (some op) = if is_finished op then none else some op

abbrev pub live : ℕ → SignIns → Option Operation
live i s = if is_active i s.active then unfinished (lookup i s) else none

-- A new operation, made and started.
abbrev pub begin : Provider → Mode → Bool → (Operation → Did) → SignIns → SignIns
begin p m browse start s =
    let (op, es) = start (new_operation s.next p m browse) in
    record {
      store = op ∷ s.store;
      active = s.next ∷ s.active;
      next = suc s.next;
      effects = s.effects ++ es;
    }

-- `LOGIN_PROVIDER_KINDS`
abbrev pub provider_of : String → Option Provider
provider_of t =
    if t == "github"
    then some github
    else if t == "github-enterprise-cloud"
    then some enterprise_cloud
    else if t == "microsoft-entra"
    then some entra
    else none

-- What an application asks `signIn` for; how its listeners and the CLI behave at once.
pub record Request : Type 0 where
  pub mode : Option String
  pub provider : String
  pub browse : Bool
  pub has_cli : Bool
  pub cancels : Bool
  pub starts : Bool

abbrev pub is_mode : String → Option String → Bool
is_mode t none = false
is_mode t (some m) = m == t

abbrev pub has_unknown_mode : Option String → Bool
has_unknown_mode none = false
has_unknown_mode (some m) = not (m == "browser") && not (m == "device")

abbrev pub any_active : List ℕ → Bool
any_active [] = false
any_active (i ∷ is) = true

abbrev invalid_provider : String → Result SignIns
invalid_provider m = err (fault "invalid_sign_in_provider" m 400)

-- `#startDeviceSignIn`
abbrev pub device_sign_in : Request → Provider → SignIns → Result SignIns
device_sign_in r github s =
    if r.has_cli
    then ok (begin github device false (start_device r.cancels r.starts) s)
    else err (
        fault "copilot_cli_unavailable"
          "The Copilot CLI path is required for device-code compatibility mode." 503)
device_sign_in r p s =
    invalid_provider "The CLI device-code compatibility mode supports GitHub only."

abbrev pub start_sign_in : Request → Provider → SignIns → Result SignIns
start_sign_in r p s =
    if any_active s.active
    then err (fault "sign_in_in_progress" "Copilot sign-in is already in progress." 409)
    else if is_mode "device" r.mode
    then device_sign_in r p s
    else ok (begin p sdk r.browse (start_sdk r.cancels) s)

abbrev pub with_provider : Request → Option Provider → SignIns → Result SignIns
with_provider r none s = invalid_provider ("Unsupported sign-in provider '" ⧺ r.provider ⧺ "'.")
with_provider r (some p) s = start_sign_in r p s

abbrev pub unknown_mode : Request → Result SignIns
unknown_mode r = err (
    fault "invalid_sign_in_mode" ("Unsupported Copilot sign-in mode '" ⧺ or_else r.mode "" ⧺ "'.")
      400)

-- `signIn`
unfoldable pub sign_in : Request → SignIns → Result SignIns
sign_in r s =
    if has_unknown_mode r.mode then unknown_mode r else with_provider r (provider_of r.provider) s

-- The text leaves out the id.
abbrev not_live : Result SignIns
not_live = err (fault "sign_in_not_found" "Copilot sign-in operation is not active." 404)

abbrev pub continue_given : ℕ → Result (Option String) → SignIns → Result SignIns
continue_given i (ok given) s = ok (on_operation (resume given) i s)
continue_given i (err e) s = err e

abbrev pub waits : Result SignIns
waits = err (fault "sign_in_in_progress" "Copilot sign-in is waiting for the current response." 409)

abbrev pub continue_mode : ℕ → Answer → Operation → Mode → SignIns → Result SignIns
continue_mode i a op device s = err (
    fault "sign_in_answer_unsupported"
      "The CLI device-code flow does not accept app-provided answers." 409)
continue_mode i a op sdk s =
    if op.advancing then waits else continue_given i (answer_input op.pending a) s

abbrev pub continue_live : ℕ → Answer → Option Operation → SignIns → Result SignIns
continue_live i a none s = not_live
continue_live i a (some op) s = continue_mode i a op op.mode s

-- `continueSignIn`
unfoldable pub continue_sign_in : ℕ → Answer → SignIns → Result SignIns
unfolding on_operation
continue_sign_in i a s = continue_live i a (live i s) s

abbrev pub cancel_live : ℕ → Option Operation → SignIns → Result SignIns
cancel_live i none s = not_live
cancel_live i (some op) s = ok (on_operation cancel_operation i s)

-- `cancelSignIn`
unfoldable pub cancel_sign_in : ℕ → SignIns → Result SignIns
unfolding on_operation
cancel_sign_in i s = cancel_live i (live i s) s

abbrev pub kept_or : SignIns → Result SignIns → SignIns
kept_or s (ok t) = t
kept_or s (err e) = s

abbrev pub close_each : List ℕ → SignIns → SignIns
close_each [] s = s
close_each (i ∷ is) s = close_each is (kept_or s (cancel_sign_in i s))

-- `close`: the failures of cancelling are dropped.
unfoldable pub close : SignIns → SignIns
unfolding cancel_sign_in
close s = close_each s.active s

abbrev pub remove_id : ℕ → List ℕ → List ℕ
remove_id i [] = []
remove_id i (j ∷ js) = if nat_eq j i then remove_id i js else j ∷ remove_id i js

abbrev pub last_event : Operation → Outcome → Authentication → Effect
last_event op o a =
    let status = last_status op.mode o a in say op status (last_message op.mode status) none

abbrev pub forget_outcome : List Outcome → Operation → Did
forget_outcome os op = (record op { awaiting = os }, [])

abbrev pub settle_with : ℕ → Authentication → Operation → List Outcome → SignIns → SignIns
settle_with i a op [] s = s
settle_with i a op (o ∷ os) s = record s {
  store = (change (forget_outcome os) i s.store).0;
  active = remove_id i s.active;
  effects = s.effects ++ (last_event op o a ∷ []);
}

abbrev pub settle_found : ℕ → Authentication → Option Operation → SignIns → SignIns
settle_found i a none s = s
settle_found i a (some op) s = settle_with i a op op.awaiting s

-- The second half of `#finishSdkSignIn` and `#finishDeviceSignIn`, once the account has been checked for a
-- call that ended the operation: the last publication, and the operation leaves the map.
unfoldable pub settle : ℕ → Authentication → SignIns → SignIns
settle i a s = settle_found i a (lookup i s) s
