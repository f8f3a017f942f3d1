-- ===== src/Account/Operation.antt =====
-- src/adapters/copilot-account.mjs: one sign-in, between the awaits of its two flows: the SDK's and the one
-- of the CLI. What the SDK, the browser and the CLI answer comes in as arguments.
use floe_runtime.Prelude.{
  ℕ, String, Bool, true, false, Option, none, some, if◌then◌else◌, List, [], ◌∷◌, ◌++◌, map, ◌==◌,
  ◌||◌, is_some,
}

pub data Provider : Type 0 where
  github enterprise_cloud entra : Provider

pub data Mode : Type 0 where
  device sdk : Mode

pub data Outcome : Type 0 where
  completed declined failed cancelled : Outcome

pub data Status : Type 0 where
  starting waiting_for_person awaiting_input needs_interaction needs_account_selection : Status
  needs_plaintext_consent was_cancelled was_declined succeeded did_fail : Status

-- An account to select, its provider by the name that applications know.
pub record Candidate : Type 0 where
  pub selection_id : String
  pub login : String
  pub host : String
  pub provider : String

-- `pendingAction`
pub data Pending : Type 0 where
  open_url : String → Pending
  input_required : String → Pending
  interaction awaiting plaintext_consent : Pending
  account_selection : List Candidate → Pending

-- What the SDK calls an account, and the provider it has here.
pub record SdkAccount : Type 0 where
  pub selection_id : String
  pub login : String
  pub host : String
  pub kind : String

-- What `new URL(step.url)` gives: nothing, or an address and whether its protocol is HTTPS.
pub data Address : Type 0 where
  no_address : Address
  address : (https : Bool) → String → Address

pub data LoginResult : Type 0 where
  result_completed result_declined result_consent result_other : LoginResult
  result_selection : List SdkAccount → LoginResult

-- A step of the SDK's login.
pub data Step : Type 0 where
  open_page : Address → Step
  ask_input : String → Step
  interact wait broken : Step
  done : LoginResult → Step

-- Where the function that starts an SDK sign-in waits.
pub data Stage : Type 0 where
  making_client starting_client making_session beginning over : Stage

-- `operation`; `awaiting` has the outcomes of the calls that end it and wait for the account to be checked.
pub record Operation : Type 0 where
  pub id : ℕ
  pub provider : Provider
  pub mode : Mode
  pub stage : Stage
  pub open_browser : Bool
  pub opening : Option String
  pub child : Bool
  pub client : Bool
  pub session : Bool
  pub flow : Option String
  pub pending : Option Pending
  pub advancing : Bool
  pub cancel_requested : Bool
  pub finished : Option Outcome
  pub awaiting : List Outcome

-- What an operation does to the outside: it publishes, or calls the SDK, the browser or the child.
pub data Effect : Type 0 where
  published : ℕ → Provider → Status → String → Option Pending → Effect
  spawned killed disconnected stopped : ℕ → Effect
  flow_cancelled : ℕ → String → Effect
  flow_advanced : ℕ → Option String → Effect
  page_opened : ℕ → String → Effect

abbrev pub Did : Type 0
Did = Operation × List Effect

abbrev pub is_finished : Operation → Bool
is_finished op = is_some op.finished

-- `#publishSignIn`
abbrev pub say : Operation → Status → String → Option Pending → Effect
say op s m p = published op.id op.provider s m p

-- A step that leaves the operation waiting for an answer.
abbrev ask_person : Operation → Status → String → Pending → Did
ask_person op s m p = (record op { pending = some p }, say op s m (some p) ∷ [])

abbrev cancel_flow : Operation → Outcome → Option String → List Effect
cancel_flow op cancelled (some f) = if op.session then flow_cancelled op.id f ∷ [] else []
cancel_flow op _ _ = []

-- What ending an operation releases: the flow where it was cancelled, the session, the client.
abbrev teardown : Operation → Outcome → List Effect
teardown op o =
    cancel_flow op o op.flow
    ++ ((if op.session then disconnected op.id ∷ [] else [])
        ++ (if op.client then stopped op.id ∷ [] else []))

-- The first half of `#finishSdkSignIn` and `#finishDeviceSignIn`; an operation of the CLI has no flow,
-- session or client. The second half waits for the account to be checked.
unfoldable pub finish : Outcome → Operation → Did
finish o op =
    if is_finished op
    then (op, [])
    else (record op { finished = some o; awaiting = o ∷ op.awaiting }, teardown op o)

-- `ACCOUNT_PROVIDER_KINDS[kind] || 'other'`
abbrev account_provider : String → String
account_provider k =
    if k == "githubDotCom"
    then "github"
    else if k == "proxima"
    then "github-enterprise-cloud"
    else if k == "entra" || k == "entraEmu"
    then "microsoft-entra"
    else if k == "loki"
    then "microsoft-365"
    else "other"

abbrev candidate : SdkAccount → Candidate
candidate a = record {
  selection_id = a.selection_id;
  login = a.login;
  host = a.host;
  provider = account_provider a.kind;
}

abbrev pub handle_result : LoginResult → Operation → Did
handle_result result_completed op = finish completed op
handle_result (result_selection accounts) op =
    ask_person op needs_account_selection "Choose an account to finish sign-in."
      (account_selection (map candidate accounts))
handle_result result_consent op =
    ask_person op needs_plaintext_consent
      "Copilot requires consent to store credentials in plaintext." plaintext_consent
handle_result result_declined op = finish declined op
handle_result result_other op = finish failed op

abbrev pub start_opening : Bool → String → Did → Did
start_opening false url d = d
start_opening true url (op, es) =
    (record op { opening = some url }, es ++ (page_opened op.id url ∷ []))

abbrev pub handle_page : Address → Bool → Operation → Did
handle_page (address true url) browse op =
    start_opening browse url
      (ask_person op waiting_for_person "Open the sign-in page to continue." (open_url url))
handle_page _ browse op = finish failed op

abbrev pub handle_live_step : Step → Bool → Operation → Did
handle_live_step (open_page a) browse op = handle_page a browse op
handle_live_step (ask_input prompt) browse op =
    ask_person op awaiting_input "Copilot needs information to continue sign-in."
      (input_required prompt)
handle_live_step interact browse op =
    ask_person op needs_interaction
      "Complete the sign-in step in the provider window, then continue." interaction
handle_live_step wait browse op =
    ask_person op waiting_for_person "Sign-in is waiting for your confirmation." awaiting
handle_live_step (done r) browse op = handle_result r op
handle_live_step broken browse op = finish failed op

-- `#handleSdkStep`
unfoldable pub handle_step : Step → Bool → Operation → Did
unfolding finish
handle_step s browse op =
    if is_finished op || op.cancel_requested then (op, []) else handle_live_step s browse op

-- `#advanceSdkSignIn`, up to its call of the SDK
unfoldable pub advance : Option String → Operation → Did
advance input op =
    if is_finished op || op.advancing
    then (op, [])
    else (record op { advancing = true }, flow_advanced op.id input ∷ [])

abbrev pub outcome_after_error : Operation → Outcome
outcome_after_error op = if op.cancel_requested then cancelled else failed

abbrev pub release : Did → Did
release (op, es) = (record op { advancing = false }, es)

abbrev pub handle_advance : Option Step → Operation → Did
handle_advance none op = finish (outcome_after_error op) op
handle_advance (some s) op = handle_step s false op

-- `#advanceSdkSignIn` from the SDK's answer on: a step, or an error.
unfoldable pub advanced : Option Step → Operation → Did
unfolding handle_step finish
advanced answer op =
    if op.advancing
    then release (if is_finished op then (op, []) else handle_advance answer op)
    else (op, [])
