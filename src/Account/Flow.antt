-- ===== src/Account/Flow.antt =====
-- src/adapters/copilot-account.mjs: the steps of the two flows that start a sign-in, the person's answers,
-- and its end, as changes of one operation.
use floe_runtime.Prelude.{
  ℕ, String, Bool, true, false, not, Option, none, some, if◌then◌else◌, [], ◌∷◌, ◌++◌, ◌==◌, ◌&&◌,
  some_of, nat_eq,
}
use floe_runtime.Errors.{Result, ok, err, fault}
use package.floe_runtime.Account.State.{signed_in, Authentication}
use package.floe_runtime.Account.Operation.{
  Provider, Mode, device, sdk, Outcome, completed, declined, failed, cancelled, Status, starting,
  waiting_for_person, succeeded, was_cancelled, was_declined, did_fail, Pending, open_url,
  input_required, interaction, awaiting, plaintext_consent, account_selection, Step, Stage,
  making_client, starting_client, making_session, beginning, over, Operation, spawned, killed,
  disconnected, stopped, Did, is_finished, say, finish, handle_step, advance,
}

abbrev first_stage : Mode → Stage
first_stage device = over
first_stage sdk = making_client

-- `operation`, as `#startDeviceSignIn` and `#startSdkSignIn` make it.
abbrev pub new_operation : ℕ → Provider → Mode → Bool → Operation
new_operation i p m browse = record {
  id = i;
  provider = p;
  mode = m;
  stage = first_stage m;
  open_browser = browse;
  opening = none;
  child = false;
  client = false;
  session = false;
  flow = none;
  pending = none;
  advancing = false;
  cancel_requested = false;
  finished = none;
  awaiting = [];
}

abbrev pub and_then : Did → (Operation → Did) → Did
and_then (op, es) f = let (op', fs) = f op in (op', es ++ fs)

-- `cancelSignIn`, from its checks on.
unfoldable pub cancel_operation : Operation → Did
unfolding finish
cancel_operation op =
    let asked = record op { cancel_requested = true } in
    elim op.mode [
      | device ↦ (asked, if op.child then killed op.id ∷ [] else [])
      | sdk ↦ finish cancelled asked
    ]

-- A listener of the first event may cancel the operation before it goes on.
abbrev pub react : (cancels : Bool) → Operation → Did
react true op = cancel_operation op
react false op = (op, [])

abbrev pub react_then : Bool → (Operation → Did) → Operation → Did
react_then cancels f op = and_then (react cancels op) f

abbrev pub spawn_child : (starts : Bool) → Operation → Did
spawn_child starts op =
    if op.cancel_requested
    then finish cancelled op
    else if starts
    then (record op { child = true }, spawned op.id ∷ [])
    else finish failed op

-- `#startDeviceSignIn` from the operation on; the CLI may not start.
unfoldable pub start_device : (cancels : Bool) → (starts : Bool) → Operation → Did
unfolding cancel_operation finish
start_device cancels starts op =
    and_then (op, say op starting "Starting GitHub sign-in." none ∷ [])
      (react_then cancels (spawn_child starts))

-- The child's events `spawn`, `error` and `exit`; a child that a signal ends has no code.
unfoldable pub child_spawned : Operation → Did
child_spawned op =
    if op.child && not (is_finished op)
    then (
      op,
      say op waiting_for_person
            "Finish GitHub device sign-in with the code shown for this sign-in. If no code is visible, cancel this sign-in and try again."
            none
          ∷ [],
    )
    else (op, [])

abbrev pub on_child : (Operation → Did) → Operation → Did
on_child f op = if op.child then f op else (op, [])

abbrev pub exit_outcome : Operation → Option ℕ → Outcome
exit_outcome op none = if op.cancel_requested then cancelled else failed
exit_outcome op (some code) =
    if op.cancel_requested then cancelled else if nat_eq code 0 then completed else failed

unfoldable pub child_failed : Operation → Did
unfolding finish
child_failed = on_child (finish failed)

unfoldable pub child_exited : Option ℕ → Operation → Did
unfolding finish
child_exited code = on_child (λ op. finish (exit_outcome op code) op)

abbrev pub make_client : Operation → Did
make_client op = (if is_finished op then record op { stage = over } else op, [])

-- `#startSdkSignIn` up to its first await.
unfoldable pub start_sdk : (cancels : Bool) → Operation → Did
unfolding cancel_operation finish
start_sdk cancels op =
    and_then (op, say op starting "Starting sign-in." none ∷ []) (react_then cancels make_client)

-- An await of the start ends, with an answer or an error.
abbrev pub at_stage : Stage → (Operation → Did) → Operation → Did
at_stage making_client f op = elim op.stage [ making_client ↦ f op | _ ↦ (op, []) ]
at_stage starting_client f op = elim op.stage [ starting_client ↦ f op | _ ↦ (op, []) ]
at_stage making_session f op = elim op.stage [ making_session ↦ f op | _ ↦ (op, []) ]
at_stage beginning f op = elim op.stage [ beginning ↦ f op | _ ↦ (op, []) ]
at_stage over f op = (op, [])

abbrev pub ended : Operation → Operation
ended op = record op { stage = over }

-- `catch { await this.#finishSdkSignIn(operation, 'failed'); }`
abbrev pub give_up : Operation → Did
give_up op = finish failed (ended op)

unfoldable pub client_made : (made : Bool) → Operation → Did
unfolding finish
client_made made = at_stage making_client (λ op.
    if not made
    then give_up op
    else if is_finished op
    then (ended op, stopped op.id ∷ [])
    else (record op { client = true; stage = starting_client }, []))

unfoldable pub client_started : (started : Bool) → Operation → Did
unfolding finish
client_started started = at_stage starting_client (λ op.
    if not started
    then give_up op
    else if is_finished op
    then (ended op, [])
    else (record op { stage = making_session }, []))

unfoldable pub session_made : (made : Bool) → Operation → Did
unfolding finish
session_made made = at_stage making_session (λ op.
    if not made
    then give_up op
    else if is_finished op
    then (record op { session = true; stage = over }, disconnected op.id ∷ [])
    else (record op { session = true; stage = beginning }, []))

abbrev pub flow_begun : Option (String × Step) → Operation → Did
flow_begun none op = give_up op
flow_begun (some (flow, step)) op =
    handle_step step op.open_browser (record op { flow = some flow; stage = over })

-- The SDK's `begin` answers: nothing that is a flow, or a flow and its first step.
unfoldable pub begun : Option (String × Step) → Operation → Did
unfolding finish handle_step
begun answer = at_stage beginning (flow_begun answer)

-- `openUrl` ends. Its failure is published whatever has become of the operation.
abbrev pub on_opening : (Operation → Did) → Option String → Operation → Did
on_opening f none op = (op, [])
on_opening f (some url) op = f (record op { opening = none })

abbrev pub tell_not_opened : Operation → Did
tell_not_opened op = (
  op,
  say op waiting_for_person "Floe could not open the sign-in page. Open the URL to continue."
        op.pending
      ∷ [],
)

unfoldable pub page_opens : (opens : Bool) → Operation → Did
unfolding advance
page_opens true op = on_opening (advance none) op.opening op
page_opens false op = on_opening tell_not_opened op.opening op

-- What an application answers to a sign-in.
pub data Answer : Type 0 where
  continue malformed consent : Answer
  input select_account : String → Answer

abbrev bad_answer : String → Result (Option String)
bad_answer m = err (fault "invalid_sign_in_answer" m 400)

abbrev expect_continue : Answer → Result (Option String)
expect_continue continue = ok none
expect_continue _ = bad_answer "This sign-in step requires a continue answer."

abbrev expect_selection : Bool → String → Result (Option String)
expect_selection true s = ok (some s)
expect_selection false s = bad_answer "Choose one of the accounts returned for this sign-in."

-- `continueSignIn`: the input that an answer to a pending action is.
unfoldable pub answer_input : Option Pending → Answer → Result (Option String)
answer_input (some (open_url url)) a = expect_continue a
answer_input (some interaction) a = expect_continue a
answer_input (some awaiting) a = expect_continue a
answer_input (some (input_required p)) (input v) = ok (some v)
answer_input (some (input_required p)) _ =
    bad_answer "This sign-in step requires a text input answer."
answer_input (some (account_selection cs)) (select_account s) =
    expect_selection (some_of (λ c. c.selection_id == s) cs) s
answer_input (some (account_selection cs)) a = expect_selection false ""
answer_input (some plaintext_consent) consent = err (
    fault "copilot_login_action_unsupported"
      "This Copilot SDK version exposes plaintext consent but does not define a safe answer format."
      501)
answer_input (some plaintext_consent) _ =
    bad_answer "This sign-in step requires a plaintext-consent answer."
answer_input none a = err (
    fault "sign_in_answer_unsupported" "The current Copilot sign-in step cannot accept an answer."
      409)

-- The end of `continueSignIn`.
unfoldable pub resume : Option String → Operation → Did
unfolding advance
resume given op = advance given (record op { pending = none })

abbrev completed_status : Authentication → Status
completed_status signed_in = succeeded
completed_status _ = did_fail

-- The last publication, from the second halves of `#finishSdkSignIn` and `#finishDeviceSignIn`.
unfoldable pub last_status : Mode → Outcome → Authentication → Status
last_status m cancelled a = was_cancelled
last_status sdk declined a = was_declined
last_status m completed a = completed_status a
last_status m _ a = did_fail

abbrev pub last_message : Mode → Status → String
last_message device was_cancelled = "GitHub sign-in was cancelled."
last_message sdk was_cancelled = "Sign-in was cancelled."
last_message m was_declined = "Sign-in was declined."
last_message m succeeded = "Signed in to GitHub Copilot."
last_message device _ = "GitHub sign-in did not complete."
last_message sdk _ = "Sign-in did not complete."
