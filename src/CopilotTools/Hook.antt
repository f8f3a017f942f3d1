-- ===== src/CopilotTools/Hook.antt =====
-- `createCopilotToolHook`: the decision on one call. The policy and `beforeToolUse` are the caller's
-- functions: what they answer is a value, an error, or nothing before the timeout. The JSON text of a
-- refusal and the diagnostics are left out.
use floe_runtime.Prelude.{
  String, Bool, false, Option, none, some, if◌then◌else◌, ◌==◌, ◌||◌, includes,
}
use floe_runtime.Errors.{◌⧺◌}
use floe_runtime.Json.{Value}
use floe_runtime.Texts.{is_blank, is_empty}
use floe_runtime.CopilotTools.Patch.{ToolFault, Attempt, thrown, returned, ◌>>=◌, raise}
use floe_runtime.CopilotTools.Facts.{Input, Call, normalize_call, text_or}
use floe_runtime.CopilotTools.Selection.{Selection}

pub data Answer (V : Type 0) : Type 0 where
  answers : V → Answer V
  fails : ToolFault → Answer V
  never : Answer V

-- `withTimeout`
abbrev pub with_timeout : {V : Type 0} → Answer V → String → String → Attempt V
with_timeout (answers v) c m = returned v
with_timeout (fails problem) c m = thrown problem
with_timeout never c m = raise c m

-- What a policy answers: a decision that is a text, or the text that `String` makes of another.
pub record Outcome : Type 0 where
  pub decision : Option String
  pub printed : String
  pub rule_id : Option String
  pub reason : Option String

abbrev pub Policy : Type 0
Policy = Call → Answer Outcome

pub record Refusal : Type 0 where
  pub fault_code : String
  pub tool_call_id : Option String
  pub operation_id : Option String
  pub rule_id : Option String
  pub reason : String

-- `modified` holds the arguments that replace those of the call.
pub data Permission : Type 0 where
  allow : (modified : Option Value) → Permission
  deny : Refusal → Permission

-- What a refusal reads of a request: its id and its operation.
abbrev pub Named : Type 0
Named = Option String × Option String

abbrev pub named_call : Call → Named
named_call c = (some c.id, some c.operation_id)

abbrev some_text : Option String → Option String
some_text none = none
some_text (some s) = if is_empty s then none else some s

-- `structuredRefusal` and `denied`
unfoldable pub denied : (cancelled : Bool) → Option String → Option String → Named → Permission
denied cancelled rule reason (id, operation) = deny (record {
  fault_code = if cancelled then "tool_policy_cancelled" else "tool_policy_denied";
  tool_call_id = some_text id;
  operation_id = some_text operation;
  rule_id = some_text rule;
  reason =
      text_or reason
        (if cancelled then "Floe cancelled this operation." else "Floe denied this operation.");
})

-- `blocked`
abbrev pub blocked : String → Named → Permission
blocked reason request = denied false none (some reason) request

abbrev pub judged : Outcome → Call → Option String → Option Permission
judged o c none =
    some (blocked ("Floe returned unsupported tool decision '" ⧺ o.printed ⧺ "'.") (named_call c))
judged o c (some decision) =
    if decision == "allow_once"
    then none
    else if decision == "reject_once" || decision == "cancel"
    then some (denied (decision == "cancel") o.rule_id o.reason (named_call c))
    else some
        (blocked ("Floe returned unsupported tool decision '" ⧺ o.printed ⧺ "'.") (named_call c))

-- `decidePolicy`: nothing if the call is allowed.
unfoldable pub decide_policy : Policy → Call → Attempt (Option Permission)
unfolding denied
decide_policy policy c =
    with_timeout (policy c) "tool_policy_timeout"
      ("Floe did not decide tool call '" ⧺ c.id ⧺ "' before the policy timeout.")
    >>= λ o. returned (judged o c o.decision)

-- What `beforeToolUse` answers. `proceed` is undefined, null, or the decision 'allow'.
pub data Verdict : Type 0 where
  proceed : Verdict
  block : (reason : Option String) → Verdict
  change : (args : Option Value) → Verdict
  unsupported : (printed : String) → Verdict

abbrev block_reason : Option String → String
block_reason none = "beforeToolUse blocked this tool call."
block_reason (some r) = if is_blank r then "beforeToolUse blocked this tool call." else r

abbrev pub changed_by : Value → Option Permission → Permission
changed_by args none = allow (some args)
changed_by args (some refusal) = refusal

-- A changed call of a built-in is normalized again and decided again.
abbrev pub recheck : Option Policy → Value → Attempt Call → Attempt Permission
recheck policy args (thrown problem) = thrown problem
recheck none args (returned c) = returned (allow (some args))
recheck (some p) args (returned c) =
    decide_policy p c >>= λ refusal. returned (changed_by args refusal)

-- `rebuild` is `none` for a custom tool.
abbrev pub verdict_on :
    Option Policy → Named → Option (Value → Attempt Call) → Verdict → Attempt Permission
verdict_on policy request rebuild proceed = returned (allow none)
verdict_on policy request rebuild (block reason) = returned (blocked (block_reason reason) request)
verdict_on policy request rebuild (change none) =
    raise "before_tool_use_invalid" "beforeToolUse changed a tool call without providing args."
verdict_on policy request none (change (some args)) = returned (allow (some args))
verdict_on policy request (some rebuild) (change (some args)) = recheck policy args (rebuild args)
verdict_on policy request rebuild (unsupported printed) =
    raise "before_tool_use_invalid"
      ("beforeToolUse returned unsupported decision '" ⧺ printed ⧺ "'.")

-- The callback, by the input from which the source makes the call that it is handed.
abbrev pub Before : Type 0
Before = Input → Answer Verdict

-- `decideBeforeToolUse`, or the permission of a hook that has no callback.
abbrev pub decide_before :
    Option Policy
    → Option Before
    → Input
    → Named
    → Option (Value → Attempt Call)
    → Attempt Permission
decide_before policy none input request rebuild = returned (allow none)
decide_before policy (some before) input request rebuild =
    with_timeout (before input) "before_tool_use_timeout"
      "beforeToolUse did not decide a tool call before the timeout."
    >>= λ v. verdict_on policy request rebuild v

abbrev is_custom : Selection → Option String → Bool
is_custom s none = false
is_custom s (some tool) = includes s.custom_names tool

abbrev pub custom_tool : Selection → Input → Bool
custom_tool s input = is_custom s input.tool_name

-- The policy's refusal, if it has one, ends the decision.
abbrev pub unless_refused : Option Permission → Attempt Permission → Attempt Permission
unless_refused none next = next
unless_refused (some refusal) next = returned refusal

abbrev pub ask_policy : Option Policy → Call → Attempt (Option Permission)
ask_policy none c = returned none
ask_policy (some p) c = decide_policy p c

-- The body of `try` for a built-in, once its call is normalized.
unfoldable pub decide_builtin :
    Option Policy → Option Before → Input → (Value → Attempt Call) → Call → Attempt Permission
unfolding decide_policy
decide_builtin policy before input rebuild c = ask_policy policy c >>= λ refusal.
    unless_refused refusal (decide_before policy before input (named_call c) (some rebuild))

-- `catch`: every error denies the call.
abbrev pub fail_closed : Named → Attempt Permission → Permission
fail_closed request (returned p) = p
fail_closed request (thrown problem) =
    blocked ("Floe could not safely evaluate this tool call: " ⧺ problem.message) request

abbrev pub rebuild_call : Selection → Input → Option String → String → Value → Attempt Call
rebuild_call s input session id args =
    normalize_call s.builtins (record input { tool_args = some args }) session id

abbrev pub builtin_permission :
    Option Policy → Option Before → Input → (Value → Attempt Call) → Attempt Call → Permission
builtin_permission policy before input rebuild (thrown problem) =
    fail_closed (none, none) (thrown problem)
builtin_permission policy before input rebuild (returned c) =
    fail_closed (named_call c) (decide_builtin policy before input rebuild c)

-- The hook: `id` is what `toolCallId()` returns.
unfoldable pub tool_hook :
    Selection
    → Option Policy
    → Option Before
    → Input
    → (session : Option String) → (id : String) → Permission
unfolding decide_builtin normalize_call
tool_hook s policy before input session id =
    if custom_tool s input
    then fail_closed (some id, none) (decide_before policy before input (some id, none) none)
    else builtin_permission policy before input (rebuild_call s input session id)
        (normalize_call s.builtins input session id)
