-- ===== src/Copilot/Turn.antt =====
-- src/adapters/copilot.mjs: one turn of a session, from the SDK's events to its result. The times of events
-- are left out; a timer is whether it is set.
use floe_runtime.Prelude.{
  ℕ, ◌+◌, String, Bool, true, false, Option, none, some, List, [], ◌∷◌, or_else,
}
use floe_runtime.Prelude.Map.{Map}
use floe_runtime.Errors.{RuntimeFault, Result}

-- What the SDK reports of one call of a model; a count that is no finite number is none.
pub record Call : Type 0 where
  pub input_tokens : Option ℕ
  pub output_tokens : Option ℕ
  pub cache_read_tokens : Option ℕ
  pub cache_write_tokens : Option ℕ
  pub reasoning_effort : Option String

pub record Usage : Type 0 where
  pub input_tokens : ℕ
  pub output_tokens : ℕ
  pub cache_read_tokens : ℕ
  pub cache_write_tokens : ℕ
  pub reasoning_effort : Option String
  pub model_calls : List Call
  pub tool_calls : ℕ

abbrev pub sum_of : (Call → Option ℕ) → List Call → ℕ
sum_of f [] = 0
sum_of f (c ∷ cs) = or_else (f c) 0 + sum_of f cs

abbrev last_call : Call → List Call → Call
last_call c [] = c
last_call c (d ∷ ds) = last_call d ds

-- `aggregateUsage`: the counts are summed, all else is of the latest call.
unfoldable pub aggregate_usage : List Call → ℕ → Option Usage
aggregate_usage [] n = none
aggregate_usage (c ∷ cs) n = some (record {
  input_tokens = sum_of (λ d. d.input_tokens) (c ∷ cs);
  output_tokens = sum_of (λ d. d.output_tokens) (c ∷ cs);
  cache_read_tokens = sum_of (λ d. d.cache_read_tokens) (c ∷ cs);
  cache_write_tokens = sum_of (λ d. d.cache_write_tokens) (c ∷ cs);
  reasoning_effort = (last_call c cs).reasoning_effort;
  model_calls = c ∷ cs;
  tool_calls = n;
})

-- The SDK's events; a text that is empty where the source tests for one counts as none.
pub data SdkEvent : Type 0 where
  turn_start : Option String → SdkEvent
  message_delta reasoning_delta : String → SdkEvent
  message : (content : Option String) → (finish : Option String) → SdkEvent
  usage : Call → SdkEvent
  tool_start : (id : String) → (name : Option String) → SdkEvent
  tool_complete : (id : String) → (name : Option String) → (success : Bool) → SdkEvent
  session_error model_failure : Option String → SdkEvent
  session_idle : (aborted : Bool) → SdkEvent
  other_event : SdkEvent

pub data Phase : Type 0 where
  started completed interrupted failed : Phase

-- What a turn publishes.
pub data Published : Type 0 where
  turn : Phase → Option String → Published
  stream : (kind : String) → (delta : String) → Published
  usage_so_far : Usage → Published
  tool : (id : String) → (status : String) → (title : String) → Published

-- What the promise of `run` is resolved with, for a report of type `R`.
pub record Done (R : Type 0) : Type 0 where
  pub report : R
  pub text : String
  pub turn_id : String
  pub stop_reason : String
  pub effort : Option String
  pub items : List SdkEvent
  pub used : Option Usage

-- `task`, with the promise it settles, and what the adapter keeps of it: whether it is in the map of
-- turns, whether the registry has the session as stopped, whether it listens to the session, and whether
-- the session has been taken out of the adapter's maps.
pub record Task (R : Type 0) : Type 0 where
  pub turn_id : String
  pub effort : Option String
  pub items : List SdkEvent
  pub text : String
  pub final_message : Option String
  pub finish_reason : Option String
  pub used : Option Usage
  pub model_calls : List Call
  pub tool_call_ids : List String
  pub activities : Map String
  pub aborted : Bool
  pub abort_requested : Bool
  pub unverified : List String
  pub finished : Bool
  pub timer : Bool
  pub timed_out : Bool
  pub progress_timer : Bool
  pub sending : Bool
  pub session_failure : Option (Option String)
  pub call_failure : Option (Option String)
  pub stall_fault : Option RuntimeFault
  pub in_turns : Bool
  pub stopped : Bool
  pub subscribed : Bool
  pub released : Bool
  pub published : List Published
  pub settled : List (Result (Done R))

-- The task that `run` makes, once it listens and its start is published.
abbrev pub new_task : {R : Type 0} → String → Option String → Task R
new_task i effort = record {
  turn_id = i;
  effort = effort;
  items = [];
  text = "";
  final_message = none;
  finish_reason = none;
  used = none;
  model_calls = [];
  tool_call_ids = [];
  activities = [];
  aborted = false;
  abort_requested = false;
  unverified = [];
  finished = false;
  timer = true;
  timed_out = false;
  progress_timer = false;
  sending = true;
  session_failure = none;
  call_failure = none;
  stall_fault = none;
  in_turns = true;
  stopped = false;
  subscribed = true;
  released = false;
  published = turn started none ∷ [];
  settled = [];
}
