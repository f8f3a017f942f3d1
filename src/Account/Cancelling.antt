-- ===== src/Account/Cancelling.antt =====
-- src/adapters/copilot-account.mjs: an operation that was cancelled stays cancelled.
use floe_runtime.Prelude.{
  ℕ, ◌≡◌, String, Bool, true, false, not, Option, none, some, ◌&&◌, ◌||◌, arith, nat_eq, ◌+◌,
  if◌then◌else◌, every, length,
}
use package.floe_runtime.Account.Operation.{
  Outcome, cancelled, failed, over, Step, Operation, Did, is_finished, finish, handle_step, advance,
  advanced, handle_advance,
}
use package.floe_runtime.Account.Flow.{
  cancel_operation, child_spawned, child_failed, child_exited, client_made, client_started,
  session_made, begun, flow_begun, page_opens, resume, ended, exit_outcome, react_then, spawn_child,
  start_device, start_sdk, make_client,
}

abbrev pub is_cancelled : Option Outcome → Bool
is_cancelled (some cancelled) = true
is_cancelled _ = false

-- How many ends an operation still publishes.
abbrev pub due_of : Operation → ℕ
due_of op = (if is_finished op then 0 else 1) + length op.awaiting

abbrev pub ends_cancelled : Operation → Bool
ends_cancelled op = is_cancelled op.finished && every (λ o. is_cancelled (some o)) op.awaiting

-- A step that keeps the id of an operation, the number of ends to come, and its end if that was a
-- cancellation.
abbrev pub stays : Operation → Operation → Bool
stays op q =
    nat_eq q.id op.id
    && nat_eq (due_of q) (due_of op)
    && (not (ends_cancelled op) || ends_cancelled q)

-- A step of every operation.
abbrev pub Stays : (Operation → Did) → Type 0
Stays f = (op : Operation) → stays op (f op).0 ≡ true

finish-Stays : (o : Outcome) → Stays (finish o)
unfolding finish
finish-Stays o op = ground arith

advance-Stays : (i : Option String) → Stays (advance i)
unfolding advance
advance-Stays i op = ground arith

handle_step-Stays : (s : Step) (b : Bool) → Stays (handle_step s b)
unfolding handle_step
handle_step-Stays s b op = ground arith

pub cancel_operation-Stays : Stays cancel_operation
unfolding cancel_operation
cancel_operation-Stays op =
    ground (arith, finish-Stays cancelled (record op { cancel_requested = true }))

pub child_spawned-Stays : Stays child_spawned
unfolding child_spawned
child_spawned-Stays op = ground arith

pub child_failed-Stays : Stays child_failed
unfolding child_failed
child_failed-Stays op = ground (arith, finish-Stays failed op)

pub child_exited-Stays : (c : Option ℕ) → Stays (child_exited c)
unfolding child_exited
child_exited-Stays c op = ground (arith, finish-Stays (exit_outcome op c) op)

pub client_made-Stays : (b : Bool) → Stays (client_made b)
unfolding client_made
client_made-Stays b op = ground (arith, finish-Stays failed (ended op))

pub client_started-Stays : (b : Bool) → Stays (client_started b)
unfolding client_started
client_started-Stays b op = ground (arith, finish-Stays failed (ended op))

pub session_made-Stays : (b : Bool) → Stays (session_made b)
unfolding session_made
session_made-Stays b op = ground (arith, finish-Stays failed (ended op))

flow_begun-Stays : (a : Option (String × Step)) → Stays (flow_begun a)
flow_begun-Stays none op = ground (arith, finish-Stays failed (ended op))
flow_begun-Stays (some (flow, step)) op =
    handle_step-Stays step op.open_browser (record op { flow = some flow; stage = over })

pub begun-Stays : (a : Option (String × Step)) → Stays (begun a)
unfolding begun
begun-Stays a op = ground (arith, flow_begun-Stays a op)

pub page_opens-Stays : (b : Bool) → Stays (page_opens b)
unfolding page_opens
page_opens-Stays true op = ground (arith, advance-Stays none (record op { opening = none }))
page_opens-Stays false op = ground arith

pub resume-Stays : (i : Option String) → Stays (resume i)
unfolding resume
resume-Stays i op = ground (arith, advance-Stays i (record op { pending = none }))

handle_advance-Stays : (a : Option Step) → Stays (handle_advance a)
handle_advance-Stays none op = finish-Stays _ op
handle_advance-Stays (some s) op = handle_step-Stays s false op

pub advanced-Stays : (a : Option Step) → Stays (advanced a)
unfolding advanced
advanced-Stays a op = ground (arith, handle_advance-Stays a op)

react_then-Stays : (c : Bool) (f : Operation → Did) → Stays f → Stays (react_then c f)
react_then-Stays false f k op = k op
react_then-Stays true f k op = ground (arith, cancel_operation-Stays op, k (cancel_operation op).0)

spawn_child-Stays : (b : Bool) → Stays (spawn_child b)
spawn_child-Stays b op = ground (arith, finish-Stays cancelled op, finish-Stays failed op)

pub start_device-Stays : (c b : Bool) → Stays (start_device c b)
unfolding start_device
start_device-Stays c b op = react_then-Stays c (spawn_child b) (spawn_child-Stays b) op

pub start_sdk-Stays : (c : Bool) → Stays (start_sdk c)
unfolding start_sdk
start_sdk-Stays c op = react_then-Stays c make_client (λ q. ground arith) op
