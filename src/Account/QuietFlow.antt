-- ===== src/Account/QuietFlow.antt =====
-- src/adapters/copilot-account.mjs: the steps that start, cancel and resume a sign-in publish no end.
use floe_runtime.Prelude.{ℕ, ◌≡◌, refl, Bool, true, false, Option, none, some, arith, String}
use package.floe_runtime.Account.Operation.{
  failed, Stage, making_client, starting_client, making_session, beginning, over, Step, Operation,
  Did, advance, cancelled,
}
use package.floe_runtime.Account.Flow.{
  and_then, react_then, spawn_child, make_client, tell_not_opened, cancel_operation, start_device,
  child_spawned, child_failed, child_exited, start_sdk, client_made, client_started, session_made,
  begun, page_opens, resume, at_stage, ended, flow_begun, on_opening, exit_outcome,
}
use package.floe_runtime.Account.Quiet.{
  quiet, quiet-append, finish-quiet, handle_step-quiet, advance-quiet,
}

and_then-quiet :
    (d : Did) (f : Operation → Did)
    → quiet d ≡ true
    → ((op : Operation) → quiet (f op) ≡ true)
    → quiet (and_then d f) ≡ true
and_then-quiet (op, es) f h k = ground (arith, quiet-append es (f op).1, k op)

pub cancel_operation-quiet : (op : Operation) → quiet (cancel_operation op) ≡ true
unfolding cancel_operation
cancel_operation-quiet op =
    ground (arith, finish-quiet cancelled (record op { cancel_requested = true }))

react_then-quiet :
    (c : Bool) (f : Operation → Did)
    → ((op : Operation) → quiet (f op) ≡ true)
    → (op : Operation) → quiet (react_then c f op) ≡ true
react_then-quiet true f k op = and_then-quiet (cancel_operation op) f (cancel_operation-quiet op) k
react_then-quiet false f k op = k op

spawn_child-quiet : (s : Bool) (op : Operation) → quiet (spawn_child s op) ≡ true
spawn_child-quiet s op = ground (arith, finish-quiet cancelled op, finish-quiet failed op)

pub start_device-quiet : (c s : Bool) (op : Operation) → quiet (start_device c s op) ≡ true
unfolding start_device
start_device-quiet c s op = react_then-quiet c (spawn_child s) (spawn_child-quiet s) op

pub child_spawned-quiet : (op : Operation) → quiet (child_spawned op) ≡ true
unfolding child_spawned
child_spawned-quiet op = ground arith

pub child_failed-quiet : (op : Operation) → quiet (child_failed op) ≡ true
unfolding child_failed
child_failed-quiet op = ground (arith, finish-quiet failed op)

pub child_exited-quiet : (c : Option ℕ) (op : Operation) → quiet (child_exited c op) ≡ true
unfolding child_exited
child_exited-quiet c op = ground (arith, finish-quiet (exit_outcome op c) op)

pub start_sdk-quiet : (c : Bool) (op : Operation) → quiet (start_sdk c op) ≡ true
unfolding start_sdk
start_sdk-quiet c op = react_then-quiet c make_client (λ q. refl) op

at_stage-quiet :
    (g : Stage) (f : Operation → Did)
    → ((op : Operation) → quiet (f op) ≡ true)
    → (op : Operation) → quiet (at_stage g f op) ≡ true
at_stage-quiet making_client f k op = ground (arith, k op)
at_stage-quiet starting_client f k op = ground (arith, k op)
at_stage-quiet making_session f k op = ground (arith, k op)
at_stage-quiet beginning f k op = ground (arith, k op)
at_stage-quiet over f k op = refl

pub client_made-quiet : (m : Bool) (op : Operation) → quiet (client_made m op) ≡ true
unfolding client_made
client_made-quiet m =
    at_stage-quiet making_client _ (λ op. ground (arith, finish-quiet failed (ended op)))

pub client_started-quiet : (m : Bool) (op : Operation) → quiet (client_started m op) ≡ true
unfolding client_started
client_started-quiet m =
    at_stage-quiet starting_client _ (λ op. ground (arith, finish-quiet failed (ended op)))

pub session_made-quiet : (m : Bool) (op : Operation) → quiet (session_made m op) ≡ true
unfolding session_made
session_made-quiet m =
    at_stage-quiet making_session _ (λ op. ground (arith, finish-quiet failed (ended op)))

flow_begun-quiet : (a : Option (String × Step)) (op : Operation) → quiet (flow_begun a op) ≡ true
flow_begun-quiet none op = finish-quiet failed (ended op)
flow_begun-quiet (some (flow, step)) op = handle_step-quiet step _ _

pub begun-quiet : (a : Option (String × Step)) (op : Operation) → quiet (begun a op) ≡ true
unfolding begun
begun-quiet a = at_stage-quiet beginning (flow_begun a) (flow_begun-quiet a)

on_opening-quiet :
    (f : Operation → Did) (o : Option String) (op : Operation)
    → ((op : Operation) → quiet (f op) ≡ true)
    → quiet (on_opening f o op) ≡ true
on_opening-quiet f none op k = refl
on_opening-quiet f (some url) op k = k (record op { opening = none })

pub page_opens-quiet : (b : Bool) (op : Operation) → quiet (page_opens b op) ≡ true
unfolding page_opens
page_opens-quiet true op = on_opening-quiet (advance none) op.opening op (advance-quiet none)
page_opens-quiet false op = on_opening-quiet tell_not_opened op.opening op (λ o. refl)

pub resume-quiet : (i : Option String) (op : Operation) → quiet (resume i op) ≡ true
unfolding resume
resume-quiet i op = advance-quiet i (record op { pending = none })
