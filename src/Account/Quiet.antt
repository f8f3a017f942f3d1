-- ===== src/Account/Quiet.antt =====
-- src/adapters/copilot-account.mjs: no step of a flow publishes an end; only the second half of finishing
-- does.
use floe_runtime.Prelude.{
  ◌≡◌, refl, Bool, true, false, not, Option, none, some, if_both, List, [], ◌∷◌, ◌++◌, ◌&&◌, ◌||◌,
  every, arith, String,
}
use package.floe_runtime.Account.Operation.{
  Outcome, Status, was_cancelled, was_declined, succeeded, did_fail, Step, Operation, Effect,
  published, Did, finish, handle_step, handle_live_step, handle_result, LoginResult,
  result_completed, result_declined, result_consent, result_other, result_selection, open_page,
  ask_input, interact, wait, broken, done, Address, no_address, address, handle_page,
  handle_advance, is_finished, advance, advanced,
}

abbrev pub is_last : Status → Bool
is_last was_cancelled = true
is_last was_declined = true
is_last succeeded = true
is_last did_fail = true
is_last s = false

abbrev pub is_quiet : Effect → Bool
is_quiet (published i p s m x) = not (is_last s)
is_quiet e = true

abbrev pub quiet : Did → Bool
quiet d = every is_quiet d.1

pub quiet-append :
    (es fs : List Effect) → every is_quiet (es ++ fs) ≡ (every is_quiet es && every is_quiet fs)
quiet-append [] fs = refl
quiet-append (e ∷ es) fs = ground (arith, quiet-append es fs)

pub finish-quiet : (o : Outcome) (op : Operation) → quiet (finish o op) ≡ true
unfolding finish
finish-quiet o op = ground arith

handle_result-quiet : (r : LoginResult) (op : Operation) → quiet (handle_result r op) ≡ true
handle_result-quiet result_completed op = finish-quiet _ op
handle_result-quiet result_declined op = finish-quiet _ op
handle_result-quiet result_consent op = refl
handle_result-quiet result_other op = finish-quiet _ op
handle_result-quiet (result_selection cs) op = refl

handle_page-quiet : (a : Address) (b : Bool) (op : Operation) → quiet (handle_page a b op) ≡ true
handle_page-quiet no_address b op = finish-quiet _ op
handle_page-quiet (address false url) b op = finish-quiet _ op
handle_page-quiet (address true url) false op = refl
handle_page-quiet (address true url) true op = refl

handle_live_step-quiet :
    (s : Step) (b : Bool) (op : Operation) → quiet (handle_live_step s b op) ≡ true
handle_live_step-quiet (open_page a) b op = handle_page-quiet a b op
handle_live_step-quiet (ask_input prompt) b op = refl
handle_live_step-quiet interact b op = refl
handle_live_step-quiet wait b op = refl
handle_live_step-quiet broken b op = finish-quiet _ op
handle_live_step-quiet (done r) b op = handle_result-quiet r op

pub handle_step-quiet : (s : Step) (b : Bool) (op : Operation) → quiet (handle_step s b op) ≡ true
unfolding handle_step
handle_step-quiet s b op =
    if_both (λ d. quiet d ≡ true) (is_finished op || op.cancel_requested) (op, [])
      (handle_live_step s b op) (λ gone. refl) (λ there. handle_live_step-quiet s b op)

pub advance-quiet : (i : Option String) (op : Operation) → quiet (advance i op) ≡ true
unfolding advance
advance-quiet i op = ground arith

handle_advance-quiet : (a : Option Step) (op : Operation) → quiet (handle_advance a op) ≡ true
handle_advance-quiet none op = finish-quiet _ op
handle_advance-quiet (some s) op = handle_step-quiet s false op

pub advanced-quiet : (a : Option Step) (op : Operation) → quiet (advanced a op) ≡ true
unfolding advanced
advanced-quiet a op = ground (arith, handle_advance-quiet a op)
