-- ===== src/Fleet/Budget.antt =====
-- Spending: `#recordUsage`, `#recalculateBudget` and `#handleBackendCeiling`.
use floe_runtime.Prelude.{
  ℕ, ◌+◌, ◌*◌, String, Bool, true, false, Option, none, some, List, [], ◌∷◌, ◌++◌, leb,
  if◌then◌else◌, or_else, not, ◌&&◌, is_some,
}
use floe_runtime.Errors.{RuntimeFault, fault}
use floe_runtime.Fleet.State.{
  Agent, Entry, Outcome, rejected, spend, budget_warning, ceiling_reached, interrupted, Fleet,
  update_agent, find_shard, in_set, emit, emit_depth,
}

abbrev pub cost_of : Agent → ℕ
cost_of a = or_else a.last_cost 0

-- `for (const agent of this.agents.values()) spent += agent.lastUsage?.cost || 0`
unfoldable pub total_cost : List Agent → ℕ
total_cost [] = 0
total_cost (a ∷ as') = cost_of a + total_cost as'

-- The loop over `warnAt`. A level is reached when the spending is at least that part of the ceiling.
unfoldable pub warn : List ℕ → (ceiling : ℕ) → Fleet → Fleet
warn [] ceiling fl = fl
warn (pct ∷ pcts) ceiling fl = warn pcts ceiling (
    if not (in_set pct fl.warned) && leb (ceiling * pct) (fl.spent * 100)
    then emit (record fl { warned = fl.warned ++ pct ∷ [] }) (budget_warning pct fl.spent ceiling)
    else fl)

abbrev pub cancelled : RuntimeFault
cancelled =
    fault "budget_exceeded"
      "The fleet budget ceiling was reached; this queued turn was cancelled before it started." 429

-- `this.queue.splice(0, this.queue.length)`, and every entry is rejected.
unfoldable pub reject_all : RuntimeFault → List Entry → List (ℕ × Outcome) → List (ℕ × Outcome)
reject_all f [] done = done
reject_all f (e ∷ q) done = reject_all f q ((e.ticket, rejected f) ∷ done)

abbrev pub reject_queue : RuntimeFault → Fleet → Fleet
reject_queue f fl = record fl { queue = []; settled = reject_all f fl.queue fl.settled }

abbrev interrupt_session : Fleet → Option ℕ → Option String → Fleet
interrupt_session fl (some s) (some session) =
    if is_some (find_shard fl.shards s) then emit fl (interrupted s session) else fl
interrupt_session fl (some s) none = fl
interrupt_session fl none session = fl

-- The loop of `interruptOnCeiling`.
unfoldable pub interrupt_all : List Agent → Fleet → Fleet
interrupt_all [] fl = fl
interrupt_all (a ∷ as') fl = interrupt_all as' (interrupt_session fl a.shard_id a.session_id)

abbrev pub close_admission : Bool → Fleet → Fleet
close_admission from_backend fl = emit_depth (
    reject_queue cancelled
      (emit (record fl { exceeded = true }) (ceiling_reached fl.spent from_backend)))

abbrev pub trip : (ceiling : ℕ) → Fleet → Fleet
trip ceiling fl =
    if not fl.exceeded && leb ceiling fl.spent
    then (let closed = close_admission false fl in
        if fl.config.interrupt_on_ceiling then interrupt_all fl.agents closed else closed)
    else fl

abbrev pub recalculate_at : Fleet → Option ℕ → Fleet
recalculate_at fl none = fl
recalculate_at fl (some ceiling) =
    let spent = total_cost fl.agents in
    trip ceiling
      (warn fl.config.warn_at ceiling (emit (record fl { spent = spent }) (spend spent ceiling)))

-- `#recalculateBudget`
unfoldable pub recalculate_budget : Fleet → Fleet
unfolding total_cost warn reject_all interrupt_all
recalculate_budget fl = recalculate_at fl fl.config.ceiling

-- `#recordUsage`: a report without a price keeps the last one.
unfoldable pub record_usage : Fleet → ℕ → Option ℕ → Fleet
unfolding recalculate_budget
record_usage fl agent cost = recalculate_budget (record fl {
  agents =
      update_agent agent (λ a. record a { last_cost = some (or_else cost (cost_of a)) }) fl.agents;
})

abbrev pub backend_cancelled : RuntimeFault
backend_cancelled =
    fault "budget_exceeded"
      "A backend reported hitting its own spend/quota limit; this queued turn was cancelled before it started."
      429

-- `#handleBackendCeiling`
unfoldable pub handle_backend_ceiling : Fleet → Fleet
unfolding reject_all
handle_backend_ceiling fl =
    if fl.exceeded
    then fl
    else emit_depth (
        reject_queue backend_cancelled
          (emit (record fl { exceeded = true }) (ceiling_reached fl.spent true)))
