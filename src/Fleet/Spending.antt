-- ===== src/Fleet/Spending.antt =====
-- The budget: what a usage report does when a ceiling is configured.
use floe_runtime.Prelude.{
  ℕ, ◌+◌, map, ◌++◌, none, ◌≤◌, ◌<◌, ◌≡◌, refl, ap, sym, ◌∙◌, true, false, not, Option, some, List,
  [], ◌∷◌, arith, if_both, if_true, if_false, subst, leb, or_else, ◌&&◌,
}
use mathlib.Core.List.{append_assoc, reverse, reverse-cons}
use floe_runtime.Fleet.State.{
  Agent, Entry, Outcome, rejected, Fleet, find_agent, update_agent, emit, spend, settle,
}
use floe_runtime.Fleet.Budget.{
  cost_of, total_cost, warn, cancelled, reject_all, interrupt_all, close_admission, trip,
  recalculate_at, recalculate_budget, record_usage,
}
use floe_runtime.Fleet.Admission.{run, run_agent, is_lost, budget_exceeded}

-- What the loops over warning levels and over sessions leave alone.
pub record Unspent (fl fl' : Fleet) : Type 0 where
  pub unspent_agents : fl'.agents ≡ fl.agents
  pub unspent_queue : fl'.queue ≡ fl.queue
  pub unspent_settled : fl'.settled ≡ fl.settled
  pub unspent_spent : fl'.spent ≡ fl.spent
  pub unspent_exceeded : fl'.exceeded ≡ fl.exceeded

abbrev unchanged : (fl : Fleet) → Unspent fl fl
unchanged fl = record {
  unspent_agents = refl;
  unspent_queue = refl;
  unspent_settled = refl;
  unspent_spent = refl;
  unspent_exceeded = refl;
}

Unspent-trans : {f g h : Fleet} → Unspent f g → Unspent g h → Unspent f h
Unspent-trans a b = record {
  unspent_agents = b.unspent_agents ∙ a.unspent_agents;
  unspent_queue = b.unspent_queue ∙ a.unspent_queue;
  unspent_settled = b.unspent_settled ∙ a.unspent_settled;
  unspent_spent = b.unspent_spent ∙ a.unspent_spent;
  unspent_exceeded = b.unspent_exceeded ∙ a.unspent_exceeded;
}

warn-Unspent : (ps : List ℕ) (c : ℕ) (fl : Fleet) → Unspent fl (warn ps c fl)
unfolding warn
warn-Unspent [] c fl = unchanged fl
warn-Unspent (p ∷ ps) c fl = Unspent-trans (ground arith) (warn-Unspent ps c _)

interrupt_all-Unspent : (as' : List Agent) (fl : Fleet) → Unspent fl (interrupt_all as' fl)
unfolding interrupt_all
interrupt_all-Unspent [] fl = unchanged fl
interrupt_all-Unspent (a ∷ as') fl = Unspent-trans (ground arith) (interrupt_all-Unspent as' _)

-- What the agents have cost, and the answer that each queued turn gets when admission is closed.
abbrev pub sum_of : List ℕ → ℕ
sum_of [] = 0
sum_of (n ∷ ns) = n + sum_of ns

abbrev pub last_price : Agent → ℕ
last_price a = elim a.last_cost [ none ↦ 0 | some cost ↦ cost ]

abbrev pub over_budget : Entry → ℕ × Outcome
over_budget e = (
  e.ticket,
  rejected (record {
    fault_code = "budget_exceeded";
    message =
        "The fleet budget ceiling was reached; this queued turn was cancelled before it started.";
    status = 429;
  }),
)

total_cost-sum_of : (as' : List Agent) → total_cost as' ≡ sum_of (map last_price as')
unfolding total_cost
total_cost-sum_of [] = refl
total_cost-sum_of (a ∷ as') = omega (arith, total_cost-sum_of as', price a.last_cost)
  where
    price : (o : Option ℕ) → or_else o 0 ≡ (elim o as (λ x. ℕ) [ none ↦ 0 | some cost ↦ cost ])
    price none = refl
    price (some cost) = refl

reject_all-over_budget :
    (q : List Entry) (done : List (ℕ × Outcome))
    → reject_all cancelled q done ≡ reverse (map over_budget q) ++ done
unfolding reject_all
reject_all-over_budget [] done = refl
reject_all-over_budget (e ∷ q) done =
    reject_all-over_budget q (over_budget e ∷ done)
    ∙ sym (append_assoc (reverse (map over_budget q)) (over_budget e ∷ []) done)
    ∙ ap (λ l. l ++ done) (sym (reverse-cons (over_budget e) (map over_budget q)))

-- The fleet after the budget has been recalculated against a ceiling: the spending is the sum of the
-- agents' last prices, admission is closed if that reaches the ceiling, and closing it empties the queue
-- and rejects each entry that was in it, in order, as over budget.
pub record Recalculated (ceiling : ℕ) (fl fl' : Fleet) : Type 0 where
  pub summed : fl'.spent ≡ sum_of (map last_price fl'.agents)
  pub same_agents : fl'.agents ≡ fl.agents
  pub closed : ceiling ≤ fl'.spent → fl'.exceeded ≡ true
  pub stays_open : fl'.spent < ceiling → fl'.exceeded ≡ fl.exceeded
  pub emptied :
      fl.exceeded ≡ false
      → ceiling ≤ fl'.spent
      → (fl'.queue ≡ []) × (fl'.settled ≡ reverse (map over_budget fl.queue) ++ fl.settled)
  pub kept : fl'.spent < ceiling → (fl'.queue ≡ fl.queue) × (fl'.settled ≡ fl.settled)

closed-Recalculated :
    (c : ℕ) (fl fl' : Fleet)
    → fl.spent ≡ total_cost fl.agents
    → c ≤ fl.spent
    → Unspent (close_admission false fl) fl'
    → Recalculated c fl fl'
closed-Recalculated c fl fl' e le u = record {
  summed =
      u.unspent_spent ∙ e ∙ ap total_cost (sym u.unspent_agents) ∙ total_cost-sum_of fl'.agents;
  same_agents = u.unspent_agents;
  closed = λ _. u.unspent_exceeded;
  stays_open = λ lt. absurd (omega (arith, u.unspent_spent));
  emptied =
      λ _ _. (u.unspent_queue, u.unspent_settled ∙ reject_all-over_budget fl.queue fl.settled);
  kept = λ lt. absurd (omega (arith, u.unspent_spent));
}

open-Recalculated :
    (c : ℕ) (fl : Fleet)
    → fl.spent ≡ total_cost fl.agents
    → (not fl.exceeded && leb c fl.spent) ≡ false
    → Recalculated c fl fl
open-Recalculated c fl e h = record {
  summed = e ∙ total_cost-sum_of fl.agents;
  same_agents = refl;
  closed = λ le. ground arith;
  stays_open = λ lt. refl;
  emptied = λ o le. absurd (ground arith);
  kept = λ lt. (refl, refl);
}

trip-Recalculated :
    (c : ℕ) (fl : Fleet) → fl.spent ≡ total_cost fl.agents → Recalculated c fl (trip c fl)
trip-Recalculated c fl e =
    if_both (Recalculated c fl) (not fl.exceeded && leb c fl.spent) _ _
      (λ over.
        if_both (Recalculated c fl) fl.config.interrupt_on_ceiling _ _
          (λ _. closed-Recalculated c fl _ e (reached over) (interrupt_all-Unspent fl.agents _))
          (λ _. closed-Recalculated c fl _ e (reached over) (unchanged _)))
      (λ under. open-Recalculated c fl e under)
  where
    reached : (not fl.exceeded && leb c fl.spent) ≡ true → c ≤ fl.spent
    reached h = ground arith

-- The report of a usage: the agent's price is the new one, or stays what it was.
abbrev pub priced : Fleet → ℕ → Option ℕ → Fleet
priced fl i cost = record fl {
  agents = update_agent i (λ a. record a { last_cost = some (or_else cost (cost_of a)) }) fl.agents;
}

Recalculated-from :
    (c : ℕ) (f g h : Fleet)
    → f.queue ≡ g.queue
    → f.settled ≡ g.settled
    → f.agents ≡ g.agents
    → f.exceeded ≡ g.exceeded
    → Recalculated c f h
    → Recalculated c g h
Recalculated-from c f g h q s a x r = record {
  summed = r.summed;
  same_agents = r.same_agents ∙ a;
  closed = r.closed;
  stays_open = λ lt. r.stays_open lt ∙ x;
  emptied = λ o le.
      let (p, t) = r.emptied (x ∙ o) le in
      (
        p,
        t
            ∙ ap (λ w. reverse (map over_budget w) ++ f.settled) q
            ∙ ap (◌++◌ (reverse (map over_budget g.queue))) s,
      );
  kept = λ lt. let (p, t) = r.kept lt in (p ∙ q, t ∙ s);
}

recalculate_at-Recalculated : (fl : Fleet) (c : ℕ) → Recalculated c fl (recalculate_at fl (some c))
recalculate_at-Recalculated fl c =
    let start =
      emit (record fl { spent = total_cost fl.agents }) (spend (total_cost fl.agents) c) in
    let u = warn-Unspent fl.config.warn_at c start in
    Recalculated-from c (warn fl.config.warn_at c start) fl _ u.unspent_queue u.unspent_settled
      u.unspent_agents u.unspent_exceeded
      (trip-Recalculated c _ (u.unspent_spent ∙ ap total_cost (sym u.unspent_agents)))

-- Under a configured ceiling, a usage report makes the fleet's spending the sum of its agents' last
-- prices. Admission is closed exactly when it was closed before or the ceiling is reached, and
-- when this report closes it, every queued turn is rejected as over budget and the queue is empty;
-- below the ceiling the queue stays as it is.
pub record_usage-Recalculated :
    (fl : Fleet) (i : ℕ) (cost : Option ℕ) (c : ℕ)
    → fl.config.ceiling ≡ some c
    → Recalculated c (priced fl i cost) (record_usage fl i cost)
unfolding record_usage recalculate_budget
record_usage-Recalculated fl i cost c h =
    subst (λ o. Recalculated c (priced fl i cost) (recalculate_at (priced fl i cost) o)) (sym h)
      (recalculate_at-Recalculated (priced fl i cost) c)

-- Once admission is closed a new turn of a known agent that is not lost is rejected as over budget,
-- and nothing else of the fleet changes.
pub run-exceeded :
    (fl : Fleet) (i : ℕ) (p : Option ℕ) (now t : ℕ) (a : Agent)
    → fl.exceeded ≡ true
    → find_agent fl.agents i ≡ some a
    → is_lost a.status ≡ false
    → run fl i p now t ≡ settle t (rejected budget_exceeded) fl
unfolding run
run-exceeded fl i p now t a x f l =
    ap (λ o. run_agent fl o p now t) f
    ∙ if_false (is_lost a.status) _ _ l
    ∙ if_true fl.exceeded _ _ x
