-- ===== src/Fleet/Frame.antt =====
-- What the operations of a fleet leave alone.
use floe_runtime.Prelude.{
  ℕ, ◌≡◌, refl, ◌∙◌, false, Option, none, some, List, [], ◌∷◌, arith, if_both, ◌&&◌, not, leb,
  or_else,
}
use floe_runtime.Fleet.State.{
  Agent, Shard, Entry, Fleet, find_agent, update_agent, emit, spend, published,
}
use floe_runtime.Fleet.Admission.{
  acquire_shard, acquire_at, join_shard, join_or_create, admit, admit_agent, start_turn,
}
use floe_runtime.Fleet.Recovery.{
  lose_agent, forget_shard, recover_on, recover_agent, rescue_agent, rescue_all,
}
use floe_runtime.Fleet.Budget.{
  close_admission, warn, trip, interrupt_all, recalculate_at, recalculate_budget, record_usage,
  handle_backend_ceiling, total_cost, cost_of,
}

-- What `#acquireShard` leaves alone.
pub record Same (fl fl' : Fleet) : Type 0 where
  pub same_config : fl'.config ≡ fl.config
  pub same_queue : fl'.queue ≡ fl.queue
  pub same_flight : fl'.in_flight ≡ fl.in_flight
  pub same_turns : fl'.active_turns ≡ fl.active_turns
  pub same_exceeded : fl'.exceeded ≡ fl.exceeded
  pub same_settled : fl'.settled ≡ fl.settled
  pub same_spent : fl'.spent ≡ fl.spent

abbrev pub all_same : (fl : Fleet) → Same fl fl
all_same fl = record {
  same_config = refl;
  same_queue = refl;
  same_flight = refl;
  same_turns = refl;
  same_exceeded = refl;
  same_settled = refl;
  same_spent = refl;
}

acquire_at-Same : (fl : Fleet) (a : Agent) (s : Option ℕ) → Same fl (acquire_at fl a s).0
acquire_at-Same fl a (some i) = all_same fl
acquire_at-Same fl a none = joined (join_shard fl.config.max_sessions a.backend a.id fl.shards)
  where
    joined : (r : Option (List Shard × ℕ)) → Same fl (join_or_create fl a r).0
    joined (some (ss, i)) = record {
      same_config = refl;
      same_queue = refl;
      same_flight = refl;
      same_turns = refl;
      same_exceeded = refl;
      same_settled = refl;
      same_spent = refl;
    }
    joined none = ground arith

pub acquire_shard-Same : (fl : Fleet) (a : Agent) → Same fl (acquire_shard fl a).0
unfolding acquire_shard
acquire_shard-Same fl a = acquire_at-Same fl a a.shard_id

-- What `#admit` leaves alone.
pub record Kept (fl fl' : Fleet) : Type 0 where
  pub kept_config : fl'.config ≡ fl.config
  pub kept_queue : fl'.queue ≡ fl.queue
  pub kept_exceeded : fl'.exceeded ≡ fl.exceeded
  pub kept_settled : fl'.settled ≡ fl.settled
  pub kept_spent : fl'.spent ≡ fl.spent

start_turn-Kept :
    (e : Entry) (fl fl' : Fleet) (s : Option ℕ) → Same fl fl' → Kept fl (start_turn e fl' s)
start_turn-Kept e fl fl' none h = record {
  kept_config = h.same_config;
  kept_queue = h.same_queue;
  kept_exceeded = h.same_exceeded;
  kept_settled = h.same_settled;
  kept_spent = h.same_spent;
}
start_turn-Kept e fl fl' (some s) h = record {
  kept_config = h.same_config;
  kept_queue = h.same_queue;
  kept_exceeded = h.same_exceeded;
  kept_settled = h.same_settled;
  kept_spent = h.same_spent;
}

admit_agent-Kept : (e : Entry) (fl : Fleet) (a : Option Agent) → Kept fl (admit_agent e fl a)
admit_agent-Kept e fl none = start_turn-Kept e fl fl none (all_same fl)
admit_agent-Kept e fl (some a) =
    start_turn-Kept e fl (acquire_shard fl a).0 (acquire_shard fl a).1 (acquire_shard-Same fl a)

pub admit-Kept : (fl : Fleet) (e : Entry) → Kept fl (admit fl e)
unfolding admit
admit-Kept fl e = admit_agent-Kept e fl (find_agent fl.agents e.agent_id)

-- What the bookkeeping of the budget leaves alone.
pub record Still (fl fl' : Fleet) : Type 0 where
  pub still_config : fl'.config ≡ fl.config
  pub still_flight : fl'.in_flight ≡ fl.in_flight
  pub still_turns : fl'.active_turns ≡ fl.active_turns
  pub still_shards : fl'.shards ≡ fl.shards

abbrev pub all_still : (fl : Fleet) → Still fl fl
all_still fl = record {
  still_config = refl;
  still_flight = refl;
  still_turns = refl;
  still_shards = refl;
}

Still-trans : {f g h : Fleet} → Still f g → Still g h → Still f h
Still-trans a b = record {
  still_config = b.still_config ∙ a.still_config;
  still_flight = b.still_flight ∙ a.still_flight;
  still_turns = b.still_turns ∙ a.still_turns;
  still_shards = b.still_shards ∙ a.still_shards;
}

warn-Still : (ps : List ℕ) (c : ℕ) (fl : Fleet) → Still fl (warn ps c fl)
unfolding warn
warn-Still [] c fl = all_still fl
warn-Still (p ∷ ps) c fl = Still-trans (ground arith) (warn-Still ps c _)

interrupt_all-Still : (as' : List Agent) (fl : Fleet) → Still fl (interrupt_all as' fl)
unfolding interrupt_all
interrupt_all-Still [] fl = all_still fl
interrupt_all-Still (a ∷ as') fl = Still-trans (ground arith) (interrupt_all-Still as' _)

close_admission-Still : (fl : Fleet) → Still fl (close_admission false fl)
close_admission-Still fl = record {
  still_config = refl;
  still_flight = refl;
  still_turns = refl;
  still_shards = refl;
}

trip-Still : (c : ℕ) (fl : Fleet) → Still fl (trip c fl)
trip-Still c fl =
    if_both (Still fl) (not fl.exceeded && leb c fl.spent) _ _
      (λ _.
        if_both (Still fl) fl.config.interrupt_on_ceiling _ _
          (λ _. Still-trans (close_admission-Still fl) (interrupt_all-Still fl.agents _))
          (λ _. close_admission-Still fl))
      (λ _. all_still fl)

recalculate_at-Still : (fl : Fleet) (c : Option ℕ) → Still fl (recalculate_at fl c)
recalculate_at-Still fl none = all_still fl
recalculate_at-Still fl (some c) =
    Still-trans (Still-trans priced (warn-Still _ c _)) (trip-Still c _)
  where
    priced :
        Still fl
          (emit (record fl { spent = total_cost fl.agents }) (spend (total_cost fl.agents) c))
    priced = record {
      still_config = refl;
      still_flight = refl;
      still_turns = refl;
      still_shards = refl;
    }

pub record_usage-Still : (fl : Fleet) (i : ℕ) (cost : Option ℕ) → Still fl (record_usage fl i cost)
unfolding record_usage recalculate_budget
record_usage-Still fl i cost = Still-trans repriced (recalculate_at-Still _ fl.config.ceiling)
  where
    repriced : Still fl (record fl {
      agents =
          update_agent i (λ a. record a { last_cost = some (or_else cost (cost_of a)) }) fl.agents;
    })
    repriced = record {
      still_config = refl;
      still_flight = refl;
      still_turns = refl;
      still_shards = refl;
    }

pub handle_backend_ceiling-Still : (fl : Fleet) → Still fl (handle_backend_ceiling fl)
unfolding handle_backend_ceiling
handle_backend_ceiling-Still fl =
    if_both (Still fl) fl.exceeded _ _ (λ _. all_still fl)
      λ _. record {
        still_config = refl;
        still_flight = refl;
        still_turns = refl;
        still_shards = refl;
      }

Same-trans : {f g h : Fleet} → Same f g → Same g h → Same f h
Same-trans a b = record {
  same_config = b.same_config ∙ a.same_config;
  same_queue = b.same_queue ∙ a.same_queue;
  same_flight = b.same_flight ∙ a.same_flight;
  same_turns = b.same_turns ∙ a.same_turns;
  same_exceeded = b.same_exceeded ∙ a.same_exceeded;
  same_settled = b.same_settled ∙ a.same_settled;
  same_spent = b.same_spent ∙ a.same_spent;
}

pub lose_agent-Same : (i : ℕ) (fl : Fleet) → Same fl (lose_agent i fl)
lose_agent-Same i fl = record {
  same_config = refl;
  same_queue = refl;
  same_flight = refl;
  same_turns = refl;
  same_exceeded = refl;
  same_settled = refl;
  same_spent = refl;
}

recovering-Same :
    (i : ℕ) (fl : Fleet) → Same fl (emit (forget_shard i fl) (published i "agentRecovering"))
recovering-Same i fl = record {
  same_config = refl;
  same_queue = refl;
  same_flight = refl;
  same_turns = refl;
  same_exceeded = refl;
  same_settled = refl;
  same_spent = refl;
}

recover_on-Same :
    (i : ℕ) (fl fl' : Fleet) (s : Option ℕ) → Same fl fl' → Same fl (recover_on i (fl', s))
recover_on-Same i fl fl' none h = Same-trans h (lose_agent-Same i fl')
recover_on-Same i fl fl' (some s) h = h

recover_agent-Same : (fl : Fleet) (i : ℕ) (a : Option Agent) → Same fl (recover_agent fl i a)
recover_agent-Same fl i none = all_same fl
recover_agent-Same fl i (some a) =
    recover_on-Same i fl (acquire_shard fl a).0 (acquire_shard fl a).1 (acquire_shard-Same fl a)

rescue_agent-Same : (fl : Fleet) (i : ℕ) (a : Option Agent) → Same fl (rescue_agent fl i a)
rescue_agent-Same fl i none = all_same fl
rescue_agent-Same fl i (some a) =
    if_both (Same fl) a.ephemeral _ _ (λ _. lose_agent-Same i fl)
      λ _.
        if_both (Same fl) (not fl.config.auto_recover) _ _ (λ _. lose_agent-Same i fl)
          λ _.
            Same-trans (recovering-Same i fl)
              (recover_agent-Same (emit (forget_shard i fl) (published i "agentRecovering")) i _)

pub rescue_all-Same : (is : List ℕ) (fl : Fleet) → Same fl (rescue_all is fl)
unfolding rescue_all
rescue_all-Same [] fl = all_same fl
rescue_all-Same (i ∷ is) fl = Same-trans (rescue_agent-Same fl i _) (rescue_all-Same is _)
