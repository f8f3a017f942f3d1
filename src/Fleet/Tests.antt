-- ===== src/Fleet/Tests.antt =====
-- Concrete fleets: two agents on one process, and a budget.
use floe_runtime.Prelude.{
  ℕ, ◌≡◌, refl, ◌⊎◌, true, false, none, some, List, [], ◌∷◌, arith, get_elem?,
}
use floe_runtime.Fleet.State.{
  ready, Agent, Entry, resolved, Config, Fleet, new_fleet, default_warn_at,
}
use floe_runtime.Fleet.Queue.{is_eligible, can_assign, scan, pick}
use floe_runtime.Fleet.Admission.{Request, drain}
use floe_runtime.Fleet.Budget.{record_usage}
use floe_runtime.Fleet.Lifecycle.{Step, requests, runs, starts, settles, loses, history}
use floe_runtime.Fleet.Limits.{Limited, history-Limited}
use floe_runtime.Fleet.Ranking.{Before, pick-first}
use floe_runtime.Fleet.Draining.{IsDrained, drain-IsDrained}
use floe_runtime.Fleet.Spending.{Recalculated, priced, record_usage-Recalculated}

abbrev config : Config
config = record {
  backends = "codex" ∷ [];
  default_backend = "codex";
  max_sessions = 1;
  max_processes = some 1;
  max_turns = some 1;
  auto_recover = true;
  ceiling = some 10;
  warn_at = default_warn_at;
  interrupt_on_ceiling = true;
}

abbrev asks : Request
asks = record {
  role = "reviewer";
  cwd = "/work";
  model = none;
  backend = none;
  scope = none;
  ephemeral = false;
  priority = 0;
}

-- Two agents run a turn each on a fleet that admits one; the first turn ends and the process dies.
abbrev steps : List Step
steps =
    requests asks
    ∷ requests asks
    ∷ runs 0 none 5 0
    ∷ runs 1 none 6 1
    ∷ starts 0 "s"
    ∷ settles 0 resolved
    ∷ loses 2
    ∷ []

history-Limited_example : Limited (history (new_fleet config) steps)
history-Limited_example = history-Limited config steps (omega arith)

abbrev agent : ℕ → Agent
agent i = record {
  id = i;
  role = "reviewer";
  cwd = "/work";
  model = none;
  backend = "codex";
  scope = none;
  ephemeral = false;
  priority = 0;
  status = ready;
  shard_id = some 5;
  session_id = none;
  last_cost = none;
  last_goal = none;
}

abbrev entry : (agent priority time : ℕ) → Entry
entry i p t = record { agent_id = i; priority = p; enqueued_at = t; ticket = i }

abbrev low : Entry
low = entry 0 1 4

abbrev high : Entry
high = entry 1 2 6

abbrev waiting_fleet : Fleet
waiting_fleet = record (new_fleet config) {
  agents = agent 0 ∷ agent 1 ∷ [];
  queue = low ∷ high ∷ [];
}

picked : pick waiting_fleet ≡ some (1, high)
unfolding pick scan can_assign
picked = refl

pick-first_example :
    (get_elem? waiting_fleet.queue 1 ≡ some high)
    × (is_eligible waiting_fleet high ≡ true)
    × ((k : ℕ) (f : Entry)
        → get_elem? waiting_fleet.queue k ≡ some f
        → is_eligible waiting_fleet f ≡ true
        → Before (1, high) (k, f))
pick-first_example = pick-first waiting_fleet 1 high picked

drain-IsDrained_example : (waiting_fleet.exceeded ≡ true) ⊎ IsDrained (drain waiting_fleet)
drain-IsDrained_example = drain-IsDrained waiting_fleet

record_usage-Recalculated_example :
    Recalculated 10 (priced waiting_fleet 0 (some 12)) (record_usage waiting_fleet 0 (some 12))
record_usage-Recalculated_example = record_usage-Recalculated waiting_fleet 0 (some 12) 10 refl
