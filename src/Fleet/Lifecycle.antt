-- ===== src/Fleet/Lifecycle.antt =====
-- The rest of a fleet's life: the event listener of a shard, `retireAgent`, `setGoal`, `close` and
-- `status`, and the fleet as a machine that takes one step after another.
use floe_runtime.Prelude.{
  ℕ, ◌-◌, String, Bool, true, Option, none, some, List, [], ◌∷◌, if◌then◌else◌, ◌==◌, length, ◌||◌,
}
use floe_runtime.Prelude.Map
use floe_runtime.Prelude.Map.{Map}
use floe_runtime.Errors.{RuntimeFault, Result, ok, err, fault}
use floe_runtime.Fleet.State.{
  Agent, Shard, Outcome, Fleet, published, find_agent, remove_agent, find_shard, update_shard,
  without, emit,
}
use floe_runtime.Fleet.Admission.{
  Request, request_agent, run, drain, turn_started, turn_returned, turn_settled,
}
use floe_runtime.Fleet.Budget.{record_usage, handle_backend_ceiling, reject_queue}
use floe_runtime.Fleet.Recovery.{
  handle_shard_lost, recovery_started, recovery_resumed, recovery_failed,
}

-- The envelopes that the listener tells apart.
pub data ShardEvent : Type 0 where
  usage : (cost : Option ℕ) → ShardEvent
  budget_ceiling : (from_backend : Bool) → ShardEvent
  turn_phase : String → ShardEvent
  other : (kind : String) → ShardEvent

abbrev pub kind_of : ShardEvent → String
kind_of (usage c) = "usage"
kind_of (budget_ceiling b) = "budgetCeilingReached"
kind_of (turn_phase p) = "turn"
kind_of (other k) = k

-- `SETTLED_PHASES`
abbrev pub is_settled_phase : String → Bool
is_settled_phase p = p == "completed" || (p == "interrupted" || p == "failed")

abbrev pub before_publish : Fleet → ℕ → ShardEvent → Fleet
before_publish fl i (usage cost) = record_usage fl i cost
before_publish fl i _ = fl

abbrev pub after_publish : Fleet → ShardEvent → Fleet
after_publish fl (budget_ceiling true) = handle_backend_ceiling fl
after_publish fl (turn_phase p) = if is_settled_phase p then drain fl else fl
after_publish fl _ = fl

abbrev pub handle_event : Fleet → ShardEvent → ℕ → Option Agent → Fleet
handle_event fl e i none = fl
handle_event fl e i (some a) =
    after_publish (emit (before_publish fl i e) (published i (kind_of e))) e

abbrev pub attribute_event : Fleet → ShardEvent → Option ℕ → Fleet
attribute_event fl e none = fl
attribute_event fl e (some i) = handle_event fl e i (find_agent fl.agents i)

abbrev pub shard_event_at : Fleet → String → ShardEvent → Option Shard → Fleet
shard_event_at fl session e none = fl
shard_event_at fl session e (some s) = attribute_event fl e (Map.get s.session_to_agent session)

-- `#wireShard`'s listener of 'event'. A process that has been lost sends no more events.
unfoldable pub on_shard_event : Fleet → ℕ → String → ShardEvent → Fleet
unfolding record_usage handle_backend_ceiling drain
on_shard_event fl shard session e = shard_event_at fl session e (find_shard fl.shards shard)

abbrev pub release_slot : ℕ → Option String → Shard → Shard
release_slot i none s = record s { agent_ids = without i s.agent_ids }
release_slot i (some session) s = record s {
  agent_ids = without i s.agent_ids;
  session_to_agent = Map.delete s.session_to_agent session;
}

abbrev pub release_from : ℕ → Agent → Option ℕ → List Shard → List Shard
release_from i a none shards = shards
release_from i a (some s) shards = update_shard s (release_slot i a.session_id) shards

abbrev pub retire_found : Fleet → ℕ → Option ℕ → Option Agent → Fleet
retire_found fl i captured none = fl
retire_found fl i captured (some a) =
    drain (record fl {
      agents = remove_agent i fl.agents;
      shards = release_from i a captured fl.shards;
    })

-- `retireAgent`, when the backend has confirmed that the session stopped and is retired. The shard is
-- the one that the agent was on when the call was made.
unfoldable pub retire_agent : Fleet → ℕ → (captured : Option ℕ) → Fleet
unfolding drain
retire_agent fl i captured = retire_found fl i captured (find_agent fl.agents i)

-- The cap that `setGoal` hands to the backend: the rest of the fleet's budget, on Copilot, if the
-- caller gave none. Subtraction stops at 0, as `Math.max(0, …)` does.
abbrev goal_cap_of : (ceiling : Option ℕ) → (spent : ℕ) → Bool → Option ℕ → Option ℕ
goal_cap_of (some ceiling) spent true none = some (ceiling - spent)
goal_cap_of ceiling spent copilot given = given

unfoldable pub goal_cap : Fleet → Agent → Option ℕ → Option ℕ
goal_cap fl a given = goal_cap_of fl.config.ceiling fl.spent (a.backend == "copilot") given

abbrev closing : RuntimeFault
closing = fault "fleet_closing" "The fleet was closed while this turn was still queued." 503

unfoldable pub close : Fleet → Fleet
close fl = record (reject_queue closing fl) { shards = [] }

pub record FleetStatus : Type 0 where
  pub agents : ℕ
  pub shards : ℕ
  pub active_turns : ℕ
  pub queue_depth : ℕ
  pub ceiling : Option ℕ
  pub spent : ℕ
  pub exceeded : Bool

unfoldable pub status : Fleet → FleetStatus
status fl = record {
  agents = length fl.agents;
  shards = length fl.shards;
  active_turns = fl.active_turns;
  queue_depth = length fl.queue;
  ceiling = fl.config.ceiling;
  spent = fl.spent;
  exceeded = fl.exceeded;
}

-- Everything that can happen to a fleet.
pub data Step : Type 0 where
  requests : Request → Step
  runs : (agent : ℕ) → (priority : Option ℕ) → (now ticket : ℕ) → Step
  starts : (ticket : ℕ) → (session : String) → Step
  returns : (ticket : ℕ) → (session : String) → Step
  settles : (ticket : ℕ) → Outcome → Step
  reports : (shard : ℕ) → (session : String) → ShardEvent → Step
  loses : (shard : ℕ) → Step
  recovers : (agent shard : ℕ) → (session : String) → Step
  resumes : (agent shard : ℕ) → (session resumed : String) → Step
  gives_up : (agent : ℕ) → Step
  retires : (agent : ℕ) → (captured : Option ℕ) → Step
  closes : Step

abbrev pub requested : Fleet → Result (Fleet × ℕ) → Fleet
requested fl (ok (fl', i)) = fl'
requested fl (err f) = fl

unfoldable pub step : Fleet → Step → Fleet
step fl (requests r) = requested fl (request_agent fl r)
step fl (runs i p now t) = run fl i p now t
step fl (starts t s) = turn_started fl t s
step fl (returns t s) = turn_returned fl t s
step fl (settles t o) = turn_settled fl t o
step fl (reports i s e) = on_shard_event fl i s e
step fl (loses i) = handle_shard_lost fl i
step fl (recovers a i s) = recovery_started fl a i s
step fl (resumes a i s r) = recovery_resumed fl a i s r
step fl (gives_up a) = recovery_failed fl a
step fl (retires a captured) = retire_agent fl a captured
step fl closes = close fl

unfoldable pub history : Fleet → List Step → Fleet
unfolding step
history fl [] = fl
history fl (s ∷ ss) = history (step fl s) ss
