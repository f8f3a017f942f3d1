-- ===== src/Fleet/State.antt =====
-- The state of a fleet (the constructor and the accessors of src/fleet.mjs). The ids that `id()`
-- makes are numbers from a counter. The map `shards` and the lists `shardLists` hold the same
-- objects, which are added and taken away together, so they are one list in order of creation.
-- Prices and priorities are natural numbers; a warning level is in percent.
use floe_runtime.Prelude.{
  ℕ, String, Bool, true, false, Option, none, some, List, [], ◌∷◌, ◌++◌, nat_eq, ltb, if◌then◌else◌,
  ◌==◌, length, ◌||◌,
}
use floe_runtime.Prelude.Map.{Map}
use floe_runtime.Errors.{RuntimeFault}

pub data Status : Type 0 where
  unassigned ready recovering lost : Status

pub record Agent : Type 0 where
  pub id : ℕ
  pub role : String
  pub cwd : String
  pub model : Option String
  pub backend : String
  pub scope : Option String
  pub ephemeral : Bool
  pub priority : ℕ
  pub status : Status
  pub shard_id : Option ℕ
  pub session_id : Option String
  pub last_cost : Option ℕ
  pub last_goal : Option String

pub record Shard : Type 0 where
  pub id : ℕ
  pub backend : String
  pub agent_ids : List ℕ
  pub session_to_agent : Map ℕ

-- A queued `run()`. `ticket` names its promise.
pub record Entry : Type 0 where
  pub agent_id : ℕ
  pub priority : ℕ
  pub enqueued_at : ℕ
  pub ticket : ℕ

-- A turn between its admission and its settlement, with the objects that it captured.
pub record Turn : Type 0 where
  pub ticket : ℕ
  pub agent_id : ℕ
  pub shard_id : ℕ

pub data Outcome : Type 0 where
  resolved : Outcome
  rejected : RuntimeFault → Outcome

-- What the fleet emits. `published` is an event in an agent's own stream.
pub data Signal : Type 0 where
  queue_depth : (depth active : ℕ) → Signal
  admission : (agent shard active depth : ℕ) → Signal
  spend : (spent ceiling : ℕ) → Signal
  budget_warning : (pct spent ceiling : ℕ) → Signal
  ceiling_reached : (spent : ℕ) → (from_backend : Bool) → Signal
  shard_lost : (shard : ℕ) → List ℕ → Signal
  published : (agent : ℕ) → (kind : String) → Signal
  interrupted : (shard : ℕ) → (session : String) → Signal
  crashed : Signal

-- `none` is Infinity in the two limits.
pub record Config : Type 0 where
  pub backends : List String
  pub default_backend : String
  pub max_sessions : ℕ
  pub max_processes : Option ℕ
  pub max_turns : Option ℕ
  pub auto_recover : Bool
  pub ceiling : Option ℕ
  pub warn_at : List ℕ
  pub interrupt_on_ceiling : Bool

pub record Fleet : Type 0 where
  pub config : Config
  pub agents : List Agent
  pub shards : List Shard
  pub queue : List Entry
  pub in_flight : List Turn
  pub active_turns : ℕ
  pub spent : ℕ
  pub exceeded : Bool
  pub warned : List ℕ
  pub next_id : ℕ
  pub settled : List (ℕ × Outcome)
  pub signals : List Signal

abbrev pub new_fleet : Config → Fleet
new_fleet c = record {
  config = c;
  agents = [];
  shards = [];
  queue = [];
  in_flight = [];
  active_turns = 0;
  spent = 0;
  exceeded = false;
  warned = [];
  next_id = 0;
  settled = [];
  signals = [];
}

abbrev pub default_warn_at : List ℕ
default_warn_at = 50 ∷ 80 ∷ []

-- Is a count below a limit that may be Infinity?
abbrev pub below : ℕ → Option ℕ → Bool
below n none = true
below n (some m) = ltb n m

abbrev pub find_agent : List Agent → ℕ → Option Agent
find_agent [] i = none
find_agent (a ∷ as') i = if nat_eq a.id i then some a else find_agent as' i

-- A write to the record of one agent, if that is still registered.
abbrev pub update_agent : ℕ → (Agent → Agent) → List Agent → List Agent
update_agent i f [] = []
update_agent i f (a ∷ as') = if nat_eq a.id i then f a ∷ as' else a ∷ update_agent i f as'

abbrev pub remove_agent : ℕ → List Agent → List Agent
remove_agent i [] = []
remove_agent i (a ∷ as') = if nat_eq a.id i then as' else a ∷ remove_agent i as'

abbrev pub find_shard : List Shard → ℕ → Option Shard
find_shard [] i = none
find_shard (s ∷ ss) i = if nat_eq s.id i then some s else find_shard ss i

abbrev pub update_shard : ℕ → (Shard → Shard) → List Shard → List Shard
update_shard i f [] = []
update_shard i f (s ∷ ss) = if nat_eq s.id i then f s ∷ ss else s ∷ update_shard i f ss

abbrev pub remove_shard : ℕ → List Shard → List Shard
remove_shard i [] = []
remove_shard i (s ∷ ss) = if nat_eq s.id i then ss else s ∷ remove_shard i ss

abbrev pub in_set : ℕ → List ℕ → Bool
in_set i [] = false
in_set i (j ∷ js) = nat_eq j i || in_set i js

-- `Set.prototype.add` and `delete`
abbrev pub add : ℕ → List ℕ → List ℕ
add i js = if in_set i js then js else js ++ i ∷ []

abbrev pub without : ℕ → List ℕ → List ℕ
without i [] = []
without i (j ∷ js) = if nat_eq j i then js else j ∷ without i js

-- `#shardList(backend)`
abbrev pub shard_list : List Shard → String → List Shard
shard_list [] b = []
shard_list (s ∷ ss) b = if s.backend == b then s ∷ shard_list ss b else shard_list ss b

abbrev pub emit : Fleet → Signal → Fleet
emit fl s = record fl { signals = s ∷ fl.signals }

-- `#emitQueueDepth`
abbrev pub emit_depth : Fleet → Fleet
emit_depth fl = emit fl (queue_depth (length fl.queue) fl.active_turns)

abbrev pub settle : ℕ → Outcome → Fleet → Fleet
settle t o fl = record fl { settled = (t, o) ∷ fl.settled }
