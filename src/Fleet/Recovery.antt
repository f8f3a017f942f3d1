-- ===== src/Fleet/Recovery.antt =====
-- What happens when a backend process dies: `#handleShardLost` and `#recoverAgent`.
use floe_runtime.Prelude.{ℕ, String, Option, none, some, List, [], ◌∷◌, if◌then◌else◌, ◌==◌, not}
use floe_runtime.Prelude.Map
use floe_runtime.Prelude.Map.{Map}
use floe_runtime.Fleet.State.{
  Status, ready, recovering, lost, Agent, Shard, Fleet, shard_lost, published, find_agent,
  update_agent, find_shard, update_shard, remove_shard, emit,
}
use floe_runtime.Fleet.Admission.{acquire_shard, drain}

abbrev pub set_status : ℕ → Status → Fleet → Fleet
set_status i s fl = record fl { agents = update_agent i (λ a. record a { status = s }) fl.agents }

-- `agent.status = 'lost'; this.publish(agentId, 'agentLost', …)`
abbrev pub lose_agent : ℕ → Fleet → Fleet
lose_agent i fl = emit (set_status i lost fl) (published i "agentLost")

abbrev pub recover_on : ℕ → Fleet × Option ℕ → Fleet
recover_on i (fl, none) = lose_agent i fl
recover_on i (fl, some s) = fl

-- `#recoverAgent` up to its first `await`.
abbrev pub recover_agent : Fleet → ℕ → Option Agent → Fleet
recover_agent fl i none = fl
recover_agent fl i (some a) = recover_on i (acquire_shard fl a)

abbrev pub forget_shard : ℕ → Fleet → Fleet
forget_shard i fl = record fl {
  agents = update_agent i (λ a. record a { status = recovering; shard_id = none }) fl.agents;
}

abbrev pub rescue_agent : Fleet → ℕ → Option Agent → Fleet
rescue_agent fl i none = fl
rescue_agent fl i (some a) =
    if a.ephemeral
    then lose_agent i fl
    else if not fl.config.auto_recover
    then lose_agent i fl
    else let fl' = emit (forget_shard i fl) (published i "agentRecovering") in
      recover_agent fl' i (find_agent fl'.agents i)

-- The loop over the agents of the dead shard.
unfoldable pub rescue_all : List ℕ → Fleet → Fleet
rescue_all [] fl = fl
rescue_all (i ∷ is) fl = rescue_all is (rescue_agent fl i (find_agent fl.agents i))

abbrev pub lose_shard : Fleet → ℕ → Option Shard → Fleet
lose_shard fl i none = fl
lose_shard fl i (some s) = drain (
    rescue_all s.agent_ids
      (emit (record fl { shards = remove_shard i fl.shards }) (shard_lost i s.agent_ids)))

-- `#handleShardLost`. A shard that is no longer listed has been lost before.
unfoldable pub handle_shard_lost : Fleet → ℕ → Fleet
unfolding rescue_all acquire_shard drain
handle_shard_lost fl i = lose_shard fl i (find_shard fl.shards i)

abbrev pub map_session : Fleet → ℕ → String → ℕ → Fleet
map_session fl shard session agent = record fl {
  shards =
      update_shard shard
        (λ s. record s { session_to_agent = Map.set s.session_to_agent session agent }) fl.shards;
}

abbrev pub unmap_session : Fleet → ℕ → String → Fleet
unmap_session fl shard session = record fl {
  shards =
      update_shard shard
        (λ s. record s { session_to_agent = Map.delete s.session_to_agent session }) fl.shards;
}

-- The new process has started: the old session is mapped before it is resumed.
unfoldable pub recovery_started : Fleet → (agent shard : ℕ) → (session : String) → Fleet
recovery_started fl agent shard session = map_session fl shard session agent

abbrev pub finish_recovery : ℕ → String → Fleet → Fleet
finish_recovery agent resumed fl = drain (
    emit
      (record fl {
        agents =
            update_agent agent (λ a. record a { session_id = some resumed; status = ready })
              fl.agents;
      })
      (published agent "agentRecovered"))

-- `resume()` has returned the id of the resumed session.
unfoldable pub recovery_resumed : Fleet → (agent shard : ℕ) → (session resumed : String) → Fleet
unfolding drain
recovery_resumed fl agent shard session resumed = finish_recovery agent resumed (
    map_session (if resumed == session then fl else unmap_session fl shard session) shard resumed
      agent)

-- `start()` or `resume()` has thrown.
unfoldable pub recovery_failed : Fleet → (agent : ℕ) → Fleet
recovery_failed fl agent = lose_agent agent fl
