-- ===== src/Fleet/Admission.antt =====
-- Admission of queued turns: `requestAgent`, `run`, `#acquireShard`, `#drain`, `#admit` and the
-- settlement of a turn. What the backend does between two steps of `#admit` is left to the caller of
-- the step: it says which session started and how the turn ended. The texts of faults leave out ids.
use floe_runtime.Prelude.{
  ℕ, zero, suc, ◌-◌, String, Bool, true, false, Option, none, some, List, [], ◌∷◌, ◌++◌, nat_eq,
  if◌then◌else◌, or_else, length, ◌==◌, ◌&&◌, includes,
}
use floe_runtime.Prelude.Map
use floe_runtime.Errors.{RuntimeFault, Result, ok, err, fault, ◌⧺◌}
use floe_runtime.Fleet.State.{
  Status, unassigned, ready, lost, Agent, Shard, Entry, Turn, Outcome, rejected, admission, crashed,
  Fleet, below, find_agent, update_agent, find_shard, update_shard, add, shard_list, emit,
  emit_depth, settle,
}
use floe_runtime.Fleet.Queue.{has_room, pick, remove_at}

-- What a caller of `requestAgent` passes; `backend` is `none` for the default.
pub record Request : Type 0 where
  pub role : String
  pub cwd : String
  pub model : Option String
  pub backend : Option String
  pub scope : Option String
  pub ephemeral : Bool
  pub priority : ℕ

abbrev new_agent : Fleet → Request → String → Agent
new_agent fl r b = record {
  id = fl.next_id;
  role = r.role;
  cwd = r.cwd;
  model = r.model;
  backend = b;
  scope = r.scope;
  ephemeral = r.ephemeral;
  priority = r.priority;
  status = unassigned;
  shard_id = none;
  session_id = none;
  last_cost = none;
  last_goal = none;
}

unfoldable pub request_agent : Fleet → Request → Result (Fleet × ℕ)
request_agent fl r =
    let b = or_else r.backend fl.config.default_backend in
    if includes fl.config.backends b
    then ok (
      record fl { agents = fl.agents ++ new_agent fl r b ∷ []; next_id = suc fl.next_id },
      fl.next_id,
    )
    else err
        (fault "backend_unknown" ("Fleet has no factory registered for backend '" ⧺ b ⧺ "'.") 400)

-- `list.find(candidate => has room)` and `shard.agentIds.add(agent.id)`: the shards with the agent
-- added to the first of the backend's that has room, and the id of that one.
unfoldable pub join_shard : ℕ → String → ℕ → List Shard → Option (List Shard × ℕ)
join_shard most b agent [] = none
join_shard most b agent (s ∷ ss) =
    if s.backend == b && has_room most s
    then some (record s { agent_ids = add agent s.agent_ids } ∷ ss, s.id)
    else elim (join_shard most b agent ss) [ none ↦ none | some (ss', i) ↦ some (s ∷ ss', i) ]

-- `#createShard`, with its first agent
abbrev pub new_shard : ℕ → String → ℕ → Shard
new_shard i b agent = record { id = i; backend = b; agent_ids = agent ∷ []; session_to_agent = [] }

abbrev pub place : ℕ → ℕ → Fleet → Fleet
place agent shard fl = record fl {
  agents = update_agent agent (λ a. record a { shard_id = some shard }) fl.agents;
}

abbrev pub create_shard : Fleet → Agent → Fleet × Option ℕ
create_shard fl a =
    if below (length (shard_list fl.shards a.backend)) fl.config.max_processes
    then (
      place a.id fl.next_id (record fl {
        shards = fl.shards ++ new_shard fl.next_id a.backend a.id ∷ [];
        next_id = suc fl.next_id;
      }),
      some fl.next_id,
    )
    else (fl, none)

abbrev pub join_or_create : Fleet → Agent → Option (List Shard × ℕ) → Fleet × Option ℕ
join_or_create fl a none = create_shard fl a
join_or_create fl a (some (ss, i)) = (place a.id i (record fl { shards = ss }), some i)

abbrev tracked : List Shard → ℕ → Option ℕ
tracked ss i = elim (find_shard ss i) [ none ↦ none | some s ↦ some i ]

abbrev pub acquire_at : Fleet → Agent → Option ℕ → Fleet × Option ℕ
acquire_at fl a (some i) = (fl, tracked fl.shards i)
acquire_at fl a none =
    join_or_create fl a (join_shard fl.config.max_sessions a.backend a.id fl.shards)

-- `#acquireShard`: the id of the agent's shard, or `none` if the backend is saturated.
unfoldable pub acquire_shard : Fleet → Agent → Fleet × Option ℕ
unfolding join_shard
acquire_shard fl a = acquire_at fl a a.shard_id

-- The part of `#admit` up to its first `await`. Reading a field of an agent or a shard that is not
-- there throws.
abbrev pub start_turn : Entry → Fleet → Option ℕ → Fleet
start_turn e fl none = emit fl crashed
start_turn e fl (some s) =
    emit
      (record fl {
        active_turns = suc fl.active_turns;
        in_flight =
            fl.in_flight ++ record { ticket = e.ticket; agent_id = e.agent_id; shard_id = s } ∷ [];
      })
      (admission e.agent_id s (suc fl.active_turns) (length fl.queue))

abbrev pub admit_agent : Entry → Fleet → Option Agent → Fleet
admit_agent e fl none = emit fl crashed
admit_agent e fl (some a) = let (fl', s) = acquire_shard fl a in start_turn e fl' s

unfoldable pub admit : Fleet → Entry → Fleet
unfolding acquire_shard
admit fl e = admit_agent e fl (find_agent fl.agents e.agent_id)

-- One round of the loop of `#drain`: the entry at an index is taken out and admitted.
abbrev pub take_out : Fleet → ℕ × Entry → Fleet
take_out fl (i, e) = admit (emit_depth (record fl { queue = remove_at i fl.queue })) e

unfoldable pub drain_loop : ℕ → Fleet → Fleet
unfolding admit pick remove_at
drain_loop zero fl = fl
drain_loop (suc n) fl = elim (below fl.active_turns fl.config.max_turns) [
  | false ↦ fl
  | true ↦ elim (pick fl) [ none ↦ fl | some p ↦ drain_loop n (take_out fl p) ]
]

-- `#drain`. Each round takes an entry out of the queue, so its length is enough fuel.
unfoldable pub drain : Fleet → Fleet
unfolding drain_loop
drain fl = if fl.exceeded then fl else drain_loop (length fl.queue) fl

abbrev pub agent_lost : RuntimeFault
agent_lost = fault "agent_lost" "The agent is permanently lost and cannot run further turns." 410

abbrev pub agent_unknown : RuntimeFault
agent_unknown = fault "agent_unknown" "No agent registered with this id." 404

abbrev pub budget_exceeded : RuntimeFault
budget_exceeded =
    fault "budget_exceeded" "The fleet budget ceiling has been reached; no new turns are admitted."
      429

abbrev enqueue : Fleet → Agent → Option ℕ → (now ticket : ℕ) → Fleet
enqueue fl a priority now ticket = record fl {
  queue =
      fl.queue
      ++ record {
        agent_id = a.id;
        priority = or_else priority a.priority;
        enqueued_at = now;
        ticket = ticket;
      }
        ∷ [];
}

abbrev pub is_lost : Status → Bool
is_lost lost = true
is_lost _ = false

abbrev pub run_agent : Fleet → Option Agent → Option ℕ → (now ticket : ℕ) → Fleet
run_agent fl none priority now ticket = settle ticket (rejected agent_unknown) fl
run_agent fl (some a) priority now ticket =
    if is_lost a.status
    then settle ticket (rejected agent_lost) fl
    else if fl.exceeded
    then settle ticket (rejected budget_exceeded) fl
    else drain (emit_depth (enqueue fl a priority now ticket))

-- `run`: `ticket` names the promise that is returned; `now` is `Date.now()`.
unfoldable pub run : Fleet → ℕ → Option ℕ → (now ticket : ℕ) → Fleet
unfolding drain
run fl i priority now ticket = run_agent fl (find_agent fl.agents i) priority now ticket

abbrev pub find_turn : List Turn → ℕ → Option Turn
find_turn [] t = none
find_turn (u ∷ us) t = if nat_eq u.ticket t then some u else find_turn us t

abbrev pub remove_turn : List Turn → ℕ → List Turn
remove_turn [] t = []
remove_turn (u ∷ us) t = if nat_eq u.ticket t then us else u ∷ remove_turn us t

abbrev pub set_session : String → Agent → Agent
set_session session a = record a { session_id = some session }

-- `wrappedOnStart`: the backend has opened, or reused, a session for the turn.
abbrev pub started_turn : Fleet → Option Turn → String → Fleet
started_turn fl none session = fl
started_turn fl (some u) session = record fl {
  agents =
      update_agent u.agent_id (λ a. record a { session_id = some session; status = ready })
        fl.agents;
  shards =
      update_shard u.shard_id
        (λ s. record s { session_to_agent = Map.set s.session_to_agent session u.agent_id })
        fl.shards;
}

unfoldable pub turn_started : Fleet → ℕ → String → Fleet
turn_started fl ticket session = started_turn fl (find_turn fl.in_flight ticket) session

-- `runtime.run` has returned a result that names a session.
abbrev pub returned_turn : Fleet → Option Turn → String → Fleet
returned_turn fl none session = fl
returned_turn fl (some u) session = record fl {
  agents = update_agent u.agent_id (set_session session) fl.agents;
}

unfoldable pub turn_returned : Fleet → ℕ → String → Fleet
turn_returned fl ticket session = returned_turn fl (find_turn fl.in_flight ticket) session

-- The promise is settled and `finally` runs.
abbrev pub finish_turn : Fleet → Option Turn → Outcome → Fleet
finish_turn fl none o = fl
finish_turn fl (some u) o = drain (
    emit_depth (
      settle u.ticket o (record fl {
        in_flight = remove_turn fl.in_flight u.ticket;
        active_turns = fl.active_turns - 1;
      })))

unfoldable pub turn_settled : Fleet → ℕ → Outcome → Fleet
unfolding drain
turn_settled fl ticket o = finish_turn fl (find_turn fl.in_flight ticket) o
