-- ===== src/Fleet/Limits.antt =====
-- Whatever happens to a fleet, its processes stay Within the configured limits.
use floe_runtime.Prelude.{
  ℕ, ◌≤◌, ◌<◌, ◌≡◌, refl, sym, String, true, false, Option, none, some, List, [], ◌∷◌, arith,
  length, if_both, ◌==◌, subst, includes, not,
}
use floe_runtime.Prelude.Map
use floe_runtime.Fleet.State.{
  Agent, Shard, Entry, Turn, Outcome, Config, Fleet, below, find_agent, find_shard, update_shard,
  emit, emit_depth, published, new_fleet,
}
use floe_runtime.Fleet.Queue.{pick, remove_at}
use floe_runtime.Fleet.Frame.{
  Still, acquire_shard-Same, record_usage-Still, handle_backend_ceiling-Still,
}
use floe_runtime.Fleet.Rules.{drain-keeps, rescue_all-keeps}
use floe_runtime.Fleet.Turns.{Within}
use floe_runtime.Fleet.Shards.{
  ShardsBounded, Bounded, acquire_shard-Bounded, remove_shard-Bounded, update_shard-Bounded,
  length-without, Within-le,
}
use floe_runtime.Fleet.Admission.{
  Request, request_agent, run, run_agent, is_lost, acquire_shard, admit, admit_agent, start_turn,
  take_out, drain, find_turn, turn_started, started_turn, turn_returned, returned_turn,
  turn_settled, finish_turn,
}
use floe_runtime.Fleet.Recovery.{
  rescue_agent, recover_agent, recover_on, forget_shard, lose_shard, handle_shard_lost,
  recovery_started, recovery_resumed, recovery_failed, finish_recovery, map_session, unmap_session,
}
use floe_runtime.Fleet.Lifecycle.{
  ShardEvent, usage, budget_ceiling, turn_phase, other, is_settled_phase, handle_event,
  attribute_event, shard_event_at, on_shard_event, release_slot, release_from, retire_found,
  retire_agent, close, requested, Step, requests, runs, starts, returns, settles, reports, loses,
  recovers, resumes, gives_up, retires, closes, step, history,
}

-- The two limits, for a fleet whose processes may hold at least one agent each.
abbrev pub Limited : Fleet → Type 0
Limited fl = (0 < fl.config.max_sessions) × Bounded fl

acquire_shard-Limited : (fl : Fleet) (a : Agent) → Limited fl → Limited (acquire_shard fl a).0
acquire_shard-Limited fl a (pos, h) = (
  subst (λ (c : Config). 0 < c.max_sessions) (sym (acquire_shard-Same fl a).same_config) pos,
  acquire_shard-Bounded fl a pos h,
)

start_turn-Limited :
    (e : Entry) (fl : Fleet) (s : Option ℕ) → Limited fl → Limited (start_turn e fl s)
start_turn-Limited e fl none h = h
start_turn-Limited e fl (some s) h = h

admit_agent-Limited :
    (e : Entry) (fl : Fleet) (a : Option Agent) → Limited fl → Limited (admit_agent e fl a)
admit_agent-Limited e fl none h = h
admit_agent-Limited e fl (some a) h =
    start_turn-Limited e (acquire_shard fl a).0 (acquire_shard fl a).1
      (acquire_shard-Limited fl a h)

take_out-Limited :
    (fl : Fleet) (p : ℕ × Entry)
    → below fl.active_turns fl.config.max_turns ≡ true
    → pick fl ≡ some p
    → Limited fl
    → Limited (take_out fl p)
unfolding admit
take_out-Limited fl (i, e) _ _ h =
    admit_agent-Limited e (emit_depth (record fl { queue = remove_at i fl.queue })) _ h

drain-Limited : (fl : Fleet) → Limited fl → Limited (drain fl)
drain-Limited = drain-keeps Limited take_out-Limited

Still-Limited : {fl fl' : Fleet} → Still fl fl' → Limited fl → Limited fl'
Still-Limited s h = rw (s.still_config, s.still_shards) h

recover_on-Limited :
    (i : ℕ) (fl : Fleet) (s : Option ℕ) → Limited fl → Limited (recover_on i (fl, s))
recover_on-Limited i fl none h = h
recover_on-Limited i fl (some s) h = h

recover_agent-Limited :
    (fl : Fleet) (i : ℕ) (a : Option Agent) → Limited fl → Limited (recover_agent fl i a)
recover_agent-Limited fl i none h = h
recover_agent-Limited fl i (some a) h =
    recover_on-Limited i (acquire_shard fl a).0 (acquire_shard fl a).1
      (acquire_shard-Limited fl a h)

rescue_agent-Limited :
    (fl : Fleet) (i : ℕ) (a : Option Agent) → Limited fl → Limited (rescue_agent fl i a)
rescue_agent-Limited fl i none h = h
rescue_agent-Limited fl i (some a) h =
    if_both Limited a.ephemeral _ _ (λ _. h)
      λ _.
        if_both Limited (not fl.config.auto_recover) _ _ (λ _. h)
          λ _.
            recover_agent-Limited (emit (forget_shard i fl) (published i "agentRecovering")) i _ h

lose_shard-Limited :
    (fl : Fleet) (i : ℕ) (s : Option Shard) → Limited fl → Limited (lose_shard fl i s)
lose_shard-Limited fl i none h = h
lose_shard-Limited fl i (some s) (pos, h) = drain-Limited _ (
    rescue_all-keeps Limited (λ f j. rescue_agent-Limited f j _) s.agent_ids _
      (pos, remove_shard-Bounded fl.config i fl.shards h))

event-Limited :
    (fl : Fleet) (e : ShardEvent) (i : ℕ) (a : Option Agent)
    → Limited fl
    → Limited (handle_event fl e i a)
event-Limited fl e i none h = h
event-Limited fl (usage c) i (some a) h = Still-Limited (record_usage-Still fl i c) h
event-Limited fl (budget_ceiling true) i (some a) h =
    Still-Limited (handle_backend_ceiling-Still _) h
event-Limited fl (budget_ceiling false) i (some a) h = h
event-Limited fl (turn_phase p) i (some a) h =
    if_both Limited (is_settled_phase p) _ _ (λ _. drain-Limited _ h) (λ _. h)
event-Limited fl (other k) i (some a) h = h

on_shard_event-Limited :
    (fl : Fleet) (i : ℕ) (session : String) (e : ShardEvent)
    → Limited fl
    → Limited (on_shard_event fl i session e)
unfolding on_shard_event
on_shard_event-Limited fl i session e h = at (find_shard fl.shards i)
  where
    attributed : (o : Option ℕ) → Limited (attribute_event fl e o)
    attributed none = h
    attributed (some j) = event-Limited fl e j (find_agent fl.agents j) h

    at : (s : Option Shard) → Limited (shard_event_at fl session e s)
    at none = h
    at (some s) = attributed (Map.get s.session_to_agent session)

release_slot-mild :
    (i : ℕ) (session : Option String) (s : Shard)
    → ((release_slot i session s).backend ≡ s.backend)
      × (length (release_slot i session s).agent_ids ≤ length s.agent_ids)
release_slot-mild i none s = (refl, length-without i s.agent_ids)
release_slot-mild i (some session) s = (refl, length-without i s.agent_ids)

release_from-Bounded :
    (c : Config) (i : ℕ) (a : Agent) (captured : Option ℕ) (ss : List Shard)
    → ShardsBounded c ss
    → ShardsBounded c (release_from i a captured ss)
release_from-Bounded c i a none ss h = h
release_from-Bounded c i a (some s) ss h =
    update_shard-Bounded c s (release_slot i a.session_id) ss (release_slot-mild i a.session_id) h

retire_found-Limited :
    (fl : Fleet) (i : ℕ) (captured : Option ℕ) (a : Option Agent)
    → Limited fl
    → Limited (retire_found fl i captured a)
retire_found-Limited fl i captured none h = h
retire_found-Limited fl i captured (some a) (pos, h) =
    drain-Limited _ (pos, release_from-Bounded fl.config i a captured fl.shards h)

-- Writing to the sessions of a shard.
sessions-Limited :
    (fl : Fleet) (i : ℕ) (f : Map.Map ℕ → Map.Map ℕ)
    → Limited fl
    → ShardsBounded fl.config
        (update_shard i (λ s. record s { session_to_agent = f s.session_to_agent }) fl.shards)
sessions-Limited fl i f (pos, h) =
    update_shard-Bounded fl.config i (λ s. record s { session_to_agent = f s.session_to_agent })
      fl.shards (λ s. (refl, omega arith)) h

run_agent-Limited :
    (fl : Fleet) (a : Option Agent) (p : Option ℕ) (now t : ℕ)
    → Limited fl
    → Limited (run_agent fl a p now t)
run_agent-Limited fl none p now t h = h
run_agent-Limited fl (some a) p now t h =
    if_both Limited (is_lost a.status) _ _ (λ _. h)
      λ _. if_both Limited fl.exceeded _ _ (λ _. h) (λ _. drain-Limited _ h)

finish_turn-Limited :
    (fl : Fleet) (u : Option Turn) (o : Outcome) → Limited fl → Limited (finish_turn fl u o)
finish_turn-Limited fl none o h = h
finish_turn-Limited fl (some u) o h = drain-Limited _ h

turn_started-Limited :
    (fl : Fleet) (t : ℕ) (session : String) → Limited fl → Limited (turn_started fl t session)
unfolding turn_started
turn_started-Limited fl t session h = at (find_turn fl.in_flight t)
  where
    at : (u : Option Turn) → Limited (started_turn fl u session)
    at none = h
    at (some u) = (h.0, sessions-Limited fl u.shard_id (λ m. Map.set m session u.agent_id) h)

turn_returned-Limited :
    (fl : Fleet) (t : ℕ) (session : String) → Limited fl → Limited (turn_returned fl t session)
unfolding turn_returned
turn_returned-Limited fl t session h = at (find_turn fl.in_flight t)
  where
    at : (u : Option Turn) → Limited (returned_turn fl u session)
    at none = h
    at (some u) = h

requested-Limited :
    (fl : Fleet) (r : Request) → Limited fl → Limited (requested fl (request_agent fl r))
unfolding request_agent
requested-Limited fl r h =
    if_both (λ x. Limited (requested fl x)) (includes fl.config.backends _) _ _ (λ _. h) (λ _. h)

finish_recovery-Limited :
    (fl : Fleet) (a : ℕ) (r : String) → Limited fl → Limited (finish_recovery a r fl)
finish_recovery-Limited fl a r h = drain-Limited _ h

recovery_resumed-Limited :
    (fl : Fleet) (a i : ℕ) (s r : String) → Limited fl → Limited (recovery_resumed fl a i s r)
unfolding recovery_resumed
recovery_resumed-Limited fl a i s r h =
    if_both (λ f. Limited (finish_recovery a r (map_session f i r a))) (r == s) fl
      (unmap_session fl i s)
      (λ _.
        finish_recovery-Limited (map_session fl i r a) a r
          (h.0, sessions-Limited fl i (λ m. Map.set m r a) h))
      (λ _.
        let u : Limited (unmap_session fl i s) =
          (h.0, sessions-Limited fl i (λ m. Map.delete m s) h) in
        finish_recovery-Limited (map_session (unmap_session fl i s) i r a) a r
          (h.0, sessions-Limited (unmap_session fl i s) i (λ m. Map.set m r a) u))

-- A step of a fleet keeps both limits: no process has more agents than `maxSessionsPerProcess`, and
-- no backend has more processes than `maxProcesses`.
pub step-Limited : (fl : Fleet) (s : Step) → Limited fl → Limited (step fl s)
unfolding step run turn_settled handle_shard_lost recovery_started recovery_failed retire_agent
    close
step-Limited fl (requests r) h = requested-Limited fl r h
step-Limited fl (runs i p now t) h = run_agent-Limited fl (find_agent fl.agents i) p now t h
step-Limited fl (starts t s) h = turn_started-Limited fl t s h
step-Limited fl (returns t s) h = turn_returned-Limited fl t s h
step-Limited fl (settles t o) h = finish_turn-Limited fl (find_turn fl.in_flight t) o h
step-Limited fl (reports i s e) h = on_shard_event-Limited fl i s e h
step-Limited fl (loses i) h = lose_shard-Limited fl i (find_shard fl.shards i) h
step-Limited fl (recovers a i s) h = (h.0, sessions-Limited fl i (λ m. Map.set m s a) h)
step-Limited fl (resumes a i s r) h = recovery_resumed-Limited fl a i s r h
step-Limited fl (gives_up a) h = h
step-Limited fl (retires a captured) h =
    retire_found-Limited fl a captured (find_agent fl.agents a) h
step-Limited fl closes h =
    (h.0, (tt, λ b. Within-le _ 0 fl.config.max_processes (omega arith) (h.1.1 b)))

-- After any sequence of steps from a new fleet whose processes may hold at least one agent each, no
-- process holds more agents than `maxSessionsPerProcess`, and no backend has more processes than
-- `maxProcesses`.
pub history-Limited :
    (c : Config) (ss : List Step) → 0 < c.max_sessions → Limited (history (new_fleet c) ss)
unfolding history
history-Limited c ss pos = from (new_fleet c) ss (pos, (tt, λ b. zero_within c.max_processes))
  where
    zero_within : (m : Option ℕ) → Within 0 m
    zero_within none = tt
    zero_within (some m) = omega arith

    from : (fl : Fleet) (ss : List Step) → Limited fl → Limited (history fl ss)
    from fl [] h = h
    from fl (s ∷ ss) h = from (step fl s) ss (step-Limited fl s h)
