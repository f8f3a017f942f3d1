-- ===== src/Fleet/Turns.antt =====
-- The limit on the number of turns in flight.
use floe_runtime.Prelude.{
  ℕ, suc, ◌-◌, ◌≤◌, ◌≡◌, refl, ap, sym, ◌∙◌, String, true, false, Option, none, some, List, [], ◌∷◌,
  arith, length, length-append, if_both, ltb→lt, ◌==◌, includes,
}
use floe_runtime.Prelude.Map
use floe_runtime.Fleet.State.{
  Agent, Shard, Entry, Turn, Outcome, Fleet, below, find_agent, find_shard, emit_depth,
}
use floe_runtime.Fleet.Queue.{pick, remove_at}
use floe_runtime.Fleet.Frame.{
  Same, all_same, acquire_shard-Same, rescue_all-Same, Still, record_usage-Still,
  handle_backend_ceiling-Still,
}
use floe_runtime.Fleet.Recovery.{
  lose_shard, handle_shard_lost, recovery_started, recovery_resumed, recovery_failed,
  finish_recovery, map_session, unmap_session,
}
use floe_runtime.Fleet.Lifecycle.{
  ShardEvent, usage, budget_ceiling, turn_phase, other, is_settled_phase, handle_event,
  attribute_event, shard_event_at, on_shard_event, retire_found, retire_agent, requested, close,
  Step, requests, runs, starts, returns, settles, reports, loses, recovers, resumes, gives_up,
  retires, closes, step,
}
use floe_runtime.Fleet.Rules.{drain-keeps}
use floe_runtime.Fleet.Admission.{
  Request, acquire_shard, admit, admit_agent, start_turn, take_out, drain, run_agent, is_lost,
  find_turn, remove_turn, finish_turn, run, turn_started, started_turn, turn_returned,
  returned_turn, turn_settled, request_agent,
}

-- The number of turns in flight is the number that is counted, and is Within the limit.
abbrev pub Within : ℕ → Option ℕ → Type 0
Within n none = Unit {0}
Within n (some m) = n ≤ m

pub record TurnsBounded (fl : Fleet) : Type 0 where
  pub counted : fl.active_turns ≡ length fl.in_flight
  pub bounded : Within fl.active_turns fl.config.max_turns

pub Within-suc : (n : ℕ) (m : Option ℕ) → below n m ≡ true → Within (suc n) m
Within-suc n none h = tt
Within-suc n (some m) h = ltb→lt n m h

start_turn-TurnsBounded :
    (e : Entry) (fl fl' : Fleet) (s : Option ℕ)
    → Same fl fl'
    → below fl.active_turns fl.config.max_turns ≡ true
    → TurnsBounded fl
    → TurnsBounded (start_turn e fl' s)
start_turn-TurnsBounded e fl fl' none h free t = record {
  counted = h.same_turns ∙ t.counted ∙ ap length (sym h.same_flight);
  bounded = rw (h.same_turns, h.same_config) t.bounded;
}
start_turn-TurnsBounded e fl fl' (some s) h free t = record {
  counted =
      omega
        (arith, length-append fl'.in_flight _, h.same_turns, t.counted, ap length h.same_flight);
  bounded = rw (h.same_turns, h.same_config) (Within-suc fl.active_turns fl.config.max_turns free);
}

admit_agent-TurnsBounded :
    (e : Entry) (fl : Fleet) (a : Option Agent)
    → below fl.active_turns fl.config.max_turns ≡ true
    → TurnsBounded fl
    → TurnsBounded (admit_agent e fl a)
admit_agent-TurnsBounded e fl none free t =
    start_turn-TurnsBounded e fl fl none (all_same fl) free t
admit_agent-TurnsBounded e fl (some a) free t =
    start_turn-TurnsBounded e fl (acquire_shard fl a).0 (acquire_shard fl a).1
      (acquire_shard-Same fl a) free t

take_out-TurnsBounded :
    (fl : Fleet) (p : ℕ × Entry)
    → below fl.active_turns fl.config.max_turns ≡ true
    → pick fl ≡ some p
    → TurnsBounded fl
    → TurnsBounded (take_out fl p)
unfolding admit
take_out-TurnsBounded fl (i, e) free picked t =
    admit_agent-TurnsBounded e (emit_depth (record fl { queue = remove_at i fl.queue })) _ free
      (record { counted = t.counted; bounded = t.bounded })

pub drain-TurnsBounded : (fl : Fleet) → TurnsBounded fl → TurnsBounded (drain fl)
drain-TurnsBounded = drain-keeps TurnsBounded take_out-TurnsBounded

Still-TurnsBounded : {fl fl' : Fleet} → Still fl fl' → TurnsBounded fl → TurnsBounded fl'
Still-TurnsBounded s t = record {
  counted = s.still_turns ∙ t.counted ∙ ap length (sym s.still_flight);
  bounded = rw (s.still_turns, s.still_config) t.bounded;
}

Same-TurnsBounded : {fl fl' : Fleet} → Same fl fl' → TurnsBounded fl → TurnsBounded fl'
Same-TurnsBounded s t = record {
  counted = s.same_turns ∙ t.counted ∙ ap length (sym s.same_flight);
  bounded = rw (s.same_turns, s.same_config) t.bounded;
}

run_agent-TurnsBounded :
    (fl : Fleet) (a : Option Agent) (p : Option ℕ) (now t : ℕ)
    → TurnsBounded fl
    → TurnsBounded (run_agent fl a p now t)
run_agent-TurnsBounded fl none p now t h = record { counted = h.counted; bounded = h.bounded }
run_agent-TurnsBounded fl (some a) p now t h =
    if_both TurnsBounded (is_lost a.status) _ _
      (λ _. record { counted = h.counted; bounded = h.bounded })
      (λ _.
        if_both TurnsBounded fl.exceeded _ _
          (λ _. record { counted = h.counted; bounded = h.bounded })
          (λ _. drain-TurnsBounded _ (record { counted = h.counted; bounded = h.bounded })))

length-remove_turn :
    (us : List Turn) (t : ℕ) (u : Turn)
    → find_turn us t ≡ some u
    → suc (length (remove_turn us t)) ≡ length us
length-remove_turn [] t u h = cc
length-remove_turn (v ∷ us) t u h = ground (arith, length-remove_turn us t u)

find_turn-ticket : (us : List Turn) (t : ℕ) (u : Turn) → find_turn us t ≡ some u → u.ticket ≡ t
find_turn-ticket [] t u h = cc
find_turn-ticket (v ∷ us) t u h = ground (arith, find_turn-ticket us t u)

Within-pred : (n : ℕ) (m : Option ℕ) → Within n m → Within (n - 1) m
Within-pred n none h = tt
Within-pred n (some m) h = omega arith

finish_turn-TurnsBounded :
    (fl : Fleet) (t : ℕ) (u : Option Turn) (o : Outcome)
    → find_turn fl.in_flight t ≡ u
    → TurnsBounded fl
    → TurnsBounded (finish_turn fl u o)
finish_turn-TurnsBounded fl t none o e h = h
finish_turn-TurnsBounded fl t (some u) o e h = drain-TurnsBounded _ (record {
  counted =
      rw (find_turn-ticket fl.in_flight t u e)
        (omega (arith, length-remove_turn fl.in_flight t u e, h.counted));
  bounded = Within-pred fl.active_turns fl.config.max_turns h.bounded;
})

lose_shard-TurnsBounded :
    (fl : Fleet) (i : ℕ) (s : Option Shard) → TurnsBounded fl → TurnsBounded (lose_shard fl i s)
lose_shard-TurnsBounded fl i none h = h
lose_shard-TurnsBounded fl i (some s) h = drain-TurnsBounded _ (
    Same-TurnsBounded (rescue_all-Same s.agent_ids _)
      (record { counted = h.counted; bounded = h.bounded }))

event-TurnsBounded :
    (fl : Fleet) (e : ShardEvent) (i : ℕ) (a : Option Agent)
    → TurnsBounded fl
    → TurnsBounded (handle_event fl e i a)
event-TurnsBounded fl e i none h = h
event-TurnsBounded fl (usage c) i (some a) h =
    let r = Still-TurnsBounded (record_usage-Still fl i c) h in
    record { counted = r.counted; bounded = r.bounded }
event-TurnsBounded fl (budget_ceiling true) i (some a) h =
    Still-TurnsBounded (handle_backend_ceiling-Still _)
      (record { counted = h.counted; bounded = h.bounded })
event-TurnsBounded fl (budget_ceiling false) i (some a) h = record {
  counted = h.counted;
  bounded = h.bounded;
}
event-TurnsBounded fl (turn_phase p) i (some a) h =
    if_both TurnsBounded (is_settled_phase p) _ _
      (λ _. drain-TurnsBounded _ (record { counted = h.counted; bounded = h.bounded }))
      (λ _. record { counted = h.counted; bounded = h.bounded })
event-TurnsBounded fl (other k) i (some a) h = record { counted = h.counted; bounded = h.bounded }

on_shard_event-TurnsBounded :
    (fl : Fleet) (i : ℕ) (session : String) (e : ShardEvent)
    → TurnsBounded fl
    → TurnsBounded (on_shard_event fl i session e)
unfolding on_shard_event
on_shard_event-TurnsBounded fl i session e h = at (find_shard fl.shards i)
  where
    attributed : (o : Option ℕ) → TurnsBounded (attribute_event fl e o)
    attributed none = h
    attributed (some j) = event-TurnsBounded fl e j (find_agent fl.agents j) h

    at : (s : Option Shard) → TurnsBounded (shard_event_at fl session e s)
    at none = h
    at (some s) = attributed (Map.get s.session_to_agent session)

retire_found-TurnsBounded :
    (fl : Fleet) (i : ℕ) (captured : Option ℕ) (a : Option Agent)
    → TurnsBounded fl
    → TurnsBounded (retire_found fl i captured a)
retire_found-TurnsBounded fl i captured none h = h
retire_found-TurnsBounded fl i captured (some a) h =
    drain-TurnsBounded _ (record { counted = h.counted; bounded = h.bounded })

turn_started-TurnsBounded :
    (fl : Fleet) (t : ℕ) (session : String)
    → TurnsBounded fl
    → TurnsBounded (turn_started fl t session)
unfolding turn_started
turn_started-TurnsBounded fl t session h = at (find_turn fl.in_flight t)
  where
    at : (u : Option Turn) → TurnsBounded (started_turn fl u session)
    at none = h
    at (some u) = record { counted = h.counted; bounded = h.bounded }

turn_returned-TurnsBounded :
    (fl : Fleet) (t : ℕ) (session : String)
    → TurnsBounded fl
    → TurnsBounded (turn_returned fl t session)
unfolding turn_returned
turn_returned-TurnsBounded fl t session h = at (find_turn fl.in_flight t)
  where
    at : (u : Option Turn) → TurnsBounded (returned_turn fl u session)
    at none = h
    at (some u) = record { counted = h.counted; bounded = h.bounded }

requested-TurnsBounded :
    (fl : Fleet) (r : Request) → TurnsBounded fl → TurnsBounded (requested fl (request_agent fl r))
unfolding request_agent
requested-TurnsBounded fl r h =
    if_both (λ x. TurnsBounded (requested fl x)) (includes fl.config.backends _) _ _
      (λ _. record { counted = h.counted; bounded = h.bounded }) (λ _. h)

finish_recovery-TurnsBounded :
    (fl : Fleet) (a : ℕ) (r : String) → TurnsBounded fl → TurnsBounded (finish_recovery a r fl)
finish_recovery-TurnsBounded fl a r h =
    drain-TurnsBounded _ (record { counted = h.counted; bounded = h.bounded })

recovery_resumed-TurnsBounded :
    (fl : Fleet) (a i : ℕ) (s r : String)
    → TurnsBounded fl
    → TurnsBounded (recovery_resumed fl a i s r)
unfolding recovery_resumed
recovery_resumed-TurnsBounded fl a i s r h =
    if_both (λ f. TurnsBounded (finish_recovery a r (map_session f i r a))) (r == s) fl
      (unmap_session fl i s)
      (λ _.
        finish_recovery-TurnsBounded (map_session fl i r a) a r
          (record { counted = h.counted; bounded = h.bounded }))
      (λ _.
        finish_recovery-TurnsBounded (map_session (unmap_session fl i s) i r a) a r
          (record { counted = h.counted; bounded = h.bounded }))

-- Whatever happens to a fleet, the turns in flight stay Within `maxConcurrentTurns`, and the counter
-- `activeTurns` is their number.
pub step-TurnsBounded : (fl : Fleet) (s : Step) → TurnsBounded fl → TurnsBounded (step fl s)
unfolding step run turn_settled handle_shard_lost recovery_started recovery_failed retire_agent
    close
step-TurnsBounded fl (requests r) h = requested-TurnsBounded fl r h
step-TurnsBounded fl (runs i p now t) h =
    run_agent-TurnsBounded fl (find_agent fl.agents i) p now t h
step-TurnsBounded fl (starts t s) h = turn_started-TurnsBounded fl t s h
step-TurnsBounded fl (returns t s) h = turn_returned-TurnsBounded fl t s h
step-TurnsBounded fl (settles t o) h = finish_turn-TurnsBounded fl t _ o refl h
step-TurnsBounded fl (reports i s e) h = on_shard_event-TurnsBounded fl i s e h
step-TurnsBounded fl (loses i) h = lose_shard-TurnsBounded fl i (find_shard fl.shards i) h
step-TurnsBounded fl (recovers a i s) h = record { counted = h.counted; bounded = h.bounded }
step-TurnsBounded fl (resumes a i s r) h = recovery_resumed-TurnsBounded fl a i s r h
step-TurnsBounded fl (gives_up a) h = record { counted = h.counted; bounded = h.bounded }
step-TurnsBounded fl (retires a captured) h =
    retire_found-TurnsBounded fl a captured (find_agent fl.agents a) h
step-TurnsBounded fl closes h = record { counted = h.counted; bounded = h.bounded }
