-- ===== src/Fleet/Queue.antt =====
-- Which queued turn is admitted next: the capacity check and the scan of `#drain`.
use floe_runtime.Prelude.{
  ℕ, zero, suc, Bool, true, false, Option, none, some, List, [], ◌∷◌, nat_eq, ltb, if◌then◌else◌,
  length, ◌&&◌, ◌||◌, not, is_some, some_of,
}
use floe_runtime.Fleet.State.{
  Status, recovering, lost, Agent, Shard, Entry, Config, Fleet, below, find_agent, shard_list,
}

-- `shard.agentIds.size < this.maxSessionsPerProcess`
abbrev pub has_room : ℕ → Shard → Bool
has_room most s = ltb (length s.agent_ids) most

-- `#canAssign`
unfoldable pub can_assign : Config → List Shard → Agent → Bool
can_assign c shards a =
    is_some a.shard_id
    || (some_of (has_room c.max_sessions) (shard_list shards a.backend)
        || below (length (shard_list shards a.backend)) c.max_processes)

abbrev pub is_blocked : Status → Bool
is_blocked lost = true
is_blocked recovering = true
is_blocked _ = false

abbrev pub ready_to_run : Config → List Shard → Option Agent → Bool
ready_to_run c shards none = false
ready_to_run c shards (some a) = not (is_blocked a.status) && can_assign c shards a

-- An entry that the scan does not skip.
abbrev pub is_eligible : Fleet → Entry → Bool
is_eligible fl e = ready_to_run fl.config fl.shards (find_agent fl.agents e.agent_id)

-- The entry has a higher priority, or the same and waits for longer.
abbrev pub beats : Entry → Entry → Bool
beats e best =
    ltb best.priority e.priority
    || (nat_eq e.priority best.priority && ltb e.enqueued_at best.enqueued_at)

abbrev pub better : (i : ℕ) → Entry → Option (ℕ × Entry) → Option (ℕ × Entry)
better i e none = some (i, e)
better i e (some (j, best)) = if beats e best then some (i, e) else some (j, best)

-- The `for` loop of `#drain`, from index `i` on, with the best entry so far.
unfoldable pub scan : (Entry → Bool) → ℕ → Option (ℕ × Entry) → List Entry → Option (ℕ × Entry)
scan ok i best [] = best
scan ok i best (e ∷ q) = scan ok (suc i) (if ok e then better i e best else best) q

unfoldable pub pick : Fleet → Option (ℕ × Entry)
unfolding scan
pick fl = scan (is_eligible fl) 0 none fl.queue

-- `this.queue.splice(i, 1)`
unfoldable pub remove_at : ℕ → List Entry → List Entry
remove_at i [] = []
remove_at zero (e ∷ q) = q
remove_at (suc i) (e ∷ q) = e ∷ remove_at i q
