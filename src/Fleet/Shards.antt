-- ===== src/Fleet/Shards.antt =====
-- The limits on backend processes and on the agents that share one.
use floe_runtime.Prelude.{
  ℕ, suc, ◌+◌, ◌≤◌, ◌<◌, ◌≡◌, refl, sym, inl, inr, String, true, Option, none, some, List, [], ◌∷◌,
  ◌++◌, arith, length, length-append, Bool-cases, if◌then◌else◌, if_both, nat_eq, All, All-append,
  ◌==◌, eq_iff, ◌&&◌, subst,
}
use floe_runtime.Fleet.State.{
  Agent, Shard, Config, Fleet, below, shard_list, add, in_set, without, update_shard, remove_shard,
}
use floe_runtime.Fleet.Queue.{has_room}
use floe_runtime.Fleet.Turns.{Within, Within-suc}
use floe_runtime.Fleet.Admission.{
  acquire_shard, acquire_at, join_shard, join_or_create, create_shard, new_shard,
}

-- No process has more agents than `maxSessionsPerProcess`, and no backend more processes than
-- `maxProcesses`.
abbrev pub HasRoom : Config → Shard → Type 0
HasRoom c s = length s.agent_ids ≤ c.max_sessions

abbrev pub ShardsBounded : Config → List Shard → Type 0
ShardsBounded c ss =
    All (HasRoom c) ss × ((b : String) → Within (length (shard_list ss b)) c.max_processes)

abbrev pub Bounded : Fleet → Type 0
Bounded fl = ShardsBounded fl.config fl.shards

length-add : (i : ℕ) (js : List ℕ) → length (add i js) ≤ suc (length js)
length-add i js =
    if_both (λ ks. length ks ≤ suc (length js)) (in_set i js) _ _ (λ _. omega arith)
      (λ _. omega (arith, length-append js (i ∷ [])))

pub length-without : (i : ℕ) (js : List ℕ) → length (without i js) ≤ length js
length-without i [] = omega arith
length-without i (j ∷ js) = ground (arith, length-without i js)

pub Within-le : (n k : ℕ) (m : Option ℕ) → k ≤ n → Within n m → Within k m
Within-le n k none h w = tt
Within-le n k (some m) h w = omega arith

-- As many processes of each backend.
abbrev SameCounts : List Shard → List Shard → Type 0
SameCounts ss ss' = (b : String) → length (shard_list ss' b) ≡ length (shard_list ss b)

SameCounts-cons :
    (s : Shard) (ss ss' : List Shard) → SameCounts ss ss' → SameCounts (s ∷ ss) (s ∷ ss')
SameCounts-cons s ss ss' h b = ground (arith, h b)

abbrev Joined : Config → List Shard → Option (List Shard × ℕ) → Type 0
Joined c ss none = Unit {0}
Joined c ss (some (ss', i)) = All (HasRoom c) ss' × SameCounts ss ss'

abbrev extend_join : Shard → Option (List Shard × ℕ) → Option (List Shard × ℕ)
extend_join s none = none
extend_join s (some (ss', i)) = some (s ∷ ss', i)

extend-Joined :
    (c : Config) (s : Shard) (ss : List Shard) (r : Option (List Shard × ℕ))
    → HasRoom c s
    → Joined c ss r
    → Joined c (s ∷ ss) (elim r [ none ↦ none | some (ss', i) ↦ some (s ∷ ss', i) ])
extend-Joined c s ss none h j = tt
extend-Joined c s ss (some (ss', i)) h (all, same) = ((h, all), SameCounts-cons s ss ss' same)

join_shard-Joined :
    (c : Config) (b : String) (a : ℕ) (ss : List Shard)
    → All (HasRoom c) ss
    → Joined c ss (join_shard c.max_sessions b a ss)
unfolding join_shard
join_shard-Joined c b a [] h = tt
join_shard-Joined c b a (s ∷ ss) (h, hs) =
    if_both (Joined c (s ∷ ss)) (s.backend == b && has_room c.max_sessions s) _ _
      (λ fits. ((room fits, hs), λ d. ground arith))
      (λ _. extend-Joined c s ss _ h (join_shard-Joined c b a ss hs))
  where
    room :
        (s.backend == b && has_room c.max_sessions s) ≡ true
        → length (add a s.agent_ids) ≤ c.max_sessions
    room fits = ground (arith, length-add a s.agent_ids)

length-shard_list-append :
    (ss : List Shard) (s : Shard) (d : String)
    → length (shard_list (ss ++ s ∷ []) d)
      ≡ length (shard_list ss d) + (if s.backend == d then 1 else 0)
length-shard_list-append [] s d = ground arith
length-shard_list-append (x ∷ ss) s d = ground (arith, length-shard_list-append ss s d)

module _ (fl : Fleet) (a : Agent) (pos : 0 < fl.config.max_sessions) (h : Bounded fl) where
  create_shard-Bounded : Bounded (create_shard fl a).0
  create_shard-Bounded =
      if_both (λ (r : Fleet × Option ℕ). Bounded r.0)
        (below (length (shard_list fl.shards a.backend)) fl.config.max_processes) _ _
        (λ free. (All-append (HasRoom fl.config) fl.shards _ h.0 (omega arith, tt), counted free))
        (λ _. h)
    where
      counted :
          below (length (shard_list fl.shards a.backend)) fl.config.max_processes ≡ true
          → (d : String)
          → Within
              (length (shard_list (fl.shards ++ new_shard fl.next_id a.backend a.id ∷ []) d))
              fl.config.max_processes
      counted free d =
          rw (length-shard_list-append fl.shards (new_shard fl.next_id a.backend a.id) d)
            (elim (Bool-cases (a.backend == d)) [
              | inl same ↦
                  rw (same, ← (eq_iff a.backend d).0 same)
                    (subst (λ n. Within n fl.config.max_processes) (omega arith)
                      (Within-suc _ fl.config.max_processes free))
              | inr differs ↦
                  rw differs (subst (λ n. Within n fl.config.max_processes) (omega arith) (h.1 d))
            ])

  acquire_at-Bounded : (s : Option ℕ) → Bounded (acquire_at fl a s).0
  acquire_at-Bounded (some i) = h
  acquire_at-Bounded none = joined _ (join_shard-Joined fl.config a.backend a.id fl.shards h.0)
    where
      joined :
          (r : Option (List Shard × ℕ))
          → Joined fl.config fl.shards r
          → Bounded (join_or_create fl a r).0
      joined none j = create_shard-Bounded
      joined (some (ss, i)) (all, same) =
          (all, λ d. subst (λ n. Within n fl.config.max_processes) (sym (same d)) (h.1 d))

  pub acquire_shard-Bounded : Bounded (acquire_shard fl a).0
  unfolding acquire_shard
  acquire_shard-Bounded = acquire_at-Bounded a.shard_id

pub remove_shard-Bounded :
    (c : Config) (i : ℕ) (ss : List Shard)
    → ShardsBounded c ss
    → ShardsBounded c (remove_shard i ss)
remove_shard-Bounded c i ss (all, counts) =
    (kept ss all, λ b. Within-le _ _ c.max_processes (fewer ss b) (counts b))
  where
    kept : (ss : List Shard) → All (HasRoom c) ss → All (HasRoom c) (remove_shard i ss)
    kept [] h = tt
    kept (s ∷ ss) (h, hs) =
        if_both (All (HasRoom c)) (nat_eq s.id i) _ _ (λ _. hs) (λ _. (h, kept ss hs))

    fewer :
        (ss : List Shard) (b : String)
        → length (shard_list (remove_shard i ss) b) ≤ length (shard_list ss b)
    fewer [] b = omega arith
    fewer (s ∷ ss) b = ground (arith, fewer ss b)

-- Writing to a shard without giving it an agent, or moving it to another backend.
pub update_shard-Bounded :
    (c : Config) (i : ℕ) (f : Shard → Shard) (ss : List Shard)
    → ((s : Shard) → ((f s).backend ≡ s.backend) × (length (f s).agent_ids ≤ length s.agent_ids))
    → ShardsBounded c ss
    → ShardsBounded c (update_shard i f ss)
update_shard-Bounded c i f ss mild (all, counts) =
    (kept ss all, λ b. subst (λ n. Within n c.max_processes) (sym (same ss b)) (counts b))
  where
    kept : (ss : List Shard) → All (HasRoom c) ss → All (HasRoom c) (update_shard i f ss)
    kept [] h = tt
    kept (s ∷ ss) (h, hs) =
        if_both (All (HasRoom c)) (nat_eq s.id i) _ _ (λ _. (omega (arith, (mild s).1), hs))
          (λ _. (h, kept ss hs))

    same : (ss : List Shard) → SameCounts ss (update_shard i f ss)
    same [] b = refl
    same (s ∷ ss) b = ground (arith, same ss b, (mild s).0)
