-- ===== src/Fleet/Draining.antt =====
-- A drained fleet has admitted all that it may: its loop has enough fuel.
use floe_runtime.Prelude.{
  ℕ, zero, suc, ◌≤◌, ◌≡◌, refl, ap, ◌∙◌, ◌⊎◌, inl, inr, true, false, some, List, [], ◌∷◌, arith,
  get_elem?, length, Bool-cases, Option-cases, if_both, All,
}
use floe_runtime.Fleet.State.{Entry, Fleet, below, emit_depth}
use floe_runtime.Fleet.Queue.{is_eligible, pick, remove_at}
use floe_runtime.Fleet.Frame.{admit-Kept}
use floe_runtime.Fleet.Ranking.{pick-first, pick-none}
use floe_runtime.Fleet.Admission.{take_out, drain_loop, drain}

length-remove_at :
    (q : List Entry) (i : ℕ) (e : Entry)
    → get_elem? q i ≡ some e
    → suc (length (remove_at i q)) ≡ length q
unfolding remove_at
length-remove_at [] i e h = cc
length-remove_at (x ∷ q) zero e h = refl
length-remove_at (x ∷ q) (suc i) e h = ap suc (length-remove_at q i e h)

length-take_out :
    (fl : Fleet) (p : ℕ × Entry)
    → pick fl ≡ some p
    → suc (length (take_out fl p).queue) ≡ length fl.queue
length-take_out fl (i, e) h =
    ap (λ q. suc (length q))
      (admit-Kept (emit_depth (record fl { queue = remove_at i fl.queue })) e).kept_queue
    ∙ length-remove_at fl.queue i e (pick-first fl i e h).0

-- Nothing more may be admitted: the limit on turns is reached, or no queued entry is eligible.
abbrev pub IsDrained : Fleet → Type 0
IsDrained fl =
    (below fl.active_turns fl.config.max_turns ≡ false)
    ⊎ All (λ e. is_eligible fl e ≡ false) fl.queue

drain_loop-IsDrained : (n : ℕ) (fl : Fleet) → length fl.queue ≤ n → IsDrained (drain_loop n fl)
unfolding drain_loop
drain_loop-IsDrained zero fl h = inr (empty fl.queue h)
  where
    empty : (q : List Entry) → length q ≤ 0 → All (λ e. is_eligible fl e ≡ false) q
    empty [] h = tt
    empty (e ∷ q) h = absurd (omega arith)
drain_loop-IsDrained (suc n) fl h = elim (Bool-cases (below fl.active_turns fl.config.max_turns)) [
  | inl free ↦ elim (Option-cases (pick fl)) [
    | inl nothing ↦ rw (drain_loop, free, nothing) (inr (pick-none fl nothing))
    | inr (p, e) ↦
        rw (drain_loop, free, e)
          (drain_loop-IsDrained n (take_out fl p) (omega (arith, length-take_out fl p e)))
  ]
  | inr full ↦ rw (drain_loop, full) (inl full)
]

-- When `#drain` returns, the budget was exceeded before, or the limit on turns is reached, or no queued entry
-- can be admitted: no work waits while there is room for it.
pub drain-IsDrained : (fl : Fleet) → (fl.exceeded ≡ true) ⊎ IsDrained (drain fl)
unfolding drain
drain-IsDrained fl = elim (Bool-cases fl.exceeded) [
  | inl spent ↦ inl spent
  | inr open' ↦ inr (
      if_both IsDrained fl.exceeded fl (drain_loop (length fl.queue) fl) (λ p. absurd (cc))
        (λ _. drain_loop-IsDrained (length fl.queue) fl (omega arith)))
]
