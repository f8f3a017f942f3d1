-- ===== src/Fleet/Rules.antt =====
-- Rules for the loops of a fleet: what each round keeps, the loop keeps.
use floe_runtime.Prelude.{
  ℕ, zero, suc, ◌≡◌, true, some, List, [], ◌∷◌, Bool-cases, Option-cases, inl, inr, if_both, length,
}
use floe_runtime.Fleet.State.{Entry, Fleet, below, find_agent}
use floe_runtime.Fleet.Queue.{pick}
use floe_runtime.Fleet.Admission.{drain_loop, drain, take_out}
use floe_runtime.Fleet.Recovery.{rescue_all, rescue_agent}

module _ (P : Fleet → Type 0)
    (keep : (fl : Fleet) (p : ℕ × Entry)
      → below fl.active_turns fl.config.max_turns ≡ true
      → pick fl ≡ some p
      → P fl
      → P (take_out fl p)) where
  drain_loop-keeps : (n : ℕ) (fl : Fleet) → P fl → P (drain_loop n fl)
  unfolding drain_loop
  drain_loop-keeps zero fl h = h
  drain_loop-keeps (suc n) fl h = elim (Bool-cases (below fl.active_turns fl.config.max_turns)) [
    | inl free ↦ elim (Option-cases (pick fl)) [
      | inl empty ↦ rw (drain_loop, free, empty) h
      | inr (p, e) ↦
          rw (drain_loop, free, e) (drain_loop-keeps n (take_out fl p) (keep fl p free e h))
    ]
    | inr full ↦ rw (drain_loop, full) h
  ]

  pub drain-keeps : (fl : Fleet) → P fl → P (drain fl)
  unfolding drain
  drain-keeps fl h =
      if_both P fl.exceeded fl (drain_loop (length fl.queue) fl) (λ _. h)
        (λ _. drain_loop-keeps (length fl.queue) fl h)

module _ (P : Fleet → Type 0)
    (keep : (fl : Fleet) (i : ℕ) → P fl → P (rescue_agent fl i (find_agent fl.agents i))) where
  pub rescue_all-keeps : (is : List ℕ) (fl : Fleet) → P fl → P (rescue_all is fl)
  unfolding rescue_all
  rescue_all-keeps [] fl h = h
  rescue_all-keeps (i ∷ is) fl h = rescue_all-keeps is _ (keep fl i h)
