-- ===== src/Fleet/Ranking.antt =====
-- Which entry the scan of the queue picks, and that a drained fleet has nothing left to admit.
use floe_runtime.Prelude.{
  ℕ, zero, suc, ◌+◌, ◌≤◌, ◌<◌, ◌≡◌, refl, ◌∙◌, sym, ◌⊎◌, inl, inr, Bool, true, false, Option, none,
  some, List, [], ◌∷◌, arith, get_elem?, Bool-cases, subst, ◌≢◌, All,
}
use native.Mathlib.Nat.{zero-add}
use mathlib.Core.Option.{some-injective}
use floe_runtime.Fleet.State.{Entry, Fleet}
use floe_runtime.Fleet.Queue.{is_eligible, beats, better, scan, pick}

add_zero : (n : ℕ) → n ≡ n + 0
add_zero n = omega arith

add_suc : (n k : ℕ) → suc n + k ≡ n + suc k
add_suc n k = omega arith

-- The order of admission: a higher priority first, then the longer wait, then the place in the queue.
abbrev pub Before : ℕ × Entry → ℕ × Entry → Type 0
Before (i, e) (j, f) =
    (f.priority < e.priority)
    ⊎ (e.priority ≡ f.priority) × (e.enqueued_at < f.enqueued_at)
    ⊎ (e.priority ≡ f.priority) × (e.enqueued_at ≡ f.enqueued_at) × (i ≤ j)

Before-trans :
    (i j k : ℕ) (e f g : Entry) → Before (i, e) (j, f) → Before (j, f) (k, g) → Before (i, e) (k, g)
Before-trans i j k e f g h l = omega arith

better-Before :
    (i j : ℕ) (e best : Entry)
    → j ≤ i
    → (m : ℕ) × (r : Entry) × (better i e (some (j, best)) ≡ some (m, r))
      × Before (m, r) (i, e)
      × Before (m, r) (j, best)
      × (m ≤ i)
better-Before i j e best h = elim (Bool-cases (beats e best)) [
  | inl wins ↦ (i, e, rw wins, ground arith, ground arith, omega arith)
  | inr keeps ↦ (j, best, rw keeps, ground arith, ground arith, omega arith)
]

module _ (ok : Entry → Bool) where
  -- The pick at index `m` goes before every eligible entry of the queue, which starts at `i`.
  abbrev Leads : ℕ × Entry → ℕ → List Entry → Type 0
  Leads p i [] = Unit {0}
  Leads p i (e ∷ q) = (ok e ≡ true → Before p (i, e)) × Leads p (suc i) q

  Leads-trans :
      (i : ℕ) (q : List Entry) (m k : ℕ) (e f : Entry)
      → Before (m, e) (k, f)
      → Leads (k, f) i q
      → Leads (m, e) i q
  Leads-trans i [] m k e f b h = tt
  Leads-trans i (x ∷ q) m k e f b (h, hs) =
      (λ o. Before-trans m k i e f x b (h o), Leads-trans (suc i) q m k e f b hs)

  -- Where the pick comes from: it is in the queue and eligible, or it is the best so far.
  abbrev From : ℕ × Entry → ℕ → Option (ℕ × Entry) → List Entry → Type 0
  From p i best q =
      (best ≡ some p) ⊎ ((k : ℕ) × (get_elem? q k ≡ some p.1) × (p.0 ≡ i + k) × (ok p.1 ≡ true))

  From-tail :
      (p : ℕ × Entry) (i : ℕ) (best new : Option (ℕ × Entry)) (e : Entry) (q : List Entry)
      → (new ≡ some p → From p i best (e ∷ q))
      → From p (suc i) new q
      → From p i best (e ∷ q)
  From-tail p i best new e q k (inl h) = k h
  From-tail p i best new e q k (inr (n, g, s, o)) = inr (suc n, g, omega arith, o)

  scan-some :
      (i j : ℕ) (b : Entry) (q : List Entry)
      → j ≤ i
      → (m : ℕ) × (e : Entry) × (scan ok i (some (j, b)) q ≡ some (m, e))
        × Leads (m, e) i q
        × Before (m, e) (j, b)
  unfolding scan
  scan-some i j b [] h = (j, b, refl, tt, inr (inr (refl, refl, omega arith)))
  scan-some i j b (x ∷ q) h = elim (Bool-cases (ok x)) [
    | inl yes' ↦
        let (k, r, same, b₁, b₂, le) = better-Before i j x b h in
        let (m, e, found, leads, b₃) = scan-some (suc i) k r q (omega arith) in
        (
          m,
          e,
          rw (yes', same) found,
          (λ _. Before-trans m k i e r x b₃ b₁, leads),
          Before-trans m k j e r b b₃ b₂,
        )
    | inr no' ↦
        let (m, e, found, leads, b₃) = scan-some (suc i) j b q (omega arith) in
        (m, e, rw no' found, (λ o. absurd (cc), leads), b₃)
  ]

  -- The scan skips what is not eligible, and starts from the first entry that is.
  scan-none : (i : ℕ) (q : List Entry) → (p : ℕ × Entry) → scan ok i none q ≡ some p → Leads p i q
  unfolding scan
  scan-none i [] p h = tt
  scan-none i (x ∷ q) p h = elim (Bool-cases (ok x)) [
    | inl yes' ↦
        let (m, e, found, leads, b) = scan-some (suc i) i x q (omega arith) in
        let same : some (m, e) ≡ some p = sym found ∙ (rw yes' at h) in
        subst (λ p. Leads p i (x ∷ q)) (some-injective _ _ same) ((λ _. b), leads)
    | inr no' ↦ ((λ o. absurd (cc)), scan-none (suc i) q p (rw no' at h))
  ]

  From-step :
      (i : ℕ) (best : Option (ℕ × Entry)) (x : Entry) (q : List Entry) (p : ℕ × Entry)
      → ok x ≡ true
      → From p (suc i) (better i x best) q
      → From p i best (x ∷ q)
  From-step i best x q p o f = From-tail p i best (better i x best) x q (here best) f
    where
      entered : (b : Option (ℕ × Entry)) → some (i, x) ≡ some p → From p i b (x ∷ q)
      entered b h = inr (0, ground arith, ground arith, ground arith)

      here : (b : Option (ℕ × Entry)) → better i x b ≡ some p → From p i b (x ∷ q)
      here none h = entered none h
      here (some (j, b)) h = elim (Bool-cases (beats x b)) [
        | inl wins ↦ entered (some (j, b)) (rw wins at h)
        | inr keeps ↦ inl (rw keeps at h)
      ]

  scan-From :
      (i : ℕ) (best : Option (ℕ × Entry)) (q : List Entry) (p : ℕ × Entry)
      → scan ok i best q ≡ some p
      → From p i best q
  unfolding scan
  scan-From i best [] p h = inl h
  scan-From i best (x ∷ q) p h = elim (Bool-cases (ok x)) [
    | inl yes' ↦ From-step i best x q p yes' (scan-From (suc i) _ q p (rw yes' at h))
    | inr no' ↦ From-tail p i best best x q inl (scan-From (suc i) best q p (rw no' at h))
  ]

  Leads-at :
      (p : ℕ × Entry) (i : ℕ) (q : List Entry) (k : ℕ) (f : Entry)
      → Leads p i q
      → get_elem? q k ≡ some f
      → ok f ≡ true
      → Before p (i + k, f)
  Leads-at p i [] k f l g o = cc
  Leads-at p i (x ∷ q) zero f (l, ls) g o =
      let same : x ≡ f = some-injective x f g in
      subst (λ k. Before p (k, f)) (add_zero i)
        (subst (λ y. Before p (i, y)) same (l (subst (λ y. ok y ≡ true) (sym same) o)))
  Leads-at p i (x ∷ q) (suc k) f (l, ls) g o =
      subst (λ n. Before p (n, f)) (add_suc i k) (Leads-at p (suc i) q k f ls g o)

  scan-ineligible : (i : ℕ) (b : ℕ × Entry) (q : List Entry) → scan ok i (some b) q ≢ none
  unfolding scan
  scan-ineligible i b [] = cc
  scan-ineligible i (j, b) (x ∷ q) = elim (Bool-cases (ok x)) [
    | inl yes' ↦ elim (Bool-cases (beats x b)) [
      | inl wins ↦ rw (yes', wins) (scan-ineligible (suc i) (i, x) q)
      | inr keeps ↦ rw (yes', keeps) (scan-ineligible (suc i) (j, b) q)
    ]
    | inr no' ↦ rw no' (scan-ineligible (suc i) (j, b) q)
  ]

  -- The scan finds nothing only if no entry is eligible.
  pub scan-eq-none : (i : ℕ) (q : List Entry) → scan ok i none q ≡ none → All (λ e. ok e ≡ false) q
  unfolding scan
  scan-eq-none i [] h = tt
  scan-eq-none i (x ∷ q) h = elim (Bool-cases (ok x)) [
    | inl yes' ↦ absurd (scan-ineligible (suc i) (i, x) q (rw yes' at h))
    | inr no' ↦ (no', scan-eq-none (suc i) q (rw no' at h))
  ]

-- The entry that is admitted next stands in the queue at the index that is taken out, may be
-- admitted, and goes before every other entry that may be: it has a higher priority, or as high a
-- one and an earlier time, or both the same and an earlier place.
pub pick-first :
    (fl : Fleet) (i : ℕ) (e : Entry)
    → pick fl ≡ some (i, e)
    → (get_elem? fl.queue i ≡ some e)
      × (is_eligible fl e ≡ true)
      × ((k : ℕ) (f : Entry)
          → get_elem? fl.queue k ≡ some f
          → is_eligible fl f ≡ true
          → Before (i, e) (k, f))
unfolding pick
pick-first fl i e h = picked (scan-From (is_eligible fl) 0 none fl.queue (i, e) h)
  where
    leads :
        (k : ℕ) (f : Entry)
        → get_elem? fl.queue k ≡ some f
        → is_eligible fl f ≡ true
        → Before (i, e) (k, f)
    leads k f g o =
        subst (λ n. Before (i, e) (n, f)) (zero-add k)
          (Leads-at (is_eligible fl) (i, e) 0 fl.queue k f
            (scan-none (is_eligible fl) 0 fl.queue (i, e) h) g o)

    picked :
        From (is_eligible fl) (i, e) 0 none fl.queue
        → (get_elem? fl.queue i ≡ some e)
          × (is_eligible fl e ≡ true)
          × ((k : ℕ) (f : Entry)
              → get_elem? fl.queue k ≡ some f
              → is_eligible fl f ≡ true
              → Before (i, e) (k, f))
    picked (inl n) = cc
    picked (inr (k, g, s, o)) = (rw (s, zero-add k) g, o, leads)

-- Nothing is picked only if no entry may be admitted.
pub pick-none : (fl : Fleet) → pick fl ≡ none → All (λ e. is_eligible fl e ≡ false) fl.queue
unfolding pick
pick-none fl h = scan-eq-none (is_eligible fl) 0 fl.queue h
