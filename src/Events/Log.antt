-- ===== src/Events/Log.antt =====
-- The replay buffer against the history of a conversation: what is kept, what `since` returns, and
-- what it reports as missed.
use floe_runtime.Prelude.{
  ℕ, suc, ◌+◌, ◌-◌, ◌≤◌, ◌<◌, ◌≡◌, refl, inl, inr, String, Bool, false, List, [], ◌∷◌, ◌++◌, arith,
  ltb, lt→ltb, ltb→lt, subst, ap, if◌then◌else◌, length, length-append, keep_if, ◌==◌, eq_iff, ◌&&◌,
  Bool-cases,
}
use floe_runtime.Prelude.Map
use floe_runtime.Events.{
  Envelope, EventLog, empty_log, last_seq, buffer_of, shift, push_bounded, publish, oldest_seq,
  since, clear,
}

suc_pred : (n : ℕ) → suc n - 1 ≡ n
suc_pred n = omega arith

module _ {D : Type 0} where
  -- The envelopes number the events after `from` up to `last`, one after the other.
  abbrev pub Numbers : ℕ → List (Envelope D) → ℕ → Type 0
  Numbers from [] last = from ≡ last
  Numbers from (e ∷ es) last = (e.seq ≡ suc from) × Numbers (suc from) es last

  -- Of a conversation the buffer holds the latest events, and `dropped` have fallen out.
  pub record Holds (log : EventLog D) (c : String) : Type 0 where
    pub dropped : ℕ
    pub numbered : Numbers dropped (buffer_of log c) (last_seq log c)
    pub bounded : length (buffer_of log c) ≤ log.buffer_size

  abbrev pub IsValid : EventLog D → Type 0
  IsValid log = (c : String) → Holds log c

  Numbers-length :
      (from : ℕ) (es : List (Envelope D)) (last : ℕ)
      → Numbers from es last
      → from + length es ≡ last
  Numbers-length from [] last h = omega arith
  Numbers-length from (e ∷ es) last (_, h) = omega (arith, Numbers-length (suc from) es last h)

  Numbers-append :
      (from : ℕ) (es : List (Envelope D)) (last : ℕ) (e : Envelope D)
      → Numbers from es last
      → e.seq ≡ suc last
      → Numbers from (es ++ e ∷ []) (suc last)
  Numbers-append from [] last e h p = (omega arith, omega arith)
  Numbers-append from (x ∷ es) last e (q, h) p = (q, Numbers-append (suc from) es last e h p)

  Numbers-shift :
      (from : ℕ) (e : Envelope D) (es : List (Envelope D)) (last : ℕ)
      → Numbers from (e ∷ es) last
      → Numbers (suc from) (shift (e ∷ es)) last
  Numbers-shift from e es last h = h.1

  -- One push onto a valid buffer.
  push_bounded-Numbers :
      (size from last : ℕ) (es : List (Envelope D)) (e : Envelope D)
      → Numbers from es last
      → length es ≤ size
      → e.seq ≡ suc last
      → (d : ℕ) × Numbers d (push_bounded size es e) (suc last)
        × (length (push_bounded size es e) ≤ size)
  unfolding push_bounded
  push_bounded-Numbers size from last [] e h b p = elim (Bool-cases (ltb size 1)) [
    | inl over ↦ rw over (suc last, refl, omega arith)
    | inr fits ↦ rw fits (from, (omega arith, omega arith), ground arith)
  ]
  push_bounded-Numbers size from last (x ∷ es) e h b p =
      let long = length-append es (e ∷ []) in
      let all = Numbers-append from (x ∷ es) last e h p in
      elim (Bool-cases (ltb size (suc (length (es ++ e ∷ []))))) [
        | inl over ↦ rw over (suc from, all.1, omega (arith, long))
        | inr fits ↦ rw fits (from, all, ground (arith, long))
      ]

  pub empty_log-IsValid : (size : ℕ) → IsValid (empty_log size)
  unfolding Map.get
  empty_log-IsValid size c = record { dropped = 0; numbered = refl; bounded = omega arith }

  -- Publishing to one conversation leaves the others as they are.
  publish_other :
      (log : EventLog D) (now : ℕ) (c j kind : String) (p : D) (r : Bool)
      → (c == j) ≡ false
      → (buffer_of (publish log now c kind p r).0 j ≡ buffer_of log j)
        × (last_seq (publish log now c kind p r).0 j ≡ last_seq log j)
  unfolding publish
  publish_other log now c j kind p r h = (simp (Map.get-set, h), simp (Map.get-set, h))

  publish_same :
      (log : EventLog D) (now : ℕ) (c kind : String) (p : D) (r : Bool)
      → (buffer_of (publish log now c kind p r).0 c
          ≡ push_bounded log.buffer_size (buffer_of log c) (publish log now c kind p r).1)
        × (last_seq (publish log now c kind p r).0 c ≡ suc (last_seq log c))
  unfolding publish
  publish_same log now c kind p r = (simp Map.get-set_self, simp Map.get-set_self (omega arith))

  publish-size :
      (log : EventLog D) (now : ℕ) (c kind : String) (p : D) (r : Bool)
      → (publish log now c kind p r).0.buffer_size ≡ log.buffer_size
  unfolding publish
  publish-size log now c kind p r = refl

  publish-seq :
      (log : EventLog D) (now : ℕ) (c kind : String) (p : D) (r : Bool)
      → (publish log now c kind p r).1.seq ≡ suc (last_seq log c)
  unfolding publish
  publish-seq log now c kind p r = omega arith

  -- Publishing to one conversation keeps the buffer of every conversation within its bound and
  -- numbered without a hole up to the last number issued.
  pub publish-IsValid :
      (log : EventLog D) (now : ℕ) (c kind : String) (p : D) (r : Bool)
      → IsValid log
      → IsValid (publish log now c kind p r).0
  publish-IsValid log now c kind p r v j = elim (Bool-cases (c == j)) [
    | inl same ↦
        let e = (eq_iff c j).0 same in
        let b = publish_same log now c kind p r in
        let (d, n, l) =
          push_bounded-Numbers log.buffer_size (v c).dropped (last_seq log c) (buffer_of log c)
            (publish log now c kind p r).1 (v c).numbered (v c).bounded
            (publish-seq log now c kind p r) in
        subst (λ k. Holds (publish log now c kind p r).0 k) e
          (record {
            dropped = d;
            numbered = rw (b.0, b.1) n;
            bounded = rw (b.0, publish-size log now c kind p r) l;
          })
    | inr other ↦
        let b = publish_other log now c j kind p r other in
        record {
          dropped = (v j).dropped;
          numbered = rw (b.0, b.1) (v j).numbered;
          bounded = rw (b.0, publish-size log now c kind p r) (v j).bounded;
        }
  ]

  -- Forgetting a conversation keeps the buffer of every conversation within its bound and numbered
  -- without a hole up to the last number issued.
  pub clear-IsValid : (log : EventLog D) (c : String) → IsValid log → IsValid (clear log c)
  unfolding clear
  clear-IsValid log c v j = elim (Bool-cases (c == j)) [
    | inl same ↦ record {
      dropped = 0;
      numbered = simp (Map.get-delete, same);
      bounded = simp (Map.get-delete, same) (omega arith);
    }
    | inr other ↦ record {
      dropped = (v j).dropped;
      numbered = simp (Map.get-delete, other) (v j).numbered;
      bounded = simp (Map.get-delete, other) (v j).bounded;
    }
  ]

  keep_all_newer :
      (after from : ℕ) (es : List (Envelope D)) (last : ℕ)
      → Numbers from es last
      → after ≤ from
      → keep_if (λ e. ltb after e.seq) es ≡ es
  keep_all_newer after from [] last h p = refl
  keep_all_newer after from (e ∷ es) last (s, h) p =
      rw (lt→ltb after e.seq (omega arith))
        (ap (◌∷◌ e) (keep_all_newer after (suc from) es last h (omega arith)))

  keep-Numbers :
      (after from : ℕ) (es : List (Envelope D)) (last : ℕ)
      → Numbers from es last
      → from ≤ after
      → after ≤ last
      → Numbers after (keep_if (λ e. ltb after e.seq) es) last
  keep-Numbers after from [] last h p q = omega arith
  keep-Numbers after from (e ∷ es) last (s, h) p q = elim (Bool-cases (ltb after e.seq)) [
    | inl newer ↦
        let n = ltb→lt after e.seq newer in
        let same : from ≡ after = omega arith in
        rw newer (
          omega arith,
          rw (keep_all_newer after (suc from) es last h (omega arith))
              (subst (λ k. Numbers (suc k) es last) same h),
        )
    | inr old ↦ rw old (keep-Numbers after (suc from) es last h (ground arith) q)
  ]

  abbrev missed_in : ℕ → List (Envelope D) → ℕ → ℕ
  missed_in after es last =
      let oldest = oldest_seq es last in
      if ltb 0 after && ltb after (oldest - 1) then oldest - 1 - after else 0

  oldest_dropped :
      (from : ℕ) (es : List (Envelope D)) (last : ℕ)
      → Numbers from es last
      → oldest_seq es last ≡ suc from
  oldest_dropped from [] last h = omega arith
  oldest_dropped from (e ∷ es) last h = h.0

  since_Numbers :
      (from after : ℕ) (es : List (Envelope D)) (last : ℕ)
      → Numbers from es last
      → 0 < after
      → after ≤ last
      → Numbers (after + missed_in after es last) (keep_if (λ e. ltb after e.seq) es) last
  since_Numbers from after es last h p q =
      rw (oldest_dropped from es last h, lt→ltb 0 after p)
        (elim (Bool-cases (ltb after from)) [
          | inl behind ↦
              let n = ltb→lt after from behind in
              let sum : after + (suc from - 1 - after) ≡ from = omega arith in
              rw (suc_pred from, behind)
                (rw (keep_all_newer after from es last h (omega arith))
                  (subst (λ k. Numbers k es last) (omega arith) h))
          | inr ahead ↦
              rw (suc_pred from, ahead)
                (subst (λ k. Numbers k (keep_if (λ e. ltb after e.seq) es) last) (omega arith)
                  (keep-Numbers after from es last h (ground arith) q))
        ])

  since_buffer :
      (from after : ℕ) (es : List (Envelope D)) (last : ℕ)
      → Numbers from es last
      → 0 < after
      → after ≤ last
      → Numbers (after + missed_in after es last) (keep_if (λ e. ltb after e.seq) es) last
        × (missed_in after es last + length (keep_if (λ e. ltb after e.seq) es) + after ≡ last)
  since_buffer from after es last h p q =
      let n = since_Numbers from after es last h p q in
      (
        n,
        omega (
          arith,
          Numbers-length (after + missed_in after es last) (keep_if (λ e. ltb after e.seq) es) last
              n,
        ),
      )

  -- `since` accounts for every event of a valid log: of a conversation that has issued `last` numbers,
  -- a consumer that has seen `after` of them, which is not 0 and at most `last`, gets the number that fell out of the buffer, and then the
  -- envelopes that follow those, in order, up to the last one.
  pub since-accounts :
      (log : EventLog D) (c : String) (after : ℕ)
      → IsValid log
      → 0 < after
      → after ≤ last_seq log c
      → Numbers (after + (since log c after).1) (since log c after).0 (last_seq log c)
        × ((since log c after).1 + length (since log c after).0 + after ≡ last_seq log c)
  unfolding since
  since-accounts log c after v pos le =
      since_buffer (v c).dropped after (buffer_of log c) (last_seq log c) (v c).numbered pos le

  -- From a valid log, a consumer that asks from the start gets the buffer as it is, and is told that
  -- it missed nothing, however much has fallen out.
  pub since-zero :
      (log : EventLog D) (c : String)
      → IsValid log
      → ((since log c 0).0 ≡ buffer_of log c) × ((since log c 0).1 ≡ 0)
  unfolding since
  since-zero log c v = (
    keep_all_newer 0 (v c).dropped (buffer_of log c) (last_seq log c) (v c).numbered (omega arith),
    refl,
  )
