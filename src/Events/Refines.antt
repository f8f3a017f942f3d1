-- ===== src/Events/Refines.antt =====
-- src/events.mjs: the bounded buffers against a log that forgets nothing.
use floe_runtime.Prelude.{
  ℕ, zero, suc, ◌+◌, ◌-◌, ◌≤◌, ◌<◌, ◌≡◌, refl, sym, ◌∙◌, inl, inr, String, Bool, Bool-cases, List,
  [], ◌∷◌, ◌++◌, arith, ltb, ap, if◌then◌else◌, if_true, if_false, or_else, length, length-append,
  length-drop, drop, ◌==◌,
}
use floe_runtime.Prelude.Map
use floe_runtime.Prelude.Map.{get-set, get-delete}
use floe_runtime.Events.{
  Envelope, EventLog, empty_log, last_seq, buffer_of, shift, push_bounded, publish, clear,
}

module _ {A : Type 0} where
  -- The last `n` of a list.
  abbrev pub latest : ℕ → List A → List A
  latest n xs = drop (length xs - n) xs

  shift-drop :
      (n : ℕ) (xs : List A) (x : A)
      → n ≤ length xs
      → shift (drop n xs ++ x ∷ []) ≡ drop (suc n) (xs ++ x ∷ [])
  shift-drop zero [] x h = refl
  shift-drop zero (y ∷ xs) x h = refl
  shift-drop (suc n) [] x h = absurd (omega (arith, h))
  shift-drop (suc n) (y ∷ xs) x h = shift-drop n xs x (omega (arith, h))

module _ {D : Type 0} where
  pushed_length :
      (size : ℕ) (es : List (Envelope D)) (e : Envelope D)
      → length (latest size es ++ e ∷ []) ≡ length es - (length es - size) + 1
  pushed_length size es e =
      omega (arith, length-append (latest size es) (e ∷ []), length-drop (length es - size) es)

  drop_none : (n : ℕ) (es : List (Envelope D)) → n ≡ 0 → drop n es ≡ es
  drop_none n es h = rw h refl

  push_short :
      (size : ℕ) (es : List (Envelope D)) (e : Envelope D)
      → length es < size
      → latest size es ++ e ∷ [] ≡ latest size (es ++ e ∷ [])
  push_short size es e h =
      ap (λ xs. xs ++ e ∷ []) (drop_none (length es - size) es (omega (arith, h)))
      ∙ sym (
          drop_none (length (es ++ e ∷ []) - size) (es ++ e ∷ [])
            (omega (arith, h, length-append es (e ∷ []))))

  push_full :
      (size : ℕ) (es : List (Envelope D)) (e : Envelope D)
      → size ≤ length es
      → shift (latest size es ++ e ∷ []) ≡ latest size (es ++ e ∷ [])
  push_full size es e h =
      let n : suc (length es - size) ≡ length (es ++ e ∷ []) - size =
        omega (arith, h, length-append es (e ∷ [])) in
      shift-drop (length es - size) es e (omega arith) ∙ ap (λ k. drop k (es ++ e ∷ [])) n

  drop_empty : (n : ℕ) → ◌≡◌ {A = List (Envelope D)} [] (drop n [])
  drop_empty zero = refl
  drop_empty (suc n) = refl

  -- A push onto the latest envelopes keeps the latest of all.
  push_bounded-latest :
      (size : ℕ) (es : List (Envelope D)) (e : Envelope D)
      → push_bounded size (latest size es) e ≡ latest size (es ++ e ∷ [])
  unfolding push_bounded
  push_bounded-latest size es e = elim (Bool-cases (ltb (length es) size)) [
    | inl short ↦
        if_false (ltb size (length (latest size es ++ e ∷ []))) _ _
          (ground (arith, short, pushed_length size es e))
        ∙ push_short size es e (ground (arith, short))
    | inr full ↦
        if_true (ltb size (length (latest size es ++ e ∷ []))) _ _
          (ground (arith, full, pushed_length size es e))
        ∙ push_full size es e (ground (arith, full))
  ]

-- What an application does with the log; `now` is the time of the publication.
pub data Command (D : Type 0) : Type 0 where
  publishes :
      (now : ℕ) → (conversation : String) → (kind : String) → D → (replay : Bool) → Command D
  clears : (conversation : String) → Command D

-- The specification: of each conversation, every envelope since it was last cleared.
abbrev pub Record : Type 0 → Type 0
Record D = String → List (Envelope D)

module _ {D : Type 0} where
  abbrev pub obey : Command D → EventLog D → EventLog D
  obey (publishes now c kind d replay) log = (publish log now c kind d replay).0
  obey (clears c) log = clear log c

  abbrev pub obey_all : List (Command D) → EventLog D → EventLog D
  obey_all [] log = log
  obey_all (x ∷ xs) log = obey_all xs (obey x log)

  abbrev numbered : List (Envelope D) → ℕ → String → String → D → Bool → Envelope D
  numbered es now c kind d replay = record {
    seq = length es + 1;
    conversation_id = c;
    kind = kind;
    replay = replay;
    at = now;
    payload = d;
  }

  abbrev pub note : Command D → Record D → Record D
  note (publishes now c kind d replay) r b =
      if c == b then r c ++ numbered (r c) now c kind d replay ∷ [] else r b
  note (clears c) r b = if c == b then [] else r b

  abbrev pub note_all : List (Command D) → Record D → Record D
  note_all [] r = r
  note_all (x ∷ xs) r = note_all xs (note x r)

  -- A log implements a record of everything: each conversation's counter is the number of its envelopes,
  -- and its buffer has the latest of them, as many as the buffer's size allows.
  pub record Refines (log : EventLog D) (r : Record D) : Type 0 where
    pub counts : (c : String) → last_seq log c ≡ length (r c)
    pub keeps : (c : String) → buffer_of log c ≡ latest log.buffer_size (r c)

  publish-Refines :
      (log : EventLog D) (r : Record D) (now : ℕ) (c kind : String) (d : D) (replay : Bool)
      → Refines log r
      → Refines (publish log now c kind d replay).0 (note (publishes now c kind d replay) r)
  unfolding publish
  publish-Refines log r now c kind d replay h =
      let e = numbered (r c) now c kind d replay in
      let sent = (publish log now c kind d replay).1 in
      record {
        counts = λ b.
            ap (λ o. or_else o 0) (get-set c b (last_seq log c + 1) log.seqs)
            ∙ elim (Bool-cases (c == b)) [
              | inl q ↦ rw (q, h.counts c) (sym (length-append (r c) (e ∷ [])))
              | inr q ↦ rw q (h.counts b)
            ];
        keeps = λ b.
            ap (λ o. or_else o [])
              (get-set c b (push_bounded log.buffer_size (buffer_of log c) sent) log.buffers)
            ∙ elim (Bool-cases (c == b)) [
              | inl q ↦ rw (q, h.counts c, h.keeps c) (push_bounded-latest log.buffer_size (r c) e)
              | inr q ↦ rw q (h.keeps b)
            ];
      }

  clear-Refines :
      (log : EventLog D) (r : Record D) (c : String)
      → Refines log r
      → Refines (clear log c) (note (clears c) r)
  unfolding clear
  clear-Refines log r c h = record {
    counts = λ b.
        ap (λ o. or_else o 0) (get-delete c b log.seqs)
        ∙ elim (Bool-cases (c == b)) [ inl q ↦ rw q refl | inr q ↦ rw q (h.counts b) ];
    keeps = λ b. ap (λ o. or_else o []) (get-delete c b log.buffers) ∙ elim (Bool-cases (c == b)) [
      | inl q ↦ rw q (drop_empty (0 - log.buffer_size))
      | inr q ↦ rw q (h.keeps b)
    ];
  }

  obey-Refines :
      (x : Command D) (log : EventLog D) (r : Record D)
      → Refines log r
      → Refines (obey x log) (note x r)
  obey-Refines (publishes now c kind d replay) log r h = publish-Refines log r now c kind d replay h
  obey-Refines (clears c) log r h = clear-Refines log r c h

  obey_all-keeps :
      (xs : List (Command D)) (log : EventLog D) (r : Record D)
      → Refines log r
      → Refines (obey_all xs log) (note_all xs r)
  obey_all-keeps [] log r h = h
  obey_all-keeps (x ∷ xs) log r h =
      obey_all-keeps xs (obey x log) (note x r) (obey-Refines x log r h)

  -- Whatever is published and cleared, the log implements the record of everything since each
  -- conversation was last cleared: its counters count all of it, and its buffers have the latest of it.
  pub obey_all-Refines :
      (size : ℕ) (xs : List (Command D))
      → Refines (obey_all xs (empty_log size)) (note_all xs (λ c. []))
  unfolding Map.get
  obey_all-Refines size xs =
      obey_all-keeps xs (empty_log size) (λ c. [])
        (record { counts = λ c. refl; keeps = λ c. drop_empty (0 - size) })
