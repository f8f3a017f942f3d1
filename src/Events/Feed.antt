-- ===== src/Events/Feed.antt =====
-- What a consumer of a live feed reads, for every interleaving of its reads with the runtime's events.
use floe_runtime.Prelude.{
  ◌≡◌, refl, String, Bool, true, false, Option, none, some, List, [], ◌∷◌, ◌++◌, arith,
  if◌then◌else◌, ◌==◌, Bool-cases, ap, sym, ◌∙◌, inl, inr, if_both,
}
use mathlib.Core.List.{append_assoc, append-nil}
use floe_runtime.Events.{Envelope}
use floe_runtime.Events.Watch.{
  Phase, unstarted, reading, draining, awaiting, finished, Watch, Next, yielded, pending, done,
  is_finished, push, start, resume, inner, read, next,
}

-- A schedule: the consumer reads, or the runtime publishes an envelope.
pub data Action (D : Type 0) : Type 0 where
  pull : Action D
  arrive : Envelope D → Action D

module _ {D : Type 0} where
  abbrev gap_list : Option (Envelope D) → List (Envelope D)
  gap_list none = []
  gap_list (some g) = g ∷ []

  abbrev remaining_at : Watch D → Phase D → List (Envelope D)
  remaining_at w unstarted = gap_list w.gap ++ w.backlog ++ w.queue
  remaining_at w (reading es) = es ++ w.queue
  remaining_at w draining = w.queue
  remaining_at w awaiting = w.queue
  remaining_at w finished = []

  -- What an open feed has yet to yield.
  abbrev pub remaining : Watch D → List (Envelope D)
  remaining w = remaining_at w w.phase

  -- The feed is not closed, and it waits only while there is nothing to yield.
  pub record IsOpen (w : Watch D) : Type 0 where
    pub still_open : w.closed ≡ false
    pub running : is_finished w.phase ≡ false
    pub idle : w.waiting ≡ true → w.queue ≡ []

  abbrev out : Next D → List (Envelope D)
  out (yielded e) = e ∷ []
  out pending = []
  out done = []

  unfoldable pub step : Watch D → Action D → Watch D × List (Envelope D)
  step w pull = let (w', n) = next w in (w', out n)
  step w (arrive e) = (push w e, [])

  unfoldable pub run : Watch D → List (Action D) → Watch D × List (Envelope D)
  unfolding step
  run w [] = (w, [])
  run w (a ∷ rest) = let (w', x) = step w a in let (w'', ys) = run w' rest in (w'', x ++ ys)

  abbrev concerns : String → Envelope D → Bool
  concerns c e = e.conversation_id == c

  -- The envelopes of the conversation that a schedule publishes.
  abbrev pub arrivals : String → List (Action D) → List (Envelope D)
  arrivals c [] = []
  arrivals c (pull ∷ rest) = arrivals c rest
  arrivals c (arrive e ∷ rest) = if concerns c e then e ∷ arrivals c rest else arrivals c rest

  -- A read waits only when nothing is left, and an open feed does not end.
  abbrev Answers : Watch D → Next D → Type 0
  Answers w (yielded e) = Unit {0}
  Answers w pending = remaining w ≡ []
  Answers w done = ⊥

  -- One action keeps the order: what it yields, and what is then left, is what was left before.
  abbrev Keeps : Watch D → List (Envelope D) → Watch D × Next D → Type 0
  Keeps w q r =
      (out r.1 ++ remaining r.0 ≡ q)
      × IsOpen r.0
      × (r.0.conversation_id ≡ w.conversation_id)
      × Answers r.0 r.1

  inner-Keeps :
      (w : Watch D) (q : List (Envelope D))
      → w.closed ≡ false
      → (w.waiting ≡ true → q ≡ [])
      → Keeps w q (inner w q)
  unfolding inner
  inner-Keeps w [] h i =
      if_both (Keeps w []) w.closed _ _ (λ p. absurd (cc))
        (λ p. (refl, record { still_open = h; running = refl; idle = λ _. refl }, refl, refl))
  inner-Keeps w (e ∷ es) h i =
      (refl, record { still_open = h; running = refl; idle = λ p. absurd (cc (i p)) }, refl, tt)

  read-Keeps :
      (w : Watch D) (es : List (Envelope D))
      → w.closed ≡ false
      → (w.waiting ≡ true → w.queue ≡ [])
      → Keeps w (es ++ w.queue) (read w es)
  unfolding read
  read-Keeps w [] h i =
      if_both (Keeps w w.queue) w.closed _ _ (λ p. absurd (cc)) (λ p. inner-Keeps w w.queue h i)
  read-Keeps w (e ∷ es) h i = (refl, record { still_open = h; running = refl; idle = i }, refl, tt)

  start-Keeps :
      (w : Watch D) (g : Option (Envelope D))
      → w.closed ≡ false
      → (w.waiting ≡ true → w.queue ≡ [])
      → Keeps w (gap_list g ++ w.backlog ++ w.queue) (start w g)
  start-Keeps w none h i = read-Keeps w w.backlog h i
  start-Keeps w (some g) h i = (refl, record { still_open = h; running = refl; idle = i }, refl, tt)

  resume-Keeps :
      (w : Watch D) (p : Phase D)
      → w.phase ≡ p
      → w.closed ≡ false
      → (w.waiting ≡ true → w.queue ≡ [])
      → is_finished p ≡ false
      → Keeps w (remaining_at w p) (resume w p)
  resume-Keeps w unstarted at h i f = start-Keeps w w.gap h i
  resume-Keeps w (reading es) at h i f = read-Keeps w es h i
  resume-Keeps w draining at h i f = inner-Keeps w w.queue h i
  resume-Keeps w awaiting at h i f =
      if_both (Keeps w w.queue) w.waiting _ _
        (λ p. (
          ap (remaining_at w) at,
          record { still_open = h; running = ap is_finished at; idle = i },
          refl,
          ap (remaining_at w) at ∙ i p,
        ))
        (λ p. inner-Keeps w w.queue h i)
  resume-Keeps w finished at h i f = absurd (cc)

  next-Keeps : (w : Watch D) → IsOpen w → Keeps w (remaining w) (next w)
  unfolding next
  next-Keeps w o = resume-Keeps w w.phase refl o.still_open o.idle o.running

  -- A new envelope goes behind all that is left, if it is of the feed's conversation.
  remaining_at-push :
      (w : Watch D) (q : List (Envelope D)) (b : Bool) (p : Phase D)
      → is_finished p ≡ false
      → remaining_at (record w { queue = w.queue ++ q; waiting = b }) p ≡ remaining_at w p ++ q
  remaining_at-push w q b unstarted f = simp append_assoc
  remaining_at-push w q b (reading es) f = simp append_assoc
  remaining_at-push w q b draining f = refl
  remaining_at-push w q b awaiting f = refl
  remaining_at-push w q b finished f = cc

  abbrev Pushed : Watch D → Envelope D → List (Envelope D) → Watch D → Type 0
  Pushed w e new w' =
      (remaining w' ≡ remaining w ++ new) × IsOpen w' × (w'.conversation_id ≡ w.conversation_id)

  push-Keeps :
      (w : Watch D) (e : Envelope D)
      → IsOpen w
      → (remaining (push w e)
          ≡ remaining w ++ (if concerns w.conversation_id e then e ∷ [] else []))
        × IsOpen (push w e)
        × ((push w e).conversation_id ≡ w.conversation_id)
  unfolding push
  push-Keeps w e o =
      if_both (Pushed w e (if concerns w.conversation_id e then e ∷ [] else []))
        (is_finished w.phase) _ _ (λ p. absurd (cc (o.running)))
        (λ p. elim (Bool-cases (concerns w.conversation_id e)) [
          | inl same ↦ rw same (
            remaining_at-push w (e ∷ []) false w.phase p,
            record { still_open = o.still_open; running = p; idle = λ x. cc },
            refl,
          )
          | inr other ↦ rw other (sym (append-nil (remaining w)), o, refl)
        ])

  arrivals-cons :
      (c : String) (e : Envelope D) (acts : List (Action D))
      → arrivals c (arrive e ∷ acts) ≡ (if concerns c e then e ∷ [] else []) ++ arrivals c acts
  arrivals-cons c e acts = ground arith

  -- However reads and publications interleave, an open feed yields the gap envelope if there is one,
  -- then the backlog, then exactly the envelopes published for its conversation, each once and in
  -- the order of publication; what it has not yielded yet is what it still holds.
  pub run-keeps_order :
      (w : Watch D) (acts : List (Action D))
      → IsOpen w
      → ((run w acts).1 ++ remaining (run w acts).0
          ≡ remaining w ++ arrivals w.conversation_id acts)
        × IsOpen (run w acts).0
  unfolding run
  run-keeps_order w [] o = (sym (append-nil (remaining w)), o)
  run-keeps_order w (pull ∷ acts) o =
      let (k, o', c, _) = next-Keeps w o in
      let (ih, o'') = run-keeps_order (next w).0 acts o' in
      (
        append_assoc (out (next w).1) _ _
            ∙ ap (◌++◌ (out (next w).1)) ih
            ∙ sym (append_assoc (out (next w).1) _ _)
            ∙ ap (λ t. t ++ arrivals (next w).0.conversation_id acts) k
            ∙ ap (λ t. remaining w ++ arrivals t acts) c,
        o'',
      )
  run-keeps_order w (arrive e ∷ acts) o =
      let (k, o', c) = push-Keeps w e o in
      let (ih, o'') = run-keeps_order (push w e) acts o' in
      let new : List (Envelope D) = if concerns w.conversation_id e then e ∷ [] else [] in
      (
        ih
            ∙ ap (λ t. t ++ arrivals (push w e).conversation_id acts) k
            ∙ ap (λ t. remaining w ++ new ++ arrivals t acts) c
            ∙ append_assoc (remaining w) new (arrivals w.conversation_id acts)
            ∙ ap (◌++◌ (remaining w)) (sym (arrivals-cons w.conversation_id e acts)),
        o'',
      )

  first_out :
      (w : Watch D) (n : Next D) (e : Envelope D) (es : List (Envelope D))
      → Answers w n
      → out n ++ remaining w ≡ e ∷ es
      → n ≡ yielded e
  first_out w (yielded x) e es a h = cc
  first_out w pending e es a h = cc
  first_out w done e es a h = absurd a

  -- An open feed is not stuck: while it holds something, a read yields the first of it.
  pub next_yields :
      (w : Watch D) (e : Envelope D) (es : List (Envelope D))
      → IsOpen w
      → remaining w ≡ e ∷ es
      → (next w).1 ≡ yielded e
  next_yields w e es o h =
      let (k, _, _, a) = next-Keeps w o in first_out (next w).0 (next w).1 e es a (k ∙ h)

  -- As many reads as there are envelopes, and one more.
  abbrev pub pulls : List (Envelope D) → List (Action D)
  pulls [] = pull ∷ []
  pulls (e ∷ es) = pull ∷ pulls es

  -- A feed that reads its backlog when the connection is lost yields the rest of the backlog and then
  -- ends, whatever stands in its queue: what was published while the backlog was read is not yielded.
  pub lost_drops_queue :
      (w : Watch D) (es : List (Envelope D))
      → w.phase ≡ reading es
      → w.closed ≡ true
      → ((run w (pulls es)).1 ≡ es) × ((run w (pulls es)).0.phase ≡ finished)
  unfolding run next read
  lost_drops_queue w [] h c = rw (h, c) (refl, refl)
  lost_drops_queue w (e ∷ es) h c =
      let ih = lost_drops_queue (record w { phase = reading es }) es refl c in
      rw h (ap (◌∷◌ e) ih.0, ih.1)
