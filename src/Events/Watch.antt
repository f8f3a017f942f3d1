-- ===== src/Events/Watch.antt =====
-- `watchEvents` of src/events.mjs: the state of one live feed, the two listeners that the runtime
-- calls, and one `next()` of the generator.
use floe_runtime.Prelude.{
  ℕ, String, Bool, true, false, Option, none, some, List, [], ◌∷◌, ◌++◌, ltb, if◌then◌else◌, ◌==◌,
}
use floe_runtime.Events.{Envelope, EventLog, since}

-- Where the generator is suspended.
pub data Phase (D : Type 0) : Type 0 where
  unstarted : Phase D
  reading : List (Envelope D) → Phase D
  draining : Phase D
  awaiting : Phase D
  finished : Phase D

pub record Watch (D : Type 0) : Type 0 where
  pub conversation_id : String
  pub gap : Option (Envelope D)
  pub backlog : List (Envelope D)
  pub queue : List (Envelope D)
  pub closed : Bool
  pub waiting : Bool
  pub phase : Phase D

-- What `next()` gives: a value, a promise that is pending, or the end.
pub data Next (D : Type 0) : Type 0 where
  yielded : Envelope D → Next D
  pending : Next D
  done : Next D

module _ {D : Type 0} where
  -- The gap envelope that is yielded first; `missed` is made into a payload by `gap_payload`.
  unfoldable pub watch_events : (ℕ → D) → EventLog D → (now : ℕ) → String → ℕ → Watch D
  watch_events gap_payload log now c after =
      let (backlog, missed) = since log c after in
      record {
        conversation_id = c;
        gap =
            if ltb 0 missed
            then some (record {
              seq = after;
              conversation_id = c;
              kind = "gap";
              replay = true;
              at = now;
              payload = gap_payload missed;
            })
            else none;
        backlog = backlog;
        queue = [];
        closed = false;
        waiting = false;
        phase = unstarted;
      }

  -- The listeners are taken off when the generator ends.
  abbrev pub is_finished : Phase D → Bool
  is_finished finished = true
  is_finished _ = false

  -- `push`: the listener of 'event'. It wakes the generator if that is waiting.
  unfoldable pub push : Watch D → Envelope D → Watch D
  push w e =
      if is_finished w.phase
      then w
      else if e.conversation_id == w.conversation_id
      then record w { queue = w.queue ++ e ∷ []; waiting = false }
      else w

  -- `onLost`: the listener of 'lost'.
  unfoldable pub on_lost : Watch D → Watch D
  on_lost w = if is_finished w.phase then w else record w { closed = true; waiting = false }

  -- `while (!closed)`, with an empty queue: the generator ends or waits.
  unfoldable pub outer : Watch D → Watch D × Next D
  outer w =
      if w.closed
      then (record w { phase = finished }, done)
      else (record w { phase = awaiting; waiting = true }, pending)

  -- `while (queue.length > 0) yield queue.shift()`, and round the outer loop again.
  unfoldable pub inner : Watch D → List (Envelope D) → Watch D × Next D
  unfolding outer
  inner w [] = outer (record w { queue = [] })
  inner w (e ∷ es) = (record w { queue = es; phase = draining }, yielded e)

  -- From the backlog: the rest of it, and then the outer loop's first test.
  unfoldable pub read : Watch D → List (Envelope D) → Watch D × Next D
  unfolding inner
  read w (e ∷ es) = (record w { phase = reading es }, yielded e)
  read w [] = if w.closed then (record w { phase = finished }, done) else inner w w.queue

  abbrev pub start : Watch D → Option (Envelope D) → Watch D × Next D
  start w (some g) = (record w { phase = reading w.backlog }, yielded g)
  start w none = read w w.backlog

  abbrev pub resume : Watch D → Phase D → Watch D × Next D
  resume w unstarted = start w w.gap
  resume w (reading es) = read w es
  resume w draining = inner w w.queue
  resume w awaiting = if w.waiting then (w, pending) else inner w w.queue
  resume w finished = (w, done)

  -- One `next()`, run as far as it goes without a further event.
  unfoldable pub next : Watch D → Watch D × Next D
  unfolding read inner
  next w = resume w w.phase
