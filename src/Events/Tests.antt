-- ===== src/Events/Tests.antt =====
-- Concrete logs and feeds.
use floe_runtime.Prelude.{ℕ, ◌+◌, ◌≡◌, refl, true, false, none, List, [], ◌∷◌, ◌++◌, arith, length}
use floe_runtime.Prelude.Map
use floe_runtime.Events.{Envelope, EventLog, empty_log, last_seq, push_bounded, publish, since}
use floe_runtime.Events.Log.{Numbers, IsValid, empty_log-IsValid, publish-IsValid, since-accounts}
use floe_runtime.Events.Refines.{
  Command, publishes, clears, obey_all, note_all, Refines, obey_all-Refines,
}
use floe_runtime.Events.Watch.{unstarted, reading, finished, Watch, yielded, next}
use floe_runtime.Events.Feed.{
  Action, pull, arrive, IsOpen, remaining, run, arrivals, run-keeps_order, next_yields, pulls,
  lost_drops_queue,
}

abbrev one_log : EventLog ℕ
one_log = (publish (empty_log 2) 7 "c" "delta" 5 false).0

abbrev two_log : EventLog ℕ
two_log = (publish one_log 8 "c" "delta" 6 false).0

-- Three events in a buffer of two: the first has fallen out.
abbrev three_log : EventLog ℕ
three_log = (publish two_log 9 "c" "delta" 7 false).0

one_log-IsValid : IsValid one_log
one_log-IsValid = publish-IsValid (empty_log 2) 7 "c" "delta" 5 false (empty_log-IsValid 2)

two_log-IsValid : IsValid two_log
two_log-IsValid = publish-IsValid one_log 8 "c" "delta" 6 false one_log-IsValid

three_log-IsValid : IsValid three_log
three_log-IsValid = publish-IsValid two_log 9 "c" "delta" 7 false two_log-IsValid

three_log-last : last_seq three_log "c" ≡ 3
unfolding publish Map.set Map.get
three_log-last = refl

one_missed : (since three_log "c" 1).1 ≡ 0
unfolding since publish push_bounded Map.set Map.get
one_missed = refl

since-accounts_example :
    Numbers (1 + (since three_log "c" 1).1) (since three_log "c" 1).0 (last_seq three_log "c")
    × ((since three_log "c" 1).1 + length (since three_log "c" 1).0 + 1 ≡ last_seq three_log "c")
since-accounts_example =
    since-accounts three_log "c" 1 three_log-IsValid (omega arith) (omega (arith, three_log-last))

abbrev envelope : ℕ → Envelope ℕ
envelope n = record {
  seq = n;
  conversation_id = "c";
  kind = "delta";
  replay = false;
  at = 0;
  payload = n;
}

abbrev feed : Watch ℕ
feed = record {
  conversation_id = "c";
  gap = none;
  backlog = envelope 1 ∷ [];
  queue = [];
  closed = false;
  waiting = false;
  phase = unstarted;
}

feed-IsOpen : IsOpen feed
feed-IsOpen = record { still_open = refl; running = refl; idle = λ p. refl }

-- The event 2 arrives before the backlog is read.
abbrev schedule : List (Action ℕ)
schedule = arrive (envelope 2) ∷ pull ∷ pull ∷ []

run-keeps_order_example :
    ((run feed schedule).1 ++ remaining (run feed schedule).0
      ≡ remaining feed ++ arrivals "c" schedule)
    × IsOpen (run feed schedule).0
run-keeps_order_example = run-keeps_order feed schedule feed-IsOpen

next_yields_example : (next feed).1 ≡ yielded (envelope 1)
next_yields_example = next_yields feed (envelope 1) [] feed-IsOpen refl

-- The connection was lost while event 2 waited behind the backlog.
abbrev lost_feed : Watch ℕ
lost_feed = record feed {
  queue = envelope 2 ∷ [];
  closed = true;
  phase = reading (envelope 1 ∷ []);
}

lost_drops_queue_example :
    ((run lost_feed (pulls (envelope 1 ∷ []))).1 ≡ envelope 1 ∷ [])
    × ((run lost_feed (pulls (envelope 1 ∷ []))).0.phase ≡ finished)
lost_drops_queue_example = lost_drops_queue lost_feed (envelope 1 ∷ []) refl refl

abbrev commands : List (Command ℕ)
commands =
    publishes 1 "c" "delta" 5 false
    ∷ publishes 2 "d" "delta" 6 false
    ∷ publishes 3 "c" "delta" 7 false
    ∷ clears "d"
    ∷ []

obey_all-Refines_example : Refines (obey_all commands (empty_log 1)) (note_all commands (λ c. []))
obey_all-Refines_example = obey_all-Refines 1 commands
