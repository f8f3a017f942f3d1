-- ===== src/Codex/Tests.antt =====
-- Runs of the Codex adapter's threads, and their theorems on concrete inputs.
use floe_runtime.Prelude.{◌≡◌, refl, true, false, none, some, [], ◌∷◌}
use floe_runtime.Prelude.Map
use floe_runtime.Errors.{ok}
use package.floe_runtime.Codex.Threads.{Threads, Thread, Request, World, Got, obtain}
use package.floe_runtime.Codex.Reuse.{Basis, obtain-Basis}
use package.floe_runtime.Codex.Quiesce.{Page, Stopping, quiesce, AtRest, quiesce-AtRest}

abbrev idle_thread : Thread
idle_thread = record { id = "t1"; status = some "idle"; ephemeral = false; in_progress = [] }

abbrev one_thread : Threads
one_thread = record { sessions = ("t1", record { key = none; stopped = true }) ∷ []; turns = [] }

abbrev go_on : Request
go_on = record { key = "k"; scoped = true; ephemeral = false; thread_id = some "t1" }

abbrev server : World
server = record { reads = λ i. ok idle_thread; starts = ok idle_thread }

abbrev same_thread : Got
same_thread = record { thread_id = "t1"; reused = true }

abbrev after_run : Threads
after_run = record {
  sessions = ("t1", record { key = some "k"; stopped = false }) ∷ [];
  turns = "t1" ∷ [];
}

goes_on_with_t1 : obtain go_on server one_thread ≡ (after_run, ok same_thread)
unfolding obtain Map.get Map.set
goes_on_with_t1 = refl

obtain-Basis_example : Basis go_on server one_thread same_thread
obtain-Basis_example = obtain-Basis go_on server one_thread after_run same_thread goes_on_with_t1

abbrev nothing_left : Page
nothing_left = record { terminals = some []; next = none }

abbrev quick_stop : Stopping
quick_stop = record {
  interrupts = ok tt;
  settles = true;
  first = ok idle_thread;
  interrupts_each = ok tt;
  reports_idle = true;
  second = ok idle_thread;
  pages = ok (record { terminals = some ("p" ∷ []); next = none }) ∷ [];
  terminates = ok tt;
  last = ok nothing_left;
}

abbrev at_rest : Threads
at_rest = record {
  sessions = ("t1", record { key = some "k"; stopped = true }) ∷ [];
  turns = "t1" ∷ [];
}

quiesces_t1 : quiesce quick_stop "t1" after_run ≡ (at_rest, ok tt)
unfolding quiesce Map.get Map.set
quiesces_t1 = refl

quiesce-AtRest_example : AtRest quick_stop "t1" after_run at_rest
quiesce-AtRest_example = quiesce-AtRest quick_stop "t1" after_run at_rest tt quiesces_t1
