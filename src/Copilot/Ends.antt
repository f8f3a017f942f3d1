-- ===== src/Copilot/Ends.antt =====
-- src/adapters/copilot.mjs: the ends of a turn that the SDK does not bring: the two timers and the answer to
-- sending the prompt; quiescence; and every order in which these and the events can happen.
use floe_runtime.Prelude.{
  String, Bool, true, false, not, Option, none, some, if◌then◌else◌, List, [], ◌∷◌, ◌&&◌,
}
use floe_runtime.Errors.{RuntimeFault, Result, ok, err, fault, check}
use package.floe_runtime.Copilot.Turn.{SdkEvent, turn, failed, Task}
use package.floe_runtime.Copilot.Task.{
  publish, arm, leave, settle, phase_of, is_none_left, handle_event, interrupt,
}

-- What can happen to a turn, in any order. A `close` or a failing `setModel` meanwhile, which disconnect the
-- session, are left out.
pub data Happening : Type 0 where
  occurs : SdkEvent → Happening
  interrupts stalls stall_waits times_out sends is_sent : Happening
  time_out_fails send_fails : RuntimeFault → Happening

abbrev is_empty_list {ℓ} : {V : Type ℓ} → List V → Bool
is_empty_list [] = true
is_empty_list (x ∷ xs) = false

-- What `quiesce` answers, with the task, and whether it marks the session as stopped.
pub record Quiesced (R : Type 0) : Type 0 where
  pub task : Task R
  pub answer : Result (Unit {0})
  pub marks_stopped : Bool

module _ {R : Type 0} where
  -- The first half of `#failStalledTask`, when the progress timer fires: the session leaves the adapter's
  -- maps and is aborted. The text of the fault leaves out the times and the last event.
  unfoldable pub stall : Task R → Task R
  stall t =
      if t.progress_timer
      then record t {
        progress_timer = false;
        released = true;
        abort_requested = true;
        stall_fault = some (fault "copilot_turn_stalled" "Copilot turn made no progress." 504);
      }
      else t

  abbrev pub fail_stalled : Option RuntimeFault → Task R → Task R
  fail_stalled none t = t
  fail_stalled (some f) t = settle (err f) (publish (turn failed (some f.fault_code)) (leave t))

  -- The second half, after the wait for the turn to end.
  unfoldable pub stalled : Task R → Task R
  stalled t = if t.finished then t else fail_stalled t.stall_fault t

  -- The timer of `run` fires: the turn is interrupted.
  unfoldable pub time_out : Task R → Task R
  unfolding interrupt
  time_out t = if t.timer then interrupt (record t { timer = false; timed_out = true }) else t

  -- The interruption fails, or the turn does not end in time.
  unfoldable pub timed_out_with : RuntimeFault → Task R → Task R
  timed_out_with f t = if t.timed_out && not t.finished then settle (err f) (leave t) else t

  -- `run` sends the prompt, and the SDK takes it.
  unfoldable pub send : Task R → Task R
  send t = arm true t

  unfoldable pub sent : Task R → Task R
  sent t = if t.finished then t else arm false t

  -- `onStart` or sending the prompt fails.
  unfoldable pub send_failed : RuntimeFault → Task R → Task R
  send_failed f t =
      if t.finished
      then t
      else settle (err f) (publish (turn (phase_of f) (some f.fault_code)) (leave t))

  unfoldable pub happens : (String → Result R) → Happening → Task R → Task R
  unfolding handle_event interrupt stall stalled time_out timed_out_with send sent send_failed
  happens report_of (occurs e) t = handle_event report_of e t
  happens report_of interrupts t = interrupt t
  happens report_of stalls t = stall t
  happens report_of stall_waits t = stalled t
  happens report_of times_out t = time_out t
  happens report_of (time_out_fails f) t = timed_out_with f t
  happens report_of sends t = send t
  happens report_of is_sent t = sent t
  happens report_of (send_fails f) t = send_failed f t

  unfoldable pub run_turn : (String → Result R) → List Happening → Task R → Task R
  unfolding happens
  run_turn report_of [] t = t
  run_turn report_of (h ∷ hs) t = run_turn report_of hs (happens report_of h t)

  -- The wait of `quiesce` is over: the turn has settled, or the time has passed.
  unfoldable pub waited : Task R → Result (Unit {0})
  waited t =
      if is_empty_list t.settled
      then err (fault "quiescence_unknown" "Copilot did not emit session.idle after abort." 409)
      else check (is_none_left t.unverified) "quiescence_unknown"
          "Copilot stopped the turn but did not prove that the cancelled shell process tree exited. Retire the session before reporting paused."
          409

  -- `quiesce` of a session whose last turn is the task, the SDK taking the abort: `hs` happens while it waits.
  -- A turn that is no longer in the map is not asked about.
  unfoldable pub quiesce : (String → Result R) → List Happening → Task R → Quiesced R
  unfolding run_turn interrupt waited
  quiesce report_of hs t =
      let u = run_turn report_of hs (interrupt t) in
      if t.in_turns
      then record { task = u; answer = waited u; marks_stopped = not u.in_turns }
      else record { task = t; answer = ok tt; marks_stopped = true }
