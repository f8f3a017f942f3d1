-- ===== src/Copilot/Turns.antt =====
-- src/adapters/copilot.mjs: what holds of a turn after every sequence of events, time-outs and answers.
use floe_runtime.Prelude.{
  ◌≡◌, refl, String, true, false, not, Option, none, some, if_both, List, [], ◌∷◌, ◌&&◌,
  length-append, arith,
}
use floe_runtime.Errors.{RuntimeFault, Result, err}
use package.floe_runtime.Copilot.Turn.{turn, failed, Task, new_task}
use package.floe_runtime.Copilot.Task.{interrupt, phase_of, settle, publish, leave}
use package.floe_runtime.Copilot.Ends.{
  Happening, happens, run_turn, occurs, interrupts, stalls, stall_waits, times_out, sends, is_sent,
  time_out_fails, send_fails, stall, stalled, time_out, timed_out_with, send, sent, send_failed,
  fail_stalled,
}
use package.floe_runtime.Copilot.Settles.{
  Once, Sound, armed-Sound, handle_event-Sound, arm-Once, arm-Patient, ended_turn,
}

module _ {R : Type 0} where
  interrupt-Sound : (t : Task R) → Sound t → Sound (interrupt t)
  unfolding interrupt
  interrupt-Sound t h =
      if_both Sound t.in_turns _ t (λ s. record { once = h.once; patient = h.patient }) (λ s. h)

  stall-Sound : (t : Task R) → Sound t → Sound (stall t)
  unfolding stall
  stall-Sound t h =
      if_both Sound t.progress_timer _ t
        (λ s. record {
          once = record {
            once = h.once.once;
            ended = h.once.ended;
            held = h.once.held;
            hears = h.once.hears;
            quiet = ground (arith, h.once.quiet);
          };
          patient = refl;
        })
        (λ s. h)

  left-Sound : (t : Task R) → t.progress_timer ≡ false → Once t → Sound t
  left-Sound t e h = record { once = h; patient = ground (arith, e) }

  fail_stalled-Sound :
      (o : Option RuntimeFault) (t : Task R)
      → t.finished ≡ false
      → Sound t
      → Sound (fail_stalled o t)
  fail_stalled-Sound none t e h = h
  fail_stalled-Sound (some f) t e h =
      left-Sound (fail_stalled (some f) t) refl (ended_turn failed _ _ t e h.once)

  stalled-Sound : (t : Task R) → Sound t → Sound (stalled t)
  unfolding stalled
  stalled-Sound t h =
      if_both Sound t.finished t (fail_stalled t.stall_fault t) (λ e. h)
        (λ e. fail_stalled-Sound t.stall_fault t e h)

  time_out-Sound : (t : Task R) → Sound t → Sound (time_out t)
  unfolding time_out
  time_out-Sound t h =
      if_both Sound t.timer (interrupt (record t { timer = false; timed_out = true })) t
        (λ s.
          interrupt-Sound (record t { timer = false; timed_out = true })
            (record {
              once = record {
                once = h.once.once;
                ended = h.once.ended;
                held = h.once.held;
                hears = h.once.hears;
                quiet = ground (arith, h.once.quiet);
              };
              patient = h.patient;
            }))
        (λ s. h)

  -- The one end that is not published.
  silent_end-Sound :
      (f : RuntimeFault) (t : Task R)
      → t.finished ≡ false
      → Sound t
      → Sound (settle (err f) (leave t))
  silent_end-Sound f t e h = left-Sound (settle (err f) (leave t)) refl (record {
    once = ground (arith, h.once.once, length-append t.settled (err f ∷ []), e);
    ended = ground (arith, h.once.ended, length-append t.settled (err f ∷ []));
    held = refl;
    hears = refl;
    quiet = refl;
  })

  timed_out_with-Sound : (f : RuntimeFault) (t : Task R) → Sound t → Sound (timed_out_with f t)
  unfolding timed_out_with
  timed_out_with-Sound f t h =
      if_both Sound (t.timed_out && not t.finished) (settle (err f) (leave t)) t
        (λ e. silent_end-Sound f t (ground (arith, e)) h) (λ e. h)

  send-Sound : (t : Task R) → Sound t → Sound (send t)
  unfolding send
  send-Sound t h = record { once = arm-Once true t h.once; patient = arm-Patient true t }

  sent-Sound : (t : Task R) → Sound t → Sound (sent t)
  unfolding sent
  sent-Sound t h = armed-Sound false t h.once

  send_failed-Sound : (f : RuntimeFault) (t : Task R) → Sound t → Sound (send_failed f t)
  unfolding send_failed
  send_failed-Sound f t h =
      if_both Sound t.finished t
        (settle (err f) (publish (turn (phase_of f) (some f.fault_code)) (leave t))) (λ e. h)
        (λ e. left-Sound _ refl (ended_turn (phase_of f) _ _ t e h.once))

  happens-Sound :
      (report_of : String → Result R) (e : Happening) (t : Task R)
      → Sound t
      → Sound (happens report_of e t)
  unfolding happens
  happens-Sound report_of (occurs e) t h = handle_event-Sound report_of e t h
  happens-Sound report_of interrupts t h = interrupt-Sound t h
  happens-Sound report_of stalls t h = stall-Sound t h
  happens-Sound report_of stall_waits t h = stalled-Sound t h
  happens-Sound report_of times_out t h = time_out-Sound t h
  happens-Sound report_of (time_out_fails f) t h = timed_out_with-Sound f t h
  happens-Sound report_of sends t h = send-Sound t h
  happens-Sound report_of is_sent t h = sent-Sound t h
  happens-Sound report_of (send_fails f) t h = send_failed-Sound f t h

  run_turn-keeps :
      (report_of : String → Result R) (hs : List Happening) (t : Task R)
      → Sound t
      → Sound (run_turn report_of hs t)
  unfolding run_turn
  run_turn-keeps report_of [] t h = h
  run_turn-keeps report_of (e ∷ hs) t h =
      run_turn-keeps report_of hs (happens report_of e t) (happens-Sound report_of e t h)

  -- Whatever happens to a turn, its promise is settled exactly when it is finished, and once; at most one
  -- end is published; it is in the map of turns and hears its session exactly until then; and no timer is
  -- left after it. The timer that fails a turn without progress is never set while a tool is running.
  pub run_turn-Sound :
      (report_of : String → Result R) (i : String) (effort : Option String) (hs : List Happening)
      → Sound (run_turn report_of hs (new_task i effort))
  run_turn-Sound report_of i effort hs = run_turn-keeps report_of hs (new_task i effort) (record {
    once = record { once = refl; ended = omega arith; held = refl; hears = refl; quiet = refl };
    patient = refl;
  })
