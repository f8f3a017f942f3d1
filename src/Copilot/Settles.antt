-- ===== src/Copilot/Settles.antt =====
-- src/adapters/copilot.mjs: a turn ends once, whatever happens in whatever order.
use floe_runtime.Prelude.{
  ℕ, ◌+◌, ◌≤◌, ◌≡◌, refl, String, Bool, true, false, not, Option, none, some, if◌then◌else◌,
  if_both, if_true, if_false, subst, sym, Bool-cases, inl, inr, or_else, List, [], ◌∷◌, ◌++◌, ◌&&◌,
  ◌||◌, length, length-append, arith,
}
use floe_runtime.Errors.{RuntimeFault, Result, ok, err}
use package.floe_runtime.Copilot.Turn.{
  SdkEvent, turn_start, message_delta, reasoning_delta, message, usage, tool_start, tool_complete,
  session_error, model_failure, session_idle, other_event, Phase, started, completed, failed, Done,
  aggregate_usage, Published, turn, stream, usage_so_far, tool, Task, Usage,
}
use package.floe_runtime.Copilot.Task.{
  is_none_left, apply_event, handle_event, finish_task, end_fault, end_with, end_report, arm,
  arm_unless_finished, closing, phase_of, publish_usage,
}

-- The publications that end a turn.
abbrev is_end : Published → ℕ
is_end (turn started r) = 0
is_end (turn p r) = 1
is_end p = 0

abbrev pub ends : List Published → ℕ
ends [] = 0
ends (p ∷ ps) = is_end p + ends ps

ends-append : (ps qs : List Published) → ends (ps ++ qs) ≡ ends ps + ends qs
ends-append [] qs = omega arith
ends-append (p ∷ ps) qs = omega (arith, ends-append ps qs)

-- The promise is settled once, when the turn is finished, and no end is published before or again. Until
-- then the turn is in the map of turns and hears its session; after it no timer is set.
pub record OnceOf (finished in_turns subscribed progress_timer timer : Bool) (settled : ℕ)
    (published : List Published) : Type 0 where
  pub once : settled ≡ (if finished then 1 else 0)
  pub ended : ends published ≤ settled
  pub held : in_turns ≡ not finished
  pub hears : subscribed ≡ not finished
  pub quiet : (finished && (progress_timer || timer)) ≡ false

one_end : (p : Phase) (s : Option String) → ends (turn p s ∷ []) ≤ 1
one_end p s = ground arith

module _ {R : Type 0} where
  abbrev pub Once : Task R → Type 0
  Once t =
      OnceOf t.finished t.in_turns t.subscribed t.progress_timer t.timer (length t.settled)
        t.published

  -- The progress timer is set only while no tool is running.
  abbrev pub Patient : Task R → Type 0
  Patient t = (t.progress_timer && not (is_none_left t.activities)) ≡ false

  ending :
      (t : Task R) (r : Result (Done R)) (ps : List Published)
      → t.finished ≡ false
      → ends ps ≤ 1
      → Once t
      → OnceOf true false false false false (length (t.settled ++ (r ∷ []))) (t.published ++ ps)
  ending t r ps f e h = record {
    once = ground (arith, h.once, length-append t.settled (r ∷ []));
    ended =
        ground
          (arith, h.once, h.ended, ends-append t.published ps, length-append t.settled (r ∷ []));
    held = refl;
    hears = refl;
    quiet = refl;
  }

  -- A publication that is no end.
  saying :
      (t : Task R) (p : Published)
      → is_end p ≡ 0
      → Once t
      → OnceOf t.finished t.in_turns t.subscribed t.progress_timer t.timer
          (length t.settled)
          (t.published ++ (p ∷ []))
  saying t p e h = record {
    once = h.once;
    ended = omega (arith, h.ended, ends-append t.published (p ∷ []), e);
    held = h.held;
    hears = h.hears;
    quiet = h.quiet;
  }

  pub ended_turn :
      (p : Phase) (s : Option String) (r : Result (Done R)) (t : Task R)
      → t.finished ≡ false
      → Once t
      → OnceOf true false false false false
          (length (t.settled ++ (r ∷ [])))
          (t.published ++ (turn p s ∷ []))
  ended_turn p s r t f h = ending t r (turn p s ∷ []) f (one_end p s) h

  end_report-Once :
      (r : Result R) (t : Task R) → t.finished ≡ false → Once t → Once (end_report r (closing t))
  end_report-Once (ok r) t f h = ended_turn completed _ _ t f h
  end_report-Once (err e) t f h = ended_turn failed _ _ t f h

  end_with-Once :
      (report_of : String → Result R) (e : Option RuntimeFault) (t : Task R)
      → t.finished ≡ false
      → Once t
      → Once (end_with report_of e (closing t))
  end_with-Once report_of none t f h =
      end_report-Once (report_of (or_else t.final_message "")) t f h
  end_with-Once report_of (some e) t f h = ended_turn (phase_of e) _ _ t f h

  finish_task-Once :
      (report_of : String → Result R) (t : Task R) → Once t → Once (finish_task report_of t)
  unfolding finish_task
  finish_task-Once report_of t h = elim (Bool-cases t.finished) [
    | inl e ↦ subst Once (sym (if_true t.finished t _ e)) h
    | inr e ↦
        subst Once (sym (if_false t.finished t _ e)) (end_with-Once report_of (end_fault t) t e h)
  ]

  publish_usage-Once : (u : Option Usage) (t : Task R) → Once t → Once (publish_usage u t)
  publish_usage-Once none t h = h
  publish_usage-Once (some u) t h = saying t (usage_so_far u) refl h

  apply_event-Once :
      (report_of : String → Result R) (e : SdkEvent) (t : Task R)
      → Once t
      → Once (apply_event report_of e t)
  unfolding apply_event
  apply_event-Once report_of (turn_start i) t h = h
  apply_event-Once report_of (message_delta d) t h = saying t (stream "text" d) refl h
  apply_event-Once report_of (message c f) t h = h
  apply_event-Once report_of (reasoning_delta d) t h = saying t (stream "reasoning" d) refl h
  apply_event-Once report_of (usage c) t h =
      let calls = t.model_calls ++ c ∷ [] in
      let u = aggregate_usage calls (length t.tool_call_ids) in
      publish_usage-Once u (record t { model_calls = calls; used = u }) h
  apply_event-Once report_of (tool_start i n) t h = saying t (tool i "started" _) refl h
  apply_event-Once report_of (tool_complete i n s) t h = saying t (tool i _ _) refl h
  apply_event-Once report_of (session_error m) t h = h
  apply_event-Once report_of (session_idle a) t h =
      finish_task-Once report_of (record t { aborted = a }) h
  apply_event-Once report_of (model_failure m) t h = h
  apply_event-Once report_of other_event t h = h

  pub arm-Once : (b : Bool) (t : Task R) → Once t → Once (arm b t)
  arm-Once b t h = record {
    once = h.once;
    ended = h.ended;
    held = h.held;
    hears = h.hears;
    quiet = ground (arith, h.quiet);
  }

  pub arm-Patient : (b : Bool) (t : Task R) → Patient (arm b t)
  arm-Patient b t = ground arith

  pub record Sound (t : Task R) : Type 0 where
    pub once : Once t
    pub patient : Patient t

  pub armed-Sound : (b : Bool) (t : Task R) → Once t → Sound (arm_unless_finished b t)
  armed-Sound b t h = elim (Bool-cases t.finished) [
    | inl e ↦
        subst Sound (sym (if_true t.finished t (arm b t) e))
          (record { once = h; patient = ground (arith, h.quiet, e) })
    | inr e ↦
        subst Sound (sym (if_false t.finished t (arm b t) e))
          (record { once = arm-Once b t h; patient = arm-Patient b t })
  ]

  pub handle_event-Sound :
      (report_of : String → Result R) (e : SdkEvent) (t : Task R)
      → Sound t
      → Sound (handle_event report_of e t)
  unfolding handle_event
  handle_event-Sound report_of e t h =
      if_both Sound t.subscribed (arm_unless_finished false (apply_event report_of e t)) t
        (λ s. armed-Sound false (apply_event report_of e t) (apply_event-Once report_of e t h.once))
        (λ s. h)
