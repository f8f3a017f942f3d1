-- ===== src/Copilot/Task.antt =====
-- src/adapters/copilot.mjs: how a turn goes on and ends: events, the two timers, the answer to sending the
-- prompt, an interruption. What a final message reports, the text or what is extracted from it by the
-- input's schema, is a parameter.
use floe_runtime.Prelude.{
  String, Bool, true, false, not, Option, none, some, or_else, if◌then◌else◌, List, [], ◌∷◌, ◌++◌,
  length, ◌==◌, ◌&&◌, ◌||◌, includes, is_some,
}
use floe_runtime.Prelude.Map
use floe_runtime.Prelude.Map.{Map}
use floe_runtime.Errors.{RuntimeFault, Result, ok, err, fault, ◌⧺◌}
use package.floe_runtime.Copilot.Turn.{
  Call, Usage, aggregate_usage, SdkEvent, turn_start, message_delta, reasoning_delta, message,
  usage, tool_start, tool_complete, session_error, model_failure, session_idle, other_event, Phase,
  completed, interrupted, failed, Published, turn, stream, usage_so_far, tool, Done, Task,
}

-- `COMPLETE_FINISH_REASONS`
abbrev pub is_complete : String → Bool
is_complete r = r == "stop" || r == "end_turn" || r == "completed" || r == "success"

-- `PROCESS_EXECUTION_TOOLS`
abbrev pub is_process_tool : String → Bool
is_process_tool t = t == "bash" || t == "powershell"

abbrev pub add_id : List String → String → List String
add_id is i = if includes is i then is else is ++ i ∷ []

abbrev either {ℓ} : {A : Type ℓ} → Option A → Option A → Option A
either none b = b
either (some a) b = some a

abbrev pub is_none_left {ℓ} : {A : Type ℓ} → List A → Bool
is_none_left [] = true
is_none_left (x ∷ xs) = false

abbrev pub incomplete : Option String → Option RuntimeFault
incomplete none = none
incomplete (some r) =
    if is_complete r
    then none
    else some (fault "report_incomplete" "The Copilot response was not complete." 502)

abbrev pub phase_of : RuntimeFault → Phase
phase_of f = if f.fault_code == "interrupted" then interrupted else failed

abbrev pub used_effort : Option Usage → Option String
used_effort none = none
used_effort (some u) = u.reasoning_effort

abbrev pub title_or : String → Option String → String
title_or i n = or_else n i

abbrev pub or_same : String → Option String → String
or_same s n = or_else n s

abbrev pub process_tools : Map String → List String → List String
process_tools [] is = is
process_tools ((i, title) ∷ rest) is =
    process_tools rest (if is_process_tool title then add_id is i else is)

module _ {R : Type 0} where
  abbrev pub publish : Published → Task R → Task R
  publish p t = record t { published = t.published ++ (p ∷ []) }

  -- `#armProgressTimer`
  abbrev pub arm : (sending : Bool) → Task R → Task R
  arm s t = record t { sending = s; progress_timer = not t.finished && is_none_left t.activities }

  -- What the ends of a task share: it is finished, its timers are cleared, it leaves the map of turns and
  -- listens no more.
  abbrev pub leave : Task R → Task R
  leave t = record t {
    finished = true;
    timer = false;
    progress_timer = false;
    in_turns = false;
    subscribed = false;
  }

  abbrev pub settle : Result (Done R) → Task R → Task R
  settle r t = record t { settled = t.settled ++ (r ∷ []) }

  abbrev count_again : Task R → Option Usage
  count_again t =
      if is_some t.used then aggregate_usage t.model_calls (length t.tool_call_ids) else none

  -- The fault of a turn that has ended, the first that applies. The text of an incomplete response
  -- leaves out the reason.
  unfoldable pub end_fault : Task R → Option RuntimeFault
  end_fault t = either t.stall_fault (
      if t.aborted
      then some (fault "interrupted" "Turn was cancelled." 409)
      else either
          (elim t.session_failure [
            | none ↦ none
            | some m ↦ some (fault "session_error" (or_else m "Copilot session failed.") 502)
          ])
          (either
            (elim t.call_failure [
              | none ↦ none
              | some m ↦
                  some (fault "model_call_failure" (or_else m "Copilot model call failed.") 502)
            ])
            (incomplete t.finish_reason)))

  abbrev pub done : Task R → R → Done R
  done t r = record {
    report = r;
    text = or_else t.final_message "";
    turn_id = t.turn_id;
    stop_reason = or_else t.finish_reason "end_turn";
    effort = either (used_effort t.used) t.effort;
    items = t.items;
    used = t.used;
  }

  abbrev pub end_report : Result R → Task R → Task R
  end_report (ok r) t =
      settle (ok (done t r))
        (publish (turn completed (some (or_else t.finish_reason "end_turn"))) t)
  end_report (err e) t =
      settle (err e) (publish (turn failed (some (or_else t.finish_reason "end_turn"))) t)

  abbrev pub end_with : (String → Result R) → Option RuntimeFault → Task R → Task R
  end_with report_of (some f) t =
      settle (err f) (publish (turn (phase_of f) (some (or_else t.finish_reason f.fault_code))) t)
  end_with report_of none t = end_report (report_of (or_else t.final_message "")) t

  abbrev pub closing : Task R → Task R
  closing t = record (leave t) { stopped = true; used = count_again t }

  -- `#finishTask`
  unfoldable pub finish_task : (String → Result R) → Task R → Task R
  unfolding end_fault
  finish_task report_of t = if t.finished then t else end_with report_of (end_fault t) (closing t)

  abbrev pub publish_usage : Option Usage → Task R → Task R
  publish_usage none t = t
  publish_usage (some u) t = publish (usage_so_far u) t

  abbrev pub use_call : Call → Task R → Task R
  use_call c t =
      let calls = t.model_calls ++ c ∷ [] in
      let u = aggregate_usage calls (length t.tool_call_ids) in
      publish_usage u (record t { model_calls = calls; used = u })

  abbrev pub start_tool : SdkEvent → String → String → Task R → Task R
  start_tool e i title t =
      let ids = add_id t.tool_call_ids i in
      publish (tool i "started" title) (record t {
        items = t.items ++ e ∷ [];
        tool_call_ids = ids;
        used = if is_some t.used then aggregate_usage t.model_calls (length ids) else none;
        activities = Map.set t.activities i title;
      })

  abbrev pub complete_tool : SdkEvent → String → String → Bool → Task R → Task R
  complete_tool e i title success t =
      publish
        (tool i (if success then "completed" else "failed")
          (or_else (Map.get t.activities i) title))
        (record t { items = t.items ++ e ∷ []; activities = Map.delete t.activities i })

  unfoldable pub apply_event : (String → Result R) → SdkEvent → Task R → Task R
  unfolding finish_task
  apply_event report_of (turn_start i) t = record t { turn_id = or_same t.turn_id i }
  apply_event report_of (message_delta d) t =
      publish (stream "text" d) (record t { text = t.text ⧺ d })
  apply_event report_of (message c f) t = record t {
    final_message = c;
    text = or_same t.text c;
    finish_reason = either f t.finish_reason;
  }
  apply_event report_of (reasoning_delta d) t = publish (stream "reasoning" d) t
  apply_event report_of (usage c) t = use_call c t
  apply_event report_of (tool_start i n) t = start_tool (tool_start i n) i (title_or i n) t
  apply_event report_of (tool_complete i n s) t =
      complete_tool (tool_complete i n s) i (title_or i n) s t
  apply_event report_of (session_error m) t = record t { session_failure = some m }
  apply_event report_of (session_idle a) t = finish_task report_of (record t { aborted = a })
  apply_event report_of (model_failure m) t = record t { call_failure = some m }
  apply_event report_of other_event t = t

  abbrev pub arm_unless_finished : Bool → Task R → Task R
  arm_unless_finished s t = if t.finished then t else arm s t

  -- `#handleEvent`, where the task listens to its session.
  unfoldable pub handle_event : (String → Result R) → SdkEvent → Task R → Task R
  unfolding apply_event
  handle_event report_of e t =
      if t.subscribed then arm_unless_finished false (apply_event report_of e t) else t

  -- `interrupt`, up to `abort`
  unfoldable pub interrupt : Task R → Task R
  interrupt t =
      if t.in_turns
      then record t { abort_requested = true; unverified = process_tools t.activities t.unverified }
      else t
