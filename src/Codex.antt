-- ===== src/Codex.antt =====
-- src/adapters/codex.mjs: the turns of the Codex adapter, by thread. Timers and the clock are the caller's:
-- `now` is `Date.now()`. The normalized events carry only their kind, and items only what is read of
-- them; the text of a turn that ended otherwise is shortened.
pub mod Settings
pub mod Turns
pub mod Threads
pub mod Reuse
pub mod Quiesce
pub mod Server
mod Tests
use floe_runtime.Prelude.{
  ℕ, zero, suc, ◌+◌, ◌-◌, ◌≡◌, refl, ap, String, Bool, true, false, not, Option, none, some, List,
  [], ◌∷◌, ◌++◌, ltb, if◌then◌else◌, or_else, ◌==◌, ◌&&◌, ◌||◌, includes, some_of, is_some,
}
use floe_runtime.Prelude.Map
use floe_runtime.Prelude.Map.{Map}
use floe_runtime.Errors.{RuntimeFault, Result, ok, err, fault, ◌⧺◌}

-- `text` is `none` where it is absent or empty; `failed` is what marks an item as failed.
pub record Item : Type 0 where
  pub id : String
  pub kind : String
  pub text : Option String
  pub failed : Bool

-- A turn that runs. `ticket` names its promise, and `checks_report` says whether it has a schema.
pub record Task : Type 0 where
  pub ticket : ℕ
  pub turn_id : Option String
  pub items : List Item
  pub final_text : String
  pub waiting_human : Bool
  pub wait_started : ℕ
  pub wait_ms : ℕ
  pub remaining_ms : ℕ
  pub deadline : ℕ
  pub timed : Bool
  pub last_activity : ℕ

pub data Signal : Type 0 where
  published : (thread : String) → (kind phase : String) → Signal
  resolved : (ticket : ℕ) → (report : String) → Signal
  rejected : (ticket : ℕ) → RuntimeFault → Signal
  answered : (request : String) → Signal

-- `requests` maps the id of a pending server request to its thread.
pub record Codex : Type 0 where
  pub turns : Map Task
  pub requests : Map (Option String)
  pub signals : List Signal

abbrev pub tell : Signal → Codex → Codex
tell s c = record c { signals = s ∷ c.signals }

-- How a turn ended, as `turn/completed` reports it. `usage_wall` is `USAGE_FAULT_CODES` of the error.
pub record Ending : Type 0 where
  pub status : Option String
  pub items : List Item
  pub usage_wall : Bool
  pub message : Option String

abbrev add_missing : List Item → List Item → List Item
add_missing have [] = have
add_missing have (i ∷ is) =
    add_missing (if some_of (λ j. j.id == i.id) have then have else have ++ i ∷ []) is

-- The text of the last agent message that has one.
abbrev text_of : Item → Option String
text_of i = if i.kind == "agentMessage" then i.text else none

unfoldable pub last_text : String → List Item → String
last_text found [] = found
last_text found (i ∷ is) = last_text (or_else (text_of i) found) is

abbrev is_completed : Option String → Bool
is_completed none = false
is_completed (some s) = s == "completed"

abbrev is_interrupted : Option String → Bool
is_interrupted none = false
is_interrupted (some s) = s == "interrupted"

abbrev report_turn : String → Task → Result String → Codex → Codex
report_turn thread t (ok report) c =
    tell (resolved t.ticket report) (tell (published thread "turn" "completed") c)
report_turn thread t (err f) c =
    tell (rejected t.ticket f) (tell (published thread "turn" "failed") c)

abbrev fail_turn : String → Task → Ending → Codex → Codex
fail_turn thread t e c =
    let phase = if is_interrupted e.status then "interrupted" else "failed" in
    let c' = tell (published thread "turn" phase) c in
    if e.usage_wall
    then tell
        (rejected t.ticket (
          fault "usage_limit_exceeded"
            (or_else e.message "The Codex workspace has hit its spend cap.") 402))
        (tell (published thread "budgetCeilingReached" "backend") c')
    else tell
        (rejected t.ticket (
          fault (if is_interrupted e.status then "interrupted" else "turn_failed")
            (or_else e.message "Turn ended.") 409))
        c'

-- `#completeTurn`: `extract` reads the report from the final text, by the task's schema if it has one.
unfoldable pub complete_turn : (String → Result String) → Codex → String → Task → Ending → Codex
unfolding last_text
complete_turn extract c thread t e =
    let c' = record c { turns = Map.delete c.turns thread } in
    if is_completed e.status
    then report_turn thread t (extract (last_text t.final_text (add_missing t.items e.items))) c'
    else fail_turn thread t e c'

-- A notification about a thread, by what the adapter does with it for a running turn.
pub data Notice : Type 0 where
  turn_started : Notice
  item_started : Item → Notice
  item_completed : Item → Notice
  token_usage : Notice
  stream : (kind : String) → Notice
  turn_completed : Ending → Notice
  silent : Notice

abbrev pub other_turn : Option String → Option String → Bool
other_turn (some e) (some t) = not (e == t)
other_turn _ _ = false

abbrev pub adopt : Notice → Option String → Task → Task
adopt turn_started turn t = record t { turn_id = if is_some t.turn_id then t.turn_id else turn }
adopt _ turn t = t

abbrev keep_item : Item → Task → Task
keep_item i t = record t {
  items = t.items ++ i ∷ [];
  final_text = or_else (text_of i) t.final_text;
}

-- `agentMessage` items are the final report, and no activity.
abbrev activity : String → Item → String → Codex → Codex
activity thread i phase c =
    if i.kind == "agentMessage" then c else tell (published thread "activity" phase) c

abbrev pub put : String → Task → Codex → Codex
put thread t c = record c { turns = Map.set c.turns thread t }

abbrev pub handle_notice : (String → Result String) → String → Notice → Task → Codex → Codex
handle_notice extract thread (item_started i) t c = activity thread i "started" c
handle_notice extract thread (item_completed i) t c =
    activity thread i (if i.failed then "failed" else "completed") (put thread (keep_item i t) c)
handle_notice extract thread token_usage t c = tell (published thread "usage" "") c
handle_notice extract thread (stream k) t c = tell (published thread "stream" k) c
handle_notice extract thread (turn_completed e) t c = complete_turn extract c thread t e
handle_notice extract thread turn_started t c = c
handle_notice extract thread silent t c = c

abbrev pub notify_task :
    (String → Result String)
    → (now : ℕ) → String
    → Option String
    → Notice
    → Codex
    → Option Task
    → Codex
notify_task extract now thread turn n c none = c
notify_task extract now thread turn n c (some t) =
    let t' = adopt n turn (record t { last_activity = now }) in
    let c' = put thread t' c in
    if other_turn turn t'.turn_id then c' else handle_notice extract thread n t' c'

abbrev pub report_item : String → String → Item → Codex → Codex
report_item phase thread i c =
    if i.kind == "contextCompaction" then tell (published thread "compaction" phase) c else c

-- A compaction is reported as an item, whether or not a turn runs.
abbrev pub report_compaction : String → Notice → Codex → Codex
report_compaction thread (item_started i) c = report_item "started" thread i c
report_compaction thread (item_completed i) c = report_item "completed" thread i c
report_compaction thread n c = c

-- `onNotification` up to the branch of a turn that runs: `turn` is the id of the turn that the event names.
-- An event of another turn than the task's goes no further.
unfoldable pub on_notification :
    (String → Result String) → (now : ℕ) → Codex → String → Option String → Notice → Codex
unfolding complete_turn
on_notification extract now c thread turn n =
    notify_task extract now thread turn n (report_compaction thread n c) (Map.get c.turns thread)

abbrev at_least : ℕ → ℕ → ℕ
at_least low n = if ltb n low then low else n

abbrev pub pause : (now : ℕ) → Task → Task
pause now t = if t.waiting_human then t else record t {
  wait_started = now;
  timed = false;
  remaining_ms = at_least 1000 (t.deadline - now);
  waiting_human = true;
}

abbrev change_task : (Task → Task) → String → Option Task → Codex → Codex
change_task f thread none c = c
change_task f thread (some t) c = put thread (f t) c

abbrev at_thread : (Task → Task) → Option String → Codex → Codex
at_thread f none c = c
at_thread f (some thread) c = change_task f thread (Map.get c.turns thread) c

-- `onRequest`: while a person is asked, the clock of the turn stands still.
unfoldable pub on_request : Codex → (now : ℕ) → String → Option String → Codex
on_request c now request thread =
    at_thread (pause now) thread (record c { requests = Map.set c.requests request thread })

abbrev pub unpause : (now : ℕ) → Task → Task
unpause now t =
    if t.waiting_human
    then record t {
      wait_ms = t.wait_ms + (now - t.wait_started);
      waiting_human = false;
      deadline = now + t.remaining_ms;
      timed = true;
    }
    else t

abbrev same_thread : Option String → Option String → Bool
same_thread none none = true
same_thread (some a) (some b) = a == b
same_thread _ _ = false

abbrev other_pending : String → Option String → Map (Option String) → Bool
other_pending request thread [] = false
other_pending request thread ((k, t) ∷ rs) =
    (not (k == request) && same_thread t thread) || other_pending request thread rs

abbrev respond_at : Codex → (now : ℕ) → String → Option (Option String) → Result Codex
respond_at c now request none =
    err (fault "request_expired" "The runtime prompt has expired; it cannot be answered." 409)
respond_at c now request (some thread) =
    let c' =
      if other_pending request thread c.requests then c else at_thread (unpause now) thread c in
    ok (record (tell (answered request) c') { requests = Map.delete c'.requests request })

-- `respond`: the clock runs again when the last request of the thread is answered.
unfoldable pub respond : Codex → (now : ℕ) → String → Result Codex
respond c now request = respond_at c now request (Map.get c.requests request)

abbrev disconnected : RuntimeFault
disconnected = fault "codex_disconnected" "Codex App Server disconnected." 503

abbrev reject_tasks : Map Task → List Signal → List Signal
reject_tasks [] out = out
reject_tasks ((thread, t) ∷ ts) out = reject_tasks ts (rejected t.ticket disconnected ∷ out)

-- `onLost`
unfoldable pub on_lost : Codex → Codex
on_lost c = record c { turns = []; requests = []; signals = reject_tasks c.turns c.signals }
