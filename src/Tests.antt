-- ===== src/Tests.antt =====
-- Concrete texts, sessions, layers, requests, settings and turns.
use floe_runtime.Prelude.{
  All, false, true, ℕ, ◌≡◌, refl, ◌⊎◌, ◌↔◌, String, Option, none, some, [], ◌∷◌, length,
}
use floe_runtime.Errors.{Result, ok, fnv1a, IsHexDigit, digest, hex_value, digest-is-hash}
use floe_runtime.Prelude.Map
use floe_runtime.Json.{bool, num, integer, fraction, obj, Fields, no_members, member, fields_of}
use floe_runtime.Texts.{is_empty}
use floe_runtime.CopilotTools.Patch.{returned}
use floe_runtime.SystemMessage.{Override, replace_mode, Layer, Merged, removed, merge_layer}
use floe_runtime.SystemMessage.Replacing.{merge_layer-replaces}
use floe_runtime.Permissions.Decision.{
  PermissionRequest, decides, is_offered, handle_permission, handle_permission-offered,
}
use floe_runtime.Permissions.Codex.{
  ServerRequest, Grants, allows, resolve_permission_request, resolve-Grants,
}
use floe_runtime.Compaction.{
  Ratio, IsThreshold, check_keys, normalize_infinite_sessions, normalize_infinite_sessions-checked,
}
use floe_runtime.JsonRpc.Peer.{Peer}
use floe_runtime.Runtime.{Runtime, Declined, unhandled_timeout, unhandled_timeout-once}
use floe_runtime.Codex.{Task, Codex, Notice, turn_completed, on_notification}
use floe_runtime.Codex.Turns.{Ignored, on_notification-stale}
use floe_runtime.SessionReuse.{
  SessionRegistry, Extra, set, mark_stopped, delete, clear, is_reusable, is_reusable-after_stop,
}

digest-is-hash_example :
    (length (digest (b'a' ∷ [])) ≡ 16)
    × All IsHexDigit (digest (b'a' ∷ []))
    × (hex_value (digest (b'a' ∷ [])) 0 ≡ fnv1a (b'a' ∷ []))
digest-is-hash_example = digest-is-hash (b'a' ∷ [])

abbrev key : Option String
key = some "k"

abbrev plain : Extra
plain = record { current_model_id = some "m"; current_effort = none }

abbrev no_sessions : SessionRegistry ℕ
no_sessions = []

is_reusable-after_stop_example :
    (is_reusable (set no_sessions "a" key 0 none plain) "a" "k" ≡ false)
    × ((is_reusable (mark_stopped (set no_sessions "a" key 0 none plain) "a") "a" "k" ≡ true)
        ↔ ((key ≡ none) ⊎ (key ≡ some "k")))
    × (is_reusable (delete no_sessions "a") "a" "k" ≡ false)
    × (is_reusable (clear no_sessions) "a" "k" ≡ false)
is_reusable-after_stop_example = is_reusable-after_stop no_sessions "a" "k" key 0 none plain

abbrev content_layer : Layer
content_layer = record { mode = some replace_mode; content = some "Only this."; sections = [] }

abbrev base : Merged
base = record { sections = []; content = "Before." ∷ [] }

abbrev no_overrides : Map.Map Override
no_overrides = []

no_override : Map.get no_overrides "safety" ≡ none
unfolding Map.get
no_override = refl

merge_layer-replaces_example :
    (Map.get (merge_layer base (some content_layer)).sections "safety" ≡ some removed)
    × (is_empty "Only this." ≡ false
        → (merge_layer base (some content_layer)).content ≡ "Only this." ∷ [])
merge_layer-replaces_example =
    merge_layer-replaces base no_overrides "Only this." "safety" refl no_override

abbrev asks_permission : PermissionRequest
asks_permission = record {
  session_id = some "s";
  id = "1";
  title = "ls";
  kind = "command";
  options = record { id = "accept"; decision = "allow_once"; label = "Allow once" } ∷ [];
}

abbrev sends : String
sends = handle_permission (some (λ r. decides "allow_once")) "reject_once" asks_permission

handle_permission-offered_example :
    (sends ≡ "reject_once")
    ⊎ (decides "allow_once" ≡ decides sends) × (is_offered asks_permission.options sends ≡ true)
handle_permission-offered_example =
    handle_permission-offered (λ r. decides "allow_once") "reject_once" asks_permission

abbrev command_request : ServerRequest ℕ
command_request = record {
  method = "item/commandExecution/requestApproval";
  has_command = true;
  has_file = false;
  message_id = "1";
  thread_id = some "t";
  item_id = none;
  command = some "ls";
  reason = none;
  text = none;
  available = none;
  is_tool_confirmation = false;
  is_url = false;
  permissions = none;
}

granted : Grants (resolve_permission_request command_request "allow_once")
unfolding resolve_permission_request
granted = refl

resolve-Grants_example : allows "allow_once" ≡ true
resolve-Grants_example = resolve-Grants command_request "allow_once" granted

-- Half, and all of the context.
abbrev thresholds : Fields
thresholds = member "enabled" (bool true) (
    member "backgroundCompactionThreshold" (num (fraction "0.5"))
      (member "bufferExhaustionThreshold" (num (integer false 1)) no_members))

abbrev half : String → Ratio
half t = record { negative = false; numerator = 1; denominator = 2 }

accepted :
    normalize_infinite_sessions half "infiniteSessions" (some (obj thresholds))
    ≡ returned (some (fields_of thresholds))
unfolding normalize_infinite_sessions check_keys Map.get
accepted = refl

normalize_infinite_sessions-checked_example :
    (fields_of thresholds ≡ fields_of thresholds)
    × IsThreshold half (Map.get (fields_of thresholds) "backgroundCompactionThreshold")
    × IsThreshold half (Map.get (fields_of thresholds) "bufferExhaustionThreshold")
normalize_infinite_sessions-checked_example =
    normalize_infinite_sessions-checked half "infiniteSessions" thresholds (fields_of thresholds)
      accepted

abbrev running_task : Task
running_task = record {
  ticket = 1;
  turn_id = some "new";
  items = [];
  final_text = "";
  waiting_human = false;
  wait_started = 0;
  wait_ms = 0;
  remaining_ms = 0;
  deadline = 9000;
  timed = true;
  last_activity = 0;
}

abbrev one_turn : Codex
one_turn = record { turns = ("t", running_task) ∷ []; requests = []; signals = [] }

abbrev ends : Notice
ends =
    turn_completed
      (record { status = some "completed"; items = []; usage_wall = false; message = none })

abbrev any_report : String → Result String
any_report t = ok t

task_known : Map.get one_turn.turns "t" ≡ some running_task
unfolding Map.get
task_known = refl

on_notification-stale_example :
    Ignored 7 "t" running_task ends one_turn
      (on_notification any_report 7 one_turn "t" (some "old") ends)
on_notification-stale_example =
    on_notification-stale any_report 7 "t" "old" "new" running_task one_turn ends task_known refl
      refl

abbrev asked_peer : Peer ℕ
asked_peer = record {
  command = "codex";
  unavailable_code = "codex_unavailable";
  spawned = true;
  writable = true;
  pending = [];
  awaiting_response = "7" ∷ [];
  serial = 0;
  buffer = [];
  actions = [];
}

abbrev asked_runtime : Runtime ℕ
asked_runtime = record {
  ready = true;
  closing = false;
  losing = false;
  peer = some asked_peer;
  lost_emitted = [];
}

unhandled_timeout-once_example :
    (q : Peer ℕ) × ((unhandled_timeout asked_runtime "7").peer ≡ some q)
    × Declined "7" asked_peer q
    × ((unhandled_timeout (unhandled_timeout asked_runtime "7") "7").peer ≡ some q)
unhandled_timeout-once_example = unhandled_timeout-once asked_runtime asked_peer "7" refl
