-- ===== src/Copilot/Obtain.antt =====
-- src/adapters/copilot.mjs: the session that a run gets, and the sessions that are resumed and retired.
use floe_runtime.Prelude.{
  String, Bool, true, false, not, Option, none, some, if◌then◌else◌, ◌==◌, ◌&&◌, ◌||◌, includes,
  is_some,
}
use floe_runtime.Prelude.Map
use floe_runtime.Prelude.Map.{Map}
use floe_runtime.Errors.{RuntimeFault, Result, ok, err, fault, ◌>>◌}
use floe_runtime.Texts.{starts_with}
use package.floe_runtime.Copilot.Catalogue.{Checked}
use package.floe_runtime.Copilot.Sessions.{
  Settings, Context, Entry, Sessions, Adapter, World, drop, prepare_verified, infinite_of,
  same_text, track, keep_entry, then_do, present, effort_of, switch_model,
}

-- `continuation`
pub record Continuation : Type 0 where
  pub session_id : Option String
  pub resumable : Bool

pub record Got : Type 0 where
  pub session_id : String
  pub reused : Bool

abbrev pub Obtained : Type 0
Obtained = Sessions × Result Got

abbrev pub got : String → Bool → (Sessions → Sessions) → Sessions × Checked → Obtained
got i reused f (s, ok u) = (f s, ok (record { session_id = i; reused = reused }))
got i reused f (s, err e) = (s, err e)

abbrev pub differs : Option String → Option String → Bool
differs o p = present o && not (same_text o p)

abbrev pub model_in : Option Entry → Option String
model_in none = none
model_in (some e) = e.current_model

abbrev settings_in : Option Context → Settings → Settings
settings_in none t = t
settings_in (some c) t = c.settings

-- The live session keeps the setting that it was opened with.
abbrev pub as_opened : Adapter → Option Context → Settings → Settings
as_opened a none t = record t { infinite = some a.infinite }
as_opened a (some c) t = record t { infinite = some (infinite_of a c.settings) }

abbrev pub locked : Adapter → Option Context → Settings → Bool
locked a c t =
    is_some t.infinite && not (same_text (infinite_of a t) (infinite_of a (as_opened a c t)))

abbrev stop_known : Option Entry → String → Sessions → Sessions
stop_known none i s = s
stop_known (some e) i s = keep_entry i (record e { stopped = true }) s

abbrev pub stop_entry : String → Sessions → Sessions
stop_entry i s = stop_known (Map.get s.registry i) i s

abbrev pub set_context : String → Context → Sessions → Sessions
set_context i c s = record s { contexts = Map.set s.contexts i c }

abbrev pub reconfigured :
    Adapter → World → String → Option String → Context → Sessions → Sessions × Checked
reconfigured a w i model c s =
    let e = Map.get s.registry i in
    let changed = c.settings.has_model && differs model (model_in e) in
    if changed || differs c.settings.effort (effort_of e)
    then switch_model a w i (if changed then model else model_in e) c.settings.effort c s
    else elim (w.configure c.settings) [
      | err f ↦ (s, err f)
      | ok u ↦ then_do (set_context i c) (prepare_verified a w i s)
    ]

abbrev pub locked_fault : Result Got
locked_fault = err (
    fault "copilot_compaction_settings_locked"
      "Copilot fixes infiniteSessions when a session is created or resumed. Retire the session and resume it with the new setting."
      409)

-- `#getSession`, where the continuation is a live session
abbrev pub live_session :
    Adapter → World → String → Option String → String → Settings → Sessions → Obtained
live_session a w cwd model i t s =
    let c = Map.get s.contexts i in
    if includes s.turns i
    then (s, err (fault "turn_busy" "The session already has an active turn." 409))
    else if locked a c t
    then (s, locked_fault)
    else got i true (stop_entry i)
        (reconfigured a w i model (record { cwd = cwd; settings = as_opened a c t }) s)

abbrev pub opened_entry : Option String → Option String → Entry
opened_entry model effort = record {
  key = none;
  stopped = false;
  current_model = model;
  current_effort = effort;
}

abbrev pub keep_present : Option String → Option String
keep_present o = if present o then o else none

abbrev pub enter_session :
    String → String → Option String → Option String → Settings → Sessions → Sessions
enter_session i cwd model effort t s =
    keep_entry i (opened_entry (keep_present model) (keep_present effort))
      (track i (record { cwd = cwd; settings = t }) s)

abbrev pub resumed :
    Adapter → World → String → Option String → Settings → Sessions → Result String → Obtained
resumed a w cwd model t s (err e) = (s, err e)
resumed a w cwd model t s (ok i) =
    got i true (enter_session i cwd model t.effort t) (prepare_verified a w i s)

abbrev pub created : Adapter → World → String → Settings → Sessions → Result String → Obtained
created a w cwd t s (err e) = (s, err e)
created a w cwd t s (ok i) =
    got i false (track i (record { cwd = cwd; settings = t })) (prepare_verified a w i s)

abbrev pub fresh_session : Adapter → World → String → Settings → Sessions → Obtained
fresh_session a w cwd t s = created a w cwd t s (w.configure t >> w.creates)

-- The errors of resuming that are not answered with a fresh session.
abbrev pub is_final : RuntimeFault → Bool
is_final e =
    starts_with e.fault_code "copilot_tool_"
    || starts_with e.fault_code "copilot_account_"
    || e.fault_code == "copilot_auth_unverified"
    || e.fault_code == "copilot_permission_mode_unsafe"

abbrev pub or_fresh : Adapter → World → String → Settings → Obtained → Obtained
or_fresh a w cwd t (s, ok g) = (s, ok g)
or_fresh a w cwd t (s, err e) = if is_final e then (s, err e) else fresh_session a w cwd t s

abbrev pub resume_or_fresh :
    Adapter → World → String → Option String → Settings → Sessions → String → Obtained
resume_or_fresh a w cwd model t s i =
    or_fresh a w cwd t (resumed a w cwd model t s (w.configure t >> w.resumes i))

abbrev pub for_continuation :
    Adapter → World → String → Option String → Settings → Sessions → Bool → Option String → Obtained
for_continuation a w cwd model t s resumable none = fresh_session a w cwd t s
for_continuation a w cwd model t s resumable (some i) =
    if Map.has s.objects i
    then live_session a w cwd model i t s
    else if resumable
    then resume_or_fresh a w cwd model t s i
    else fresh_session a w cwd t s

-- `#getSession`
unfoldable pub get_session :
    Adapter → World → String → Option String → Settings → Continuation → Sessions → Obtained
unfolding switch_model prepare_verified
get_session a w cwd model t k s = for_continuation a w cwd model t s k.resumable k.session_id

-- `resume`
unfoldable pub resume :
    Adapter → World → String → String → Option String → Settings → Sessions → Sessions × Checked
unfolding prepare_verified
resume a w i cwd model t s = elim (w.configure t >> w.resumes i) [
  | err e ↦ (s, err e)
  | ok j ↦ then_do (enter_session i cwd model none t) (prepare_verified a w j s)
]

pub data Retired : Type 0 where
  unavailable retired_locally : Retired

-- `retire`
unfoldable pub retire : String → Sessions → Sessions × Result Retired
retire i s =
    if not (Map.has s.objects i)
    then (s, ok unavailable)
    else if includes s.turns i
    then (
      s,
      err (
          fault "quiescence_unknown" "Confirm the assignment stopped before retiring its session."
            409),
    )
    else (drop i s, ok retired_locally)
