-- ===== src/Copilot/Compact.antt =====
-- src/adapters/copilot.mjs: `compact`, with the compaction that fails on the way. What the SDK answers is a
-- parameter. The call is taken from its start to its end, with no other between its awaits.
use floe_runtime.Prelude.{
  ℕ, String, Bool, true, false, not, Option, none, some, or_else, if◌then◌else◌, List, ◌==◌,
  includes,
}
use floe_runtime.Prelude.Map
use floe_runtime.Errors.{RuntimeFault, Result, ok, err, fault, check, ◌>>◌, ◌⧺◌}
use package.floe_runtime.Copilot.Catalogue.{Checked}
use package.floe_runtime.Copilot.Sessions.{Settings, Sessions, Adapter, World}
use package.floe_runtime.Copilot.Obtain.{resume}

-- What `history.compact` answers: an error, or its result, of which `success` is whether it is not `false`.
pub data Answer : Type 0 where
  refused : String → Answer
  compacted : (success : Bool) → (tokens messages : Option ℕ) → (summary : Option String) → Answer

-- The result of `compactResult`.
pub record Compacted : Type 0 where
  pub success : Bool
  pub tokens : Option ℕ
  pub messages : Option ℕ
  pub summary : Option String
  pub error : Option String

-- The call: the session, the directory that was passed or else recorded, the settings of a resumption, the
-- failure that the session's events report meanwhile, and the answer.
pub record Call : Type 0 where
  pub session_id : String
  pub cwd : Option String
  pub model : Option String
  pub settings : Settings
  pub failure : Option String
  pub answer : Answer

abbrev failed_with : Option String → Bool → Option String
failed_with f true = none
failed_with f false = some (or_else f "Copilot compaction failed.")

abbrev pub compact_result : Option String → Answer → Result Compacted
compact_result none (refused m) =
    err (fault "copilot_compaction_failed" ("Copilot could not compact the session: " ⧺ m) 502)
compact_result (some f) (refused m) =
    ok (record { success = false; tokens = none; messages = none; summary = none; error = some f })
compact_result f (compacted s t n text) =
    ok (record { success = s; tokens = t; messages = n; summary = text; error = failed_with f s })

abbrev not_there : String → RuntimeFault
not_there i = fault "session_unavailable" ("Copilot session '" ⧺ i ⧺ "' is unavailable.") 404

abbrev made_live : Adapter → World → Call → Option String → Sessions → Sessions × Checked
made_live a w c none s = (s, err (not_there c.session_id))
made_live a w c (some cwd) s = resume a w c.session_id cwd c.model c.settings s

abbrev compact_live : Call → Sessions × Checked → Sessions × Result Compacted
compact_live c (s, err e) = (s, err e)
compact_live c (s, ok u) = (s, compact_result c.failure c.answer)

abbrev may_compact : List String → Call → Sessions → Checked
may_compact compacting c s =
    check (not (c.session_id == "")) "session_unavailable" "compact() needs a session id." 400
    >> (check (not (includes s.turns c.session_id)) "turn_busy"
          "The session has an active turn; compact it after the turn ends." 409
        >> check (not (includes compacting c.session_id)) "compaction_busy"
            "The session is already being compacted." 409)

-- `compact`; `compacting` has the sessions that are being compacted, this one only during the call.
unfoldable pub compact :
    Adapter → World → List String → Call → Sessions → Sessions × Result Compacted
unfolding resume
compact a w compacting c s = elim (may_compact compacting c s) [
  | err e ↦ (s, err e)
  | ok u ↦
      compact_live c
        (if Map.has s.objects c.session_id then (s, ok tt) else made_live a w c c.cwd s)
]
