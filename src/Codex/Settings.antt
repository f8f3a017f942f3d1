-- ===== src/Codex/Settings.antt =====
-- Overrides for a thread's next turn, and its goal: `setModel`, `setPermissions` and `setGoal` of
-- src/adapters/codex.mjs, once the server has answered.
use floe_runtime.Prelude.{String, Bool, Option, none, some, if◌then◌else◌, ◌==◌}
use floe_runtime.Prelude.Map
use floe_runtime.Prelude.Map.{Map}
use floe_runtime.Errors.{Result, ok, err, fault, ◌⧺◌}

pub record PermissionSet : Type 0 where
  pub approval_policy : String
  pub sandbox : String
  pub sandbox_policy : String

-- `PERMISSION_LEVELS`
unfoldable pub permission_level : String → Option PermissionSet
permission_level level =
    if level == "read-only"
    then some
        (record { approval_policy = "never"; sandbox = "read-only"; sandbox_policy = "readOnly" })
    else if level == "prompt"
    then some (record {
      approval_policy = "on-request";
      sandbox = "workspace-write";
      sandbox_policy = "workspaceWrite";
    })
    else if level == "allow-all"
    then some (record {
      approval_policy = "never";
      sandbox = "danger-full-access";
      sandbox_policy = "dangerFullAccess";
    })
    else none

pub record Overrides : Type 0 where
  pub models : Map String
  pub efforts : Map String
  pub permissions : Map PermissionSet
  pub goals : Map String

abbrev set_effort : String → Option String → Map String → Map String
set_effort thread none efforts = efforts
set_effort thread (some e) efforts = Map.set efforts thread e

-- `setModel`: an empty effort counts as none.
unfoldable pub set_model : Overrides → String → String → (effort : Option String) → Overrides
set_model o thread model effort = record o {
  models = Map.set o.models thread model;
  efforts = set_effort thread effort o.efforts;
}

abbrev allow_level : Overrides → String → String → Option PermissionSet → Result Overrides
allow_level o thread level none =
    err (fault "invalid_permission_level" ("Unknown permission level '" ⧺ level ⧺ "'.") 400)
allow_level o thread level (some p) = ok (record o { permissions = Map.set o.permissions thread p })

-- `setPermissions`
unfoldable pub set_permissions : Overrides → String → String → Result Overrides
unfolding permission_level
set_permissions o thread level = allow_level o thread level (permission_level level)

-- `setGoal`: `capped` says whether the caller passed a cap on credits.
abbrev goal_set : Overrides → String → Option String → Overrides
goal_set o thread none = record o { goals = Map.delete o.goals thread }
goal_set o thread (some objective) = record o { goals = Map.set o.goals thread objective }

unfoldable pub set_goal : Overrides → String → Option String → (capped : Bool) → Result Overrides
set_goal o thread objective capped =
    if capped
    then err (
        fault "capability_unsupported"
          "setGoal opts.maxCredits is not supported by the codex backend." 501)
    else ok (goal_set o thread objective)
