-- ===== src/Copilot/Shells.antt =====
-- src/adapters/copilot.mjs: a shell that runs when a turn is interrupted.
use floe_runtime.Prelude.{◌≡◌, String, Bool, false, [], ◌∷◌, ◌||◌}
use floe_runtime.Prelude.Map.{Map}
use floe_runtime.Errors.{Result, ok, err}
use package.floe_runtime.Copilot.Turn.{Task}
use package.floe_runtime.Copilot.Task.{is_none_left, is_process_tool}

-- One of the tools that run is a shell.
abbrev pub has_shell : Map String → Bool
has_shell [] = false
has_shell ((i, title) ∷ rest) = is_process_tool title || has_shell rest

-- An answer that the turn is not known to have stopped.
abbrev pub Unknown : Result (Unit {0}) → Type 0
Unknown (ok u) = ⊥
Unknown (err f) = f.fault_code ≡ "quiescence_unknown"

module _ {R : Type 0} where
  -- Some shell is not known to have ended.
  abbrev Doubtful : Task R → Type 0
  Doubtful t = is_none_left t.unverified ≡ false
