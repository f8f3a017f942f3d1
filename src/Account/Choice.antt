-- ===== src/Account/Choice.antt =====
-- src/adapters/copilot-account.mjs: choosing an existing login, and forgetting the choice.
use floe_runtime.Prelude.{String, Option, none, some, if◌then◌else◌, List, [], ◌∷◌}
use floe_runtime.Errors.{Result, ok, err, fault, ◌⧺◌}
use floe_runtime.LoginSources.{
  Source, app, source_label, read_source, save_choice, clear_choice, in_sources, unavailable_for,
}
use floe_runtime.LoginSources.Discovery.{Found}
use package.floe_runtime.Account.State.{Settings, World}
use package.floe_runtime.Account.Check.{Board, check_account, discover_existing_logins}

abbrev unsupported : String → Result (World × Board)
unsupported t =
    err (fault "invalid_login_source" ("Unsupported existing Copilot login '" ⧺ t ⧺ "'.") 400)

abbrev not_saved : String → Result (World × Board)
not_saved doing =
    err (
      fault "login_choice_not_saved" ("Floe couldn't " ⧺ doing ⧺ " your Copilot login choice.") 500)

-- The world after the choice file has been written.
abbrev pub choosing : World → Source → World
choosing w s = record w { choice = save_choice s }

abbrev pub save_and_check : Settings → World → Board → Source → List Found → Result (World × Board)
save_and_check a w b s [] =
    err
      (fault "existing_login_not_found" ("Floe couldn't find a usable " ⧺ source_label s ⧺ ".") 404)
save_and_check a w b s (x ∷ xs) =
    if w.writable then ok (choosing w s, check_account a (choosing w s) b) else not_saved "save"

abbrev pub use_available :
    Settings → World → Board → Source → Option String → Result (World × Board)
use_available a w b s (some m) = err (fault "existing_login_unavailable" m 409)
use_available a w b s none = save_and_check a w b s (discover_existing_logins a w (s ∷ []))

abbrev pub use_source : Settings → World → Board → Source → Result (World × Board)
use_source a w b s =
    if in_sources s a.accepted
    then use_available a w b s (unavailable_for a.options)
    else err (
        fault "login_source_not_accepted" ("This app doesn't accept your " ⧺ source_label s ⧺ ".")
          400)

abbrev pub use_read : Settings → World → Board → String → Option Source → Result (World × Board)
use_read a w b t none = unsupported t
use_read a w b t (some app) = unsupported t
use_read a w b t (some s) = use_source a w b s

-- `useExistingLogin`, where no other check is running.
unfoldable pub use_existing_login : Settings → World → Board → String → Result (World × Board)
use_existing_login a w b t = use_read a w b t (read_source t)

-- `forgetExistingLogin`, where no other check is running.
unfoldable pub forget_existing_login : Settings → World → Board → Result (World × Board)
forget_existing_login a w b =
    if w.removable
    then (let cleared = record w { choice = clear_choice w.choice } in
        ok (cleared, check_account a cleared b))
    else not_saved "forget"
