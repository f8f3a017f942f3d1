-- ===== src/Copilot/Tests.antt =====
-- Runs of the Copilot adapter's model, and its theorems on concrete inputs.
use floe_runtime.Prelude.{◌≡◌, refl, ◌↔◌, String, true, false, Option, none, some, List, [], ◌∷◌}
use floe_runtime.Prelude.Map
use floe_runtime.Errors.{Result, ok}
use floe_runtime.LoginSources.{app}
use floe_runtime.LoginSources.Discovery.{Auth}
use package.floe_runtime.Copilot.Turn.{message, session_idle, Task, new_task}
use package.floe_runtime.Copilot.Ends.{
  Happening, occurs, sends, is_sent, stalls, stall_waits, run_turn,
}
use package.floe_runtime.Copilot.Turns.{run_turn-Sound}
use package.floe_runtime.Copilot.Settles.{Sound}
use package.floe_runtime.Copilot.Identity.{
  Expected, answered, assert_account, Matches, assert_account-Matches,
}
use package.floe_runtime.Copilot.Catalogue.{
  Catalogue, requested, assert_model_choice, Listed, Suited, assert_model_choice-passes,
}
use package.floe_runtime.Copilot.Sessions.{Settings, Sessions, Adapter, World}
use package.floe_runtime.Copilot.Obtain.{Continuation}
use package.floe_runtime.Copilot.Prompt.{prompt_text, prompt_options}
use package.floe_runtime.Copilot.Run.{Run, Turn, run, Begun, run-Begun}

abbrev as_report : String → Result String
as_report t = ok t

abbrev quick_turn : List Happening
quick_turn =
    sends
    ∷ is_sent
    ∷ occurs (message (some "Done.") (some "stop"))
    ∷ occurs (session_idle false)
    ∷ stalls
    ∷ stall_waits
    ∷ []

run_turn-Sound_example : Sound (run_turn as_report quick_turn (new_task "turn-1" none))
run_turn-Sound_example = run_turn-Sound as_report "turn-1" none quick_turn

abbrev with_shell : Task String
with_shell = record (new_task "turn-1" none) { activities = ("call-1", "bash") ∷ [] }

abbrev aborted : List Happening
aborted = occurs (session_idle true) ∷ []

abbrev same_letters : String → String
same_letters t = t

abbrev mona : Expected
mona = record { label = "mona"; host = none }

abbrev signed : Auth
signed = record { is_authenticated = true; auth_type = "user"; login = some "mona"; host = none }

abbrev own_login : Auth → Option String
own_login u = u.login

assert_account-Matches_example :
    (assert_account same_letters mona app own_login (answered signed) ≡ ok tt)
    ↔ Matches same_letters mona app own_login (answered signed)
assert_account-Matches_example =
    assert_account-Matches same_letters mona app own_login (answered signed)

abbrev one_model : Catalogue
one_model = record {
  models = record { model_id = some "m"; levels = some ("low" ∷ []); denies_effort = false } ∷ [];
  ids = "m" ∷ [];
}

assert_model_choice-passes_example :
    (assert_model_choice one_model (some "m") (some "low") requested ≡ ok tt)
    ↔ (Listed one_model (some "m") × Suited one_model (some "m") (some "low"))
assert_model_choice-passes_example =
    assert_model_choice-passes one_model (some "m") (some "low") requested

abbrev adapter : Adapter
adapter = record {
  lower = same_letters;
  expected = mona;
  source = app;
  login = own_login;
  infinite = none;
}

abbrev answers : World
answers = record {
  configure = λ t. ok tt;
  resumes = λ i. ok i;
  creates = ok "s2";
  auth = λ i. answered signed;
  prepares = λ i. ok tt;
  model_of = λ i. none;
  catalogue = ok one_model;
  set_model = λ i. ok tt;
  update_tools = λ i. true;
}

abbrev no_sessions : Sessions
no_sessions = record { objects = []; contexts = []; registry = []; turns = []; disconnected = [] }

abbrev plain_run : Settings
plain_run = record { has_model = false; effort = none; infinite = none }

abbrev from_s1 : Continuation
from_s1 = record { session_id = some "s1"; resumable = true }

abbrev first_run : Run
first_run = record {
  key = "k";
  cwd = "/w";
  model = some "m";
  settings = plain_run;
  input = prompt_text "Hello.";
  continuation = from_s1;
}

abbrev first_turn : Turn
first_turn = record {
  session_id = "s1";
  reused = true;
  prompt = record { text = "Hello."; attachments = [] };
}

-- Another call starts a turn of another session while the run waits.
abbrev busy_elsewhere : Sessions → Sessions
busy_elsewhere s = record s { turns = "s9" ∷ s.turns }

abbrev after_first : Sessions
after_first = (run adapter answers [] busy_elsewhere first_run no_sessions).0

runs_first :
    run adapter answers [] busy_elsewhere first_run no_sessions ≡ (after_first, ok first_turn)
unfolding run Map.get assert_model_choice prompt_options assert_account
runs_first = refl

run-Begun_example : Begun adapter answers [] first_run no_sessions first_turn
run-Begun_example =
    run-Begun adapter answers [] first_run no_sessions busy_elsewhere after_first first_turn
      runs_first
