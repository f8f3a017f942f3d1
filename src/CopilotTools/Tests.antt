-- ===== src/CopilotTools/Tests.antt =====
-- A session whose only tool is `view`, and a policy that allows every call.
use floe_runtime.Prelude.{◌≡◌, refl, true, false, Option, none, some, [], ◌∷◌}
use floe_runtime.Prelude.Map
use floe_runtime.Json.{Value, str, obj, no_members, member}
use floe_runtime.Texts.{up_to, after_prefix, is_blank, any_char, is_empty}
use floe_runtime.CopilotTools.Patch.{returned}
use floe_runtime.CopilotTools.Facts.{
  nothing, Descriptor, Input, Call, tool_facts, normalize_call, manifest_version,
}
use floe_runtime.CopilotTools.Selection.{
  Selection, described, both_catalogs, Available, entries, text, resolve_selection, manifest_of,
  platform_manifest,
}
use floe_runtime.CopilotTools.Hook.{
  answers, Policy, allow, decide_policy, decide_builtin, tool_hook, rebuild_call,
}
use floe_runtime.Texts.{sort}
use floe_runtime.CopilotTools.Session.{
  Controls, Prepared, Ready, prepare_session, prepare_session-IsExpected,
}
use floe_runtime.CopilotTools.Governed.{Approved, Rechecked, tool_hook-respects_policy}
use floe_runtime.CopilotTools.Manifest.{normalize_call-governed}

abbrev reading : Descriptor
reading = described "engine.tool.filesystem.read" both_catalogs

abbrev selection : Selection
selection = record {
  filters = "builtin:view" ∷ [];
  builtins = ("view", reading) ∷ [];
  custom_names = [];
  expected = [];
}

abbrev yes_policy : Policy
yes_policy c =
    answers (record {
      decision = some "allow_once";
      printed = "allow_once";
      rule_id = none;
      reason = none;
    })

abbrev view_args : Option Value
view_args = some (obj (member "path" (str "/work") no_members))

abbrev view_input : Input
view_input = record {
  tool_name = some "view";
  tool_args = view_args;
  session_id = none;
  working_directory = none;
}

abbrev view_call : Call
view_call = record {
  session_id = "";
  id = "call";
  title = "view";
  operation_id = "engine.tool.filesystem.read";
  manifest_version = manifest_version;
  facts = record { paths = "/work" ∷ []; urls = []; arguments = view_args; detail = nothing };
}

view_normalized : normalize_call selection.builtins view_input none "call" ≡ returned view_call
unfolding normalize_call tool_facts is_blank any_char is_empty Map.get
view_normalized = refl

view_allowed : tool_hook selection (some yes_policy) none view_input none "call" ≡ allow none
unfolding tool_hook decide_builtin decide_policy normalize_call tool_facts is_blank any_char
    is_empty Map.get
view_allowed = refl

tool_hook-respects_policy_example :
    (c : Call) × (normalize_call selection.builtins view_input none "call" ≡ returned c)
    × Approved yes_policy c
    × Rechecked yes_policy (rebuild_call selection view_input none "call") none
tool_hook-respects_policy_example =
    tool_hook-respects_policy selection yes_policy none view_input none "call" none refl
      view_allowed

abbrev view_only : Available
view_only = entries (text "builtin:view" ∷ [])

abbrev linux_selection : Selection
linux_selection = record {
  filters = "builtin:view" ∷ [];
  builtins = ("view", reading) ∷ [];
  custom_names = [];
  expected = ("default", "view" ∷ []) ∷ ("codex", "view" ∷ []) ∷ [];
}

linux_resolved : resolve_selection "linux" [] view_only false ≡ returned linux_selection
unfolding resolve_selection is_blank any_char is_empty Map.get platform_manifest up_to after_prefix
    Map.set
linux_resolved = refl

normalize_call-governed_example :
    (d : Descriptor) × (Map.get (manifest_of "linux") view_call.title ≡ some d)
    × (view_call.operation_id ≡ d.operation_id)
    × (view_input.tool_name ≡ some view_call.title)
normalize_call-governed_example =
    normalize_call-governed "linux" [] view_only false linux_selection view_input none "call"
      view_call linux_resolved view_normalized

abbrev view_session : Selection
view_session = record selection { expected = ("default", "view" ∷ []) ∷ [] }

abbrev controls : Controls
controls = record {
  present = true;
  success = none;
  mode = some "manual";
  tools = some (some "view" ∷ some "view" ∷ []);
}

abbrev prepared : Prepared
prepared = record { catalog = some "default"; tools = "view" ∷ [] }

session_prepared : prepare_session view_session controls ≡ returned prepared
unfolding prepare_session sort is_empty
session_prepared = refl

prepare_session-IsExpected_example : Ready view_session controls prepared
prepare_session-IsExpected_example =
    prepare_session-IsExpected view_session controls prepared session_prepared
