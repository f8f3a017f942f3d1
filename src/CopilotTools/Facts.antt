-- ===== src/CopilotTools/Facts.antt =====
-- `toolFacts` and `normalizeCopilotToolCall`: what the policy is told of a call. The digest of the
-- arguments, a SHA-256, and the copy of the raw input are left out.
use floe_runtime.Prelude.{String, Option, none, some, List, [], ◌∷◌, if◌then◌else◌, ◌==◌, ◌||◌}
use floe_runtime.Prelude.Map
use floe_runtime.Prelude.Map.{Map}
use floe_runtime.Errors.{◌⧺◌}
use floe_runtime.Json.{Value, str, arr, obj, items_of, fields_of}
use floe_runtime.Texts.{is_blank, is_empty}
use floe_runtime.CopilotTools.Patch.{
  Attempt, returned, ◌>>=◌, raise, invalid_arguments, Change, add, remove, update, parse_patch,
}

-- What a tool's own arguments add to the facts.
pub data Detail : Type 0 where
  nothing : Detail
  patched : (patch : String) → List Change → Detail
  commanded : (command : String) → Detail
  created : (text : String) → Detail
  edited : (old new : String) → Detail

-- `arguments` is `none` for undefined. A sandbox bypass is never asked for.
pub record Facts : Type 0 where
  pub paths : List String
  pub urls : List String
  pub arguments : Option Value
  pub detail : Detail

abbrev pub common : Option Value → Facts
common args = record { paths = []; urls = []; arguments = args; detail = nothing }

abbrev pub strings_of : List Value → List String
strings_of [] = []
strings_of (str s ∷ vs) = s ∷ strings_of vs
strings_of (v ∷ vs) = strings_of vs

-- `stringArray`
abbrev pub string_array : Option Value → List String
string_array (some (str s)) = s ∷ []
string_array (some (arr vs)) = strings_of (items_of vs)
string_array _ = []

-- `requireObject`: the fields of an object.
abbrev pub require_object : Option Value → String → Attempt (Map Value)
require_object (some (obj fs)) tool = returned (fields_of fs)
require_object _ tool =
    invalid_arguments ("Copilot tool '" ⧺ tool ⧺ "' did not provide object arguments.")

abbrev pub require_text : String → String → String → Attempt String
require_text s field tool =
    if is_blank s
    then invalid_arguments ("Copilot tool '" ⧺ tool ⧺ "' did not provide '" ⧺ field ⧺ "'.")
    else returned s

-- `requireString`
abbrev pub require_string : Option Value → String → String → Attempt String
require_string (some (str s)) field tool = require_text s field tool
require_string _ field tool =
    invalid_arguments ("Copilot tool '" ⧺ tool ⧺ "' did not provide '" ⧺ field ⧺ "'.")

-- `typeof value !== 'string'` throws.
abbrev pub any_string : Option Value → String → Attempt String
any_string (some (str s)) message = returned s
any_string _ message = invalid_arguments message

abbrev pub changed_paths : List Change → List String
changed_paths [] = []
changed_paths (add p content ∷ cs) = p ∷ changed_paths cs
changed_paths (remove p ∷ cs) = p ∷ changed_paths cs
changed_paths (update p none diff ∷ cs) = p ∷ changed_paths cs
changed_paths (update p (some target) diff ∷ cs) = p ∷ target ∷ changed_paths cs

abbrev patch_facts : Option Value → Attempt Facts
patch_facts (some (str patch)) = parse_patch patch >>= λ changes.
    returned (record (common (some (str patch))) {
      paths = changed_paths changes;
      detail = patched patch changes;
    })
patch_facts args = invalid_arguments "Copilot apply_patch did not provide a patch string."

abbrev with_path : String → Option Value → Map Value → Detail → Attempt Facts
with_path tool args fields d = require_string (Map.get fields "path") "path" tool >>= λ p.
    returned (record (common args) { paths = p ∷ []; detail = d })

abbrev created_facts : Option Value → Map Value → Attempt Facts
created_facts args fields = require_string (Map.get fields "path") "path" "create" >>= λ p.
    any_string (Map.get fields "file_text") "Copilot tool 'create' did not provide 'file_text'."
    >>= λ text. returned (record (common args) { paths = p ∷ []; detail = created text })

abbrev edit_message : String
edit_message = "Copilot tool 'edit' did not provide 'old_str' and 'new_str'."

abbrev edited_facts : Option Value → Map Value → Attempt Facts
edited_facts args fields = require_string (Map.get fields "path") "path" "edit" >>= λ p.
    any_string (Map.get fields "old_str") edit_message >>= λ old.
    any_string (Map.get fields "new_str") edit_message >>= λ new.
    returned (record (common args) { paths = p ∷ []; detail = edited old new })

abbrev object_facts : String → Option Value → Map Value → Attempt Facts
object_facts tool args fields =
    if tool == "powershell" || tool == "bash"
    then (require_string (Map.get fields "command") "command" tool >>= λ command.
        returned (record (common args) { detail = commanded command }))
    else if tool == "view"
    then with_path tool args fields nothing
    else if tool == "grep" || tool == "rg" || tool == "glob"
    then returned (record (common args) { paths = string_array (Map.get fields "paths") })
    else if tool == "create"
    then created_facts args fields
    else if tool == "edit"
    then edited_facts args fields
    else if tool == "web_fetch"
    then (require_string (Map.get fields "url") "url" tool >>= λ url.
        returned (record (common args) { urls = url ∷ [] }))
    else returned (common args)

-- `toolFacts`
unfoldable pub tool_facts : String → Option Value → Attempt Facts
tool_facts tool args =
    if tool == "apply_patch"
    then patch_facts args
    else (require_object args tool >>= λ fields. object_facts tool args fields)

pub record Descriptor : Type 0 where
  pub operation_id : String
  pub catalogs : List String

-- What the SDK hands to the hook. A name or an id that is no text is `none`.
pub record Input : Type 0 where
  pub tool_name : Option String
  pub tool_args : Option Value
  pub session_id : Option String
  pub working_directory : Option String

-- A normalized call.
pub record Call : Type 0 where
  pub session_id : String
  pub id : String
  pub title : String
  pub operation_id : String
  pub manifest_version : String
  pub facts : Facts

-- `a || b`, where an empty text counts as none.
abbrev pub text_or : Option String → String → String
text_or none d = d
text_or (some s) d = if is_empty s then d else s

abbrev pub manifest_version : String
manifest_version = "copilot-cli-1.0.95-win32-linux-v4"

abbrev pub governed_call :
    Input → Option String → String → String → Option Descriptor → Attempt Call
governed_call input session id tool none =
    raise "copilot_tool_not_governed"
      ("Copilot tool '" ⧺ tool ⧺ "' is not in the active governed catalog.")
governed_call input session id tool (some d) = tool_facts tool input.tool_args >>= λ facts.
    returned (record {
      session_id = text_or session (text_or input.session_id "");
      id = id;
      title = tool;
      operation_id = d.operation_id;
      manifest_version = manifest_version;
      facts = facts;
    })

abbrev pub as_value : Option String → Option Value
as_value none = none
as_value (some s) = some (str s)

-- `normalizeCopilotToolCall`: `session` is `invocation?.sessionId`.
unfoldable pub normalize_call : Map Descriptor → Input → Option String → String → Attempt Call
unfolding tool_facts
normalize_call builtins input session id =
    require_string (as_value input.tool_name) "toolName" "unknown" >>= λ tool.
    governed_call input session id tool (Map.get builtins tool)
