-- ===== src/CopilotTools/Selection.antt =====
-- The manifest of governed built-ins, and `resolveCopilotToolSelection`.
use floe_runtime.Prelude.{
  String, Bool, true, false, Option, none, some, List, [], ◌∷◌, ◌++◌, map, if◌then◌else◌, ◌==◌,
  ◌||◌, includes, keep_if, is_some,
}
use floe_runtime.Prelude.Map
use floe_runtime.Prelude.Map.{Map, keys}
use floe_runtime.Errors.{◌⧺◌}
use floe_runtime.Texts.{after_prefix, is_blank, has_char, up_to, sort}
use floe_runtime.CopilotTools.Patch.{Attempt, returned, ◌>>=◌, raise}
use floe_runtime.CopilotTools.Facts.{Descriptor}

abbrev pub both_catalogs : List String
both_catalogs = "default" ∷ "codex" ∷ []

abbrev pub described : String → List String → Descriptor
described operation cs = record { operation_id = operation; catalogs = cs }

-- `platformManifest`
unfoldable pub platform_manifest : String → Map Descriptor
platform_manifest shell =
    (shell, described "engine.tool.process.execute" both_catalogs)
    ∷ ("read_" ⧺ shell, described "engine.tool.process.execute" both_catalogs)
    ∷ ("stop_" ⧺ shell, described "engine.tool.process.execute" both_catalogs)
    ∷ ("list_" ⧺ shell, described "engine.tool.process.execute" both_catalogs)
    ∷ ("view", described "engine.tool.filesystem.read" both_catalogs)
    ∷ ("grep", described "engine.tool.filesystem.read" ("default" ∷ []))
    ∷ ("rg", described "engine.tool.filesystem.read" ("codex" ∷ []))
    ∷ ("glob", described "engine.tool.filesystem.read" both_catalogs)
    ∷ ("create", described "engine.tool.filesystem.write" ("default" ∷ []))
    ∷ ("edit", described "engine.tool.filesystem.write" ("default" ∷ []))
    ∷ ("apply_patch", described "engine.tool.filesystem.write" ("codex" ∷ []))
    ∷ ("web_fetch", described "engine.tool.network.fetch" both_catalogs)
    ∷ []

-- `COPILOT_BUILTIN_TOOL_MANIFEST[platform] || {}`
unfoldable pub manifest_of : String → Map Descriptor
unfolding platform_manifest
manifest_of platform =
    if platform == "win32"
    then platform_manifest "powershell"
    else if platform == "linux"
    then platform_manifest "bash"
    else []

unfoldable pub governed_builtins : String → List String
unfolding manifest_of sort
governed_builtins platform = sort (keys (manifest_of platform))

abbrev pub selection_fault {ℓ} : {V : Type ℓ} → String → Attempt V
selection_fault m = raise "copilot_tool_selection_invalid" m

-- The first loop: the names of the custom tools.
unfoldable pub register_tools : Map Descriptor → List String → List String → Attempt (List String)
register_tools manifest names [] = returned names
register_tools manifest names (t ∷ ts) =
    if includes names t
    then selection_fault ("Copilot tool '" ⧺ t ⧺ "' is registered more than once.")
    else if is_some (Map.get manifest t)
    then selection_fault ("Custom tool '" ⧺ t ⧺ "' conflicts with a governed Copilot built-in.")
    else register_tools manifest (names ++ t ∷ []) ts

-- A member of `availableTools`; one that is no text has the text that `String` makes of it.
pub data Filter : Type 0 where
  text : String → Filter
  not_text : String → Filter

pub data Available : Type 0 where
  unset not_array : Available
  entries : List Filter → Available

abbrev pub default_filters : List String → List String → List Filter
default_filters builtins names =
    map (λ n. text ((if includes names n then "custom:" else "builtin:") ⧺ n)) (builtins ++ names)

abbrev pub requested : List String → List String → Available → Attempt (List Filter)
requested builtins names unset = returned (default_filters builtins names)
requested builtins names not_array =
    selection_fault "Copilot availableTools must be an exact array."
requested builtins names (entries fs) = returned fs

-- The source of an entry, true for a custom tool, and the name: the part up to a second colon.
abbrev unqualified : List String → String → Attempt (Bool × String)
unqualified names entry =
    if has_char b':' entry
    then selection_fault ("Copilot tool source in '" ⧺ entry ⧺ "' is not allowed.")
    else if includes names entry
    then returned (true, entry)
    else selection_fault (
        "Copilot built-in '" ⧺ entry
        ⧺ "' must be source-qualified and present in the pinned manifest.")

abbrev custom_source : List String → String → Option String → Attempt (Bool × String)
custom_source names entry (some rest) = returned (true, up_to b':' rest)
custom_source names entry none = unqualified names entry

abbrev qualified_source : List String → String → Option String → Attempt (Bool × String)
qualified_source names entry (some rest) = returned (false, up_to b':' rest)
qualified_source names entry none = custom_source names entry (after_prefix "custom:" entry)

unfoldable pub source_of : List String → Filter → Attempt (Bool × String)
source_of names (not_text s) =
    selection_fault ("Copilot tool filter '" ⧺ s ⧺ "' is not an exact tool name.")
source_of names (text entry) =
    if is_blank entry || has_char b'*' entry
    then selection_fault ("Copilot tool filter '" ⧺ entry ⧺ "' is not an exact tool name.")
    else qualified_source names entry (after_prefix "builtin:" entry)

-- What the loop over the entries collects.
abbrev pub Collected : Type 0
Collected = List String × Map Descriptor

abbrev add_filter : String → List String → List String
add_filter f fs = if includes fs f then fs else fs ++ f ∷ []

abbrev pub add_builtin : String → Collected → Option Descriptor → Attempt Collected
add_builtin name (fs, bs) none =
    selection_fault ("Copilot built-in '" ⧺ name ⧺ "' is not governed by the pinned manifest.")
add_builtin name (fs, bs) (some d) = returned (add_filter ("builtin:" ⧺ name) fs, Map.set bs name d)

unfoldable pub add_entry :
    Map Descriptor → List String → Collected → Bool × String → Attempt Collected
add_entry manifest names (fs, bs) (true, name) =
    if includes names name
    then returned (add_filter ("custom:" ⧺ name) fs, bs)
    else selection_fault ("Copilot custom tool '" ⧺ name ⧺ "' is not registered.")
add_entry manifest names c (false, name) = add_builtin name c (Map.get manifest name)

unfoldable pub collect : Map Descriptor → List String → Collected → List Filter → Attempt Collected
unfolding source_of add_entry
collect manifest names c [] = returned c
collect manifest names c (f ∷ fs) =
    source_of names f >>= λ s. add_entry manifest names c s >>= λ c'. collect manifest names c' fs

pub record Selection : Type 0 where
  pub filters : List String
  pub builtins : Map Descriptor
  pub custom_names : List String
  pub expected : List (String × List String)

abbrev pub catalog_names : String → Map Descriptor → List String
catalog_names catalog [] = []
catalog_names catalog ((n, d) ∷ bs) =
    if includes d.catalogs catalog then n ∷ catalog_names catalog bs else catalog_names catalog bs

abbrev pub expected_in : List String → Collected → String → String × List String
expected_in names (fs, bs) catalog =
    (catalog, sort (catalog_names catalog bs ++ keep_if (λ n. includes fs ("custom:" ⧺ n)) names))

abbrev pub selected : List String → Collected → Selection
selected names (fs, bs) = record {
  filters = fs;
  builtins = bs;
  custom_names = sort names;
  expected = map (expected_in names (fs, bs)) both_catalogs;
}

-- `excluded` says whether `excludedTools` has a member. The texts of two faults leave out the version.
unfoldable pub resolve_selection :
    (platform : String) → (tools : List String) → Available → (excluded : Bool) → Attempt Selection
unfolding governed_builtins manifest_of register_tools collect sort
resolve_selection platform tools available excluded =
    if excluded
    then selection_fault "Copilot uses an exact allowlist; excludedTools is not supported."
    else (register_tools (manifest_of platform) [] tools >>= λ names.
        requested (governed_builtins platform) names available >>= λ fs.
        collect (manifest_of platform) names ([], []) fs >>= λ c. returned (selected names c))
