-- ===== src/SystemMessage.antt =====
-- src/system-message.mjs: the layers of a system message, their merge, and what each backend is sent.
-- Texts of the vendor are changed by regular expressions, which are left out: a section that filters
-- the vendor's text has the filter as a function. The texts of errors are shortened.
pub mod Replacing
use floe_runtime.Prelude.{
  ℕ, ◌≡◌, refl, String, Bool, true, false, not, Option, none, some, List, [], ◌∷◌, ◌++◌, map,
  if◌then◌else◌, or_else, ◌==◌, ◌||◌, includes, keep_if, is_some,
}
use floe_runtime.Prelude.Map
use floe_runtime.Prelude.Map.{Map, keys}
use floe_runtime.Errors.{◌⧺◌}
use floe_runtime.Json.{Value, null, bool, num, str, arr, obj, fields_of}
use floe_runtime.Texts.{is_empty}
use floe_runtime.CopilotTools.Patch.{Attempt, thrown, returned, ◌>>=◌, raise}

-- `SYSTEM_MESSAGE_SECTIONS`
abbrev pub known_sections : List String
known_sections =
    "preamble" ∷ "tone" ∷ "tool_efficiency" ∷ "identity" ∷ "code_change_rules" ∷ "guidelines"
    ∷ "safety" ∷ "environment_context" ∷ "tool_instructions" ∷ "custom_instructions"
    ∷ "runtime_instructions" ∷ "last_instructions" ∷ []

pub data Source : Type 0 where
  vendor_text removed_text : Source
  own_text : String → Source

-- `filter` is what the vendor's text goes through, if anything.
pub record Section : Type 0 where
  pub source : Source
  pub before : List String
  pub after : List String
  pub filter : Option (String → String)

abbrev pub vendor : Section
vendor = record { source = vendor_text; before = []; after = []; filter = none }

abbrev pub removed : Section
removed = record { source = removed_text; before = []; after = []; filter = none }

pub data Override : Type 0 where
  remove preserve : Override
  replace append prepend : String → Override

pub data Mode : Type 0 where
  append_mode customize_mode replace_mode : Mode

-- A layer that has been checked; `mode` and `content` may be undefined.
pub record Layer : Type 0 where
  pub mode : Option Mode
  pub content : Option String
  pub sections : Map Override

abbrev type_error {ℓ} : {V : Type ℓ} → String → Attempt V
type_error m = raise "TypeError" m

abbrev pub mode_of : String → Option Value → Attempt (Option Mode)
mode_of label none = returned none
mode_of label (some (str m)) =
    if m == "append"
    then returned (some append_mode)
    else if m == "customize"
    then returned (some customize_mode)
    else if m == "replace"
    then returned (some replace_mode)
    else type_error (label ⧺ " systemMessage mode must be append, customize or replace.")
mode_of label (some v) =
    type_error (label ⧺ " systemMessage mode must be append, customize or replace.")

abbrev pub content_of : String → Option Value → Attempt (Option String)
content_of label none = returned none
content_of label (some (str s)) = returned (some s)
content_of label (some v) = type_error (label ⧺ " systemMessage content must be a string.")

abbrev needs_action {ℓ} : {V : Type ℓ} → String → String → Attempt V
needs_action label id = type_error (label ⧺ " systemMessage section '" ⧺ id ⧺ "' needs an action.")

abbrev with_text : String → String → (String → Override) → Option Value → Attempt Override
with_text label id make (some (str s)) = returned (make s)
with_text label id make v =
    type_error (label ⧺ " systemMessage section '" ⧺ id ⧺ "' needs string content.")

abbrev action_of : String → String → String → Option Value → Attempt Override
action_of label id action content =
    if action == "remove"
    then returned remove
    else if action == "preserve"
    then returned preserve
    else if action == "replace"
    then with_text label id replace content
    else if action == "append"
    then with_text label id append content
    else if action == "prepend"
    then with_text label id prepend content
    else needs_action label id

abbrev override_at : String → String → Map Value → Option Value → Attempt Override
override_at label id fields (some (str action)) =
    action_of label id action (Map.get fields "content")
override_at label id fields v = needs_action label id

abbrev pub override_of : String → String → Value → Attempt Override
override_of label id (obj fs) =
    override_at label id (fields_of fs) (Map.get (fields_of fs) "action")
override_of label id v = needs_action label id

unfoldable pub overrides_of : String → List (String × Value) → Attempt (Map Override)
overrides_of label [] = returned []
overrides_of label ((id, v) ∷ fs) =
    override_of label id v >>= λ o. overrides_of label fs >>= λ os. returned ((id, o) ∷ os)

abbrev pub sections_of : String → Option Value → Attempt (Map Override)
sections_of label none = returned []
sections_of label (some (obj fs)) = overrides_of label (fields_of fs)
sections_of label (some v) = type_error (label ⧺ " systemMessage sections must be an object.")

-- `normalizeLayer`: `none` for undefined, and no layer for null and for the empty text.
unfoldable pub normalize_layer : String → Option Value → Attempt (Option Layer)
unfolding overrides_of
normalize_layer label none = returned none
normalize_layer label (some null) = returned none
normalize_layer label (some (str s)) =
    returned
      (if is_empty s then none else some (record { mode = none; content = some s; sections = [] }))
normalize_layer label (some (obj fs)) =
    let at = Map.get (fields_of fs) in
    mode_of label (at "mode") >>= λ m. content_of label (at "content") >>= λ c.
    sections_of label (at "sections") >>= λ os.
    returned (some (record { mode = m; content = c; sections = os }))
normalize_layer label (some v) =
    type_error (label ⧺ " systemMessage must be a string or an object.")

-- `applyOverride`
unfoldable pub apply_override : Section → Override → Section
apply_override s remove = removed
apply_override s (replace t) = record {
  source = own_text t;
  before = [];
  after = [];
  filter = none;
}
apply_override s preserve = vendor
apply_override s (append t) = record s { after = s.after ++ t ∷ [] }
apply_override s (prepend t) = record s { before = t ∷ s.before }

pub record Merged : Type 0 where
  pub sections : Map Section
  pub content : List String

abbrev pub apply_all : Map Section → Map Override → Map Section
apply_all ss [] = ss
apply_all ss ((id, o) ∷ os) =
    apply_all (Map.set ss id (apply_override (or_else (Map.get ss id) vendor) o)) os

abbrev pub remove_all : Map Section → List String → Map Section
remove_all ss [] = ss
remove_all ss (id ∷ ids) = remove_all (Map.set ss id removed) ids

-- A layer in the mode `replace` removes every known section and the earlier content.
abbrev pub cleared : Merged → Option Mode → Merged
cleared m (some replace_mode) = record {
  sections = remove_all m.sections known_sections;
  content = [];
}
cleared m mode = m

abbrev add_content : Option String → List String → List String
add_content none parts = parts
add_content (some s) parts = if is_empty s then parts else parts ++ s ∷ []

abbrev pub merge_layer : Merged → Option Layer → Merged
merge_layer m none = m
merge_layer m (some l) =
    let m' = cleared m l.mode in
    record {
      sections = apply_all m'.sections l.sections;
      content = add_content l.content m'.content;
    }

-- `mergeSystemMessageLayers`
unfoldable pub merge_layers : Merged → List (String × Option Value) → Attempt Merged
unfolding normalize_layer apply_override
merge_layers m [] = returned m
merge_layers m ((label, v) ∷ ls) =
    normalize_layer label v >>= λ l. merge_layers (merge_layer m l) ls

abbrev join : List String → String
join [] = ""
join (s ∷ []) = s
join (s ∷ t ∷ ss) = s ⧺ "\n\n" ⧺ join (t ∷ ss)

-- `joinParts`
unfoldable pub join_parts : List String → String
join_parts parts = join (keep_if (λ p. not (is_empty p)) parts)

-- What the Copilot SDK is told to do with a section.
pub data Rendered : Type 0 where
  dropped preserved : Rendered
  replaced : String → Rendered
  computed : (String → String) → Rendered

abbrev has_parts : Section → Bool
has_parts s = some_part s.before || some_part s.after
  where
    some_part : List String → Bool
    some_part [] = false
    some_part (p ∷ ps) = true

abbrev filtered : Option (String → String) → String → String
filtered none current = current
filtered (some f) current = f current

abbrev render_as : Section → Source → Rendered
render_as s removed_text =
    if has_parts s then replaced (join_parts (s.before ++ s.after)) else dropped
render_as s (own_text t) = replaced (join_parts (s.before ++ t ∷ s.after))
render_as s vendor_text =
    if is_some s.filter || has_parts s
    then computed (λ current. join_parts (s.before ++ filtered s.filter current ∷ s.after))
    else preserved

unfoldable pub render : Section → Rendered
unfolding join_parts
render s = render_as s s.source

abbrev render_all : Map Section → Map Rendered
render_all [] = []
render_all ((id, s) ∷ ss) = (id, render s) ∷ render_all ss

abbrev with_content : Merged → Map Section
with_content m = place m.content
  where
    place : List String → Map Section
    place [] = m.sections
    place (c ∷ cs) =
        let last = or_else (Map.get m.sections "last_instructions") vendor in
        Map.set m.sections "last_instructions" (record last { after = last.after ++ c ∷ cs })

-- `copilotSystemMessage`
unfoldable pub copilot_system_message : Merged → Map Rendered
unfolding render
copilot_system_message m = render_all (with_content m)

abbrev source_text : Source → List String
source_text (own_text t) = t ∷ []
source_text _ = []

abbrev parts_of : Option Section → List String
parts_of none = []
parts_of (some s) = s.before ++ source_text s.source ++ s.after

abbrev parts_at : Map Section → List String → List String
parts_at ss [] = []
parts_at ss (id ∷ ids) = parts_of (Map.get ss id) ++ parts_at ss ids

-- `appendedSystemMessage`
unfoldable pub appended_system_message : Merged → String
unfolding join_parts
appended_system_message m =
    let present = keep_if (λ id. is_some (Map.get m.sections id)) known_sections in
    let extra = keep_if (λ id. not (includes known_sections id)) (keys m.sections) in
    join_parts (parts_at m.sections (present ++ extra) ++ m.content)
