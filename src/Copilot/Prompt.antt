-- ===== src/Copilot/Prompt.antt =====
-- src/adapters/copilot.mjs: the prompt of a run as what the SDK sends.
use floe_runtime.Prelude.{
  String, Bool, Option, none, some, if◌then◌else◌, List, [], ◌∷◌, ◌++◌, ◌==◌, ◌||◌,
}
use floe_runtime.Errors.{Result, ok, err, fault, ◌⧺◌, ◌>>=◌}

-- A block of a prompt by its type, with the members of it that are texts; `selection` is whether it has one.
pub record Block : Type 0 where
  pub kind : String
  pub text : Option String
  pub path : Option String
  pub file_path : Option String
  pub display_name : Option String
  pub selection : Option String
  pub contents : Option String
  pub mime_type : Option String

pub data PromptBlock : Type 0 where
  no_object : PromptBlock
  block : Block → PromptBlock

pub data Attachment : Type 0 where
  at_path : (kind : String) → String → Option String → Attachment
  selected : String → String → Option String → Option String → Attachment
  blob : String → String → Option String → Attachment

pub record Prompt : Type 0 where
  pub text : String
  pub attachments : List Attachment

abbrev invalid : String → String → Result Prompt
invalid code m = err (fault code m 400)

abbrev or_text : Option String → Option String
or_text none = none
or_text (some t) = if t == "" then none else some t

abbrev unsupported_block : Block → Result Prompt
unsupported_block b = invalid "unsupported_prompt_block" (
    "Copilot SDK cannot represent prompt block type '"
    ⧺ (if b.kind == "" then "unknown" else b.kind)
    ⧺ "'.")

abbrev is_path_kind : String → Bool
is_path_kind k = k == "file" || k == "directory"

abbrev is_blob_kind : String → Bool
is_blob_kind k = k == "blob" || k == "image"

abbrev attach : Prompt → Attachment → Result Prompt
attach p a = ok (record p { attachments = p.attachments ++ a ∷ [] })

abbrev add_blob : Prompt → Block → Option String → Option String → Result Prompt
add_blob p b (some d) (some m) =
    if is_blob_kind b.kind
    then attach p (blob d m (or_text b.display_name))
    else unsupported_block b
add_blob p b _ _ = unsupported_block b

abbrev add_selection : Prompt → Block → Option String → Option String → Result Prompt
add_selection p b (some f) (some d) =
    if b.kind == "selection"
    then attach p (selected f d b.selection (or_text b.text))
    else add_blob p b b.contents b.mime_type
add_selection p b _ _ = add_blob p b b.contents b.mime_type

abbrev add_path : Prompt → Block → Option String → Result Prompt
add_path p b (some path) =
    if is_path_kind b.kind
    then attach p (at_path b.kind path (or_text b.display_name))
    else add_selection p b b.file_path b.display_name
add_path p b none = add_selection p b b.file_path b.display_name

abbrev add_text : Prompt → Block → Option String → Result Prompt
add_text p b (some t) =
    if b.kind == "text" then ok (record p { text = p.text ⧺ t }) else add_path p b b.path
add_text p b none = add_path p b b.path

abbrev add_block : Prompt → PromptBlock → Result Prompt
add_block p no_object = invalid "unsupported_prompt_block" "Copilot prompt blocks must be objects."
add_block p (block b) = add_text p b b.text

abbrev add_blocks : Prompt → List PromptBlock → Result Prompt
add_blocks p [] = ok p
add_blocks p (b ∷ bs) = add_block p b >>= λ q. add_blocks q bs

-- The input of a run: a text, blocks, or neither.
pub data Input : Type 0 where
  prompt_text : String → Input
  blocks : List PromptBlock → Input
  no_prompt : Input

-- `promptOptions`
unfoldable pub prompt_options : Input → Result Prompt
prompt_options (prompt_text t) = ok (record { text = t; attachments = [] })
prompt_options (blocks (b ∷ bs)) = add_blocks (record { text = ""; attachments = [] }) (b ∷ bs)
prompt_options _ =
    invalid "invalid_prompt" "Copilot requires prompt text or supported prompt blocks."
