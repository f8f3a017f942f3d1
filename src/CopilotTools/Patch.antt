-- ===== src/CopilotTools/Patch.antt =====
-- `parsePatch`: the text of an `apply_patch` call, line by line. The loops of the source take lines from
-- the front; here each line is read once, and a state says which loop it falls to.
use floe_runtime.Prelude.{
  String, Bool, true, Option, none, some, List, [], ◌∷◌, ◌++◌, if◌then◌else◌, ◌==◌, ◌||◌, every,
}
use floe_runtime.Errors.{◌⧺◌}
use floe_runtime.Texts.{
  after_prefix, starts_with, any_char, ends_line, is_blank, is_empty, unify_lines, split_newlines,
}

-- The errors of this module carry a code and no status.
pub record ToolFault : Type 0 where
  pub fault_code : String
  pub message : String

pub data Attempt {ℓ} (V : Type ℓ) : Type ℓ where
  thrown : ToolFault → Attempt V
  returned : V → Attempt V

infixl 5 ◌>>=◌
abbrev pub ◌>>=◌ {ℓ κ} : {V : Type ℓ} {W : Type κ} → Attempt V → (V → Attempt W) → Attempt W
thrown problem >>= next = thrown problem
returned value >>= next = next value

abbrev pub raise {ℓ} : {V : Type ℓ} → String → String → Attempt V
raise c m = thrown (record { fault_code = c; message = m })

abbrev pub invalid_arguments {ℓ} : {V : Type ℓ} → String → Attempt V
invalid_arguments m = raise "copilot_tool_arguments_invalid" m

-- The lines of an added file, or of a diff, are in order.
pub data Change : Type 0 where
  add : (path : String) → (content : List String) → Change
  remove : (path : String) → Change
  update : (path : String) → (move_to : Option String) → (diff : List String) → Change

-- Which loop reads the next line: that over the hunks, that of an added file, or that of an updated
-- file, of which the first line may still name a new path.
pub data Hunk : Type 0 where
  between : Hunk
  adding : (path : String) → (content : List String) → Hunk
  renaming : (path : String) → Hunk
  updating : (path : String) → (move_to : Option String) → (diff : List String) → Hunk

abbrev pub end_marker : String
end_marker = "*** End Patch"

-- The path of `/^\*\*\* … File: (.+)$/`
abbrev pub header_path : Option String → Option String
header_path none = none
header_path (some p) = if is_empty p || any_char ends_line p then none else some p

abbrev pub path_after : String → String → Option String
path_after prefix line = header_path (after_prefix prefix line)

abbrev open_update : String → Option String → Attempt Hunk
open_update line (some p) = returned (renaming p)
open_update line none =
    invalid_arguments ("Copilot apply_patch contains an unknown hunk: '" ⧺ line ⧺ "'.")

abbrev open_delete : String → List Change → Option String → Attempt (List Change × Hunk)
open_delete line done (some p) = returned (done ++ remove p ∷ [], between)
open_delete line done none =
    open_update line (path_after "*** Update File: " line) >>= λ h. returned (done, h)

abbrev open_add : String → List Change → Option String → Attempt (List Change × Hunk)
open_add line done (some p) = returned (done, adding p [])
open_add line done none = open_delete line done (path_after "*** Delete File: " line)

-- A line that begins a hunk.
unfoldable pub open_hunk : List Change → String → Attempt (List Change × Hunk)
open_hunk done line = open_add line done (path_after "*** Add File: " line)

-- The end of a hunk's own loop: an empty hunk is refused.
unfoldable pub close_hunk : List Change → Hunk → Attempt (List Change)
close_hunk done between = returned done
close_hunk done (adding p []) = invalid_arguments "Copilot apply_patch add hunk is empty."
close_hunk done (adding p (l ∷ ls)) = returned (done ++ add p (l ∷ ls) ∷ [])
close_hunk done (renaming p) = invalid_arguments "Copilot apply_patch update hunk is empty."
close_hunk done (updating p m []) = invalid_arguments "Copilot apply_patch update hunk is empty."
close_hunk done (updating p m (l ∷ ls)) = returned (done ++ update p m (l ∷ ls) ∷ [])

-- Does the line end the hunk's own loop?
unfoldable pub leaves : Hunk → String → Bool
leaves between line = true
leaves (adding p ls) line = starts_with line "*** "
leaves (renaming p) line =
    line == end_marker
    || starts_with line "*** Add File: "
    || starts_with line "*** Delete File: "
    || starts_with line "*** Update File: "
leaves (updating p m ls) line =
    line == end_marker
    || starts_with line "*** Add File: "
    || starts_with line "*** Delete File: "
    || starts_with line "*** Update File: "

abbrev is_diff_line : String → Bool
is_diff_line line =
    line == "*** End of File"
    || starts_with line "@@"
    || starts_with line "+"
    || starts_with line " "
    || starts_with line "-"

abbrev diff_line : String → Option String → List String → String → Attempt Hunk
diff_line p m ls line =
    if is_diff_line line
    then returned (updating p m (ls ++ line ∷ []))
    else invalid_arguments ("Copilot apply_patch contains an invalid update line: '" ⧺ line ⧺ "'.")

abbrev moved : String → String → Option String → Attempt Hunk
moved p line none = diff_line p none [] line
moved p line (some target) =
    if is_blank target
    then invalid_arguments "Copilot tool 'apply_patch' did not provide 'moveTo'."
    else returned (updating p (some target) [])

abbrev added : String → List String → Option String → Attempt Hunk
added p ls none = invalid_arguments "Copilot apply_patch add lines must start with +."
added p ls (some text) = returned (adding p (ls ++ text ∷ []))

-- A line that the hunk's own loop takes.
unfoldable pub take_line : Hunk → String → Attempt Hunk
take_line between line = returned between
take_line (adding p ls) line = added p ls (after_prefix "+" line)
take_line (renaming p) line = moved p line (after_prefix "*** Move to: " line)
take_line (updating p m ls) line = diff_line p m ls line

abbrev missing_end {ℓ} : {V : Type ℓ} → Attempt V
missing_end =
    invalid_arguments "Copilot apply_patch is missing the end marker or has trailing content."

abbrev some_change : List Change → Attempt (List Change)
some_change [] = invalid_arguments "Copilot apply_patch contains no changes."
some_change (c ∷ cs) = returned (c ∷ cs)

-- After the end marker only empty lines may follow, and there must be a change.
abbrev finish : List Change → List String → Attempt (List Change)
finish done rest = if every is_empty rest then some_change done else missing_end

unfoldable pub read_lines : List Change → Hunk → List String → Attempt (List Change)
unfolding open_hunk close_hunk leaves take_line
read_lines done h [] = close_hunk done h >>= λ _. missing_end
read_lines done h (line ∷ rest) =
    if leaves h line
    then (close_hunk done h >>= λ done'.
        (if line == end_marker
          then finish done' rest
          else (open_hunk done' line >>= λ (done'', h'). read_lines done'' h' rest)))
    else (take_line h line >>= λ h'. read_lines done h' rest)

abbrev pub after_begin : List String → Attempt (List Change)
after_begin [] = invalid_arguments "Copilot apply_patch is missing the begin marker."
after_begin (line ∷ rest) =
    if line == "*** Begin Patch"
    then read_lines [] between rest
    else invalid_arguments "Copilot apply_patch is missing the begin marker."

unfoldable pub parse_patch : String → Attempt (List Change)
unfolding read_lines
parse_patch patch = after_begin (split_newlines (unify_lines patch))
