-- ===== src/Texts.antt =====
-- Texts by their characters: prefixes, blanks and lines, as the sources of several modules use them.
use Prim.Native.Char.{Char, code}
use Prim.Native.String.{[], ◌∷◌}
use floe_runtime.Prelude.{
  ℕ, ◌+◌, ◌-◌, ◌/◌, ◌%◌, String, Bool, true, false, not, Option, none, some, nat_eq, leb, ltb,
  if◌then◌else◌, ◌&&◌, ◌||◌,
}
use mathlib.Core.List

abbrev pub has_code : ℕ → Char → Bool
has_code n c = nat_eq (code c) n

-- `text.startsWith(prefix)`, with the rest of the text.
unfoldable pub after_prefix : String → String → Option String
after_prefix [] s = some s
after_prefix (p ∷ ps) [] = none
after_prefix (p ∷ ps) (c ∷ s) =
    let rest = after_prefix ps s in if has_code (code p) c then rest else none

abbrev has_rest : Option String → Bool
has_rest none = false
has_rest (some s) = true

abbrev pub starts_with : String → String → Bool
starts_with s prefix = has_rest (after_prefix prefix s)

unfoldable pub any_char : (Char → Bool) → String → Bool
any_char p [] = false
any_char p (c ∷ s) = p c || any_char p s

-- White space, as `trim` knows it.
abbrev pub is_space : Char → Bool
is_space c =
    let n = code c in
    (leb 9 n && leb n 13)
    || nat_eq n 32
    || nat_eq n 160
    || nat_eq n 5760
    || (leb 8192 n && leb n 8202)
    || nat_eq n 8232
    || nat_eq n 8233
    || nat_eq n 8239
    || nat_eq n 8287
    || nat_eq n 12288
    || nat_eq n 65279

-- `!text.trim()`
unfoldable pub is_blank : String → Bool
unfolding any_char
is_blank s = not (any_char (λ c. not (is_space c)) s)

-- What a dot in a regular expression does not match.
abbrev pub ends_line : Char → Bool
ends_line c = has_code 10 c || has_code 13 c || has_code 8232 c || has_code 8233 c

unfoldable pub is_empty : String → Bool
is_empty [] = true
is_empty (c ∷ s) = false

abbrev add_char : Char → List.List String → List.List String
add_char c List.List.[] = List.List.◌∷◌ (c ∷ []) List.List.[]
add_char c (List.List.◌∷◌ l ls) = List.List.◌∷◌ (c ∷ l) ls

-- `text.replace(/\r\n/g, '\n')`
unfoldable pub unify_lines : String → String
unify_lines [] = []
unify_lines (c ∷ []) = c ∷ []
unify_lines (c ∷ d ∷ s) =
    let rest = unify_lines (d ∷ s) in if has_code 13 c && has_code 10 d then rest else c ∷ rest

-- `text.split('\n')`
unfoldable pub split_newlines : String → List.List String
split_newlines [] = List.List.◌∷◌ [] List.List.[]
split_newlines (c ∷ s) =
    let rest = split_newlines s in if has_code 10 c then List.List.◌∷◌ [] rest else add_char c rest

-- The UTF-16 code units of a text, by which `sort` compares.
unfoldable pub units : String → List.List ℕ
units [] = List.List.[]
units (c ∷ s) =
    let n = code c in
    let rest = units s in
    if leb n 65535
    then List.List.◌∷◌ n rest
    else List.List.◌∷◌ (55296 + (n - 65536) / 1024)
        (List.List.◌∷◌ (56320 + (n - 65536) % 1024) rest)

abbrev pub units_before : List.List ℕ → List.List ℕ → Bool
units_before List.List.[] ds = true
units_before (List.List.◌∷◌ c cs) List.List.[] = false
units_before (List.List.◌∷◌ c cs) (List.List.◌∷◌ d ds) =
    ltb c d || (nat_eq c d && units_before cs ds)

abbrev pub insert : String → List.List String → List.List String
insert s List.List.[] = List.List.◌∷◌ s List.List.[]
insert s (List.List.◌∷◌ t ts) =
    if units_before (units s) (units t)
    then List.List.◌∷◌ s (List.List.◌∷◌ t ts)
    else List.List.◌∷◌ t (insert s ts)

-- `names.sort()`
unfoldable pub sort : List.List String → List.List String
sort List.List.[] = List.List.[]
sort (List.List.◌∷◌ s ss) = insert s (sort ss)

-- Is the character in the text? The text up to the character, or all of it.
abbrev pub has_char : ℕ → String → Bool
has_char n s = any_char (has_code n) s

unfoldable pub up_to : ℕ → String → String
up_to n [] = []
up_to n (c ∷ s) = let rest = up_to n s in if has_code n c then [] else c ∷ rest

unfoldable pub trim_start : String → String
trim_start [] = []
trim_start (c ∷ s) = let rest = trim_start s in if is_space c then rest else c ∷ s

abbrev keep_unless_blank : Char → String → String
keep_unless_blank c [] = if is_space c then [] else c ∷ []
keep_unless_blank c (d ∷ s) = c ∷ d ∷ s

unfoldable pub trim_end : String → String
trim_end [] = []
trim_end (c ∷ s) = keep_unless_blank c (trim_end s)

-- `text.trim()`
abbrev pub trim : String → String
trim s = trim_end (trim_start s)

-- The code of a character in capitals: a to z, and the dotless i and the long s, which become I and S.
abbrev pub upper_code : ℕ → ℕ
upper_code n =
    if leb 97 n && leb n 122
    then n - 32
    else if nat_eq n 305
    then 73
    else if nat_eq n 383
    then 83
    else n

-- `text.toUpperCase() === name`, where the name has capitals of A to Z and none of the pairs of them
-- that one character stands for, such as SS.
unfoldable pub upper_is : String → String → Bool
upper_is [] [] = true
upper_is [] (d ∷ name) = false
upper_is (c ∷ s) [] = false
upper_is (c ∷ s) (d ∷ name) = nat_eq (upper_code (code c)) (code d) && upper_is s name

-- The code of a character in small letters: A to Z, and the Kelvin sign, which becomes k.
abbrev pub lower_code : ℕ → ℕ
lower_code n = if leb 65 n && leb n 90 then n + 32 else if nat_eq n 8490 then 107 else n

-- `text.toLowerCase() === name`, where the name has small letters of a to z only, besides other ASCII.
unfoldable pub lower_is : String → String → Bool
lower_is [] [] = true
lower_is [] (d ∷ name) = false
lower_is (c ∷ s) [] = false
lower_is (c ∷ s) (d ∷ name) = nat_eq (lower_code (code c)) (code d) && lower_is s name

abbrev keep_unless_slash : Char → String → String
keep_unless_slash c [] = if has_code 47 c then [] else c ∷ []
keep_unless_slash c (d ∷ s) = c ∷ d ∷ s

-- `text.replace(/\/+$/, '')`
unfoldable pub drop_slashes : String → String
drop_slashes [] = []
drop_slashes (c ∷ s) = keep_unless_slash c (drop_slashes s)
