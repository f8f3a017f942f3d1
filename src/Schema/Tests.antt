-- ===== src/Schema/Tests.antt =====
-- A reply that is one brace object, and a schema that takes any boolean.
use floe_runtime.Prelude.{ℕ, ◌≡◌, refl, true, false, Option, none, some, List, [], ◌∷◌, arith}
use floe_runtime.Errors.{ok}
use floe_runtime.Json.{Value, bool}
use floe_runtime.Schema.Validate.{Schema, Keywords, rules, no_items, no_properties, validate}
use floe_runtime.Schema.Extract.{
  balanced, balanced_candidates, try_parse, extract, candidates, Accepts, extract-first,
  balanced_candidates-enough,
}

abbrev braces : List ℕ
braces = b'{' ∷ b'}' ∷ b'x' ∷ []

abbrev keywords : Keywords
keywords = record {
  types = "boolean" ∷ [];
  enumeration = none;
  max_length = none;
  max_items = none;
  required = [];
  closed = false;
}

abbrev boolean_schema : Schema
boolean_schema = rules keywords no_items no_properties

abbrev parse_true : List ℕ → Option Value
parse_true text = some (bool true)

abbrev no_fences : List ℕ → List (List ℕ)
no_fences text = []

extracted : extract parse_true no_fences boolean_schema braces ≡ ok (bool true)
unfolding extract try_parse validate
extracted = refl

extract-first_example :
    Accepts parse_true no_fences boolean_schema
      (candidates parse_true no_fences boolean_schema braces)
      (bool true)
extract-first_example =
    extract-first parse_true no_fences boolean_schema braces (bool true) extracted

balanced_candidates-enough_example : balanced 7 braces ≡ balanced_candidates braces
balanced_candidates-enough_example = balanced_candidates-enough 7 braces (omega arith)
