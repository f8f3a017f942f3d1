-- ===== src/Schema/Validate.antt =====
-- `validate`, over the subset of JSON Schema that it reads. A violation has its place and its reason,
-- from which the source makes the text of the fault.
use floe_runtime.Prelude.{
  ℕ, suc, String, Bool, true, false, Option, none, some, List, [], ◌∷◌, ◌++◌, leb, if◌then◌else◌,
  length, ◌==◌, ◌&&◌, ◌||◌, includes, some_of,
}
use floe_runtime.Json.{
  integer, Value, null, bool, num, str, arr, obj, items_of, fields_of, utf16_length, same_value,
}

-- The keywords that hold no schema. `closed` is `additionalProperties === false`; a bound is `none`
-- where it is no finite number.
pub record Keywords : Type 0 where
  pub types : List String
  pub enumeration : Option (List Value)
  pub max_length : Option ℕ
  pub max_items : Option ℕ
  pub required : List String
  pub closed : Bool

mutual
  pub data Schema : Type 0 where
    any_of : Alternatives → Schema
    rules : Keywords → ItemSchema → Properties → Schema

  pub data Alternatives : Type 0 where
    no_more : Alternatives
    alternative : Schema → Alternatives → Alternatives

  pub data ItemSchema : Type 0 where
    no_items : ItemSchema
    items : Schema → ItemSchema

  pub data Properties : Type 0 where
    no_properties : Properties
    property : String → Schema → Properties → Properties

pub data Segment : Type 0 where
  key : String → Segment
  index : ℕ → Segment

pub data Reason : Type 0 where
  no_alternative wrong_type bad_value too_long too_many not_allowed no_item_schema : Reason
  missing : String → Reason

pub data Check : Type 0 where
  valid : Check
  invalid : (location : List Segment) → Reason → Check

-- The next check is made only if this one passes.
infixr 30 ◌and_then◌
abbrev pub ◌and_then◌ : Check → Check → Check
valid and_then c = c
(invalid l r) and_then c = invalid l r

-- `check` of src/schema.mjs
abbrev pub require : Bool → List Segment → Reason → Check
require true l r = valid
require false l r = invalid l r

-- `null`, `array`, or `typeof value`
abbrev pub actual_type : Value → String
actual_type null = "null"
actual_type (bool b) = "boolean"
actual_type (num n) = "number"
actual_type (str s) = "string"
actual_type (arr vs) = "array"
actual_type (obj fs) = "object"

abbrev pub is_integer : Value → Bool
is_integer (num (integer s n)) = true
is_integer _ = false

abbrev pub matches_type : List String → Value → Bool
matches_type types v = includes types (actual_type v) || (is_integer v && includes types "integer")

abbrev pub in_enum : Option (List Value) → Value → Bool
in_enum none v = true
in_enum (some vs) v = some_of (same_value v) vs

abbrev pub within_bound : Option ℕ → ℕ → Bool
within_bound none n = true
within_bound (some m) n = leb n m

abbrev pub string_fits : Keywords → Value → Bool
string_fits k (str s) = within_bound k.max_length (utf16_length s)
string_fits k _ = true

abbrev pub array_fits : Keywords → Value → Bool
array_fits k (arr vs) = within_bound k.max_items (length (items_of vs))
array_fits k _ = true

abbrev pub has_key : List (String × Value) → String → Bool
has_key [] k = false
has_key ((j, v) ∷ fs) k = j == k || has_key fs k

-- `for (const key of schema.required || [])`
abbrev pub check_required : List String → List (String × Value) → List Segment → Check
check_required [] fs l = valid
check_required (k ∷ ks) fs l = require (has_key fs k) l (missing k) and_then check_required ks fs l

abbrev pub declares : Properties → String → Bool
declares no_properties k = false
declares (property j s ps) k = j == k || declares ps k

-- `for (const key of Object.keys(value))`, under `additionalProperties: false`
abbrev pub check_closed : Properties → List (String × Value) → List Segment → Check
check_closed ps [] l = valid
check_closed ps ((k, v) ∷ fs) l =
    require (declares ps k) (l ++ key k ∷ []) not_allowed and_then check_closed ps fs l

-- `value.forEach((item, i) => …)` and the loop over `Object.entries(value)`
abbrev pub check_each : (ℕ → Value → Check) → ℕ → List Value → Check
check_each f i [] = valid
check_each f i (v ∷ vs) = f i v and_then check_each f (suc i) vs

abbrev pub check_entries : (String → Value → Check) → List (String × Value) → Check
check_entries f [] = valid
check_entries f ((k, v) ∷ fs) = f k v and_then check_entries f fs

abbrev pub check_array : (ℕ → Value → Check) → Value → Check
check_array f (arr vs) = check_each f 0 (items_of vs)
check_array f _ = valid

abbrev pub check_object :
    Keywords → Properties → (String → Value → Check) → List Segment → Value → Check
check_object k ps f l (obj fs) =
    check_required k.required (fields_of fs) l
    and_then (if k.closed then check_closed ps (fields_of fs) l else valid)
    and_then check_entries f (fields_of fs)
check_object k ps f l _ = valid

-- The result of the alternatives, of which the first that passes decides.
abbrev pub or_try : Check → Check → Check
or_try valid c = valid
or_try (invalid l r) c = c

unfoldable mutual
  pub validate : Schema → List Segment → Value → Check
  validate (any_of ss) l v = validate_any ss l v
  validate (rules k i ps) l v =
      require (matches_type k.types v) l wrong_type
      and_then require (in_enum k.enumeration v) l bad_value
      and_then require (string_fits k v) l too_long
      and_then require (array_fits k v) l too_many
      and_then check_array (λ n item. validate_item i (l ++ index n ∷ []) item) v
      and_then check_object k ps (λ j item. validate_property ps j (l ++ key j ∷ []) item) l v

  pub validate_any : Alternatives → List Segment → Value → Check
  validate_any no_more l v = invalid l no_alternative
  validate_any (alternative s ss) l v = or_try (validate s l v) (validate_any ss l v)

  -- Without `items` the call of `validate` throws, since it is given no schema.
  pub validate_item : ItemSchema → List Segment → Value → Check
  validate_item no_items l v = invalid l no_item_schema
  validate_item (items s) l v = validate s l v

  -- `if (schema.properties?.[key]) validate(item, schema.properties[key], …)`
  pub validate_property : Properties → String → List Segment → Value → Check
  validate_property no_properties j l v = valid
  validate_property (property i s ps) j l v =
      let rest = validate_property ps j l v in if i == j then validate s l v else rest
