-- ===== src/Json.antt =====
-- The values that `JSON.parse` returns. Keys that an object inherits from its prototype are left out.
use Prim.Native.Char.{code}
use Prim.Native.String.{[], ◌∷◌}
use floe_runtime.Prelude.{
  ℕ, ◌+◌, String, Bool, true, false, List, nat_eq, ltb, if◌then◌else◌, ◌==◌, ◌&&◌, ◌||◌, not,
}
use mathlib.Core.List

-- An integer by its sign and its size, or a number with a fraction by its canonical text.
pub data Number : Type 0 where
  integer : (negative : Bool) → ℕ → Number
  fraction : String → Number

mutual
  pub data Value : Type 0 where
    null : Value
    bool : Bool → Value
    num : Number → Value
    str : String → Value
    arr : Items → Value
    obj : Fields → Value

  pub data Items : Type 0 where
    no_values : Items
    value : Value → Items → Items

  pub data Fields : Type 0 where
    no_members : Fields
    member : String → Value → Fields → Fields

abbrev pub items_of : Items → List.List Value
items_of no_values = List.List.[]
items_of (value v vs) = List.List.◌∷◌ v (items_of vs)

abbrev pub fields_of : Fields → List.List (String × Value)
fields_of no_members = List.List.[]
fields_of (member k v fs) = List.List.◌∷◌ (k, v) (fields_of fs)

-- `value.length` of a text, in UTF-16 code units.
unfoldable pub utf16_length : String → ℕ
utf16_length [] = 0
utf16_length (c ∷ s) = (if ltb (code c) 65536 then 1 else 2) + utf16_length s

abbrev bool_eq : Bool → Bool → Bool
bool_eq true b = b
bool_eq false b = not b

-- 0 and -0 are one number to `includes`.
abbrev pub number_eq : Number → Number → Bool
number_eq (integer s m) (integer t n) = nat_eq m n && (bool_eq s t || nat_eq m 0)
number_eq (fraction a) (fraction b) = a == b
number_eq (integer s m) (fraction b) = false
number_eq (fraction a) (integer t n) = false

-- `Array.prototype.includes` compares a parsed array or object with nothing that is equal to it.
abbrev pub same_value : Value → Value → Bool
same_value null null = true
same_value (bool a) (bool b) = bool_eq a b
same_value (num a) (num b) = number_eq a b
same_value (str a) (str b) = a == b
same_value _ _ = false
