-- ===== src/Json.antt =====
-- The JSON values that glaze reads a text into, and what the source asks of them. The parser itself
-- (glz::read_json) and the doubles that it keeps numbers in are parameters.
pub mod Naturals
use izan_wallet.Base.{ℕ, Bool, true, false, if◌then◌else◌, Option, none, some}
use izan_wallet.Base.Bytes.{Bytes, beq}

-- glz::generic and glz::json_t: a number is a double, given by its 64 bits.
mutual
  pub data Json : Type 0 where
    null : Json
    boolean : Bool → Json
    number : ℕ → Json
    string : Bytes → Json
    array : Items → Json
    object : Fields → Json

  pub data Items : Type 0 where
    no_items : Items
    item : Json → Items → Items

  pub data Fields : Type 0 where
    no_fields : Fields
    field : Bytes → Json → Fields → Fields

-- `uint64_t(d)` and `int64_t(d)` of a double have no result when the number does not fit. The bits of
-- 0.0 are all 0.
pub record Doubles : Type 0 where
  pub to_u64 : ℕ → Option ℕ
  pub to_i64 : ℕ → Option ℕ
  pub to_u32 : ℕ → Option ℕ
  pub of_u64 : ℕ → ℕ
  pub le : ℕ → ℕ → Bool
  pub add : ℕ → ℕ → ℕ
  pub sub : ℕ → ℕ → ℕ

-- `find(name)` on an object.
unfoldable pub find : Bytes → Fields → Option Json
find name no_fields = none
find name (field key value rest) = let r = find name rest in if beq key name then some value else r

-- `j.contains(name)`, and then `j[name]`; a value that is no object contains nothing.
abbrev pub member : Bytes → Json → Option Json
member name (object members) = find name members
member name null = none
member name (boolean b) = none
member name (number bits) = none
member name (string s) = none
member name (array items) = none

abbrev pub is_object : Json → Bool
is_object (object members) = true
is_object null = false
is_object (boolean b) = false
is_object (number bits) = false
is_object (string s) = false
is_object (array items) = false

-- The string of a value, if it is one.
abbrev pub as_string : Option Json → Option Bytes
as_string (some (string s)) = some s
as_string (some null) = none
as_string (some (boolean b)) = none
as_string (some (number bits)) = none
as_string (some (array items)) = none
as_string (some (object members)) = none
as_string none = none

abbrev pub as_number : Option Json → Option ℕ
as_number (some (number bits)) = some bits
as_number (some null) = none
as_number (some (boolean b)) = none
as_number (some (string s)) = none
as_number (some (array items)) = none
as_number (some (object members)) = none
as_number none = none

-- `it != end && it->second.is_boolean() && it->second.get_boolean()`
abbrev pub is_true : Option Json → Bool
is_true (some (boolean b)) = b
is_true (some null) = false
is_true (some (number bits)) = false
is_true (some (string s)) = false
is_true (some (array items)) = false
is_true (some (object members)) = false
is_true none = false

-- An object's members, an array's items, and nothing for any other value.
abbrev pub as_object : Option Json → Option Fields
as_object (some (object members)) = some members
as_object (some null) = none
as_object (some (boolean b)) = none
as_object (some (number bits)) = none
as_object (some (string s)) = none
as_object (some (array items)) = none
as_object none = none

abbrev pub as_array : Option Json → Option Items
as_array (some (array items)) = some items
as_array (some null) = none
as_array (some (boolean b)) = none
as_array (some (number bits)) = none
as_array (some (string s)) = none
as_array (some (object members)) = none
as_array none = none
