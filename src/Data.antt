-- ===== src/Data.antt =====
-- Plain JavaScript data: what `JSON.parse` returns and what the receipts, bindings and claims of the
-- program are made of. A number is told apart as the source's `Number.isSafeInteger` needs it.
use swisstokint_open_risk_in.Prelude.{
  ℕ, ◌+◌, String, Bool, false, Option, none, some, List, [], ◌∷◌, leb, str_eq, if◌then◌else◌,
}

pub data Number : Type 0 where
  -- n, and -(n + 1)
  nat neg : ℕ → Number
  -- a number with a fractional part, an infinity or NaN, told apart by a tag
  inexact : ℕ → Number

-- `Number.isSafeInteger`: at most 2^53 - 1 in size
unfoldable pub is_safe_integer : Number → Bool
is_safe_integer (nat n) = leb n 9007199254740991
is_safe_integer (neg n) = leb (n + 1) 9007199254740991
is_safe_integer (inexact t) = false

mutual
  pub data Data : Type 0 where
    null : Data
    boolean : Bool → Data
    number : Number → Data
    text : String → Data
    array : Items → Data
    object : Fields → Data
    -- a value that JSON has no form for: undefined, a function, a symbol, a bigint
    opaque : Data

  pub data Items : Type 0 where
    nil : Items
    cons : Data → Items → Items

  -- The own enumerable properties, in the order in which they are listed.
  pub data Fields : Type 0 where
    end : Fields
    field : String → Data → Fields → Fields

-- A record of texts: `{ name: value, … }`
abbrev pub fields_of : List (String × Data) → Fields
fields_of [] = end
fields_of ((k, v) ∷ l) = field k v (fields_of l)

abbrev pub record_of : List (String × Data) → Data
record_of l = object (fields_of l)

-- `value[key]`, `none` for undefined
unfoldable pub get_field : String → Fields → Option Data
get_field k end = none
get_field k (field j v fs) = if str_eq k j then some v else get_field k fs

unfoldable pub field_names : Fields → List String
field_names end = []
field_names (field k v fs) = k ∷ field_names fs
