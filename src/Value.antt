-- ===== src/Value.antt =====
-- JavaScript values as the boundary checks of the core see them, and those checks: an object that
-- may be a proxy, may have another prototype, symbol keys, hidden properties and accessors.
-- An exotic value that is none of these is `primitive`.
pub mod Exact
use swisstokint_open_risk_in.Prelude.{
  ℕ, ◌+◌, String, Bool, true, false, ◌&&◌, not, Option, none, some, List, [], ◌∷◌, str_eq,
  if◌then◌else◌,
}
use swisstokint_open_risk_in.Canonical.Number.{show_nat}
use swisstokint_open_risk_in.Data
use swisstokint_open_risk_in.Data.{Data, Items, Fields, Number}

pub data Prototype : Type 0 where
  object_prototype array_prototype null_prototype other_prototype : Prototype

pub record Shape : Type 0 where
  pub is_proxy : Bool
  pub prototype : Prototype
  -- how many own symbol keys
  pub symbols : ℕ

mutual
  pub data Value : Type 0 where
    undefined null : Value
    boolean : Bool → Value
    number : Number → Value
    text : String → Value
    -- a function, by its identity
    function : ℕ → Value
    -- a symbol or a bigint
    primitive : ℕ → Value
    -- an array with its own `length` and its other own properties
    array : Shape → ℕ → Properties → Value
    object : Shape → Properties → Value

  -- The own properties with a text for a key, in the order of `Object.getOwnPropertyNames`.
  pub data Properties : Type 0 where
    no_more : Properties
    data_property : String → Bool → Value → Properties → Properties
    accessor_property : String → Bool → Properties → Properties

-- What a call of a trusted clock does.
pub data Sample : Type 0 where
  sampled : Value → Sample
  clock_threw : Sample

-- `typeof value === 'function'`
abbrev pub is_function : Value → Bool
is_function (function f) = true
is_function v = false

pub data Descriptor : Type 0 where
  value_descriptor : Bool → Value → Descriptor
  accessor_descriptor : Bool → Descriptor

-- `Object.getOwnPropertyNames`
unfoldable pub property_names : Properties → List String
property_names no_more = []
property_names (data_property k e v ps) = k ∷ property_names ps
property_names (accessor_property k e ps) = k ∷ property_names ps

-- `Object.getOwnPropertyDescriptors(value)[key]`
unfoldable pub descriptor_of : String → Properties → Option Descriptor
descriptor_of k no_more = none
descriptor_of k (data_property j e v ps) =
    if str_eq k j then some (value_descriptor e v) else descriptor_of k ps
descriptor_of k (accessor_property j e ps) =
    if str_eq k j then some (accessor_descriptor e) else descriptor_of k ps

-- `isOwnEnumerableDataDescriptor(descriptor)`, and the descriptor's value
abbrev pub enumerable_value : Option Descriptor → Option Value
enumerable_value none = none
enumerable_value (some (value_descriptor true v)) = some v
enumerable_value (some (value_descriptor false v)) = none
enumerable_value (some (accessor_descriptor e)) = none

-- A plain object as an object literal or `JSON.parse` makes it.
abbrev pub plain : Prototype → Shape
plain q = record { is_proxy = false; prototype = q; symbols = 0 }

item_count : Items → ℕ
item_count Data.nil = 0
item_count (Data.cons x xs) = 1 + item_count xs

unfoldable mutual
  unfolding item_count

  pub embed : Data → Value
  embed Data.null = null
  embed (Data.boolean b) = boolean b
  embed (Data.number n) = number n
  embed (Data.text s) = text s
  embed (Data.array xs) = array (plain array_prototype) (item_count xs) (embed_items xs 0)
  embed (Data.object fs) = object (plain object_prototype) (embed_fields fs)
  embed Data.opaque = undefined

  pub embed_items : Items → ℕ → Properties
  embed_items Data.nil i = no_more
  embed_items (Data.cons x xs) i =
      data_property (show_nat i) true (embed x) (embed_items xs (i + 1))

  pub embed_fields : Fields → Properties
  embed_fields Data.end = no_more
  embed_fields (Data.field k v fs) = data_property k true (embed v) (embed_fields fs)
