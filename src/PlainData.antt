-- ===== src/PlainData.antt =====
-- core/reference-data/plain-data-snapshot.mjs: the detached copy of a value that is inert, bounded
-- plain data. The counter of the budget is handed on from call to call; labels and messages are left
-- out. Own properties come in JavaScript's order, an array's indices ascending, so a walk over them
-- meets the indices as the source's loop does.
use swisstokint_open_risk_in.Prelude.{
  ℕ, ◌+◌, ◌-◌, String, Bool, true, false, ◌&&◌, ◌||◌, not, Result, ok, err, guard, ◌>>=◌, ◌>>◌, ltb,
  leb, ◌==◌, codes, count, utf16_length, all_codes, in_range, is_alnum, str_eq, length,
}
use swisstokint_open_risk_in.Canonical.Number.{show_nat}
use swisstokint_open_risk_in.Data
use swisstokint_open_risk_in.Data.{Data, Items, Fields, Number, is_safe_integer}
use swisstokint_open_risk_in.Value.{
  Value, Properties, Shape, Prototype, property_names, array_prototype,
}
use swisstokint_open_risk_in.Value.Exact.{is_plain_prototype}

pub data PlainDataError : Type 0 where
  data_proxy data_prototype data_symbol data_array data_nodes data_key data_accessor :
      PlainDataError
  data_depth data_string data_number data_type : PlainDataError

abbrev pub max_depth : ℕ
max_depth = 8

abbrev pub max_nodes : ℕ
max_nodes = 1000

abbrev max_array_length : ℕ
max_array_length = 1000

is_safe_key_code : ℕ → Bool
is_safe_key_code c = is_alnum c || c == b'_' || c == b'.' || c == b':' || c == b'/' || c == b'-'

-- `SAFE_KEY_PATTERN`, the length bound and the three names that are refused
unfoldable pub is_safe_key : String → Bool
unfolding is_safe_key_code
is_safe_key k =
    leb (utf16_length (codes k)) 128
    && all_codes is_safe_key_code (codes k)
    && in_range 1 128 (count (codes k))
    && not (str_eq k "__proto__" || str_eq k "constructor" || str_eq k "prototype")

abbrev is_array_prototype : Prototype → Bool
is_array_prototype array_prototype = true
is_array_prototype _ = false

-- A captured part, and what is left of the budget.
abbrev pub Captured : Type 0 → Type 0
Captured A = Result PlainDataError (A × ℕ)

enter : ℕ → ℕ → Result PlainDataError Unit
enter depth budget = do guard (leb depth max_depth) data_depth; guard (ltb 0 budget) data_nodes

check_shape : (Prototype → Bool) → Shape → Result PlainDataError Unit
check_shape accepted sh = do
  guard (not sh.is_proxy) data_proxy
  guard (accepted sh.prototype) data_prototype
  guard (sh.symbols == 0) data_symbol

-- The checks of `captureArray` before its loop.
check_array : Shape → ℕ → Properties → ℕ → Result PlainDataError Unit
unfolding check_shape
check_array sh n ps budget = do
  check_shape is_array_prototype sh
  guard (leb n max_array_length) data_array
  guard (leb n budget) data_nodes
  guard (length (property_names ps) == n) data_array

check_object : Shape → Properties → ℕ → Result PlainDataError Unit
unfolding check_shape
check_object sh ps budget = do
  check_shape is_plain_prototype sh
  guard (leb (length (property_names ps)) budget) data_nodes

-- A scalar that passed its own check.
scalar : ℕ → ℕ → Bool → PlainDataError → Data → Captured Data
unfolding enter
scalar depth budget fits e d = do enter depth budget; guard fits e; ok (d, budget - 1)

unfoldable mutual
  unfolding scalar enter check_array check_object

  -- `captureValue`, with `captureArray` and `captureObject`
  pub capture_value : Value → ℕ → ℕ → Captured Data
  capture_value Value.null depth budget = scalar depth budget true data_type Data.null
  capture_value (Value.boolean b) depth budget = scalar depth budget true data_type (Data.boolean b)
  capture_value (Value.text s) depth budget =
      scalar depth budget (leb (utf16_length (codes s)) 16384) data_string (Data.text s)
  capture_value (Value.number n) depth budget =
      scalar depth budget (is_safe_integer n) data_number (Data.number n)
  capture_value (Value.array sh n ps) depth budget = do
    enter depth budget
    check_array sh n ps (budget - 1)
    (xs, left) ← capture_items ps 0 (depth + 1) (budget - 1)
    ok (Data.array xs, left)
  capture_value (Value.object sh ps) depth budget = do
    enter depth budget
    check_object sh ps (budget - 1)
    (fs, left) ← capture_fields ps (depth + 1) (budget - 1)
    ok (Data.object fs, left)
  capture_value Value.undefined depth budget = scalar depth budget false data_type Data.opaque
  capture_value (Value.function f) depth budget = scalar depth budget false data_type Data.opaque
  capture_value (Value.primitive q) depth budget = scalar depth budget false data_type Data.opaque

  pub capture_items : Properties → ℕ → ℕ → ℕ → Captured Items
  capture_items Properties.no_more i depth budget = ok (Data.nil, budget)
  capture_items (Properties.data_property k e v ps) i depth budget = do
    guard (str_eq k (show_nat i)) data_array
    guard e data_array
    (x, left) ← capture_value v depth budget
    (xs, rest) ← capture_items ps (i + 1) depth left
    ok (Data.cons x xs, rest)
  capture_items (Properties.accessor_property k e ps) i depth budget = err data_array

  pub capture_fields : Properties → ℕ → ℕ → Captured Fields
  capture_fields Properties.no_more depth budget = ok (Data.end, budget)
  capture_fields (Properties.data_property k e v ps) depth budget = do
    guard (is_safe_key k) data_key
    guard e data_accessor
    (x, left) ← capture_value v depth budget
    (fs, rest) ← capture_fields ps depth left
    ok (Data.field k x fs, rest)
  capture_fields (Properties.accessor_property k e ps) depth budget = do
    guard (is_safe_key k) data_key
    err data_accessor

-- `captureReferencePlainData`
unfoldable pub capture_plain_data : Value → Result PlainDataError Data
capture_plain_data v = do (d, left) ← capture_value v 0 max_nodes; ok d
