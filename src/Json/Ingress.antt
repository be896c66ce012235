-- ===== src/Json/Ingress.antt =====
-- `parseWalletGuardBoundedJsonData` and `parseWalletGuardJsonIngress`: after the scan the text is parsed by
-- `JSON.parse`, and the value is cloned within the same bounds.
use swisstokint_open_risk_in.Prelude.{
  ℕ, ◌+◌, ◌-◌, String, Bool, false, ◌&&◌, ◌||◌, not, Option, none, some, List, [], ◌∷◌, Result, ok,
  err, guard, ◌>>=◌, ◌>>◌, ltb, leb, ◌==◌, if◌then◌else◌, codes, in_range, is_alnum, all_of, length,
}
use swisstokint_open_risk_in.Data
use swisstokint_open_risk_in.Data.{Data, Items, Fields, Number, is_safe_integer, record_of}
use swisstokint_open_risk_in.Platform.{Platform}
use swisstokint_open_risk_in.Canonical.{canonicalize_payload}
use swisstokint_open_risk_in.Canonical.Safe.{PayloadError}
use swisstokint_open_risk_in.Json.Lex.{
  Units, JsonError, json_input, json_bounds, json_syntax, json_unicode, json_unsafe_key,
  json_number, json_shape, json_version, json_id, json_method, json_params, json_canonical,
  is_scalar_text, same_units,
}
use swisstokint_open_risk_in.Json.Scan.{
  max_depth, max_nodes, max_string_length, max_key_length, is_forbidden, mem_units, scan_text,
}

-- What `JSON.parse` returns. A negative zero is an inexact number here, as both are refused alike.
mutual
  pub data Json : Type 0 where
    null : Json
    boolean : Bool → Json
    number : Number → Json
    text : Units → Json
    array : JsonItems → Json
    object : JsonEntries → Json

  pub data JsonItems : Type 0 where
    nil : JsonItems
    cons : Json → JsonItems → JsonItems

  pub data JsonEntries : Type 0 where
    end : JsonEntries
    entry : Units → Json → JsonEntries → JsonEntries

pub record JsonHost : Type 0 where
  -- `JSON.parse(raw)`, `none` when it throws
  pub json_parse : Units → Option Json
  -- the text with these code units
  pub text_of : Units → String

-- A clone, and what is left of the budget of nodes.
abbrev pub Cloned : Type 0 → Type 0
Cloned A = Result JsonError (A × ℕ)

abbrev pub enter : ℕ → ℕ → Result JsonError Unit
enter depth budget = guard (leb depth max_depth && ltb 0 budget) json_bounds

-- The checks of a key in the clone
unfoldable pub check_cloned_key : Units → Result JsonError Unit
check_cloned_key k = do
  guard (is_scalar_text k) json_unicode
  guard (in_range 1 max_key_length (length k) && not (is_forbidden k)) json_unsafe_key

unfoldable mutual
  unfolding check_cloned_key

  -- `cloneParsed`
  pub clone_parsed : Json → ℕ → ℕ → Cloned Json
  clone_parsed null depth budget = do enter depth budget; ok (null, budget - 1)
  clone_parsed (boolean b) depth budget = do enter depth budget; ok (boolean b, budget - 1)
  clone_parsed (number n) depth budget = do
    enter depth budget
    guard (is_safe_integer n) json_number
    ok (number n, budget - 1)
  clone_parsed (text s) depth budget = do
    enter depth budget
    guard (leb (length s) max_string_length) json_bounds
    guard (is_scalar_text s) json_unicode
    ok (text s, budget - 1)
  clone_parsed (array xs) depth budget = do
    enter depth budget
    (ys, rest) ← clone_items xs (depth + 1) (budget - 1)
    ok (array ys, rest)
  clone_parsed (object es) depth budget = do
    enter depth budget
    (fs, rest) ← clone_entries es (depth + 1) (budget - 1)
    ok (object fs, rest)

  pub clone_items : JsonItems → ℕ → ℕ → Cloned JsonItems
  clone_items nil depth budget = ok (nil, budget)
  clone_items (cons x xs) depth budget = do
    (y, left) ← clone_parsed x depth budget
    (ys, rest) ← clone_items xs depth left
    ok (cons y ys, rest)

  pub clone_entries : JsonEntries → ℕ → ℕ → Cloned JsonEntries
  clone_entries end depth budget = ok (end, budget)
  clone_entries (entry k x es) depth budget = do
    check_cloned_key k
    (y, left) ← clone_parsed x depth budget
    (fs, rest) ← clone_entries es depth left
    ok (entry k y fs, rest)

-- `Buffer.byteLength(raw, 'utf8')`: a surrogate pair takes four bytes, an unpaired surrogate three.
abbrev unit_bytes : ℕ → ℕ
unit_bytes c = if ltb c 0x80 then 1 else if ltb c 0x800 then 2 else 3

bytes_from : Bool → Units → ℕ
bytes_from after_high [] = 0
bytes_from after_high (c ∷ s) =
    (if after_high && in_range 0xdc00 0xdfff c then 1 else unit_bytes c)
    + bytes_from (in_range 0xd800 0xdbff c) s

unfoldable pub utf8_bytes : Units → ℕ
unfolding bytes_from
utf8_bytes s = bytes_from false s

abbrev pub max_raw_bytes : ℕ
max_raw_bytes = 65536

starts_with_bom : Units → Bool
starts_with_bom [] = false
starts_with_bom (c ∷ s) = c == 0xfeff

unfoldable pub parsed : Option Json → Result JsonError Json
parsed none = err json_syntax
parsed (some v) = ok v

unfoldable pub raw_text : Option Units → Result JsonError Units
raw_text none = err json_input
raw_text (some s) = ok s

module _ (h : JsonHost) where
  -- `parseWalletGuardBoundedJsonData`; `none` is a value that is no string.
  unfoldable pub parse_bounded : Option Units → Result JsonError Json
  unfolding raw_text utf8_bytes starts_with_bom scan_text parsed clone_parsed
  parse_bounded input = do
    raw ← raw_text input
    guard (in_range 2 max_raw_bytes (utf8_bytes raw)) json_bounds
    guard (not (starts_with_bom raw)) json_syntax
    nodes ← scan_text raw
    value ← parsed (h.json_parse raw)
    (clone, rest) ← clone_parsed value 0 max_nodes
    ok clone

-- `value[key]`, `none` for undefined
unfoldable pub json_field : Units → JsonEntries → Option Json
json_field k end = none
json_field k (entry j v es) = let rest = json_field k es in if same_units k j then some v else rest

json_keys : JsonEntries → List Units
json_keys end = []
json_keys (entry k v es) = k ∷ json_keys es

-- `exactKeys`: as many keys, and each expected one among them
unfoldable pub exact_json_keys : List String → JsonEntries → Bool
unfolding json_keys
exact_json_keys expected es =
    length (json_keys es) == length expected
    && all_of (λ k. mem_units (codes k) (json_keys es)) expected

abbrev is_method_unit : ℕ → Bool
is_method_unit c = is_alnum c || c == b'_'

-- `METHOD_PATTERN`
unfoldable pub method_pattern : Units → Bool
method_pattern s = in_range 1 64 (length s) && all_of is_method_unit s

unfoldable pub validate_method : Option Json → Result JsonError Units
unfolding method_pattern
validate_method (some (text s)) = if method_pattern s then ok s else err json_method
validate_method _ = err json_method

unfoldable pub validate_params : Option Json → Result JsonError JsonItems
validate_params (some (array xs)) = ok xs
validate_params _ = err json_params

-- `validateJsonRpcId`
unfoldable pub validate_json_rpc_id : Option Json → Result JsonError Json
validate_json_rpc_id (some (text s)) =
    if in_range 1 128 (length s) then ok (text s) else err json_id
validate_json_rpc_id (some (number (Data.nat n))) =
    if is_safe_integer (Data.nat n) then ok (number (Data.nat n)) else err json_id
validate_json_rpc_id _ = err json_id

-- `snapshot.jsonrpc !== '2.0'`
unfoldable pub check_version : Json → Result JsonError Unit
check_version (text s) = guard (same_units s (codes "2.0")) json_version
check_version _ = err json_version

pub record Ingress : Type 0 where
  -- the id of a JSON-RPC request, `none` for the other transport
  pub jsonrpc_id : Option Json
  pub method : Units
  pub params : JsonItems
  pub raw_text_sha256 : String
  pub canonical_request_sha256 : String

module _ (h : JsonHost) where
  unfoldable mutual
    pub to_data : Json → Data
    to_data null = Data.null
    to_data (boolean b) = Data.boolean b
    to_data (number n) = Data.number n
    to_data (text s) = Data.text (h.text_of s)
    to_data (array xs) = Data.array (to_items xs)
    to_data (object es) = Data.object (to_fields es)

    pub to_items : JsonItems → Items
    to_items nil = Data.nil
    to_items (cons x xs) = Data.cons (to_data x) (to_items xs)

    pub to_fields : JsonEntries → Fields
    to_fields end = Data.end
    to_fields (entry k v es) = Data.field (h.text_of k) (to_data v) (to_fields es)

  hashed_request : Platform → Result PayloadError String → Result JsonError String
  hashed_request p (ok canonical) = ok (p.sha256_hex canonical)
  hashed_request p (err e) = err json_canonical

  -- `canonicalRequestHash`
  unfoldable pub canonical_request_hash : Platform → Units → JsonItems → Result JsonError String
  unfolding to_data hashed_request
  canonical_request_hash p method params = hashed_request p (
      canonicalize_payload p (
        record_of (
          ("method", Data.text (h.text_of method))
          ∷ ("params", Data.array (to_items params))
          ∷ [])))

  finish_request : Platform → Units → Option Json → JsonEntries → Result JsonError Ingress
  unfolding json_field validate_method validate_params canonical_request_hash
  finish_request p raw id es = do
    method ← validate_method (json_field (codes "method") es)
    params ← validate_params (json_field (codes "params") es)
    canonical ← canonical_request_hash p method params
    ok (record {
      jsonrpc_id = id;
      method = method;
      params = params;
      raw_text_sha256 = p.sha256_hex (h.text_of raw);
      canonical_request_sha256 = canonical;
    })

  -- The two transports, told apart by the member `jsonrpc`
  request_of : Platform → Units → JsonEntries → Option Json → Result JsonError Ingress
  unfolding exact_json_keys check_version validate_json_rpc_id json_field finish_request
  request_of p raw es (some version) = do
    guard (exact_json_keys ("jsonrpc" ∷ "id" ∷ "method" ∷ "params" ∷ []) es) json_shape
    check_version version
    id ← validate_json_rpc_id (json_field (codes "id") es)
    finish_request p raw (some id) es
  request_of p raw es none = do
    guard (exact_json_keys ("method" ∷ "params" ∷ []) es) json_shape
    finish_request p raw none es

  root_request : Platform → Units → Json → Result JsonError Ingress
  unfolding request_of json_field
  root_request p raw (object es) = request_of p raw es (json_field (codes "jsonrpc") es)
  root_request p raw v = err json_shape

  -- `parseWalletGuardJsonIngress`
  unfoldable pub parse_ingress : Platform → Option Units → Result JsonError Ingress
  unfolding parse_bounded raw_text root_request
  parse_ingress p input = do
    value ← parse_bounded h input
    raw ← raw_text input
    root_request p raw value
