-- ===== src/Canonical/Safe.antt =====
-- `validateSafeValue`: depth, node budget, sizes and keys of a payload. The budget comes back with
-- what is left of it, since the source's recursive calls share one counter.
use swisstokint_open_risk_in.Prelude.{
  ℕ, ◌+◌, ◌-◌, String, Bool, true, false, ◌&&◌, ◌||◌, not, List, [], ◌∷◌, Result, ok, err, guard,
  ◌>>=◌, ◌>>◌, ltb, leb, ◌==◌, if◌then◌else◌, codes, count, utf16_length, all_codes, in_range,
  is_digit, is_lower, is_upper, is_alnum,
}
use swisstokint_open_risk_in.Data.{
  Data, Items, Fields, null, boolean, number, text, array, object, opaque, nil, cons, end, field,
  is_safe_integer,
}

-- The codes of `ProofPayloadValidationError`.
pub data PayloadError : Type 0 where
  payload_depth payload_nodes payload_string payload_number payload_type payload_key : PayloadError
  payload_sensitive_key payload_shape payload_canonical_bytes : PayloadError

abbrev pub max_depth : ℕ
max_depth = 8

abbrev pub max_string_length : ℕ
max_string_length = 2048

abbrev pub max_nodes : ℕ
max_nodes = 1000

abbrev sensitive_payload_keys : List String
sensitive_payload_keys =
    "apikey" ∷ "apisecret" ∷ "accesskey" ∷ "accesssecret" ∷ "accesstoken" ∷ "refreshtoken"
    ∷ "password" ∷ "secret" ∷ "privatekey" ∷ "seedphrase" ∷ "mnemonic" ∷ "email" ∷ "phone"
    ∷ "walletaddress" ∷ "balance" ∷ "accountbalance" ∷ "accountid" ∷ "userid" ∷ "position"
    ∷ "positions" ∷ []

is_key_code : ℕ → Bool
is_key_code c = is_alnum c || c == b'_' || c == b'.' || c == b'-'

-- `PAYLOAD_KEY_PATTERN`
unfoldable pub payload_key_pattern : String → Bool
unfolding is_key_code all_codes count is_alnum
payload_key_pattern k = all_codes is_key_code (codes k) && in_range 1 64 (count (codes k))

-- `key.normalize('NFKC').toLowerCase().replace(/[^a-z0-9]/g, '')` of a key that matched the pattern:
-- such a key is ASCII, so the normalisation leaves it alone.
normalized_sensitive_key : List ℕ → List ℕ
normalized_sensitive_key [] = []
normalized_sensitive_key (c ∷ s) =
    let rest = normalized_sensitive_key s in
    if is_upper c then (c + 32) ∷ rest else if is_lower c || is_digit c then c ∷ rest else rest

same_codes : List ℕ → List ℕ → Bool
same_codes [] [] = true
same_codes [] (d ∷ t) = false
same_codes (c ∷ s) [] = false
same_codes (c ∷ s) (d ∷ t) = c == d && same_codes s t

mem_codes : List ℕ → List String → Bool
mem_codes s [] = false
mem_codes s (k ∷ ks) = same_codes s (codes k) || mem_codes s ks

unfoldable pub is_sensitive : String → Bool
unfolding normalized_sensitive_key same_codes mem_codes is_upper is_lower is_digit
is_sensitive k = mem_codes (normalized_sensitive_key (codes k)) sensitive_payload_keys

unfoldable mutual
  -- What is left of the budget, or the code that is thrown.
  pub validate_safe_value : Data → ℕ → ℕ → Result PayloadError ℕ
  validate_safe_value null depth budget = do
    guard (leb depth max_depth) payload_depth
    guard (ltb 0 budget) payload_nodes
    ok (budget - 1)
  validate_safe_value (boolean b) depth budget = do
    guard (leb depth max_depth) payload_depth
    guard (ltb 0 budget) payload_nodes
    ok (budget - 1)
  validate_safe_value (text s) depth budget = do
    guard (leb depth max_depth) payload_depth
    guard (ltb 0 budget) payload_nodes
    guard (leb (utf16_length (codes s)) max_string_length) payload_string
    ok (budget - 1)
  validate_safe_value (number n) depth budget = do
    guard (leb depth max_depth) payload_depth
    guard (ltb 0 budget) payload_nodes
    guard (is_safe_integer n) payload_number
    ok (budget - 1)
  validate_safe_value (array xs) depth budget = do
    guard (leb depth max_depth) payload_depth
    guard (ltb 0 budget) payload_nodes
    validate_items xs (depth + 1) (budget - 1)
  validate_safe_value (object fs) depth budget = do
    guard (leb depth max_depth) payload_depth
    guard (ltb 0 budget) payload_nodes
    validate_fields fs (depth + 1) (budget - 1)
  validate_safe_value opaque depth budget = do
    guard (leb depth max_depth) payload_depth
    guard (ltb 0 budget) payload_nodes
    err payload_type

  pub validate_items : Items → ℕ → ℕ → Result PayloadError ℕ
  validate_items nil depth budget = ok budget
  validate_items (cons x xs) depth budget = do
    left ← validate_safe_value x depth budget
    validate_items xs depth left

  pub validate_fields : Fields → ℕ → ℕ → Result PayloadError ℕ
  validate_fields end depth budget = ok budget
  validate_fields (field k v fs) depth budget = do
    guard (payload_key_pattern k) payload_key
    guard (not (is_sensitive k)) payload_sensitive_key
    left ← validate_safe_value v depth budget
    validate_fields fs depth left
