-- ===== src/Json/Scan.antt =====
-- `StrictJsonScanner`: the scan of a text, with its bounds on depth and nodes. The scan takes one unit of
-- fuel for each value, member or element that it enters, so two for each character are enough.
use swisstokint_open_risk_in.Prelude.{
  ℕ, zero, suc, ◌+◌, ◌*◌, Bool, ◌||◌, not, Option, none, some, List, [], ◌∷◌, Result, ok, err,
  guard, ◌>>=◌, ◌>>◌, ltb, leb, ◌==◌, if◌then◌else◌, codes, in_range, is_digit, length, any_of,
}
use swisstokint_open_risk_in.Json.Lex.{
  Units, JsonError, json_bounds, json_syntax, json_unsafe_key, json_duplicate_key, json_fuel,
  skip_whitespace, starts, expect, scan_string, scan_number, scan_literal, same_units,
}

abbrev pub max_depth : ℕ
max_depth = 8

abbrev pub max_nodes : ℕ
max_nodes = 1000

abbrev pub max_string_length : ℕ
max_string_length = 2048

abbrev pub max_key_length : ℕ
max_key_length = 64

-- How many nodes were counted, and what is left of the text.
abbrev pub Scanned : Type 0
Scanned = Result JsonError (ℕ × Units)

-- What the first character of a value announces.
pub data Token : Type 0 where
  open_brace open_bracket quote true_word false_word null_word digit no_token : Token

unfoldable pub token_of : ℕ → Token
token_of c =
    if c == b'{'
    then open_brace
    else if c == b'['
    then open_bracket
    else if c == b'"'
    then quote
    else if c == b't'
    then true_word
    else if c == b'f'
    then false_word
    else if c == b'n'
    then null_word
    else if c == b'-' || is_digit c
    then digit
    else no_token

abbrev pub mem_units : Units → List Units → Bool
mem_units k keys = any_of (same_units k) keys

-- `FORBIDDEN_KEYS.has(key)`
unfoldable pub is_forbidden : Units → Bool
is_forbidden k = mem_units k (codes "__proto__" ∷ codes "constructor" ∷ codes "prototype" ∷ [])

-- The checks of a key, given those before it
unfoldable pub check_key : List Units → Units → Result JsonError Unit
unfolding is_forbidden
check_key keys k = do
  guard (in_range 1 max_key_length (length k)) json_bounds
  guard (not (is_forbidden k)) json_unsafe_key
  guard (not (mem_units k keys)) json_duplicate_key

unfoldable pub string_value : ℕ → Units × Units → Scanned
string_value n (v, s) = do guard (leb (length v) max_string_length) json_bounds; ok (n, s)

unfoldable pub left : ℕ → Units → Scanned
left n s = ok (n, s)

-- After `{` or `[`: the closing bracket, or what is inside
unfoldable pub opened : (Units → Scanned) → ℕ → Units → Option Units → Scanned
opened inside n s none = inside s
opened inside n s (some rest) = ok (n, rest)

-- After a member or an element: the closing bracket, or a comma and what follows it
unfoldable pub continued : (Units → Scanned) → ℕ → Units → Option Units → Scanned
continued more n s none = do rest ← expect b',' s; more (skip_whitespace rest)
continued more n s (some rest) = ok (n, rest)

-- What a value is scanned as, given the scans of the members of an object and the elements of an array
unfoldable pub dispatch : (Units → Scanned) → (Units → Scanned) → ℕ → ℕ → Units → Token → Scanned
unfolding string_value left opened
dispatch members elements n c s open_brace =
    let inner = skip_whitespace s in opened members n inner (starts b'}' inner)
dispatch members elements n c s open_bracket =
    let inner = skip_whitespace s in opened elements n inner (starts b']' inner)
dispatch members elements n c s quote = scan_string s >>= string_value n
dispatch members elements n c s true_word = scan_literal (codes "rue") s >>= left n
dispatch members elements n c s false_word = scan_literal (codes "alse") s >>= left n
dispatch members elements n c s null_word = scan_literal (codes "ull") s >>= left n
dispatch members elements n c s digit = scan_number (c ∷ s) >>= left n
dispatch members elements n c s no_token = err json_syntax

unfoldable mutual
  unfolding dispatch token_of check_key continued

  -- `scanValue`, with the number of nodes counted before
  pub scan_value : ℕ → ℕ → ℕ → Units → Scanned
  scan_value zero depth n s = err json_fuel
  scan_value (suc fuel) depth n [] = do guard (leb depth max_depth) json_bounds; err json_syntax
  scan_value (suc fuel) depth n (c ∷ s) = do
    guard (leb depth max_depth) json_bounds
    guard (ltb n max_nodes) json_bounds
    dispatch (scan_members fuel depth [] (n + 1)) (scan_elements fuel depth (n + 1)) (n + 1) c s
        (token_of c)

  -- The loop of `scanObject`
  pub scan_members : ℕ → ℕ → List Units → ℕ → Units → Scanned
  scan_members zero depth keys n s = err json_fuel
  scan_members (suc fuel) depth keys n s = do
    start ← expect b'"' s
    (k, after_key) ← scan_string start
    check_key keys k
    after_colon ← expect b':' (skip_whitespace after_key)
    (m, rest) ← scan_value fuel (depth + 1) n (skip_whitespace after_colon)
    let tail = skip_whitespace rest
    continued (scan_members fuel depth (k ∷ keys) m) m tail (starts b'}' tail)

  -- The loop of `scanArray`
  pub scan_elements : ℕ → ℕ → ℕ → Units → Scanned
  scan_elements zero depth n s = err json_fuel
  scan_elements (suc fuel) depth n [] = err json_syntax
  scan_elements (suc fuel) depth n (c ∷ s) = do
    (m, rest) ← scan_value fuel (depth + 1) n (c ∷ s)
    let tail = skip_whitespace rest
    continued (scan_elements fuel depth m) m tail (starts b']' tail)

unfoldable pub ended : ℕ → Units → Result JsonError ℕ
ended n [] = ok n
ended n (c ∷ rest) = err json_syntax

unfoldable pub ended_text : ℕ × Units → Result JsonError ℕ
unfolding ended
ended_text (n, s) = ended n (skip_whitespace s)

-- `scan`: the number of nodes of a text that is accepted
unfoldable pub scan_text : Units → Result JsonError ℕ
unfolding scan_value ended_text
scan_text raw = scan_value (suc (2 * length raw)) 0 0 (skip_whitespace raw) >>= ended_text
