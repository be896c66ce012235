-- ===== src/Json/Lex.antt =====
-- The tokens of a strict JSON text: white space, strings, numbers and literals. A text is the list of its
-- UTF-16 code units, so that unpaired surrogates can occur; what is left of it stands for the source's
-- `raw` and `index`.
use swisstokint_open_risk_in.Prelude.{
  ℕ, ◌+◌, ◌-◌, ◌*◌, Bool, true, false, ◌&&◌, ◌||◌, not, Option, none, some, List, [], ◌∷◌, Result,
  ok, err, ◌>>=◌, leb, ◌==◌, if◌then◌else◌, in_range, is_digit,
}

abbrev pub Units : Type 0
Units = List ℕ

-- The codes of `WalletGuardJsonIngressError`; `json_fuel` ends a scan whose bound was too small.
pub data JsonError : Type 0 where
  json_input json_bounds json_syntax json_unicode json_unsafe_key json_duplicate_key : JsonError
  json_number json_shape json_version json_id json_method json_params json_canonical : JsonError
  json_fuel : JsonError

abbrev pub is_whitespace : ℕ → Bool
is_whitespace c = c == 32 || c == 10 || c == 13 || c == 9

-- `skipWhitespace`
unfoldable pub skip_whitespace : Units → Units
skip_whitespace [] = []
skip_whitespace (c ∷ s) = let rest = skip_whitespace s in if is_whitespace c then rest else c ∷ s

-- `this.raw[this.index] === c`: what follows it
unfoldable pub starts : ℕ → Units → Option Units
starts c [] = none
starts c (d ∷ s) = if d == c then some s else none

unfoldable pub expected : Option Units → Result JsonError Units
expected none = err json_syntax
expected (some s) = ok s

abbrev pub expect : ℕ → Units → Result JsonError Units
expect c s = expected (starts c s)

-- Where a string token stands: after plain units, after a backslash, or in a unicode escape with so many
-- digits to come.
pub data Mode : Type 0 where
  plain escape : Mode
  hex : ℕ → ℕ → Mode

pub data Next : Type 0 where
  closed bad : Next
  -- no unit of the string is complete, or one is
  on : Mode → Next
  emit : ℕ → Next

abbrev is_hex_unit : ℕ → Bool
is_hex_unit c = is_digit c || in_range b'a' b'f' c || in_range b'A' b'F' c

abbrev hex_value : ℕ → ℕ
hex_value c = if leb c 57 then c - 48 else if leb c 70 then c - 55 else c - 87

-- The unit that an escaped letter stands for
abbrev escaped_unit : ℕ → Option ℕ
escaped_unit c =
    if c == b'"' || c == 92 || c == b'/'
    then some c
    else if c == b'b'
    then some 8
    else if c == b'f'
    then some 12
    else if c == b'n'
    then some 10
    else if c == b'r'
    then some 13
    else if c == b't'
    then some 9
    else none

abbrev after_escape : Option ℕ → Next
after_escape none = bad
after_escape (some u) = emit u

unfoldable pub next_unit : Mode → ℕ → Next
next_unit plain c =
    if c == b'"' then closed else if c == 92 then on escape else if leb c 31 then bad else emit c
next_unit escape c = if c == b'u' then on (hex 4 0) else after_escape (escaped_unit c)
next_unit (hex n acc) c =
    if is_hex_unit c
    then if leb n 1
      then emit (16 * acc + hex_value c)
      else on (hex (n - 1) (16 * acc + hex_value c))
    else bad

abbrev pub push : ℕ → Result JsonError (Units × Units) → Result JsonError (Units × Units)
push u (ok (v, s)) = ok (u ∷ v, s)
push u (err e) = err e

unfoldable pub string_next :
    (Mode → Result JsonError (Units × Units)) → Next → Units → Result JsonError (Units × Units)
string_next again closed s = ok ([], s)
string_next again bad s = err json_syntax
string_next again (on k) s = again k
string_next again (emit u) s = push u (again plain)

-- `scanString` after the opening quote, up to the decoding of the token by `JSON.parse`: the string and
-- what follows it.
unfoldable pub string_from : Mode → Units → Result JsonError (Units × Units)
unfolding next_unit string_next
string_from m [] = err json_syntax
string_from m (c ∷ s) = string_next (λ k. string_from k s) (next_unit m c) s

abbrev is_high : ℕ → Bool
is_high c = in_range 0xd800 0xdbff c

abbrev is_low : ℕ → Bool
is_low c = in_range 0xdc00 0xdfff c

-- Whether the unit after this one has to be a low surrogate, `none` if this one is unpaired
unfoldable pub next_half : Bool → ℕ → Option Bool
next_half true c = if is_low c then some false else none
next_half false c = if is_high c then some true else if is_low c then none else some false

unfoldable pub scalar_from : Bool → Units → Bool
unfolding next_half
scalar_from high [] = not high
scalar_from high (c ∷ s) = elim (next_half high c) [ none ↦ false | some h ↦ scalar_from h s ]

-- `assertUnicodeScalarString`
unfoldable pub is_scalar_text : Units → Bool
unfolding scalar_from
is_scalar_text s = scalar_from false s

unfoldable pub scalar_string : Units × Units → Result JsonError (Units × Units)
unfolding is_scalar_text
scalar_string (v, s) = if is_scalar_text v then ok (v, s) else err json_unicode

-- `scanString`, after the opening quote
unfoldable pub scan_string : Units → Result JsonError (Units × Units)
unfolding string_from scalar_string
scan_string s = string_from plain s >>= scalar_string

unfoldable pub skip_digits : Units → Units
skip_digits [] = []
skip_digits (c ∷ s) = let rest = skip_digits s in if is_digit c then rest else c ∷ s

abbrev pub starts_digit : Units → Bool
starts_digit [] = false
starts_digit (c ∷ s) = is_digit c

abbrev pub is_sign : ℕ → Bool
is_sign c = c == b'+' || c == b'-'

unfoldable pub after_sign : Units → Units
after_sign [] = []
after_sign (c ∷ s) = if is_sign c then s else c ∷ s

-- The number goes on with a fraction or an exponent.
unfoldable pub goes_on : Units → Bool
unfolding after_sign
goes_on [] = false
goes_on (c ∷ s) =
    (c == b'.' && starts_digit s) || ((c == b'e' || c == b'E') && starts_digit (after_sign s))

unfoldable pub whole : Units → Result JsonError Units
unfolding goes_on
whole s = if goes_on s then err json_number else ok s

unfoldable pub integer : Bool → Units → Result JsonError Units
unfolding skip_digits whole
integer negative [] = err json_syntax
integer negative (c ∷ s) =
    if c == b'0'
    then (if negative then err json_number else whole s)
    else if is_digit c
    then whole (skip_digits s)
    else err json_syntax

-- `scanNumber`, from its first character on
unfoldable pub scan_number : Units → Result JsonError Units
unfolding integer
scan_number [] = err json_syntax
scan_number (c ∷ s) = if c == b'-' then integer true s else integer false (c ∷ s)

-- `scanLiteral`, after its first character
unfoldable pub scan_literal : Units → Units → Result JsonError Units
scan_literal [] s = ok s
scan_literal (c ∷ word) [] = err json_syntax
scan_literal (c ∷ word) (d ∷ s) =
    let rest = scan_literal word s in if d == c then rest else err json_syntax

unfoldable pub same_units : Units → Units → Bool
same_units [] [] = true
same_units [] (d ∷ t) = false
same_units (c ∷ s) [] = false
same_units (c ∷ s) (d ∷ t) = let rest = same_units s t in c == d && rest
