-- ===== src/Canonical/Number.antt =====
-- Decimal numerals and JSON string literals: `String(n)` and `JSON.stringify(text)`.
use Prim.Native.Char.{Char, code}
use Prim.Native.String.{◌++◌}
use swisstokint_open_risk_in.Prelude.{
  ℕ, zero, suc, ◌+◌, ◌/◌, ◌%◌, String, true, false, ltb, ◌==◌, if◌then◌else◌,
}
use swisstokint_open_risk_in.Data.{Number, nat, neg, inexact}

abbrev digit_text : ℕ → String
digit_text d =
    if d == 0
    then "0"
    else if d == 1
    then "1"
    else if d == 2
    then "2"
    else if d == 3
    then "3"
    else if d == 4
    then "4"
    else if d == 5
    then "5"
    else if d == 6
    then "6"
    else if d == 7
    then "7"
    else if d == 8
    then "8"
    else "9"

-- The fuel falls by one and the number at least tenfold: fuel n + 1 is enough for n.
decimal : ℕ → ℕ → String → String
decimal zero n tail = tail
decimal (suc f) n tail = elim (ltb n 10) [
  | true ↦ digit_text n ++ tail
  | false ↦ decimal f (n / 10) (digit_text (n % 10) ++ tail)
]

unfoldable pub show_nat : ℕ → String
unfolding decimal
show_nat n = decimal (n + 1) n ""

-- The text of a safe integer; the source prints no other number.
unfoldable pub show_number : Number → String
unfolding show_nat
show_number (nat n) = show_nat n
show_number (neg n) = "-" ++ show_nat (n + 1)
show_number (inexact t) = "NaN"

hex_digit : ℕ → String
hex_digit d =
    if ltb d 10
    then digit_text d
    else if d == 10
    then "a"
    else if d == 11
    then "b"
    else if d == 12
    then "c"
    else if d == 13
    then "d"
    else if d == 14
    then "e"
    else "f"

escape : Char → String
unfolding hex_digit
escape ch =
    let c = code ch in
    if c == 34
    then "\\\""
    else if c == 92
    then "\\\\"
    else if c == 8
    then "\\b"
    else if c == 9
    then "\\t"
    else if c == 10
    then "\\n"
    else if c == 12
    then "\\f"
    else if c == 13
    then "\\r"
    else if ltb c 32
    then "\\u00" ++ (hex_digit (c / 16) ++ hex_digit (c % 16))
    else String.◌∷◌ ch String.[]

escape_all : String → String
unfolding escape
escape_all String.[] = "\""
escape_all (String.◌∷◌ c s) = escape c ++ escape_all s

unfoldable pub json_string : String → String
unfolding escape_all
json_string s = "\"" ++ escape_all s
