-- ===== src/Prelude/Text.antt =====
-- Texts: character classes, the length that JavaScript reports, and the order of code units.
use Prim.Native.Nat.{ℕ, ◌+◌, Ordering}
use Prim.Native.Char.{code}
use Prim.Native.String.{String, compare}
use mathlib.Core.Bool.{Bool, true, false, ◌&&◌, ◌||◌}
use mathlib.Core.List.{List, [], ◌∷◌}
use text.Mathlib.Text.{◌==◌ as str_eq}
use swisstokint_open_risk_in.Prelude.Tests.{ltb, leb, ◌==◌, if◌then◌else◌}

abbrev pub codes : String → List ℕ
codes String.[] = []
codes (String.◌∷◌ c s) = code c ∷ codes s

abbrev pub in_range : ℕ → ℕ → ℕ → Bool
in_range lo hi c = leb lo c && leb c hi

-- `[0-9]`, `[a-z]`, `[A-Z]`, `[a-f0-9]`, `[A-Za-z0-9]`
unfoldable pub is_digit : ℕ → Bool
is_digit c = in_range b'0' b'9' c

unfoldable pub is_lower : ℕ → Bool
is_lower c = in_range b'a' b'z' c

unfoldable pub is_upper : ℕ → Bool
is_upper c = in_range b'A' b'Z' c

unfoldable pub is_hex : ℕ → Bool
unfolding is_digit
is_hex c = in_range b'a' b'f' c || is_digit c

unfoldable pub is_alnum : ℕ → Bool
unfolding is_digit is_lower is_upper
is_alnum c = is_digit c || is_lower c || is_upper c

-- `/^C{n}$/`, `/^C+$/` and the like: every character lies in the class.
unfoldable pub all_codes : (ℕ → Bool) → List ℕ → Bool
all_codes p [] = true
all_codes p (c ∷ s) = p c && all_codes p s

unfoldable pub count : List ℕ → ℕ
count [] = 0
count (c ∷ s) = 1 + count s

-- `s.length`: a character outside the basic plane takes two code units.
unfoldable pub utf16_length : List ℕ → ℕ
utf16_length [] = 0
utf16_length (c ∷ s) = (if ltb c 0x10000 then 1 else 2) + utf16_length s

-- `left < right`, by code points: the order of JavaScript on texts without characters outside the
-- basic plane.
abbrev pub text_lt : String → String → Bool
text_lt s t = elim (compare s t) [ Ordering.lt ↦ true | _ ↦ false ]

-- The head lies in one class and the others in a second, with bounds on how many others there are.
unfoldable pub head_tail : (ℕ → Bool) → (ℕ → Bool) → ℕ → ℕ → List ℕ → Bool
unfolding all_codes count
head_tail first rest lo hi [] = false
head_tail first rest lo hi (c ∷ s) = first c && all_codes rest s && in_range lo hi (count s)

-- A text that begins with `p`, what follows it.
unfoldable pub strip_prefix : List ℕ → List ℕ → Bool × List ℕ
strip_prefix [] s = (true, s)
strip_prefix (c ∷ p) [] = (false, [])
strip_prefix (c ∷ p) (d ∷ s) =
    let rest = strip_prefix p s in if leb c d && leb d c then rest else (false, [])

-- `prefix` followed by exactly `n` characters of the class
unfoldable pub tagged : List ℕ → (ℕ → Bool) → ℕ → List ℕ → Bool
unfolding strip_prefix all_codes count
tagged prefix p n s =
    let (hit, rest) = strip_prefix prefix s in hit && all_codes p rest && in_range n n (count rest)

-- `/^[a-f0-9]{64}$/`
unfoldable pub hash_pattern : String → Bool
unfolding all_codes count is_hex
hash_pattern s = all_codes is_hex (codes s) && in_range 64 64 (count (codes s))

unfoldable pub is_id_code : ℕ → Bool
unfolding is_alnum
is_id_code c = is_alnum c || c == b'.' || c == b'_' || c == b'-'

-- `/^[A-Za-z0-9][A-Za-z0-9._-]{15,127}$/`
unfoldable pub id_pattern : String → Bool
unfolding is_id_code head_tail
id_pattern s = head_tail is_alnum is_id_code 15 127 (codes s)

-- `/^[A-Za-z0-9][A-Za-z0-9._-]{0,63}$/`
unfoldable pub source_key_id_pattern : String → Bool
unfolding is_id_code head_tail
source_key_id_pattern s = head_tail is_alnum is_id_code 0 63 (codes s)

abbrev pub mem_text : String → List String → Bool
mem_text k [] = false
mem_text k (x ∷ xs) = str_eq k x || mem_text k xs
