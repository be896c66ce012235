-- ===== src/Json/Token.antt =====
-- The tokens of strict JSON by their own rules, apart from the scanner: strings, keys, integers, literals.
use swisstokint_open_risk_in.Prelude.{
  ℕ, suc, ◌+◌, ◌*◌, ◌≤◌, ◌≡◌, ◌≢◌, ◌⊎◌, List, [], ◌∷◌, codes, length,
}
use swisstokint_open_risk_in.Json.Lex.{Units}

-- A letter after a backslash, and the unit that the two stand for.
abbrev pub IsEscape : ℕ → ℕ → Type 0
IsEscape c u =
    ((c ≡ b'"') × (u ≡ 34))
    ⊎ (((c ≡ 92) × (u ≡ 92))
        ⊎ (((c ≡ b'/') × (u ≡ 47))
            ⊎ (((c ≡ b'b') × (u ≡ 8))
                ⊎ (((c ≡ b'f') × (u ≡ 12))
                    ⊎ (((c ≡ b'n') × (u ≡ 10))
                        ⊎ (((c ≡ b'r') × (u ≡ 13)) ⊎ ((c ≡ b't') × (u ≡ 9))))))))

-- A hexadecimal digit and its value.
abbrev pub IsHexDigit : ℕ → ℕ → Type 0
IsHexDigit c i =
    ((c ≡ 48 + i) × (i ≤ 9))
    ⊎ (((c + 10 ≡ 65 + i) × ((10 ≤ i) × (i ≤ 15))) ⊎ ((c + 10 ≡ 97 + i) × ((10 ≤ i) × (i ≤ 15))))

-- So many hexadecimal digits, the value that they make after a first part, and what follows them.
pub data HexRun : ℕ → ℕ → Units → ℕ → Units → Type 0 where
  run_end : (acc : ℕ) (s : Units) → HexRun 0 acc s acc s
  run_digit :
      (n acc c i u : ℕ) (s t : Units)
      → IsHexDigit c i
      → HexRun n (16 * acc + i) s u t
      → HexRun (suc n) acc (c ∷ s) u t

-- What follows an opening quote: the text, the string that it stands for, and what follows the closing
-- quote.
pub data Chars : Units → Units → Units → Type 0 where
  close_quote : (r : Units) → Chars (b'"' ∷ r) [] r
  plain_char :
      (c : ℕ) (s v r : Units) → c ≢ b'"' → c ≢ 92 → 32 ≤ c → Chars s v r → Chars (c ∷ s) (c ∷ v) r
  escaped_char :
      (c u : ℕ) (s v r : Units) → IsEscape c u → Chars s v r → Chars (92 ∷ c ∷ s) (u ∷ v) r
  unicode_char :
      (u : ℕ) (s t v r : Units) → HexRun 4 0 s u t → Chars t v r → Chars (92 ∷ b'u' ∷ s) (u ∷ v) r

abbrev pub IsHighHalf : ℕ → Type 0
IsHighHalf c = (0xd800 ≤ c) × (c ≤ 0xdbff)

abbrev pub IsLowHalf : ℕ → Type 0
IsLowHalf c = (0xdc00 ≤ c) × (c ≤ 0xdfff)

-- Unicode scalars: every high surrogate is followed by a low one, and no low one stands elsewhere.
pub data IsScalars : Units → Type 0 where
  no_units : IsScalars []
  one_unit : (c : ℕ) (s : Units) → (c ≤ 0xd7ff) ⊎ (0xe000 ≤ c) → IsScalars s → IsScalars (c ∷ s)
  two_halves :
      (c d : ℕ) (s : Units) → IsHighHalf c → IsLowHalf d → IsScalars s → IsScalars (c ∷ d ∷ s)

pub record IsQuoted (s v r : Units) : Type 0 where
  pub chars : Chars s v r
  pub scalars : IsScalars v

abbrev pub IsAmong : Units → List Units → Type 0
IsAmong k [] = ⊥
IsAmong k (l ∷ keys) = (k ≡ l) ⊎ IsAmong k keys

-- A key that may follow these.
pub record IsKey (keys : List Units) (k : Units) : Type 0 where
  pub nonempty : 1 ≤ length k
  pub short : length k ≤ 64
  pub no_prototype : (k ≢ codes "__proto__") × ((k ≢ codes "constructor") × (k ≢ codes "prototype"))
  pub unused : ¬ IsAmong k keys

abbrev pub IsDecimal : ℕ → Type 0
IsDecimal c = (48 ≤ c) × (c ≤ 57)

-- A fraction or an exponent.
pub data IsTail : Units → Type 0 where
  fraction : (c : ℕ) (s : Units) → IsDecimal c → IsTail (b'.' ∷ c ∷ s)
  exponent : (e c : ℕ) (s : Units) → (e ≡ b'e') ⊎ (e ≡ b'E') → IsDecimal c → IsTail (e ∷ c ∷ s)
  signed_exponent :
      (e g c : ℕ) (s : Units)
      → (e ≡ b'e') ⊎ (e ≡ b'E')
      → (g ≡ b'+') ⊎ (g ≡ b'-')
      → IsDecimal c
      → IsTail (e ∷ g ∷ c ∷ s)

-- Any number of digits, up to the last one.
pub data Digits : Units → Units → Type 0 where
  digits_end : Digits [] []
  digits_stop : (c : ℕ) (s : Units) → ¬ IsDecimal c → Digits (c ∷ s) (c ∷ s)
  digits_more : (c : ℕ) (s r : Units) → IsDecimal c → Digits s r → Digits (c ∷ s) r

-- An integer: zero, or digits that do not begin with zero, with or without a minus before them.
pub data IsInteger : Units → Units → Type 0 where
  zero_number : (r : Units) → ¬ IsTail r → IsInteger (b'0' ∷ r) r
  positive :
      (c : ℕ) (s r : Units) → (49 ≤ c) × (c ≤ 57) → Digits s r → ¬ IsTail r → IsInteger (c ∷ s) r
  negative :
      (c : ℕ) (s r : Units)
      → (49 ≤ c) × (c ≤ 57)
      → Digits s r
      → ¬ IsTail r
      → IsInteger (b'-' ∷ c ∷ s) r

abbrev pub IsBlank : ℕ → Type 0
IsBlank c = (c ≡ 32) ⊎ ((c ≡ 9) ⊎ ((c ≡ 10) ⊎ (c ≡ 13)))

-- Any number of blanks, up to the last one.
pub data Blanks : Units → Units → Type 0 where
  blanks_end : Blanks [] []
  blanks_stop : (c : ℕ) (s : Units) → ¬ IsBlank c → Blanks (c ∷ s) (c ∷ s)
  blanks_more : (c : ℕ) (s r : Units) → IsBlank c → Blanks s r → Blanks (c ∷ s) r
