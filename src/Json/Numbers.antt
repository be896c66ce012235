-- ===== src/Json/Numbers.antt =====
-- Integers: `scan_number` and the rules of Json/Token.
use swisstokint_open_risk_in.Prelude.{
  ℕ, ◌≤◌, ◌≡◌, ◌≢◌, refl, ap, subst, ◌⊎◌, inl, inr, Bool, true, false, [], ◌∷◌, ok, arith,
  Bool-cases, ◌&&◌, is_digit, ◌==◌, ==_iff,
}
use swisstokint_open_risk_in.Json.Lex.{
  Units, skip_digits, starts_digit, goes_on, whole, integer, scan_number, after_sign, is_sign,
}
use swisstokint_open_risk_in.Json.Scan.{token_of, digit}
use swisstokint_open_risk_in.Json.Token.{
  IsDecimal, IsTail, fraction, exponent, signed_exponent, Digits, digits_end, digits_stop,
  digits_more, IsInteger, zero_number, positive, negative,
}

is_digit-IsDecimal : (c : ℕ) → is_digit c ≡ true → IsDecimal c
unfolding is_digit
is_digit-IsDecimal c h = ground arith

IsDecimal-is_digit : (c : ℕ) → IsDecimal c → is_digit c ≡ true
unfolding is_digit
IsDecimal-is_digit c h = ground arith

digit_absent : (c : ℕ) → is_digit c ≡ false → ¬ IsDecimal c
unfolding is_digit
digit_absent c h d = ground arith

absent_digit : (c : ℕ) → ¬ IsDecimal c → is_digit c ≡ false
unfolding is_digit
absent_digit c h = elim (Bool-cases (is_digit c)) [
  | inl e ↦ absurd (h (is_digit-IsDecimal c e))
  | inr e ↦ e
]

skip_digits-Digits : (s : Units) → Digits s (skip_digits s)
unfolding skip_digits
skip_digits-Digits [] = digits_end
skip_digits-Digits (c ∷ s) = elim (Bool-cases (is_digit c)) [
  | inl e ↦ rw e (digits_more c s _ (is_digit-IsDecimal c e) (skip_digits-Digits s))
  | inr e ↦ rw e (digits_stop c s (digit_absent c e))
]

Digits-skip_digits : (s r : Units) → Digits s r → skip_digits s ≡ r
unfolding skip_digits
Digits-skip_digits _ _ digits_end = refl
Digits-skip_digits _ _ (digits_stop c s n) = rw (absent_digit c n) refl
Digits-skip_digits _ _ (digits_more c s r d h) =
    rw (IsDecimal-is_digit c d) (Digits-skip_digits s r h)

goes_on_of : (s : Units) → IsTail s → goes_on s ≡ true
unfolding goes_on after_sign is_digit
goes_on_of _ (fraction c s d) = ground arith
goes_on_of _ (exponent e c s x d) = ground arith
goes_on_of _ (signed_exponent e g c s x y d) = ground arith

dot_goes_on : (s : Units) → starts_digit s ≡ true → IsTail (b'.' ∷ s)
dot_goes_on [] h = absurd (cc)
dot_goes_on (c ∷ s) h = fraction c s (is_digit-IsDecimal c h)

exponent_goes_on :
    (e : ℕ) (s : Units)
    → (e ≡ b'e') ⊎ (e ≡ b'E')
    → starts_digit (after_sign s) ≡ true
    → IsTail (e ∷ s)
unfolding after_sign
exponent_goes_on e [] x h = absurd (cc)
exponent_goes_on e (c ∷ []) x h = elim (Bool-cases (is_sign c)) [
  | inl g ↦ absurd (ground arith)
  | inr g ↦ exponent e c [] x (is_digit-IsDecimal c (ground arith))
]
exponent_goes_on e (c ∷ d ∷ s) x h = elim (Bool-cases (is_sign c)) [
  | inl g ↦ signed_exponent e c d s x (ground arith) (is_digit-IsDecimal d (ground arith))
  | inr g ↦ exponent e c (d ∷ s) x (is_digit-IsDecimal c (ground arith))
]

goes_on-IsTail : (s : Units) → goes_on s ≡ true → IsTail s
unfolding goes_on
goes_on-IsTail [] h = absurd (cc)
goes_on-IsTail (e ∷ s) h = elim (Bool-cases (e == b'.' && starts_digit s)) [
  | inl q ↦ let x : e ≡ b'.' = ground arith in rw x (dot_goes_on s (ground arith))
  | inr q ↦ exponent_goes_on e s (ground arith) (ground arith)
]

whole-eq : (s r : Units) → whole s ≡ ok r → (s ≡ r) × ¬ IsTail r
unfolding whole
whole-eq s r h = elim (Bool-cases (goes_on s)) [
  | inl e ↦ absurd (ground arith)
  | inr e ↦
      let q : s ≡ r = ground arith in
      (q, λ t. let z = goes_on_of r t in ground (arith, ap goes_on q))
]

whole_self : (r : Units) → ¬ IsTail r → whole r ≡ ok r
unfolding whole
whole_self r n = elim (Bool-cases (goes_on r)) [
  | inl e ↦ absurd (n (goes_on-IsTail r e))
  | inr e ↦ rw e refl
]

first_digit : (c : ℕ) → (49 ≤ c) × (c ≤ 57) → (is_digit c ≡ true) × (c ≢ b'0')
unfolding is_digit
first_digit c h = ground arith

not_zero : (c : ℕ) → is_digit c ≡ true → (c == b'0') ≡ false → (49 ≤ c) × (c ≤ 57)
unfolding is_digit
not_zero c d h = ground arith

digit_run :
    (c : ℕ) (s r : Units)
    → is_digit c ≡ true
    → (c == b'0') ≡ false
    → whole (skip_digits s) ≡ ok r
    → ((49 ≤ c) × (c ≤ 57)) × (Digits s r × ¬ IsTail r)
digit_run c s r d z h =
    let (same, n) = whole-eq (skip_digits s) r h in
    (not_zero c d z, (subst (Digits s) same (skip_digits-Digits s), n))

plain_integer : (s r : Units) → integer false s ≡ ok r → IsInteger s r
unfolding integer
plain_integer [] r h = absurd (cc)
plain_integer (c ∷ s) r h = elim (Bool-cases (c == b'0')) [
  | inl z ↦
      let x : c ≡ b'0' = (==_iff c _).0 z in
      let (same, n) = whole-eq s r (ground arith) in rw (x, same) (zero_number r n)
  | inr z ↦ elim (Bool-cases (is_digit c)) [
    | inl d ↦ let (a, (b, n)) = digit_run c s r d z (ground arith) in positive c s r a b n
    | inr d ↦ absurd (ground arith)
  ]
]

minus_integer : (s r : Units) → integer true s ≡ ok r → IsInteger (b'-' ∷ s) r
unfolding integer
minus_integer [] r h = absurd (cc)
minus_integer (c ∷ s) r h = elim (Bool-cases (c == b'0')) [
  | inl z ↦ absurd (ground arith)
  | inr z ↦ elim (Bool-cases (is_digit c)) [
    | inl d ↦ let (a, (b, n)) = digit_run c s r d z (ground arith) in negative c s r a b n
    | inr d ↦ absurd (ground arith)
  ]
]

pub scan_number-IsInteger : (s r : Units) → scan_number s ≡ ok r → IsInteger s r
unfolding scan_number
scan_number-IsInteger [] r h = absurd (cc)
scan_number-IsInteger (c ∷ s) r h = elim (Bool-cases (c == b'-')) [
  | inl z ↦ let x : c ≡ b'-' = (==_iff c _).0 z in rw x (minus_integer s r (ground arith))
  | inr z ↦ plain_integer (c ∷ s) r (ground arith)
]

digit_accepted :
    (negated : Bool) (c : ℕ) (s r : Units)
    → (49 ≤ c) × (c ≤ 57)
    → Digits s r
    → ¬ IsTail r
    → integer negated (c ∷ s) ≡ ok r
unfolding integer
digit_accepted negated c s r f d n =
    let (a, b) = first_digit c f in
    let z : (c == b'0') ≡ false = ground arith in
    rw (z, a, Digits-skip_digits s r d, whole_self r n) refl

pub IsInteger-scan_number : (s r : Units) → IsInteger s r → scan_number s ≡ ok r
unfolding scan_number integer
IsInteger-scan_number _ _ (zero_number r n) = whole_self r n
IsInteger-scan_number _ _ (positive c s r f d n) =
    let z : (c == b'-') ≡ false = ground arith in rw z (digit_accepted false c s r f d n)
IsInteger-scan_number _ _ (negative c s r f d n) = digit_accepted true c s r f d n

-- The first character of an integer
pub IsInteger-token : (c : ℕ) (s r : Units) → IsInteger (c ∷ s) r → token_of c ≡ digit
unfolding token_of is_digit
IsInteger-token _ _ _ (zero_number r n) = refl
IsInteger-token _ _ _ (positive c s r f d n) = ground arith
IsInteger-token _ _ _ (negative c s r f d n) = refl
