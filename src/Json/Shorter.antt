-- ===== src/Json/Shorter.antt =====
-- The length of what a token leaves of the text.
use swisstokint_open_risk_in.Prelude.{
  ℕ, suc, ◌≤◌, ◌<◌, ◌≡◌, subst, Bool, true, false, some, [], ◌∷◌, Result, ok, err, arith, length,
  >>=-eq-ok,
}
use swisstokint_open_risk_in.Json.Lex.{
  Units, JsonError, Mode, plain, Next, closed, bad, on, emit, next_unit, skip_whitespace, starts,
  push, string_from, string_next, scalar_string, scan_string, skip_digits, whole, integer,
  scan_number, scan_literal,
}

pub skip_shorter : (s : Units) → length (skip_whitespace s) ≤ length s
unfolding skip_whitespace
skip_shorter [] = omega arith
skip_shorter (c ∷ s) = ground (arith, skip_shorter s)

pub starts_shorter : (c : ℕ) (s r : Units) → starts c s ≡ some r → length s ≡ suc (length r)
unfolding starts
starts_shorter c [] r h = cc
starts_shorter c (d ∷ s) r h = ground arith

push_shorter :
    (u : ℕ) (x : Result JsonError (Units × Units)) (v r : Units)
    → push u x ≡ ok (v, r)
    → (w : Units) × (x ≡ ok (w, r))
push_shorter u (ok (w, q)) v r h = (w, ground arith)
push_shorter u (err e) v r h = absurd (cc)

string_next_shorter :
    (again : Mode → Result JsonError (Units × Units)) (k : Next) (s v r : Units)
    → ((m : Mode) (w q : Units) → again m ≡ ok (w, q) → length q < length s)
    → string_next again k s ≡ ok (v, r)
    → length r ≤ length s
unfolding string_next
string_next_shorter again closed s v r ih h = ground arith
string_next_shorter again bad s v r ih h = absurd (cc)
string_next_shorter again (on m) s v r ih h = omega (arith, ih m v r h)
string_next_shorter again (emit u) s v r ih h =
    let (w, e) = push_shorter u (again plain) v r h in omega (arith, ih plain w r e)

string_from_shorter : (m : Mode) (s v r : Units) → string_from m s ≡ ok (v, r) → length r < length s
unfolding string_from
string_from_shorter m [] v r h = absurd (cc)
string_from_shorter m (c ∷ s) v r h = omega (
  arith,
  string_next_shorter (λ k. string_from k s) (next_unit m c) s v r
      (λ k w q e. string_from_shorter k s w q e) h,
)

scalar_string-eq : (x : Units × Units) (v r : Units) → scalar_string x ≡ ok (v, r) → x.1 ≡ r
unfolding scalar_string
scalar_string-eq (w, q) v r h = ground arith

pub string_shorter : (s v r : Units) → scan_string s ≡ ok (v, r) → length r < length s
unfolding scan_string
string_shorter s v r h =
    let ((w, q), e, k) = >>=-eq-ok (string_from plain s) scalar_string h in
    subst (λ x. length x < length s) (scalar_string-eq (w, q) v r k)
      (string_from_shorter plain s w q e)

pub literal_shorter : (word s r : Units) → scan_literal word s ≡ ok r → length r ≤ length s
unfolding scan_literal
literal_shorter [] s r h = ground arith
literal_shorter (c ∷ word) [] r h = absurd (cc)
literal_shorter (c ∷ word) (d ∷ s) r h = ground (arith, literal_shorter word s r)

digits_shorter : (s : Units) → length (skip_digits s) ≤ length s
unfolding skip_digits
digits_shorter [] = omega arith
digits_shorter (c ∷ s) = ground (arith, digits_shorter s)

whole_shorter : (s r : Units) → whole s ≡ ok r → s ≡ r
unfolding whole
whole_shorter s r h = ground arith

integer_shorter : (n : Bool) (s r : Units) → integer n s ≡ ok r → length r < length s
unfolding integer
integer_shorter n [] r h = absurd (cc)
integer_shorter n (c ∷ s) r h =
    ground (arith, whole_shorter s r, whole_shorter (skip_digits s) r, digits_shorter s)

pub number_shorter : (s r : Units) → scan_number s ≡ ok r → length r < length s
unfolding scan_number
number_shorter [] r h = absurd (cc)
number_shorter (c ∷ s) r h =
    ground (arith, integer_shorter true s r, integer_shorter false (c ∷ s) r)
