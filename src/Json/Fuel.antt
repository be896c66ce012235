-- ===== src/Json/Fuel.antt =====
-- The fuel of the scan, against the length of the text.
use swisstokint_open_risk_in.Prelude.{
  ℕ, zero, suc, ◌+◌, ◌≤◌, ◌<◌, ◌*◌, ◌≡◌, ◌≢◌, refl, inl, inr, Bool, true, false, Option, none, some,
  List, [], ◌∷◌, Result, ok, err, guard, ◌>>=◌, arith, length, Option-cases, Bool-cases, leb, ltb,
  not, codes,
}
use swisstokint_open_risk_in.Json.Lex.{
  Units, JsonError, json_bounds, json_syntax, json_unsafe_key, json_number, json_fuel, Mode, plain,
  Next, closed, bad, on, emit, next_unit, skip_whitespace, starts, expected, push, string_next,
  string_from, is_scalar_text, scalar_string, scan_string, skip_digits, goes_on, whole, integer,
  scan_number, scan_literal,
}
use swisstokint_open_risk_in.Json.Scan.{
  Scanned, Token, open_brace, open_bracket, quote, true_word, false_word, null_word, digit,
  no_token, token_of, max_depth, max_nodes, max_string_length, is_forbidden, check_key,
  string_value, left, opened, continued, dispatch, scan_value, scan_members, scan_elements, ended,
  ended_text, scan_text,
}
use swisstokint_open_risk_in.Json.Shorter.{
  skip_shorter, starts_shorter, string_shorter, literal_shorter, number_shorter,
}

-- A result that is not for want of fuel.
abbrev Spared : {A : Type 0} → Result JsonError A → Type 0
Spared (ok a) = Unit
Spared (err e) = e ≢ json_fuel

-- Besides, what is left is shorter than `m`.
abbrev Fine : ℕ → Scanned → Type 0
Fine m (ok (n, r)) = length r < m
Fine m (err e) = e ≢ json_fuel

Fine-bind :
    {A : Type 0} (m : ℕ) (x : Result JsonError A) (f : A → Scanned)
    → Spared x
    → ((a : A) → x ≡ ok a → Fine m (f a))
    → Fine m (x >>= f)
unfolding ◌>>=◌
Fine-bind m (ok a) f h k = k a refl
Fine-bind m (err e) f h k = h

Spared-bind :
    {A B : Type 0} (x : Result JsonError A) (f : A → Result JsonError B)
    → Spared x
    → ((a : A) → Spared (f a))
    → Spared (x >>= f)
unfolding ◌>>=◌
Spared-bind (ok a) f h k = k a
Spared-bind (err e) f h k = h

Fine-Spared : (m : ℕ) (x : Scanned) → Fine m x → Spared x
Fine-Spared m (ok (n, r)) h = tt
Fine-Spared m (err e) h = h

Fine-at : (m n : ℕ) (r : Units) (x : Scanned) → Fine m x → x ≡ ok (n, r) → length r < m
Fine-at m n r (ok (k, q)) h e = ground arith
Fine-at m n r (err x) h e = absurd (cc)

Fine-mono : (m k : ℕ) (x : Scanned) → m ≤ k → Fine m x → Fine k x
Fine-mono m k (ok (n, r)) h f = omega arith
Fine-mono m k (err e) h f = f

guard-Spared : (b : Bool) (e : JsonError) → e ≢ json_fuel → Spared (guard b e)
guard-Spared true e h = tt
guard-Spared false e h = h

bounds_other : json_bounds ≢ json_fuel
bounds_other e = cc

syntax_other : json_syntax ≢ json_fuel
syntax_other e = cc

expected-Spared : (o : Option Units) → Spared (expected o)
unfolding expected
expected-Spared none = syntax_other
expected-Spared (some s) = tt

pub expected-eq : (o : Option Units) (s : Units) → expected o ≡ ok s → o ≡ some s
unfolding expected
expected-eq none s h = absurd (cc)
expected-eq (some r) s h = ground arith

err-inj : {A : Type 0} (x y : JsonError) → ◌≡◌ {A = Result JsonError A} (err x) (err y) → x ≡ y
err-inj x y h = cc

Spared-not : {A : Type 0} (x : Result JsonError A) → Spared x → x ≢ err json_fuel
Spared-not (ok a) h e = cc
Spared-not (err x) h e = h (err-inj x json_fuel e)

push-Spared : (u : ℕ) (x : Result JsonError (Units × Units)) → Spared x → Spared (push u x)
push-Spared u (ok (v, s)) h = tt
push-Spared u (err e) h = h

string_next-Spared :
    (again : Mode → Result JsonError (Units × Units)) (k : Next) (s : Units)
    → ((m : Mode) → Spared (again m))
    → Spared (string_next again k s)
unfolding string_next
string_next-Spared again closed s h = tt
string_next-Spared again bad s h = syntax_other
string_next-Spared again (on k) s h = h k
string_next-Spared again (emit u) s h = push-Spared u (again plain) (h plain)

string_from-Spared : (m : Mode) (s : Units) → Spared (string_from m s)
unfolding string_from
string_from-Spared m [] = syntax_other
string_from-Spared m (c ∷ s) =
    string_next-Spared (λ k. string_from k s) (next_unit m c) s (λ k. string_from-Spared k s)

scalar_string-Spared : (x : Units × Units) → Spared (scalar_string x)
unfolding scalar_string
scalar_string-Spared (v, s) = elim (Bool-cases (is_scalar_text v)) [
  | inl e ↦ rw e tt
  | inr e ↦ rw e (λ q. cc)
]

scan_string-Spared : (s : Units) → Spared (scan_string s)
unfolding scan_string
scan_string-Spared s =
    Spared-bind (string_from plain s) scalar_string (string_from-Spared plain s)
      scalar_string-Spared

literal-Spared : (word s : Units) → Spared (scan_literal word s)
unfolding scan_literal
literal-Spared [] s = tt
literal-Spared (c ∷ word) [] = syntax_other
literal-Spared (c ∷ word) (d ∷ s) = ground (arith, literal-Spared word s, syntax_other)

whole-Spared : (s : Units) → Spared (whole s)
unfolding whole
whole-Spared s = elim (Bool-cases (goes_on s)) [ inl e ↦ rw e (λ q. cc) | inr e ↦ rw e tt ]

number_other : json_number ≢ json_fuel
number_other e = cc

integer-Spared : (n : Bool) (s : Units) → Spared (integer n s)
unfolding integer
integer-Spared n [] = syntax_other
integer-Spared n (c ∷ s) =
    ground (arith, number_other, syntax_other, whole-Spared s, whole-Spared (skip_digits s))

number-Spared : (s : Units) → Spared (scan_number s)
unfolding scan_number
number-Spared [] = syntax_other
number-Spared (c ∷ s) = ground (arith, integer-Spared true s, integer-Spared false (c ∷ s))

key-Spared : (keys : List Units) (k : Units) → Spared (check_key keys k)
unfolding check_key
key-Spared keys k = Spared-bind _ _ (guard-Spared _ _ bounds_other) (λ u.
    Spared-bind _ _ (guard-Spared (not (is_forbidden k)) json_unsafe_key (λ q. cc))
      (λ v. guard-Spared _ _ (λ q. cc)))

opened-Fine :
    (m : ℕ) (inside : Units → Scanned) (n c : ℕ) (s : Units)
    → length s < m
    → Fine m (inside s)
    → Fine m (opened inside n s (starts c s))
unfolding opened
opened-Fine m inside n c s h f = elim (Option-cases (starts c s)) [
  | inl e ↦ rw e f
  | inr (r, e) ↦ rw e (omega (arith, starts_shorter c s r e))
]

continued-Fine :
    (m : ℕ) (more : Units → Scanned) (n c : ℕ) (s : Units)
    → length s < m
    → ((r : Units) → length r < length s → Fine m (more r))
    → Fine m (continued more n s (starts c s))
unfolding continued
continued-Fine m more n c s h f = elim (Option-cases (starts c s)) [
  | inl e ↦ rw e (
      Fine-bind m (expected (starts b',' s)) _ (expected-Spared _) (λ r q.
        f (skip_whitespace r)
          (omega (arith, skip_shorter r, starts_shorter b',' s r (expected-eq _ r q)))))
  | inr (r, e) ↦ rw e (omega (arith, starts_shorter c s r e))
]

string_value-Fine : (m n : ℕ) (x : Units × Units) → length x.1 < m → Fine m (string_value n x)
unfolding string_value
string_value-Fine m n (v, s) h =
    Fine-bind m (guard (leb (length v) max_string_length) json_bounds) _
      (guard-Spared _ _ bounds_other) (λ u e. h)

left-Fine : (m n : ℕ) (s : Units) → length s < m → Fine m (left n s)
unfolding left
left-Fine m n s h = h

dispatch-Fine :
    (members elements : Units → Scanned) (n c : ℕ) (s : Units) (t : Token)
    → ((r : Units) → length r ≤ length s → Fine (suc (length s)) (members r))
    → ((r : Units) → length r ≤ length s → Fine (suc (length s)) (elements r))
    → Fine (suc (length s)) (dispatch members elements n c s t)
unfolding dispatch
dispatch-Fine members elements n c s open_brace f g =
    opened-Fine _ members n b'}' (skip_whitespace s) (omega (arith, skip_shorter s))
      (f _ (skip_shorter s))
dispatch-Fine members elements n c s open_bracket f g =
    opened-Fine _ elements n b']' (skip_whitespace s) (omega (arith, skip_shorter s))
      (g _ (skip_shorter s))
dispatch-Fine members elements n c s quote f g =
    Fine-bind _ (scan_string s) (string_value n) (scan_string-Spared s)
      (λ x e. string_value-Fine _ n x (omega (arith, string_shorter s x.0 x.1 e)))
dispatch-Fine members elements n c s true_word f g =
    Fine-bind _ (scan_literal (codes "rue") s) (left n) (literal-Spared _ s)
      (λ r e. left-Fine _ n r (omega (arith, literal_shorter _ s r e)))
dispatch-Fine members elements n c s false_word f g =
    Fine-bind _ (scan_literal (codes "alse") s) (left n) (literal-Spared _ s)
      (λ r e. left-Fine _ n r (omega (arith, literal_shorter _ s r e)))
dispatch-Fine members elements n c s null_word f g =
    Fine-bind _ (scan_literal (codes "ull") s) (left n) (literal-Spared _ s)
      (λ r e. left-Fine _ n r (omega (arith, literal_shorter _ s r e)))
dispatch-Fine members elements n c s digit f g =
    Fine-bind _ (scan_number (c ∷ s)) (left n) (number-Spared (c ∷ s))
      (λ r e. left-Fine _ n r (number_shorter (c ∷ s) r e))
dispatch-Fine members elements n c s no_token f g = syntax_other

mutual
  unfolding scan_value scan_members scan_elements

  value-Fine :
      (fuel depth n : ℕ) (s : Units)
      → 2 * length s < fuel
      → Fine (length s) (scan_value fuel depth n s)
  value-Fine zero depth n s h = absurd (omega arith)
  value-Fine (suc fuel) depth n [] h =
      Fine-bind _ (guard (leb depth max_depth) json_bounds) _ (guard-Spared _ _ bounds_other)
        (λ u e. syntax_other)
  value-Fine (suc fuel) depth n (c ∷ s) h =
      Fine-bind _ (guard (leb depth max_depth) json_bounds) _ (guard-Spared _ _ bounds_other)
        (λ u e.
          Fine-bind _ (guard (ltb n max_nodes) json_bounds) _ (guard-Spared _ _ bounds_other)
            (λ v q.
              dispatch-Fine _ _ (n + 1) c s (token_of c)
                (λ r shorter.
                  Fine-mono (length r) _ _ (omega arith)
                    (members-Fine fuel depth [] (n + 1) r (omega arith)))
                (λ r shorter.
                  Fine-mono (length r) _ _ (omega arith)
                    (elements-Fine fuel depth (n + 1) r (omega arith)))))

  members-Fine :
      (fuel depth : ℕ) (keys : List Units) (n : ℕ) (s : Units)
      → 2 * length s < fuel
      → Fine (length s) (scan_members fuel depth keys n s)
  members-Fine zero depth keys n s h = absurd (omega arith)
  members-Fine (suc fuel) depth keys n s h =
      Fine-bind _ (expected (starts b'"' s)) _ (expected-Spared _) (λ start e0.
        let l0 = starts_shorter b'"' s start (expected-eq _ start e0) in
        Fine-bind _ (scan_string start) _ (scan_string-Spared start) (λ x e1.
          let l1 = string_shorter start x.0 x.1 e1 in
          Fine-bind _ (check_key keys x.0) _ (key-Spared keys x.0) (λ u e2.
            Fine-bind _ (expected (starts b':' (skip_whitespace x.1))) _ (expected-Spared _)
              (λ after e3.
                let l3 = starts_shorter b':' _ after (expected-eq _ after e3) in
                let l2 = skip_shorter x.1 in
                let l4 = skip_shorter after in
                let f = value-Fine fuel (depth + 1) n (skip_whitespace after) (omega arith) in
                Fine-bind _ (scan_value fuel (depth + 1) n (skip_whitespace after)) _
                  (Fine-Spared _ _ f)
                  (λ y e5.
                    let l5 = Fine-at _ y.0 y.1 _ f e5 in
                    let l6 = skip_shorter y.1 in
                    continued-Fine _ (scan_members fuel depth (x.0 ∷ keys) y.0) y.0 b'}'
                      (skip_whitespace y.1) (omega arith)
                      (λ r shorter.
                        Fine-mono (length r) _ _ (omega arith)
                          (members-Fine fuel depth (x.0 ∷ keys) y.0 r (omega arith))))))))

  elements-Fine :
      (fuel depth n : ℕ) (s : Units)
      → 2 * length s + 1 < fuel
      → Fine (length s) (scan_elements fuel depth n s)
  elements-Fine zero depth n s h = absurd (omega arith)
  elements-Fine (suc fuel) depth n [] h = syntax_other
  elements-Fine (suc fuel) depth n (c ∷ s) h =
      let f = value-Fine fuel (depth + 1) n (c ∷ s) (omega arith) in
      Fine-bind _ (scan_value fuel (depth + 1) n (c ∷ s)) _ (Fine-Spared _ _ f) (λ y e5.
        let l5 = Fine-at _ y.0 y.1 _ f e5 in
        let l6 = skip_shorter y.1 in
        continued-Fine _ (scan_elements fuel depth y.0) y.0 b']' (skip_whitespace y.1) (omega arith)
          (λ r shorter.
            Fine-mono (length r) _ _ (omega arith) (elements-Fine fuel depth y.0 r (omega arith))))

ended-Spared : (n : ℕ) (s : Units) → Spared (ended n s)
unfolding ended
ended-Spared n [] = tt
ended-Spared n (c ∷ s) = syntax_other

ended_text-Spared : (x : ℕ × Units) → Spared (ended_text x)
unfolding ended_text
ended_text-Spared (n, s) = ended-Spared n (skip_whitespace s)

-- Whatever the text, its scan ends with the number of nodes or an error of the source's own: the fuel that
-- it is given is enough.
pub scan_terminates : (raw : Units) → scan_text raw ≢ err json_fuel
unfolding scan_text
scan_terminates raw h =
    let enough : 2 * length (skip_whitespace raw) < suc (2 * length raw) =
      omega (arith, skip_shorter raw) in
    Spared-not _
      (Spared-bind (scan_value (suc (2 * length raw)) 0 0 (skip_whitespace raw)) ended_text
        (Fine-Spared _ _ (value-Fine (suc (2 * length raw)) 0 0 (skip_whitespace raw) enough))
        ended_text-Spared)
      h
