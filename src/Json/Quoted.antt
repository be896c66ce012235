-- ===== src/Json/Quoted.antt =====
-- Strings: `scan_string` and the rules of Json/Token.
use swisstokint_open_risk_in.Prelude.{
  ℕ, zero, suc, ◌+◌, ◌*◌, ◌≤◌, ◌≡◌, ◌≢◌, refl, sym, subst, ap, ◌∙◌, ◌⊎◌, inl, inr, Bool, true,
  false, some, [], ◌∷◌, Result, ok, err, ◌>>=◌, ◌-◌, arith, Bool-cases, Option-cases, is_digit,
  >>=-eq-ok, leb,
}
use swisstokint_open_risk_in.Json.Lex.{
  Units, JsonError, Mode, plain, escape, hex, Next, closed, bad, on, emit, next_unit, push,
  string_from, string_next, scalar_string, scan_string, is_scalar_text, scalar_from, next_half,
}
use swisstokint_open_risk_in.Json.Token.{
  IsEscape, IsHexDigit, HexRun, run_end, run_digit, Chars, close_quote, plain_char, escaped_char,
  unicode_char, IsScalars, no_units, one_unit, two_halves, IsQuoted, IsHighHalf, IsLowHalf,
}

-- What is left of a string in a mode.
abbrev Reads : Mode → Units → Units → Units → Type 0
Reads plain s v r = Chars s v r
Reads escape s v r = Chars (92 ∷ s) v r
Reads (hex zero acc) s v r = Unit
Reads (hex (suc n) acc) s v r =
    (u : ℕ) × ((t : Units) × ((w : Units) × (HexRun (suc n) acc s u t
          × (Chars t w r × (v ≡ u ∷ w)))))

pushed :
    (u : ℕ) (x : Result JsonError (Units × Units)) (v r : Units)
    → push u x ≡ ok (v, r)
    → (w : Units) × ((x ≡ ok (w, r)) × (v ≡ u ∷ w))
pushed u (ok (w, q)) v r h = (w, (ground arith, ground arith))
pushed u (err e) v r h = absurd (cc)

plain_closed : (c : ℕ) → next_unit plain c ≡ closed → c ≡ 34
unfolding next_unit
plain_closed c h = ground arith

plain_on : (c : ℕ) (m : Mode) → next_unit plain c ≡ on m → (c ≡ 92) × (m ≡ escape)
unfolding next_unit
plain_on c m h = ground arith

plain_emit : (c u : ℕ) → next_unit plain c ≡ emit u → (c ≡ u) × ((c ≢ 34) × ((c ≢ 92) × (32 ≤ c)))
unfolding next_unit
plain_emit c u h = ground arith

escape_closed : (c : ℕ) → next_unit escape c ≡ closed → ⊥
unfolding next_unit
escape_closed c h = ground arith

escape_on : (c : ℕ) (m : Mode) → next_unit escape c ≡ on m → (c ≡ 117) × (m ≡ hex 4 0)
unfolding next_unit
escape_on c m h = ground arith

escape_emit : (c u : ℕ) → next_unit escape c ≡ emit u → IsEscape c u
unfolding next_unit
escape_emit c u h = ground arith

hex_closed : (n acc c : ℕ) → next_unit (hex n acc) c ≡ closed → ⊥
unfolding next_unit
hex_closed n acc c h = ground arith

hex_on :
    (n acc c : ℕ) (m : Mode)
    → next_unit (hex (suc n) acc) c ≡ on m
    → (i : ℕ) × (IsHexDigit c i × ((1 ≤ n) × (m ≡ hex n (16 * acc + i))))
unfolding next_unit is_digit
hex_on n acc c m h = elim (Bool-cases (leb c 57)) [
  | inl e ↦ (c - 48, ground arith)
  | inr e ↦ elim (Bool-cases (leb c 70)) [
    | inl e' ↦ (c - 55, ground arith)
    | inr e' ↦ (c - 87, ground arith)
  ]
]

hex_emit :
    (n acc c u : ℕ)
    → next_unit (hex (suc n) acc) c ≡ emit u
    → (i : ℕ) × (IsHexDigit c i × ((n ≡ 0) × (u ≡ 16 * acc + i)))
unfolding next_unit is_digit
hex_emit n acc c u h = elim (Bool-cases (leb c 57)) [
  | inl e ↦ (c - 48, ground arith)
  | inr e ↦ elim (Bool-cases (leb c 70)) [
    | inl e' ↦ (c - 55, ground arith)
    | inr e' ↦ (c - 87, ground arith)
  ]
]

mode_next :
    (m : Mode) (c : ℕ) (s v r : Units) (k : Next)
    → next_unit m c ≡ k
    → string_next (λ k. string_from k s) k s ≡ ok (v, r)
    → ((k : Mode) (w q : Units) → string_from k s ≡ ok (w, q) → Reads k s w q)
    → Reads m (c ∷ s) v r
unfolding string_next
mode_next plain c s v r closed e h ih =
    let x = plain_closed c e in
    let a : v ≡ [] = ground arith in let b : r ≡ s = ground arith in rw (x, a, b) (close_quote s)
mode_next plain c s v r (on m) e h ih =
    let (x, y) = plain_on c m e in rw x (ih escape v r (ap (λ m. string_from m s) (sym y) ∙ h))
mode_next plain c s v r (emit u) e h ih =
    let (w, (x, y)) = pushed u _ v r h in
    let (same, (a, (b, d))) = plain_emit c u e in
    rw (y, sym same) (plain_char c s w r a b d (ih plain w r x))
mode_next escape c s v r closed e h ih = absurd (escape_closed c e)
mode_next escape c s v r (on m) e h ih =
    let (x, y) = escape_on c m e in
    let (u, (t, (w, (run, (chars, z))))) =
      ih (hex 4 0) v r (ap (λ m. string_from m s) (sym y) ∙ h) in
    rw (x, z) (unicode_char u s t w r run chars)
mode_next escape c s v r (emit u) e h ih =
    let (w, (x, y)) = pushed u _ v r h in
    rw y (escaped_char c u s w r (escape_emit c u e) (ih plain w r x))
mode_next (hex zero acc) c s v r k e h ih = tt
mode_next (hex (suc n) acc) c s v r closed e h ih = absurd (hex_closed (suc n) acc c e)
mode_next (hex (suc zero) acc) c s v r (on m) e h ih =
    let (i, (d, (few, y))) = hex_on zero acc c m e in absurd (omega arith)
mode_next (hex (suc (suc n)) acc) c s v r (on m) e h ih =
    let (i, (d, (few, y))) = hex_on (suc n) acc c m e in
    let (u, (t, (w, (run, (chars, z))))) =
      ih (hex (suc n) (16 * acc + i)) v r (ap (λ m. string_from m s) (sym y) ∙ h) in
    (u, (t, (w, (run_digit (suc n) acc c i u s t d run, (chars, z)))))
mode_next (hex (suc n) acc) c s v r (emit u) e h ih =
    let (w, (x, y)) = pushed u _ v r h in
    let (i, (d, (last, same))) = hex_emit n acc c u e in
    (
      u,
      (
        s,
        (
          w,
          (
            rw last (run_digit 0 acc c i u s s d (rw same (run_end (16 * acc + i) s))),
            (ih plain w r x, y),
          ),
        ),
      ),
    )
mode_next m c s v r bad e h ih = absurd (cc)

mode_string : (m : Mode) (s v r : Units) → string_from m s ≡ ok (v, r) → Reads m s v r
unfolding string_from
mode_string m [] v r h = absurd (cc)
mode_string m (c ∷ s) v r h =
    mode_next m c s v r (next_unit m c) refl h (λ k w q e. mode_string k s w q e)

emit_plain : (c : ℕ) → c ≢ 34 → c ≢ 92 → 32 ≤ c → next_unit plain c ≡ emit c
unfolding next_unit
emit_plain c a b d = ground arith

emit_escape : (c u : ℕ) → IsEscape c u → next_unit escape c ≡ emit u
unfolding next_unit
emit_escape c u h = ground arith

emit_hex : (acc c i : ℕ) → IsHexDigit c i → next_unit (hex 1 acc) c ≡ emit (16 * acc + i)
unfolding next_unit is_digit
emit_hex acc c i h = ground arith

on_hex :
    (n acc c i : ℕ)
    → IsHexDigit c i
    → next_unit (hex (suc (suc n)) acc) c ≡ on (hex (suc n) (16 * acc + i))
unfolding next_unit is_digit
on_hex n acc c i h = ground arith

from_hex :
    (n acc : ℕ) (s : Units) (u : ℕ) (t : Units)
    → HexRun (suc n) acc s u t
    → string_from (hex (suc n) acc) s ≡ push u (string_from plain t)
unfolding string_from string_next
from_hex _ _ _ _ _ (run_digit zero acc c i u s t d (run_end _ _)) = rw (emit_hex acc c i d) refl
from_hex _ _ _ _ _ (run_digit (suc n) acc c i u s t d run) =
    rw (on_hex n acc c i d) (from_hex n (16 * acc + i) s u t run)

from_plain : (s v r : Units) → Chars s v r → string_from plain s ≡ ok (v, r)
unfolding string_from string_next
from_plain _ _ _ (close_quote r) = refl
from_plain _ _ _ (plain_char c s v r a b d h) = rw (emit_plain c a b d, from_plain s v r h) refl
from_plain _ _ _ (escaped_char c u s v r e h) = rw (emit_escape c u e, from_plain s v r h) refl
from_plain _ _ _ (unicode_char u s t v r run h) =
    from_hex 3 0 s u t run ∙ ap (push u) (from_plain t v r h)

-- A low half that has to come first, or none.
abbrev Scalars : Bool → Units → Type 0
Scalars false v = IsScalars v
Scalars true v = (d : ℕ) × ((w : Units) × ((v ≡ d ∷ w) × (IsLowHalf d × IsScalars w)))

half_starts : (c : ℕ) → next_half false c ≡ some true → IsHighHalf c
unfolding next_half
half_starts c h = ground arith

half_alone : (c : ℕ) → next_half false c ≡ some false → (c ≤ 0xd7ff) ⊎ (0xe000 ≤ c)
unfolding next_half
half_alone c h = ground arith

half_ends : (c : ℕ) (b : Bool) → next_half true c ≡ some b → IsLowHalf c × (b ≡ false)
unfolding next_half
half_ends c b h = ground arith

one_half : (c : ℕ) → IsHighHalf c → next_half false c ≡ some true
unfolding next_half
one_half c h = ground arith

no_half : (c : ℕ) → (c ≤ 0xd7ff) ⊎ (0xe000 ≤ c) → next_half false c ≡ some false
unfolding next_half
no_half c h = ground arith

other_half : (c : ℕ) → IsLowHalf c → next_half true c ≡ some false
unfolding next_half
other_half c h = ground arith

half_next :
    (high : Bool) (c : ℕ) (s : Units) (b : Bool)
    → next_half high c ≡ some b
    → Scalars b s
    → Scalars high (c ∷ s)
half_next false c s false e h = one_unit c s (half_alone c e) h
half_next false c s true e (d, (w, (q, (low, k)))) = rw q (two_halves c d w (half_starts c e) low k)
half_next true c s b e h =
    let (low, q) = half_ends c b e in (c, (s, (refl, (low, subst (λ b. Scalars b s) q h))))

scalar_steps :
    (high : Bool) (c : ℕ) (s : Units) (b : Bool)
    → next_half high c ≡ some b
    → scalar_from high (c ∷ s) ≡ scalar_from b s
unfolding scalar_from
scalar_steps high c s b e = rw (scalar_from, e) refl

from_half : (high : Bool) (s : Units) → scalar_from high s ≡ true → Scalars high s
unfolding scalar_from
from_half false [] h = no_units
from_half true [] h = absurd (cc)
from_half high (c ∷ s) h = elim (Option-cases (next_half high c)) [
  | inl e ↦ let z : scalar_from high (c ∷ s) ≡ false = rw (scalar_from, e) refl in absurd (cc)
  | inr (b, e) ↦ half_next high c s b e (from_half b s (sym (scalar_steps high c s b e) ∙ h))
]

to_half : (s : Units) → IsScalars s → scalar_from false s ≡ true
unfolding scalar_from
to_half _ no_units = refl
to_half _ (one_unit c s e h) = scalar_steps false c s false (no_half c e) ∙ to_half s h
to_half _ (two_halves c d s e l h) =
    scalar_steps false c (d ∷ s) true (one_half c e)
    ∙ scalar_steps true d s false (other_half d l)
    ∙ to_half s h

scalar_string-eq :
    (x : Units × Units) (v r : Units)
    → scalar_string x ≡ ok (v, r)
    → (x ≡ (v, r)) × (is_scalar_text v ≡ true)
unfolding scalar_string
scalar_string-eq (w, q) v r h = elim (Bool-cases (is_scalar_text w)) [
  | inl e ↦ (ground arith, ground arith)
  | inr e ↦ absurd (ground arith)
]

pub scan_string-IsQuoted : (s v r : Units) → scan_string s ≡ ok (v, r) → IsQuoted s v r
unfolding scan_string is_scalar_text
scan_string-IsQuoted s v r h =
    let (x, e, k) = >>=-eq-ok (string_from plain s) scalar_string h in
    let (same, scalar) = scalar_string-eq x v r k in
    record { chars = mode_string plain s v r (rw (sym same) e); scalars = from_half false v scalar }

pub IsQuoted-scan_string : (s v r : Units) → IsQuoted s v r → scan_string s ≡ ok (v, r)
unfolding scan_string scalar_string is_scalar_text ◌>>=◌
IsQuoted-scan_string s v r q = rw (from_plain s v r q.chars, to_half v q.scalars) refl
