-- ===== src/Json/Equivalence.antt =====
-- The scanner of Json/Scan and the grammar of Json/Grammar.
use swisstokint_open_risk_in.Prelude.{
  ℕ, zero, suc, ◌+◌, ◌*◌, ◌≤◌, ◌<◌, ◌≡◌, ◌↔◌, refl, inl, inr, ap, ◌∙◌, List, [], ◌∷◌, ok, ◌>>=◌,
  arith, length, codes, Bool-cases,
}
use swisstokint_open_risk_in.Json.Lex.{Units, skip_whitespace, is_whitespace}
use swisstokint_open_risk_in.Json.Scan.{
  Scanned, max_nodes, scan_value, scan_members, scan_elements, ended, ended_text, scan_text,
}
use swisstokint_open_risk_in.Json.Shorter.{skip_shorter, starts_shorter, string_shorter}
use swisstokint_open_risk_in.Json.Token.{Blanks, blanks_end, blanks_stop, blanks_more}
use swisstokint_open_risk_in.Json.Quoted.{IsQuoted-scan_string}
use swisstokint_open_risk_in.Json.Keys.{IsKey-check_key}
use swisstokint_open_risk_in.Json.Numbers.{IsInteger-scan_number, IsInteger-token}
use swisstokint_open_risk_in.Json.Grammar.{
  Spells, empty_object, object, empty_array, array, text, true_literal, false_literal, null_literal,
  number, MemberList, last_member, next_member, ElementList, last_element, next_element, IsStrict,
}
use swisstokint_open_risk_in.Json.Sound.{scan_text-IsStrict}
use swisstokint_open_risk_in.Json.Complete.{
  literal_scanned, value_shorter, elements_shorter, value_steps, member_steps, element_steps,
  members-start, closes, goes_further, opens_empty, opens, text_value, left_value, dispatch_brace,
  dispatch_bracket, dispatch_quote, dispatch_true, dispatch_false, dispatch_null, dispatch_digit,
}

counted : {n m : ℕ} {r : Units} {x : Scanned} → x ≡ ok (n, r) → n ≡ m → x ≡ ok (m, r)
counted {r = r} h e = h ∙ ap (λ k. ok (k, r)) e

mutual
  value_accepted :
      (fuel d n k : ℕ) (s r : Units)
      → Spells d s k r
      → n + k ≤ max_nodes
      → 2 * length s < fuel
      → scan_value fuel d n s ≡ ok (n + k, r)
  value_accepted zero d n k s r h few enough = absurd (omega arith)
  value_accepted (suc fuel) _ n _ _ _ (empty_object d s r deep e) few enough =
      value_steps fuel d n b'{' s deep few
      ∙ dispatch_brace _ _ (n + 1) s
      ∙ opens_empty _ (n + 1) b'}' _ r e
  value_accepted (suc fuel) _ n _ _ _ (object d m s r deep inner) few enough =
      counted
        (value_steps fuel d n b'{' s deep (omega arith)
          ∙ dispatch_brace _ _ (n + 1) s
          ∙ opens _ (n + 1) b'}' _ (members-start d [] _ m r inner)
          ∙ members_accepted fuel d [] (n + 1) m (skip_whitespace s) r inner (omega arith)
              (omega (arith, skip_shorter s)))
        (omega arith)
  value_accepted (suc fuel) _ n _ _ _ (empty_array d s r deep e) few enough =
      value_steps fuel d n b'[' s deep few
      ∙ dispatch_bracket _ _ (n + 1) s
      ∙ opens_empty _ (n + 1) b']' _ r e
  value_accepted (suc fuel) _ n _ _ _ (array d m s r deep e inner) few enough =
      counted
        (value_steps fuel d n b'[' s deep (omega arith)
          ∙ dispatch_bracket _ _ (n + 1) s
          ∙ opens _ (n + 1) b']' _ e
          ∙ elements_accepted fuel d (n + 1) m (skip_whitespace s) r inner (omega arith)
              (omega (arith, skip_shorter s)))
        (omega arith)
  value_accepted (suc fuel) _ n _ _ _ (text d s v r deep e short) few enough =
      value_steps fuel d n b'"' s deep few
      ∙ dispatch_quote _ _ (n + 1) s
      ∙ text_value (n + 1) s v r (IsQuoted-scan_string s v r e) short
  value_accepted (suc fuel) _ n _ _ _ (true_literal d s r deep e) few enough =
      value_steps fuel d n b't' s deep few
      ∙ dispatch_true _ _ (n + 1) s
      ∙ left_value (n + 1) _ r (literal_scanned (codes "rue") s r e)
  value_accepted (suc fuel) _ n _ _ _ (false_literal d s r deep e) few enough =
      value_steps fuel d n b'f' s deep few
      ∙ dispatch_false _ _ (n + 1) s
      ∙ left_value (n + 1) _ r (literal_scanned (codes "alse") s r e)
  value_accepted (suc fuel) _ n _ _ _ (null_literal d s r deep e) few enough =
      value_steps fuel d n b'n' s deep few
      ∙ dispatch_null _ _ (n + 1) s
      ∙ left_value (n + 1) _ r (literal_scanned (codes "ull") s r e)
  value_accepted (suc fuel) _ n _ _ _ (number d c s r deep e) few enough =
      value_steps fuel d n c s deep few
      ∙ dispatch_digit _ _ (n + 1) c s (IsInteger-token c s r e)
      ∙ left_value (n + 1) _ r (IsInteger-scan_number (c ∷ s) r e)

  members_accepted :
      (fuel d : ℕ) (keys : List Units) (n k : ℕ) (s r : Units)
      → MemberList d keys s k r
      → n + k ≤ max_nodes
      → 2 * length s < fuel
      → scan_members fuel d keys n s ≡ ok (n + k, r)
  members_accepted zero d keys n k s r h few enough = absurd (omega arith)
  members_accepted (suc fuel) _ _ n _ _ _ (last_member d k keys s key a b e r h0 h1 h2 v h3) few
        enough =
      let small : 2 * length (skip_whitespace b) < fuel = omega (
        arith,
        string_shorter s key a (IsQuoted-scan_string s key a h0),
        skip_shorter a,
        starts_shorter b':' _ b h2,
        skip_shorter b,
      ) in
      member_steps fuel d n (n + k) keys s key a b e (IsQuoted-scan_string s key a h0)
        (IsKey-check_key keys key h1) h2 (value_accepted fuel (d + 1) n k _ e v few small)
      ∙ closes _ (n + k) b'}' _ r h3
  members_accepted (suc fuel) _ _ n _ _ _
        (next_member d k m keys s key a b e f r h0 h1 h2 v h3 h4 rest) few enough =
      let small : 2 * length (skip_whitespace b) < fuel = omega (
        arith,
        string_shorter s key a (IsQuoted-scan_string s key a h0),
        skip_shorter a,
        starts_shorter b':' _ b h2,
        skip_shorter b,
      ) in
      let after = (value_shorter (d + 1) k _ e v).1 in
      counted
        (member_steps fuel d n (n + k) keys s key a b e (IsQuoted-scan_string s key a h0)
            (IsKey-check_key keys key h1) h2
            (value_accepted fuel (d + 1) n k _ e v (omega arith) small)
          ∙ goes_further _ (n + k) b'}' _ f h3 h4
          ∙ members_accepted fuel d (key ∷ keys) (n + k) m (skip_whitespace f) r rest (omega arith)
              (omega
                (arith, small, after, skip_shorter e, starts_shorter b',' _ f h4, skip_shorter f)))
        (omega arith)

  elements_accepted :
      (fuel d n k : ℕ) (s r : Units)
      → ElementList d s k r
      → n + k ≤ max_nodes
      → 2 * length s + 1 < fuel
      → scan_elements fuel d n s ≡ ok (n + k, r)
  elements_accepted zero d n k s r h few enough = absurd (omega arith)
  elements_accepted (suc fuel) d n k [] r h few enough =
      absurd (omega (arith, elements_shorter d [] k r h))
  elements_accepted (suc fuel) _ n _ (c ∷ s) _ (last_element d k _ e r v h) few enough =
      element_steps fuel d n (n + k) c s e
        (value_accepted fuel (d + 1) n k (c ∷ s) e v few (omega arith))
      ∙ closes _ (n + k) b']' _ r h
  elements_accepted (suc fuel) _ n _ (c ∷ s) _ (next_element d k m _ e f r v h0 h1 rest) few
        enough =
      let after = (value_shorter (d + 1) k _ e v).1 in
      counted
        (element_steps fuel d n (n + k) c s e
            (value_accepted fuel (d + 1) n k (c ∷ s) e v (omega arith) (omega arith))
          ∙ goes_further _ (n + k) b']' _ f h0 h1
          ∙ elements_accepted fuel d (n + k) m (skip_whitespace f) r rest (omega arith)
              (omega (arith, after, skip_shorter e, starts_shorter b',' _ f h1, skip_shorter f)))
        (omega arith)

IsStrict-accepted : (raw : Units) (n : ℕ) → IsStrict raw n → scan_text raw ≡ ok n
unfolding scan_text ended_text ended ◌>>=◌
IsStrict-accepted raw n h =
    let enough : 2 * length (skip_whitespace raw) < suc (2 * length raw) =
      omega (arith, skip_shorter raw) in
    let read : scan_value (suc (2 * length raw)) 0 0 (skip_whitespace raw) ≡ ok (n, h.rest) =
      counted
        (value_accepted (suc (2 * length raw)) 0 0 n (skip_whitespace raw) h.rest h.value
          (omega (arith, h.bounded)) enough)
        (omega arith) in
    rw (read, h.nothing_left) refl

skip_whitespace-Blanks : (s : Units) → Blanks s (skip_whitespace s)
unfolding skip_whitespace
skip_whitespace-Blanks [] = blanks_end
skip_whitespace-Blanks (c ∷ s) = elim (Bool-cases (is_whitespace c)) [
  | inl e ↦ rw e (blanks_more c s _ (ground arith) (skip_whitespace-Blanks s))
  | inr e ↦ rw e (blanks_stop c s (λ b. ground arith))
]

-- The scanner skips exactly the spaces, tabs, line feeds and carriage returns that come next, and it
-- accepts a text as one of `n` nodes exactly if it is a strict JSON text of `n` nodes: a value by the
-- grammar with white space around it, at depths 0 to 8, with at most a thousand nodes; every string is
-- spelt without control characters and with the escapes of JSON, stands for Unicode scalars without
-- unpaired surrogates and has at most 2048 units; the keys of an object are distinct, have 1 to 64
-- units and are none of the three that reach a prototype; and every number is an integer without
-- leading zeros, fraction or exponent that is not a negative zero.
pub scan_text_iff :
    (raw : Units) (n : ℕ)
    → ((s : Units) → Blanks s (skip_whitespace s)) × ((scan_text raw ≡ ok n) ↔ IsStrict raw n)
scan_text_iff raw n =
    (skip_whitespace-Blanks, ((scan_text-IsStrict raw).at n, IsStrict-accepted raw n))
