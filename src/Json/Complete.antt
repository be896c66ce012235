-- ===== src/Json/Complete.antt =====
-- The scanner of Json/Scan on the texts of Json/Grammar.
use swisstokint_open_risk_in.Prelude.{
  ℕ, suc, ◌+◌, ◌≤◌, ◌<◌, ◌≡◌, refl, ap, ◌∙◌, ◌++◌, true, none, some, List, [], ◌∷◌, Result, ok,
  ◌>>=◌, arith, length, leb, ltb, codes,
}
use swisstokint_open_risk_in.Json.Lex.{
  Units, JsonError, skip_whitespace, starts, expected, scan_string, scan_number, scan_literal,
}
use swisstokint_open_risk_in.Json.Scan.{
  Scanned, digit, token_of, max_depth, max_nodes, max_string_length, check_key, string_value, left,
  opened, continued, dispatch, scan_value, scan_members, scan_elements,
}
use swisstokint_open_risk_in.Json.Shorter.{
  skip_shorter, starts_shorter, string_shorter, literal_shorter, number_shorter,
}
use swisstokint_open_risk_in.Json.Quoted.{IsQuoted-scan_string}
use swisstokint_open_risk_in.Json.Keys.{scan_literal_self}
use swisstokint_open_risk_in.Json.Numbers.{IsInteger-scan_number}
use swisstokint_open_risk_in.Json.Grammar.{
  Spells, empty_object, object, empty_array, array, text, true_literal, false_literal, null_literal,
  number, MemberList, last_member, next_member, ElementList, last_element, next_element,
}

pub literal_scanned : (word s r : Units) → s ≡ word ++ r → scan_literal word s ≡ ok r
literal_scanned word s r e = ap (scan_literal word) e ∙ scan_literal_self word r

-- A value has a node and takes a character.
mutual
  pub value_shorter : (d k : ℕ) (s r : Units) → Spells d s k r → (1 ≤ k) × (length r < length s)
  value_shorter _ _ _ _ (empty_object d s r deep e) =
      (omega arith, omega (arith, skip_shorter s, starts_shorter b'}' _ r e))
  value_shorter _ _ _ _ (object d m s r deep inner) =
      (omega arith, omega (arith, skip_shorter s, members_shorter _ _ _ _ _ inner))
  value_shorter _ _ _ _ (empty_array d s r deep e) =
      (omega arith, omega (arith, skip_shorter s, starts_shorter b']' _ r e))
  value_shorter _ _ _ _ (array d m s r deep e inner) =
      (omega arith, omega (arith, skip_shorter s, elements_shorter _ _ _ _ inner))
  value_shorter _ _ _ _ (text d s v r deep e short) =
      (omega arith, omega (arith, string_shorter s v r (IsQuoted-scan_string s v r e)))
  value_shorter _ _ _ _ (true_literal d s r deep e) =
      (omega arith, omega (arith, literal_shorter _ s r (literal_scanned (codes "rue") s r e)))
  value_shorter _ _ _ _ (false_literal d s r deep e) =
      (omega arith, omega (arith, literal_shorter _ s r (literal_scanned (codes "alse") s r e)))
  value_shorter _ _ _ _ (null_literal d s r deep e) =
      (omega arith, omega (arith, literal_shorter _ s r (literal_scanned (codes "ull") s r e)))
  value_shorter _ _ _ _ (number d c s r deep e) =
      (omega arith, number_shorter (c ∷ s) r (IsInteger-scan_number (c ∷ s) r e))

  pub members_shorter :
      (d : ℕ) (keys : List Units) (s : Units) (k : ℕ) (r : Units)
      → MemberList d keys s k r
      → length r < length s
  members_shorter _ _ _ _ _ (last_member d n keys s k a b e r h0 h1 h2 v h3) = omega (
    arith,
    string_shorter s k a (IsQuoted-scan_string s k a h0),
    skip_shorter a,
    starts_shorter b':' _ b h2,
    skip_shorter b,
    (value_shorter (d + 1) n _ e v).1,
    skip_shorter e,
    starts_shorter b'}' _ r h3,
  )
  members_shorter _ _ _ _ _ (next_member d n m keys s k a b e f r h0 h1 h2 v h3 h4 rest) = omega (
    arith,
    string_shorter s k a (IsQuoted-scan_string s k a h0),
    skip_shorter a,
    starts_shorter b':' _ b h2,
    skip_shorter b,
    (value_shorter (d + 1) n _ e v).1,
    skip_shorter e,
    starts_shorter b',' _ f h4,
    skip_shorter f,
    members_shorter d _ _ m r rest,
  )

  pub elements_shorter :
      (d : ℕ) (s : Units) (k : ℕ) (r : Units) → ElementList d s k r → length r < length s
  elements_shorter _ _ _ _ (last_element d n s e r v h) =
      omega (arith, (value_shorter (d + 1) n s e v).1, skip_shorter e, starts_shorter b']' _ r h)
  elements_shorter _ _ _ _ (next_element d n m s e f r v h0 h1 rest) = omega (
    arith,
    (value_shorter (d + 1) n s e v).1,
    skip_shorter e,
    starts_shorter b',' _ f h1,
    skip_shorter f,
    elements_shorter d _ m r rest,
  )

le→leb : (a b : ℕ) → a ≤ b → leb a b ≡ true
le→leb a b h = ground arith

lt→ltb : (a b : ℕ) → a < b → ltb a b ≡ true
lt→ltb a b h = ground arith

pub value_steps :
    (fuel d n c : ℕ) (s : Units)
    → d ≤ max_depth
    → n + 1 ≤ max_nodes
    → scan_value (suc fuel) d n (c ∷ s)
      ≡ dispatch
          (scan_members fuel d [] (n + 1))
          (scan_elements fuel d (n + 1))
          (n + 1)
          c
          s
          (token_of c)
unfolding scan_value ◌>>=◌
value_steps fuel d n c s deep few =
    rw (le→leb d max_depth deep, lt→ltb n max_nodes (omega arith)) refl

pub members-start :
    (d : ℕ) (keys : List Units) (s : Units) (k : ℕ) (r : Units)
    → MemberList d keys s k r
    → starts b'}' s ≡ none
unfolding starts
members-start _ _ _ _ _ (last_member d n keys s k a b e r h0 h1 h2 v h3) = refl
members-start _ _ _ _ _ (next_member d n m keys s k a b e f r h0 h1 h2 v h3 h4 rest) = refl

quoted : (s : Units) → starts b'"' (b'"' ∷ s) ≡ some s
unfolding starts
quoted s = refl

pub member_steps :
    (fuel d n m : ℕ) (keys : List Units) (s k a b e : Units)
    → scan_string s ≡ ok (k, a)
    → check_key keys k ≡ ok tt
    → starts b':' (skip_whitespace a) ≡ some b
    → scan_value fuel (d + 1) n (skip_whitespace b) ≡ ok (m, e)
    → scan_members (suc fuel) d keys n (b'"' ∷ s)
      ≡ continued
          (scan_members fuel d (k ∷ keys) m)
          m
          (skip_whitespace e)
          (starts b'}' (skip_whitespace e))
unfolding scan_members ◌>>=◌ expected
member_steps fuel d n m keys s k a b e h0 h1 h2 h3 = rw (quoted s, h0, h1, h2, h3) refl

pub element_steps :
    (fuel d n m c : ℕ) (s e : Units)
    → scan_value fuel (d + 1) n (c ∷ s) ≡ ok (m, e)
    → scan_elements (suc fuel) d n (c ∷ s)
      ≡ continued (scan_elements fuel d m) m (skip_whitespace e) (starts b']' (skip_whitespace e))
unfolding scan_elements ◌>>=◌
element_steps fuel d n m c s e h = rw h refl

pub closes :
    (more : Units → Scanned) (n c : ℕ) (s r : Units)
    → starts c s ≡ some r
    → continued more n s (starts c s) ≡ ok (n, r)
unfolding continued
closes more n c s r h = rw h refl

pub goes_further :
    (more : Units → Scanned) (n c : ℕ) (s f : Units)
    → starts c s ≡ none
    → starts b',' s ≡ some f
    → continued more n s (starts c s) ≡ more (skip_whitespace f)
unfolding continued ◌>>=◌ expected
goes_further more n c s f h k = rw (h, k) refl

pub opens_empty :
    (inside : Units → Scanned) (n c : ℕ) (s r : Units)
    → starts c s ≡ some r
    → opened inside n s (starts c s) ≡ ok (n, r)
unfolding opened
opens_empty inside n c s r h = rw h refl

pub opens :
    (inside : Units → Scanned) (n c : ℕ) (s : Units)
    → starts c s ≡ none
    → opened inside n s (starts c s) ≡ inside s
unfolding opened
opens inside n c s h = rw h refl

pub text_value :
    (n : ℕ) (s v r : Units)
    → scan_string s ≡ ok (v, r)
    → length v ≤ max_string_length
    → (scan_string s >>= string_value n) ≡ ok (n, r)
unfolding ◌>>=◌ string_value
text_value n s v r h short = rw (h, le→leb (length v) max_string_length short) refl

pub left_value :
    (n : ℕ) (x : Result JsonError Units) (r : Units) → x ≡ ok r → (x >>= left n) ≡ ok (n, r)
unfolding ◌>>=◌ left
left_value n x r h = rw h refl

module _ (members elements : Units → Scanned) (n : ℕ) where
  pub dispatch_brace :
      (s : Units)
      → dispatch members elements n b'{' s (token_of b'{')
        ≡ opened members n (skip_whitespace s) (starts b'}' (skip_whitespace s))
  unfolding dispatch token_of
  dispatch_brace s = refl

  pub dispatch_bracket :
      (s : Units)
      → dispatch members elements n b'[' s (token_of b'[')
        ≡ opened elements n (skip_whitespace s) (starts b']' (skip_whitespace s))
  unfolding dispatch token_of
  dispatch_bracket s = refl

  pub dispatch_quote :
      (s : Units)
      → dispatch members elements n b'"' s (token_of b'"') ≡ (scan_string s >>= string_value n)
  unfolding dispatch token_of
  dispatch_quote s = refl

  pub dispatch_true :
      (s : Units)
      → dispatch members elements n b't' s (token_of b't')
        ≡ (scan_literal (codes "rue") s >>= left n)
  unfolding dispatch token_of
  dispatch_true s = refl

  pub dispatch_false :
      (s : Units)
      → dispatch members elements n b'f' s (token_of b'f')
        ≡ (scan_literal (codes "alse") s >>= left n)
  unfolding dispatch token_of
  dispatch_false s = refl

  pub dispatch_null :
      (s : Units)
      → dispatch members elements n b'n' s (token_of b'n')
        ≡ (scan_literal (codes "ull") s >>= left n)
  unfolding dispatch token_of
  dispatch_null s = refl

  pub dispatch_digit :
      (c : ℕ) (s : Units)
      → token_of c ≡ digit
      → dispatch members elements n c s (token_of c) ≡ (scan_number (c ∷ s) >>= left n)
  unfolding dispatch
  dispatch_digit c s h = rw h refl
