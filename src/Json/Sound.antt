-- ===== src/Json/Sound.antt =====
-- The texts that the scanner of Json/Scan accepts, in terms of Json/Grammar.
use swisstokint_open_risk_in.Prelude.{
  ℕ, zero, suc, ◌+◌, ◌*◌, ◌≤◌, ◌≡◌, refl, sym, subst, inl, inr, true, none, some, List, [], ◌∷◌,
  Result, ok, guard, arith, length, Option-cases, leb, ltb, leb→le, codes, Ensures, Ensures-bind,
  Ensures-ok, guard-true, ok-inj,
}
use swisstokint_open_risk_in.Json.Lex.{
  Units, JsonError, json_bounds, skip_whitespace, starts, expected, scan_string, scan_number,
  scan_literal,
}
use swisstokint_open_risk_in.Json.Scan.{
  Scanned, Token, open_brace, open_bracket, quote, true_word, false_word, null_word, digit,
  no_token, token_of, max_depth, max_nodes, check_key, string_value, left, opened, continued,
  dispatch, scan_value, scan_members, scan_elements, ended, ended_text, scan_text,
}
use swisstokint_open_risk_in.Json.Fuel.{expected-eq}
use swisstokint_open_risk_in.Json.Quoted.{scan_string-IsQuoted}
use swisstokint_open_risk_in.Json.Keys.{check_key-IsKey, scan_literal-eq}
use swisstokint_open_risk_in.Json.Numbers.{scan_number-IsInteger}
use swisstokint_open_risk_in.Json.Grammar.{
  Spells, empty_object, object, empty_array, array, text, true_literal, false_literal, null_literal,
  number, MemberList, last_member, next_member, ElementList, last_element, next_element, IsStrict,
}

-- What a scan that began after `n` nodes found.
pub record ReadsValue (d n : ℕ) (s : Units) (out : ℕ × Units) : Type 0 where
  pub nodes : ℕ
  pub spells : Spells d s nodes out.1
  pub counted : out.0 ≡ n + nodes
  pub bounded : out.0 ≤ max_nodes

pub record ReadsMembers (d : ℕ) (keys : List Units) (n : ℕ) (s : Units) (out : ℕ × Units)
    : Type 0 where
  pub nodes : ℕ
  pub members : MemberList d keys s nodes out.1
  pub counted : out.0 ≡ n + nodes
  pub bounded : out.0 ≤ max_nodes

pub record ReadsElements (d n : ℕ) (s : Units) (out : ℕ × Units) : Type 0 where
  pub nodes : ℕ
  pub elements : ElementList d s nodes out.1
  pub counted : out.0 ≡ n + nodes
  pub bounded : out.0 ≤ max_nodes

starts-eq : (c : ℕ) (s r : Units) → starts c s ≡ some r → s ≡ c ∷ r
unfolding starts
starts-eq c [] r h = absurd (cc)
starts-eq c (d ∷ s) r h = ground arith

-- The character behind a token
token_brace : (c : ℕ) → token_of c ≡ open_brace → c ≡ b'{'
unfolding token_of
token_brace c h = ground arith

token_bracket : (c : ℕ) → token_of c ≡ open_bracket → c ≡ b'['
unfolding token_of
token_bracket c h = ground arith

token_quote : (c : ℕ) → token_of c ≡ quote → c ≡ b'"'
unfolding token_of
token_quote c h = ground arith

token_true : (c : ℕ) → token_of c ≡ true_word → c ≡ b't'
unfolding token_of
token_true c h = ground arith

token_false : (c : ℕ) → token_of c ≡ false_word → c ≡ b'f'
unfolding token_of
token_false c h = ground arith

token_null : (c : ℕ) → token_of c ≡ null_word → c ≡ b'n'
unfolding token_of
token_null c h = ground arith

opened-Ensures :
    {P : ℕ × Units → Type 0} (inside : Units → Scanned) (n c : ℕ) (s : Units)
    → ((r : Units) → starts c s ≡ some r → P (n, r))
    → (starts c s ≡ none → Ensures P (inside s))
    → Ensures P (opened inside n s (starts c s))
unfolding opened
opened-Ensures {P = P} inside n c s f g = elim (Option-cases (starts c s)) [
  | inl e ↦ subst (λ o. Ensures P (opened inside n s o)) (sym e) (g e)
  | inr (r, e) ↦ subst (λ o. Ensures P (opened inside n s o)) (sym e) (Ensures-ok (n, r) (f r e))
]

continued-Ensures :
    {P : ℕ × Units → Type 0} (more : Units → Scanned) (n c : ℕ) (s : Units)
    → ((r : Units) → starts c s ≡ some r → P (n, r))
    → ((r : Units)
        → starts c s ≡ none
        → starts b',' s ≡ some r
        → Ensures P (more (skip_whitespace r)))
    → Ensures P (continued more n s (starts c s))
unfolding continued
continued-Ensures {P = P} more n c s f g = elim (Option-cases (starts c s)) [
  | inl e ↦
      subst (λ o. Ensures P (continued more n s o)) (sym e)
        (Ensures-bind _ _ (λ r q. g r e (expected-eq _ r q)))
  | inr (r, e) ↦ subst (λ o. Ensures P (continued more n s o)) (sym e) (Ensures-ok (n, r) (f r e))
]

ltb→le : (a b : ℕ) → ltb a b ≡ true → a + 1 ≤ b
ltb→le a b h = ground arith

unit-eq : (x : Result JsonError Unit) (u : Unit) → x ≡ ok u → x ≡ ok tt
unit-eq x tt h = h

-- A value of one node
one_node :
    {d n : ℕ} {s r : Units} → n + 1 ≤ max_nodes → Spells d s 1 r → ReadsValue d n s (n + 1, r)
one_node h spelt = record { nodes = 1; spells = spelt; counted = refl; bounded = h }

-- A value whose first character is known.
with_head :
    (d n x : ℕ) {c : ℕ} {s : Units} {r : Scanned}
    → c ≡ x
    → Ensures (ReadsValue d n (x ∷ s)) r
    → Ensures (ReadsValue d n (c ∷ s)) r
with_head d n x {s = s} {r = r} e h = subst (λ c. Ensures (ReadsValue d n (c ∷ s)) r) (sym e) h

with_start :
    (d n : ℕ) (keys : List Units) (t : Units) {s : Units} {r : Scanned}
    → s ≡ t
    → Ensures (ReadsMembers d keys n t) r
    → Ensures (ReadsMembers d keys n s) r
with_start d n keys t {r = r} e h = subst (λ s. Ensures (ReadsMembers d keys n s) r) (sym e) h

dispatch-Spells :
    (members elements : Units → Scanned) (d n c : ℕ) (s : Units) (t : Token)
    → d ≤ max_depth
    → n + 1 ≤ max_nodes
    → token_of c ≡ t
    → ((r : Units) → Ensures (ReadsMembers d [] (n + 1) r) (members r))
    → ((r : Units) → Ensures (ReadsElements d (n + 1) r) (elements r))
    → Ensures (ReadsValue d n (c ∷ s)) (dispatch members elements (n + 1) c s t)
unfolding dispatch string_value left
dispatch-Spells members elements d n c s open_brace deep few t f g =
    with_head d n b'{' (token_brace c t) (
      opened-Ensures {P = ReadsValue d n (b'{' ∷ s)} members (n + 1) b'}' (skip_whitespace s)
        (λ r e. one_node few (empty_object d s r deep e))
        (λ e. record {
          at = λ out q.
              let x = (f (skip_whitespace s)).at out q in
              record {
                nodes = suc x.nodes;
                spells = object d x.nodes s out.1 deep x.members;
                counted = omega (arith, x.counted);
                bounded = x.bounded;
              };
        }))
dispatch-Spells members elements d n c s open_bracket deep few t f g =
    with_head d n b'[' (token_bracket c t) (
      opened-Ensures {P = ReadsValue d n (b'[' ∷ s)} elements (n + 1) b']' (skip_whitespace s)
        (λ r e. one_node few (empty_array d s r deep e))
        (λ e. record {
          at = λ out q.
              let x = (g (skip_whitespace s)).at out q in
              record {
                nodes = suc x.nodes;
                spells = array d x.nodes s out.1 deep e x.elements;
                counted = omega (arith, x.counted);
                bounded = x.bounded;
              };
        }))
dispatch-Spells members elements d n c s quote deep few t f g =
    with_head d n b'"' (token_quote c t) (
      Ensures-bind (scan_string s) (string_value (n + 1)) λ x e. Ensures-bind _ _ λ u short.
        Ensures-ok _ (
          one_node few (
            text d s x.0 x.1 deep (scan_string-IsQuoted s x.0 x.1 e)
              (leb→le _ _ (guard-true _ _ short)))))
dispatch-Spells members elements d n c s true_word deep few t f g =
    with_head d n b't' (token_true c t) (
      Ensures-bind (scan_literal (codes "rue") s) (left (n + 1)) λ r e.
        Ensures-ok _ (one_node few (true_literal d s r deep (scan_literal-eq (codes "rue") s r e))))
dispatch-Spells members elements d n c s false_word deep few t f g =
    with_head d n b'f' (token_false c t) (
      Ensures-bind (scan_literal (codes "alse") s) (left (n + 1)) λ r e.
        Ensures-ok _
          (one_node few (false_literal d s r deep (scan_literal-eq (codes "alse") s r e))))
dispatch-Spells members elements d n c s null_word deep few t f g =
    with_head d n b'n' (token_null c t) (
      Ensures-bind (scan_literal (codes "ull") s) (left (n + 1)) λ r e.
        Ensures-ok _ (one_node few (null_literal d s r deep (scan_literal-eq (codes "ull") s r e))))
dispatch-Spells members elements d n c s digit deep few t f g =
    Ensures-bind (scan_number (c ∷ s)) (left (n + 1))
      λ r e. Ensures-ok _ (one_node few (number d c s r deep (scan_number-IsInteger (c ∷ s) r e)))
dispatch-Spells members elements d n c s no_token deep few t f g = record {
  at = λ out q. absurd (cc);
}

mutual
  unfolding scan_value scan_members scan_elements

  value-Spells : (fuel d n : ℕ) (s : Units) → Ensures (ReadsValue d n s) (scan_value fuel d n s)
  value-Spells zero d n s = record { at = λ out q. absurd (cc) }
  value-Spells (suc fuel) d n [] =
      Ensures-bind (guard (leb d max_depth) json_bounds) _
        λ u e. record { at = λ out q. absurd (cc) }
  value-Spells (suc fuel) d n (c ∷ s) = Ensures-bind _ _ λ u deep. Ensures-bind _ _ λ v few.
      dispatch-Spells (scan_members fuel d [] (n + 1)) (scan_elements fuel d (n + 1)) d n c s
        (token_of c) (leb→le _ _ (guard-true _ _ deep)) (ltb→le n max_nodes (guard-true _ _ few))
        refl (λ r. scan_members-MemberList fuel d [] (n + 1) r)
        (λ r. scan_elements-ElementList fuel d (n + 1) r)

  scan_members-MemberList :
      (fuel d : ℕ) (keys : List Units) (n : ℕ) (s : Units)
      → Ensures (ReadsMembers d keys n s) (scan_members fuel d keys n s)
  scan_members-MemberList zero d keys n s = record { at = λ out q. absurd (cc) }
  scan_members-MemberList (suc fuel) d keys n s =
      Ensures-bind (expected (starts b'"' s)) _ λ start e0.
        with_start d n keys (b'"' ∷ start) (starts-eq b'"' s start (expected-eq _ start e0)) (
          Ensures-bind {P = ReadsMembers d keys n (b'"' ∷ start)} (scan_string start) _ λ x e1.
            Ensures-bind (check_key keys x.0) _ λ u e2.
              Ensures-bind (expected (starts b':' (skip_whitespace x.1))) _ λ after e3.
                Ensures-bind (scan_value fuel (d + 1) n (skip_whitespace after)) _ λ y e4.
                  let v = (value-Spells fuel (d + 1) n (skip_whitespace after)).at y e4 in
                  let colon = expected-eq _ after e3 in
                  let quoted = scan_string-IsQuoted start x.0 x.1 e1 in
                  let key = check_key-IsKey keys x.0 (unit-eq _ u e2) in
                  continued-Ensures {P = ReadsMembers d keys n (b'"' ∷ start)}
                    (scan_members fuel d (x.0 ∷ keys) y.0) y.0 b'}' (skip_whitespace y.1)
                    (λ r e. record {
                      nodes = v.nodes;
                      members =
                          last_member d v.nodes keys start x.0 x.1 after y.1 r quoted key colon
                            v.spells e;
                      counted = v.counted;
                      bounded = v.bounded;
                    })
                    (λ r e q. record {
                      at = λ out h.
                          let m =
                            (scan_members-MemberList fuel d (x.0 ∷ keys) y.0 (skip_whitespace r)).at
                              out h in
                          record {
                            nodes = v.nodes + m.nodes;
                            members =
                                next_member d v.nodes m.nodes keys start x.0 x.1 after y.1 r out.1
                                  quoted key colon v.spells e q m.members;
                            counted = omega (arith, v.counted, m.counted);
                            bounded = m.bounded;
                          };
                    }))

  scan_elements-ElementList :
      (fuel d n : ℕ) (s : Units) → Ensures (ReadsElements d n s) (scan_elements fuel d n s)
  scan_elements-ElementList zero d n s = record { at = λ out q. absurd (cc) }
  scan_elements-ElementList (suc fuel) d n [] = record { at = λ out q. absurd (cc) }
  scan_elements-ElementList (suc fuel) d n (c ∷ s) =
      Ensures-bind (scan_value fuel (d + 1) n (c ∷ s)) _ λ y e4.
        let v = (value-Spells fuel (d + 1) n (c ∷ s)).at y e4 in
        continued-Ensures {P = ReadsElements d n (c ∷ s)} (scan_elements fuel d y.0) y.0 b']'
          (skip_whitespace y.1)
          (λ r e. record {
            nodes = v.nodes;
            elements = last_element d v.nodes (c ∷ s) y.1 r v.spells e;
            counted = v.counted;
            bounded = v.bounded;
          })
          (λ r e q. record {
            at = λ out h.
                let m = (scan_elements-ElementList fuel d y.0 (skip_whitespace r)).at out h in
                record {
                  nodes = v.nodes + m.nodes;
                  elements =
                      next_element d v.nodes m.nodes (c ∷ s) y.1 r out.1 v.spells e q m.elements;
                  counted = omega (arith, v.counted, m.counted);
                  bounded = m.bounded;
                };
          })

ended-eq : (n m : ℕ) (s : Units) → ended n s ≡ ok m → (s ≡ []) × (n ≡ m)
unfolding ended
ended-eq n m [] h = (refl, ok-inj h)
ended-eq n m (c ∷ s) h = absurd (cc)

-- A text that the scanner accepts is strict JSON, of as many nodes as it says.
pub scan_text-IsStrict : (raw : Units) → Ensures (IsStrict raw) (scan_text raw)
unfolding scan_text ended_text
scan_text-IsStrict raw =
    Ensures-bind (scan_value (suc (2 * length raw)) 0 0 (skip_whitespace raw)) ended_text λ y e.
      record {
        at = λ n h.
            let v = (value-Spells (suc (2 * length raw)) 0 0 (skip_whitespace raw)).at y e in
            let (empty, same) = ended-eq y.0 n (skip_whitespace y.1) h in
            let total : v.nodes ≡ n = omega (arith, v.counted) in
            record {
              rest = y.1;
              value = subst (λ k. Spells 0 (skip_whitespace raw) k y.1) total v.spells;
              nothing_left = empty;
              bounded = omega (arith, v.bounded);
            };
      }
