-- ===== src/Json/Grammar.antt =====
-- The grammar of strict JSON: a value of a depth, with the number of its nodes, and what follows it. Its
-- tokens are those of Json/Token. White space is what `skipWhitespace` skips.
use swisstokint_open_risk_in.Prelude.{
  ℕ, suc, ◌+◌, ◌≤◌, ◌≡◌, none, some, List, [], ◌∷◌, codes, length, ◌++◌,
}
use swisstokint_open_risk_in.Json.Lex.{Units, skip_whitespace, starts}
use swisstokint_open_risk_in.Json.Scan.{max_depth, max_nodes, max_string_length}
use swisstokint_open_risk_in.Json.Token.{IsQuoted, IsKey, IsInteger}

mutual
  pub data Spells : ℕ → Units → ℕ → Units → Type 0 where
    empty_object :
        (d : ℕ) (s r : Units)
        → d ≤ max_depth
        → starts b'}' (skip_whitespace s) ≡ some r
        → Spells d (b'{' ∷ s) 1 r
    object :
        (d m : ℕ) (s r : Units)
        → d ≤ max_depth
        → MemberList d [] (skip_whitespace s) m r
        → Spells d (b'{' ∷ s) (suc m) r
    empty_array :
        (d : ℕ) (s r : Units)
        → d ≤ max_depth
        → starts b']' (skip_whitespace s) ≡ some r
        → Spells d (b'[' ∷ s) 1 r
    array :
        (d m : ℕ) (s r : Units)
        → d ≤ max_depth
        → starts b']' (skip_whitespace s) ≡ none
        → ElementList d (skip_whitespace s) m r
        → Spells d (b'[' ∷ s) (suc m) r
    text :
        (d : ℕ) (s v r : Units)
        → d ≤ max_depth
        → IsQuoted s v r
        → length v ≤ max_string_length
        → Spells d (b'"' ∷ s) 1 r
    true_literal :
        (d : ℕ) (s r : Units) → d ≤ max_depth → s ≡ codes "rue" ++ r → Spells d (b't' ∷ s) 1 r
    false_literal :
        (d : ℕ) (s r : Units) → d ≤ max_depth → s ≡ codes "alse" ++ r → Spells d (b'f' ∷ s) 1 r
    null_literal :
        (d : ℕ) (s r : Units) → d ≤ max_depth → s ≡ codes "ull" ++ r → Spells d (b'n' ∷ s) 1 r
    number : (d c : ℕ) (s r : Units) → d ≤ max_depth → IsInteger (c ∷ s) r → Spells d (c ∷ s) 1 r

  -- The members of an object after some keys, up to its closing brace
  pub data MemberList : ℕ → List Units → Units → ℕ → Units → Type 0 where
    last_member :
        (d n : ℕ) (keys : List Units) (s k a b e r : Units)
        → IsQuoted s k a
        → IsKey keys k
        → starts b':' (skip_whitespace a) ≡ some b
        → Spells (d + 1) (skip_whitespace b) n e
        → starts b'}' (skip_whitespace e) ≡ some r
        → MemberList d keys (b'"' ∷ s) n r
    next_member :
        (d n m : ℕ) (keys : List Units) (s k a b e f r : Units)
        → IsQuoted s k a
        → IsKey keys k
        → starts b':' (skip_whitespace a) ≡ some b
        → Spells (d + 1) (skip_whitespace b) n e
        → starts b'}' (skip_whitespace e) ≡ none
        → starts b',' (skip_whitespace e) ≡ some f
        → MemberList d (k ∷ keys) (skip_whitespace f) m r
        → MemberList d keys (b'"' ∷ s) (n + m) r

  -- The elements of an array, up to its closing bracket
  pub data ElementList : ℕ → Units → ℕ → Units → Type 0 where
    last_element :
        (d n : ℕ) (s e r : Units)
        → Spells (d + 1) s n e
        → starts b']' (skip_whitespace e) ≡ some r
        → ElementList d s n r
    next_element :
        (d n m : ℕ) (s e f r : Units)
        → Spells (d + 1) s n e
        → starts b']' (skip_whitespace e) ≡ none
        → starts b',' (skip_whitespace e) ≡ some f
        → ElementList d (skip_whitespace f) m r
        → ElementList d s (n + m) r

-- A strict text of so many nodes: a value with white space around it.
pub record IsStrict (raw : Units) (n : ℕ) : Type 0 where
  pub rest : Units
  pub value : Spells 0 (skip_whitespace raw) n rest
  pub nothing_left : skip_whitespace rest ≡ []
  pub bounded : n ≤ max_nodes
