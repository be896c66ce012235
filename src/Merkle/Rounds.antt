-- ===== src/Merkle/Rounds.antt =====
-- One round of the tree: every path grows by one step, and the level is halved.
use swisstokint_open_risk_in.Prelude.{
  ℕ, suc, ◌+◌, ◌*◌, ◌≤◌, String, ◌≡◌, refl, ◌∙◌, true, List, [], ◌∷◌, ◌++◌, arith, ok, get_elem?,
  hash_pattern, All, length, ◌>>=◌, Bool-cases, inl, inr, ltb,
}
use swisstokint_open_risk_in.Platform.{Platform, HexDigests}
use swisstokint_open_risk_in.Merkle.Tree.{
  ProofStep, Node, node_text, push_all, pair_level, hash_merkle_node, assert_hash, right_of,
  left_of,
}
use swisstokint_open_risk_in.Merkle.Paths.{
  occurs, under, occurs-append, push_all-absent, HasPath, Holds, HasPath-kept, HasPath-push,
}

pub under-Holds :
    (d : ℕ) (n : Node) (ns : List Node) → under d (n ∷ ns) ≡ occurs d n.descendants + under d ns
unfolding under
under-Holds d n ns = refl

module _ (p : Platform) (digests : HexDigests p) (leaves : List String) where
  node_ok :
      (l r : String)
      → hash_pattern l ≡ true
      → hash_pattern r ≡ true
      → hash_merkle_node p l r ≡ ok (p.sha256_hex (node_text l r))
  unfolding hash_merkle_node assert_hash ◌>>=◌
  node_ok l r a b = rw a (rw b refl)

  -- What a round that starts at `ns` with the proofs `ps` yields.
  pub record Round (t : ℕ) (ns : List Node) (ps : List (List ProofStep)) : Type 0 where
    pub next : List Node
    pub done : List (List ProofStep)
    pub result : pair_level p ns ps ≡ ok (next, done)
    pub same : (d : ℕ) → under d ns ≡ 0 → get_elem? done d ≡ get_elem? ps d
    pub flat : (d : ℕ) → under d next ≡ under d ns
    pub holds : All (Holds p leaves (suc t) done) next
    pub halved : 2 * length next ≤ length ns + 1

  Holds-kept :
      (t : ℕ) (ps qs : List (List ProofStep)) (n : Node)
      → ((d : ℕ) → 1 ≤ occurs d n.descendants → get_elem? qs d ≡ get_elem? ps d)
      → Holds p leaves t ps n
      → Holds p leaves t qs n
  Holds-kept t ps qs n k h = record {
    hex = h.hex;
    below = λ d m. HasPath-kept p leaves t ps qs d n.hash (k d m) (h.below d m);
  }

  Holds-kept_all :
      (t : ℕ) (ps qs : List (List ProofStep)) (ns : List Node)
      → ((d : ℕ) → 1 ≤ under d ns → get_elem? qs d ≡ get_elem? ps d)
      → All (Holds p leaves t ps) ns
      → All (Holds p leaves t qs) ns
  unfolding under
  Holds-kept_all t ps qs [] k h = tt
  Holds-kept_all t ps qs (n ∷ ns) k h = (
    Holds-kept t ps qs n (λ d m. k d (omega (arith, m))) h.0,
    Holds-kept_all t ps qs ns (λ d m. k d (omega (arith, m))) h.1,
  )

  single-Round :
      (t : ℕ) (l : Node) (ps : List (List ProofStep))
      → ((d : ℕ) → under d (l ∷ []) ≤ 1)
      → Holds p leaves t ps l
      → Round t (l ∷ []) ps
  unfolding pair_level under ◌>>=◌
  single-Round t l ps once h = record {
    next =
        record { hash = p.sha256_hex (node_text l.hash l.hash); descendants = l.descendants } ∷ [];
    done = push_all (right_of l) l.descendants ps;
    result = rw (node_ok l.hash l.hash h.hex h.hex) refl;
    same = λ d o. push_all-absent (right_of l) l.descendants d ps (omega (arith, o));
    flat = λ d. refl;
    holds = (
      record {
        hex = digests _;
        below = λ d m.
            HasPath-push p leaves t (right_of l) l.descendants ps d l.hash h.hex
              (omega (arith, m, once d)) (h.below d m);
      },
      tt,
    );
    halved = omega arith;
  }

  -- The proofs after one pair.
  abbrev paired : Node → Node → List (List ProofStep) → List (List ProofStep)
  paired l r ps = push_all (left_of l) r.descendants (push_all (right_of r) l.descendants ps)

  paired_other :
      (l r : Node) (ps : List (List ProofStep)) (d : ℕ)
      → occurs d l.descendants + occurs d r.descendants ≡ 0
      → get_elem? (paired l r ps) d ≡ get_elem? ps d
  paired_other l r ps d o =
      push_all-absent (left_of l) r.descendants d _ (omega (arith, o))
      ∙ push_all-absent (right_of r) l.descendants d ps (omega (arith, o))

  paired-HasPath :
      (t : ℕ) (l r : Node) (ps : List (List ProofStep)) (d : ℕ)
      → occurs d l.descendants + occurs d r.descendants ≡ 1
      → Holds p leaves t ps l
      → Holds p leaves t ps r
      → HasPath p leaves (suc t) (paired l r ps) d (p.sha256_hex (node_text l.hash r.hash))
  paired-HasPath t l r ps d o hl hr = elim (Bool-cases (ltb 0 (occurs d l.descendants))) [
    | inl e ↦
        HasPath-kept p leaves (suc t) (push_all (right_of r) l.descendants ps) _ d _
          (push_all-absent (left_of l) r.descendants d _ (ground (arith, o)))
          (HasPath-push p leaves t (right_of r) l.descendants ps d l.hash hr.hex (ground (arith, o))
            (hl.below d (ground arith)))
    | inr e ↦
        HasPath-push p leaves t (left_of l) r.descendants (push_all (right_of r) l.descendants ps) d
          r.hash hl.hex (ground (arith, o))
          (HasPath-kept p leaves t ps _ d r.hash
            (push_all-absent (right_of r) l.descendants d ps (ground (arith, o)))
            (hr.below d (ground (arith, o))))
  ]

  paired-Round :
      (t : ℕ) (l r : Node) (ns : List Node) (ps : List (List ProofStep))
      → ((d : ℕ) → under d (l ∷ r ∷ ns) ≤ 1)
      → All (Holds p leaves t ps) (l ∷ r ∷ ns)
      → Round t ns (paired l r ps)
      → Round t (l ∷ r ∷ ns) ps
  unfolding pair_level under ◌>>=◌
  paired-Round t l r ns ps once h rest = record {
    next =
        record {
          hash = p.sha256_hex (node_text l.hash r.hash);
          descendants = l.descendants ++ r.descendants;
        }
        ∷ rest.next;
    done = rest.done;
    result = rw (node_ok l.hash r.hash h.0.hex h.1.0.hex) (rw rest.result refl);
    same = λ d o. rest.same d (omega (arith, o)) ∙ paired_other l r ps d (omega (arith, o));
    flat = λ d. omega (arith, occurs-append d l.descendants r.descendants, rest.flat d);
    holds = (
      record {
        hex = digests _;
        below = λ d m.
            let o = occurs-append d l.descendants r.descendants in
            HasPath-kept p leaves (suc t) (paired l r ps) rest.done d _
              (rest.same d (omega (arith, o, m, once d)))
              (paired-HasPath t l r ps d (omega (arith, o, m, once d)) h.0 h.1.0);
      },
      rest.holds,
    );
    halved = omega (arith, rest.halved);
  }

  -- With every leaf under one node at most, a round succeeds on digests, keeps what it does not touch
  -- and gives every path one more step.
  pub pair_level-Round :
      (t : ℕ) (ns : List Node) (ps : List (List ProofStep))
      → ((d : ℕ) → under d ns ≤ 1)
      → All (Holds p leaves t ps) ns
      → Round t ns ps
  unfolding pair_level under
  pair_level-Round t [] ps once h = record {
    next = [];
    done = ps;
    result = refl;
    same = λ d o. refl;
    flat = λ d. refl;
    holds = tt;
    halved = omega arith;
  }
  pair_level-Round t (l ∷ []) ps once h = single-Round t l ps once h.0
  pair_level-Round t (l ∷ r ∷ ns) ps once h = paired-Round t l r ns ps once h (
      pair_level-Round t ns (paired l r ps) (λ d. omega (arith, once d))
        (Holds-kept_all t ps (paired l r ps) ns
          (λ d m. paired_other l r ps d (omega (arith, m, once d))) h.1.1))
