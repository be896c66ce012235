-- ===== src/Merkle/Climb.antt =====
-- The levels of the tree, from the leaves up: the climb ends within its rounds with one node.
use swisstokint_open_risk_in.Prelude.{
  ℕ, zero, suc, ◌+◌, ◌^◌, ◌≤◌, String, ◌≡◌, refl, subst, ◌∙◌, true, some, List, [], ◌∷◌, arith, ok,
  get_elem?, hash_pattern, All, length, ltb, leb, ◌&&◌, if◌then◌else◌,
}
use swisstokint_open_risk_in.Platform.{Platform, HexDigests}
use swisstokint_open_risk_in.Merkle.Tree.{ProofStep, Node, pair_level, climb}
use swisstokint_open_risk_in.Merkle.Batch.{first_level, empty_proofs}
use swisstokint_open_risk_in.Merkle.Paths.{occurs, under, fold_path, Holds}
use swisstokint_open_risk_in.Merkle.Rounds.{pair_level-Round}

module _ (p : Platform) (digests : HexDigests p) where
  -- A climb from `ns` that ends with one node at most.
  pub record Climbed (leaves : List String) (t fuel : ℕ) (ns : List Node)
      (ps : List (List ProofStep)) : Type 0 where
    pub top : List Node
    pub done : List (List ProofStep)
    pub rounds : ℕ
    pub result : climb p fuel ns ps ≡ some (ok (top, done))
    pub few : rounds ≤ t + fuel
    pub flat : (d : ℕ) → under d top ≡ under d ns
    pub holds : All (Holds p leaves rounds done) top
    pub at_most_one : length top ≤ 1

  climb-pair_level :
      (fuel : ℕ) (n m : Node) (ns next : List Node) (ps done : List (List ProofStep))
      → pair_level p (n ∷ m ∷ ns) ps ≡ ok (next, done)
      → climb p (suc fuel) (n ∷ m ∷ ns) ps ≡ climb p fuel next done
  unfolding climb
  climb-pair_level fuel n m ns next ps done h = rw (climb, h) refl

  pub climb-Climbed :
      (leaves : List String) (t fuel : ℕ) (ns : List Node) (ps : List (List ProofStep))
      → ((d : ℕ) → under d ns ≤ 1)
      → All (Holds p leaves t ps) ns
      → length ns ≤ 2 ^ fuel
      → Climbed leaves t fuel ns ps
  unfolding climb
  climb-Climbed leaves t fuel [] ps once h k = record {
    top = [];
    done = ps;
    rounds = t;
    result = refl;
    few = omega arith;
    flat = λ d. refl;
    holds = tt;
    at_most_one = omega arith;
  }
  climb-Climbed leaves t fuel (n ∷ []) ps once h k = record {
    top = n ∷ [];
    done = ps;
    rounds = t;
    result = refl;
    few = omega arith;
    flat = λ d. refl;
    holds = h;
    at_most_one = omega arith;
  }
  climb-Climbed leaves t zero (n ∷ m ∷ ns) ps once h k = absurd (ground arith)
  climb-Climbed leaves t (suc fuel) (n ∷ m ∷ ns) ps once h k =
      let r = pair_level-Round p digests leaves t (n ∷ m ∷ ns) ps once h in
      let c =
        climb-Climbed leaves (suc t) fuel r.next r.done (λ d. omega (arith, r.flat d, once d))
          r.holds (ground (arith, r.halved)) in
      record {
        top = c.top;
        done = c.done;
        rounds = c.rounds;
        result = climb-pair_level fuel n m ns r.next ps r.done r.result ∙ c.result;
        few = omega (arith, c.few);
        flat = λ d. c.flat d ∙ r.flat d;
        holds = c.holds;
        at_most_one = c.at_most_one;
      }

pub under-first_level :
    (d i : ℕ) (hs : List String)
    → under d (first_level i hs) ≡ (if leb i d && ltb d (i + length hs) then 1 else 0)
unfolding under occurs first_level
under-first_level d i [] = ground arith
under-first_level d i (h ∷ hs) = ground (arith, under-first_level d (suc i) hs)

-- From the `i`-th entry on, the list is `hs` and the proofs are empty.
pub record StartsAt (i : ℕ) (leaves : List String) (proofs : List (List ProofStep))
    (hs : List String) : Type 0 where
  pub at : (d : ℕ) (x : String) → get_elem? hs d ≡ some x → get_elem? leaves (i + d) ≡ some x
  pub empty : (d : ℕ) (x : String) → get_elem? hs d ≡ some x → get_elem? proofs (i + d) ≡ some []

StartsAt-tail :
    (i : ℕ) (leaves : List String) (proofs : List (List ProofStep)) (h : String) (hs : List String)
    → StartsAt i leaves proofs (h ∷ hs)
    → StartsAt (suc i) leaves proofs hs
StartsAt-tail i leaves proofs h hs s = record {
  at = λ d x e. subst (λ j. get_elem? leaves j ≡ some x) (omega arith) (s.at (suc d) x e);
  empty = λ d x e. subst (λ j. get_elem? proofs j ≡ some []) (omega arith) (s.empty (suc d) x e);
}

pub empty_proofs-get_elem? :
    (hs : List String) (d : ℕ) (x : String)
    → get_elem? hs d ≡ some x
    → get_elem? (empty_proofs hs) d ≡ some []
unfolding empty_proofs
empty_proofs-get_elem? [] d x e = cc
empty_proofs-get_elem? (h ∷ hs) zero x e = refl
empty_proofs-get_elem? (h ∷ hs) (suc d) x e = empty_proofs-get_elem? hs d x e

module _ (p : Platform) where
  pub first_level-Holds :
      (i : ℕ) (leaves : List String) (proofs : List (List ProofStep)) (hs : List String)
      → StartsAt i leaves proofs hs
      → All (λ h. hash_pattern h ≡ true) hs
      → All (Holds p leaves 0 proofs) (first_level i hs)
  unfolding first_level occurs fold_path
  first_level-Holds i leaves proofs [] s v = tt
  first_level-Holds i leaves proofs (h ∷ hs) s v = (
    record {
      hex = v.0;
      below = λ d m.
          let e : i + 0 ≡ d = ground arith in
          record {
            leaf = h;
            path = [];
            leaf_at = subst (λ j. get_elem? leaves j ≡ some h) e (s.at 0 h refl);
            path_at = subst (λ j. get_elem? proofs j ≡ some []) e (s.empty 0 h refl);
            hashes = tt;
            steps = refl;
            leads = refl;
          };
    },
    first_level-Holds (suc i) leaves proofs hs (StartsAt-tail i leaves proofs h hs s) v.1,
  )
