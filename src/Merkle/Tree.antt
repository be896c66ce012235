-- ===== src/Merkle/Tree.antt =====
-- The hashes of the tree, the levels of `buildMerkleBatch`, and the proofs that it collects.
-- An assertion that fails throws a TypeError, the only error here.
use Prim.Native.String.{◌++◌ as concat}
use swisstokint_open_risk_in.Prelude.{
  ℕ, zero, suc, String, Option, none, some, List, [], ◌∷◌, ◌++◌, Result, ok, err, guard, ◌>>=◌,
  ◌>>◌, hash_pattern,
}
use swisstokint_open_risk_in.Platform.{Platform}
use swisstokint_open_risk_in.Canonical.Safe.{PayloadError}

-- A TypeError, or an error of the canonicalizer.
pub data ProofError : Type 0 where
  type_error : ProofError
  payload : PayloadError → ProofError

-- `assertHash`
unfoldable pub assert_hash : String → Result ProofError Unit
assert_hash s = guard (hash_pattern s) type_error

abbrev pub leaf_text : String → String
leaf_text c = concat "swisstokint:proof-leaf:v1:" c

abbrev pub node_text : String → String → String
node_text left right = concat "swisstokint:proof-node:v1:" (concat left (concat ":" right))

-- On which side of the path the sibling stands.
pub data Position : Type 0 where
  on_left on_right : Position

pub record ProofStep : Type 0 where
  pub position : Position
  pub hash : String

pub record Node : Type 0 where
  pub hash : String
  -- the indices of the leaves under it
  pub descendants : List ℕ

module _ (p : Platform) where
  unfoldable pub hash_merkle_leaf : String → Result ProofError String
  unfolding assert_hash
  hash_merkle_leaf c = do assert_hash c; ok (p.sha256_hex (leaf_text c))

  unfoldable pub hash_merkle_node : String → String → Result ProofError String
  unfolding assert_hash
  hash_merkle_node left right = do
    assert_hash left
    assert_hash right
    ok (p.sha256_hex (node_text left right))

-- `proofs[d].push(step)`
unfoldable pub push_at : ProofStep → ℕ → List (List ProofStep) → List (List ProofStep)
push_at s d [] = []
push_at s zero (x ∷ xs) = (x ++ s ∷ []) ∷ xs
push_at s (suc d) (x ∷ xs) = x ∷ push_at s d xs

-- `for (const descendant of …) proofs[descendant].push(step)`
unfoldable pub push_all : ProofStep → List ℕ → List (List ProofStep) → List (List ProofStep)
unfolding push_at
push_all s [] proofs = proofs
push_all s (d ∷ ds) proofs = push_all s ds (push_at s d proofs)

abbrev pub Level : Type 0
Level = List Node × List (List ProofStep)

abbrev pub right_of : Node → ProofStep
right_of n = record { position = on_right; hash = n.hash }

abbrev pub left_of : Node → ProofStep
left_of n = record { position = on_left; hash = n.hash }

module _ (p : Platform) where
  -- One round of the `while` loop: the next level, and the proofs with this level's siblings. The last
  -- node of an odd level is paired with itself.
  unfoldable pub pair_level : List Node → List (List ProofStep) → Result ProofError Level
  pair_level [] proofs = ok ([], proofs)
  pair_level (l ∷ []) proofs = do
    let proofs' = push_all (right_of l) l.descendants proofs
    hash ← hash_merkle_node p l.hash l.hash
    ok (record { hash = hash; descendants = l.descendants } ∷ [], proofs')
  pair_level (l ∷ r ∷ rest) proofs = do
    let proofs' = push_all (left_of l) r.descendants (push_all (right_of r) l.descendants proofs)
    hash ← hash_merkle_node p l.hash r.hash
    (next, done) ← pair_level rest proofs'
    ok (record { hash = hash; descendants = l.descendants ++ r.descendants } ∷ next, done)

  -- `while (level.length > 1)`, with fuel for the rounds; `none` means that it ran out.
  unfoldable pub climb : ℕ → List Node → List (List ProofStep) → Option (Result ProofError Level)
  unfolding pair_level
  climb fuel [] proofs = some (ok ([], proofs))
  climb fuel (n ∷ []) proofs = some (ok (n ∷ [], proofs))
  climb zero (n ∷ m ∷ ns) proofs = none
  climb (suc fuel) (n ∷ m ∷ ns) proofs = elim (pair_level (n ∷ m ∷ ns) proofs) [
    | err e ↦ some (err e)
    | ok (next, done) ↦ climb fuel next done
  ]
