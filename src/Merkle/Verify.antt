-- ===== src/Merkle/Verify.antt =====
-- `verifyMerkleProof`: anything that throws is a refusal.
use swisstokint_open_risk_in.Prelude.{
  ℕ, suc, String, Bool, false, Option, some, List, [], ◌∷◌, Result, ok, err, guard, ◌>>=◌, ◌>>◌,
  leb, str_eq, if◌then◌else◌,
}
use swisstokint_open_risk_in.Data
use swisstokint_open_risk_in.Data.{Data, Items, Fields, get_field, record_of}
use swisstokint_open_risk_in.Platform.{Platform}
use swisstokint_open_risk_in.Merkle.Tree.{
  ProofError, type_error, assert_hash, hash_merkle_leaf, hash_merkle_node, ProofStep, Position,
  on_left, on_right,
}

abbrev pub max_proof_length : ℕ
max_proof_length = 32

unfoldable pub items_length : Items → ℕ
items_length Data.nil = 0
items_length (Data.cons x xs) = suc (items_length xs)

-- `step.position === 'left' || step.position === 'right'`
unfoldable pub read_position : Option Data → Result ProofError Position
read_position (some (Data.text s)) =
    if str_eq s "left" then ok on_left else if str_eq s "right" then ok on_right else err type_error
read_position _ = err type_error

-- `assertHash(step.hash, …)`
unfoldable pub read_hash : Option Data → Result ProofError String
unfolding assert_hash
read_hash (some (Data.text s)) = do assert_hash s; ok s
read_hash _ = err type_error

unfoldable pub read_step : Data → Result ProofError ProofStep
unfolding read_position read_hash
read_step (Data.object fs) = do
  position ← read_position (get_field "position" fs)
  hash ← read_hash (get_field "hash" fs)
  ok (record { position = position; hash = hash })
read_step _ = err type_error

module _ (p : Platform) where
  unfoldable pub apply_step : ProofStep → String → Result ProofError String
  unfolding hash_merkle_node
  apply_step s current = elim s.position [
    | on_left ↦ hash_merkle_node p s.hash current
    | on_right ↦ hash_merkle_node p current s.hash
  ]

  -- `for (const step of proof) …`
  unfoldable pub follow : Items → String → Result ProofError String
  unfolding apply_step read_step
  follow Data.nil current = ok current
  follow (Data.cons x xs) current = do s ← read_step x; next ← apply_step s current; follow xs next

  unfoldable pub recompute : String → Items → String → Result ProofError Bool
  unfolding follow assert_hash hash_merkle_leaf items_length
  recompute c proof root = do
    assert_hash c
    assert_hash root
    guard (leb (items_length proof) max_proof_length) type_error
    leaf ← hash_merkle_leaf p c
    top ← follow proof leaf
    ok (str_eq top root)

  abbrev pub caught : Result ProofError Bool → Bool
  caught (ok b) = b
  caught (err e) = false

  unfoldable pub verify_merkle_proof : Data → Data → Data → Bool
  unfolding recompute
  verify_merkle_proof (Data.text c) (Data.array proof) (Data.text root) =
      caught (recompute c proof root)
  verify_merkle_proof _ _ _ = false

-- A built proof as a value.
abbrev pub position_text : Position → String
position_text on_left = "left"
position_text on_right = "right"

unfoldable pub step_data : ProofStep → Data
step_data s =
    record_of (("position", Data.text (position_text s.position)) ∷ ("hash", Data.text s.hash) ∷ [])

unfoldable pub proof_items : List ProofStep → Items
unfolding step_data
proof_items [] = Data.nil
proof_items (s ∷ path) = Data.cons (step_data s) (proof_items path)
