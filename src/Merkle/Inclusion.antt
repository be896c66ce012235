-- ===== src/Merkle/Inclusion.antt =====
-- A path that leads to the root verifies.
use swisstokint_open_risk_in.Prelude.{
  suc, ◌≤◌, String, ◌≡◌, refl, ap, true, List, [], ◌∷◌, arith, ok, hash_pattern, All, length, ◌>>=◌,
  leb, eq_refl,
}
use swisstokint_open_risk_in.Platform.{Platform, HexDigests}
use swisstokint_open_risk_in.Data.{Data, get_field}
use swisstokint_open_risk_in.Merkle.Tree.{
  ProofStep, Position, on_left, on_right, leaf_text, hash_merkle_node, hash_merkle_leaf,
  assert_hash,
}
use swisstokint_open_risk_in.Merkle.Verify.{
  items_length, read_step, read_hash, read_position, apply_step, follow, recompute,
  verify_merkle_proof, proof_items, step_data,
}
use swisstokint_open_risk_in.Merkle.Paths.{fold_path, above}

items_length-proof_items : (path : List ProofStep) → items_length (proof_items path) ≡ length path
unfolding items_length proof_items
items_length-proof_items [] = refl
items_length-proof_items (s ∷ path) = ap suc (items_length-proof_items path)

read_step-step_at :
    (q : Position) (h : String)
    → hash_pattern h ≡ true
    → read_step (step_data (record { position = q; hash = h }))
      ≡ ok (record { position = q; hash = h })
unfolding read_step step_data read_position read_hash get_field assert_hash ◌>>=◌
read_step-step_at on_left h v = rw v refl
read_step-step_at on_right h v = rw v refl

module _ (p : Platform) (digests : HexDigests p) where
  apply_step-at :
      (q : Position) (h c : String)
      → hash_pattern h ≡ true
      → hash_pattern c ≡ true
      → apply_step p (record { position = q; hash = h }) c
        ≡ ok (above p (record { position = q; hash = h }) c)
  unfolding apply_step hash_merkle_node assert_hash ◌>>=◌
  apply_step-at on_left h c v w = rw v (rw w refl)
  apply_step-at on_right h c v w = rw w (rw v refl)

  above-hex :
      (q : Position) (h c : String)
      → hash_pattern (above p (record { position = q; hash = h }) c) ≡ true
  above-hex on_left h c = digests _
  above-hex on_right h c = digests _

  follow-proof_items :
      (path : List ProofStep) (c : String)
      → All (λ s. hash_pattern s.hash ≡ true) path
      → hash_pattern c ≡ true
      → follow p (proof_items path) c ≡ ok (fold_path p c path)
  unfolding follow proof_items fold_path ◌>>=◌
  follow-proof_items [] c v w = refl
  follow-proof_items (s ∷ path) c v w = rw (read_step-step_at s.position s.hash v.0) (
      rw (apply_step-at s.position s.hash c v.0 w)
        (follow-proof_items path (above p s c) v.1 (above-hex s.position s.hash c)))

  -- A path that leads from a leaf to the root verifies.
  pub verify-path :
      (c root : String) (path : List ProofStep)
      → hash_pattern c ≡ true
      → hash_pattern root ≡ true
      → All (λ s. hash_pattern s.hash ≡ true) path
      → length path ≤ 32
      → fold_path p (p.sha256_hex (leaf_text c)) path ≡ root
      → verify_merkle_proof p (Data.text c) (Data.array (proof_items path)) (Data.text root) ≡ true
  unfolding verify_merkle_proof recompute assert_hash hash_merkle_leaf ◌>>=◌
  verify-path c root path v w vs k e =
      let short : leb (items_length (proof_items path)) 32 ≡ true =
        ground (arith, items_length-proof_items path) in
      rw v (
        rw w (
          rw short (
            rw (follow-proof_items path (p.sha256_hex (leaf_text c)) vs (digests (leaf_text c)))
              (rw e (eq_refl root)))))
