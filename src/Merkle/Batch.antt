-- ===== src/Merkle/Batch.antt =====
-- `buildMerkleBatch`: validation and order of the receipts, the tree, and the leaves with their proofs.
-- `Array.prototype.sort` is stable; so is the insertion sort that stands for it.
use Prim.Native.Nat.{Ordering}
use swisstokint_open_risk_in.Prelude.{
  ℕ, zero, suc, String, Bool, true, false, ◌&&◌, not, Option, none, some, List, [], ◌∷◌, Result, ok,
  err, guard, ◌>>=◌, ◌>>◌, ltb, leb, if◌then◌else◌, id_pattern, hash_pattern, mem_text, length, map,
}
use Prim.Native.String.{◌++◌ as concat}
use swisstokint_open_risk_in.Data
use swisstokint_open_risk_in.Data.{Data, Items, Fields, get_field, field_names}
use swisstokint_open_risk_in.Platform.{Platform}
use swisstokint_open_risk_in.Value.Exact.{sort_texts, same_texts}
use swisstokint_open_risk_in.Merkle.Verify.{items_length}
use swisstokint_open_risk_in.Merkle.Tree.{
  ProofError, type_error, hash_merkle_leaf, ProofStep, Node, Level, climb,
}

pub record Receipt : Type 0 where
  pub receipt_id : String
  pub commitment_hash : String
  pub occurred_at : String

pub record Leaf : Type 0 where
  pub receipt : Receipt
  pub open receipt use *
  pub leaf_index : ℕ
  pub leaf_hash : String
  pub proof : List ProofStep

pub record Batch : Type 0 where
  pub schema_version : String
  pub tree_algorithm : String
  pub ordering : String
  pub batch_ref : String
  pub leaf_count : ℕ
  pub merkle_root : String
  pub leaves : List Leaf

abbrev pub max_receipts : ℕ
max_receipts = 10000

-- 2 ^ 14 ≥ 10,000: one round of the tree halves the level.
abbrev pub max_rounds : ℕ
max_rounds = 14

unfoldable pub assert_identifier : (String → Bool) → Option Data → Result ProofError String
assert_identifier pattern (some (Data.text s)) = if pattern s then ok s else err type_error
assert_identifier pattern _ = err type_error

batch_keys : List String
batch_keys = "receipt_id" ∷ "commitment_hash" ∷ "occurred_at" ∷ []

module _ (p : Platform) where
  unfoldable pub occurred_iso : Option ℕ → Result ProofError String
  occurred_iso none = err type_error
  occurred_iso (some ms) = ok (p.to_iso_string ms)

  unfoldable pub normalize_occurred_at : Option Data → Result ProofError String
  unfolding occurred_iso
  normalize_occurred_at (some (Data.text s)) = occurred_iso (p.date_parse s)
  normalize_occurred_at _ = err type_error

  unfoldable pub batch_receipt : Data → Result ProofError Receipt
  unfolding batch_keys assert_identifier normalize_occurred_at sort_texts same_texts
  batch_receipt (Data.object fs) = do
    guard (same_texts (sort_texts (field_names fs)) (sort_texts batch_keys)) type_error
    receipt_id ← assert_identifier id_pattern (get_field "receipt_id" fs)
    commitment_hash ← assert_identifier hash_pattern (get_field "commitment_hash" fs)
    occurred_at ← normalize_occurred_at (get_field "occurred_at" fs)
    ok (record {
      receipt_id = receipt_id;
      commitment_hash = commitment_hash;
      occurred_at = occurred_at;
    })
  batch_receipt _ = err type_error

  unfoldable pub batch_receipts : Items → Result ProofError (List Receipt)
  unfolding batch_receipt
  batch_receipts Data.nil = ok []
  batch_receipts (Data.cons x xs) = do r ← batch_receipt x; rs ← batch_receipts xs; ok (r ∷ rs)

  -- The comparator's result is positive: `left` goes behind `right`.
  unfoldable pub goes_behind : Receipt → Receipt → Bool
  goes_behind l r = elim (p.locale_compare l.occurred_at r.occurred_at) [
    | Ordering.lt ↦ false
    | Ordering.gt ↦ true
    | Ordering.eq ↦ elim (p.locale_compare l.receipt_id r.receipt_id) [
      | Ordering.gt ↦ true
      | _ ↦ false
    ]
  ]

  unfoldable pub insert_receipt : Receipt → List Receipt → List Receipt
  unfolding goes_behind
  insert_receipt r [] = r ∷ []
  insert_receipt r (x ∷ xs) =
      let behind = x ∷ insert_receipt r xs in if goes_behind r x then behind else r ∷ x ∷ xs

  unfoldable pub sort_receipts : List Receipt → List Receipt
  unfolding insert_receipt
  sort_receipts [] = []
  sort_receipts (r ∷ rs) = insert_receipt r (sort_receipts rs)

-- `new Set(texts).size === texts.length`
unfoldable pub all_distinct : List String → Bool
all_distinct [] = true
all_distinct (k ∷ ks) = not (mem_text k ks) && all_distinct ks

-- `merkleRoot.slice(0, 24)`
unfoldable pub text_slice : ℕ → String → String
text_slice zero s = ""
text_slice (suc n) String.[] = ""
text_slice (suc n) (String.◌∷◌ c s) = String.◌∷◌ c (text_slice n s)

-- The first level: every leaf stands for itself.
unfoldable pub first_level : ℕ → List String → List Node
first_level i [] = []
first_level i (h ∷ hs) = record { hash = h; descendants = i ∷ [] } ∷ first_level (suc i) hs

-- `ordered.map(() => [])`
unfoldable pub empty_proofs : List String → List (List ProofStep)
empty_proofs [] = []
empty_proofs (h ∷ hs) = [] ∷ empty_proofs hs

-- `leaves`, by one walk over the receipts, the leaf hashes and the proofs, which are equally long.
unfoldable pub make_leaves : ℕ → List Receipt → List String → List (List ProofStep) → List Leaf
make_leaves i (r ∷ rs) (h ∷ hs) (q ∷ qs) =
    record { receipt = r; leaf_index = i; leaf_hash = h; proof = q } ∷ make_leaves (suc i) rs hs qs
make_leaves i _ _ _ = []

unfoldable pub tree_batch : List Receipt → List String → String → List (List ProofStep) → Batch
unfolding text_slice make_leaves
tree_batch ordered hashes root proofs = record {
  schema_version = "pom-batch/0.1";
  tree_algorithm = "sha256-domain-separated-duplicate-last";
  ordering = "occurred_at-asc,receipt_id-asc";
  batch_ref = concat "pom-" (text_slice 24 root);
  leaf_count = length ordered;
  merkle_root = root;
  leaves = make_leaves 0 ordered hashes proofs;
}

module _ (p : Platform) where
  unfoldable pub leaf_hashes : List Receipt → Result ProofError (List String)
  unfolding hash_merkle_leaf
  leaf_hashes [] = ok []
  leaf_hashes (r ∷ rs) = do
    h ← hash_merkle_leaf p r.commitment_hash
    hs ← leaf_hashes rs
    ok (h ∷ hs)

  unfoldable pub finish : List Receipt → List String → Level → Result ProofError Batch
  unfolding tree_batch
  finish ordered hashes ([], proofs) = err type_error
  finish ordered hashes (root ∷ others, proofs) = ok (tree_batch ordered hashes root.hash proofs)

  -- The receipts in order with their leaf hashes, before the tree is built.
  unfoldable pub ordered_leaves : Items → Result ProofError (List Receipt × List String)
  unfolding batch_receipts sort_receipts all_distinct leaf_hashes
  ordered_leaves items = do
    receipts ← batch_receipts p items
    let ordered = sort_receipts p receipts
    guard (all_distinct (map (λ r. r.receipt_id) ordered)) type_error
    guard (all_distinct (map (λ r. r.commitment_hash) ordered)) type_error
    hashes ← leaf_hashes ordered
    ok (ordered, hashes)

  unfoldable pub close_tree :
      List Receipt
      → List String
      → Option (Result ProofError Level)
      → Option (Result ProofError Batch)
  unfolding finish
  close_tree ordered hashes none = none
  close_tree ordered hashes (some (err e)) = some (err e)
  close_tree ordered hashes (some (ok level)) = some (finish ordered hashes level)

  unfoldable pub build_tree :
      Result ProofError (List Receipt × List String) → Option (Result ProofError Batch)
  unfolding close_tree climb first_level empty_proofs
  build_tree (err e) = some (err e)
  build_tree (ok (ordered, hashes)) =
      close_tree ordered hashes (climb p max_rounds (first_level 0 hashes) (empty_proofs hashes))

  -- `none` would mean that the rounds ran out.
  unfoldable pub build_merkle_batch : Data → Option (Result ProofError Batch)
  unfolding items_length ordered_leaves build_tree
  build_merkle_batch (Data.array items) =
      if ltb 0 (items_length items) && leb (items_length items) max_receipts
      then build_tree (ordered_leaves items)
      else some (err type_error)
  build_merkle_batch _ = some (err type_error)
