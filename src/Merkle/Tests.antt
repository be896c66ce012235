-- ===== src/Merkle/Tests.antt =====
-- Runs of the batch builder and the verifier at concrete receipts.
use swisstokint_open_risk_in.Prelude.{
  ℕ, String, ◌≡◌, refl, true, Option, some, List, [], ◌∷◌, ok, err, Result, length, ◌>>=◌, Ensures,
  ◌⊎◌, map, hash_pattern, id_pattern,
}
use swisstokint_open_risk_in.Data
use swisstokint_open_risk_in.Data.{Data, Items, record_of}
use swisstokint_open_risk_in.Platform.{HexDigests}
use swisstokint_open_risk_in.Samples.{t0, t1, t2, hash_a, hash_b, sample_platform}
use swisstokint_open_risk_in.Merkle.Tree.{ProofError, type_error, hash_merkle_node, push_all}
use swisstokint_open_risk_in.Merkle.Batch.{Batch, build_merkle_batch}
use swisstokint_open_risk_in.Merkle.Verify.{verify_merkle_proof}
use swisstokint_open_risk_in.Merkle.Whole.{Included, build-Included}
use swisstokint_open_risk_in.Merkle.Binding.{Collision, verify-binding}

abbrev receipt_of : String → String → String → Data
receipt_of name hash at = record_of (
    ("receipt_id", Data.text name)
    ∷ ("commitment_hash", Data.text hash)
    ∷ ("occurred_at", Data.text at)
    ∷ [])

abbrev hash_c : String
hash_c = "cccccccccccccccccccccccccccccccccccccccccccccccccccccccccccccccc"

abbrev three : Items
three = Data.cons (receipt_of "receipt-000000000001" hash_c t2) (
    Data.cons (receipt_of "receipt-000000000002" hash_a t0)
      (Data.cons (receipt_of "receipt-000000000003" hash_b t1) Data.nil))

names : Option (Result ProofError Batch) → List String
names (some (ok b)) = map (λ l. l.receipt_id) b.leaves
names _ = []

sizes : Option (Result ProofError Batch) → List ℕ
sizes (some (ok b)) = map (λ l. length l.proof) b.leaves
sizes _ = []

sample_digests : HexDigests sample_platform
unfolding sample_platform hash_pattern
sample_digests s = refl

build_sorts :
    names (build_merkle_batch sample_platform (Data.array three))
    ≡ "receipt-000000000002" ∷ "receipt-000000000003" ∷ "receipt-000000000001" ∷ []
unfolding names build_merkle_batch sample_platform ◌>>=◌ Data.field_names Data.get_field id_pattern
    hash_pattern hash_merkle_node push_all
build_sorts = refl

build_proves : sizes (build_merkle_batch sample_platform (Data.array three)) ≡ 2 ∷ 2 ∷ 2 ∷ []
unfolding sizes build_merkle_batch sample_platform ◌>>=◌ Data.field_names Data.get_field id_pattern
    hash_pattern hash_merkle_node push_all
build_proves = refl

-- One receipt twice.
build_refuses :
    build_merkle_batch sample_platform (
      Data.array (
        Data.cons
          (receipt_of "receipt-000000000001" hash_a t0)
          (Data.cons (receipt_of "receipt-000000000001" hash_b t1) Data.nil)))
    ≡ some (err type_error)
unfolding build_merkle_batch sample_platform ◌>>=◌ Data.field_names Data.get_field id_pattern
    hash_pattern
build_refuses = refl

abbrev sample_proof : Items
sample_proof =
    Data.cons (record_of (("position", Data.text "left") ∷ ("hash", Data.text hash_b) ∷ []))
      Data.nil

sample_accepted :
    (c : String)
    → hash_pattern c ≡ true
    → verify_merkle_proof sample_platform (Data.text c) (Data.array sample_proof) (Data.text hash_a)
      ≡ true
unfolding verify_merkle_proof sample_platform ◌>>=◌ hash_pattern Data.get_field
sample_accepted c h = rw h refl

hash_a_pattern : hash_pattern hash_a ≡ true
unfolding hash_pattern
hash_a_pattern = refl

hash_b_pattern : hash_pattern hash_b ≡ true
unfolding hash_pattern
hash_b_pattern = refl

build-Included_example :
    (r : Result ProofError Batch) × (build_merkle_batch sample_platform (Data.array three) ≡ some r)
    × Ensures (Included sample_platform three) r
build-Included_example = build-Included sample_platform sample_digests three

-- Under a hash function that is constant, two commitments share a root, and the collision is shown.
verify-binding_example : (hash_a ≡ hash_b) ⊎ Collision sample_platform
verify-binding_example =
    verify-binding sample_platform hash_a hash_b hash_a sample_proof sample_proof refl
      (sample_accepted hash_a hash_a_pattern) (sample_accepted hash_b hash_b_pattern)
