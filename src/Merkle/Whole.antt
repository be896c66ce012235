-- ===== src/Merkle/Whole.antt =====
-- A whole batch: the tree is built within its rounds, it holds the receipts that were given, and every
-- proof that it hands out verifies.
use mathlib.Core.List.{Perm}
use swisstokint_open_risk_in.Prelude.{
  ℕ, suc, ◌≤◌, ◌<◌, String, ◌≡◌, refl, sym, ap, subst, ◌∙◌, true, some, List, [], ◌∷◌, arith, ok,
  err, Result, get_elem?, hash_pattern, All, length, Ensures, map, Ensures-ok, Bool-cases,
  Result-cases, inl, inr, ltb, leb, ◌&&◌,
}
use swisstokint_open_risk_in.Platform.{Platform, HexDigests}
use swisstokint_open_risk_in.Data.{Data, Items}
use swisstokint_open_risk_in.Merkle.Tree.{ProofError, type_error, ProofStep, Node, leaf_text, climb}
use swisstokint_open_risk_in.Merkle.Batch.{
  Receipt, Leaf, Batch, first_level, empty_proofs, make_leaves, finish, tree_batch, close_tree,
  build_tree, build_merkle_batch, max_rounds, batch_receipts, ordered_leaves,
}
use swisstokint_open_risk_in.Merkle.Verify.{items_length, verify_merkle_proof, proof_items}
use swisstokint_open_risk_in.Merkle.Paths.{under, HasPath}
use swisstokint_open_risk_in.Merkle.Climb.{
  Climbed, climb-Climbed, under-first_level, first_level-Holds, empty_proofs-get_elem?,
}
use swisstokint_open_risk_in.Merkle.Inclusion.{verify-path}
use swisstokint_open_risk_in.Merkle.Ordered.{
  Hashed, Hashed-length, Prepared, ordered_leaves-Prepared,
}

-- A leaf of the batch whose proof is accepted for the batch's root.
abbrev pub Verifies : Platform → String → Leaf → Type 0
Verifies p root l =
    verify_merkle_proof p (Data.text l.commitment_hash) (Data.array (proof_items l.proof))
      (Data.text root)
    ≡ true

pub record Included (p : Platform) (items : Items) (b : Batch) : Type 0 where
  pub receipts : List Receipt
  pub validated : batch_receipts p items ≡ ok receipts
  pub same_receipts : Perm (map (λ l. l.receipt) b.leaves) receipts
  pub counted : b.leaf_count ≡ items_length items
  pub verified : All (Verifies p b.merkle_root) b.leaves

module _ (p : Platform) (digests : HexDigests p) where
  Hashed-hex :
      (rs : List Receipt) (hs : List String) → Hashed p rs hs → All (λ h. hash_pattern h ≡ true) hs
  Hashed-hex [] [] h = tt
  Hashed-hex [] (y ∷ hs) h = absurd h
  Hashed-hex (r ∷ rs) [] h = absurd h
  Hashed-hex (r ∷ rs) (y ∷ hs) h =
      (subst (λ z. hash_pattern z ≡ true) h.1 (digests _), Hashed-hex rs hs h.2)

  record Tree (hs : List String) : Type 0 where
    root : Node
    done : List (List ProofStep)
    rounds : ℕ
    result : climb p max_rounds (first_level 0 hs) (empty_proofs hs) ≡ some (ok (root ∷ [], done))
    few : rounds ≤ 32
    hex : hash_pattern root.hash ≡ true
    paths : (d : ℕ) → d < length hs → HasPath p hs rounds done d root.hash

  Climbed-Tree :
      (hs : List String) (top : List Node)
      → 1 ≤ length hs
      → (c : Climbed p digests hs 0 max_rounds (first_level 0 hs) (empty_proofs hs)) → c.top ≡ top
      → Tree hs
  unfolding under
  Climbed-Tree hs [] k c e = absurd (ground (arith, c.flat 0, under-first_level 0 0 hs))
  Climbed-Tree hs (n ∷ []) k c e =
      let h = subst (All _) e c.holds in
      record {
        root = n;
        done = c.done;
        rounds = c.rounds;
        result = rw (sym e) c.result;
        few = omega (arith, c.few);
        hex = h.0.hex;
        paths = λ d m. h.0.below d (ground (arith, c.flat d, under-first_level d 0 hs));
      }
  Climbed-Tree hs (n ∷ m ∷ ns) k c e = absurd (ground (arith, c.at_most_one))

  length-first_level : (i : ℕ) (hs : List String) → length (first_level i hs) ≡ length hs
  unfolding first_level
  length-first_level i [] = refl
  length-first_level i (h ∷ hs) = ap suc (length-first_level (suc i) hs)

  first_level-Tree :
      (hs : List String)
      → All (λ h. hash_pattern h ≡ true) hs
      → 1 ≤ length hs
      → length hs ≤ 10000
      → Tree hs
  first_level-Tree hs v k m =
      let c =
        climb-Climbed p digests hs 0 max_rounds (first_level 0 hs) (empty_proofs hs)
          (λ d. ground (arith, under-first_level d 0 hs))
          (first_level-Holds p 0 hs (empty_proofs hs) hs
            (record {
              at = λ d x e. subst (λ j. get_elem? hs j ≡ some x) (omega arith) e;
              empty = λ d x e.
                  subst (λ j. get_elem? (empty_proofs hs) j ≡ some []) (omega arith)
                    (empty_proofs-get_elem? hs d x e);
            })
            v)
          (omega (arith, length-first_level 0 hs)) in
      Climbed-Tree hs c.top k c refl

  HasPath-tail :
      (y : String) (hs : List String) (t : ℕ) (q : List ProofStep) (qs : List (List ProofStep))
      (d : ℕ) (root : String)
      → HasPath p (y ∷ hs) t (q ∷ qs) (suc d) root
      → HasPath p hs t qs d root
  HasPath-tail y hs t q qs d root w = record {
    leaf = w.leaf;
    path = w.path;
    leaf_at = w.leaf_at;
    path_at = w.path_at;
    hashes = w.hashes;
    steps = w.steps;
    leads = w.leads;
  }

  make_leaves-Verifies :
      (i t : ℕ) (rs : List Receipt) (hs : List String) (qs : List (List ProofStep)) (root : String)
      → Hashed p rs hs
      → hash_pattern root ≡ true
      → t ≤ 32
      → ((d : ℕ) → d < length hs → HasPath p hs t qs d root)
      → (map (λ l. l.receipt) (make_leaves i rs hs qs) ≡ rs)
        × All (Verifies p root) (make_leaves i rs hs qs)
  unfolding make_leaves
  make_leaves-Verifies i t [] [] qs root h v k f = (refl, tt)
  make_leaves-Verifies i t [] (y ∷ hs) qs root h v k f = absurd h
  make_leaves-Verifies i t (r ∷ rs) [] qs root h v k f = absurd h
  make_leaves-Verifies i t (r ∷ rs) (y ∷ hs) [] root h v k f =
      let w = (f 0 (omega arith)).path_at in absurd (cc)
  make_leaves-Verifies i t (r ∷ rs) (y ∷ hs) (q ∷ qs) root h v k f =
      let w = f 0 (omega arith) in
      let same : q ≡ w.path = cc in
      let leaf : p.sha256_hex (leaf_text r.commitment_hash) ≡ w.leaf = cc in
      let rest =
        make_leaves-Verifies (suc i) t rs hs qs root h.2 v k
          (λ d m. HasPath-tail y hs t q qs d root (f (suc d) (omega (arith, m)))) in
      (
        ap (λ l. r ∷ l) rest.0,
        (
          verify-path p digests r.commitment_hash root q h.0 v (subst (All _) (sym same) w.hashes)
              (ground (arith, w.steps)) (rw (same, leaf) w.leads),
          rest.1,
        ),
      )

  build_tree-Included :
      (items : Items) (o : List Receipt × List String)
      → 1 ≤ items_length items
      → items_length items ≤ 10000
      → Prepared p items o
      → (b : Batch) × (build_tree p (ok o) ≡ some (ok b)) × Included p items b
  unfolding build_tree close_tree finish tree_batch
  build_tree-Included items (rs, hs) k m w =
      let n : length hs ≡ items_length items = sym (Hashed-length p rs hs w.hashed) ∙ w.as_many in
      let t =
        first_level-Tree hs (Hashed-hex rs hs w.hashed) (omega (arith, n)) (omega (arith, n)) in
      let (a, b) =
        make_leaves-Verifies 0 t.rounds rs hs t.done t.root.hash w.hashed t.hex t.few t.paths in
      (
        tree_batch rs hs t.root.hash t.done,
        rw t.result refl,
        record {
          receipts = w.receipts;
          validated = w.validated;
          same_receipts = rw a w.reordered;
          counted = w.as_many;
          verified = b;
        },
      )

  -- On any list of values, `build_merkle_batch` answers within its rounds, and a batch that it returns
  -- counts as many leaves as receipts were given, holds exactly the validated receipts, reordered, and
  -- each leaf's proof is accepted for its commitment and the batch's root.
  pub build-Included :
      (items : Items)
      → (r : Result ProofError Batch) × (build_merkle_batch p (Data.array items) ≡ some r)
        × Ensures (Included p items) r
  unfolding build_merkle_batch
  build-Included items =
      elim (Bool-cases (ltb 0 (items_length items) && leb (items_length items) 10000)) [
        | inr e ↦ (err type_error, rw e refl, record { at = λ b q. cc })
        | inl e ↦ elim (Result-cases (ordered_leaves p items)) [
          | inr (x, q) ↦ (err x, rw (e, q) refl, record { at = λ b q. cc })
          | inl (o, q) ↦
              let (b, built, i) =
                build_tree-Included items o (ground arith) (ground arith)
                  ((ordered_leaves-Prepared p items).at o q) in
              (ok b, rw (e, q) built, Ensures-ok b i)
        ]
      ]
