-- ===== src/Merkle/Ordered.antt =====
-- The receipts of a batch, in order, with their leaf hashes.
use mathlib.Core.List.{Perm}
use mathlib.Core.List.Perm
use swisstokint_open_risk_in.Prelude.{
  suc, String, ◌≡◌, refl, ap, ◌∙◌, true, List, [], ◌∷◌, arith, ok, hash_pattern, length, Ensures,
  Ensures-bind, Ensures-ok, Bool-cases, inl, inr, guard-eq-ok,
}
use swisstokint_open_risk_in.Platform.{Platform}
use swisstokint_open_risk_in.Data
use swisstokint_open_risk_in.Data.{Data, Items}
use swisstokint_open_risk_in.Merkle.Tree.{leaf_text, hash_merkle_leaf, assert_hash}
use swisstokint_open_risk_in.Merkle.Batch.{
  Receipt, leaf_hashes, batch_receipts, sort_receipts, insert_receipt, ordered_leaves, goes_behind,
}
use swisstokint_open_risk_in.Merkle.Verify.{items_length}

module _ (p : Platform) where
  -- The hashes are the leaf hashes of the receipts.
  abbrev pub Hashed : List Receipt → List String → Type 0
  Hashed [] [] = Unit
  Hashed [] (h ∷ hs) = ⊥
  Hashed (r ∷ rs) [] = ⊥
  Hashed (r ∷ rs) (h ∷ hs) =
      (hash_pattern r.commitment_hash ≡ true)
      × (p.sha256_hex (leaf_text r.commitment_hash) ≡ h)
      × Hashed rs hs

  leaf_hash-eq_ok :
      (c h : String)
      → hash_merkle_leaf p c ≡ ok h
      → (hash_pattern c ≡ true) × (p.sha256_hex (leaf_text c) ≡ h)
  unfolding hash_merkle_leaf assert_hash
  leaf_hash-eq_ok c h e = let (a, b) = guard-eq-ok _ _ _ e in (a, cc)

  leaf_hashes-Ensures : (rs : List Receipt) → Ensures (Hashed rs) (leaf_hashes p rs)
  unfolding leaf_hashes
  leaf_hashes-Ensures [] = Ensures-ok [] tt
  leaf_hashes-Ensures (r ∷ rs) = Ensures-bind _ _ λ h e. Ensures-bind _ _ λ hs f.
      let (a, b) = leaf_hash-eq_ok r.commitment_hash h e in
      Ensures-ok (h ∷ hs) (a, b, (leaf_hashes-Ensures rs).at hs f)

  pub Hashed-length : (rs : List Receipt) (hs : List String) → Hashed rs hs → length rs ≡ length hs
  Hashed-length [] [] h = refl
  Hashed-length [] (y ∷ hs) h = absurd h
  Hashed-length (r ∷ rs) [] h = absurd h
  Hashed-length (r ∷ rs) (y ∷ hs) h = ap suc (Hashed-length rs hs h.2)

  insert_receipt-Perm : (r : Receipt) (rs : List Receipt) → Perm (insert_receipt p r rs) (r ∷ rs)
  unfolding insert_receipt
  insert_receipt-Perm r [] = Perm.refl _
  insert_receipt-Perm r (x ∷ xs) = elim (Bool-cases (goes_behind p r x)) [
    | inl e ↦ rw e (Perm.trans (Perm.cons x (insert_receipt-Perm r xs)) (Perm.swap r x xs))
    | inr e ↦ rw e (Perm.refl _)
  ]

  sort_receipts-Perm : (rs : List Receipt) → Perm (sort_receipts p rs) rs
  unfolding sort_receipts
  sort_receipts-Perm [] = Perm.refl _
  sort_receipts-Perm (r ∷ rs) =
      Perm.trans (insert_receipt-Perm r (sort_receipts p rs)) (Perm.cons r (sort_receipts-Perm rs))

  insert_receipt-length :
      (r : Receipt) (rs : List Receipt) → length (insert_receipt p r rs) ≡ suc (length rs)
  unfolding insert_receipt
  insert_receipt-length r [] = refl
  insert_receipt-length r (x ∷ xs) = ground (arith, insert_receipt-length r xs)

  sort_receipts-length : (rs : List Receipt) → length (sort_receipts p rs) ≡ length rs
  unfolding sort_receipts
  sort_receipts-length [] = refl
  sort_receipts-length (r ∷ rs) =
      insert_receipt-length r (sort_receipts p rs) ∙ ap suc (sort_receipts-length rs)

  batch_receipts-length :
      (items : Items) → Ensures (λ rs. length rs ≡ items_length items) (batch_receipts p items)
  unfolding batch_receipts items_length
  batch_receipts-length Data.nil = Ensures-ok [] refl
  batch_receipts-length (Data.cons x xs) = Ensures-bind _ _ λ r e.
      Ensures-bind _ _ λ rs f. Ensures-ok (r ∷ rs) (ap suc ((batch_receipts-length xs).at rs f))

  -- What `buildMerkleBatch` has before it builds the tree.
  pub record Prepared (items : Items) (o : List Receipt × List String) : Type 0 where
    pub receipts : List Receipt
    pub validated : batch_receipts p items ≡ ok receipts
    pub reordered : Perm o.0 receipts
    pub as_many : length o.0 ≡ items_length items
    pub hashed : Hashed o.0 o.1

  pub ordered_leaves-Prepared : (items : Items) → Ensures (Prepared items) (ordered_leaves p items)
  unfolding ordered_leaves
  ordered_leaves-Prepared items = Ensures-bind _ _ λ rs e. Ensures-bind _ _ λ u f.
      Ensures-bind _ _ λ v g. Ensures-bind _ _ λ hs k.
        Ensures-ok (sort_receipts p rs, hs)
          (record {
            receipts = rs;
            validated = e;
            reordered = sort_receipts-Perm rs;
            as_many = sort_receipts-length rs ∙ (batch_receipts-length items).at rs e;
            hashed = (leaf_hashes-Ensures (sort_receipts p rs)).at hs k;
          })
