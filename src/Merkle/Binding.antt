-- ===== src/Merkle/Binding.antt =====
-- Two accepted proofs of one shape for one root are about one commitment, unless SHA-256 collides.
use Prim.Native.String.{count as chars}
use text.Mathlib.TextLemmas.{append_cancel_left, append_inj, length-cons}
use swisstokint_open_risk_in.Prelude.{
  String, ◌≡◌, ◌≢◌, refl, sym, ap, subst, ◌∙◌, true, Option, none, List, [], ◌∷◌, arith, ok,
  hash_pattern, >>=-eq-ok, guard-eq-ok, Bool-cases, ◌⊎◌, inl, inr, str_eq, eq_iff, codes, count,
  Result-cases,
}
use swisstokint_open_risk_in.Platform.{Platform}
use swisstokint_open_risk_in.Data
use swisstokint_open_risk_in.Data.{Data, Items, get_field}
use swisstokint_open_risk_in.Merkle.Tree.{
  ProofStep, Position, on_left, on_right, leaf_text, node_text, hash_merkle_node, hash_merkle_leaf,
  assert_hash,
}
use swisstokint_open_risk_in.Merkle.Verify.{
  read_step, read_hash, read_position, apply_step, follow, recompute, verify_merkle_proof, caught,
}

chars-codes : (s : String) → chars s ≡ count (codes s)
unfolding count
chars-codes String.[] = refl
chars-codes (String.◌∷◌ c s) = length-cons c s ∙ omega (arith, chars-codes s)

hash-chars : (s : String) → hash_pattern s ≡ true → chars s ≡ 64
unfolding hash_pattern
hash-chars s h = ground (arith, chars-codes s)

-- Two texts with one digest.
pub record Collision (p : Platform) : Type 0 where
  pub left : String
  pub right : String
  pub differ : left ≢ right
  pub same_digest : p.sha256_hex left ≡ p.sha256_hex right

module _ (p : Platform) where
  pub digest-cases : (s t : String) → p.sha256_hex s ≡ p.sha256_hex t → (s ≡ t) ⊎ Collision p
  digest-cases s t h = elim (Bool-cases (str_eq s t)) [
    | inl e ↦ inl ((eq_iff s t).0 e)
    | inr e ↦ inr (record {
      left = s;
      right = t;
      differ = λ q. ground (arith, eq_iff s t, q);
      same_digest = h;
    })
  ]

  node_text-inj :
      (l r l' r' : String)
      → hash_pattern l ≡ true
      → hash_pattern l' ≡ true
      → node_text l r ≡ node_text l' r'
      → (l ≡ l') × (r ≡ r')
  node_text-inj l r l' r' v v' h =
      let (a, b) =
        append_inj (append_cancel_left "swisstokint:proof-node:v1:" _ _ h)
          (hash-chars l v ∙ sym (hash-chars l' v')) in
      (a, append_cancel_left ":" r r' b)

  node-eq_ok :
      (l r n : String)
      → hash_merkle_node p l r ≡ ok n
      → (hash_pattern l ≡ true) × (p.sha256_hex (node_text l r) ≡ n)
  unfolding hash_merkle_node assert_hash
  node-eq_ok l r n h =
      let (a, k) = guard-eq-ok _ _ _ h in let (b, m) = guard-eq-ok _ _ _ k in (a, cc)

  node-inj :
      (l r l' r' n : String)
      → hash_merkle_node p l r ≡ ok n
      → hash_merkle_node p l' r' ≡ ok n
      → ((l ≡ l') × (r ≡ r')) ⊎ Collision p
  node-inj l r l' r' n h k =
      let (a, b) = node-eq_ok l r n h in
      let (c, d) = node-eq_ok l' r' n k in
      elim (digest-cases (node_text l r) (node_text l' r') (b ∙ sym d)) [
        | inl e ↦ inl (node_text-inj l r l' r' a c e)
        | inr w ↦ inr w
      ]

  apply_step-inj :
      (q : Position) (a b c d n : String)
      → apply_step p (record { position = q; hash = a }) c ≡ ok n
      → apply_step p (record { position = q; hash = b }) d ≡ ok n
      → (c ≡ d) ⊎ Collision p
  unfolding apply_step
  apply_step-inj on_left a b c d n h k = elim (node-inj a c b d n h k) [
    | inl e ↦ inl e.1
    | inr w ↦ inr w
  ]
  apply_step-inj on_right a b c d n h k = elim (node-inj c a d b n h k) [
    | inl e ↦ inl e.0
    | inr w ↦ inr w
  ]

  leaf-inj :
      (c d n : String)
      → hash_merkle_leaf p c ≡ ok n
      → hash_merkle_leaf p d ≡ ok n
      → (c ≡ d) ⊎ Collision p
  unfolding hash_merkle_leaf assert_hash
  leaf-inj c d n h k =
      let (a, x) = guard-eq-ok _ _ _ h in
      let (b, y) = guard-eq-ok _ _ _ k in
      elim (digest-cases (leaf_text c) (leaf_text d) (cc)) [
        | inl e ↦ inl (append_cancel_left "swisstokint:proof-leaf:v1:" c d e)
        | inr w ↦ inr w
      ]

-- The positions of a proof's steps, as the values that stand there.
unfoldable pub direction : Data → Option Data
unfolding get_field
direction (Data.object fs) = get_field "position" fs
direction _ = none

unfoldable pub directions : Items → List (Option Data)
unfolding direction
directions Data.nil = []
directions (Data.cons x xs) = direction x ∷ directions xs

read_step-position :
    (x : Data) (s : ProofStep) → read_step x ≡ ok s → read_position (direction x) ≡ ok s.position
unfolding read_step direction
read_step-position (Data.object fs) s h =
    let (q, a, k) = >>=-eq-ok (read_position (get_field "position" fs)) _ h in
    let (r, b, m) = >>=-eq-ok (read_hash (get_field "hash" fs)) _ k in
    let z : record { position = q; hash = r } ≡ s = cc in a ∙ ap (λ y. ok y.position) z
read_step-position Data.null s h = ground arith
read_step-position (Data.boolean b) s h = ground arith
read_step-position (Data.number b) s h = ground arith
read_step-position (Data.text b) s h = ground arith
read_step-position (Data.array b) s h = ground arith
read_step-position Data.opaque s h = ground arith

module _ (p : Platform) where
  step-inj :
      (x y : Data) (s t : ProofStep) (c d n : String)
      → direction x ≡ direction y
      → read_step x ≡ ok s
      → read_step y ≡ ok t
      → apply_step p s c ≡ ok n
      → apply_step p t d ≡ ok n
      → (c ≡ d) ⊎ Collision p
  step-inj x y s t c d n e a b h k =
      let i : read_position (direction x) ≡ ok s.position = read_step-position x s a in
      let j : read_position (direction y) ≡ ok t.position = read_step-position y t b in
      let q : s.position ≡ t.position = cc in
      apply_step-inj p t.position s.hash t.hash c d n
        (subst (λ z. apply_step p (record { position = z; hash = s.hash }) c ≡ ok n) q h) k

  follow-inj :
      (xs ys : Items) (c d top : String)
      → directions xs ≡ directions ys
      → follow p xs c ≡ ok top
      → follow p ys d ≡ ok top
      → (c ≡ d) ⊎ Collision p
  unfolding follow directions
  follow-inj Data.nil Data.nil c d top e h k = inl (cc)
  follow-inj Data.nil (Data.cons y ys) c d top e h k = absurd (cc)
  follow-inj (Data.cons x xs) Data.nil c d top e h k = absurd (cc)
  follow-inj (Data.cons x xs) (Data.cons y ys) c d top e h k =
      let (s, a, h1) = >>=-eq-ok (read_step x) _ h in
      let (n, b, h2) = >>=-eq-ok (apply_step p s c) _ h1 in
      let (t, a', k1) = >>=-eq-ok (read_step y) _ k in
      let (m, b', k2) = >>=-eq-ok (apply_step p t d) _ k1 in
      elim (follow-inj xs ys n m top (cc) h2 k2) [
        | inr w ↦ inr w
        | inl z ↦ step-inj x y s t c d n (cc) a a' b (b' ∙ ap ok (sym z))
      ]

  accepted :
      (c root : String) (xs : Items)
      → caught p (recompute p c xs root) ≡ true
      → (leaf : String) × (hash_merkle_leaf p c ≡ ok leaf) × (follow p xs leaf ≡ ok root)
  unfolding recompute
  accepted c root xs h = elim (Result-cases (recompute p c xs root)) [
    | inr (e, q) ↦ absurd (ground arith)
    | inl (b, q) ↦
        let (a1, k1) = guard-eq-ok _ _ _ q in
        let (a2, k2) = guard-eq-ok _ _ _ k1 in
        let (a3, k3) = guard-eq-ok _ _ _ k2 in
        let (leaf, a4, k4) = >>=-eq-ok (hash_merkle_leaf p c) _ k3 in
        let (top, a5, k5) = >>=-eq-ok (follow p xs leaf) _ k4 in
        let same : str_eq top root ≡ true = ground (arith, q, k5) in
        (leaf, a4, a5 ∙ ap ok ((eq_iff top root).0 same))
  ]

  -- Two proofs whose steps stand on the same sides, accepted for one root, are proofs of one commitment,
  -- or two texts with one SHA-256 digest are at hand.
  pub verify-binding :
      (c d root : String) (xs ys : Items)
      → directions xs ≡ directions ys
      → verify_merkle_proof p (Data.text c) (Data.array xs) (Data.text root) ≡ true
      → verify_merkle_proof p (Data.text d) (Data.array ys) (Data.text root) ≡ true
      → (c ≡ d) ⊎ Collision p
  unfolding verify_merkle_proof
  verify-binding c d root xs ys e h k =
      let (l, a, b) = accepted c root xs h in
      let (m, a', b') = accepted d root ys k in
      elim (follow-inj xs ys l m root e b b') [
        | inr w ↦ inr w
        | inl z ↦ leaf-inj p c d m (a ∙ ap ok z) a'
      ]
