-- ===== src/Merkle/Paths.antt =====
-- The proofs under construction: what a round of the tree does to the paths of the leaves.
use swisstokint_open_risk_in.Prelude.{
  ℕ, zero, suc, ◌+◌, ◌≤◌, String, ◌≡◌, refl, ap, ◌∙◌, true, false, some, List, [], ◌∷◌, ◌++◌, arith,
  get_elem?, hash_pattern, ◌==◌, if◌then◌else◌, All, All-append, length, length-append, Bool-cases,
  ==_iff, inl, inr,
}
use swisstokint_open_risk_in.Platform.{Platform}
use swisstokint_open_risk_in.Merkle.Tree.{
  ProofStep, on_left, on_right, Node, node_text, push_at, push_all,
}

-- How often an index stands in a list.
unfoldable pub occurs : ℕ → List ℕ → ℕ
occurs d [] = 0
occurs d (x ∷ xs) = (if x == d then 1 else 0) + occurs d xs

unfoldable pub under : ℕ → List Node → ℕ
unfolding occurs
under d [] = 0
under d (n ∷ ns) = occurs d n.descendants + under d ns

pub occurs-append : (d : ℕ) (xs ys : List ℕ) → occurs d (xs ++ ys) ≡ occurs d xs + occurs d ys
unfolding occurs
occurs-append d [] ys = omega arith
occurs-append d (x ∷ xs) ys = omega (arith, occurs-append d xs ys)

push_at_other :
    (s : ProofStep) (x d : ℕ) (ps : List (List ProofStep))
    → (x == d) ≡ false
    → get_elem? (push_at s x ps) d ≡ get_elem? ps d
unfolding push_at
push_at_other s x d [] h = refl
push_at_other s zero zero (q ∷ ps) h = cc
push_at_other s zero (suc d) (q ∷ ps) h = refl
push_at_other s (suc x) zero (q ∷ ps) h = refl
push_at_other s (suc x) (suc d) (q ∷ ps) h = push_at_other s x d ps (ground arith)

push_at_self :
    (s : ProofStep) (d : ℕ) (ps : List (List ProofStep)) {path : List ProofStep}
    → get_elem? ps d ≡ some path
    → get_elem? (push_at s d ps) d ≡ some (path ++ s ∷ [])
unfolding push_at
push_at_self s d [] h = cc
push_at_self s zero (q ∷ ps) h = ground arith
push_at_self s (suc d) (q ∷ ps) h = push_at_self s d ps h

pub push_all-absent :
    (s : ProofStep) (ds : List ℕ) (d : ℕ) (ps : List (List ProofStep))
    → occurs d ds ≡ 0
    → get_elem? (push_all s ds ps) d ≡ get_elem? ps d
unfolding push_all occurs
push_all-absent s [] d ps h = refl
push_all-absent s (x ∷ ds) d ps h =
    push_all-absent s ds d (push_at s x ps) (ground arith) ∙ push_at_other s x d ps (ground arith)

pub push_all-once :
    (s : ProofStep) (ds : List ℕ) (d : ℕ) (ps : List (List ProofStep)) {path : List ProofStep}
    → occurs d ds ≡ 1
    → get_elem? ps d ≡ some path
    → get_elem? (push_all s ds ps) d ≡ some (path ++ s ∷ [])
unfolding push_all occurs
push_all-once s [] d ps h q = absurd (ground arith)
push_all-once s (x ∷ ds) d ps h q = elim (Bool-cases (x == d)) [
  | inl e ↦
      push_all-absent s ds d (push_at s x ps) (ground arith)
      ∙ ap (λ i. get_elem? (push_at s i ps) d) ((==_iff x d).0 e)
      ∙ push_at_self s d ps q
  | inr e ↦ push_all-once s ds d (push_at s x ps) (ground arith) (push_at_other s x d ps e ∙ q)
]

module _ (p : Platform) where
  -- The node over a path's step and what it was applied to.
  abbrev pub above : ProofStep → String → String
  above s current = elim s.position [
    | on_left ↦ p.sha256_hex (node_text s.hash current)
    | on_right ↦ p.sha256_hex (node_text current s.hash)
  ]

  -- The root that a path leads to.
  unfoldable pub fold_path : String → List ProofStep → String
  fold_path current [] = current
  fold_path current (s ∷ path) = fold_path (above s current) path

  pub fold_path-append :
      (c : String) (path : List ProofStep) (s : ProofStep)
      → fold_path c (path ++ s ∷ []) ≡ above s (fold_path c path)
  unfolding fold_path
  fold_path-append c [] s = refl
  fold_path-append c (t ∷ path) s = fold_path-append (above t c) path s

  -- A leaf of the tree has, among the proofs, a path of `t` steps that leads to `root`.
  pub record HasPath (leaves : List String) (t : ℕ) (proofs : List (List ProofStep)) (d : ℕ)
      (root : String) : Type 0 where
    pub leaf : String
    pub path : List ProofStep
    pub leaf_at : get_elem? leaves d ≡ some leaf
    pub path_at : get_elem? proofs d ≡ some path
    pub hashes : All (λ s. hash_pattern s.hash ≡ true) path
    pub steps : length path ≡ t
    pub leads : fold_path leaf path ≡ root

  pub record Holds (leaves : List String) (t : ℕ) (proofs : List (List ProofStep)) (n : Node)
      : Type 0 where
    pub hex : hash_pattern n.hash ≡ true
    pub below : (d : ℕ) → 1 ≤ occurs d n.descendants → HasPath leaves t proofs d n.hash

  -- Another write to the proofs of other leaves changes no path.
  pub HasPath-kept :
      (leaves : List String) (t : ℕ) (ps qs : List (List ProofStep)) (d : ℕ) (root : String)
      → get_elem? qs d ≡ get_elem? ps d
      → HasPath leaves t ps d root
      → HasPath leaves t qs d root
  HasPath-kept leaves t ps qs d root e h = record {
    leaf = h.leaf;
    path = h.path;
    leaf_at = h.leaf_at;
    path_at = e ∙ h.path_at;
    hashes = h.hashes;
    steps = h.steps;
    leads = h.leads;
  }

  -- One more step.
  pub HasPath-push :
      (leaves : List String) (t : ℕ) (s : ProofStep) (ds : List ℕ) (ps : List (List ProofStep))
      (d : ℕ) (root : String)
      → hash_pattern s.hash ≡ true
      → occurs d ds ≡ 1
      → HasPath leaves t ps d root
      → HasPath leaves (suc t) (push_all s ds ps) d (above s root)
  HasPath-push leaves t s ds ps d root v o h = record {
    leaf = h.leaf;
    path = h.path ++ s ∷ [];
    leaf_at = h.leaf_at;
    path_at = push_all-once s ds d ps o h.path_at;
    hashes = All-append _ h.path (s ∷ []) h.hashes (v, tt);
    steps = length-append h.path (s ∷ []) ∙ omega (arith, h.steps);
    leads = fold_path-append h.leaf h.path s ∙ ap (above s) h.leads;
  }
