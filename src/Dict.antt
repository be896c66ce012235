-- ===== src/Dict.antt =====
-- A JavaScript `Map` with texts for keys, in insertion order: writing to a key that it has keeps the
-- place of that key.
use swisstokint_open_risk_in.Prelude.{
  suc, ◌≡◌, refl, sym, subst, ◌∙◌, ◌⊎◌, ◌≢◌, inl, inr, Bool, false, String, any_of, eq_refl, Option,
  none, some, List, [], ◌∷◌, arith, str_eq, eq_iff, if◌then◌else◌, length, Bool-cases, is_some,
}

abbrev pub Dict {ℓ} : Type ℓ → Type ℓ
Dict V = List (String × V)

-- Two different texts are told apart.
pub str_eq-ne : (k j : String) → k ≢ j → str_eq k j ≡ false
str_eq-ne k j h = elim (Bool-cases (str_eq k j)) [
  | inl e ↦ absurd (h ((eq_iff k j).0 e))
  | inr e ↦ e
]

module _ {ℓ} {V : Type ℓ} where
  -- `map.get(k)`
  abbrev pub lookup : String → Dict V → Option V
  lookup k [] = none
  lookup k ((j, v) ∷ d) = if str_eq k j then some v else lookup k d

  -- `map.has(k)`
  abbrev pub contains : String → Dict V → Bool
  contains k d = is_some (lookup k d)

  -- `map.set(k, v)`
  abbrev pub insert : String → V → Dict V → Dict V
  insert k v [] = (k, v) ∷ []
  insert k v ((j, w) ∷ d) = if str_eq k j then (j, v) ∷ d else (j, w) ∷ insert k v d

  -- `[...map.values()]`
  abbrev pub values : Dict V → List V
  values [] = []
  values ((k, v) ∷ d) = v ∷ values d

  pub lookup-insert_self : (k : String) (v : V) (d : Dict V) → lookup k (insert k v d) ≡ some v
  lookup-insert_self k v [] = ground (arith, eq_refl k)
  lookup-insert_self k v ((j, w) ∷ d) = ground (arith, eq_refl k, lookup-insert_self k v d)

  pub lookup-insert_ne :
      (k j : String) (v : V) (d : Dict V) → k ≢ j → lookup k (insert j v d) ≡ lookup k d
  lookup-insert_ne k j v [] h = ground (arith, str_eq-ne k j h)
  lookup-insert_ne k j v ((i, w) ∷ d) h =
      ground (arith, str_eq-ne k j h, (eq_iff j i).0, lookup-insert_ne k j v d h)

  -- What is found after a write: what was written, or what was there.
  pub lookup-insert :
      (k j : String) (v : V) (d : Dict V)
      → ((k ≡ j) × (lookup k (insert j v d) ≡ some v))
        ⊎ ((k ≢ j) × (lookup k (insert j v d) ≡ lookup k d))
  lookup-insert k j v d = elim (Bool-cases (str_eq k j)) [
    | inl e ↦
        let same = (eq_iff k j).0 e in
        inl (
          same,
          subst (λ i. lookup i (insert j v d) ≡ some v) (sym same) (lookup-insert_self j v d),
        )
    | inr e ↦
        let other : k ≢ j = λ q. ground (arith, eq_iff k j) in
        inr (other, lookup-insert_ne k j v d other)
  ]

  -- A predicate on the keys and the values that are found.
  abbrev pub Every {κ} : (String → V → Type κ) → Dict V → Type (ℓ ⊔ κ)
  Every P d = (k : String) (v : V) → lookup k d ≡ some v → P k v

  pub Every-insert {κ} :
      (P : String → V → Type κ) (j : String) (w : V) (d : Dict V)
      → Every P d
      → P j w
      → Every P (insert j w d)
  Every-insert P j w d h q k v e = elim (lookup-insert k j w d) [
    | inl (same, found) ↦ let it : w ≡ v = cc in subst (λ i. P i v) (sym same) (subst (P j) it q)
    | inr (other, found) ↦ h k v (sym found ∙ e)
  ]

  -- A new key takes a place of its own, a known one keeps its place.
  pub length-insert_new :
      (k : String) (v : V) (d : Dict V) → lookup k d ≡ none → length (insert k v d) ≡ suc (length d)
  length-insert_new k v [] h = refl
  length-insert_new k v ((j, w) ∷ d) h = ground (arith, length-insert_new k v d)

  pub length-insert_known :
      (k : String) (v : V) (d : Dict V) {w : V}
      → lookup k d ≡ some w
      → length (insert k v d) ≡ length d
  length-insert_known k v [] h = cc
  length-insert_known k v ((j, w) ∷ d) {w = u} h = ground (arith, length-insert_known k v d {w = u})

  -- What is found is among the values.
  pub any_of-values :
      (p : V → Bool) (k : String) (d : Dict V) {v : V}
      → any_of p (values d) ≡ false
      → lookup k d ≡ some v
      → p v ≡ false
  any_of-values p k [] h e = cc
  any_of-values p k ((j, w) ∷ d) {v = u} h e = ground (arith, any_of-values p k d {v = u})
