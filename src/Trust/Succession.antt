-- ===== src/Trust/Succession.antt =====
-- Predecessors and successors.
use swisstokint_open_risk_in.Prelude.{
  ◌≡◌, ◌⊎◌, refl, sym, subst, ◌∙◌, inl, inr, String, false, Option, none, some, any_of, arith,
  Option-cases, eq_refl,
}
use swisstokint_open_risk_in.Platform.{Platform}
use swisstokint_open_risk_in.Dict.{
  Dict, lookup, insert, values, Every, Every-insert, lookup-insert, lookup-insert_self,
  lookup-insert_ne, any_of-values,
}
use swisstokint_open_risk_in.Trust.Records.{Identity, is_active, succeeds_key}
use swisstokint_open_risk_in.Trust.Moves.{IsEnding, Move, enrols, ends, replaces}
use swisstokint_open_risk_in.Trust.Evolves.{Move-ended}

-- The identity that a record names as its predecessor is enrolled, in the same role, and has ended.
abbrev pub Succeeds : Dict Identity → String → Identity → Type 0
Succeeds d k n =
    (j : String)
    → n.predecessor_key_id ≡ some j
    → (r : Identity) × (lookup j d ≡ some r) × (is_active r.status ≡ false) × (r.role ≡ n.role)

abbrev predecessor : Option Identity → Option String
predecessor none = none
predecessor (some r) = r.predecessor_key_id

-- The predecessor that the record under a key names.
abbrev pub predecessor_at : String → Dict Identity → Option String
predecessor_at k d = predecessor (lookup k d)

-- No two records name the same predecessor.
abbrev pub OneSuccessor : Dict Identity → Type 0
OneSuccessor d =
    (k k' j : String) → predecessor_at k d ≡ some j → predecessor_at k' d ≡ some j → k ≡ k'

module _ (p : Platform) where
  Succeeds-kept :
      (d d' : Dict Identity) → Move p d d' → Every (Succeeds d) d → Every (Succeeds d') d
  Succeeds-kept d d' m h k n e j q =
      let (r, at, ended, role) = h k n e j q in (r, Move-ended p d d' j r m at ended, ended, role)

  pub Move-Succeeds :
      (d d' : Dict Identity) → Move p d d' → Every (Succeeds d) d → Every (Succeeds d') d'
  Move-Succeeds d d' (enrols _ n new fresh alone) h =
      Every-insert _ n.key_id n d (Succeeds-kept d _ (enrols d n new fresh alone) h)
        (λ j e. absurd (cc))
  Move-Succeeds d d' (ends _ k r s found e) h =
      let older = Succeeds-kept d _ (ends d k r s found e) h in
      Every-insert _ k s d older (λ j q.
        let (u, at, ended, role) = older k r found j (sym e.predecessor ∙ q) in
        (u, at, ended, role ∙ sym e.role))
  Move-Succeeds d d' (replaces _ k r s n found e alone new ne fresh named role) h =
      let older = Succeeds-kept d _ (replaces d k r s n found e alone new ne fresh named role) h in
      let here : lookup k (insert n.key_id n (insert k s d)) ≡ some s =
        lookup-insert_ne k n.key_id n _ (λ q. ne (sym q)) ∙ lookup-insert_self k s d in
      Every-insert _ n.key_id n (insert k s d)
        (Every-insert _ k s d older (λ j q.
          let (u, at, ended, same) = older k r found j (sym e.predecessor ∙ q) in
          (u, at, ended, same ∙ sym e.role)))
        (λ j q.
          let it : k ≡ j = cc in
          (
            s,
            subst (λ i. lookup i (insert n.key_id n (insert k s d)) ≡ some s) it here,
            e.not_active,
            e.role ∙ sym role,
          ))

  -- A write that ends a record leaves the predecessors.
  predecessor-ended :
      (d : Dict Identity) (k j : String) (r s : Identity)
      → lookup j d ≡ some r
      → IsEnding r s
      → predecessor_at k (insert j s d) ≡ predecessor_at k d
  predecessor-ended d k j r s found e = elim (lookup-insert k j s d) [
    | inl (same, at) ↦ let there : lookup k d ≡ some r = cc in rw (at, there) e.predecessor
    | inr (other, at) ↦ rw at refl
  ]

  -- The record of a new key adds the predecessor that it names.
  predecessor-new :
      (d : Dict Identity) (k : String) (n : Identity)
      → lookup n.key_id d ≡ none
      → ((k ≡ n.key_id) × (predecessor_at k (insert n.key_id n d) ≡ n.predecessor_key_id))
        ⊎ (predecessor_at k (insert n.key_id n d) ≡ predecessor_at k d)
  predecessor-new d k n new = elim (lookup-insert k n.key_id n d) [
    | inl (same, at) ↦ inl (same, rw at refl)
    | inr (other, at) ↦ inr (rw at refl)
  ]

  no_successor :
      (d : Dict Identity) (k j : String)
      → any_of (succeeds_key j) (values d) ≡ false
      → predecessor_at k d ≡ some j
      → ⊥
  no_successor d k j alone h = elim (Option-cases (lookup k d)) [
    | inl e ↦ ground arith
    | inr (r, e) ↦
        let named : r.predecessor_key_id ≡ some j = ground arith in
        let off = any_of-values (succeeds_key j) k d alone e in ground (arith, eq_refl j)
  ]

  pub Move-OneSuccessor : (d d' : Dict Identity) → Move p d d' → OneSuccessor d → OneSuccessor d'
  Move-OneSuccessor d d' (enrols _ n new fresh alone) h k k' j e e' =
      elim (predecessor-new d k n new) [
        | inl (same, at) ↦ absurd (ground arith)
        | inr at ↦ elim (predecessor-new d k' n new) [
          | inl (same, at') ↦ absurd (ground arith)
          | inr at' ↦ h k k' j (sym at ∙ e) (sym at' ∙ e')
        ]
      ]
  Move-OneSuccessor d d' (ends _ i r s found q) h k k' j e e' =
      h k k' j (sym (predecessor-ended d k i r s found q) ∙ e)
        (sym (predecessor-ended d k' i r s found q) ∙ e')
  Move-OneSuccessor d d' (replaces _ i r s n found q alone new ne fresh named role) h k k' j e e' =
      let absent = lookup-insert_ne n.key_id i s d ne ∙ new in
      let old = predecessor-ended d k i r s found q in
      let old' = predecessor-ended d k' i r s found q in
      elim (predecessor-new (insert i s d) k n absent) [
        | inl (same, at) ↦
            let it : some i ≡ some j = sym named ∙ sym at ∙ e in
            elim (predecessor-new (insert i s d) k' n absent) [
              | inl (same', at') ↦ same ∙ sym same'
              | inr at' ↦ absurd (no_successor d k' i alone (sym old' ∙ sym at' ∙ e' ∙ sym it))
            ]
        | inr at ↦ elim (predecessor-new (insert i s d) k' n absent) [
          | inl (same', at') ↦
              let it : some i ≡ some j = sym named ∙ sym at' ∙ e' in
              absurd (no_successor d k i alone (sym old ∙ sym at ∙ e ∙ sym it))
          | inr at' ↦ h k k' j (sym old ∙ sym at ∙ e) (sym old' ∙ sym at' ∙ e')
        ]
      ]
