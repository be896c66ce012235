-- ===== src/Trust/Evolves.antt =====
-- What becomes of a record in a move.
use swisstokint_open_risk_in.Prelude.{
  ◌≡◌, ◌⊎◌, refl, sym, subst, ◌∙◌, inl, inr, String, false, none, some, arith,
}
use swisstokint_open_risk_in.Platform.{Platform}
use swisstokint_open_risk_in.Dict.{Dict, lookup, insert, lookup-insert, lookup-insert_ne}
use swisstokint_open_risk_in.Trust.Records.{Identity, is_active}
use swisstokint_open_risk_in.Trust.Moves.{IsEnding, Move, enrols, ends, replaces}

-- What a record may become: it stays, or it ends once.
abbrev pub Evolves : Identity → Identity → Type 0
Evolves r s = (s ≡ r) ⊎ IsEnding r s

pub Evolves-trans : (r s u : Identity) → Evolves r s → Evolves s u → Evolves r u
Evolves-trans r s u (inl e) h = subst (λ x. Evolves x u) e h
Evolves-trans r s u (inr e) (inl q) = inr (subst (IsEnding r) (sym q) e)
Evolves-trans r s u (inr e) (inr q) =
    let clash : ⊥ = ground (arith, e.not_active, q.was_active) in absurd clash

pub ended_active : (r s : Identity) → IsEnding r s → is_active r.status ≡ false → ⊥
ended_active r s e h = ground (arith, e.was_active)

-- A write under a key that is not there leaves what is found.
kept :
    (d : Dict Identity) (k j : String) (n r : Identity)
    → lookup j d ≡ none
    → lookup k d ≡ some r
    → lookup k (insert j n d) ≡ some r
kept d k j n r new h = lookup-insert_ne k j n d (λ e. cc) ∙ h

-- A write that ends a record.
one_ended :
    (d : Dict Identity) (k j : String) (q s r : Identity)
    → lookup j d ≡ some q
    → IsEnding q s
    → lookup k d ≡ some r
    → (u : Identity) × (lookup k (insert j s d) ≡ some u) × Evolves r u
one_ended d k j q s r found e h = elim (lookup-insert k j s d) [
  | inl (same, at) ↦ let it : q ≡ r = cc in (s, at, inr (subst (λ x. IsEnding x s) it e))
  | inr (other, at) ↦ (r, at ∙ h, inl refl)
]

module _ (p : Platform) where
  -- Every record that is found before a move is found after it, as it was or ended.
  pub Move-Evolves :
      (d d' : Dict Identity) (k : String) (r : Identity)
      → Move p d d'
      → lookup k d ≡ some r
      → (s : Identity) × (lookup k d' ≡ some s) × Evolves r s
  Move-Evolves d d' k r (enrols _ n new fresh alone) h = (r, kept d k n.key_id n r new h, inl refl)
  Move-Evolves d d' k r (ends _ j q s found e) h = one_ended d k j q s r found e h
  Move-Evolves d d' k r (replaces _ j q s n found e alone new ne fresh named role) h =
      let (u, at, ev) = one_ended d k j q s r found e h in
      (u, kept (insert j s d) k n.key_id n u (lookup-insert_ne n.key_id j s d ne ∙ new) at, ev)

  pub Move-ended :
      (d d' : Dict Identity) (k : String) (r : Identity)
      → Move p d d'
      → lookup k d ≡ some r
      → is_active r.status ≡ false
      → lookup k d' ≡ some r
  Move-ended d d' k r m h e =
      let (s, at, ev) = Move-Evolves d d' k r m h in
      elim ev [
        | inl same ↦ subst (λ x. lookup k d' ≡ some x) same at
        | inr ending ↦ absurd (ended_active r s ending e)
      ]
