-- ===== src/Trust/Invariant.antt =====
-- The invariant of the trust state, and the calls.
use swisstokint_open_risk_in.Prelude.{
  ℕ, ◌+◌, ◌≤◌, ◌≡◌, refl, sym, subst, ◌∙◌, inl, inr, String, true, false, some, List, [], ◌∷◌,
  length, is_some, arith,
}
use swisstokint_open_risk_in.Platform.{Platform}
use swisstokint_open_risk_in.Dict.{Dict, lookup, insert, Every, Every-insert}
use swisstokint_open_risk_in.Witness.Crypto.{Crypto}
use swisstokint_open_risk_in.Trust.Records.{
  Identity, Trust, is_active, max_identities, min_validity_ms, max_validity_ms, new_trust,
}
use swisstokint_open_risk_in.Trust.Moves.{IsFresh, IsEnding, Move, enrols, ends, replaces, Commits}
use swisstokint_open_risk_in.Trust.Steps.{Event, Unchanged, step, step-Ends, run}
use swisstokint_open_risk_in.Trust.Evolves.{Evolves, Evolves-trans, ended_active, Move-Evolves}
use swisstokint_open_risk_in.Trust.Succession.{
  Succeeds, OneSuccessor, Move-Succeeds, Move-OneSuccessor,
}

-- What holds of a record under its key: it names that key, its validity is between one second and 366
-- days long, and it has a transition exactly if it is not active.
pub record IsRecord (p : Platform) (k : String) (r : Identity) : Type 0 where
  pub keyed : r.key_id ≡ k
  pub enrolled : ℕ
  pub expiry : ℕ
  pub enrolled_parses : p.date_parse r.enrolled_at ≡ some enrolled
  pub expiry_parses : p.date_parse r.valid_until ≡ some expiry
  pub lower : enrolled + min_validity_ms ≤ expiry
  pub upper : expiry ≤ enrolled + max_validity_ms
  pub transition : is_some r.transition_at ≡ true → is_active r.status ≡ false
  pub no_transition : is_some r.transition_at ≡ false → is_active r.status ≡ true

pub record IsTrust (p : Platform) (t : Trust) : Type 0 where
  pub size : length t.records ≤ max_identities
  pub records : Every (IsRecord p) t.records
  pub succeeds : Every (Succeeds t.records) t.records
  pub one_successor : OneSuccessor t.records

module _ (p : Platform) where
  fresh-IsRecord : (r : Identity) → IsFresh p r → IsRecord p r.key_id r
  fresh-IsRecord r f = record {
    keyed = refl;
    enrolled = f.now;
    expiry = f.expiry;
    enrolled_parses = f.enrolled;
    expiry_parses = f.expires;
    lower = f.lower;
    upper = f.upper;
    transition = λ h. ground (arith, f.no_transition);
    no_transition = λ h. ground (arith, f.is_active);
  }

  ending-IsRecord : (k : String) (r s : Identity) → IsRecord p k r → IsEnding r s → IsRecord p k s
  ending-IsRecord k r s h e = record {
    keyed = e.key_id ∙ h.keyed;
    enrolled = h.enrolled;
    expiry = h.expiry;
    enrolled_parses = rw e.enrolled_at h.enrolled_parses;
    expiry_parses = rw e.valid_until h.expiry_parses;
    lower = h.lower;
    upper = h.upper;
    transition = λ q. e.not_active;
    no_transition = λ q. ground (arith, e.transition);
  }

  Move-Records : (d d' : Dict Identity) → Move p d d' → Every (IsRecord p) d → Every (IsRecord p) d'
  Move-Records d d' (enrols _ n new fresh alone) h =
      Every-insert _ n.key_id n d h (fresh-IsRecord n fresh)
  Move-Records d d' (ends _ k r s found e) h =
      Every-insert _ k s d h (ending-IsRecord k r s (h k r found) e)
  Move-Records d d' (replaces _ k r s n found e alone new ne fresh named role) h =
      Every-insert _ n.key_id n (insert k s d)
        (Every-insert _ k s d h (ending-IsRecord k r s (h k r found) e)) (fresh-IsRecord n fresh)

  Commits-IsTrust : (t u : Trust) → Commits p t u → IsTrust p t → IsTrust p u
  Commits-IsTrust t u c h = record {
    size = c.size;
    records = Move-Records _ _ c.move h.records;
    succeeds = Move-Succeeds p _ _ c.move h.succeeds;
    one_successor = Move-OneSuccessor p _ _ c.move h.one_successor;
  }

  Unchanged-IsTrust : (t u : Trust) → Unchanged t u → IsTrust p t → IsTrust p u
  Unchanged-IsTrust t u e h = record {
    size = rw e.0 h.size;
    records = subst (Every (IsRecord p)) (sym e.0) h.records;
    succeeds = subst (λ d. Every (Succeeds d) d) (sym e.0) h.succeeds;
    one_successor = subst OneSuccessor (sym e.0) h.one_successor;
  }

  pub new_trust-IsTrust : IsTrust p new_trust
  new_trust-IsTrust = record {
    size = omega arith;
    records = λ k r e. absurd (cc);
    succeeds = λ k r e. absurd (cc);
    one_successor = λ k k' j e e'. absurd (cc);
  }

  module _ (c : Crypto) where
    step-IsTrust : (t : Trust) (e : Event) → IsTrust p t → IsTrust p (step p c t e)
    step-IsTrust t e h = elim (step-Ends p c t e) [
      | inl same ↦ Unchanged-IsTrust t _ same h
      | inr commits ↦ Commits-IsTrust t _ commits h
    ]

    -- After any calls of the administrator and the verifier, with any inputs and any behaviour of the
    -- clock, a trust state that is well formed at the start, as the new one is, is well formed: it has
    -- at most 32 identities, each stands under its own key, is valid for between one second and 366
    -- days, and has a transition exactly if it is not active; the predecessor that an identity names is
    -- enrolled in the same role and not active; and no two identities name the same predecessor.
    pub run-IsTrust : (t : Trust) (es : List Event) → IsTrust p t → IsTrust p (run p c t es)
    unfolding run
    run-IsTrust t [] h = h
    run-IsTrust t (e ∷ es) h = run-IsTrust (step p c t e) es (step-IsTrust t e h)

    step-Evolves :
        (t : Trust) (e : Event) (k : String) (r : Identity)
        → lookup k t.records ≡ some r
        → (s : Identity) × (lookup k (step p c t e).records ≡ some s) × Evolves r s
    step-Evolves t e k r h = elim (step-Ends p c t e) [
      | inl same ↦ (r, rw same.0 h, inl refl)
      | inr commits ↦ Move-Evolves p _ _ k r commits.move h
    ]

    -- An enrolled identity is never removed and never renamed: after any calls its record is as it was,
    -- or it was active and has ended, with its key, role, validity and predecessor unchanged. So a
    -- record that has ended never changes again.
    pub run-Evolves :
        (t : Trust) (es : List Event) (k : String) (r : Identity)
        → lookup k t.records ≡ some r
        → (s : Identity) × (lookup k (run p c t es).records ≡ some s) × Evolves r s
    unfolding run
    run-Evolves t [] k r h = (r, h, inl refl)
    run-Evolves t (e ∷ es) k r h =
        let (s, at, one) = step-Evolves t e k r h in
        let (u, there, rest) = run-Evolves (step p c t e) es k s at in
        (u, there, Evolves-trans r s u one rest)

    pub run-ended :
        (t : Trust) (es : List Event) (k : String) (r : Identity)
        → lookup k t.records ≡ some r
        → is_active r.status ≡ false
        → lookup k (run p c t es).records ≡ some r
    run-ended t es k r h ended =
        let (s, at, ev) = run-Evolves t es k r h in
        elim ev [
          | inl same ↦ subst (λ x. lookup k (run p c t es).records ≡ some x) same at
          | inr ending ↦ absurd (ended_active r s ending ended)
        ]
