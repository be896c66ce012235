-- ===== src/Evidence/Sound.antt =====
-- What an evidence binding establishes.
use swisstokint_open_risk_in.Prelude.{
  ◌≡◌, ◌⊎◌, refl, sym, ap, subst, ◌∙◌, inl, inr, String, true, Option, none, some, Result, ok, err,
  arith, eq_iff, Result-cases, Ensures, Ensures-bind, Ensures-ok, guard-true, ok-inj,
}
use swisstokint_open_risk_in.Data.{Data}
use swisstokint_open_risk_in.Platform.{Platform}
use swisstokint_open_risk_in.Value.{Value}
use swisstokint_open_risk_in.PlainData.{capture_plain_data}
use swisstokint_open_risk_in.Merkle.Binding.{Collision, digest-cases}
use swisstokint_open_risk_in.Witness.Crypto.{Crypto}
use swisstokint_open_risk_in.Witness.Envelope.{SourceVerified}
use swisstokint_open_risk_in.Witness.Ack.{AckVerified}
use swisstokint_open_risk_in.Witness.Sound.{
  IsSigned, IsAcknowledged, envelope-IsSigned, ack-IsAcknowledged,
}
use swisstokint_open_risk_in.Trust.Verify.{holds_text, member}
use swisstokint_open_risk_in.Evidence.{
  EvidenceBinding, BindingError, captured_evidence, bound, with_members, evidence_expectation,
  names_evidence, bound_evidence, verify_evidence_binding,
}

-- The signed evidence behind a binding, and the result that names it.
pub record Evidenced (p : Platform) (c : Crypto) (r : Data) (b : EvidenceBinding) : Type 0 where
  pub source : SourceVerified
  pub acknowledged : AckVerified
  pub is_signed : IsSigned p c source
  pub is_acknowledged : IsAcknowledged p c (evidence_expectation source) acknowledged
  pub binds : b ≡ bound_evidence source acknowledged
  pub named : names_evidence r source acknowledged ≡ true

bound-eq : {E A : Type 0} (e : BindingError) (r : Result E A) (a : A) → bound e r ≡ ok a → r ≡ ok a
unfolding bound
bound-eq e (ok b) a h = ground arith
bound-eq e (err x) a h = cc

captured_evidence-eq :
    (v : Value) (d : Data) → captured_evidence v ≡ ok d → capture_plain_data v ≡ ok d
unfolding captured_evidence
captured_evidence-eq v d h = elim (Result-cases (capture_plain_data v)) [
  | inl (e, q) ↦ ground arith
  | inr (e, q) ↦ ground arith
]

with_members-eq : (d e : Data) → with_members d ≡ ok e → d ≡ e
unfolding with_members
with_members-eq Data.null e h = cc
with_members-eq d e h = ground arith

module _ (p : Platform) (c : Crypto) where
  binding-Evidenced :
      (envelope acknowledgement result : Value) (r : Data)
      → capture_plain_data result ≡ ok r
      → Ensures (Evidenced p c r) (verify_evidence_binding p c envelope acknowledgement result)
  unfolding verify_evidence_binding
  binding-Evidenced envelope acknowledgement result r hr = Ensures-bind _ _ λ e _.
      Ensures-bind _ _ λ a _. Ensures-bind _ _ λ q hq. Ensures-bind _ _ λ sv hs.
        Ensures-bind _ _ λ av ha. Ensures-bind _ _ λ named hn. Ensures-bind _ _ λ u names.
          let same : q ≡ r = ok-inj (sym (captured_evidence-eq result q hq) ∙ hr) in
          let it : named ≡ r = sym (with_members-eq q named hn) ∙ same in
          Ensures-ok _ (record {
            source = sv;
            acknowledged = av;
            is_signed = (envelope-IsSigned p c e).at sv (bound-eq _ _ sv hs);
            is_acknowledged =
                (ack-IsAcknowledged p c a (evidence_expectation sv)).at av (bound-eq _ _ av ha);
            binds = refl;
            named = subst (λ x. names_evidence x sv av ≡ true) it (guard-true _ _ names);
          })

  holds-same :
      (s t : String) (o : Option Data) → holds_text s o ≡ true → holds_text t o ≡ true → s ≡ t
  holds-same s t none h k = cc
  holds-same s t (some (Data.text u)) h k = (eq_iff s u).0 h ∙ sym ((eq_iff t u).0 k)
  holds-same s t (some d) h k = cc

  names-parts :
      (r : Data) (sv : SourceVerified) (av : AckVerified)
      → names_evidence r sv av ≡ true
      → (holds_text sv.receipt_hash (member "receipt_hash" r) ≡ true)
        × (holds_text sv.source_key_id (member "source_key_id" r) ≡ true)
        × (holds_text av.acknowledgement_hash (member "acknowledgement_hash" r) ≡ true)
        × (holds_text av.payload.witness_key_id (member "witness_key_id" r) ≡ true)
  unfolding names_evidence
  names-parts r sv av h = ground arith

  -- Two bindings of one result are about the same receipt, the same two keys and, unless SHA-256
  -- collides, the same signed acknowledgement: a result that was kept from another verification cannot
  -- be combined with another acknowledgement of the same receipt by the same keys.
  pub binding_exact :
      (envelope acknowledgement envelope' acknowledgement' result : Value) (r : Data)
      (b b' : EvidenceBinding)
      → capture_plain_data result ≡ ok r
      → verify_evidence_binding p c envelope acknowledgement result ≡ ok b
      → verify_evidence_binding p c envelope' acknowledgement' result ≡ ok b'
      → (x : Evidenced p c r b) × (y : Evidenced p c r b') × (b.receipt_hash ≡ b'.receipt_hash)
        × (b.source_key_id ≡ b'.source_key_id)
        × (b.witness_key_id ≡ b'.witness_key_id)
        × ((x.is_acknowledged.message ≡ y.is_acknowledged.message) ⊎ Collision p)
  binding_exact envelope acknowledgement envelope' acknowledgement' result r b b' hr h h' =
      let x = (binding-Evidenced envelope acknowledgement result r hr).at b h in
      let y = (binding-Evidenced envelope' acknowledgement' result r hr).at b' h' in
      let (x0, x1, x2, x3) = names-parts r x.source x.acknowledged x.named in
      let (y0, y1, y2, y3) = names-parts r y.source y.acknowledged y.named in
      (
        x,
        y,
        ap (λ q. q.receipt_hash) x.binds
            ∙ holds-same _ _ (member "receipt_hash" r) x0 y0
            ∙ sym (ap (λ q. q.receipt_hash) y.binds),
        ap (λ q. q.source_key_id) x.binds
            ∙ holds-same _ _ (member "source_key_id" r) x1 y1
            ∙ sym (ap (λ q. q.source_key_id) y.binds),
        ap (λ q. q.witness_key_id) x.binds
            ∙ holds-same _ _ (member "witness_key_id" r) x3 y3
            ∙ sym (ap (λ q. q.witness_key_id) y.binds),
        digest-cases p _ _ (
            sym x.is_acknowledged.hash
            ∙ holds-same _ _ (member "acknowledgement_hash" r) x2 y2
            ∙ y.is_acknowledged.hash),
      )
