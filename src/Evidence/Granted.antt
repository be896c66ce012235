-- ===== src/Evidence/Granted.antt =====
-- The evidence binding on what the trust lifecycle granted.
use swisstokint_open_risk_in.Prelude.{
  ℕ, ◌≡◌, refl, sym, subst, String, true, Option, Result, ok, err, ◌>>=◌, arith, Ensures,
  Ensures-bind, Ensures-ok, >>=-eq-ok, ok-inj,
}
use swisstokint_open_risk_in.Data.{Data}
use swisstokint_open_risk_in.Platform.{Platform}
use swisstokint_open_risk_in.Value.{Value, Sample}
use swisstokint_open_risk_in.PlainData.{capture_plain_data}
use swisstokint_open_risk_in.Witness.Crypto.{Crypto}
use swisstokint_open_risk_in.Witness.Envelope.{SourceVerified, verify_source_envelope}
use swisstokint_open_risk_in.Witness.Ack.{
  AckPayload, AckVerified, meets_expectation, verify_witness_ack,
}
use swisstokint_open_risk_in.Witness.Sound.{ack-IsAcknowledged, verify_witness_ack-weaker}
use swisstokint_open_risk_in.Trust.Records.{Trust, TrustError, sample_trust_clock}
use swisstokint_open_risk_in.Trust.Verify.{
  Authorized, Documents, VerifyError, source_invalid, ack_invalid, holds_text, member, coded,
  claimed_key_id, expectation, verified_documents, trusted_documents, after_verify_clock,
  verify_candidate,
}
use swisstokint_open_risk_in.Evidence.{
  EvidenceBinding, BindingError, binding_source, binding_ack, captured_evidence, bound,
  with_members, evidence_expectation, names_evidence, bound_evidence, verify_evidence_binding,
}

-- The result reports an authorization: its four members are those of the authorization.
abbrev pub Reports : Data → Authorized → Type 0
Reports r x =
    (holds_text x.receipt_hash (member "receipt_hash" r) ≡ true)
    × (holds_text x.source_key_id (member "source_key_id" r) ≡ true)
    × (holds_text x.acknowledgement_hash (member "acknowledgement_hash" r) ≡ true)
    × (holds_text x.witness_key_id (member "witness_key_id" r) ≡ true)

coded-eq : {E A : Type 0} (e : VerifyError) (r : Result E A) (a : A) → coded e r ≡ ok a → r ≡ ok a
unfolding coded
coded-eq e (ok b) a h = ground arith
coded-eq e (err x) a h = cc

members-there : (r : Data) (s k : String) → holds_text s (member k r) ≡ true → with_members r ≡ ok r
unfolding with_members
members-there Data.null s k h = cc
members-there (Data.boolean b) s k h = refl
members-there (Data.number n) s k h = refl
members-there (Data.text t) s k h = refl
members-there (Data.array xs) s k h = refl
members-there (Data.object fs) s k h = refl
members-there Data.opaque s k h = refl

meets-weaker :
    (p : Platform) (sv : SourceVerified) (claimed : Option Data) (now : ℕ) (a : AckPayload)
    → meets_expectation (expectation p sv claimed now) a ≡ true
    → meets_expectation (evidence_expectation sv) a ≡ true
unfolding meets_expectation
meets-weaker p sv claimed now a h = ground arith

module _ (p : Platform) (c : Crypto) where
  captured-ok : (v : Value) (d : Data) → capture_plain_data v ≡ ok d → captured_evidence v ≡ ok d
  unfolding captured_evidence
  captured-ok v d h = rw h refl

  bound-ok :
      {E A : Type 0} (e : BindingError) (r : Result E A) (a : A) → r ≡ ok a → bound e r ≡ ok a
  unfolding bound
  bound-ok e r a h = rw h refl

  reported :
      (r : Data) (x : Authorized) (sv : SourceVerified) (av : AckVerified)
      → Reports r x
      → x.receipt_hash ≡ sv.receipt_hash
      → x.source_key_id ≡ sv.source_key_id
      → x.acknowledgement_hash ≡ av.acknowledgement_hash
      → x.witness_key_id ≡ av.payload.witness_key_id
      → names_evidence r sv av ≡ true
  unfolding names_evidence
  reported r x sv av h a b c d = rw (← a, ← b, ← c, ← d, h.0, h.1, h.2, h.3) refl

  -- The documents of an authorization, with what it says of them.
  record IsGranted (envelope acknowledgement : Value) (x : Authorized) : Type 0 where
    e : Data
    a : Data
    sv : SourceVerified
    av : AckVerified
    claimed : Option Data
    now : ℕ
    captured_envelope : capture_plain_data envelope ≡ ok e
    captured_ack : capture_plain_data acknowledgement ≡ ok a
    source_verified : verify_source_envelope p c e ≡ ok sv
    ack_verified : verify_witness_ack p c a (expectation p sv claimed now) ≡ ok av
    receipt_hash : x.receipt_hash ≡ sv.receipt_hash
    source_key : x.source_key_id ≡ sv.source_key_id
    ack_hash : x.acknowledgement_hash ≡ av.acknowledgement_hash
    witness_key : x.witness_key_id ≡ av.payload.witness_key_id

  documents-IsGranted :
      (t : Trust) (now : ℕ) (envelope acknowledgement : Value) (d : Documents)
      → verified_documents p c now envelope acknowledgement ≡ ok d
      → Ensures (IsGranted envelope acknowledgement) (trusted_documents p t now d)
  unfolding verified_documents trusted_documents
  documents-IsGranted t now envelope acknowledgement d h =
      let (e, he, h1) = >>=-eq-ok (coded source_invalid (capture_plain_data envelope)) _ h in
      let (sv, hs, h2) = >>=-eq-ok (coded source_invalid (verify_source_envelope p c e)) _ h1 in
      let (a, ha, h3) = >>=-eq-ok (coded ack_invalid (capture_plain_data acknowledgement)) _ h2 in
      let (claimed, _, h4) = >>=-eq-ok (claimed_key_id a) _ h3 in
      let (av, hv, h5) =
        >>=-eq-ok (coded ack_invalid (verify_witness_ack p c a (expectation p sv claimed now))) _
          h4 in
      let it : record { envelope = e; acknowledgement = a; source = sv; acknowledged = av } ≡ d =
        ok-inj h5 in
      subst (λ d. Ensures (IsGranted envelope acknowledgement) (trusted_documents p t now d)) it
        (Ensures-bind _ _ λ u0 _. Ensures-bind _ _ λ sr _. Ensures-bind _ _ λ wr _.
          Ensures-bind _ _ λ u1 _. Ensures-bind _ _ λ u2 _. Ensures-bind _ _ λ occurred _.
            Ensures-bind _ _ λ received _. Ensures-bind _ _ λ u3 _. Ensures-bind _ _ λ u4 _.
              Ensures-bind _ _ λ ack_until _. Ensures-bind _ _ λ until _. Ensures-bind _ _ λ u5 _.
                Ensures-bind _ _ λ trust _. Ensures-ok _ (record {
                  e = e;
                  a = a;
                  sv = sv;
                  av = av;
                  claimed = claimed;
                  now = now;
                  captured_envelope = coded-eq _ _ _ he;
                  captured_ack = coded-eq _ _ _ ha;
                  source_verified = coded-eq _ _ _ hs;
                  ack_verified = coded-eq _ _ _ hv;
                  receipt_hash = refl;
                  source_key = refl;
                  ack_hash = refl;
                  witness_key = refl;
                }))

  after_clock-IsGranted :
      (t : Trust) (m : Result TrustError ℕ) (envelope acknowledgement : Value) (x : Authorized)
      → (after_verify_clock p c t m envelope acknowledgement).result ≡ ok x
      → IsGranted envelope acknowledgement x
  unfolding after_verify_clock
  after_clock-IsGranted t (err e) envelope acknowledgement x h = absurd (cc)
  after_clock-IsGranted t (ok now) envelope acknowledgement x h =
      let (d, hd, k) =
        >>=-eq-ok (verified_documents p c now envelope acknowledgement) (trusted_documents p t now)
          h in
      (documents-IsGranted t now envelope acknowledgement d hd).at x k

  -- The binding of documents that were verified one by one.
  bind_steps :
      (envelope acknowledgement result : Value) (e a r : Data) (sv : SourceVerified)
      (av : AckVerified)
      → captured_evidence envelope ≡ ok e
      → captured_evidence acknowledgement ≡ ok a
      → captured_evidence result ≡ ok r
      → bound binding_source (verify_source_envelope p c e) ≡ ok sv
      → bound binding_ack (verify_witness_ack p c a (evidence_expectation sv)) ≡ ok av
      → with_members r ≡ ok r
      → names_evidence r sv av ≡ true
      → verify_evidence_binding p c envelope acknowledgement result ≡ ok (bound_evidence sv av)
  unfolding verify_evidence_binding ◌>>=◌
  bind_steps envelope acknowledgement result e a r sv av h0 h1 h2 h3 h4 h5 h6 =
      rw (h0, h1, h2, h3, h4, h5, h6) refl

  -- What the trust lifecycle granted for an envelope and an acknowledgement, the evidence binding
  -- accepts for the same two and every plain object that reports the authorization, and the binding
  -- names its receipt, its acknowledgement and its two keys.
  pub granted_binds :
      (envelope acknowledgement result : Value) (s : Sample) (t : Trust) (x : Authorized) (r : Data)
      → (verify_candidate p c envelope acknowledgement s t).result ≡ ok x
      → capture_plain_data result ≡ ok r
      → Reports r x
      → (b : EvidenceBinding) × (verify_evidence_binding p c envelope acknowledgement result ≡ ok b)
        × (b.receipt_hash ≡ x.receipt_hash)
        × (b.acknowledgement_hash ≡ x.acknowledgement_hash)
        × (b.source_key_id ≡ x.source_key_id)
        × (b.witness_key_id ≡ x.witness_key_id)
  unfolding verify_candidate
  granted_binds envelope acknowledgement result s t x r h hr reports =
      let o = sample_trust_clock p t s in
      let g = after_clock-IsGranted o.state o.result envelope acknowledgement x h in
      let expected = expectation p g.sv g.claimed g.now in
      let accepted =
        verify_witness_ack-weaker p c g.a expected (evidence_expectation g.sv) g.av g.ack_verified
          refl
          (meets-weaker p g.sv g.claimed g.now g.av.payload
            ((ack-IsAcknowledged p c g.a expected).at g.av g.ack_verified).meets) in
      (
        bound_evidence g.sv g.av,
        bind_steps envelope acknowledgement result g.e g.a r g.sv g.av
            (captured-ok envelope g.e g.captured_envelope)
            (captured-ok acknowledgement g.a g.captured_ack) (captured-ok result r hr)
            (bound-ok _ _ _ g.source_verified) (bound-ok _ _ _ accepted)
            (members-there r x.receipt_hash "receipt_hash" reports.0)
            (reported r x g.sv g.av reports g.receipt_hash g.source_key g.ack_hash g.witness_key),
        sym g.receipt_hash,
        sym g.ack_hash,
        sym g.source_key,
        sym g.witness_key,
      )
