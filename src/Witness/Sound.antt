-- ===== src/Witness/Sound.antt =====
-- What the verification of an envelope and of an acknowledgement establishes.
use swisstokint_open_risk_in.Prelude.{
  ℕ, ◌+◌, ◌≤◌, ◌≡◌, refl, sym, ap, subst, ◌∙◌, inl, inr, Bool-cases, String, Bool, true, false, not,
  Option, none, some, Result, ok, guard, ◌>>=◌, leb→le, eq_iff, arith, &&_parts, Option-cases,
  Ensures, Ensures-bind, Ensures-ok, guard-true, >>=-eq-ok, ok-inj,
}
use swisstokint_open_risk_in.Data.{Data}
use swisstokint_open_risk_in.Platform.{Platform}
use swisstokint_open_risk_in.Merkle.Tree.{ProofError, type_error}
use swisstokint_open_risk_in.PomRx.Parts.{Committed}
use swisstokint_open_risk_in.PomRx.Receipt.{commit_pom_rx_receipt}
use swisstokint_open_risk_in.Witness.Crypto.{KeyObject, Crypto, pom_rx_key_id}
use swisstokint_open_risk_in.Witness.Envelope.{
  SourceVerified, source_signature_message, commit_envelope_receipt, verify_source_envelope,
}
use swisstokint_open_risk_in.Witness.Ack.{
  AckVerified, Expected, is_text, same_data, same_key_id, meets_expectation, instant_of,
  check_unexpired, witness_signature_message, verify_witness_ack, checked_ack,
}

-- A verified envelope: some receipt commits to what it returns, and the key that the receipt names signed
-- its hash.
pub record IsSigned (p : Platform) (c : Crypto) (v : SourceVerified) : Type 0 where
  pub presented : Data
  pub committed : Committed
  pub commits : commit_pom_rx_receipt p presented ≡ ok committed
  pub receipt : v.receipt ≡ committed.receipt
  pub receipt_hash : v.receipt_hash ≡ committed.receipt_hash
  pub key : KeyObject
  pub key_id : pom_rx_key_id c key ≡ v.source_key_id
  pub names : v.receipt.source_key_id ≡ v.source_key_id
  pub signature : String
  pub signed : c.verify (source_signature_message v.receipt_hash) key signature ≡ true

-- A verified acknowledgement: it meets the expectation, the key of the Witness signed the payload and is
-- not that of the source, and it is valid for one second to five minutes.
pub record IsAcknowledged (p : Platform) (c : Crypto) (e : Expected) (v : AckVerified)
    : Type 0 where
  pub meets : meets_expectation e v.payload ≡ true
  pub distinct : same_data v.payload.source_key_id (Data.text v.payload.witness_key_id) ≡ false
  pub message : String
  pub is_message : witness_signature_message p v.payload ≡ ok message
  pub hash : v.acknowledgement_hash ≡ p.sha256_hex message
  pub key : KeyObject
  pub key_id : pom_rx_key_id c key ≡ v.payload.witness_key_id
  pub signature : String
  pub signed : c.verify message key signature ≡ true
  pub received : ℕ
  pub valid : ℕ
  pub received_parses : p.date_parse v.payload.received_at ≡ some received
  pub valid_parses : p.date_parse v.payload.valid_until ≡ some valid
  pub lower : received + 1000 ≤ valid
  pub upper : valid ≤ received + 300000
  pub unexpired :
      check_unexpired p e.unexpired_at v.payload.received_at v.payload.valid_until ≡ ok tt

not-true : (b : Bool) → not b ≡ true → b ≡ false
not-true b h = ground arith

is_text-eq : (s : String) (d : Data) → is_text s d ≡ true → d ≡ Data.text s
is_text-eq s (Data.text t) h = ap Data.text (sym ((eq_iff s t).0 h))
is_text-eq s d h = cc

same_key_id-eq :
    (s : String) (d : Data) (t : String) → same_key_id s d ≡ ok t → (d ≡ Data.text t) × (s ≡ t)
unfolding same_key_id
same_key_id-eq s d t h = elim (Bool-cases (is_text s d)) [
  | inl e ↦ let it : s ≡ t = ground arith in (is_text-eq s d e ∙ ap Data.text it, it)
  | inr e ↦ absurd (ground arith)
]

unit_ok : (r : Result ProofError Unit) (u : Unit) → r ≡ ok u → r ≡ ok tt
unit_ok r tt h = h

module _ (p : Platform) where
  instant_of-eq : (s : String) (ms : ℕ) → instant_of p s ≡ ok ms → p.date_parse s ≡ some ms
  unfolding instant_of
  instant_of-eq s ms h = elim (Option-cases (p.date_parse s)) [
    | inl e ↦ ground arith
    | inr (m, e) ↦ ground arith
  ]

  presented-receipt :
      (crypto : Crypto) (o : Option Data) (c : Committed)
      → commit_envelope_receipt p crypto o ≡ ok c
      → (d : Data) × (commit_pom_rx_receipt p d ≡ ok c)
  unfolding commit_envelope_receipt
  presented-receipt crypto none c h = absurd (cc)
  presented-receipt crypto (some d) c h = (d, h)

  module _ (c : Crypto) where
    pub envelope-IsSigned : (d : Data) → Ensures (IsSigned p c) (verify_source_envelope p c d)
    unfolding verify_source_envelope
    envelope-IsSigned (Data.object fs) = Ensures-bind _ _ λ u0 _. Ensures-bind _ _ λ version _.
        Ensures-bind _ _ λ receipt_hash _. Ensures-bind _ _ λ committed hc.
          Ensures-bind _ _ λ u1 same. Ensures-bind _ _ λ key _. Ensures-bind _ _ λ u2 names.
            Ensures-bind _ _ λ signature _. Ensures-bind _ _ λ u3 good.
              let (d, hd) = presented-receipt c _ committed hc in
              Ensures-ok _ (record {
                presented = d;
                committed = committed;
                commits = hd;
                receipt = refl;
                receipt_hash = refl;
                key = key;
                key_id = refl;
                names = (eq_iff _ _).0 (guard-true _ _ names);
                signature = signature;
                signed = rw ((eq_iff _ _).0 (guard-true _ _ same)) (guard-true _ _ good);
              })
    envelope-IsSigned d = record { at = λ v h. absurd (cc) }

    -- An acknowledgement that was checked: what holds of it whatever is expected.
    checked-IsAcknowledged :
        (d : Data) (e : Expected)
        → Ensures
            (λ v.
              meets_expectation e v.payload ≡ true
              → check_unexpired p e.unexpired_at v.payload.received_at v.payload.valid_until ≡ ok tt
              → IsAcknowledged p c e v)
            (checked_ack p c d)
    unfolding checked_ack
    checked-IsAcknowledged (Data.object fs) e = Ensures-bind _ _ λ u0 _.
        Ensures-bind _ _ λ version _. Ensures-bind _ _ λ receipt_hash _.
          Ensures-bind _ _ λ receipt_id _. Ensures-bind _ _ λ run_id _.
            Ensures-bind _ _ λ outcome _. Ensures-bind _ _ λ source_key_id _.
              Ensures-bind _ _ λ mode _. Ensures-bind _ _ λ claimed _.
                Ensures-bind _ _ λ u1 distinct. Ensures-bind _ _ λ received_at _.
                  Ensures-bind _ _ λ valid_until _. Ensures-bind _ _ λ received hr.
                    Ensures-bind _ _ λ valid hv. Ensures-bind _ _ λ u2 window.
                      Ensures-bind _ _ λ key _. Ensures-bind _ _ λ witness_key_id hw.
                        Ensures-bind _ _ λ message hm. Ensures-bind _ _ λ signature _.
                          Ensures-bind _ _ λ u3 good.
                            let (claim, key_id) = same_key_id-eq _ claimed witness_key_id hw in
                            let span = &&_parts _ _ (guard-true _ _ window) in
                            Ensures-ok _ (λ meets unexpired. record {
                              meets = meets;
                              distinct =
                                  subst (λ x. same_data source_key_id x ≡ false) claim
                                    (not-true _ (guard-true _ _ distinct));
                              message = message;
                              is_message = hm;
                              hash = refl;
                              key = key;
                              key_id = key_id;
                              signature = signature;
                              signed = guard-true _ _ good;
                              received = received;
                              valid = valid;
                              received_parses = instant_of-eq _ received hr;
                              valid_parses = instant_of-eq _ valid hv;
                              lower = leb→le _ _ span.0;
                              upper = leb→le _ _ span.1;
                              unexpired = unexpired;
                            })
    checked-IsAcknowledged d e = record { at = λ v h. absurd (cc) }

    pub ack-IsAcknowledged :
        (d : Data) (e : Expected) → Ensures (IsAcknowledged p c e) (verify_witness_ack p c d e)
    unfolding verify_witness_ack
    ack-IsAcknowledged d e = Ensures-bind _ _ λ v hv. Ensures-bind _ _ λ u4 meets.
        Ensures-bind _ _ λ u5 unexpired.
          Ensures-ok _
            ((checked-IsAcknowledged d e).at v hv (guard-true _ _ meets) (unit_ok _ u5 unexpired))

    accepted_when :
        (d : Data) (f : Expected) (v : AckVerified)
        → checked_ack p c d ≡ ok v
        → f.unexpired_at ≡ none
        → meets_expectation f v.payload ≡ true
        → verify_witness_ack p c d f ≡ ok v
    unfolding verify_witness_ack check_unexpired ◌>>=◌
    accepted_when d f v h n met = rw (h, met, n) refl

    -- What is accepted under an expectation that includes the current time, is accepted under any that
    -- the payload meets.
    pub verify_witness_ack-weaker :
        (d : Data) (e f : Expected) (v : AckVerified)
        → verify_witness_ack p c d e ≡ ok v
        → f.unexpired_at ≡ none
        → meets_expectation f v.payload ≡ true
        → verify_witness_ack p c d f ≡ ok v
    unfolding verify_witness_ack check_unexpired
    verify_witness_ack-weaker d e f v h none_expected met =
        let (w, hw, h') = >>=-eq-ok (checked_ack p c d) _ h in
        let (u4, _, h'') = >>=-eq-ok (guard (meets_expectation e w.payload) type_error) _ h' in
        let (u5, _, h''') = >>=-eq-ok (check_unexpired p e.unexpired_at _ _) _ h'' in
        let same : w ≡ v = ok-inj h''' in accepted_when d f v (hw ∙ ap ok same) none_expected met
