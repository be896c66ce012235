-- ===== src/Trust/Verify.antt =====
-- `verifyAuthorizationCandidate`: every failure is returned with a code. The message is left out.
use swisstokint_open_risk_in.Prelude.{
  ℕ, String, Bool, true, false, ◌&&◌, Option, none, some, Result, ok, err, guard, ◌>>=◌, ◌>>◌, ltb,
  leb, str_eq, if◌then◌else◌,
}
use swisstokint_open_risk_in.Data.{Data, get_field}
use swisstokint_open_risk_in.Platform.{Platform}
use swisstokint_open_risk_in.Value.{Value, Sample}
use swisstokint_open_risk_in.PlainData.{capture_plain_data}
use swisstokint_open_risk_in.Dict.{lookup}
use swisstokint_open_risk_in.Witness.Crypto.{Crypto}
use swisstokint_open_risk_in.Witness.Envelope.{SourceVerified, verify_source_envelope}
use swisstokint_open_risk_in.Witness.Ack.{AckVerified, Expected, verify_witness_ack}
use swisstokint_open_risk_in.Trust.Records.{
  TrustError, Role, source, witness, Identity, Trust, is_active, canonical_utc, sample_trust_clock,
  record_active_at,
}
use swisstokint_open_risk_in.Trust.Snapshots.{trust_snapshot}

-- The codes of a failure; `refused_with` is the code of an error of the lifecycle itself.
pub data VerifyError : Type 0 where
  source_invalid ack_invalid not_authorizable candidate_not_enrolled role_mismatch : VerifyError
  key_mismatch chronology inactive verify_failed : VerifyError
  refused_with : TrustError → VerifyError

pub record Authorized : Type 0 where
  pub source_key_id : String
  pub witness_key_id : String
  pub receipt_hash : String
  pub acknowledgement_hash : String
  pub current_time : String
  pub authorization_valid_until : String
  pub trust_revision : ℕ
  pub trust_state_hash : String

pub record Verification : Type 0 where
  pub state : Trust
  pub result : Result VerifyError Authorized

abbrev pub is_source : Role → Bool
is_source source = true
is_source witness = false

abbrev pub is_witness : Role → Bool
is_witness witness = true
is_witness source = false

-- A result with the code that the caller gives to every failure of it.
unfoldable pub coded : {E A : Type 0} → VerifyError → Result E A → Result VerifyError A
coded code (ok a) = ok a
coded code (err e) = err code

unfoldable pub refused_by : {A : Type 0} → Result TrustError A → Result VerifyError A
refused_by (ok a) = ok a
refused_by (err e) = err (refused_with e)

-- `snapshot[key]` of plain data: undefined for what is no object, an error for null.
abbrev pub member : String → Data → Option Data
member k (Data.object fs) = get_field k fs
member k _ = none

unfoldable pub claimed_key_id : Data → Result VerifyError (Option Data)
claimed_key_id Data.null = err verify_failed
claimed_key_id d = ok (member "witness_key_id" d)

unfoldable pub candidate_record : Option Identity → Result VerifyError Identity
candidate_record none = err candidate_not_enrolled
candidate_record (some r) = ok r

abbrev pub holds_text : String → Option Data → Bool
holds_text s (some (Data.text t)) = str_eq s t
holds_text s _ = false

abbrev pub min : ℕ → ℕ → ℕ
min a b = if leb a b then a else b

-- `Math.min(…)`, whose result is no instant if one of them is not
unfoldable pub earliest : ℕ → Option ℕ → Option ℕ → Result VerifyError ℕ
earliest a (some b) (some c) = ok (min a (min b c))
earliest a _ _ = err verify_failed

-- What the trust state says of the two verified documents.
pub record Documents : Type 0 where
  pub envelope : Data
  pub acknowledgement : Data
  pub source : SourceVerified
  pub acknowledged : AckVerified

module _ (p : Platform) where
  -- The expectation of `verifyPomRxWitnessAck` here
  abbrev pub expectation : SourceVerified → Option Data → ℕ → Expected
  expectation sv claimed now = record {
    receipt_hash = some (Data.text sv.receipt_hash);
    receipt_id = some (Data.text sv.receipt.receipt_id);
    run_id = some (Data.text sv.receipt.run_id);
    outcome = some (Data.text sv.receipt.outcome);
    source_key_id = some (Data.text sv.source_key_id);
    mode = some (Data.text "witnessed");
    witness_key_id = claimed;
    unexpired_at = some (p.to_iso_string now);
  }

  abbrev pub usable : Identity → Identity → ℕ → ℕ → ℕ → Bool
  usable sr wr occurred received now =
      record_active_at p sr occurred
      && record_active_at p wr received
      && is_active sr.status
      && is_active wr.status
      && record_active_at p sr now
      && record_active_at p wr now

  -- The two documents, captured and verified.
  unfoldable pub verified_documents : Crypto → ℕ → Value → Value → Result VerifyError Documents
  unfolding coded claimed_key_id
  verified_documents c now envelope acknowledgement = do
    e ← coded source_invalid (capture_plain_data envelope)
    sv ← coded source_invalid (verify_source_envelope p c e)
    a ← coded ack_invalid (capture_plain_data acknowledgement)
    claimed ← claimed_key_id a
    av ← coded ack_invalid (verify_witness_ack p c a (expectation sv claimed now))
    ok (record { envelope = e; acknowledgement = a; source = sv; acknowledged = av })

  -- What follows the verification of the documents
  unfoldable pub trusted_documents : Trust → ℕ → Documents → Result VerifyError Authorized
  unfolding candidate_record refused_by canonical_utc coded earliest trust_snapshot
  trusted_documents t now d = do
    guard (str_eq d.source.receipt.outcome "allow") not_authorizable
    sr ← candidate_record (lookup d.source.source_key_id t.records)
    wr ← candidate_record (lookup d.acknowledged.payload.witness_key_id t.records)
    guard (is_source sr.role && is_witness wr.role) role_mismatch
    guard
        (holds_text sr.public_key_spki (member "source_public_key" d.envelope)
          && holds_text wr.public_key_spki (member "witness_public_key" d.acknowledgement))
        key_mismatch
    occurred ← refused_by (canonical_utc p (Value.text d.source.receipt.occurred_at))
    received ← refused_by (canonical_utc p (Value.text d.acknowledged.payload.received_at))
    guard (leb occurred received) chronology
    guard (usable sr wr occurred received now) inactive
    ack_until ← refused_by (canonical_utc p (Value.text d.acknowledged.payload.valid_until))
    until ← earliest ack_until (p.date_parse sr.valid_until) (p.date_parse wr.valid_until)
    guard (ltb now until) inactive
    trust ← coded verify_failed (trust_snapshot p t)
    ok (record {
      source_key_id = d.source.source_key_id;
      witness_key_id = d.acknowledged.payload.witness_key_id;
      receipt_hash = d.source.receipt_hash;
      acknowledgement_hash = d.acknowledged.acknowledgement_hash;
      current_time = p.to_iso_string now;
      authorization_valid_until = p.to_iso_string until;
      trust_revision = trust.revision;
      trust_state_hash = trust.trust_state_hash;
    })

  unfoldable pub after_verify_clock :
      Crypto → Trust → Result TrustError ℕ → Value → Value → Verification
  unfolding verified_documents trusted_documents
  after_verify_clock c t (err e) envelope acknowledgement = record {
    state = t;
    result = err (refused_with e);
  }
  after_verify_clock c t (ok now) envelope acknowledgement = record {
    state = t;
    result = verified_documents c now envelope acknowledgement >>= trusted_documents t now;
  }

  -- `verifyAuthorizationCandidate`
  unfoldable pub verify_candidate : Crypto → Value → Value → Sample → Trust → Verification
  unfolding after_verify_clock sample_trust_clock
  verify_candidate c envelope acknowledgement sample t =
      let o = sample_trust_clock p t sample in
      after_verify_clock c o.state o.result envelope acknowledgement
