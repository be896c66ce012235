-- ===== src/Evidence.antt =====
-- core/witness/reference-evidence-binding.mjs: an authorization result is tied to the very envelope and
-- acknowledgement that are presented with it.
pub mod Sound
pub mod Granted
mod Tests
use swisstokint_open_risk_in.Prelude.{
  String, Bool, ◌&&◌, Option, none, some, Result, ok, err, guard, ◌>>=◌, ◌>>◌,
}
use swisstokint_open_risk_in.Data
use swisstokint_open_risk_in.Data.{Data, get_field}
use swisstokint_open_risk_in.Platform.{Platform}
use swisstokint_open_risk_in.Value.{Value}
use swisstokint_open_risk_in.PlainData.{PlainDataError, capture_plain_data}
use swisstokint_open_risk_in.Witness.Crypto.{Crypto}
use swisstokint_open_risk_in.Witness.Envelope.{SourceVerified, verify_source_envelope}
use swisstokint_open_risk_in.Witness.Ack.{AckVerified, Expected, verify_witness_ack}
use swisstokint_open_risk_in.Trust.Verify.{holds_text, member}

-- The codes of a failure; an error of the capture is thrown, and so is the access to a member of null.
pub data BindingError : Type 0 where
  binding_source binding_ack binding_result binding_thrown : BindingError
  binding_captured : PlainDataError → BindingError

pub record EvidenceBinding : Type 0 where
  pub receipt_hash : String
  pub acknowledgement_hash : String
  pub source_key_id : String
  pub witness_key_id : String
  pub acknowledgement_received_at : String
  pub acknowledgement_valid_until : String

unfoldable pub with_capture : Result PlainDataError Data → Result BindingError Data
with_capture (ok d) = ok d
with_capture (err e) = err (binding_captured e)

unfoldable pub captured_evidence : Value → Result BindingError Data
unfolding with_capture
captured_evidence v = with_capture (capture_plain_data v)

-- A verification with the code that its failure is given
unfoldable pub bound : {E A : Type 0} → BindingError → Result E A → Result BindingError A
bound code (ok a) = ok a
bound code (err e) = err code

-- The members of null throw.
unfoldable pub with_members : Data → Result BindingError Data
with_members Data.null = err binding_thrown
with_members d = ok d

-- The expectation of `verifyPomRxWitnessAck` here
abbrev pub evidence_expectation : SourceVerified → Expected
evidence_expectation sv = record {
  receipt_hash = some (Data.text sv.receipt_hash);
  receipt_id = some (Data.text sv.receipt.receipt_id);
  run_id = some (Data.text sv.receipt.run_id);
  outcome = some (Data.text sv.receipt.outcome);
  source_key_id = some (Data.text sv.source_key_id);
  mode = some (Data.text "witnessed");
  witness_key_id = none;
  unexpired_at = none;
}

-- The result names the receipt, the acknowledgement and the two keys.
unfoldable pub names_evidence : Data → SourceVerified → AckVerified → Bool
names_evidence r sv av =
    holds_text sv.receipt_hash (member "receipt_hash" r)
    && holds_text sv.source_key_id (member "source_key_id" r)
    && holds_text av.acknowledgement_hash (member "acknowledgement_hash" r)
    && holds_text av.payload.witness_key_id (member "witness_key_id" r)

abbrev pub bound_evidence : SourceVerified → AckVerified → EvidenceBinding
bound_evidence sv av = record {
  receipt_hash = sv.receipt_hash;
  acknowledgement_hash = av.acknowledgement_hash;
  source_key_id = sv.source_key_id;
  witness_key_id = av.payload.witness_key_id;
  acknowledgement_received_at = av.payload.received_at;
  acknowledgement_valid_until = av.payload.valid_until;
}

module _ (p : Platform) (c : Crypto) where
  -- `verifyReferenceWitnessEvidenceResultBinding`
  unfoldable pub verify_evidence_binding :
      Value → Value → Value → Result BindingError EvidenceBinding
  unfolding captured_evidence bound with_members names_evidence
  verify_evidence_binding envelope acknowledgement result = do
    e ← captured_evidence envelope
    a ← captured_evidence acknowledgement
    r ← captured_evidence result
    sv ← bound binding_source (verify_source_envelope p c e)
    av ← bound binding_ack (verify_witness_ack p c a (evidence_expectation sv))
    named ← with_members r
    guard (names_evidence named sv av) binding_result
    ok (bound_evidence sv av)
