-- ===== src/Trust/Documents.antt =====
-- Keys, documents and a state that the tests share, and a verification of the documents.
use swisstokint_open_risk_in.Prelude.{
  ℕ, ◌≡◌, refl, String, true, Option, none, some, List, [], ◌∷◌, ok, str_eq, ◌==◌, if◌then◌else◌,
}
use swisstokint_open_risk_in.Data
use swisstokint_open_risk_in.Data.{Data, record_of}
use swisstokint_open_risk_in.Value.{Value, sampled, embed}
use swisstokint_open_risk_in.Samples.{sample_platform, t0, t1, t2, t3, hash_a, hash_b, object_of}
use swisstokint_open_risk_in.Witness.Crypto.{KeyObject, Crypto}
use swisstokint_open_risk_in.Trust.Records.{Trust, Identity, active, revoked, Role, source, witness}
use swisstokint_open_risk_in.Trust.Admin.{ended}
use swisstokint_open_risk_in.Trust.Verify.{Authorized, verify_candidate}
use swisstokint_open_risk_in.Trust.Steps.{Event, administer, enroll}
use swisstokint_open_risk_in.Authorization.Checks.{canonical_instant}
use swisstokint_open_risk_in.Prelude.{◌>>=◌}
use swisstokint_open_risk_in.PlainData.{capture_plain_data}
use swisstokint_open_risk_in.PlainData.{capture_value}
use swisstokint_open_risk_in.Value.{property_names}
use swisstokint_open_risk_in.PlainData.{is_safe_key}
use swisstokint_open_risk_in.Prelude.{utf16_length}
use swisstokint_open_risk_in.Prelude.{all_codes}
use swisstokint_open_risk_in.Prelude.{is_alnum}
use swisstokint_open_risk_in.Prelude.{count}
use swisstokint_open_risk_in.Canonical.Number.{show_nat}
use swisstokint_open_risk_in.Witness.Envelope.{verify_source_envelope}
use swisstokint_open_risk_in.Data.{field_names}
use swisstokint_open_risk_in.Data.{get_field}
use swisstokint_open_risk_in.Prelude.{hash_pattern}
use swisstokint_open_risk_in.Witness.Envelope.{commit_envelope_receipt}
use swisstokint_open_risk_in.PomRx.Receipt.{commit_pom_rx_receipt}
use swisstokint_open_risk_in.Prelude.{id_pattern}
use swisstokint_open_risk_in.Prelude.{source_key_id_pattern}
use swisstokint_open_risk_in.Canonical.{canonicalize_payload}
use swisstokint_open_risk_in.Canonical.Safe.{validate_safe_value}
use swisstokint_open_risk_in.Canonical.Safe.{payload_key_pattern}
use swisstokint_open_risk_in.Canonical.Safe.{is_sensitive}
use swisstokint_open_risk_in.Canonical.Render.{canonicalize_value}
use swisstokint_open_risk_in.Canonical.Render.{join_entries}
use swisstokint_open_risk_in.Canonical.Render.{sort_entries}
use swisstokint_open_risk_in.Canonical.Number.{json_string}
use swisstokint_open_risk_in.Canonical.Render.{join_items}
use swisstokint_open_risk_in.Witness.Crypto.{decode_public_key}
use swisstokint_open_risk_in.Witness.Crypto.{pom_rx_key_id}
use swisstokint_open_risk_in.Witness.Crypto.{decode_signature}
use swisstokint_open_risk_in.Witness.Ack.{verify_witness_ack}
use swisstokint_open_risk_in.Authorization.Checks.{key_id_pattern}
use swisstokint_open_risk_in.Trust.Records.{record_active_at}
use swisstokint_open_risk_in.Data.{is_safe_integer}
use swisstokint_open_risk_in.Canonical.Number.{show_number}

abbrev pub key_a : String
key_a = "AAAAAAAAAAAAAAAAAAAAAAAAAAAAAAAAAAAAAAAAAAAA"

abbrev pub key_b : String
key_b = "BBBBBBBBBBBBBBBBBBBBBBBBBBBBBBBBBBBBBBBBBBBB"

abbrev pub key_c : String
key_c = "CCCCCCCCCCCCCCCCCCCCCCCCCCCCCCCCCCCCCCCCCCCC"

abbrev pub key_d : String
key_d = "DDDDDDDDDDDDDDDDDDDDDDDDDDDDDDDDDDDDDDDDDDDD"

abbrev pub hash_d : String
hash_d = "dddddddddddddddddddddddddddddddddddddddddddddddddddddddddddddddd"

abbrev hash_c : String
hash_c = "cccccccccccccccccccccccccccccccccccccccccccccccccccccccccccccccc"

abbrev ed25519 : String → KeyObject
ed25519 s = record { asymmetric_key_type = "ed25519"; spki = s }

-- The keys are the functions 0, 1, 2 and so on.
abbrev numbered : ℕ → KeyObject
numbered n =
    if n == 0
    then ed25519 key_a
    else if n == 1
    then ed25519 key_b
    else if n == 2
    then ed25519 key_c
    else ed25519 key_d

abbrev key_object : Value → Option KeyObject
key_object (Value.function n) = some (numbered n)
key_object _ = none

-- Every signature of 64 bytes is good.
unfoldable pub sample_crypto : Crypto
sample_crypto = record {
  public_key_object = key_object;
  decode_spki = λ s. some (ed25519 s);
  recode_base64 = λ s. s;
  base64_bytes = λ s. 64;
  sha256_base64 = λ s.
      if str_eq s key_a
      then hash_a
      else if str_eq s key_b
      then hash_b
      else if str_eq s key_c
      then hash_c
      else hash_d;
  verify = λ m k s. true;
  sign = λ m v. none;
}

abbrev pub id_a : String
id_a = "ed25519-aaaaaaaaaaaaaaaaaaaaaaaaaaaaaaaa"

abbrev pub id_b : String
id_b = "ed25519-bbbbbbbbbbbbbbbbbbbbbbbbbbbbbbbb"

abbrev pub id_c : String
id_c = "ed25519-cccccccccccccccccccccccccccccccc"

abbrev pub id_d : String
id_d = "ed25519-dddddddddddddddddddddddddddddddd"

abbrev pub enrollment : Value → String → Value
enrollment key role =
    object_of (("publicKey", key) ∷ ("role", Value.text role) ∷ ("validUntil", Value.text t3) ∷ [])

abbrev pub revocation : String → Value
revocation k = object_of (("keyId", Value.text k) ∷ ("reason", Value.text "retired") ∷ [])

abbrev pub rotation_input : String → Value → Value
rotation_input k key = object_of (
    ("predecessorKeyId", Value.text k)
    ∷ ("successorPublicKey", key)
    ∷ ("validUntil", Value.text t3)
    ∷ [])

-- A source, a Witness and another source are enrolled.
abbrev pub history : List Event
history =
    administer (enroll (enrollment (Value.function 0) "source")) (sampled (Value.text t0))
    ∷ administer (enroll (enrollment (Value.function 1) "witness")) (sampled (Value.text t0))
    ∷ administer (enroll (enrollment (Value.function 2) "source")) (sampled (Value.text t0))
    ∷ []

abbrev passing : Data
passing = record_of (
    ("rule_id", Data.text "max-loss")
    ∷ ("rule_hash", Data.text hash_a)
    ∷ ("result", Data.text "pass")
    ∷ ("proof_mode", Data.text "commitment")
    ∷ ("evidence_hash", Data.text hash_b)
    ∷ [])

abbrev receipt : Data
receipt = record_of (
    ("schema_version", Data.text "pom-rx/0.1")
    ∷ ("receipt_id", Data.text "receipt-000000000001")
    ∷ ("run_id", Data.text "run-0000000000000001")
    ∷ ("phase", Data.text "preflight")
    ∷ ("outcome", Data.text "allow")
    ∷ ("agent_ref", Data.text "agent")
    ∷ ("subject_ref", Data.text "desk")
    ∷ ("method_hash", Data.text hash_a)
    ∷ ("policy_hash", Data.text hash_b)
    ∷ ("input_commitment", Data.text hash_a)
    ∷ ("action_commitment", Data.text hash_b)
    ∷ ("assertions", Data.array (Data.cons passing Data.nil))
    ∷ ("previous_receipt_hash", Data.null)
    ∷ ("occurred_at", Data.text t0)
    ∷ ("source_key_id", Data.text id_a)
    ∷ [])

abbrev signature : String
signature = "SSSSSSSSSSSSSSSSSSSSSSSSSSSSSSSSSSSSSSSSSSSSSSSSSSSSSSSSSSSSSSSSSSSSSSSSSSSSSSSS"

abbrev pub envelope : Value
envelope = embed (
    record_of (
      ("schema_version", Data.text "pom-rx-source-envelope/0.1")
      ∷ ("receipt", receipt)
      ∷ ("receipt_hash", Data.text hash_a)
      ∷ ("source_public_key", Data.text key_a)
      ∷ ("source_signature", Data.text signature)
      ∷ []))

abbrev pub acknowledgement : Value
acknowledgement = embed (
    record_of (
      ("schema_version", Data.text "pom-rx-witness-ack/0.1")
      ∷ ("receipt_hash", Data.text hash_a)
      ∷ ("receipt_id", Data.text "receipt-000000000001")
      ∷ ("run_id", Data.text "run-0000000000000001")
      ∷ ("outcome", Data.text "allow")
      ∷ ("source_key_id", Data.text id_a)
      ∷ ("received_at", Data.text t0)
      ∷ ("valid_until", Data.text t2)
      ∷ ("mode", Data.text "witnessed")
      ∷ ("witness_key_id", Data.text id_b)
      ∷ ("witness_public_key", Data.text key_b)
      ∷ ("witness_signature", Data.text signature)
      ∷ []))

abbrev pub enrolled : String → String → Role → Identity
enrolled k spki role = record {
  key_id = k;
  role = role;
  public_key_spki = spki;
  enrolled_at = t0;
  valid_until = t3;
  status = active;
  predecessor_key_id = none;
  transition_at = none;
  transition_reason = none;
}

abbrev pub third : Identity
third = ended (enrolled id_c key_c source) revoked t0 "retired"

-- A source, a Witness, and an identity that was revoked.
abbrev pub settled : Trust
settled = record {
  records =
      (id_a, enrolled id_a key_a source) ∷ (id_b, enrolled id_b key_b witness) ∷ (id_c, third) ∷ [];
  revision = 4;
  last_trusted_time_ms = some 0;
}

abbrev pub authorized : Authorized
authorized = record {
  source_key_id = id_a;
  witness_key_id = id_b;
  receipt_hash = hash_a;
  acknowledgement_hash = hash_a;
  current_time = t1;
  authorization_valid_until = t2;
  trust_revision = 4;
  trust_state_hash = hash_a;
}

pub granted :
    (verify_candidate sample_platform sample_crypto envelope acknowledgement
      (sampled (Value.text t1))
      settled).result
    ≡ ok authorized
unfolding sample_platform sample_crypto verify_candidate canonical_instant ◌>>=◌ capture_plain_data
    capture_value embed property_names is_safe_key utf16_length all_codes is_alnum count show_nat
    verify_source_envelope field_names get_field hash_pattern commit_envelope_receipt
    commit_pom_rx_receipt id_pattern source_key_id_pattern canonicalize_payload validate_safe_value
    payload_key_pattern is_sensitive canonicalize_value join_entries sort_entries json_string
    join_items decode_public_key pom_rx_key_id decode_signature verify_witness_ack key_id_pattern
    record_active_at is_safe_integer show_number
granted = refl
