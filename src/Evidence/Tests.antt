-- ===== src/Evidence/Tests.antt =====
-- A binding of the documents that the lifecycle granted, and the theorems at it.
use swisstokint_open_risk_in.Prelude.{◌≡◌, ◌⊎◌, refl, [], ◌∷◌, ok}
use swisstokint_open_risk_in.Data.{Data, record_of, get_field}
use swisstokint_open_risk_in.Value.{Value, sampled, embed}
use swisstokint_open_risk_in.Samples.{sample_platform, t0, t1, t2, hash_a}
use swisstokint_open_risk_in.PlainData.{capture_plain_data}
use swisstokint_open_risk_in.Merkle.Binding.{Collision}
use swisstokint_open_risk_in.Trust.Documents.{
  sample_crypto, envelope, acknowledgement, settled, authorized, id_a, id_b, granted,
}
use swisstokint_open_risk_in.Evidence.{EvidenceBinding, verify_evidence_binding}
use swisstokint_open_risk_in.Evidence.Sound.{Evidenced, binding_exact}
use swisstokint_open_risk_in.Evidence.Granted.{Reports, granted_binds}
use swisstokint_open_risk_in.Prelude.{◌>>=◌}
use swisstokint_open_risk_in.PlainData.{capture_value}
use swisstokint_open_risk_in.Value.{property_names}
use swisstokint_open_risk_in.PlainData.{is_safe_key}
use swisstokint_open_risk_in.Prelude.{utf16_length}
use swisstokint_open_risk_in.Prelude.{all_codes}
use swisstokint_open_risk_in.Prelude.{is_alnum}
use swisstokint_open_risk_in.Prelude.{count}
use swisstokint_open_risk_in.Canonical.Number.{show_nat}
use swisstokint_open_risk_in.Witness.Envelope.{verify_source_envelope}
use swisstokint_open_risk_in.Data.{field_names}
use swisstokint_open_risk_in.Prelude.{hash_pattern}
use swisstokint_open_risk_in.Witness.Envelope.{commit_envelope_receipt}
use swisstokint_open_risk_in.PomRx.Receipt.{commit_pom_rx_receipt}
use swisstokint_open_risk_in.Prelude.{id_pattern}
use swisstokint_open_risk_in.Prelude.{source_key_id_pattern}
use swisstokint_open_risk_in.Canonical.{canonicalize_payload}
use swisstokint_open_risk_in.Canonical.Safe.{validate_safe_value}
use swisstokint_open_risk_in.Canonical.Safe.{payload_key_pattern}
use swisstokint_open_risk_in.Canonical.Safe.{is_sensitive}
use swisstokint_open_risk_in.Canonical.Render.{canonicalize_value}
use swisstokint_open_risk_in.Canonical.Render.{join_entries}
use swisstokint_open_risk_in.Canonical.Render.{sort_entries}
use swisstokint_open_risk_in.Canonical.Number.{json_string}
use swisstokint_open_risk_in.Canonical.Render.{join_items}
use swisstokint_open_risk_in.Witness.Crypto.{decode_public_key}
use swisstokint_open_risk_in.Witness.Crypto.{pom_rx_key_id}
use swisstokint_open_risk_in.Witness.Crypto.{decode_signature}
use swisstokint_open_risk_in.Witness.Ack.{verify_witness_ack}
use swisstokint_open_risk_in.Authorization.Checks.{key_id_pattern}

abbrev result_data : Data
result_data = record_of (
    ("receipt_hash", Data.text hash_a)
    ∷ ("acknowledgement_hash", Data.text hash_a)
    ∷ ("source_key_id", Data.text id_a)
    ∷ ("witness_key_id", Data.text id_b)
    ∷ [])

abbrev result_value : Value
result_value = embed result_data

abbrev binding : EvidenceBinding
binding = record {
  receipt_hash = hash_a;
  acknowledgement_hash = hash_a;
  source_key_id = id_a;
  witness_key_id = id_b;
  acknowledgement_received_at = t0;
  acknowledgement_valid_until = t2;
}

captured : capture_plain_data result_value ≡ ok result_data
unfolding capture_plain_data embed ◌>>=◌ capture_value property_names is_safe_key utf16_length
    all_codes is_alnum count
captured = refl

bound :
    verify_evidence_binding sample_platform sample_crypto envelope acknowledgement result_value
    ≡ ok binding
unfolding sample_platform sample_crypto verify_evidence_binding ◌>>=◌ capture_plain_data
    capture_value embed property_names is_safe_key utf16_length all_codes is_alnum count show_nat
    verify_source_envelope field_names get_field hash_pattern commit_envelope_receipt
    commit_pom_rx_receipt id_pattern source_key_id_pattern canonicalize_payload validate_safe_value
    payload_key_pattern is_sensitive canonicalize_value join_entries sort_entries json_string
    join_items decode_public_key pom_rx_key_id decode_signature verify_witness_ack key_id_pattern
bound = refl

binding_exact_example :
    (x : Evidenced sample_platform sample_crypto result_data binding) × (y : Evidenced
      sample_platform sample_crypto result_data binding)
    × (hash_a ≡ hash_a)
    × (id_a ≡ id_a)
    × (id_b ≡ id_b)
    × ((x.is_acknowledged.message ≡ y.is_acknowledged.message) ⊎ Collision sample_platform)
binding_exact_example =
    binding_exact sample_platform sample_crypto envelope acknowledgement envelope acknowledgement
      result_value result_data binding binding captured bound bound

reports : Reports result_data authorized
unfolding get_field
reports = (refl, refl, refl, refl)

granted_binds_example :
    (b : EvidenceBinding) × (verify_evidence_binding sample_platform sample_crypto envelope
        acknowledgement result_value
      ≡ ok b)
    × (b.receipt_hash ≡ hash_a)
    × (b.acknowledgement_hash ≡ hash_a)
    × (b.source_key_id ≡ id_a)
    × (b.witness_key_id ≡ id_b)
granted_binds_example =
    granted_binds sample_platform sample_crypto envelope acknowledgement result_value
      (sampled (Value.text t1)) settled authorized result_data granted captured reports
