-- ===== src/PomRx/Tests.antt =====
-- Chains at concrete receipts.
use swisstokint_open_risk_in.Prelude.{
  String, ◌≡◌, refl, false, [], ◌∷◌, Ensures, ◌>>=◌, hash_pattern, id_pattern,
  source_key_id_pattern, utf16_length, is_lower, is_digit,
}
use swisstokint_open_risk_in.Data
use swisstokint_open_risk_in.Data.{Data, record_of, get_field, field_names, is_safe_integer}
use swisstokint_open_risk_in.Canonical.{canonicalize_payload}
use swisstokint_open_risk_in.Canonical.Safe.{validate_safe_value, payload_key_pattern, is_sensitive}
use swisstokint_open_risk_in.Canonical.Render.{
  canonicalize_value, join_entries, sort_entries, join_items,
}
use swisstokint_open_risk_in.Canonical.Number.{json_string}
use swisstokint_open_risk_in.PomRx.Receipt.{pom_data}
use swisstokint_open_risk_in.Samples.{sample_platform, hash_a, hash_b, t0, t1, t2}
use swisstokint_open_risk_in.PomRx.Chain.{
  verify_pom_rx_chain, assert_pom_rx_chain, verified, refused,
}
use swisstokint_open_risk_in.PomRx.Links.{Lawful}
use swisstokint_open_risk_in.PomRx.Lawful.{chain-Lawful}

abbrev passing : Data
passing = record_of (
    ("rule_id", Data.text "max-loss")
    ∷ ("rule_hash", Data.text hash_a)
    ∷ ("result", Data.text "pass")
    ∷ ("proof_mode", Data.text "commitment")
    ∷ ("evidence_hash", Data.text hash_b)
    ∷ [])

abbrev receipt_data : String → String → String → Data → String → Data
receipt_data id phase outcome previous at = record_of (
    ("schema_version", Data.text "pom-rx/0.1")
    ∷ ("receipt_id", Data.text id)
    ∷ ("run_id", Data.text "run-0000000000000001")
    ∷ ("phase", Data.text phase)
    ∷ ("outcome", Data.text outcome)
    ∷ ("agent_ref", Data.text "agent")
    ∷ ("subject_ref", Data.text "desk")
    ∷ ("method_hash", Data.text hash_a)
    ∷ ("policy_hash", Data.text hash_b)
    ∷ ("input_commitment", Data.text hash_a)
    ∷ ("action_commitment", Data.text hash_b)
    ∷ ("assertions", Data.array (Data.cons passing Data.nil))
    ∷ ("previous_receipt_hash", previous)
    ∷ ("occurred_at", Data.text at)
    ∷ ("source_key_id", Data.text "key-1")
    ∷ [])

abbrev allowed : Data
allowed = receipt_data "receipt-000000000001" "preflight" "allow" Data.null t0

abbrev executed_with : String → String → Data
executed_with outcome at =
    receipt_data "receipt-000000000002" "execution" outcome (Data.text hash_a) at

abbrev chain : Data → Data → Data
chain a b = Data.array (Data.cons a (Data.cons b Data.nil))

chain_verifies :
    verify_pom_rx_chain sample_platform false (chain allowed (executed_with "unresolved" t1))
    ≡ verified "execution:unresolved" (hash_a ∷ hash_a ∷ [])
unfolding verify_pom_rx_chain sample_platform ◌>>=◌ field_names get_field hash_pattern id_pattern
    source_key_id_pattern utf16_length is_lower is_digit canonicalize_payload validate_safe_value
    payload_key_pattern is_sensitive canonicalize_value is_safe_integer join_entries sort_entries
    join_items json_string pom_data
chain_verifies = refl

-- The second receipt is older than the first.
chain-refused :
    verify_pom_rx_chain sample_platform false (
      chain
        (receipt_data "receipt-000000000001" "preflight" "allow" Data.null t2)
        (executed_with "unresolved" t1))
    ≡ refused
unfolding verify_pom_rx_chain sample_platform ◌>>=◌ field_names get_field hash_pattern id_pattern
    source_key_id_pattern utf16_length is_lower is_digit canonicalize_payload validate_safe_value
    payload_key_pattern is_sensitive canonicalize_value is_safe_integer join_entries sort_entries
    join_items json_string pom_data
chain-refused = refl

chain-Lawful_example :
    Ensures
      (Lawful false)
      (assert_pom_rx_chain sample_platform false (chain allowed (executed_with "unresolved" t1)))
chain-Lawful_example =
    chain-Lawful sample_platform false (chain allowed (executed_with "unresolved" t1))
