-- ===== src/Gate/Tests.antt =====
-- Runs of the gate, and the theorems about it at these runs.
use swisstokint_open_risk_in.Prelude.{
  id_pattern, ◌≤◌, ◌≡◌, refl, some, List, [], ◌∷◌, ◌++◌, ◌>>=◌, All,
}
use swisstokint_open_risk_in.Value.{Value}
use swisstokint_open_risk_in.Samples.{sample_platform, t0, t1, t2, t3, hash_a, hash_b, object_of}
use swisstokint_open_risk_in.Value.{sampled}
use swisstokint_open_risk_in.Gate.Defs.{
  new_gate, capability_state, consumed_success, thrown, capability_stale, fulfilled,
}
use swisstokint_open_risk_in.Gate.Steps.{
  Event, issue, consume, first_clock, second_clock, observer, downstream, step, run,
  issue_authorization,
}
use swisstokint_open_risk_in.Prelude.{
  hash_pattern, all_codes, count, head_tail, is_alnum, is_digit, is_hex, is_lower, is_upper,
  strip_prefix, tagged, utf16_length,
}
use swisstokint_open_risk_in.Authorization.Checks.{
  canonical_instant, validate_terms, validate_window, string_pattern, capability_id_pattern,
  key_id_pattern, canonical_utc_instant, validate_binding_snapshot, profile_pattern,
}
use swisstokint_open_risk_in.Authorization.Record.{
  binding_data, commit_validated_binding, snapshot_prepare_options, prepare_record,
}
use swisstokint_open_risk_in.Canonical.Number.{json_string, show_nat, show_number}
use swisstokint_open_risk_in.Canonical.Render.{canonicalize_value, sort_entries, join_entries}
use swisstokint_open_risk_in.Canonical.Safe.{is_sensitive, payload_key_pattern, validate_safe_value}
use swisstokint_open_risk_in.Canonical.{canonicalize_payload}
use swisstokint_open_risk_in.Data.{is_safe_integer}
use swisstokint_open_risk_in.Gate.Defs.{
  advance_clock, assert_capability_active, begin_consumption, complete_consumption,
  exact_binding_matches, reject_capability, sample_gate_clock, sample_trusted_clock,
  validate_observed, reserve_capability,
}
use swisstokint_open_risk_in.Gate.Steps.{
  active_now, after_downstream, after_first_clock, after_observer, after_second_clock,
  downstream_at, fail_downstream, first_clock_at, forward_now, observer_at, prepare_options,
  reject_with, second_clock_at, start_consume,
}
use swisstokint_open_risk_in.PlainData.{capture_plain_data, capture_value, is_safe_key}
use swisstokint_open_risk_in.Value.Exact.{
  add_entry, exact_owned_keys, exact_sorted_keys, same_texts, snapshot_exact_references,
  snapshot_object, sort_texts, take_fields, snapshot_exact_data_object, value_at,
}
use swisstokint_open_risk_in.Value.{property_names, descriptor_of}
use swisstokint_open_risk_in.Gate.SingleUse.{uses, spent, run-Inv, new_gate-Inv}
use swisstokint_open_risk_in.Gate.Lifecycle.{run_replay}
use swisstokint_open_risk_in.Gate.Safety.{IsAuthorized, run_single_use, run-IsAuthorized}
use swisstokint_open_risk_in.Gate.Clock.{NotAfter, run_monotone}

abbrev binding_input : Value
binding_input = object_of (
    ("binding_profile", Value.text "profile/1")
    ∷ ("run_id", Value.text "run-0000000000001")
    ∷ ("agent_ref", Value.text "agent-00000000001")
    ∷ ("subject_ref", Value.text "subject-000000001")
    ∷ ("method_hash", Value.text hash_a)
    ∷ ("policy_hash", Value.text hash_a)
    ∷ ("action_commitment", Value.text hash_a)
    ∷ ("context_commitment", Value.text hash_b)
    ∷ ("preflight_receipt_hash", Value.text hash_a)
    ∷ ("witness_ack_hash", Value.text hash_a)
    ∷ ("source_key_id", Value.text "ed25519-00000000000000000000000000000001")
    ∷ ("witness_key_id", Value.text "ed25519-00000000000000000000000000000002")
    ∷ ("verification_profile", Value.text "strict/1")
    ∷ ("verifier_version", Value.text "verifier-1")
    ∷ ("implementation_artifact_sha256", Value.text hash_a)
    ∷ ("effective_verification_policy_sha256", Value.text hash_a)
    ∷ ("issued_at", Value.text t0)
    ∷ ("expires_at", Value.text t2)
    ∷ [])

abbrev observation : Value
observation = object_of (
    ("binding_profile", Value.text "profile/1")
    ∷ ("action_commitment", Value.text hash_a)
    ∷ ("context_commitment", Value.text hash_b)
    ∷ ("prepared_execution", object_of [])
    ∷ [])

-- Two overlapping calls for one capability.
abbrev schedule : List Event
schedule =
    issue binding_input (Value.text t3) "00000000000000000000000000000000"
    ∷ consume 0
    ∷ consume 0
    ∷ first_clock 0 (sampled (Value.text t0))
    ∷ observer 0 (fulfilled observation)
    ∷ second_clock 0 (sampled (Value.text t1))
    ∷ downstream 0 (fulfilled Value.null)
    ∷ []

-- The first call consumed the capability.
final_state : capability_state (run sample_platform new_gate schedule) 0 ≡ some consumed_success
unfolding run new_gate capability_state step sample_platform issue_authorization hash_pattern
    canonical_instant validate_terms validate_window binding_data commit_validated_binding
    json_string show_nat show_number canonicalize_value sort_entries join_entries is_sensitive
    payload_key_pattern validate_safe_value canonicalize_payload is_safe_integer advance_clock
    assert_capability_active begin_consumption complete_consumption exact_binding_matches
    reject_capability sample_gate_clock sample_trusted_clock validate_observed active_now
    after_downstream after_first_clock after_observer after_second_clock downstream_at
    fail_downstream first_clock_at forward_now observer_at prepare_options reject_with
    second_clock_at capture_plain_data capture_value is_safe_key all_codes count head_tail is_alnum
    is_digit is_hex is_lower is_upper strip_prefix tagged utf16_length add_entry exact_owned_keys
    exact_sorted_keys same_texts snapshot_exact_references snapshot_object sort_texts take_fields
    snapshot_prepare_options string_pattern capability_id_pattern id_pattern key_id_pattern
    start_consume reserve_capability prepare_record ◌>>=◌ snapshot_exact_data_object property_names
    descriptor_of canonical_utc_instant validate_binding_snapshot value_at profile_pattern
final_state = refl

run_single_use_example :
    (uses 0 (run sample_platform new_gate schedule).forwards ≤ 1)
    × (uses 0 (run sample_platform new_gate schedule).forwards
        ≡ spent (capability_state (run sample_platform new_gate schedule) 0))
run_single_use_example = run_single_use sample_platform schedule 0

run-IsAuthorized_example :
    All
      (IsAuthorized (run sample_platform new_gate schedule))
      (run sample_platform new_gate schedule).forwards
run-IsAuthorized_example = run-IsAuthorized sample_platform schedule

run_monotone_example :
    NotAfter new_gate.last_trusted_time_ms
      (run sample_platform new_gate schedule).last_trusted_time_ms
run_monotone_example = run_monotone sample_platform new_gate schedule

run_replay_example :
    let h = run sample_platform (run sample_platform new_gate schedule) (consume 0 ∷ []) in
    (capability_state h 0 ≡ some consumed_success)
    × (step sample_platform h (consume 0) ≡ record h {
      calls = h.calls ++ record { capability = 0; progress = thrown capability_stale } ∷ [];
    })
run_replay_example =
    run_replay sample_platform (run sample_platform new_gate schedule) (consume 0 ∷ []) 0
      consumed_success
      (run-Inv sample_platform new_gate schedule (new_gate-Inv sample_platform)).bound final_state
      refl
