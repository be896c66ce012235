-- ===== src/Trust/Tests.antt =====
-- Runs of the lifecycle, and the theorems about it at these runs.
use swisstokint_open_risk_in.Prelude.{ℕ, ◌≡◌, ◌≢◌, refl, none, some, List, [], ◌∷◌, ok, err}
use swisstokint_open_risk_in.Value.{Value, sampled}
use swisstokint_open_risk_in.Samples.{sample_platform, t0, t1, t3, hash_a}
use swisstokint_open_risk_in.Dict.{lookup}
use swisstokint_open_risk_in.Trust.Records.{
  TrustSnapshot, Identity, new_trust, active, rotated, source, witness, sample_trust_clock,
  duplicate,
}
use swisstokint_open_risk_in.Trust.Admin.{two, ended}
use swisstokint_open_risk_in.Trust.Verify.{verify_candidate}
use swisstokint_open_risk_in.Trust.Steps.{
  Event, administer, enroll, revoke, rotate, admin, run, Ends, admin_atomic,
}
use swisstokint_open_risk_in.Trust.Invariant.{IsTrust, run-IsTrust, new_trust-IsTrust, run-Evolves}
use swisstokint_open_risk_in.Trust.Evolves.{Evolves}
use swisstokint_open_risk_in.Trust.Accepts.{
  IsAuthorization, verify-IsAuthorization, ended_never_signs,
}
use swisstokint_open_risk_in.Trust.Revisions.{Revised, run-Revised, trust_clock_monotone}
use swisstokint_open_risk_in.Trust.Handover.{Replaced, replacement-HandsOver}
use swisstokint_open_risk_in.Gate.Clock.{NotAfter}
use swisstokint_open_risk_in.Authorization.Checks.{canonical_instant}
use swisstokint_open_risk_in.Prelude.{◌>>=◌}
use swisstokint_open_risk_in.Value.{property_names}
use swisstokint_open_risk_in.Prelude.{utf16_length}
use swisstokint_open_risk_in.Canonical.{canonicalize_payload}
use swisstokint_open_risk_in.Canonical.Safe.{validate_safe_value}
use swisstokint_open_risk_in.Canonical.Safe.{payload_key_pattern}
use swisstokint_open_risk_in.Canonical.Safe.{is_sensitive}
use swisstokint_open_risk_in.Canonical.Render.{canonicalize_value}
use swisstokint_open_risk_in.Canonical.Render.{join_entries}
use swisstokint_open_risk_in.Canonical.Render.{sort_entries}
use swisstokint_open_risk_in.Canonical.Number.{json_string}
use swisstokint_open_risk_in.Canonical.Render.{join_items}
use swisstokint_open_risk_in.Witness.Crypto.{pom_rx_key_id}
use swisstokint_open_risk_in.Authorization.Checks.{key_id_pattern}
use swisstokint_open_risk_in.Data.{is_safe_integer}
use swisstokint_open_risk_in.Canonical.Number.{show_number}
use swisstokint_open_risk_in.Value.Exact.{snapshot_exact_data_object}
use swisstokint_open_risk_in.Value.{descriptor_of}
use swisstokint_open_risk_in.Witness.Crypto.{to_ed25519_public_key}
use swisstokint_open_risk_in.Value.Exact.{value_at}
use swisstokint_open_risk_in.Trust.Documents.{
  sample_crypto, key_a, key_b, key_d, id_a, id_b, id_c, id_d, enrollment, revocation,
  rotation_input, history, envelope, acknowledgement, enrolled, third, settled, authorized, granted,
}

-- A key that is enrolled is refused, and the state stays.
duplicate_refused :
    admin sample_platform sample_crypto
      (enroll (enrollment (Value.function 0) "source"))
      (sampled (Value.text t0))
      settled
    ≡ record { state = settled; result = err duplicate }
unfolding sample_platform sample_crypto admin snapshot_exact_data_object property_names
    descriptor_of canonical_instant ◌>>=◌ to_ed25519_public_key value_at pom_rx_key_id
duplicate_refused = refl

run-IsTrust_example : IsTrust sample_platform (run sample_platform sample_crypto new_trust history)
run-IsTrust_example =
    run-IsTrust sample_platform sample_crypto new_trust history (new_trust-IsTrust sample_platform)

admin_atomic_example :
    Ends sample_platform settled
      (admin sample_platform sample_crypto
        (revoke (revocation id_b))
        (sampled (Value.text t1))
        settled).state
      (admin sample_platform sample_crypto
        (revoke (revocation id_b))
        (sampled (Value.text t1))
        settled).result
admin_atomic_example =
    admin_atomic sample_platform sample_crypto (revoke (revocation id_b)) (sampled (Value.text t1))
      settled

abbrev later : List Event
later =
    administer (revoke (revocation id_b)) (sampled (Value.text t1))
    ∷ administer (rotate (rotation_input id_a (Value.function 3))) (sampled (Value.text t1))
    ∷ []

run-Evolves_example :
    (s : Identity) × (lookup id_a (run sample_platform sample_crypto settled later).records
      ≡ some s)
    × Evolves (enrolled id_a key_a source) s
run-Evolves_example =
    run-Evolves sample_platform sample_crypto settled later id_a (enrolled id_a key_a source) refl

verify-IsAuthorization_example :
    (now : ℕ) × ((sample_trust_clock sample_platform settled (sampled (Value.text t1))).result
      ≡ ok now)
    × IsAuthorization sample_platform
        (sample_trust_clock sample_platform settled (sampled (Value.text t1))).state
        now
        authorized
verify-IsAuthorization_example =
    verify-IsAuthorization sample_platform sample_crypto envelope acknowledgement
      (sampled (Value.text t1)) settled authorized granted

granted_after :
    (verify_candidate sample_platform sample_crypto envelope acknowledgement
      (sampled (Value.text t1))
      (run sample_platform sample_crypto settled [])).result
    ≡ ok authorized
unfolding run
granted_after = granted

ended_never_signs_example : (id_a ≢ id_c) × (id_b ≢ id_c)
ended_never_signs_example =
    ended_never_signs sample_platform sample_crypto settled id_c third [] envelope acknowledgement
      (sampled (Value.text t1)) authorized refl refl granted_after

run-Revised_example : Revised settled (run sample_platform sample_crypto settled later)
run-Revised_example = run-Revised sample_platform sample_crypto settled later

trust_clock_monotone_example :
    NotAfter settled.last_trusted_time_ms
      (run sample_platform sample_crypto settled later).last_trusted_time_ms
trust_clock_monotone_example = trust_clock_monotone sample_platform sample_crypto settled later

abbrev rotated_out : Identity
rotated_out = ended (enrolled id_b key_b witness) rotated t1 "key_rotation"

abbrev successor : Identity
successor = record {
  key_id = id_d;
  role = witness;
  public_key_spki = key_d;
  enrolled_at = t1;
  valid_until = t3;
  status = active;
  predecessor_key_id = some id_b;
  transition_at = none;
  transition_reason = none;
}

abbrev rotated_trust : TrustSnapshot
rotated_trust = record {
  revision = 5;
  identities = enrolled id_a key_a source ∷ rotated_out ∷ third ∷ successor ∷ [];
  trust_state_hash = hash_a;
}

rotation_done :
    (admin sample_platform sample_crypto
      (rotate (rotation_input id_b (Value.function 3)))
      (sampled (Value.text t1))
      settled).result
    ≡ ok (rotated_trust, two rotated_out successor)
unfolding sample_platform sample_crypto admin ◌>>=◌ snapshot_exact_data_object property_names
    descriptor_of canonical_instant value_at key_id_pattern to_ed25519_public_key pom_rx_key_id
    canonicalize_payload validate_safe_value payload_key_pattern is_sensitive utf16_length
    is_safe_integer canonicalize_value join_entries sort_entries json_string join_items show_number
rotation_done = refl

replacement-HandsOver_example :
    (now : ℕ) × ((sample_trust_clock sample_platform settled (sampled (Value.text t1))).result
      ≡ ok now)
    × Replaced sample_platform now
        (admin sample_platform sample_crypto
          (rotate (rotation_input id_b (Value.function 3)))
          (sampled (Value.text t1))
          settled).state.records
        (two rotated_out successor)
replacement-HandsOver_example =
    replacement-HandsOver sample_platform sample_crypto
      (rotate (rotation_input id_b (Value.function 3))) (sampled (Value.text t1)) settled
      rotated_trust (two rotated_out successor) tt rotation_done
