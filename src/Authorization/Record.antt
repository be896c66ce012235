-- ===== src/Authorization/Record.antt =====
-- The commitment to a binding, and the preparation of an authorization record.
use swisstokint_open_risk_in.Prelude.{
  String, Bool, true, ◌&&◌, Option, none, some, List, [], ◌∷◌, Result, ok, err, guard, ◌>>=◌, ◌>>◌,
  leb, if◌then◌else◌, mem_text, is_some,
}
use Prim.Native.String.{◌++◌}
use swisstokint_open_risk_in.Data.{Data, record_of}
use swisstokint_open_risk_in.Platform.{Platform}
use swisstokint_open_risk_in.Canonical.{canonicalize_payload}
use swisstokint_open_risk_in.Canonical.Safe.{PayloadError}
use swisstokint_open_risk_in.Value.{
  Value, text, object, undefined, property_names, descriptor_of, enumerable_value, Properties,
}
use swisstokint_open_risk_in.Value.Exact.{
  Snapshot, snapshot_exact_data_object, is_plain_prototype, boundary,
}
use swisstokint_open_risk_in.Authorization.Checks.{
  AuthorizationError, payload, binding_mismatch, time_invalid, Binding, schema_version, input_keys,
  binding_keys, string_pattern, capability_id_pattern, canonical_utc_instant,
  validate_binding_snapshot,
}

-- The binding as the object that is committed to.
unfoldable pub binding_data : Binding → Data
binding_data b = record_of (
    ("schema_version", Data.text schema_version)
    ∷ ("capability_id", Data.text b.capability_id)
    ∷ ("binding_profile", Data.text b.binding_profile)
    ∷ ("run_id", Data.text b.run_id)
    ∷ ("agent_ref", Data.text b.agent_ref)
    ∷ ("subject_ref", Data.text b.subject_ref)
    ∷ ("method_hash", Data.text b.method_hash)
    ∷ ("policy_hash", Data.text b.policy_hash)
    ∷ ("action_commitment", Data.text b.action_commitment)
    ∷ ("context_commitment", Data.text b.context_commitment)
    ∷ ("preflight_receipt_hash", Data.text b.preflight_receipt_hash)
    ∷ ("witness_ack_hash", Data.text b.witness_ack_hash)
    ∷ ("source_key_id", Data.text b.source_key_id)
    ∷ ("witness_key_id", Data.text b.witness_key_id)
    ∷ ("verification_profile", Data.text b.verification_profile)
    ∷ ("verifier_version", Data.text b.verifier_version)
    ∷ ("implementation_artifact_sha256", Data.text b.implementation_artifact_sha256)
    ∷ ("effective_verification_policy_sha256", Data.text b.effective_verification_policy_sha256)
    ∷ ("issued_at", Data.text b.issued_at)
    ∷ ("expires_at", Data.text b.expires_at)
    ∷ [])

abbrev option_keys : List String
option_keys = "witnessValidUntil" ∷ "capabilityId" ∷ []

or_undefined : Option Value → Value
or_undefined none = undefined
or_undefined (some v) = v

-- Every own property is one of the two options, and an enumerable data property.
known_options : List String → Properties → Bool
known_options [] ps = true
known_options (k ∷ ks) ps =
    mem_text k option_keys
    && (is_some (enumerable_value (descriptor_of k ps)) && known_options ks ps)

-- `snapshotPrepareOptions`: `(witnessValidUntil, capabilityId)`
unfoldable pub snapshot_prepare_options : Value → Result AuthorizationError (Value × Value)
unfolding known_options or_undefined
snapshot_prepare_options (object sh ps) =
    if boundary is_plain_prototype sh && known_options (property_names ps) ps
    then ok (
      or_undefined (enumerable_value (descriptor_of "witnessValidUntil" ps)),
      or_undefined (enumerable_value (descriptor_of "capabilityId" ps)),
    )
    else err binding_mismatch
snapshot_prepare_options v = err binding_mismatch

pub record Prepared : Type 0 where
  pub binding : Binding
  pub authorization_commitment : String

abbrev exact_data : Option Snapshot → Result AuthorizationError Snapshot
exact_data none = err binding_mismatch
exact_data (some s) = ok s

abbrev pub lift_payload : {A : Type 0} → Result PayloadError A → Result AuthorizationError A
lift_payload (ok a) = ok a
lift_payload (err e) = err (payload e)

module _ (p : Platform) where
  -- `commitValidatedBinding`
  unfoldable pub commit_validated_binding : Binding → Result AuthorizationError String
  commit_validated_binding b = do
    canonical ← lift_payload (canonicalize_payload p (binding_data b))
    ok (p.sha256_hex ("swisstokint:pom-rx-exact-authorization:v1:" ++ canonical))

  -- `commitExactAuthorizationBinding`
  unfoldable pub commit_exact_authorization_binding : Value → Result AuthorizationError String
  commit_exact_authorization_binding v = do
    s ← exact_data (snapshot_exact_data_object binding_keys v)
    b ← validate_binding_snapshot p s
    commit_validated_binding b

  -- `prepareReferenceExactAuthorizationRecord`; the evidence's fixed flags are left out.
  unfoldable pub prepare_record : Value → Value → Result AuthorizationError Prepared
  prepare_record input options = do
    s ← exact_data (snapshot_exact_data_object input_keys input)
    (witness_valid_until, capability) ← snapshot_prepare_options options
    capability_id ← string_pattern capability_id_pattern capability
    (witness_text, witness_expiry) ← canonical_utc_instant p witness_valid_until
    b ←
        validate_binding_snapshot p
          (("schema_version", text schema_version) ∷ ("capability_id", text capability_id) ∷ s)
    guard (leb b.expires_ms witness_expiry) time_invalid
    commitment ← commit_validated_binding b
    ok (record { binding = b; authorization_commitment = commitment })
