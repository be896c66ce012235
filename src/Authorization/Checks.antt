-- ===== src/Authorization/Checks.antt =====
-- `validateBindingSnapshot` and its parts: the formats of the fields and the validity window.
use swisstokint_open_risk_in.Prelude.{
  is_id_code, id_pattern, ℕ, ◌+◌, String, Bool, false, ◌&&◌, ◌||◌, not, Option, none, some, List,
  [], ◌∷◌, Result, ok, err, guard, ◌>>=◌, ◌>>◌, leb, ◌==◌, if◌then◌else◌, str_eq, codes, head_tail,
  tagged, hash_pattern, is_alnum, is_hex,
}
use swisstokint_open_risk_in.Platform.{Platform}
use swisstokint_open_risk_in.Canonical.Safe.{PayloadError}
use swisstokint_open_risk_in.Value.{Value, text}
use swisstokint_open_risk_in.Value.Exact.{Snapshot, value_at}

-- The codes of `PomRxReferenceCapabilityError`, and the errors of the canonicalizer that pass through.
pub data AuthorizationError : Type 0 where
  binding_mismatch time_invalid : AuthorizationError
  payload : PayloadError → AuthorizationError

is_profile_code : ℕ → Bool
unfolding is_id_code
is_profile_code c = is_id_code c || c == b'/'

-- `PROFILE_PATTERN`, `KEY_ID_PATTERN`, `CAPABILITY_ID_PATTERN`
unfoldable pub profile_pattern : String → Bool
unfolding is_profile_code is_alnum head_tail
profile_pattern s = head_tail is_alnum is_profile_code 2 127 (codes s)

unfoldable pub key_id_pattern : String → Bool
unfolding tagged is_hex
key_id_pattern s = tagged (codes "ed25519-") is_hex 32 (codes s)

unfoldable pub capability_id_pattern : String → Bool
unfolding tagged is_hex
capability_id_pattern s = tagged (codes "cap-") is_hex 32 (codes s)

abbrev pub input_keys : List String
input_keys =
    "binding_profile" ∷ "run_id" ∷ "agent_ref" ∷ "subject_ref" ∷ "method_hash" ∷ "policy_hash"
    ∷ "action_commitment" ∷ "context_commitment" ∷ "preflight_receipt_hash" ∷ "witness_ack_hash"
    ∷ "source_key_id" ∷ "witness_key_id" ∷ "verification_profile" ∷ "verifier_version"
    ∷ "implementation_artifact_sha256" ∷ "effective_verification_policy_sha256" ∷ "issued_at"
    ∷ "expires_at" ∷ []

abbrev pub binding_keys : List String
binding_keys = "schema_version" ∷ "capability_id" ∷ input_keys

abbrev pub schema_version : String
schema_version = "pom-rx-exact-authorization/0.1"

-- The fields of a binding that name what is authorized; all are texts.
pub record Terms : Type 0 where
  pub capability_id : String
  pub binding_profile : String
  pub run_id : String
  pub agent_ref : String
  pub subject_ref : String
  pub method_hash : String
  pub policy_hash : String
  pub action_commitment : String
  pub context_commitment : String
  pub preflight_receipt_hash : String
  pub witness_ack_hash : String
  pub source_key_id : String
  pub witness_key_id : String
  pub verification_profile : String
  pub verifier_version : String
  pub implementation_artifact_sha256 : String
  pub effective_verification_policy_sha256 : String

-- When it holds: the two texts, and the instants that they denote.
pub record Window : Type 0 where
  pub issued_at : String
  pub expires_at : String
  pub issued_ms : ℕ
  pub expires_ms : ℕ

-- A validated binding; its schema version is fixed.
pub record Binding : Type 0 where
  pub terms : Terms
  pub open terms use *
  pub window : Window
  pub open window use *

-- `assertStringPattern(value, pattern, field)`
unfoldable pub string_pattern : (String → Bool) → Value → Result AuthorizationError String
string_pattern pattern (text s) = if pattern s then ok s else err binding_mismatch
string_pattern pattern v = err binding_mismatch

-- The format checks of `validateBindingSnapshot`, in its order.
unfoldable pub validate_terms : Snapshot → Result AuthorizationError Terms
unfolding string_pattern
validate_terms b = do
  version ← string_pattern (λ s. str_eq s schema_version) (value_at "schema_version" b)
  capability_id ← string_pattern capability_id_pattern (value_at "capability_id" b)
  binding_profile ← string_pattern profile_pattern (value_at "binding_profile" b)
  run_id ← string_pattern id_pattern (value_at "run_id" b)
  agent_ref ← string_pattern id_pattern (value_at "agent_ref" b)
  subject_ref ← string_pattern id_pattern (value_at "subject_ref" b)
  verification_profile ← string_pattern profile_pattern (value_at "verification_profile" b)
  verifier_version ← string_pattern profile_pattern (value_at "verifier_version" b)
  source_key_id ← string_pattern key_id_pattern (value_at "source_key_id" b)
  witness_key_id ← string_pattern key_id_pattern (value_at "witness_key_id" b)
  guard (not (str_eq source_key_id witness_key_id)) binding_mismatch
  method_hash ← string_pattern hash_pattern (value_at "method_hash" b)
  policy_hash ← string_pattern hash_pattern (value_at "policy_hash" b)
  action_commitment ← string_pattern hash_pattern (value_at "action_commitment" b)
  context_commitment ← string_pattern hash_pattern (value_at "context_commitment" b)
  preflight_receipt_hash ← string_pattern hash_pattern (value_at "preflight_receipt_hash" b)
  witness_ack_hash ← string_pattern hash_pattern (value_at "witness_ack_hash" b)
  artifact ← string_pattern hash_pattern (value_at "implementation_artifact_sha256" b)
  effective ← string_pattern hash_pattern (value_at "effective_verification_policy_sha256" b)
  ok (record {
    capability_id = capability_id;
    binding_profile = binding_profile;
    run_id = run_id;
    agent_ref = agent_ref;
    subject_ref = subject_ref;
    method_hash = method_hash;
    policy_hash = policy_hash;
    action_commitment = action_commitment;
    context_commitment = context_commitment;
    preflight_receipt_hash = preflight_receipt_hash;
    witness_ack_hash = witness_ack_hash;
    source_key_id = source_key_id;
    witness_key_id = witness_key_id;
    verification_profile = verification_profile;
    verifier_version = verifier_version;
    implementation_artifact_sha256 = artifact;
    effective_verification_policy_sha256 = effective;
  })

ends_with_z : List ℕ → Bool
ends_with_z [] = false
ends_with_z (c ∷ []) = c == b'Z'
ends_with_z (c ∷ d ∷ s) = ends_with_z (d ∷ s)

module _ (p : Platform) where
  canonical_parsed : String → Option ℕ → Option ℕ
  canonical_parsed s none = none
  canonical_parsed s (some ms) = if str_eq (p.to_iso_string ms) s then some ms else none

  -- `canonicalUtcInstant`, `canonicalClockInstant`: the instant of a canonical UTC text.
  unfoldable pub canonical_instant : Value → Option ℕ
  unfolding ends_with_z canonical_parsed
  canonical_instant (text s) =
      if ends_with_z (codes s) then canonical_parsed s (p.date_parse s) else none
  canonical_instant v = none

  -- The text and its instant.
  unfoldable pub canonical_utc_instant : Value → Result AuthorizationError (String × ℕ)
  unfolding canonical_instant
  canonical_utc_instant (text s) = elim (canonical_instant (text s)) [
    | none ↦ err time_invalid
    | some ms ↦ ok (s, ms)
  ]
  canonical_utc_instant v = err time_invalid

  -- `expiresAt - issuedAt` between one second and five minutes; a negative difference is refused too.
  check_lifetime : String × ℕ → String × ℕ → Result AuthorizationError Window
  check_lifetime (s, issued) (t, expires) =
      if leb (issued + 1000) expires && leb expires (issued + 300000)
      then ok (record { issued_at = s; expires_at = t; issued_ms = issued; expires_ms = expires })
      else err time_invalid

  unfoldable pub validate_window : Value → Value → Result AuthorizationError Window
  unfolding check_lifetime
  validate_window issued_at expires_at = do
    issued ← canonical_utc_instant issued_at
    expires ← canonical_utc_instant expires_at
    check_lifetime issued expires

  -- `validateBindingSnapshot`
  unfoldable pub validate_binding_snapshot : Snapshot → Result AuthorizationError Binding
  unfolding validate_terms
  validate_binding_snapshot b = do
    terms ← validate_terms b
    window ← validate_window (value_at "issued_at" b) (value_at "expires_at" b)
    ok (record { terms = terms; window = window })
