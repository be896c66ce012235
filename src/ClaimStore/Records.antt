-- ===== src/ClaimStore/Records.antt =====
-- The persisted records: how they are made, committed to and validated when they are read back.
use Prim.Native.String.{◌++◌ as concat}
use swisstokint_open_risk_in.Prelude.{
  String, Bool, true, false, ◌&&◌, not, none, some, List, [], ◌∷◌, Result, ok, err, guard, ◌>>=◌,
  ◌>>◌, str_eq, hash_pattern, if◌then◌else◌,
}
use swisstokint_open_risk_in.Data.{Data, record_of}
use swisstokint_open_risk_in.Platform.{Platform}
use swisstokint_open_risk_in.Canonical.{canonicalize_payload}
use swisstokint_open_risk_in.Canonical.Safe.{PayloadError}
use swisstokint_open_risk_in.Value.{Value}
use swisstokint_open_risk_in.Value.Exact.{Snapshot, value_at, exact_own_data}
use swisstokint_open_risk_in.Authorization.Checks.{capability_id_pattern}

-- The codes of `PomRxDurableClaimStoreError`, and the errors of the canonicalizer that pass through.
pub data ClaimError : Type 0 where
  durable_invalid durable_corrupt durable_io durable_replay durable_stale : ClaimError
  durable_root_invalid durable_binding_mismatch : ClaimError
  payload : PayloadError → ClaimError

-- A claim record; its other fields are constants.
pub record ClaimRecord : Type 0 where
  pub capability_id : String
  pub authorization_commitment : String
  pub claim_commitment : String

pub data Terminal : Type 0 where
  consumed_success consumed_error : Terminal

pub record TerminalRecord : Type 0 where
  pub claim : ClaimRecord
  pub terminal_state : Terminal
  pub terminal_commitment : String

abbrev pub terminal_text : Terminal → String
terminal_text consumed_success = "CONSUMED_SUCCESS"
terminal_text consumed_error = "CONSUMED_ERROR"

abbrev claim_version : String
claim_version = "pom-rx-durable-claim/0.1"

abbrev terminal_version : String
terminal_version = "pom-rx-durable-terminal/0.1"

abbrev pub claim_record_keys : List String
claim_record_keys =
    "schema_version" ∷ "capability_id" ∷ "authorization_commitment" ∷ "claim_commitment"
    ∷ "reference_only" ∷ "exclusive_claim_recorded" ∷ "local_filesystem_atomicity_assumed"
    ∷ "distributed_consensus_proved" ∷ "network_filesystem_atomicity_proved"
    ∷ "crash_recovery_proved" ∷ []

abbrev pub terminal_record_keys : List String
terminal_record_keys =
    "schema_version" ∷ "capability_id" ∷ "authorization_commitment" ∷ "claim_commitment"
    ∷ "terminal_state" ∷ "terminal_commitment" ∷ "reference_only" ∷ []

-- The records as values, as they are written.
unfoldable pub claim_data : ClaimRecord → Data
claim_data r = record_of (
    ("schema_version", Data.text claim_version)
    ∷ ("capability_id", Data.text r.capability_id)
    ∷ ("authorization_commitment", Data.text r.authorization_commitment)
    ∷ ("claim_commitment", Data.text r.claim_commitment)
    ∷ ("reference_only", Data.boolean true)
    ∷ ("exclusive_claim_recorded", Data.boolean true)
    ∷ ("local_filesystem_atomicity_assumed", Data.boolean true)
    ∷ ("distributed_consensus_proved", Data.boolean false)
    ∷ ("network_filesystem_atomicity_proved", Data.boolean false)
    ∷ ("crash_recovery_proved", Data.boolean false)
    ∷ [])

unfoldable pub terminal_data : TerminalRecord → Data
terminal_data r = record_of (
    ("schema_version", Data.text terminal_version)
    ∷ ("capability_id", Data.text r.claim.capability_id)
    ∷ ("authorization_commitment", Data.text r.claim.authorization_commitment)
    ∷ ("claim_commitment", Data.text r.claim.claim_commitment)
    ∷ ("terminal_state", Data.text (terminal_text r.terminal_state))
    ∷ ("terminal_commitment", Data.text r.terminal_commitment)
    ∷ ("reference_only", Data.boolean true)
    ∷ [])

abbrev is_text : String → Value → Bool
is_text s (Value.text t) = str_eq t s
is_text s v = false

abbrev is_boolean : Bool → Value → Bool
is_boolean true (Value.boolean b) = b
is_boolean false (Value.boolean b) = not b
is_boolean b v = false

unfoldable pub matching_text : (String → Bool) → ClaimError → Value → Result ClaimError String
matching_text pattern e (Value.text s) = if pattern s then ok s else err e
matching_text pattern e v = err e

-- `validateCapabilityId`
unfoldable pub validate_capability_id : Value → Result ClaimError String
unfolding matching_text
validate_capability_id = matching_text capability_id_pattern durable_invalid

-- `validateAuthorizationCommitment`
unfoldable pub validate_authorization_commitment : Value → Result ClaimError String
unfolding matching_text
validate_authorization_commitment = matching_text hash_pattern durable_invalid

-- `exactOwnData`, with the error that it throws
unfoldable pub own_data : List String → Value → Result ClaimError Snapshot
own_data keys v = elim (exact_own_data keys v) [ none ↦ err durable_invalid | some s ↦ ok s ]

-- `normalizePersistedValidation`
unfoldable pub normalize_persisted : {A : Type 0} → Result ClaimError A → Result ClaimError A
normalize_persisted (ok a) = ok a
normalize_persisted (err durable_invalid) = err durable_corrupt
normalize_persisted (err e) = err e

unfoldable pub claim_flags : Snapshot → Bool
claim_flags s =
    is_text claim_version (value_at "schema_version" s)
    && is_boolean true (value_at "reference_only" s)
    && is_boolean true (value_at "exclusive_claim_recorded" s)
    && is_boolean true (value_at "local_filesystem_atomicity_assumed" s)
    && is_boolean false (value_at "distributed_consensus_proved" s)
    && is_boolean false (value_at "network_filesystem_atomicity_proved" s)
    && is_boolean false (value_at "crash_recovery_proved" s)

-- `['CONSUMED_SUCCESS', 'CONSUMED_ERROR'].includes(record.terminal_state)`
unfoldable pub read_terminal : Value → Result ClaimError Terminal
read_terminal (Value.text s) =
    if str_eq s "CONSUMED_SUCCESS"
    then ok consumed_success
    else if str_eq s "CONSUMED_ERROR"
    then ok consumed_error
    else err durable_corrupt
read_terminal v = err durable_corrupt

abbrev pub from_payload : {A : Type 0} → Result PayloadError A → Result ClaimError A
from_payload (ok a) = ok a
from_payload (err e) = err (payload e)

module _ (p : Platform) where
  -- `makeClaimRecord`
  unfoldable pub make_claim_record : String → String → Result ClaimError ClaimRecord
  make_claim_record cap auth = do
    canonical ← from_payload (
        canonicalize_payload p (
          record_of (
            ("schema_version", Data.text claim_version)
            ∷ ("capability_id", Data.text cap)
            ∷ ("authorization_commitment", Data.text auth)
            ∷ [])))
    ok (record {
      capability_id = cap;
      authorization_commitment = auth;
      claim_commitment = p.sha256_hex (concat "swisstokint:pom-rx-durable-claim:v1:" canonical);
    })

  -- `makeTerminalRecord`
  unfoldable pub make_terminal_record : ClaimRecord → Terminal → Result ClaimError TerminalRecord
  make_terminal_record claim terminal = do
    canonical ← from_payload (
        canonicalize_payload p (
          record_of (
            ("schema_version", Data.text terminal_version)
            ∷ ("capability_id", Data.text claim.capability_id)
            ∷ ("authorization_commitment", Data.text claim.authorization_commitment)
            ∷ ("claim_commitment", Data.text claim.claim_commitment)
            ∷ ("terminal_state", Data.text (terminal_text terminal))
            ∷ [])))
    ok (record {
      claim = claim;
      terminal_state = terminal;
      terminal_commitment =
          p.sha256_hex (concat "swisstokint:pom-rx-durable-terminal:v1:" canonical);
    })

  -- `validateClaimRecord`
  unfoldable pub validate_claim_record : Value → Result ClaimError ClaimRecord
  unfolding own_data claim_flags validate_capability_id validate_authorization_commitment
      matching_text make_claim_record normalize_persisted
  validate_claim_record v = normalize_persisted (do
    s ← own_data claim_record_keys v
    guard (claim_flags s) durable_corrupt
    cap ← validate_capability_id (value_at "capability_id" s)
    auth ← validate_authorization_commitment (value_at "authorization_commitment" s)
    commitment ← matching_text hash_pattern durable_corrupt (value_at "claim_commitment" s)
    expected ← make_claim_record cap auth
    guard (str_eq expected.claim_commitment commitment) durable_corrupt
    ok expected)

  -- `validateTerminalRecord`
  unfoldable pub validate_terminal_record : Value → ClaimRecord → Result ClaimError TerminalRecord
  unfolding own_data read_terminal matching_text make_terminal_record normalize_persisted
  validate_terminal_record v claim = normalize_persisted (do
    s ← own_data terminal_record_keys v
    guard (is_text terminal_version (value_at "schema_version" s)) durable_corrupt
    guard (is_boolean true (value_at "reference_only" s)) durable_corrupt
    terminal ← read_terminal (value_at "terminal_state" s)
    guard (is_text claim.capability_id (value_at "capability_id" s)) durable_corrupt
    guard (is_text claim.authorization_commitment (value_at "authorization_commitment" s))
        durable_corrupt
    guard (is_text claim.claim_commitment (value_at "claim_commitment" s)) durable_corrupt
    commitment ← matching_text hash_pattern durable_corrupt (value_at "terminal_commitment" s)
    expected ← make_terminal_record claim terminal
    guard (str_eq expected.terminal_commitment commitment) durable_corrupt
    ok expected)
