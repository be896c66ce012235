-- ===== src/Trust/Records.antt =====
-- The state of a trust lifecycle, its errors, and the parts that its operations share. An operation
-- samples the trusted clock, which changes the state even if the operation fails later, then computes
-- the prospective records, which are committed only if nothing failed.
use swisstokint_open_risk_in.Prelude.{
  ℕ, ◌+◌, String, Bool, true, false, ◌&&◌, not, Option, none, some, List, [], ◌∷◌, Result, ok, err,
  guard, ◌>>=◌, ◌>>◌, ltb, leb, str_eq, mem_text, if◌then◌else◌, any_of,
}
use swisstokint_open_risk_in.Platform.{Platform}
use swisstokint_open_risk_in.Value.{Value, Sample, sampled, clock_threw, is_function}
use swisstokint_open_risk_in.Value.Exact.{Snapshot, value_at, snapshot_exact_data_object}
use swisstokint_open_risk_in.Canonical.Safe.{PayloadError}
use swisstokint_open_risk_in.Authorization.{canonical_instant, key_id_pattern}
use swisstokint_open_risk_in.Dict.{Dict, values}
use swisstokint_open_risk_in.Witness.Crypto.{KeyObject, Crypto, to_ed25519_public_key}

-- The codes of `PomRxWitnessTrustError`, and the errors of the canonicalizer that pass through.
pub data TrustError : Type 0 where
  trust_invalid time_invalid time_rollback key_invalid capacity transition_invalid : TrustError
  duplicate not_enrolled : TrustError
  trust_payload : PayloadError → TrustError

pub data Role : Type 0 where
  source witness : Role

pub data Status : Type 0 where
  active revoked rotated recovered : Status

pub record Identity : Type 0 where
  pub key_id : String
  pub role : Role
  pub public_key_spki : String
  pub enrolled_at : String
  pub valid_until : String
  pub status : Status
  -- `none` for null
  pub predecessor_key_id : Option String
  pub transition_at : Option String
  pub transition_reason : Option String

pub record Trust : Type 0 where
  pub records : Dict Identity
  pub revision : ℕ
  pub last_trusted_time_ms : Option ℕ

-- The result of `buildSnapshot`
pub record TrustSnapshot : Type 0 where
  pub revision : ℕ
  pub identities : List Identity
  pub trust_state_hash : String

-- What `stageMutation` prepares.
pub record Prepared : Type 0 where
  pub records : Dict Identity
  pub revision : ℕ
  pub trust : TrustSnapshot

-- How a call ends: the state that it leaves, and its result.
pub record Reply (A : Type 0) : Type 0 where
  pub state : Trust
  pub result : Result TrustError A

abbrev pub max_identities : ℕ
max_identities = 32

abbrev pub min_validity_ms : ℕ
min_validity_ms = 1000

abbrev pub max_validity_ms : ℕ
max_validity_ms = 31622400000

-- The private state with which a lifecycle starts.
abbrev pub new_trust : Trust
new_trust = record { records = []; revision = 0; last_trusted_time_ms = none }

-- `createReferenceWitnessTrustLifecycle`
unfoldable pub create_lifecycle : Value → Result TrustError Trust
create_lifecycle options = elim (snapshot_exact_data_object ("trustedClock" ∷ []) options) [
  | none ↦ err trust_invalid
  | some s ↦ if is_function (value_at "trustedClock" s) then ok new_trust else err trust_invalid
]

-- `snapshotExactReferences`
unfoldable pub captured_input : List String → Value → Result TrustError Snapshot
captured_input keys input = elim (snapshot_exact_data_object keys input) [
  | none ↦ err trust_invalid
  | some s ↦ ok s
]

-- `validateKeyId`
unfoldable pub validate_key_id : Value → Result TrustError String
validate_key_id (Value.text s) = if key_id_pattern s then ok s else err key_invalid
validate_key_id v = err key_invalid

-- `validateRole`
unfoldable pub validate_role : Value → Result TrustError Role
validate_role (Value.text s) =
    if str_eq s "source"
    then ok source
    else if str_eq s "witness"
    then ok witness
    else err trust_invalid
validate_role v = err trust_invalid

-- `REVOCATION_REASONS.has(reason)`, `RECOVERY_REASONS.has(reason)`
unfoldable pub validate_reason : List String → Value → Result TrustError String
validate_reason reasons (Value.text s) = if mem_text s reasons then ok s else err trust_invalid
validate_reason reasons v = err trust_invalid

-- `toEd25519PublicKey`
unfoldable pub to_public_key : Crypto → Value → Result TrustError KeyObject
to_public_key c v = elim (to_ed25519_public_key c v) [ ok k ↦ ok k | err e ↦ err key_invalid ]

abbrev pub is_active : Status → Bool
is_active active = true
is_active _ = false

-- `record.predecessor_key_id === keyId`
abbrev pub succeeds_key : String → Identity → Bool
succeeds_key k r = elim r.predecessor_key_id [ none ↦ false | some j ↦ str_eq j k ]

-- `ensureNoSuccessor`
unfoldable pub ensure_no_successor : String → Dict Identity → Result TrustError Unit
ensure_no_successor k d = guard (not (any_of (succeeds_key k) (values d))) transition_invalid

module _ (p : Platform) where
  unfoldable pub canonical_utc : Value → Result TrustError ℕ
  canonical_utc v = elim (canonical_instant p v) [ none ↦ err time_invalid | some ms ↦ ok ms ]

  unfoldable pub read_clock : Sample → Result TrustError ℕ
  unfolding canonical_utc
  read_clock clock_threw = err time_invalid
  read_clock (sampled v) = canonical_utc v

  abbrev pub goes_back : ℕ → Option ℕ → Bool
  goes_back now none = false
  goes_back now (some last) = ltb now last

  abbrev pub advance : Trust → Result TrustError ℕ → Reply ℕ
  advance t (err e) = record { state = t; result = err e }
  advance t (ok now) =
      if goes_back now t.last_trusted_time_ms
      then record { state = t; result = err time_rollback }
      else record { state = record t { last_trusted_time_ms = some now }; result = ok now }

  -- `sampleTrustedClock`
  unfoldable pub sample_trust_clock : Trust → Sample → Reply ℕ
  unfolding read_clock
  sample_trust_clock t s = advance t (read_clock s)

  -- `validateValidityWindow`; a negative duration is refused too.
  unfoldable pub validate_validity_window : ℕ → Value → Result TrustError ℕ
  unfolding canonical_utc
  validate_validity_window now valid_until = do
    expiry ← canonical_utc valid_until
    guard (leb (now + min_validity_ms) expiry && leb expiry (now + max_validity_ms)) time_invalid
    ok expiry

  -- Comparisons with NaN are false.
  abbrev pub is_before : ℕ → Option ℕ → Bool
  is_before now none = false
  is_before now (some t) = ltb now t

  abbrev pub has_reached : ℕ → Option ℕ → Bool
  has_reached now none = false
  has_reached now (some t) = leb t now

  abbrev pub has_passed : ℕ → Option String → Bool
  has_passed now none = false
  has_passed now (some s) = has_reached now (p.date_parse s)

  -- `recordActiveAt`
  unfoldable pub record_active_at : Identity → ℕ → Bool
  record_active_at r now =
      not (is_before now (p.date_parse r.enrolled_at))
      && not (has_reached now (p.date_parse r.valid_until))
      && not (has_passed now r.transition_at)
