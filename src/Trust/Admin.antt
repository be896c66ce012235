-- ===== src/Trust/Admin.antt =====
-- The operations of the administrator: `enrollIdentity`, `revokeIdentity`, `rotateIdentity` and
-- `recoverIdentity`.
use swisstokint_open_risk_in.Prelude.{
  ℕ, String, ◌&&◌, ◌||◌, not, Option, none, some, List, [], ◌∷◌, Result, ok, err, guard, ◌>>=◌,
  ◌>>◌, str_eq,
}
use swisstokint_open_risk_in.Platform.{Platform}
use swisstokint_open_risk_in.Value.{Value, Sample}
use swisstokint_open_risk_in.Value.Exact.{Snapshot, value_at}
use swisstokint_open_risk_in.Dict.{Dict, lookup, contains, insert}
use swisstokint_open_risk_in.Witness.Crypto.{KeyObject, Crypto, pom_rx_key_id}
use swisstokint_open_risk_in.Trust.Records.{
  TrustError, transition_invalid, duplicate, not_enrolled, Role, Status, active, revoked, rotated,
  recovered, Identity, Trust, TrustSnapshot, Prepared, Reply, captured_input, validate_key_id,
  validate_role, validate_reason, to_public_key, is_active, ensure_no_successor, sample_trust_clock,
  validate_validity_window, record_active_at,
}
use swisstokint_open_risk_in.Trust.Snapshots.{stage_mutation, after_sample}

abbrev enrollment_keys : List String
enrollment_keys = "publicKey" ∷ "role" ∷ "validUntil" ∷ []

abbrev revocation_keys : List String
revocation_keys = "keyId" ∷ "reason" ∷ []

abbrev rotation_keys : List String
rotation_keys = "predecessorKeyId" ∷ "successorPublicKey" ∷ "validUntil" ∷ []

abbrev recovery_keys : List String
recovery_keys = "compromisedKeyId" ∷ "successorPublicKey" ∷ "validUntil" ∷ "reason" ∷ []

abbrev revocation_reasons : List String
revocation_reasons = "compromise" ∷ "retired" ∷ "operator" ∷ "policy" ∷ []

abbrev recovery_reasons : List String
recovery_reasons = "compromise" ∷ "lost" ∷ "operator_recovery" ∷ []

-- `records.get(keyId)`, which must be there
unfoldable pub enrolled_record : String → Dict Identity → Result TrustError Identity
enrolled_record k d = elim (lookup k d) [ none ↦ err not_enrolled | some r ↦ ok r ]

-- `{ ...existing, status, transition_at, transition_reason }`
abbrev pub ended : Identity → Status → String → String → Identity
ended r status at reason = record r {
  status = status;
  transition_at = some at;
  transition_reason = some reason;
}

-- What a replacement was asked for.
pub record Replacement : Type 0 where
  pub predecessor : Value
  pub successor_public_key : Value
  pub valid_until : Value
  pub status : Status
  pub reason : String

-- The identities that an operation returns.
pub data Change : Type 0 where
  one : Identity → Change
  two : Identity → Identity → Change

module _ (p : Platform) (c : Crypto) where
  -- A record that has just been made.
  abbrev pub new_identity : KeyObject → Role → ℕ → ℕ → Option String → Identity
  new_identity key role now expiry predecessor = record {
    key_id = pom_rx_key_id c key;
    role = role;
    public_key_spki = key.spki;
    enrolled_at = p.to_iso_string now;
    valid_until = p.to_iso_string expiry;
    status = active;
    predecessor_key_id = predecessor;
    transition_at = none;
    transition_reason = none;
  }

  -- `enrollIdentity`, from the sample of the clock on
  unfoldable pub enroll_at : Snapshot → Trust → ℕ → Result TrustError (Prepared × Change)
  unfolding to_public_key validate_validity_window validate_role stage_mutation
  enroll_at s t now = do
    key ← to_public_key c (value_at "publicKey" s)
    guard (not (contains (pom_rx_key_id c key) t.records)) duplicate
    expiry ← validate_validity_window p now (value_at "validUntil" s)
    role ← validate_role (value_at "role" s)
    prepared ←
        stage_mutation p t
          (insert (pom_rx_key_id c key) (new_identity key role now expiry none) t.records)
    ok (prepared, one (new_identity key role now expiry none))

  -- `revokeIdentity`, from the sample of the clock on
  unfoldable pub revoke_at : Snapshot → Trust → ℕ → Result TrustError (Prepared × Change)
  unfolding validate_key_id validate_reason enrolled_record stage_mutation
  revoke_at s t now = do
    key_id ← validate_key_id (value_at "keyId" s)
    reason ← validate_reason revocation_reasons (value_at "reason" s)
    existing ← enrolled_record key_id t.records
    guard (is_active existing.status) transition_invalid
    prepared ←
        stage_mutation p t
          (insert key_id (ended existing revoked (p.to_iso_string now) reason) t.records)
    ok (prepared, one (ended existing revoked (p.to_iso_string now) reason))

  -- `replaceIdentity`, from the sample of the clock on
  unfoldable pub replace_at : Replacement → Trust → ℕ → Result TrustError (Prepared × Change)
  unfolding validate_key_id enrolled_record record_active_at ensure_no_successor to_public_key
      validate_validity_window stage_mutation
  replace_at r t now = do
    predecessor ← validate_key_id r.predecessor
    existing ← enrolled_record predecessor t.records
    guard (is_active existing.status && record_active_at p existing now) transition_invalid
    ensure_no_successor predecessor t.records
    key ← to_public_key c r.successor_public_key
    guard
        (not (str_eq (pom_rx_key_id c key) predecessor || contains (pom_rx_key_id c key) t.records))
        duplicate
    expiry ← validate_validity_window p now r.valid_until
    prepared ← stage_mutation p t (
        insert (pom_rx_key_id c key) (new_identity key existing.role now expiry (some predecessor))
          (insert predecessor (ended existing r.status (p.to_iso_string now) r.reason) t.records))
    ok (
      prepared,
      two (ended existing r.status (p.to_iso_string now) r.reason)
          (new_identity key existing.role now expiry (some predecessor)),
    )

  abbrev pub Answer : Type 0
  Answer = Reply (TrustSnapshot × Change)

  -- The captured input, or its refusal before the clock is read.
  unfoldable pub with_input :
      {A : Type 0}
      → Result TrustError A
      → Sample
      → Trust
      → (A → Trust → ℕ → Result TrustError (Prepared × Change))
      → Answer
  unfolding sample_trust_clock after_sample
  with_input (err e) sample t body = record { state = t; result = err e }
  with_input (ok a) sample t body =
      let o = sample_trust_clock p t sample in after_sample o.state o.result (body a)

  unfoldable pub enroll_identity : Value → Sample → Trust → Answer
  unfolding captured_input enroll_at with_input
  enroll_identity input sample t =
      with_input (captured_input enrollment_keys input) sample t enroll_at

  unfoldable pub revoke_identity : Value → Sample → Trust → Answer
  unfolding captured_input revoke_at with_input
  revoke_identity input sample t =
      with_input (captured_input revocation_keys input) sample t revoke_at

  unfoldable pub rotation : Value → Result TrustError Replacement
  unfolding captured_input
  rotation input = do
    s ← captured_input rotation_keys input
    ok (record {
      predecessor = value_at "predecessorKeyId" s;
      successor_public_key = value_at "successorPublicKey" s;
      valid_until = value_at "validUntil" s;
      status = rotated;
      reason = "key_rotation";
    })

  unfoldable pub rotate_identity : Value → Sample → Trust → Answer
  unfolding rotation replace_at with_input
  rotate_identity input sample t = with_input (rotation input) sample t replace_at

  unfoldable pub recovery : Value → Result TrustError Replacement
  unfolding captured_input validate_reason
  recovery input = do
    s ← captured_input recovery_keys input
    reason ← validate_reason recovery_reasons (value_at "reason" s)
    ok (record {
      predecessor = value_at "compromisedKeyId" s;
      successor_public_key = value_at "successorPublicKey" s;
      valid_until = value_at "validUntil" s;
      status = recovered;
      reason = reason;
    })

  unfoldable pub recover_identity : Value → Sample → Trust → Answer
  unfolding recovery replace_at with_input
  recover_identity input sample t = with_input (recovery input) sample t replace_at
