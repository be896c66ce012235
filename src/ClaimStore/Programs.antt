-- ===== src/ClaimStore/Programs.antt =====
-- `claim`, `complete` and `inspect` as programs.
use Prim.Native.String.{◌++◌ as concat, len}
use swisstokint_open_risk_in.Prelude.{
  ℕ, String, Bool, ◌&&◌, Option, none, some, [], ◌∷◌, Result, ok, err, guard, ◌>>=◌, ◌>>◌, leb,
  str_eq,
}
use swisstokint_open_risk_in.Data.{Data, null}
use swisstokint_open_risk_in.Platform.{Platform}
use swisstokint_open_risk_in.Canonical.{canonicalize_payload}
use swisstokint_open_risk_in.Value.{Value, embed}
use swisstokint_open_risk_in.Value.Exact.{value_at}
use swisstokint_open_risk_in.ClaimStore.Records.{
  ClaimError, durable_invalid, durable_corrupt, durable_io, durable_replay,
  durable_binding_mismatch, ClaimRecord, TerminalRecord, from_payload, own_data,
  validate_capability_id, validate_authorization_commitment, make_claim_record,
  validate_claim_record, validate_terminal_record, claim_data, terminal_data,
}
use swisstokint_open_risk_in.ClaimStore.Io.{
  Base, claim_json, terminal_json, Place, root_directory, capability_directory, record_file, lstat,
  mkdir, sync_directory, read_file, await_root, is_directory, Reply, done, eexist, enoent, stat,
  content, Io, ret, raise, call, ◌>>=ᵢ◌, lift, choose, attempt,
}
use swisstokint_open_risk_in.ClaimStore.Durable.{max_record_bytes, is_file, trusted, publish}

abbrev pub bounded_size : ℕ → Bool
bounded_size n = leb 2 n && leb n max_record_bytes

-- `makeInspection(…)`
pub data Inspection : Type 0 where
  absent : Inspection
  reserved_incomplete : String → Inspection
  reserved : ClaimRecord → Inspection
  finished : TerminalRecord → Inspection

module _ (p : Platform) (parse_json : String → Option Data) where
  unfoldable pub record_body : Data → Result ClaimError String
  record_body value = do
    canonical ← from_payload (canonicalize_payload p value)
    let body = concat canonical "\n"
    guard (leb (len body) max_record_bytes) durable_invalid
    ok body

  -- `writeExclusiveDurable`
  unfoldable pub write_exclusive : String → Base → ℕ → Data → Io Unit
  unfolding record_body publish
  write_exclusive cap base nonce value = lift (record_body value) >>=ᵢ publish cap base nonce

  -- A record that is the JSON text `null` is taken for one that is missing.
  unfoldable pub record_value : Data → Option Value
  record_value null = none
  record_value d = some (embed d)

  unfoldable pub after_read : Reply → Io (Option Value)
  unfolding record_value
  after_read (content s) = elim (parse_json s) [
    | none ↦ raise durable_corrupt
    | some d ↦ ret (record_value d)
  ]
  after_read _ = raise durable_io

  unfoldable pub after_lstat : Place → Reply → Io (Option Value)
  unfolding after_read
  after_lstat file enoent = ret none
  after_lstat file (stat kind size) =
      choose (is_file kind && bounded_size size) (call (read_file file) after_read)
        (raise durable_corrupt)
  after_lstat file _ = raise durable_io

  -- `readBoundedJson`
  unfoldable pub read_bounded_json : Place → Io (Option Value)
  unfolding after_lstat
  read_bounded_json file = call (lstat file) (after_lstat file)

  -- The validated input of `claim` and `inspect`.
  unfoldable pub request : Value → Result ClaimError (String × String)
  unfolding own_data validate_capability_id validate_authorization_commitment
  request input = do
    s ← own_data ("capabilityId" ∷ "authorizationCommitment" ∷ []) input
    cap ← validate_capability_id (value_at "capabilityId" s)
    auth ← validate_authorization_commitment (value_at "authorizationCommitment" s)
    ok (cap, auth)

  -- After `mkdir` of the capability's directory
  unfoldable pub after_mkdir : String → String → ℕ → Reply → Io ClaimRecord
  unfolding write_exclusive make_claim_record claim_data
  after_mkdir cap auth nonce done = attempt (sync_directory root_directory) (raise durable_io) (
      lift (make_claim_record p cap auth) >>=ᵢ λ r.
      write_exclusive cap claim_json nonce (claim_data r) >>=ᵢ λ u. ret r)
  after_mkdir cap auth nonce eexist = raise durable_replay
  after_mkdir cap auth nonce _ = raise durable_io

  unfoldable pub reserve_directory : ℕ → String × String → Io ClaimRecord
  unfolding after_mkdir trusted
  reserve_directory nonce (cap, auth) =
      call await_root
        (trusted (call (mkdir (capability_directory cap)) (after_mkdir cap auth nonce)))

  -- `claim`
  unfoldable pub claim : Value → ℕ → Io ClaimRecord
  unfolding request reserve_directory
  claim input nonce = lift (request input) >>=ᵢ reserve_directory nonce

  unfoldable pub same_claim : ClaimRecord → ClaimRecord → Bool
  same_claim r s =
      str_eq r.capability_id s.capability_id
      && str_eq r.authorization_commitment s.authorization_commitment
      && str_eq r.claim_commitment s.claim_commitment

  unfoldable pub persisted : ClaimRecord → Option Value → Result ClaimError Unit
  unfolding same_claim
  persisted claim none = err durable_corrupt
  persisted claim (some raw) = do
    r ← validate_claim_record p raw
    guard (same_claim r claim) durable_corrupt

  -- The `try` block of `complete`
  unfoldable pub finalize : ClaimRecord → TerminalRecord → ℕ → Io Inspection
  unfolding read_bounded_json persisted write_exclusive terminal_data
  finalize claim terminal nonce =
      read_bounded_json (record_file claim.capability_id claim_json) >>=ᵢ λ raw.
      lift (persisted claim raw) >>=ᵢ λ u.
      write_exclusive claim.capability_id terminal_json nonce (terminal_data terminal) >>=ᵢ λ v.
      ret (finished terminal)

  unfoldable pub inspect_terminal : ClaimRecord → Option Value → Result ClaimError Inspection
  inspect_terminal claim none = ok (reserved claim)
  inspect_terminal claim (some raw) = do t ← validate_terminal_record p raw claim; ok (finished t)

  unfoldable pub checked_claim : String → String → Value → Result ClaimError ClaimRecord
  checked_claim cap auth raw = do
    r ← validate_claim_record p raw
    guard (str_eq r.capability_id cap && str_eq r.authorization_commitment auth)
        durable_binding_mismatch
    ok r

  unfoldable pub inspect_claim : String → String → Option Value → Io Inspection
  unfolding read_bounded_json inspect_terminal checked_claim
  inspect_claim cap auth none = ret (reserved_incomplete cap)
  inspect_claim cap auth (some raw) = lift (checked_claim cap auth raw) >>=ᵢ λ r.
      read_bounded_json (record_file cap terminal_json) >>=ᵢ λ t. lift (inspect_terminal r t)

  unfoldable pub inspect_directory : String → String → Reply → Io Inspection
  unfolding read_bounded_json inspect_claim
  inspect_directory cap auth enoent = ret absent
  inspect_directory cap auth (stat is_directory size) =
      read_bounded_json (record_file cap claim_json) >>=ᵢ inspect_claim cap auth
  inspect_directory cap auth (stat _ size) = raise durable_corrupt
  inspect_directory cap auth _ = raise durable_io

  unfoldable pub inspect_trusted : String × String → Io Inspection
  unfolding inspect_directory trusted
  inspect_trusted (cap, auth) =
      call await_root
        (trusted (call (lstat (capability_directory cap)) (inspect_directory cap auth)))

  -- `inspect`
  unfoldable pub inspect : Value → Io Inspection
  unfolding request inspect_trusted
  inspect input = lift (request input) >>=ᵢ inspect_trusted
