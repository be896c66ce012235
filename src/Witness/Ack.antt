-- ===== src/Witness/Ack.antt =====
-- Acknowledgements: `createPomRxWitnessAck` and `verifyPomRxWitnessAck`.
use Prim.Native.String.{◌++◌ as concat}
use swisstokint_open_risk_in.Prelude.{
  ℕ, ◌+◌, String, Bool, true, false, ◌&&◌, not, Option, none, some, List, [], ◌∷◌, Result, ok, err,
  guard, ◌>>=◌, ◌>>◌, leb, str_eq, codes, in_range, utf16_length, hash_pattern, text_lt, mem_text,
  if◌then◌else◌,
}
use swisstokint_open_risk_in.Data
use swisstokint_open_risk_in.Data.{Data, Items, Fields, get_field, record_of}
use swisstokint_open_risk_in.Value.{Value}
use swisstokint_open_risk_in.Platform.{Platform}
use swisstokint_open_risk_in.Canonical.{canonicalize_payload}
use swisstokint_open_risk_in.Authorization.{key_id_pattern}
use swisstokint_open_risk_in.Merkle.Tree.{ProofError, type_error, payload}
use swisstokint_open_risk_in.Merkle.Batch.{assert_identifier}
use swisstokint_open_risk_in.Receipt.Wire.{has_keys}
use swisstokint_open_risk_in.Receipt.Anchor.{normalize_date_time}
use swisstokint_open_risk_in.PomRx.Parts.{Phase, preflight}
use swisstokint_open_risk_in.Witness.Crypto.{
  Crypto, to_ed25519_public_key, decode_public_key, decode_signature, pom_rx_key_id,
}
use swisstokint_open_risk_in.Witness.Envelope.{signed, verify_source_envelope}

-- The signed payload. `KEY_ID_PATTERN.test` turns its argument into a text, so that a key identifier
-- of the source may also be an array around one; it is kept as it came.
pub record AckPayload : Type 0 where
  pub receipt_hash : String
  pub receipt_id : String
  pub run_id : String
  pub outcome : String
  pub source_key_id : Data
  pub received_at : String
  pub valid_until : String
  pub mode : String
  pub witness_key_id : String

pub record Ack : Type 0 where
  pub payload : AckPayload
  pub witness_public_key : String
  pub witness_signature : String

pub record AckVerified : Type 0 where
  pub payload : AckPayload
  pub acknowledgement_hash : String

-- The `expected` argument; `none` for undefined. `unexpired_at` is the current time where
-- `requireUnexpired` is true, with the default of the source filled in by the caller.
pub record Expected : Type 0 where
  pub receipt_hash : Option Data
  pub receipt_id : Option Data
  pub run_id : Option Data
  pub outcome : Option Data
  pub source_key_id : Option Data
  pub mode : Option Data
  pub witness_key_id : Option Data
  pub unexpired_at : Option String

abbrev ack_version : String
ack_version = "pom-rx-witness-ack/0.1"

abbrev ack_keys : List String
ack_keys =
    "schema_version" ∷ "receipt_hash" ∷ "receipt_id" ∷ "run_id" ∷ "outcome" ∷ "source_key_id"
    ∷ "received_at" ∷ "valid_until" ∷ "mode" ∷ "witness_key_id" ∷ "witness_public_key"
    ∷ "witness_signature" ∷ []

abbrev pub is_ack_version : String → Bool
is_ack_version s = str_eq s ack_version

abbrev pub is_long_text : String → Bool
is_long_text s = leb 16 (utf16_length (codes s))

abbrev pub is_ack_outcome : String → Bool
is_ack_outcome s = mem_text s ("allow" ∷ "deny" ∷ [])

abbrev pub is_mode : String → Bool
is_mode s = mem_text s ("witnessed" ∷ "dry_run" ∷ [])

mutual
  -- `KEY_ID_PATTERN.test(value)`: no text of two or more items matches.
  tests_key_id : Data → Bool
  tests_key_id (Data.text s) = key_id_pattern s
  tests_key_id (Data.array xs) = tests_only_item xs
  tests_key_id _ = false

  tests_only_item : Items → Bool
  tests_only_item (Data.cons x Data.nil) = tests_key_id x
  tests_only_item _ = false

unfoldable pub tested_key_id : Option Data → Result ProofError Data
unfolding tests_key_id
tested_key_id none = err type_error
tested_key_id (some d) = if tests_key_id d then ok d else err type_error

-- `value === text`
abbrev pub is_text : String → Data → Bool
is_text s (Data.text t) = str_eq s t
is_text s _ = false

-- `ack.source_key_id === ack.witness_key_id`: two different arrays never are
abbrev pub same_data : Data → Data → Bool
same_data (Data.text s) d = is_text s d
same_data _ d = false

-- `pomRxKeyId(publicKey) === ack.witness_key_id`
unfoldable pub same_key_id : String → Data → Result ProofError String
same_key_id s d = if is_text s d then ok s else err type_error

-- `assert(ack[ackKey] === expected[expectedKey])` unless that is undefined
abbrev pub meets : Option Data → String → Bool
meets none s = true
meets (some d) s = is_text s d

-- The same for a value that may be an array: two arrays are one only by identity.
abbrev pub meets_data : Option Data → Data → Bool
meets_data none d = true
meets_data (some (Data.text s)) d = is_text s d
meets_data (some _) d = false

unfoldable pub meets_expectation : Expected → AckPayload → Bool
meets_expectation e a =
    meets e.receipt_hash a.receipt_hash
    && meets e.receipt_id a.receipt_id
    && meets e.run_id a.run_id
    && meets e.outcome a.outcome
    && meets_data e.source_key_id a.source_key_id
    && meets e.mode a.mode
    && meets e.witness_key_id a.witness_key_id

unfoldable pub ack_data : AckPayload → Data
ack_data a = record_of (
    ("schema_version", Data.text ack_version)
    ∷ ("receipt_hash", Data.text a.receipt_hash)
    ∷ ("receipt_id", Data.text a.receipt_id)
    ∷ ("run_id", Data.text a.run_id)
    ∷ ("outcome", Data.text a.outcome)
    ∷ ("source_key_id", a.source_key_id)
    ∷ ("received_at", Data.text a.received_at)
    ∷ ("valid_until", Data.text a.valid_until)
    ∷ ("mode", Data.text a.mode)
    ∷ ("witness_key_id", Data.text a.witness_key_id)
    ∷ [])

-- What `createPomRxWitnessAck` was called with, its defaults filled in.
pub record AckOptions : Type 0 where
  pub received_at : Option Data
  pub mode : Option Data
  pub valid_for_ms : Option Data

unfoldable pub read_valid_for : Option Data → Result ProofError ℕ
read_valid_for (some (Data.number (Data.nat n))) =
    if in_range 1000 300000 n then ok n else err type_error
read_valid_for _ = err type_error

abbrev pub is_preflight : Phase → Bool
is_preflight preflight = true
is_preflight _ = false

module _ (p : Platform) where
  -- `witnessSignatureMessage`
  unfoldable pub witness_signature_message : AckPayload → Result ProofError String
  unfolding ack_data
  witness_signature_message a = elim (canonicalize_payload p (ack_data a)) [
    | ok canonical ↦ ok (concat "swisstokint:pom-rx-witness-ack:v1:" canonical)
    | err e ↦ err (payload e)
  ]

  -- `new Date(text).getTime()` of a text that has an instant
  unfoldable pub instant_of : String → Result ProofError ℕ
  instant_of s = elim (p.date_parse s) [ none ↦ err type_error | some ms ↦ ok ms ]

  -- The current time lies between the two times, as texts.
  unfoldable pub check_unexpired : Option String → String → String → Result ProofError Unit
  unfolding normalize_date_time
  check_unexpired none received_at valid_until = ok tt
  check_unexpired (some now) received_at valid_until = do
    current ← normalize_date_time p (some (Data.text now))
    guard (not (text_lt current received_at)) type_error
    guard (not (text_lt valid_until current)) type_error

  module _ (c : Crypto) where
    -- `createPomRxWitnessAck`
    unfoldable pub create_witness_ack : Data → Value → AckOptions → Result ProofError Ack
    unfolding assert_identifier read_valid_for normalize_date_time witness_signature_message
        instant_of signed
    create_witness_ack envelope witness_private_key options = do
      verified ← verify_source_envelope p c envelope
      guard (is_preflight verified.receipt.phase) type_error
      mode ← assert_identifier is_mode options.mode
      valid_for_ms ← read_valid_for options.valid_for_ms
      received_at ← normalize_date_time p options.received_at
      received_ms ← instant_of received_at
      occurred_ms ← instant_of verified.receipt.occurred_at
      guard (leb occurred_ms received_ms) type_error
      key ← to_ed25519_public_key c witness_private_key
      guard (not (str_eq (pom_rx_key_id c key) verified.source_key_id)) type_error
      let signed_payload : AckPayload = record {
        receipt_hash = verified.receipt_hash;
        receipt_id = verified.receipt.receipt_id;
        run_id = verified.receipt.run_id;
        outcome = verified.receipt.outcome;
        source_key_id = Data.text verified.source_key_id;
        received_at = received_at;
        valid_until = p.to_iso_string (received_ms + valid_for_ms);
        mode = mode;
        witness_key_id = pom_rx_key_id c key;
      }
      message ← witness_signature_message signed_payload
      signature ← signed (c.sign message witness_private_key)
      ok (record {
        payload = signed_payload;
        witness_public_key = key.spki;
        witness_signature = signature;
      })

    -- `verifyPomRxWitnessAck` up to the comparison with what is expected
    unfoldable pub checked_ack : Data → Result ProofError AckVerified
    unfolding has_keys assert_identifier tested_key_id same_key_id normalize_date_time
        witness_signature_message instant_of
    checked_ack (Data.object fs) = do
      guard (has_keys ack_keys fs) type_error
      version ← assert_identifier is_ack_version (get_field "schema_version" fs)
      receipt_hash ← assert_identifier hash_pattern (get_field "receipt_hash" fs)
      receipt_id ← assert_identifier is_long_text (get_field "receipt_id" fs)
      run_id ← assert_identifier is_long_text (get_field "run_id" fs)
      outcome ← assert_identifier is_ack_outcome (get_field "outcome" fs)
      source_key_id ← tested_key_id (get_field "source_key_id" fs)
      mode ← assert_identifier is_mode (get_field "mode" fs)
      claimed_key_id ← tested_key_id (get_field "witness_key_id" fs)
      guard (not (same_data source_key_id claimed_key_id)) type_error
      received_at ← normalize_date_time p (get_field "received_at" fs)
      valid_until ← normalize_date_time p (get_field "valid_until" fs)
      received_ms ← instant_of received_at
      valid_ms ← instant_of valid_until
      guard (leb (received_ms + 1000) valid_ms && leb valid_ms (received_ms + 300000)) type_error
      key ← decode_public_key c (get_field "witness_public_key" fs)
      witness_key_id ← same_key_id (pom_rx_key_id c key) claimed_key_id
      let signed_payload : AckPayload = record {
        receipt_hash = receipt_hash;
        receipt_id = receipt_id;
        run_id = run_id;
        outcome = outcome;
        source_key_id = source_key_id;
        received_at = received_at;
        valid_until = valid_until;
        mode = mode;
        witness_key_id = witness_key_id;
      }
      message ← witness_signature_message signed_payload
      signature ← decode_signature c (get_field "witness_signature" fs)
      guard (c.verify message key signature) type_error
      ok (record { payload = signed_payload; acknowledgement_hash = p.sha256_hex message })
    checked_ack _ = err type_error

    -- `verifyPomRxWitnessAck`
    unfoldable pub verify_witness_ack : Data → Expected → Result ProofError AckVerified
    unfolding checked_ack check_unexpired meets_expectation
    verify_witness_ack d expected = do
      v ← checked_ack d
      guard (meets_expectation expected v.payload) type_error
      check_unexpired expected.unexpired_at v.payload.received_at v.payload.valid_until
      ok v
