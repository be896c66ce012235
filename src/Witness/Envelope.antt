-- ===== src/Witness/Envelope.antt =====
-- Source envelopes: `createPomRxSourceEnvelope` and `verifyPomRxSourceEnvelope`.
use Prim.Native.String.{◌++◌ as concat}
use swisstokint_open_risk_in.Prelude.{
  String, Bool, Option, none, some, List, [], ◌∷◌, Result, ok, err, guard, ◌>>=◌, ◌>>◌, str_eq,
  hash_pattern,
}
use swisstokint_open_risk_in.Data.{Data, text, object, get_field, record_of}
use swisstokint_open_risk_in.Value.{Value}
use swisstokint_open_risk_in.Platform.{Platform}
use swisstokint_open_risk_in.Merkle.Tree.{ProofError, type_error}
use swisstokint_open_risk_in.Merkle.Batch.{assert_identifier}
use swisstokint_open_risk_in.Receipt.Wire.{has_keys}
use swisstokint_open_risk_in.PomRx.Parts.{PomReceipt, Committed}
use swisstokint_open_risk_in.PomRx.Receipt.{pom_data, commit_pom_rx_receipt}
use swisstokint_open_risk_in.Witness.Crypto.{
  Crypto, to_ed25519_public_key, decode_public_key, decode_signature, pom_rx_key_id,
}

pub record SourceEnvelope : Type 0 where
  pub receipt : PomReceipt
  pub receipt_hash : String
  pub source_public_key : String
  pub source_signature : String

-- What a verified envelope shows.
pub record SourceVerified : Type 0 where
  pub receipt : PomReceipt
  pub receipt_hash : String
  pub source_key_id : String

abbrev source_envelope_version : String
source_envelope_version = "pom-rx-source-envelope/0.1"

abbrev envelope_keys : List String
envelope_keys =
    "schema_version" ∷ "receipt" ∷ "receipt_hash" ∷ "source_public_key" ∷ "source_signature" ∷ []

abbrev pub is_envelope_version : String → Bool
is_envelope_version s = str_eq s source_envelope_version

-- `sourceSignatureMessage`
abbrev pub source_signature_message : String → String
source_signature_message receipt_hash = concat "swisstokint:pom-rx-source:v1:" receipt_hash

unfoldable pub envelope_data : SourceEnvelope → Data
unfolding pom_data
envelope_data e = record_of (
    ("schema_version", text source_envelope_version)
    ∷ ("receipt", pom_data e.receipt)
    ∷ ("receipt_hash", text e.receipt_hash)
    ∷ ("source_public_key", text e.source_public_key)
    ∷ ("source_signature", text e.source_signature)
    ∷ [])

unfoldable pub signed : Option String → Result ProofError String
signed none = err type_error
signed (some s) = ok s

module _ (p : Platform) (c : Crypto) where
  -- A missing receipt is refused as any value that is no object.
  unfoldable pub commit_envelope_receipt : Option Data → Result ProofError Committed
  commit_envelope_receipt none = err type_error
  commit_envelope_receipt (some d) = commit_pom_rx_receipt p d

  unfoldable pub create_source_envelope : Data → Value → Result ProofError SourceEnvelope
  unfolding signed
  create_source_envelope receipt source_private_key = do
    committed ← commit_pom_rx_receipt p receipt
    key ← to_ed25519_public_key c source_private_key
    guard (str_eq committed.receipt.source_key_id (pom_rx_key_id c key)) type_error
    signature ← signed (c.sign (source_signature_message committed.receipt_hash) source_private_key)
    ok (record {
      receipt = committed.receipt;
      receipt_hash = committed.receipt_hash;
      source_public_key = key.spki;
      source_signature = signature;
    })

  unfoldable pub verify_source_envelope : Data → Result ProofError SourceVerified
  unfolding has_keys assert_identifier
  verify_source_envelope (object fs) = do
    guard (has_keys envelope_keys fs) type_error
    version ← assert_identifier is_envelope_version (get_field "schema_version" fs)
    receipt_hash ← assert_identifier hash_pattern (get_field "receipt_hash" fs)
    committed ← commit_envelope_receipt (get_field "receipt" fs)
    guard (str_eq committed.receipt_hash receipt_hash) type_error
    key ← decode_public_key c (get_field "source_public_key" fs)
    guard (str_eq committed.receipt.source_key_id (pom_rx_key_id c key)) type_error
    signature ← decode_signature c (get_field "source_signature" fs)
    guard (c.verify (source_signature_message receipt_hash) key signature) type_error
    ok (record {
      receipt = committed.receipt;
      receipt_hash = committed.receipt_hash;
      source_key_id = pom_rx_key_id c key;
    })
  verify_source_envelope _ = err type_error
