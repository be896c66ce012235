-- ===== src/Receipt/Wire.antt =====
-- Wire receipts: `validateWireReceipt`, `createWireReceipt` and `prepareCommitment`. Each failed
-- assertion throws a TypeError; the canonicalizer's errors pass through.
use swisstokint_open_risk_in.Prelude.{
  ℕ, String, Bool, ◌&&◌, ◌||◌, not, Option, none, some, List, [], ◌∷◌, Result, ok, err, guard,
  ◌>>=◌, ◌>>◌, leb, ◌==◌, str_eq, codes, in_range, utf16_length, any_of, hash_pattern, id_pattern,
  source_key_id_pattern, mem_text,
}
use swisstokint_open_risk_in.Data.{
  Data, Fields, null, number, text, object, opaque, nat, get_field, field_names, record_of,
}
use swisstokint_open_risk_in.Platform.{Platform}
use swisstokint_open_risk_in.Canonical.{canonicalize_payload}
use swisstokint_open_risk_in.Canonical.Render.{canonicalize_value}
use swisstokint_open_risk_in.Value.Exact.{sort_texts, same_texts}
use swisstokint_open_risk_in.Merkle.Tree.{ProofError, type_error, payload}
use swisstokint_open_risk_in.Merkle.Batch.{assert_identifier, normalize_occurred_at}

pub record WireReceipt : Type 0 where
  pub receipt_id : String
  pub kind : String
  pub subject_ref : String
  pub method_hash : String
  pub risk_policy_hash : String
  pub payload_hash : String
  pub occurred_at : String
  pub nonce : String
  pub source_key_id : String

abbrev pub receipt_version : String
receipt_version = "pom-receipt/0.2"

abbrev pub receipt_keys : List String
receipt_keys =
    "schema_version" ∷ "receipt_id" ∷ "kind" ∷ "subject_ref" ∷ "method_hash" ∷ "risk_policy_hash"
    ∷ "payload_hash" ∷ "occurred_at" ∷ "nonce" ∷ "source_key_id" ∷ []

-- `KINDS`
unfoldable pub is_kind : String → Bool
is_kind s = mem_text s ("signal" ∷ "research" ∷ "governance" ∷ "milestone" ∷ [])

-- What `trim` removes: white space and line terminators.
abbrev pub is_space : ℕ → Bool
is_space c =
    in_range 9 13 c
    || c == 32
    || c == 160
    || c == 5760
    || in_range 8192 8202 c
    || c == 8232
    || c == 8233
    || c == 8239
    || c == 8287
    || c == 12288
    || c == 65279

-- `s.trim().length >= 1 && s.length <= 128`
unfoldable pub is_subject : String → Bool
is_subject s = any_of (λ c. not (is_space c)) (codes s) && leb (utf16_length (codes s)) 128

unfoldable pub is_version : String → Bool
is_version s = str_eq s receipt_version

-- The own keys are the expected ones, in any order.
unfoldable pub has_keys : List String → Fields → Bool
unfolding sort_texts same_texts
has_keys keys fs = same_texts (sort_texts (field_names fs)) (sort_texts keys)

-- `{ ...receipt }`, as the object that is sent.
unfoldable pub wire_data : WireReceipt → Data
wire_data r = record_of (
    ("schema_version", text receipt_version)
    ∷ ("receipt_id", text r.receipt_id)
    ∷ ("kind", text r.kind)
    ∷ ("subject_ref", text r.subject_ref)
    ∷ ("method_hash", text r.method_hash)
    ∷ ("risk_policy_hash", text r.risk_policy_hash)
    ∷ ("payload_hash", text r.payload_hash)
    ∷ ("occurred_at", text r.occurred_at)
    ∷ ("nonce", text r.nonce)
    ∷ ("source_key_id", text r.source_key_id)
    ∷ [])

module _ (p : Platform) where
  unfoldable pub validate_wire_receipt : Data → Result ProofError WireReceipt
  unfolding assert_identifier normalize_occurred_at has_keys is_version is_kind is_subject
  validate_wire_receipt (object fs) = do
    guard (has_keys receipt_keys fs) type_error
    version ← assert_identifier is_version (get_field "schema_version" fs)
    receipt_id ← assert_identifier id_pattern (get_field "receipt_id" fs)
    kind ← assert_identifier is_kind (get_field "kind" fs)
    subject_ref ← assert_identifier is_subject (get_field "subject_ref" fs)
    method_hash ← assert_identifier hash_pattern (get_field "method_hash" fs)
    risk_policy_hash ← assert_identifier hash_pattern (get_field "risk_policy_hash" fs)
    payload_hash ← assert_identifier hash_pattern (get_field "payload_hash" fs)
    nonce ← assert_identifier id_pattern (get_field "nonce" fs)
    source_key_id ← assert_identifier source_key_id_pattern (get_field "source_key_id" fs)
    occurred_at ← normalize_occurred_at p (get_field "occurred_at" fs)
    ok (record {
      receipt_id = receipt_id;
      kind = kind;
      subject_ref = p.normalize_nfc subject_ref;
      method_hash = method_hash;
      risk_policy_hash = risk_policy_hash;
      payload_hash = payload_hash;
      occurred_at = occurred_at;
      nonce = nonce;
      source_key_id = source_key_id;
    })
  validate_wire_receipt _ = err type_error

  -- `commitPayload`: the canonical payload and its hash.
  unfoldable pub commit_payload : Data → Result ProofError (String × String)
  commit_payload d = elim (canonicalize_payload p d) [
    | ok canonical ↦ ok (canonical, p.sha256_hex canonical)
    | err e ↦ err (payload e)
  ]

-- `event[key]`
abbrev value_of : Option Data → Data
value_of none = opaque
value_of (some d) = d

-- `a ?? b`
abbrev or_else : Option Data → Data → Data
or_else none b = b
or_else (some null) b = b
or_else (some opaque) b = b
or_else (some d) b = d

module _ (p : Platform) where
  -- `createWireReceipt`: two fresh UUIDs and the present time are the platform's.
  unfoldable pub create_wire_receipt :
      Data → Option Data → String → String → String → Result ProofError WireReceipt
  unfolding validate_wire_receipt commit_payload
  create_wire_receipt (object fs) source_key uuid_a uuid_b now = do
    (canonical, payload_hash) ← commit_payload p (value_of (get_field "payload" fs))
    validate_wire_receipt p (
        record_of (
          ("schema_version", text receipt_version)
          ∷ ("receipt_id", or_else (get_field "receipt_id" fs) (text uuid_a))
          ∷ ("kind", value_of (get_field "kind" fs))
          ∷ ("subject_ref", value_of (get_field "subject_ref" fs))
          ∷ ("method_hash", value_of (get_field "method_hash" fs))
          ∷ ("risk_policy_hash", value_of (get_field "risk_policy_hash" fs))
          ∷ ("payload_hash", text payload_hash)
          ∷ ("occurred_at", or_else (get_field "occurred_at" fs) (text now))
          ∷ ("nonce", or_else (get_field "nonce" fs) (text uuid_b))
          ∷ (
            "source_key_id",
            or_else (get_field "source_key_id" fs) (or_else source_key (text "proof-sdk-v2")),
          )
          ∷ []))
  create_wire_receipt _ source_key uuid_a uuid_b now = err type_error

  unfoldable pub public_commitment : WireReceipt → Data
  public_commitment r = record_of (
      ("version", number (nat 2))
      ∷ ("schema_version", text receipt_version)
      ∷ ("receipt_id", text r.receipt_id)
      ∷ ("kind", text r.kind)
      ∷ ("subject_ref", text r.subject_ref)
      ∷ ("method_hash", text r.method_hash)
      ∷ ("risk_policy_hash", text r.risk_policy_hash)
      ∷ ("payload_hash", text r.payload_hash)
      ∷ ("nonce_hash", text (p.sha256_hex r.nonce))
      ∷ ("occurred_at", text r.occurred_at)
      ∷ ("source_key_id", text r.source_key_id)
      ∷ [])

  -- `prepareCommitment`: the commitment's text and its hash.
  unfoldable pub prepare_commitment : Data → Result ProofError (String × String)
  unfolding validate_wire_receipt public_commitment
  prepare_commitment wire = do
    r ← validate_wire_receipt p wire
    let commitment = canonicalize_value p (public_commitment r)
    ok (commitment, p.sha256_hex commitment)
