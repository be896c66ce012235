-- ===== src/Receipt/Anchor.antt =====
-- Anchor records: `validateAnchorRecord` and `commitAnchorRecord`.
use Prim.Native.String.{◌++◌ as concat}
use swisstokint_open_risk_in.Prelude.{
  ℕ, String, Bool, false, ◌&&◌, ◌||◌, not, Option, none, some, List, [], ◌∷◌, Result, ok, err,
  guard, ◌>>=◌, ◌>>◌, leb, ◌==◌, if◌then◌else◌, str_eq, codes, in_range, utf16_length, any_of,
  hash_pattern, head_tail, tagged, is_alnum, is_digit, is_lower, is_hex, is_id_code, mem_text,
  text_lt,
}
use swisstokint_open_risk_in.Data.{Data, number, text, object, nat, get_field, record_of}
use swisstokint_open_risk_in.Platform.{Platform}
use swisstokint_open_risk_in.Canonical.Render.{canonicalize_value}
use swisstokint_open_risk_in.Merkle.Tree.{ProofError, type_error}
use swisstokint_open_risk_in.Merkle.Batch.{assert_identifier}
use swisstokint_open_risk_in.Receipt.Wire.{has_keys}

pub record AnchorRecord : Type 0 where
  pub adapter_id : String
  pub network : String
  pub batch_ref : String
  pub merkle_root : String
  pub transaction_ref : String
  pub block_ref : String
  pub anchored_at : String
  pub observed_at : String
  pub status : String
  pub confirmations : ℕ

abbrev pub anchor_version : String
anchor_version = "pom-anchor-record/0.1"

abbrev pub anchor_keys : List String
anchor_keys =
    "schema_version" ∷ "adapter_id" ∷ "network" ∷ "batch_ref" ∷ "merkle_root" ∷ "transaction_ref"
    ∷ "block_ref" ∷ "anchored_at" ∷ "observed_at" ∷ "status" ∷ "confirmations" ∷ []

is_adapter_code : ℕ → Bool
is_adapter_code c = is_lower c || is_digit c || c == b'.' || c == b'_' || c == b'/' || c == b'-'

is_adapter_head : ℕ → Bool
is_adapter_head c = is_lower c || is_digit c

-- `ADAPTER_ID_PATTERN`
unfoldable pub adapter_id_pattern : String → Bool
unfolding is_adapter_code is_adapter_head head_tail
adapter_id_pattern s = head_tail is_adapter_head is_adapter_code 2 63 (codes s)

is_network_code : ℕ → Bool
is_network_code c = is_id_code c || c == b':' || c == b'/'

unfoldable pub network_pattern : String → Bool
unfolding is_network_code head_tail
network_pattern s = head_tail is_alnum is_network_code 1 63 (codes s)

unfoldable pub batch_ref_pattern : String → Bool
unfolding tagged is_hex
batch_ref_pattern s = tagged (codes "pom-") is_hex 24 (codes s)

-- 1 to 256 code units, no control characters
unfoldable pub is_reference : String → Bool
is_reference s =
    in_range 1 256 (utf16_length (codes s)) && not (any_of (λ c. leb c 31 || c == 127) (codes s))

unfoldable pub is_status : String → Bool
is_status s = mem_text s ("observed" ∷ "finalized" ∷ "revoked" ∷ "orphaned" ∷ [])

unfoldable pub is_anchor_version : String → Bool
is_anchor_version s = str_eq s anchor_version

-- `/(Z|[+-]\d{2}:\d{2})$/`
unfoldable pub ends_with_offset : List ℕ → Bool
ends_with_offset [] = false
ends_with_offset (c ∷ []) = c == b'Z'
ends_with_offset (c ∷ d ∷ e ∷ f ∷ g ∷ h ∷ []) =
    ((c == b'+' || c == b'-') && is_digit d && is_digit e && f == b':' && is_digit g && is_digit h)
    || h == b'Z'
ends_with_offset (c ∷ d ∷ s) = ends_with_offset (d ∷ s)

unfoldable pub read_confirmations : Option Data → Result ProofError ℕ
read_confirmations (some (number (nat n))) = if leb n 1000000000 then ok n else err type_error
read_confirmations _ = err type_error

module _ (p : Platform) where
  unfoldable pub dated : Option ℕ → Result ProofError String
  dated none = err type_error
  dated (some ms) = ok (p.to_iso_string ms)

  -- `normalizeDateTime`
  unfoldable pub normalize_date_time : Option Data → Result ProofError String
  unfolding dated ends_with_offset
  normalize_date_time (some (text s)) =
      if ends_with_offset (codes s) then dated (p.date_parse s) else err type_error
  normalize_date_time _ = err type_error

  unfoldable pub validate_anchor_record : Data → Result ProofError AnchorRecord
  unfolding assert_identifier has_keys is_anchor_version adapter_id_pattern network_pattern
      batch_ref_pattern is_reference is_status read_confirmations normalize_date_time
  validate_anchor_record (object fs) = do
    guard (has_keys anchor_keys fs) type_error
    version ← assert_identifier is_anchor_version (get_field "schema_version" fs)
    adapter_id ← assert_identifier adapter_id_pattern (get_field "adapter_id" fs)
    network ← assert_identifier network_pattern (get_field "network" fs)
    batch_ref ← assert_identifier batch_ref_pattern (get_field "batch_ref" fs)
    merkle_root ← assert_identifier hash_pattern (get_field "merkle_root" fs)
    transaction_ref ← assert_identifier is_reference (get_field "transaction_ref" fs)
    block_ref ← assert_identifier is_reference (get_field "block_ref" fs)
    status ← assert_identifier is_status (get_field "status" fs)
    confirmations ← read_confirmations (get_field "confirmations" fs)
    guard (not (str_eq status "finalized") || leb 1 confirmations) type_error
    anchored_at ← normalize_date_time (get_field "anchored_at" fs)
    observed_at ← normalize_date_time (get_field "observed_at" fs)
    guard (not (text_lt observed_at anchored_at)) type_error
    ok (record {
      adapter_id = adapter_id;
      network = p.normalize_nfc network;
      batch_ref = batch_ref;
      merkle_root = merkle_root;
      transaction_ref = p.normalize_nfc transaction_ref;
      block_ref = p.normalize_nfc block_ref;
      anchored_at = anchored_at;
      observed_at = observed_at;
      status = status;
      confirmations = confirmations;
    })
  validate_anchor_record _ = err type_error

  unfoldable pub anchor_data : AnchorRecord → Data
  anchor_data r = record_of (
      ("schema_version", text anchor_version)
      ∷ ("adapter_id", text r.adapter_id)
      ∷ ("network", text r.network)
      ∷ ("batch_ref", text r.batch_ref)
      ∷ ("merkle_root", text r.merkle_root)
      ∷ ("transaction_ref", text r.transaction_ref)
      ∷ ("block_ref", text r.block_ref)
      ∷ ("anchored_at", text r.anchored_at)
      ∷ ("observed_at", text r.observed_at)
      ∷ ("status", text r.status)
      ∷ ("confirmations", number (nat r.confirmations))
      ∷ [])

  -- `commitAnchorRecord`: the normalized record, its canonical text and its hash.
  unfoldable pub commit_anchor_record : Data → Result ProofError (AnchorRecord × String × String)
  unfolding validate_anchor_record anchor_data
  commit_anchor_record d = do
    r ← validate_anchor_record d
    let canonical = canonicalize_value p (anchor_data r)
    ok (r, canonical, p.sha256_hex (concat "swisstokint:pom-anchor-record:v1:" canonical))
