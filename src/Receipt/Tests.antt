-- ===== src/Receipt/Tests.antt =====
-- Receipts and anchor records at concrete values.
use swisstokint_open_risk_in.Prelude.{
  ℕ, String, ◌≡◌, refl, subst, Bool, true, false, none, some, [], ◌∷◌, Result, ok, err, codes,
  ◌>>=◌, str_eq, hash_pattern, id_pattern, source_key_id_pattern, utf16_length, is_lower, is_alnum,
  is_id_code, if◌then◌else◌,
}
use swisstokint_open_risk_in.Data.{Data, record_of, text, number, nat, get_field, field_names}
use swisstokint_open_risk_in.Samples.{
  sample_platform, sample_parse, sample_iso, hash_a, hash_b, t0, t1, t2, t3,
}
use swisstokint_open_risk_in.Merkle.Tree.{ProofError}
use swisstokint_open_risk_in.Receipt.Wire.{
  WireReceipt, validate_wire_receipt, wire_data, is_subject,
}
use swisstokint_open_risk_in.Receipt.Anchor.{
  validate_anchor_record, AnchorRecord, anchor_data, network_pattern, is_reference,
  ends_with_offset,
}
use swisstokint_open_risk_in.Receipt.Stable.{NormalForms, validate_wire_receipt_stable}
use swisstokint_open_risk_in.Receipt.Anchored.{IsoForms, validate_anchor_record_stable}

-- The four instants that the sample calendar knows.
known_instants :
    (a b c d : Bool) (ms : ℕ)
    → (if a
        then some 0
        else if b
        then some 10000
        else if c
        then some 60000
        else if d
        then some 120000
        else none)
      ≡ some ms
    → sample_parse (sample_iso ms) ≡ some ms
unfolding sample_parse sample_iso
known_instants true b c d ms h =
    let e : 0 ≡ ms = cc in subst (λ m. sample_parse (sample_iso m) ≡ some m) e refl
known_instants false true c d ms h =
    let e : 10000 ≡ ms = cc in subst (λ m. sample_parse (sample_iso m) ≡ some m) e refl
known_instants false false true d ms h =
    let e : 60000 ≡ ms = cc in subst (λ m. sample_parse (sample_iso m) ≡ some m) e refl
known_instants false false false true ms h =
    let e : 120000 ≡ ms = cc in subst (λ m. sample_parse (sample_iso m) ≡ some m) e refl
known_instants false false false false ms h = absurd (cc)

sample_parse-iso :
    (s : String) (ms : ℕ) → sample_parse s ≡ some ms → sample_parse (sample_iso ms) ≡ some ms
unfolding sample_parse
sample_parse-iso s ms h =
    known_instants (str_eq s t0) (str_eq s t1) (str_eq s t2) (str_eq s t3) ms h

nfc_dates : NormalForms sample_platform
unfolding sample_platform
nfc_dates = record { nfc_twice = λ s. refl; iso_parses = sample_parse-iso }

abbrev receipt : WireReceipt
receipt = record {
  receipt_id = "receipt-000000000001";
  kind = "signal";
  subject_ref = "desk one";
  method_hash = hash_a;
  risk_policy_hash = hash_b;
  payload_hash = hash_a;
  occurred_at = t1;
  nonce = "nonce-00000000000001";
  source_key_id = "key-1";
}

receipt_valid : validate_wire_receipt sample_platform (wire_data receipt) ≡ ok receipt
unfolding validate_wire_receipt wire_data sample_platform ◌>>=◌ field_names get_field hash_pattern
    id_pattern source_key_id_pattern is_subject utf16_length
receipt_valid = refl

subject_valid : is_subject receipt.subject_ref ≡ true
unfolding is_subject utf16_length
subject_valid = refl

validate_wire_receipt_stable_example :
    validate_wire_receipt sample_platform (wire_data receipt) ≡ ok receipt
validate_wire_receipt_stable_example =
    validate_wire_receipt_stable sample_platform (wire_data receipt) receipt nfc_dates receipt_valid
      subject_valid

abbrev anchor : String → ℕ → Data
anchor status confirmations = record_of (
    ("schema_version", text "pom-anchor-record/0.1")
    ∷ ("adapter_id", text "filecoin/calibration")
    ∷ ("network", text "calibration")
    ∷ ("batch_ref", text "pom-aaaaaaaaaaaaaaaaaaaaaaaa")
    ∷ ("merkle_root", text hash_a)
    ∷ ("transaction_ref", text "tx")
    ∷ ("block_ref", text "block")
    ∷ ("anchored_at", text t0)
    ∷ ("observed_at", text t1)
    ∷ ("status", text status)
    ∷ ("confirmations", number (nat confirmations))
    ∷ [])

abbrev accepted : Result ProofError AnchorRecord → Bool
accepted (ok r) = true
accepted (err e) = false

anchor-accepted : accepted (validate_anchor_record sample_platform (anchor "finalized" 1)) ≡ true
unfolding validate_anchor_record sample_platform ◌>>=◌ field_names get_field hash_pattern
    utf16_length is_lower is_alnum is_id_code
anchor-accepted = refl

anchor-refused : accepted (validate_anchor_record sample_platform (anchor "finalized" 0)) ≡ false
unfolding validate_anchor_record sample_platform ◌>>=◌ field_names get_field hash_pattern
    utf16_length is_lower is_alnum is_id_code
anchor-refused = refl

known_offsets :
    (a b c d : Bool) (ms : ℕ)
    → (if a
        then some 0
        else if b
        then some 10000
        else if c
        then some 60000
        else if d
        then some 120000
        else none)
      ≡ some ms
    → ends_with_offset (codes (sample_iso ms)) ≡ true
unfolding sample_iso ends_with_offset
known_offsets true b c d ms h =
    let e : 0 ≡ ms = cc in subst (λ m. ends_with_offset (codes (sample_iso m)) ≡ true) e refl
known_offsets false true c d ms h =
    let e : 10000 ≡ ms = cc in subst (λ m. ends_with_offset (codes (sample_iso m)) ≡ true) e refl
known_offsets false false true d ms h =
    let e : 60000 ≡ ms = cc in subst (λ m. ends_with_offset (codes (sample_iso m)) ≡ true) e refl
known_offsets false false false true ms h =
    let e : 120000 ≡ ms = cc in subst (λ m. ends_with_offset (codes (sample_iso m)) ≡ true) e refl
known_offsets false false false false ms h = absurd (cc)

sample_offset :
    (s : String) (ms : ℕ)
    → sample_parse s ≡ some ms
    → ends_with_offset (codes (sample_iso ms)) ≡ true
unfolding sample_parse
sample_offset s ms h = known_offsets (str_eq s t0) (str_eq s t1) (str_eq s t2) (str_eq s t3) ms h

iso_dates : IsoForms sample_platform
unfolding sample_platform
iso_dates = record { forms = nfc_dates; iso_offset = sample_offset }

abbrev anchored : AnchorRecord
anchored = record {
  adapter_id = "filecoin/calibration";
  network = "calibration";
  batch_ref = "pom-aaaaaaaaaaaaaaaaaaaaaaaa";
  merkle_root = hash_a;
  transaction_ref = "tx";
  block_ref = "block";
  anchored_at = t0;
  observed_at = t1;
  status = "finalized";
  confirmations = 1;
}

anchored_valid : validate_anchor_record sample_platform (anchor "finalized" 1) ≡ ok anchored
unfolding validate_anchor_record sample_platform ◌>>=◌ field_names get_field hash_pattern
    utf16_length is_lower is_alnum is_id_code
anchored_valid = refl

network_valid : network_pattern anchored.network ≡ true
unfolding network_pattern is_alnum is_id_code
network_valid = refl

transaction_valid : is_reference anchored.transaction_ref ≡ true
unfolding is_reference utf16_length
transaction_valid = refl

block_valid : is_reference anchored.block_ref ≡ true
unfolding is_reference utf16_length
block_valid = refl

validate_anchor_record_stable_example :
    validate_anchor_record sample_platform (anchor_data sample_platform anchored) ≡ ok anchored
validate_anchor_record_stable_example =
    validate_anchor_record_stable sample_platform (anchor "finalized" 1) anchored iso_dates
      anchored_valid network_valid transaction_valid block_valid
