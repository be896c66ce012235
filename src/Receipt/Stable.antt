-- ===== src/Receipt/Stable.antt =====
-- What the two validators accept, and that a receipt in its normal form is validated to itself.
use swisstokint_open_risk_in.Prelude.{
  ℕ, String, ◌≡◌, refl, sym, ap, ◌∙◌, Bool, true, Option, none, some, arith, ok, err, ◌>>=◌,
  Ensures, Ensures-bind, Ensures-ok, ok-inj, hash_pattern, id_pattern, source_key_id_pattern,
}
use swisstokint_open_risk_in.Data.{
  Data, null, boolean, number, text, array, object, opaque, get_field, field_names,
}
use swisstokint_open_risk_in.Platform.{Platform}
use swisstokint_open_risk_in.Value.Exact.{sort_texts, same_texts}
use swisstokint_open_risk_in.Merkle.Tree.{type_error}
use swisstokint_open_risk_in.Merkle.Batch.{assert_identifier, normalize_occurred_at, occurred_iso}
use swisstokint_open_risk_in.Receipt.Wire.{
  WireReceipt, validate_wire_receipt, wire_data, is_kind, is_subject, is_version, has_keys,
}

-- Documented behaviour of `String.prototype.normalize` and of `Date`: normalising twice is normalising
-- once, and the text of an instant denotes that instant.
pub record NormalForms (p : Platform) : Type 0 where
  pub nfc_twice : (s : String) → p.normalize_nfc (p.normalize_nfc s) ≡ p.normalize_nfc s
  pub iso_parses :
      (s : String) (ms : ℕ) → p.date_parse s ≡ some ms → p.date_parse (p.to_iso_string ms) ≡ some ms

-- A text that came out of `toISOString`.
pub record IsIso (p : Platform) (t : String) : Type 0 where
  pub source : String
  pub ms : ℕ
  pub parses : p.date_parse source ≡ some ms
  pub same : p.to_iso_string ms ≡ t

pub assert_identifier-eq_ok :
    (pattern : String → Bool) (o : Option Data) (s : String)
    → assert_identifier pattern o ≡ ok s
    → pattern s ≡ true
unfolding assert_identifier
assert_identifier-eq_ok pattern none s h = absurd (cc)
assert_identifier-eq_ok pattern (some (text t)) s h = ground arith
assert_identifier-eq_ok pattern (some null) s h = absurd (cc)
assert_identifier-eq_ok pattern (some (boolean b)) s h = absurd (cc)
assert_identifier-eq_ok pattern (some (number n)) s h = absurd (cc)
assert_identifier-eq_ok pattern (some (array xs)) s h = absurd (cc)
assert_identifier-eq_ok pattern (some (object fs)) s h = absurd (cc)
assert_identifier-eq_ok pattern (some opaque) s h = absurd (cc)

module _ (p : Platform) where
  -- What validation promises of a receipt.
  pub record IsReceipt (r : WireReceipt) : Type 0 where
    pub receipt_id : id_pattern r.receipt_id ≡ true
    pub kind : is_kind r.kind ≡ true
    pub subject : String
    pub subject_nfc : p.normalize_nfc subject ≡ r.subject_ref
    pub method_hash : hash_pattern r.method_hash ≡ true
    pub risk_policy_hash : hash_pattern r.risk_policy_hash ≡ true
    pub payload_hash : hash_pattern r.payload_hash ≡ true
    pub nonce : id_pattern r.nonce ≡ true
    pub source_key_id : source_key_id_pattern r.source_key_id ≡ true
    pub occurred_at : IsIso p r.occurred_at

  IsIso-of_parsed :
      (s : String) (o : Option ℕ) (t : String)
      → p.date_parse s ≡ o
      → occurred_iso p o ≡ ok t
      → IsIso p t
  unfolding occurred_iso
  IsIso-of_parsed s none t e h = absurd (cc)
  IsIso-of_parsed s (some ms) t e h = record { source = s; ms = ms; parses = e; same = ok-inj h }

  occurred_at-IsIso : (o : Option Data) (t : String) → normalize_occurred_at p o ≡ ok t → IsIso p t
  unfolding normalize_occurred_at
  occurred_at-IsIso none t h = absurd (cc)
  occurred_at-IsIso (some (text s)) t h = IsIso-of_parsed s _ t refl h
  occurred_at-IsIso (some null) t h = absurd (cc)
  occurred_at-IsIso (some (boolean b)) t h = absurd (cc)
  occurred_at-IsIso (some (number n)) t h = absurd (cc)
  occurred_at-IsIso (some (array xs)) t h = absurd (cc)
  occurred_at-IsIso (some (object fs)) t h = absurd (cc)
  occurred_at-IsIso (some opaque) t h = absurd (cc)

  refused-Ensures : Ensures IsReceipt (err type_error)
  refused-Ensures = record { at = λ r q. cc }

  pub validate_wire_receipt-IsReceipt : (d : Data) → Ensures IsReceipt (validate_wire_receipt p d)
  unfolding validate_wire_receipt
  validate_wire_receipt-IsReceipt (object fs) = Ensures-bind _ _ λ u hu.
      Ensures-bind _ _ λ version hv. Ensures-bind _ _ λ receipt_id h1. Ensures-bind _ _ λ kind h2.
        Ensures-bind _ _ λ subject h3. Ensures-bind _ _ λ method_hash h4.
          Ensures-bind _ _ λ risk_policy_hash h5. Ensures-bind _ _ λ payload_hash h6.
            Ensures-bind _ _ λ nonce h7. Ensures-bind _ _ λ source_key_id h8.
              Ensures-bind _ _ λ occurred_at h9. Ensures-ok _ (record {
                receipt_id = assert_identifier-eq_ok id_pattern _ _ h1;
                kind = assert_identifier-eq_ok is_kind (get_field "kind" fs) kind h2;
                subject = subject;
                subject_nfc = refl;
                method_hash = assert_identifier-eq_ok hash_pattern _ _ h4;
                risk_policy_hash = assert_identifier-eq_ok hash_pattern _ _ h5;
                payload_hash = assert_identifier-eq_ok hash_pattern _ _ h6;
                nonce = assert_identifier-eq_ok id_pattern _ _ h7;
                source_key_id = assert_identifier-eq_ok source_key_id_pattern _ _ h8;
                occurred_at = occurred_at-IsIso _ _ h9;
              })
  validate_wire_receipt-IsReceipt null = refused-Ensures
  validate_wire_receipt-IsReceipt (boolean b) = refused-Ensures
  validate_wire_receipt-IsReceipt (number n) = refused-Ensures
  validate_wire_receipt-IsReceipt (text s) = refused-Ensures
  validate_wire_receipt-IsReceipt (array xs) = refused-Ensures
  validate_wire_receipt-IsReceipt opaque = refused-Ensures

  iso-occurred_at :
      (t : String) → NormalForms p → IsIso p t → normalize_occurred_at p (some (text t)) ≡ ok t
  unfolding normalize_occurred_at occurred_iso
  iso-occurred_at t n i =
      let e : p.date_parse t ≡ some i.ms =
        ap p.date_parse (sym i.same) ∙ n.iso_parses i.source i.ms i.parses in
      rw e (ap ok i.same)

  IsReceipt-validates :
      (r : WireReceipt)
      → NormalForms p
      → IsReceipt r
      → is_subject r.subject_ref ≡ true
      → validate_wire_receipt p (wire_data r) ≡ ok r
  unfolding validate_wire_receipt wire_data assert_identifier has_keys field_names get_field
      sort_texts same_texts is_version ◌>>=◌
  IsReceipt-validates r n i s =
      let nfc : p.normalize_nfc r.subject_ref ≡ r.subject_ref =
        ap p.normalize_nfc (sym i.subject_nfc) ∙ n.nfc_twice i.subject ∙ i.subject_nfc in
      rw i.receipt_id (
        rw i.kind (
          rw s (
            rw i.method_hash (
              rw i.risk_policy_hash (
                rw i.payload_hash (
                  rw i.nonce (
                    rw i.source_key_id
                      (rw (iso-occurred_at r.occurred_at n i.occurred_at) (rw nfc refl)))))))))

  -- If normalising texts twice is normalising them once and the text of an instant denotes it, then a
  -- receipt that validation returned is validated to itself, provided that its normalized subject
  -- still has an allowed length: validation measures the subject before it normalizes it.
  pub validate_wire_receipt_stable :
      (d : Data) (r : WireReceipt)
      → NormalForms p
      → validate_wire_receipt p d ≡ ok r
      → is_subject r.subject_ref ≡ true
      → validate_wire_receipt p (wire_data r) ≡ ok r
  validate_wire_receipt_stable d r n h s =
      IsReceipt-validates r n ((validate_wire_receipt-IsReceipt d).at r h) s
