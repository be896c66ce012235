-- ===== src/Receipt/Anchored.antt =====
-- What the validator of anchor records promises of a record that it returns.
use swisstokint_open_risk_in.Prelude.{
  ℕ, String, ◌≡◌, ◌≤◌, refl, sym, ap, ◌∙◌, inl, inr, Bool-cases, codes, ◌>>=◌, Bool, true, false,
  ◌||◌, not, Option, none, some, arith, ok, err, guard, leb, Ensures, Ensures-bind, Ensures-ok,
  ok-inj, hash_pattern, str_eq, eq_iff, if◌then◌else◌, text_lt,
}
use swisstokint_open_risk_in.Data.{
  Data, null, boolean, number, text, array, object, opaque, get_field, field_names, nat, neg,
  inexact,
}
use swisstokint_open_risk_in.Platform.{Platform}
use swisstokint_open_risk_in.Value.Exact.{sort_texts, same_texts}
use swisstokint_open_risk_in.Merkle.Batch.{assert_identifier}
use swisstokint_open_risk_in.Receipt.Wire.{has_keys}
use swisstokint_open_risk_in.Merkle.Tree.{ProofError, type_error}
use swisstokint_open_risk_in.Receipt.Stable.{assert_identifier-eq_ok, IsIso, NormalForms}
use swisstokint_open_risk_in.Receipt.Anchor.{
  AnchorRecord, validate_anchor_record, normalize_date_time, dated, read_confirmations,
  batch_ref_pattern, is_status, adapter_id_pattern, network_pattern, is_reference,
  is_anchor_version, ends_with_offset, anchor_data,
}

guard-true : (b : Bool) (e : ProofError) (u : Unit) → guard b e ≡ ok u → b ≡ true
guard-true true e u h = refl
guard-true false e u h = absurd (cc)

confirmations-le : (o : Option Data) (n : ℕ) → read_confirmations o ≡ ok n → n ≤ 1000000000
unfolding read_confirmations
confirmations-le none n h = absurd (cc)
confirmations-le (some (number (nat m))) n h = ground arith
confirmations-le (some (number (neg m))) n h = absurd (cc)
confirmations-le (some (number (inexact m))) n h = absurd (cc)
confirmations-le (some (text t)) n h = absurd (cc)
confirmations-le (some null) n h = absurd (cc)
confirmations-le (some (boolean b)) n h = absurd (cc)
confirmations-le (some (array xs)) n h = absurd (cc)
confirmations-le (some (object fs)) n h = absurd (cc)
confirmations-le (some opaque) n h = absurd (cc)

finalized_lem :
    (s : String) (n : ℕ)
    → (s ≡ "finalized" → 1 ≤ n)
    → (not (str_eq s "finalized") || leb 1 n) ≡ true
finalized_lem s n h = elim (Bool-cases (str_eq s "finalized")) [
  | inl e ↦ let z = h ((eq_iff s "finalized").0 e) in ground arith
  | inr e ↦ ground arith
]

-- Documented behaviour of `Date`, beside that of NormalForms: `toISOString` ends in an offset.
pub record IsoForms (p : Platform) : Type 0 where
  pub forms : NormalForms p
  pub iso_offset :
      (s : String) (ms : ℕ)
      → p.date_parse s ≡ some ms
      → ends_with_offset (codes (p.to_iso_string ms)) ≡ true

module _ (p : Platform) where
  -- The normal form of an allowed text
  pub record IsNormal (pattern : String → Bool) (t : String) : Type 0 where
    pub source : String
    pub allowed : pattern source ≡ true
    pub same : p.normalize_nfc source ≡ t

  pub record IsAnchor (r : AnchorRecord) : Type 0 where
    pub adapter_id : adapter_id_pattern r.adapter_id ≡ true
    pub network : IsNormal network_pattern r.network
    pub transaction_ref : IsNormal is_reference r.transaction_ref
    pub block_ref : IsNormal is_reference r.block_ref
    pub batch_ref : batch_ref_pattern r.batch_ref ≡ true
    pub merkle_root : hash_pattern r.merkle_root ≡ true
    pub status : is_status r.status ≡ true
    pub confirmed : r.status ≡ "finalized" → 1 ≤ r.confirmations
    pub bounded : r.confirmations ≤ 1000000000
    pub anchored_at : IsIso p r.anchored_at
    pub observed_at : IsIso p r.observed_at
    pub in_order : text_lt r.observed_at r.anchored_at ≡ false

  dated-IsIso :
      (s : String) (o : Option ℕ) (t : String) → p.date_parse s ≡ o → dated p o ≡ ok t → IsIso p t
  unfolding dated
  dated-IsIso s none t e h = absurd (cc)
  dated-IsIso s (some ms) t e h = record { source = s; ms = ms; parses = e; same = ok-inj h }

  offset-IsIso :
      (b : Bool) (s t : String)
      → (if b then dated p (p.date_parse s) else err type_error) ≡ ok t
      → IsIso p t
  offset-IsIso true s t h = dated-IsIso s _ t refl h
  offset-IsIso false s t h = absurd (cc)

  date_time-IsIso : (o : Option Data) (t : String) → normalize_date_time p o ≡ ok t → IsIso p t
  unfolding normalize_date_time
  date_time-IsIso none t h = absurd (cc)
  date_time-IsIso (some (text s)) t h = offset-IsIso _ s t h
  date_time-IsIso (some null) t h = absurd (cc)
  date_time-IsIso (some (boolean b)) t h = absurd (cc)
  date_time-IsIso (some (number n)) t h = absurd (cc)
  date_time-IsIso (some (array xs)) t h = absurd (cc)
  date_time-IsIso (some (object fs)) t h = absurd (cc)
  date_time-IsIso (some opaque) t h = absurd (cc)

  confirmed_lem :
      (s : String) (n : ℕ)
      → (not (str_eq s "finalized") || leb 1 n) ≡ true
      → s ≡ "finalized"
      → 1 ≤ n
  confirmed_lem s n h e = ground (arith, eq_iff s "finalized")

  normal :
      (pattern : String → Bool) (o : Option Data) (s : String)
      → assert_identifier pattern o ≡ ok s
      → IsNormal pattern (p.normalize_nfc s)
  normal pattern o s h = record {
    source = s;
    allowed = assert_identifier-eq_ok pattern o s h;
    same = refl;
  }

  refused : Ensures IsAnchor (err type_error)
  refused = record { at = λ r q. cc }

  validate_anchor_record-IsAnchor : (d : Data) → Ensures IsAnchor (validate_anchor_record p d)
  unfolding validate_anchor_record
  validate_anchor_record-IsAnchor (object fs) = Ensures-bind _ _ λ u hu.
      Ensures-bind _ _ λ version hv. Ensures-bind _ _ λ adapter_id h1.
        Ensures-bind _ _ λ network h2. Ensures-bind _ _ λ batch_ref h3.
          Ensures-bind _ _ λ merkle_root h4. Ensures-bind _ _ λ transaction_ref h5.
            Ensures-bind _ _ λ block_ref h6. Ensures-bind _ _ λ status h7.
              Ensures-bind _ _ λ confirmations h8. Ensures-bind _ _ λ v h9.
                Ensures-bind _ _ λ anchored_at h10. Ensures-bind _ _ λ observed_at h11.
                  Ensures-bind _ _ λ w h12. Ensures-ok _ (record {
                    adapter_id =
                        assert_identifier-eq_ok adapter_id_pattern (get_field "adapter_id" fs)
                          adapter_id h1;
                    network = normal network_pattern (get_field "network" fs) network h2;
                    transaction_ref =
                        normal is_reference (get_field "transaction_ref" fs) transaction_ref h5;
                    block_ref = normal is_reference (get_field "block_ref" fs) block_ref h6;
                    batch_ref =
                        assert_identifier-eq_ok batch_ref_pattern (get_field "batch_ref" fs)
                          batch_ref h3;
                    merkle_root =
                        assert_identifier-eq_ok hash_pattern (get_field "merkle_root" fs)
                          merkle_root h4;
                    status = assert_identifier-eq_ok is_status (get_field "status" fs) status h7;
                    confirmed = confirmed_lem status confirmations (guard-true _ _ _ h9);
                    bounded = confirmations-le (get_field "confirmations" fs) confirmations h8;
                    anchored_at = date_time-IsIso (get_field "anchored_at" fs) anchored_at h10;
                    observed_at = date_time-IsIso (get_field "observed_at" fs) observed_at h11;
                    in_order = ground (
                      arith,
                      guard-true (not (text_lt observed_at anchored_at)) type_error w h12,
                    );
                  })
  validate_anchor_record-IsAnchor null = refused
  validate_anchor_record-IsAnchor (boolean b) = refused
  validate_anchor_record-IsAnchor (number n) = refused
  validate_anchor_record-IsAnchor (text s) = refused
  validate_anchor_record-IsAnchor (array xs) = refused
  validate_anchor_record-IsAnchor opaque = refused

  iso-date_time :
      (t : String) → IsoForms p → IsIso p t → normalize_date_time p (some (text t)) ≡ ok t
  unfolding normalize_date_time dated
  iso-date_time t n i =
      let e : p.date_parse t ≡ some i.ms =
        ap p.date_parse (sym i.same) ∙ n.forms.iso_parses i.source i.ms i.parses in
      let z : ends_with_offset (codes t) ≡ true =
        ap (λ x. ends_with_offset (codes x)) (sym i.same) ∙ n.iso_offset i.source i.ms i.parses in
      rw (z, e) (ap ok i.same)

  normal_twice :
      (pattern : String → Bool) (t : String)
      → IsoForms p
      → IsNormal pattern t
      → p.normalize_nfc t ≡ t
  normal_twice pattern t n i = ap p.normalize_nfc (sym i.same) ∙ n.forms.nfc_twice i.source ∙ i.same

  IsAnchor-validates :
      (r : AnchorRecord)
      → IsoForms p
      → IsAnchor r
      → network_pattern r.network ≡ true
      → is_reference r.transaction_ref ≡ true
      → is_reference r.block_ref ≡ true
      → validate_anchor_record p (anchor_data p r) ≡ ok r
  unfolding validate_anchor_record anchor_data assert_identifier has_keys field_names get_field
      sort_texts same_texts is_anchor_version read_confirmations ◌>>=◌
  IsAnchor-validates r n i a b c =
      let few : leb r.confirmations 1000000000 ≡ true = ground (arith, i.bounded) in
      let known : (not (str_eq r.status "finalized") || leb 1 r.confirmations) ≡ true =
        finalized_lem r.status r.confirmations i.confirmed in
      let net = normal_twice network_pattern r.network n i.network in
      let tx = normal_twice is_reference r.transaction_ref n i.transaction_ref in
      let block = normal_twice is_reference r.block_ref n i.block_ref in
      rw (i.adapter_id, a, i.batch_ref, i.merkle_root, b, c, i.status, few, known)
        (rw
          (iso-date_time r.anchored_at n i.anchored_at, iso-date_time r.observed_at n i.observed_at)
          (rw i.in_order (rw (net, tx, block) refl)))

  -- If normalising texts twice is normalising them once, the text of an instant denotes it and ends in
  -- an offset, then an anchor record that validation returned is validated to itself, provided that its
  -- normalized network and references are still allowed: validation checks them before it normalizes
  -- them.
  pub validate_anchor_record_stable :
      (d : Data) (r : AnchorRecord)
      → IsoForms p
      → validate_anchor_record p d ≡ ok r
      → network_pattern r.network ≡ true
      → is_reference r.transaction_ref ≡ true
      → is_reference r.block_ref ≡ true
      → validate_anchor_record p (anchor_data p r) ≡ ok r
  validate_anchor_record_stable d r n h a b c =
      IsAnchor-validates r n ((validate_anchor_record-IsAnchor d).at r h) a b c
