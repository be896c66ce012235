-- ===== src/PomRx/Receipt.antt =====
-- `validatePomRxReceipt` and `commitPomRxReceipt`. Each failed assertion throws a TypeError; the
-- canonicalizer's errors pass through.
use Prim.Native.Nat.{Ordering}
use Prim.Native.String.{◌++◌ as concat}
use swisstokint_open_risk_in.Prelude.{
  String, Bool, true, false, Option, none, some, List, [], ◌∷◌, Result, ok, err, guard, ◌>>=◌, ◌>>◌,
  if◌then◌else◌, hash_pattern, id_pattern, source_key_id_pattern,
}
use swisstokint_open_risk_in.Data
use swisstokint_open_risk_in.Data.{Data, Items, get_field, record_of}
use swisstokint_open_risk_in.Platform.{Platform}
use swisstokint_open_risk_in.Canonical.{canonicalize_payload}
use swisstokint_open_risk_in.Merkle.Tree.{ProofError, type_error, payload}
use swisstokint_open_risk_in.Merkle.Batch.{assert_identifier}
use swisstokint_open_risk_in.Receipt.Wire.{has_keys}
use swisstokint_open_risk_in.Receipt.Anchor.{normalize_date_time}
use swisstokint_open_risk_in.PomRx.Parts.{
  Assertion, PomReceipt, Committed, phase_text, pom_version, is_outcome, read_phase,
  is_reference_text, is_pom_version, pom_receipt_keys, read_assertions, read_previous,
}

module _ (p : Platform) where
  rule_behind : Assertion → Assertion → Bool
  rule_behind a b = elim (p.locale_compare a.rule_id b.rule_id) [ Ordering.gt ↦ true | _ ↦ false ]

  insert_assertion : Assertion → List Assertion → List Assertion
  unfolding rule_behind
  insert_assertion a [] = a ∷ []
  insert_assertion a (x ∷ xs) =
      let behind = x ∷ insert_assertion a xs in if rule_behind a x then behind else a ∷ x ∷ xs

  -- `assertions.sort(…)`, which is stable
  unfoldable pub sort_assertions : List Assertion → List Assertion
  unfolding insert_assertion
  sort_assertions [] = []
  sort_assertions (a ∷ rest) = insert_assertion a (sort_assertions rest)

  unfoldable pub validate_pom_rx_receipt : Data → Result ProofError PomReceipt
  unfolding has_keys assert_identifier read_phase is_outcome is_reference_text read_assertions
      sort_assertions read_previous normalize_date_time
  validate_pom_rx_receipt (Data.object fs) = do
    guard (has_keys pom_receipt_keys fs) type_error
    version ← assert_identifier is_pom_version (get_field "schema_version" fs)
    receipt_id ← assert_identifier id_pattern (get_field "receipt_id" fs)
    run_id ← assert_identifier id_pattern (get_field "run_id" fs)
    phase ← read_phase (get_field "phase" fs)
    outcome ← assert_identifier (is_outcome phase) (get_field "outcome" fs)
    agent_ref ← assert_identifier is_reference_text (get_field "agent_ref" fs)
    subject_ref ← assert_identifier is_reference_text (get_field "subject_ref" fs)
    method_hash ← assert_identifier hash_pattern (get_field "method_hash" fs)
    policy_hash ← assert_identifier hash_pattern (get_field "policy_hash" fs)
    input_commitment ← assert_identifier hash_pattern (get_field "input_commitment" fs)
    action_commitment ← assert_identifier hash_pattern (get_field "action_commitment" fs)
    assertions ← read_assertions (get_field "assertions" fs)
    let sorted = sort_assertions assertions
    previous ← read_previous phase outcome sorted (get_field "previous_receipt_hash" fs)
    source_key_id ← assert_identifier source_key_id_pattern (get_field "source_key_id" fs)
    occurred_at ← normalize_date_time p (get_field "occurred_at" fs)
    ok (record {
      receipt_id = receipt_id;
      run_id = run_id;
      phase = phase;
      outcome = outcome;
      agent_ref = p.normalize_nfc agent_ref;
      subject_ref = p.normalize_nfc subject_ref;
      method_hash = method_hash;
      policy_hash = policy_hash;
      input_commitment = input_commitment;
      action_commitment = action_commitment;
      assertions = sorted;
      previous_receipt_hash = previous;
      occurred_at = occurred_at;
      source_key_id = source_key_id;
    })
  validate_pom_rx_receipt _ = err type_error

unfoldable pub assertion_items : List Assertion → Items
assertion_items [] = Data.nil
assertion_items (a ∷ rest) =
    Data.cons
      (record_of (
        ("rule_id", Data.text a.rule_id)
        ∷ ("rule_hash", Data.text a.rule_hash)
        ∷ ("result", Data.text a.result)
        ∷ ("proof_mode", Data.text a.proof_mode)
        ∷ ("evidence_hash", Data.text a.evidence_hash)
        ∷ []))
      (assertion_items rest)

abbrev hash_or_null : Option String → Data
hash_or_null none = Data.null
hash_or_null (some s) = Data.text s

-- The normalized receipt as the value that is committed to.
unfoldable pub pom_data : PomReceipt → Data
unfolding assertion_items
pom_data r = record_of (
    ("schema_version", Data.text pom_version)
    ∷ ("receipt_id", Data.text r.receipt_id)
    ∷ ("run_id", Data.text r.run_id)
    ∷ ("phase", Data.text (phase_text r.phase))
    ∷ ("outcome", Data.text r.outcome)
    ∷ ("agent_ref", Data.text r.agent_ref)
    ∷ ("subject_ref", Data.text r.subject_ref)
    ∷ ("method_hash", Data.text r.method_hash)
    ∷ ("policy_hash", Data.text r.policy_hash)
    ∷ ("input_commitment", Data.text r.input_commitment)
    ∷ ("action_commitment", Data.text r.action_commitment)
    ∷ ("assertions", Data.array (assertion_items r.assertions))
    ∷ ("previous_receipt_hash", hash_or_null r.previous_receipt_hash)
    ∷ ("occurred_at", Data.text r.occurred_at)
    ∷ ("source_key_id", Data.text r.source_key_id)
    ∷ [])

module _ (p : Platform) where
  canonical_receipt : PomReceipt → Result ProofError String
  unfolding pom_data
  canonical_receipt r = elim (canonicalize_payload p (pom_data r)) [
    | ok canonical ↦ ok canonical
    | err e ↦ err (payload e)
  ]

  -- `commitPomRxReceipt`
  unfoldable pub commit_pom_rx_receipt : Data → Result ProofError Committed
  unfolding validate_pom_rx_receipt canonical_receipt
  commit_pom_rx_receipt d = do
    r ← validate_pom_rx_receipt p d
    canonical ← canonical_receipt r
    ok (record {
      receipt = r;
      receipt_hash = p.sha256_hex (concat "swisstokint:pom-rx:v1:" canonical);
    })
