-- ===== src/PomRx/Parts.antt =====
-- The parts of a receipt, and the checks of each.
use swisstokint_open_risk_in.Prelude.{
  ℕ, String, Bool, ◌&&◌, ◌||◌, not, Option, none, some, List, [], ◌∷◌, map, Result, ok, err, guard,
  ◌>>=◌, ◌>>◌, leb, ◌==◌, if◌then◌else◌, str_eq, codes, in_range, utf16_length, any_of, all_of,
  hash_pattern, head_tail, is_lower, is_digit, mem_text,
}
use swisstokint_open_risk_in.Data
use swisstokint_open_risk_in.Data.{Data, Items, get_field, record_of}
use swisstokint_open_risk_in.Merkle.Tree.{ProofError, type_error}
use swisstokint_open_risk_in.Merkle.Batch.{assert_identifier, all_distinct}
use swisstokint_open_risk_in.Merkle.Verify.{items_length}
use swisstokint_open_risk_in.Receipt.Wire.{has_keys, is_space}

pub data Phase : Type 0 where
  preflight execution reconciliation : Phase

pub record Assertion : Type 0 where
  pub rule_id : String
  pub rule_hash : String
  pub result : String
  pub proof_mode : String
  pub evidence_hash : String

pub record PomReceipt : Type 0 where
  pub receipt_id : String
  pub run_id : String
  pub phase : Phase
  pub outcome : String
  pub agent_ref : String
  pub subject_ref : String
  pub method_hash : String
  pub policy_hash : String
  pub input_commitment : String
  pub action_commitment : String
  pub assertions : List Assertion
  -- `none` for null
  pub previous_receipt_hash : Option String
  pub occurred_at : String
  pub source_key_id : String

-- `{ receipt, receiptHash }` of `commitPomRxReceipt`
pub record Committed : Type 0 where
  pub receipt : PomReceipt
  pub receipt_hash : String

abbrev pub phase_text : Phase → String
phase_text preflight = "preflight"
phase_text execution = "execution"
phase_text reconciliation = "reconciliation"

abbrev pub pom_version : String
pom_version = "pom-rx/0.1"

is_rule_head : ℕ → Bool
is_rule_head c = is_lower c || is_digit c

is_rule_code : ℕ → Bool
is_rule_code c = is_lower c || is_digit c || c == b'.' || c == b'_' || c == b'-'

-- `RULE_ID_PATTERN`
unfoldable pub rule_id_pattern : String → Bool
unfolding is_rule_head is_rule_code head_tail
rule_id_pattern s = head_tail is_rule_head is_rule_code 2 63 (codes s)

-- `ASSERTION_RESULTS`, `PROOF_MODES`
abbrev is_result : String → Bool
is_result s = mem_text s ("pass" ∷ "fail" ∷ "not_evaluated" ∷ [])

abbrev is_proof_mode : String → Bool
is_proof_mode s = mem_text s ("commitment" ∷ "public" ∷ "zk" ∷ [])

-- `PHASE_OUTCOMES[phase].has(outcome)`
unfoldable pub is_outcome : Phase → String → Bool
is_outcome preflight s = mem_text s ("allow" ∷ "deny" ∷ [])
is_outcome execution s = mem_text s ("accepted" ∷ "rejected" ∷ "unresolved" ∷ [])
is_outcome reconciliation s = mem_text s ("matched" ∷ "mismatched" ∷ "unresolved" ∷ [])

-- `PHASES.includes(phase)`
unfoldable pub read_phase : Option Data → Result ProofError Phase
read_phase (some (Data.text s)) =
    if str_eq s "preflight"
    then ok preflight
    else if str_eq s "execution"
    then ok execution
    else if str_eq s "reconciliation"
    then ok reconciliation
    else err type_error
read_phase _ = err type_error

-- `agent_ref`, `subject_ref`
unfoldable pub is_reference_text : String → Bool
is_reference_text s =
    any_of (λ c. not (is_space c)) (codes s)
    && leb (utf16_length (codes s)) 256
    && not (any_of (λ c. leb c 31 || c == 127) (codes s))

abbrev pub is_pom_version : String → Bool
is_pom_version s = str_eq s pom_version

abbrev assertion_keys : List String
assertion_keys = "rule_id" ∷ "rule_hash" ∷ "result" ∷ "proof_mode" ∷ "evidence_hash" ∷ []

abbrev pub pom_receipt_keys : List String
pom_receipt_keys =
    "schema_version" ∷ "receipt_id" ∷ "run_id" ∷ "phase" ∷ "outcome" ∷ "agent_ref" ∷ "subject_ref"
    ∷ "method_hash" ∷ "policy_hash" ∷ "input_commitment" ∷ "action_commitment" ∷ "assertions"
    ∷ "previous_receipt_hash" ∷ "occurred_at" ∷ "source_key_id" ∷ []

-- `validateAssertion`
unfoldable pub validate_assertion : Data → Result ProofError Assertion
unfolding has_keys assert_identifier rule_id_pattern
validate_assertion (Data.object fs) = do
  guard (has_keys assertion_keys fs) type_error
  rule_id ← assert_identifier rule_id_pattern (get_field "rule_id" fs)
  rule_hash ← assert_identifier hash_pattern (get_field "rule_hash" fs)
  result ← assert_identifier is_result (get_field "result" fs)
  proof_mode ← assert_identifier is_proof_mode (get_field "proof_mode" fs)
  evidence_hash ← assert_identifier hash_pattern (get_field "evidence_hash" fs)
  ok (record {
    rule_id = rule_id;
    rule_hash = rule_hash;
    result = result;
    proof_mode = proof_mode;
    evidence_hash = evidence_hash;
  })
validate_assertion _ = err type_error

unfoldable pub validate_assertions : Items → Result ProofError (List Assertion)
unfolding validate_assertion
validate_assertions Data.nil = ok []
validate_assertions (Data.cons x xs) = do
  a ← validate_assertion x
  rest ← validate_assertions xs
  ok (a ∷ rest)

unfoldable pub read_assertions : Option Data → Result ProofError (List Assertion)
unfolding validate_assertions items_length all_distinct
read_assertions (some (Data.array xs)) = do
  guard (in_range 1 64 (items_length xs)) type_error
  assertions ← validate_assertions xs
  guard (all_distinct (map (λ a. a.rule_id) assertions)) type_error
  ok assertions
read_assertions _ = err type_error

-- `assertHash(receipt.previous_receipt_hash, …)`
read_previous_hash : Option Data → Result ProofError (Option String)
unfolding assert_identifier
read_previous_hash o = do s ← assert_identifier hash_pattern o; ok (some s)

-- `receipt.previous_receipt_hash === null`
read_null : Option Data → Result ProofError (Option String)
read_null (some Data.null) = ok none
read_null _ = err type_error

-- The outcome of a preflight agrees with its assertions.
unfoldable pub preflight_agrees : String → List Assertion → Bool
preflight_agrees outcome assertions =
    if str_eq outcome "allow"
    then all_of (λ a. str_eq a.result "pass") assertions
    else any_of (λ a. str_eq a.result "fail") assertions

unfoldable pub read_previous :
    Phase → String → List Assertion → Option Data → Result ProofError (Option String)
unfolding read_previous_hash read_null preflight_agrees
read_previous preflight outcome assertions o = do
  previous ← read_null o
  guard (preflight_agrees outcome assertions) type_error
  ok previous
read_previous _ outcome assertions o = read_previous_hash o
