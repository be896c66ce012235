-- ===== src/PomRx/Chain.antt =====
-- `assertPomRxChain` and `verifyPomRxChain`.
use Prim.Native.String.{◌++◌ as concat}
use swisstokint_open_risk_in.Prelude.{
  ℕ, ◌+◌, String, Bool, false, ◌&&◌, ◌||◌, not, Option, none, some, List, [], ◌∷◌, map, Result, ok,
  err, guard, ◌>>=◌, ◌>>◌, leb, ◌==◌, if◌then◌else◌, str_eq, text_lt, in_range, length, is_some,
}
use swisstokint_open_risk_in.Data
use swisstokint_open_risk_in.Data.{Data, Items}
use swisstokint_open_risk_in.Platform.{Platform}
use swisstokint_open_risk_in.Merkle.Tree.{ProofError, type_error}
use swisstokint_open_risk_in.Merkle.Verify.{items_length}
use swisstokint_open_risk_in.PomRx.Parts.{
  Phase, preflight, execution, reconciliation, PomReceipt, Committed, phase_text,
}
use swisstokint_open_risk_in.PomRx.Receipt.{commit_pom_rx_receipt}

-- `PHASES.indexOf(phase)`
abbrev pub phase_index : Phase → ℕ
phase_index preflight = 0
phase_index execution = 1
phase_index reconciliation = 2

abbrev pub same_phase : Phase → Phase → Bool
same_phase a b = phase_index a == phase_index b

abbrev pub is_hash : Option String → String → Bool
is_hash none h = false
is_hash (some s) h = str_eq s h

-- The fields that do not change within a chain.
unfoldable pub same_run : PomReceipt → PomReceipt → Bool
same_run a b =
    str_eq a.run_id b.run_id
    && str_eq a.agent_ref b.agent_ref
    && str_eq a.subject_ref b.subject_ref
    && str_eq a.method_hash b.method_hash
    && str_eq a.policy_hash b.policy_hash

-- What the loop asks of a receipt, of the one before it and of the first.
unfoldable pub follows : Committed → Committed → Committed → Bool
unfolding same_run
follows first previous current =
    phase_index current.receipt.phase == phase_index previous.receipt.phase + 1
    && is_hash current.receipt.previous_receipt_hash previous.receipt_hash
    && not (text_lt current.receipt.occurred_at previous.receipt.occurred_at)
    && same_run current.receipt first.receipt

unfoldable pub linked : Committed → Committed → List Committed → Result ProofError Unit
unfolding follows
linked first previous [] = ok tt
linked first previous (c ∷ cs) = do guard (follows first previous c) type_error; linked first c cs

-- `committed.find(({ receipt }) => receipt.phase === phase)`
unfoldable pub find_phase : Phase → List Committed → Option Committed
find_phase q [] = none
find_phase q (c ∷ cs) = if same_phase c.receipt.phase q then some c else find_phase q cs

abbrev pub has_outcome : String → Option Committed → Bool
has_outcome s none = false
has_outcome s (some c) = str_eq c.receipt.outcome s

-- What is asked of a chain whose preflight was allowed.
unfoldable pub complete_chain : Bool → List Committed → Result ProofError Unit
unfolding find_phase
complete_chain allow_partial committed = do
  guard (allow_partial || leb 2 (length committed)) type_error
  guard
      (not (has_outcome "accepted" (find_phase execution committed) && not allow_partial)
        || is_some (find_phase reconciliation committed))
      type_error
  guard
      (not (has_outcome "rejected" (find_phase execution committed))
        || not (is_some (find_phase reconciliation committed)))
      type_error

unfoldable pub check_chain : Bool → List Committed → Result ProofError Unit
unfolding linked complete_chain
check_chain allow_partial [] = err type_error
check_chain allow_partial (first ∷ rest) = do
  guard (same_phase first.receipt.phase preflight) type_error
  linked first first rest
  if str_eq first.receipt.outcome "deny"
      then guard (length (first ∷ rest) == 1) type_error
      else complete_chain allow_partial (first ∷ rest)

pub data Verdict : Type 0 where
  -- the status, and the hashes of the receipts
  verified : String → List String → Verdict
  refused : Verdict

-- `${last.phase}:${last.outcome}`
unfoldable pub last_status : List Committed → String
last_status [] = ""
last_status (c ∷ []) = concat (phase_text c.receipt.phase) (concat ":" c.receipt.outcome)
last_status (c ∷ d ∷ cs) = last_status (d ∷ cs)

module _ (p : Platform) where
  unfoldable pub commit_all : Items → Result ProofError (List Committed)
  unfolding commit_pom_rx_receipt
  commit_all Data.nil = ok []
  commit_all (Data.cons x xs) = do c ← commit_pom_rx_receipt p x; cs ← commit_all xs; ok (c ∷ cs)

  unfoldable pub assert_pom_rx_chain : Bool → Data → Result ProofError (List Committed)
  unfolding commit_all check_chain items_length
  assert_pom_rx_chain allow_partial (Data.array xs) = do
    guard (in_range 1 3 (items_length xs)) type_error
    committed ← commit_all xs
    checked ← check_chain allow_partial committed
    ok committed
  assert_pom_rx_chain allow_partial _ = err type_error

  verdict : Result ProofError (List Committed) → Verdict
  unfolding last_status
  verdict (ok cs) = verified (last_status cs) (map (λ c. c.receipt_hash) cs)
  verdict (err e) = refused

  unfoldable pub verify_pom_rx_chain : Bool → Data → Verdict
  unfolding assert_pom_rx_chain verdict
  verify_pom_rx_chain allow_partial receipts = verdict (assert_pom_rx_chain allow_partial receipts)
