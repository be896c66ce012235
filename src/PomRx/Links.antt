-- ===== src/PomRx/Links.antt =====
-- How the receipts of a chain are linked, and the shapes that a chain may have.
use swisstokint_open_risk_in.Prelude.{
  ◌+◌, String, ◌≡◌, ◌≢◌, refl, ap, ◌∙◌, Bool, true, false, Option, none, some, List, [], ◌∷◌, arith,
  ok, guard-eq-ok, ==_iff, eq_iff, text_lt,
}
use swisstokint_open_risk_in.PomRx.Parts.{Phase, preflight, execution, reconciliation, Committed}
use swisstokint_open_risk_in.PomRx.Chain.{
  phase_index, same_phase, is_hash, same_run, follows, linked,
}

-- A receipt continues the chain of `first` behind `previous`.
pub record Link (first previous current : Committed) : Type 0 where
  pub hash : current.receipt.previous_receipt_hash ≡ some previous.receipt_hash
  pub not_before : text_lt current.receipt.occurred_at previous.receipt.occurred_at ≡ false
  pub run : current.receipt.run_id ≡ first.receipt.run_id
  pub agent : current.receipt.agent_ref ≡ first.receipt.agent_ref
  pub subject : current.receipt.subject_ref ≡ first.receipt.subject_ref
  pub method : current.receipt.method_hash ≡ first.receipt.method_hash
  pub policy : current.receipt.policy_hash ≡ first.receipt.policy_hash

pub data Lawful (allow_partial : Bool) : List Committed → Type 0 where
  denied :
      {a : Committed}
      → a.receipt.phase ≡ preflight
      → a.receipt.outcome ≡ "deny"
      → Lawful allow_partial (a ∷ [])
  pending :
      {a : Committed}
      → allow_partial ≡ true
      → a.receipt.phase ≡ preflight
      → a.receipt.outcome ≢ "deny"
      → Lawful allow_partial (a ∷ [])
  executed :
      {a e : Committed}
      → a.receipt.phase ≡ preflight
      → e.receipt.phase ≡ execution
      → a.receipt.outcome ≢ "deny"
      → Link a a e
      → (e.receipt.outcome ≡ "accepted" → allow_partial ≡ true)
      → Lawful allow_partial (a ∷ e ∷ [])
  reconciled :
      {a e c : Committed}
      → a.receipt.phase ≡ preflight
      → e.receipt.phase ≡ execution
      → c.receipt.phase ≡ reconciliation
      → a.receipt.outcome ≢ "deny"
      → Link a a e
      → Link a e c
      → e.receipt.outcome ≢ "rejected"
      → Lawful allow_partial (a ∷ e ∷ c ∷ [])

is_hash-eq : (o : Option String) (h : String) → is_hash o h ≡ true → o ≡ some h
is_hash-eq none h e = absurd (cc)
is_hash-eq (some s) h e = ap some ((eq_iff s h).0 e)

pub same_phase-eq : (a b : Phase) → same_phase a b ≡ true → a ≡ b
same_phase-eq preflight preflight h = refl
same_phase-eq preflight execution h = absurd (cc)
same_phase-eq preflight reconciliation h = absurd (cc)
same_phase-eq execution preflight h = absurd (cc)
same_phase-eq execution execution h = refl
same_phase-eq execution reconciliation h = absurd (cc)
same_phase-eq reconciliation preflight h = absurd (cc)
same_phase-eq reconciliation execution h = absurd (cc)
same_phase-eq reconciliation reconciliation h = refl

pub follows-phase :
    (f p c : Committed)
    → follows f p c ≡ true
    → phase_index c.receipt.phase ≡ phase_index p.receipt.phase + 1
unfolding follows
follows-phase f p c h =
    ground (arith, ==_iff (phase_index c.receipt.phase) (phase_index p.receipt.phase + 1))

pub follows-Link : (f p c : Committed) → follows f p c ≡ true → Link f p c
unfolding follows same_run
follows-Link f p c h = record {
  hash = is_hash-eq c.receipt.previous_receipt_hash p.receipt_hash (ground arith);
  not_before = ground arith;
  run = (eq_iff c.receipt.run_id f.receipt.run_id).0 (ground arith);
  agent = (eq_iff c.receipt.agent_ref f.receipt.agent_ref).0 (ground arith);
  subject = (eq_iff c.receipt.subject_ref f.receipt.subject_ref).0 (ground arith);
  method = (eq_iff c.receipt.method_hash f.receipt.method_hash).0 (ground arith);
  policy = (eq_iff c.receipt.policy_hash f.receipt.policy_hash).0 (ground arith);
}

pub linked-cons :
    (f p c : Committed) (cs : List Committed) (u : Unit)
    → linked f p (c ∷ cs) ≡ ok u
    → (follows f p c ≡ true) × (linked f c cs ≡ ok u)
unfolding linked
linked-cons f p c cs u h = guard-eq-ok _ _ _ h

pub after_preflight : (q : Phase) → phase_index q ≡ 1 → q ≡ execution
after_preflight preflight h = absurd (ground arith)
after_preflight execution h = refl
after_preflight reconciliation h = absurd (ground arith)

pub after_execution : (q : Phase) → phase_index q ≡ 2 → q ≡ reconciliation
after_execution preflight h = absurd (ground arith)
after_execution execution h = absurd (ground arith)
after_execution reconciliation h = refl

pub next_index :
    (a e : Committed) {q : Phase}
    → a.receipt.phase ≡ q
    → phase_index e.receipt.phase ≡ phase_index a.receipt.phase + 1
    → phase_index e.receipt.phase ≡ phase_index q + 1
next_index a e h k = k ∙ ap (λ x. phase_index x + 1) h

pub no_fourth : (q : Phase) → phase_index q ≢ 3
no_fourth preflight h = ground arith
no_fourth execution h = ground arith
no_fourth reconciliation h = ground arith
