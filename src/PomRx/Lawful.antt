-- ===== src/PomRx/Lawful.antt =====
-- The shapes of an accepted chain.
use swisstokint_open_risk_in.Prelude.{
  ℕ, String, ◌≡◌, ◌≢◌, refl, Bool, true, false, ◌&&◌, ◌||◌, not, none, some, List, [], ◌∷◌, arith,
  Result, ok, err, guard, >>=-eq-ok, guard-eq-ok, ◌⊎◌, inl, inr, leb, ◌==◌, ==_iff, str_eq, eq_iff,
  if◌then◌else◌, Ensures, Ensures-bind, Ensures-ok, length, is_some,
}
use swisstokint_open_risk_in.Data.{Data}
use swisstokint_open_risk_in.Platform.{Platform}
use swisstokint_open_risk_in.Merkle.Tree.{ProofError, type_error}
use swisstokint_open_risk_in.PomRx.Parts.{preflight, execution, reconciliation, Committed}
use swisstokint_open_risk_in.PomRx.Chain.{
  linked, find_phase, has_outcome, complete_chain, check_chain, assert_pom_rx_chain,
}
use swisstokint_open_risk_in.PomRx.Links.{
  Lawful, denied, pending, executed, reconciled, same_phase-eq, follows-phase, follows-Link,
  linked-cons, after_preflight, after_execution, next_index, no_fourth,
}

find_execution :
    (a e : Committed) (cs : List Committed)
    → a.receipt.phase ≡ preflight
    → e.receipt.phase ≡ execution
    → find_phase execution (a ∷ e ∷ cs) ≡ some e
unfolding find_phase
find_execution a e cs h k = rw (h, k) refl

find_no_reconciliation :
    (a e : Committed)
    → a.receipt.phase ≡ preflight
    → e.receipt.phase ≡ execution
    → find_phase reconciliation (a ∷ e ∷ []) ≡ none
unfolding find_phase
find_no_reconciliation a e h k = rw (h, k) refl

find_reconciliation :
    (a e c : Committed)
    → a.receipt.phase ≡ preflight
    → e.receipt.phase ≡ execution
    → c.receipt.phase ≡ reconciliation
    → find_phase reconciliation (a ∷ e ∷ c ∷ []) ≡ some c
unfolding find_phase
find_reconciliation a e c h k m = rw (h, k, m) refl

guard-true : (b : Bool) (u : Unit) → guard b type_error ≡ ok u → b ≡ true
guard-true true u h = refl
guard-true false u h = absurd (cc)

-- What an allowed preflight leaves to show.
complete_lem :
    (b : Bool) (cs : List Committed) (u : Unit)
    → complete_chain b cs ≡ ok u
    → ((b || leb 2 (length cs)) ≡ true)
      × ((not (has_outcome "accepted" (find_phase execution cs) && not b)
            || is_some (find_phase reconciliation cs))
          ≡ true)
      × ((not (has_outcome "rejected" (find_phase execution cs))
            || not (is_some (find_phase reconciliation cs)))
          ≡ true)
unfolding complete_chain
complete_lem b cs u h =
    let (x, h1) = guard-eq-ok _ _ _ h in
    let (y, h2) = guard-eq-ok _ _ _ h1 in (x, y, guard-true _ u h2)

ending :
    (d : Bool) (s : String) (n : ℕ) (m : Result ProofError Unit) (u : Unit)
    → str_eq s "deny" ≡ d
    → (if d then guard (n == 1) type_error else m) ≡ ok u
    → ((s ≡ "deny") × (n ≡ 1)) ⊎ ((s ≢ "deny") × (m ≡ ok u))
ending true s n m u e h = inl ((eq_iff s "deny").0 e, (==_iff n 1).0 (guard-true _ u h))
ending false s n m u e h = inr (λ x. ground (arith, eq_iff s "deny", x, e), h)

opened :
    (b : Bool) (a : Committed) (rest : List Committed) (u : Unit)
    → check_chain b (a ∷ rest) ≡ ok u
    → (a.receipt.phase ≡ preflight)
      × ((v : Unit) × (linked a a rest ≡ ok v))
      × (((a.receipt.outcome ≡ "deny") × (length (a ∷ rest) ≡ 1))
          ⊎ ((a.receipt.outcome ≢ "deny") × (complete_chain b (a ∷ rest) ≡ ok u)))
unfolding check_chain
opened b a rest u h =
    let (x, h1) = guard-eq-ok _ _ _ h in
    let (v, l, h2) = >>=-eq-ok (linked a a rest) _ h1 in
    (
      same_phase-eq a.receipt.phase preflight x,
      (v, l),
      ending _ a.receipt.outcome (length (a ∷ rest)) _ u refl h2,
    )

-- A last receipt whose preflight was allowed.
accepted_partial :
    (b : Bool) (a e : Committed) (u : Unit)
    → a.receipt.phase ≡ preflight
    → e.receipt.phase ≡ execution
    → complete_chain b (a ∷ e ∷ []) ≡ ok u
    → e.receipt.outcome ≡ "accepted"
    → b ≡ true
accepted_partial b a e u pa pe m acc =
    let y = (complete_lem b (a ∷ e ∷ []) u m).1 in
    let y' = rw (find_execution a e [] pa pe, find_no_reconciliation a e pa pe) at y in
    ground (arith, y', eq_iff e.receipt.outcome "accepted", acc)

not_rejected :
    (b : Bool) (a e c : Committed) (u : Unit)
    → a.receipt.phase ≡ preflight
    → e.receipt.phase ≡ execution
    → c.receipt.phase ≡ reconciliation
    → complete_chain b (a ∷ e ∷ c ∷ []) ≡ ok u
    → e.receipt.outcome ≢ "rejected"
not_rejected b a e c u pa pe pc m rej =
    let z = (complete_lem b (a ∷ e ∷ c ∷ []) u m).2 in
    let z' = rw (find_execution a e (c ∷ []) pa pe, find_reconciliation a e c pa pe pc) at z in
    ground (arith, z', eq_iff e.receipt.outcome "rejected", rej)

nothing_checked : (b : Bool) (u : Unit) → check_chain b [] ≢ ok u
unfolding check_chain
nothing_checked b u h = cc

check_chain-Lawful :
    (b : Bool) (cs : List Committed) (u : Unit) → check_chain b cs ≡ ok u → Lawful b cs
check_chain-Lawful b [] u h = absurd (nothing_checked b u h)
check_chain-Lawful b (a ∷ []) u h =
    let (pa, l, r) = opened b a [] u h in
    elim r [
      | inl (d, n) ↦ denied pa d
      | inr (d, m) ↦ pending (ground (arith, complete_lem b (a ∷ []) u m)) pa d
    ]
check_chain-Lawful b (a ∷ e ∷ []) u h =
    let (pa, (v, l), r) = opened b a (e ∷ []) u h in
    let (fe, l2) = linked-cons a a e [] v l in
    let pe = after_preflight e.receipt.phase (next_index a e pa (follows-phase a a e fe)) in
    elim r [
      | inl (d, n) ↦ absurd (ground (arith, n))
      | inr (d, m) ↦ executed pa pe d (follows-Link a a e fe) (accepted_partial b a e u pa pe m)
    ]
check_chain-Lawful b (a ∷ e ∷ c ∷ []) u h =
    let (pa, (v, l), r) = opened b a (e ∷ c ∷ []) u h in
    let (fe, l2) = linked-cons a a e (c ∷ []) v l in
    let (fc, l3) = linked-cons a e c [] v l2 in
    let pe = after_preflight e.receipt.phase (next_index a e pa (follows-phase a a e fe)) in
    let pc = after_execution c.receipt.phase (next_index e c pe (follows-phase a e c fc)) in
    elim r [
      | inl (d, n) ↦ absurd (ground (arith, n))
      | inr (d, m) ↦
          reconciled pa pe pc d (follows-Link a a e fe) (follows-Link a e c fc)
            (not_rejected b a e c u pa pe pc m)
    ]
check_chain-Lawful b (a ∷ e ∷ c ∷ d ∷ cs) u h =
    let (pa, (v, l), r) = opened b a (e ∷ c ∷ d ∷ cs) u h in
    let (fe, l2) = linked-cons a a e (c ∷ d ∷ cs) v l in
    let (fc, l3) = linked-cons a e c (d ∷ cs) v l2 in
    let (fd, l4) = linked-cons a c d cs v l3 in
    let pe = after_preflight e.receipt.phase (next_index a e pa (follows-phase a a e fe)) in
    let pc = after_execution c.receipt.phase (next_index e c pe (follows-phase a e c fc)) in
    absurd (no_fourth d.receipt.phase (next_index c d pc (follows-phase a c d fd)))

module _ (p : Platform) where
  refused-Lawful : (b : Bool) → Ensures (Lawful b) (err type_error)
  refused-Lawful b = record { at = λ cs q. cc }

  -- A chain that is accepted, strictly or as a partial one, is a denied preflight alone; or an allowed
  -- preflight followed by an execution, linked by its hash, with one run, agent, subject, method and
  -- policy throughout and no time text that sorts before that of the receipt that it follows; or these
  -- two followed by a reconciliation linked in the same way, and then the execution was not rejected. Only a partial
  -- chain may end with an allowed preflight or with an accepted execution.
  pub chain-Lawful :
      (b : Bool) (receipts : Data) → Ensures (Lawful b) (assert_pom_rx_chain p b receipts)
  unfolding assert_pom_rx_chain
  chain-Lawful b (Data.array xs) = Ensures-bind _ _ λ u hu.
      Ensures-bind _ _
        λ cs hc. Ensures-bind _ _ λ v hv. Ensures-ok cs (check_chain-Lawful b cs v hv)
  chain-Lawful b Data.null = refused-Lawful b
  chain-Lawful b (Data.boolean x) = refused-Lawful b
  chain-Lawful b (Data.number n) = refused-Lawful b
  chain-Lawful b (Data.text s) = refused-Lawful b
  chain-Lawful b (Data.object fs) = refused-Lawful b
  chain-Lawful b Data.opaque = refused-Lawful b
