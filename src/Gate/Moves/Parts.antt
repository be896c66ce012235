-- ===== src/Gate/Moves/Parts.antt =====
-- The abstract transitions, and what the parts of a step do to them.
use swisstokint_open_risk_in.Prelude.{
  ℕ, ◌≡◌, refl, Bool, true, false, some, [], ◌∷◌, ◌++◌, ok, inl, inr, Option-cases, Bool-cases,
  get_elem?, set,
}
use swisstokint_open_risk_in.Platform.{Platform}
use swisstokint_open_risk_in.Authorization.{Binding, IsValidWindow}
use swisstokint_open_risk_in.Gate.Defs.{
  Gate, Call, Capability, CapabilityState, Progress, Forward, available, validating, rejected,
  consuming, consumed_success, consumed_error, at_first_clock, at_observer, at_second_clock,
  at_downstream, returned, thrown, reserve_capability, reject_capability, complete_consumption,
  assert_capability_active, exact_binding_matches, change, is_consuming, is_validating,
  is_available, consumed,
}

-- The changes of state that forward nothing.
pub data Next : CapabilityState → CapabilityState → Type 0 where
  reserves : Next available validating
  rejects : Next validating rejected
  succeeds_next : Next consuming consumed_success
  fails_next : Next consuming consumed_error

-- A forwarded execution that binding `b` covers: the observer reported the authorized binding, and the
-- trusted clock stood inside the validity window.
pub record Covers (p : Platform) (b : Binding) (f : Forward) : Type 0 where
  pub matches : exact_binding_matches b f.observed ≡ true
  pub active : assert_capability_active p b f.at_ms ≡ ok tt

pub data Move (p : Platform) (g h : Gate) : Type 0 where
  stay : h.capabilities ≡ g.capabilities → h.forwards ≡ g.forwards → Move p g h
  issues :
      (b : Binding)
      → IsValidWindow p b.window
      → h.capabilities ≡ g.capabilities ++ record { state = available; binding = b } ∷ []
      → h.forwards ≡ g.forwards
      → Move p g h
  shifts :
      (c : ℕ) (r : Capability) (s : CapabilityState)
      → get_elem? g.capabilities c ≡ some r
      → Next r.state s
      → h.capabilities ≡ set g.capabilities c (record r { state = s })
      → h.forwards ≡ g.forwards
      → Move p g h
  forwards_one :
      (f : Forward) (r : Capability)
      → get_elem? g.capabilities f.capability ≡ some r
      → r.state ≡ validating
      → Covers p r.binding f
      → h.capabilities ≡ set g.capabilities f.capability (record r { state = consuming })
      → h.forwards ≡ g.forwards ++ f ∷ []
      → Move p g h

-- A call that is still running knows the binding of its capability.
abbrev pub HasBinding : Gate → ℕ → Binding → Type 0
HasBinding g c b = (r : Capability) × (get_elem? g.capabilities c ≡ some r) × (r.binding ≡ b)

abbrev pub Knows : Gate → ℕ → Progress → Type 0
Knows g c (at_first_clock b) = HasBinding g c b
Knows g c (at_observer b) = HasBinding g c b
Knows g c (at_second_clock b o) = HasBinding g c b × (exact_binding_matches b o ≡ true)
Knows g c at_downstream = Unit {0}
Knows g c (returned v) = Unit {0}
Knows g c (thrown e) = Unit {0}

pub record IsBound (g : Gate) : Type 0 where
  pub call_knows :
      (i : ℕ) (call : Call)
      → get_elem? g.calls i ≡ some call
      → Knows g call.capability call.progress

available-Next : (s : CapabilityState) → is_available s ≡ true → Next s validating
available-Next available h = reserves
available-Next _ h = cc

validating-Next : (s : CapabilityState) → is_validating s ≡ true → Next s rejected
validating-Next validating h = rejects
validating-Next _ h = cc

consuming-Next : (b : Bool) (s : CapabilityState) → is_consuming s ≡ true → Next s (consumed b)
consuming-Next true consuming h = succeeds_next
consuming-Next false consuming h = fails_next
consuming-Next b _ h = cc

module _ (p : Platform) where
  pub reserve-Move : (g : Gate) (c : ℕ) → Move p g (reserve_capability g c).gate
  unfolding reserve_capability
  reserve-Move g c = elim (Option-cases (get_elem? g.capabilities c)) [
    | inl e ↦ rw e (stay refl refl)
    | inr (r, e) ↦ elim (Bool-cases (is_available r.state)) [
      | inl w ↦ rw (e, w) (shifts c r validating e (available-Next r.state w) refl refl)
      | inr w ↦ rw (e, w) (stay refl refl)
    ]
  ]

  change-Move :
      (wanted : CapabilityState → Bool) (next : CapabilityState) (g : Gate) (c : ℕ)
      → ((s : CapabilityState) → wanted s ≡ true → Next s next)
      → Move p g (change wanted next g c (get_elem? g.capabilities c)).gate
  change-Move wanted next g c allowed = elim (Option-cases (get_elem? g.capabilities c)) [
    | inl e ↦ rw e (stay refl refl)
    | inr (r, e) ↦ elim (Bool-cases (wanted r.state)) [
      | inl w ↦ rw (e, w) (shifts c r next e (allowed r.state w) refl refl)
      | inr w ↦ rw (e, w) (stay refl refl)
    ]
  ]

  pub reject-Move : (g : Gate) (c : ℕ) → Move p g (reject_capability g c).gate
  unfolding reject_capability
  reject-Move g c = change-Move is_validating rejected g c validating-Next

  pub complete-Move : (g : Gate) (c : ℕ) (b : Bool) → Move p g (complete_consumption g c b).gate
  unfolding complete_consumption
  complete-Move g c b = change-Move is_consuming (consumed b) g c (consuming-Next b)
