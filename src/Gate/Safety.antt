-- ===== src/Gate/Safety.antt =====
-- The promises of the gate, for every schedule of events.
use swisstokint_open_risk_in.Prelude.{
  ℕ, ◌+◌, ◌≤◌, ◌<◌, ◌≡◌, true, Option, none, some, List, ok, arith, All, All-map_of, eq_iff,
}
use swisstokint_open_risk_in.Platform.{Platform}
use swisstokint_open_risk_in.Authorization.{Binding, IsValidWindow}
use swisstokint_open_risk_in.Gate.Defs.{
  Gate, CapabilityState, Forward, new_gate, capability_state, exact_binding_matches,
  assert_capability_active,
}
use swisstokint_open_risk_in.Gate.Steps.{Event, run}
use swisstokint_open_risk_in.Gate.Moves.{HasBinding}
use swisstokint_open_risk_in.Gate.SingleUse.{uses, spent, UnderBinding, run-Inv, new_gate-Inv}

-- A forwarded execution that its capability authorized, with the validity window in force.
pub record IsAuthorized (g : Gate) (f : Forward) : Type 0 where
  pub binding : Binding
  pub held : HasBinding g f.capability binding
  pub same_profile : binding.binding_profile ≡ f.observed.binding_profile
  pub same_action : binding.action_commitment ≡ f.observed.action_commitment
  pub same_context : binding.context_commitment ≡ f.observed.context_commitment
  pub not_early : binding.issued_ms ≤ f.at_ms
  pub not_late : f.at_ms < binding.expires_ms
  pub short_lived : binding.expires_ms ≤ binding.issued_ms + 300000

spent-le : (s : Option CapabilityState) → spent s ≤ 1
spent-le none = omega arith
spent-le (some s) = ground arith

module _ (p : Platform) where
  matches_fields :
      (b : Binding) (f : Forward)
      → exact_binding_matches b f.observed ≡ true
      → (b.binding_profile ≡ f.observed.binding_profile)
        × (b.action_commitment ≡ f.observed.action_commitment)
        × (b.context_commitment ≡ f.observed.context_commitment)
  unfolding exact_binding_matches
  matches_fields b f h = ground (
    arith,
    eq_iff b.binding_profile f.observed.binding_profile,
    eq_iff b.action_commitment f.observed.action_commitment,
    eq_iff b.context_commitment f.observed.context_commitment,
  )

  active_bounds :
      (b : Binding) (now : ℕ)
      → IsValidWindow p b.window
      → assert_capability_active p b now ≡ ok tt
      → (b.issued_ms ≤ now) × (now < b.expires_ms)
  unfolding assert_capability_active
  active_bounds b now w h = ground arith

  UnderBinding-IsAuthorized : (g : Gate) (f : Forward) → UnderBinding p g f → IsAuthorized g f
  UnderBinding-IsAuthorized g f u =
      let (a, b, c) = matches_fields u.binding f u.covers.matches in
      let (d, e) = active_bounds u.binding f.at_ms u.window u.covers.active in
      record {
        binding = u.binding;
        held = u.held;
        same_profile = a;
        same_action = b;
        same_context = c;
        not_early = d;
        not_late = e;
        short_lived = u.window.at_most_five_minutes;
      }

  -- After any schedule of a new gate, every capability has been forwarded to the downstream function at
  -- most once, and exactly as often as its state says: once while it is being consumed and after it was,
  -- never in any other state.
  pub run_single_use :
      (es : List Event) (c : ℕ)
      → (uses c (run p new_gate es).forwards ≤ 1)
        × (uses c (run p new_gate es).forwards ≡ spent (capability_state (run p new_gate es) c))
  run_single_use es c =
      let v = run-Inv p new_gate es (new_gate-Inv p) in
      (
        omega (arith, v.accounted c, spent-le (capability_state (run p new_gate es) c)),
        v.accounted c,
      )

  -- After any schedule of a new gate, every execution that was forwarded belongs to a capability whose
  -- binding has the profile, the action commitment and the context commitment that the observer
  -- reported, and the trusted clock stood inside the validity window of that binding, which lasts five
  -- minutes at most.
  pub run-IsAuthorized :
      (es : List Event) → All (IsAuthorized (run p new_gate es)) (run p new_gate es).forwards
  run-IsAuthorized es =
      let v = run-Inv p new_gate es (new_gate-Inv p) in
      All-map_of _ _ _ (UnderBinding-IsAuthorized (run p new_gate es)) v.under
