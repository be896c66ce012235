-- ===== src/Gate/Lifecycle.antt =====
-- The ends of a capability's life, replays, and the trusted clock.
use swisstokint_open_risk_in.Prelude.{
  ℕ, ◌≡◌, refl, ◌∙◌, ◌≢◌, Bool, true, false, Option, none, some, List, [], ◌∷◌, ◌++◌, arith, inl,
  inr, Option-cases, get_elem?, ==_iff, get_elem?-append_left,
}
use swisstokint_open_risk_in.Platform.{Platform}
use swisstokint_open_risk_in.Gate.Defs.{
  Gate, CapabilityState, GateError, available, rejected, consuming, consumed_success,
  consumed_error, thrown, capability_required, capability_stale, capability_state,
  reserve_capability,
}
use swisstokint_open_risk_in.Gate.Steps.{Event, consume, step, run, start_consume}
use swisstokint_open_risk_in.Gate.Moves.{
  Move, stay, issues, shifts, forwards_one, Next, reserves, rejects, succeeds_next, fails_next,
  IsBound, step-Move, step-IsBound,
}
use swisstokint_open_risk_in.Gate.SingleUse.{state_at-set}

-- The states that no event leaves.
abbrev pub is_final : CapabilityState → Bool
is_final rejected = true
is_final consumed_success = true
is_final consumed_error = true
is_final _ = false

Next-not_final : (s t : CapabilityState) → Next s t → is_final s ≡ false
Next-not_final s t reserves = refl
Next-not_final s t rejects = refl
Next-not_final s t succeeds_next = refl
Next-not_final s t fails_next = refl

-- A call of `consume` on a capability that is not available, as the source answers it.
abbrev pub refusal : Option CapabilityState → GateError
refusal none = capability_required
refusal (some s) = capability_stale

module _ (p : Platform) where
  Move-final :
      (g h : Gate) (c : ℕ) (s : CapabilityState)
      → Move p g h
      → capability_state g c ≡ some s
      → is_final s ≡ true
      → capability_state h c ≡ some s
  unfolding capability_state
  Move-final g h c s (stay e f) q k = rw e q
  Move-final g h c s (issues b v e f) q k = rw e (elim (Option-cases (get_elem? g.capabilities c)) [
    | inl n ↦ absurd (ground arith)
    | inr (r, n) ↦ ground (
      arith,
      get_elem?-append_left g.capabilities (record { state = available; binding = b } ∷ []) c n,
    )
  ])
  Move-final g h c s (shifts d r t e n a f) q k = rw a (
      ground (arith, state_at-set g.capabilities d c r t e, Next-not_final r.state t n, ==_iff d c))
  Move-final g h c s (forwards_one f r e v w a b) q k = rw a (
      ground
        (arith, state_at-set g.capabilities f.capability c r consuming e, ==_iff f.capability c))

  run-final :
      (g : Gate) (es : List Event) (c : ℕ) (s : CapabilityState)
      → IsBound g
      → capability_state g c ≡ some s
      → is_final s ≡ true
      → capability_state (run p g es) c ≡ some s
  unfolding run
  run-final g [] c s v q k = q
  run-final g (e ∷ es) c s v q k =
      run-final (step p g e) es c s (step-IsBound p g e v)
        (Move-final g _ c s (step-Move p g e v) q k) k

  -- `consume` of a capability that is not available ends at once, and changes no capability and no
  -- forwarded execution.
  consume_refused :
      (g : Gate) (c : ℕ)
      → capability_state g c ≢ some available
      → step p g (consume c) ≡ record g {
        calls =
            g.calls
            ++ record { capability = c; progress = thrown (refusal (capability_state g c)) } ∷ [];
      }
  unfolding step start_consume reserve_capability capability_state
  consume_refused g c h = ground arith

  -- Of a gate whose running calls know their bindings, a capability that is rejected or consumed stays so
  -- under every schedule, and each later `consume` of it throws STALE and changes nothing but the list
  -- of calls.
  pub run_replay :
      (g : Gate) (es : List Event) (c : ℕ) (s : CapabilityState)
      → IsBound g
      → capability_state g c ≡ some s
      → is_final s ≡ true
      → let h = run p g es in
        (capability_state h c ≡ some s)
        × (step p h (consume c) ≡ record h {
          calls = h.calls ++ record { capability = c; progress = thrown capability_stale } ∷ [];
        })
  run_replay g es c s v q k =
      let e : capability_state (run p g es) c ≡ some s = run-final g es c s v q k in
      (e, consume_refused (run p g es) c (λ z. ground arith) ∙ rw e)
