-- ===== src/Gate/Clock.antt =====
-- The trusted clock never moves back: a sample before the last one is refused.
use swisstokint_open_risk_in.Prelude.{
  ℕ, ◌≤◌, ◌≡◌, refl, Bool, true, false, Option, none, some, List, [], ◌∷◌, Result, ok, err, arith,
  inl, inr, Bool-cases, Option-cases, ltb, ◌∙◌,
}
use native.Mathlib.Nat.{le_refl}
use swisstokint_open_risk_in.Platform.{Platform}
use swisstokint_open_risk_in.Value.{Value}
use swisstokint_open_risk_in.Authorization.{Binding, AuthorizationError, Prepared}
use swisstokint_open_risk_in.Value.{Sample}
use swisstokint_open_risk_in.Gate.Defs.{
  Gate, Call, Progress, Observed, Settled, GateError, fulfilled, rejected_with, sample_gate_clock,
  advance_clock, reserve_capability, reject_capability, begin_consumption, complete_consumption,
  at_first_clock, at_observer, at_second_clock, at_downstream, binding_mismatch,
}
use swisstokint_open_risk_in.Gate.Steps.{
  Event, issue, consume, first_clock, second_clock, observer, downstream, step, run, reject_with,
  start_consume, reserved, first_clocked, after_first_clock, observed, after_observer, forward_now,
  second_clocked, after_second_clock, fail_downstream, completed, after_downstream, first_clock_at,
  observer_at, second_clock_at, downstream_at, on_call, issue_authorization, add_capability,
}

-- The order of `lastTrustedTimeMs`; `null` comes before every instant.
abbrev pub NotAfter : Option ℕ → Option ℕ → Type 0
NotAfter none t = Unit
NotAfter (some a) none = ⊥
NotAfter (some a) (some b) = a ≤ b

pub NotAfter-refl : (t : Option ℕ) → NotAfter t t
NotAfter-refl none = tt
NotAfter-refl (some a) = omega arith

pub NotAfter-trans : (r s t : Option ℕ) → NotAfter r s → NotAfter s t → NotAfter r t
NotAfter-trans none s t h k = tt
NotAfter-trans (some a) none t h k = absurd h
NotAfter-trans (some a) (some b) none h k = k
NotAfter-trans (some a) (some b) (some c) h k = omega arith

abbrev Goes : Gate → Gate → Type 0
Goes g h = NotAfter g.last_trusted_time_ms h.last_trusted_time_ms

time-reject :
    (g : Gate) (c : ℕ) → (reject_capability g c).gate.last_trusted_time_ms ≡ g.last_trusted_time_ms
unfolding reject_capability
time-reject g c = ground arith

time-reserve :
    (g : Gate) (c : ℕ) → (reserve_capability g c).gate.last_trusted_time_ms ≡ g.last_trusted_time_ms
unfolding reserve_capability
time-reserve g c = ground arith

time-begin :
    (g : Gate) (c : ℕ) → (begin_consumption g c).gate.last_trusted_time_ms ≡ g.last_trusted_time_ms
unfolding begin_consumption
time-begin g c = ground arith

time-complete_consumption :
    (g : Gate) (c : ℕ) (b : Bool)
    → (complete_consumption g c b).gate.last_trusted_time_ms ≡ g.last_trusted_time_ms
unfolding complete_consumption
time-complete_consumption g c b = ground arith

time-reject_with :
    (g : Gate) (i : ℕ) (call : Call) (e : GateError)
    → (reject_with g i call e).last_trusted_time_ms ≡ g.last_trusted_time_ms
unfolding reject_with
time-reject_with g i call e = ground (arith, time-reject g call.capability)

time-fail :
    (g : Gate) (i : ℕ) (call : Call)
    → (fail_downstream g i call).last_trusted_time_ms ≡ g.last_trusted_time_ms
unfolding fail_downstream
time-fail g i call = ground (arith, time-complete_consumption g call.capability false)

time-forward :
    (g : Gate) (i : ℕ) (call : Call) (o : Observed) (now : ℕ)
    → (forward_now g i call o now).last_trusted_time_ms ≡ g.last_trusted_time_ms
unfolding forward_now
time-forward g i call o now = ground (arith, time-begin g call.capability)

module _ (p : Platform) where
  advance-Goes : (g : Gate) (r : Result GateError ℕ) → Goes g (advance_clock p g r).gate
  unfolding advance_clock
  advance-Goes g (err e) = NotAfter-refl g.last_trusted_time_ms
  advance-Goes g (ok now) = elim (Option-cases g.last_trusted_time_ms) [
    | inl e ↦ rw e tt
    | inr (last, e) ↦ elim (Bool-cases (ltb now last)) [
      | inl back ↦ rw (e, back) (le_refl last)
      | inr on ↦ rw (e, on) (ground arith)
    ]
  ]

  clock-Goes : (g : Gate) (s : Sample) → Goes g (sample_gate_clock p g s).gate
  unfolding sample_gate_clock
  clock-Goes g s = advance-Goes g _

  Goes-of_eq : (t s u : Option ℕ) → u ≡ s → NotAfter t s → NotAfter t u
  Goes-of_eq t s u e m = rw e m

  first_clocked-Goes :
      (g : Gate) (i : ℕ) (call : Call) (b : Binding) (r : Result GateError ℕ)
      → (first_clocked p g i call b r).last_trusted_time_ms ≡ g.last_trusted_time_ms
  first_clocked-Goes g i call b (ok n) = refl
  first_clocked-Goes g i call b (err e) = time-reject_with g i call e

  second_clocked-Goes :
      (g : Gate) (i : ℕ) (call : Call) (o : Observed) (r : Result GateError ℕ)
      → (second_clocked p g i call o r).last_trusted_time_ms ≡ g.last_trusted_time_ms
  second_clocked-Goes g i call o (ok n) = time-forward g i call o n
  second_clocked-Goes g i call o (err e) = time-reject_with g i call e

  observed-time :
      (g : Gate) (i : ℕ) (call : Call) (b : Binding) (r : Result GateError Observed)
      → (observed g i call b r).last_trusted_time_ms ≡ g.last_trusted_time_ms
  observed-time g i call b (err e) = time-reject_with g i call e
  observed-time g i call b (ok o) = ground (arith, time-reject_with g i call binding_mismatch)

  completed-time :
      (g : Gate) (i : ℕ) (call : Call) (v : Value) (r : Result GateError Unit)
      → (completed g i call v r).last_trusted_time_ms ≡ g.last_trusted_time_ms
  completed-time g i call v (ok u) = refl
  completed-time g i call v (err e) = time-fail g i call

  first_clock_at-Goes :
      (g : Gate) (i : ℕ) (call : Call) (s : Sample) (at : Progress)
      → Goes g (first_clock_at p g i call s at)
  unfolding first_clock_at after_first_clock
  first_clock_at-Goes g i call s (at_first_clock b) =
      Goes-of_eq g.last_trusted_time_ms _ _ (first_clocked-Goes _ i call b _) (clock-Goes g s)
  first_clock_at-Goes g i call s _ = NotAfter-refl g.last_trusted_time_ms

  observer_at-Goes :
      (g : Gate) (i : ℕ) (call : Call) (s : Settled) (at : Progress)
      → Goes g (observer_at p g i call s at)
  unfolding observer_at after_observer
  observer_at-Goes g i call s (at_observer b) =
      Goes-of_eq g.last_trusted_time_ms _ _ (observed-time g i call b _)
        (NotAfter-refl g.last_trusted_time_ms)
  observer_at-Goes g i call s _ = NotAfter-refl g.last_trusted_time_ms

  second_clock_at-Goes :
      (g : Gate) (i : ℕ) (call : Call) (s : Sample) (at : Progress)
      → Goes g (second_clock_at p g i call s at)
  unfolding second_clock_at after_second_clock
  second_clock_at-Goes g i call s (at_second_clock b o) =
      Goes-of_eq g.last_trusted_time_ms _ _ (second_clocked-Goes _ i call o _) (clock-Goes g s)
  second_clock_at-Goes g i call s _ = NotAfter-refl g.last_trusted_time_ms

  downstream_at-Goes :
      (g : Gate) (i : ℕ) (call : Call) (s : Settled) (at : Progress)
      → Goes g (downstream_at p g i call s at)
  unfolding downstream_at after_downstream
  downstream_at-Goes g i call rejected_with at_downstream =
      Goes-of_eq g.last_trusted_time_ms _ _ (time-fail g i call)
        (NotAfter-refl g.last_trusted_time_ms)
  downstream_at-Goes g i call (fulfilled v) at_downstream =
      let o = complete_consumption g call.capability true in
      Goes-of_eq g.last_trusted_time_ms _ _
        (completed-time o.gate i call v o.result ∙ time-complete_consumption g call.capability true)
        (NotAfter-refl g.last_trusted_time_ms)
  downstream_at-Goes g i call s _ = NotAfter-refl g.last_trusted_time_ms

  on_call-Goes :
      (g : Gate) (run : Call → Gate) (o : Option Call)
      → ((call : Call) → Goes g (run call))
      → Goes g (on_call p g run o)
  on_call-Goes g run none h = NotAfter-refl g.last_trusted_time_ms
  on_call-Goes g run (some call) h = h call

  add_capability-time :
      (g : Gate) (r : Result AuthorizationError Prepared)
      → (add_capability g r).last_trusted_time_ms ≡ g.last_trusted_time_ms
  add_capability-time g (ok a) = refl
  add_capability-time g (err e) = refl

  reserved-time :
      (g : Gate) (c : ℕ) (r : Result GateError Binding)
      → (reserved g c r).last_trusted_time_ms ≡ g.last_trusted_time_ms
  reserved-time g c (ok b) = refl
  reserved-time g c (err e) = refl

  step-Goes : (g : Gate) (e : Event) → Goes g (step p g e)
  unfolding step issue_authorization start_consume
  step-Goes g (issue input valid hex) =
      Goes-of_eq g.last_trusted_time_ms _ _ (add_capability-time g _)
        (NotAfter-refl g.last_trusted_time_ms)
  step-Goes g (consume c) =
      Goes-of_eq g.last_trusted_time_ms _ _ (reserved-time _ c _ ∙ time-reserve g c)
        (NotAfter-refl g.last_trusted_time_ms)
  step-Goes g (first_clock i s) =
      on_call-Goes g _ _ λ call. first_clock_at-Goes g i call s call.progress
  step-Goes g (observer i s) = on_call-Goes g _ _ λ call. observer_at-Goes g i call s call.progress
  step-Goes g (second_clock i s) =
      on_call-Goes g _ _ λ call. second_clock_at-Goes g i call s call.progress
  step-Goes g (downstream i s) =
      on_call-Goes g _ _ λ call. downstream_at-Goes g i call s call.progress

  -- Under every schedule, from every state, the last trusted time of the gate never moves back.
  pub run_monotone :
      (g : Gate) (es : List Event)
      → NotAfter g.last_trusted_time_ms (run p g es).last_trusted_time_ms
  unfolding run
  run_monotone g [] = NotAfter-refl g.last_trusted_time_ms
  run_monotone g (e ∷ es) =
      NotAfter-trans g.last_trusted_time_ms _ _ (step-Goes g e) (run_monotone (step p g e) es)
