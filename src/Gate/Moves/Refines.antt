-- ===== src/Gate/Moves/Refines.antt =====
-- Every event of a harness whose calls know their bindings is one of the abstract moves.
use swisstokint_open_risk_in.Prelude.{
  ℕ, String, ◌≡◌, refl, sym, subst, ◌∙◌, Bool, true, false, Option, none, some, Result, ok, err,
  arith, inl, inr, Result-cases, Bool-cases, ◌>>=◌, Ensures,
}
use swisstokint_open_risk_in.Platform.{Platform}
use swisstokint_open_risk_in.Value.{Value}
use swisstokint_open_risk_in.Authorization.{
  AuthorizationError, Prepared, Binding, IsValidWindow, prepare_record-Ensures,
}
use swisstokint_open_risk_in.Value.{Sample}
use swisstokint_open_risk_in.Gate.Defs.{
  Gate, Call, CapabilityState, Progress, Observed, Settled, GateError, fulfilled, rejected_with,
  validating, at_first_clock, at_observer, at_second_clock, at_downstream, begin_consumption,
  complete_consumption, sample_gate_clock, assert_capability_active, exact_binding_matches,
  is_validating, binding_mismatch,
}
use swisstokint_open_risk_in.Gate.Steps.{
  Event, issue, consume, first_clock, second_clock, observer, downstream, step, end_with,
  reject_with, start_consume, active_now, after_first_clock, after_observer, forward_now,
  after_second_clock, fail_downstream, after_downstream, reserved, first_clocked, observed,
  second_clocked, completed, add_capability, on_call, first_clock_at, observer_at, second_clock_at,
  downstream_at, issue_authorization,
}
use swisstokint_open_risk_in.Gate.Moves.Parts.{
  Move, stay, issues, shifts, forwards_one, HasBinding, Knows, IsBound, reserve-Move, reject-Move,
  complete-Move,
}

module _ (p : Platform) where
  -- Calls, clock and other fields play no part in a move.
  Move-of_same :
      (g g' h h' : Gate)
      → g'.capabilities ≡ g.capabilities
      → g'.forwards ≡ g.forwards
      → h'.capabilities ≡ h.capabilities
      → h'.forwards ≡ h.forwards
      → Move p g' h'
      → Move p g h
  Move-of_same g g' h h' a b c d (stay e f) = stay (sym c ∙ e ∙ a) (sym d ∙ f ∙ b)
  Move-of_same g g' h h' a b c d (issues x v e f) = issues x v (ground arith) (ground arith)
  Move-of_same g g' h h' a b c d (shifts x r s q n e f) =
      shifts x r s (ground arith) n (ground arith) (ground arith)
  Move-of_same g g' h h' a b c d (forwards_one x r q v k e f) =
      forwards_one x r (ground arith) v k (ground arith) (ground arith)

  clock-same :
      (g : Gate) (s : Sample)
      → ((sample_gate_clock p g s).gate.capabilities ≡ g.capabilities)
        × ((sample_gate_clock p g s).gate.forwards ≡ g.forwards)
  unfolding sample_gate_clock
  clock-same g s = ground arith

  end_with-Move :
      (g h : Gate) (i : ℕ) (call : Call) (e : GateError) (r : Result GateError Unit)
      → Move p g h
      → Move p g (end_with h i call e r)
  end_with-Move g h i call e (ok u) m = Move-of_same g g _ h refl refl refl refl m
  end_with-Move g h i call e (err x) m = Move-of_same g g _ h refl refl refl refl m

  reject_with-Move :
      (g : Gate) (i : ℕ) (call : Call) (e : GateError) → Move p g (reject_with g i call e)
  unfolding reject_with
  reject_with-Move g i call e = end_with-Move g _ i call e _ (reject-Move p g call.capability)

  reserved-Move :
      (g h : Gate) (c : ℕ) (r : Result GateError Binding) → Move p g h → Move p g (reserved h c r)
  reserved-Move g h c (ok b) m = Move-of_same g g _ h refl refl refl refl m
  reserved-Move g h c (err e) m = Move-of_same g g _ h refl refl refl refl m

  start_consume-Move : (g : Gate) (c : ℕ) → Move p g (start_consume g c)
  unfolding start_consume
  start_consume-Move g c = reserved-Move g _ c _ (reserve-Move p g c)

  first_clocked-Move :
      (g : Gate) (i : ℕ) (call : Call) (b : Binding) (r : Result GateError ℕ)
      → Move p g (first_clocked p g i call b r)
  first_clocked-Move g i call b (ok n) = stay refl refl
  first_clocked-Move g i call b (err e) = reject_with-Move g i call e

  after_first_clock-Move :
      (g : Gate) (i : ℕ) (call : Call) (b : Binding) (s : Sample)
      → Move p g (after_first_clock p g i call b s)
  unfolding after_first_clock
  after_first_clock-Move g i call b s =
      let (same, still) = clock-same g s in
      Move-of_same g _ _ _ same still refl refl (first_clocked-Move _ i call b _)

  observed-Move :
      (g : Gate) (i : ℕ) (call : Call) (b : Binding) (r : Result GateError Observed)
      → Move p g (observed g i call b r)
  observed-Move g i call b (err e) = reject_with-Move g i call e
  observed-Move g i call b (ok o) = elim (Bool-cases (exact_binding_matches b o)) [
    | inl m ↦ rw m (stay refl refl)
    | inr m ↦ rw m (reject_with-Move g i call binding_mismatch)
  ]

  after_observer-Move :
      (g : Gate) (i : ℕ) (call : Call) (b : Binding) (s : Settled)
      → Move p g (after_observer g i call b s)
  unfolding after_observer
  after_observer-Move g i call b s = observed-Move g i call b _

  is_validating-eq : (s : CapabilityState) → is_validating s ≡ true → s ≡ validating
  is_validating-eq validating h = refl
  is_validating-eq _ h = cc

  forward_now-Move :
      (g : Gate) (i : ℕ) (call : Call) (b : Binding) (seen : Observed) (now : ℕ)
      → HasBinding g call.capability b
      → exact_binding_matches b seen ≡ true
      → assert_capability_active p b now ≡ ok tt
      → Move p g (forward_now g i call seen now)
  unfolding forward_now begin_consumption
  forward_now-Move g i call b seen now (r, e, same) m a =
      elim (Bool-cases (is_validating r.state)) [
        | inr w ↦ rw (e, w) (stay refl refl)
        | inl w ↦
            rw (e, w)
              (forwards_one (record { capability = call.capability; observed = seen; at_ms = now })
                r e (is_validating-eq r.state w)
                (record { matches = rw same m; active = rw same a }) refl refl)
      ]

  -- A sample that passes `assertCapabilityActive` is an instant at which the capability is active.
  active_now-active :
      (b : Binding) (r : Result GateError ℕ) (now : ℕ)
      → active_now p b r ≡ ok now
      → assert_capability_active p b now ≡ ok tt
  unfolding active_now ◌>>=◌
  active_now-active b (ok n) now h = elim (Result-cases (assert_capability_active p b n)) [
    | inl (tt, e) ↦ ground (arith, e)
    | inr (x, e) ↦ ground (arith, e)
  ]
  active_now-active b (err x) now h = cc

  second_clocked-Move :
      (g : Gate) (i : ℕ) (call : Call) (b : Binding) (seen : Observed) (r : Result GateError ℕ)
      → HasBinding g call.capability b
      → exact_binding_matches b seen ≡ true
      → ((now : ℕ) → r ≡ ok now → assert_capability_active p b now ≡ ok tt)
      → Move p g (second_clocked p g i call seen r)
  second_clocked-Move g i call b seen (ok now) k m a =
      forward_now-Move g i call b seen now k m (a now refl)
  second_clocked-Move g i call b seen (err e) k m a = reject_with-Move g i call e

  after_second_clock-Move :
      (g : Gate) (i : ℕ) (call : Call) (b : Binding) (seen : Observed) (s : Sample)
      → HasBinding g call.capability b
      → exact_binding_matches b seen ≡ true
      → Move p g (after_second_clock p g i call b seen s)
  unfolding after_second_clock
  after_second_clock-Move g i call b seen s (r, e, k) m =
      let (same, still) = clock-same g s in
      Move-of_same g _ _ _ same still refl refl
        (second_clocked-Move _ i call b seen _ (r, rw same e, k) m (active_now-active b _))

  fail_downstream-Move : (g : Gate) (i : ℕ) (call : Call) → Move p g (fail_downstream g i call)
  unfolding fail_downstream
  fail_downstream-Move g i call =
      end_with-Move g _ i call _ _ (complete-Move p g call.capability false)

  completed_ok :
      (g h : Gate) (i : ℕ) (call : Call) (v : Value) (r : Result GateError Unit)
      → Move p g h
      → ((e : GateError) → r ≡ err e → h ≡ g)
      → Move p g (completed h i call v r)
  completed_ok g h i call v (ok u) m same = Move-of_same g g _ h refl refl refl refl m
  completed_ok g h i call v (err e) m same =
      subst (λ x. Move p g (fail_downstream x i call)) (sym (same e refl))
        (fail_downstream-Move g i call)

  complete_failed :
      (g : Gate) (c : ℕ) (b : Bool) (e : GateError)
      → (complete_consumption g c b).result ≡ err e
      → (complete_consumption g c b).gate ≡ g
  unfolding complete_consumption
  complete_failed g c b e h = ground arith

  completed-Move :
      (g : Gate) (i : ℕ) (call : Call) (v : Value)
      → let o = complete_consumption g call.capability true in
        Move p g (completed o.gate i call v o.result)
  completed-Move g i call v =
      completed_ok g _ i call v _ (complete-Move p g call.capability true)
        (complete_failed g call.capability true)

  after_downstream-Move :
      (g : Gate) (i : ℕ) (call : Call) (s : Settled) → Move p g (after_downstream g i call s)
  unfolding after_downstream
  after_downstream-Move g i call rejected_with = fail_downstream-Move g i call
  after_downstream-Move g i call (fulfilled v) = completed-Move g i call v

  add_capability-Move :
      (g : Gate) (r : Result AuthorizationError Prepared)
      → Ensures (λ a. IsValidWindow p a.binding.window) r
      → Move p g (add_capability g r)
  add_capability-Move g (ok a) h = issues a.binding (h.at a refl) refl refl
  add_capability-Move g (err e) h = stay refl refl

  issue-Move :
      (g : Gate) (input valid : Value) (hex : String)
      → Move p g (issue_authorization p g input valid hex)
  unfolding issue_authorization
  issue-Move g input valid hex = add_capability-Move g _ (prepare_record-Ensures p input _)

  first_clock_at-Move :
      (g : Gate) (i : ℕ) (call : Call) (s : Sample) (at : Progress)
      → Move p g (first_clock_at p g i call s at)
  unfolding first_clock_at
  first_clock_at-Move g i call s (at_first_clock b) = after_first_clock-Move g i call b s
  first_clock_at-Move g i call s _ = stay refl refl

  observer_at-Move :
      (g : Gate) (i : ℕ) (call : Call) (s : Settled) (at : Progress)
      → Move p g (observer_at p g i call s at)
  unfolding observer_at
  observer_at-Move g i call s (at_observer b) = after_observer-Move g i call b s
  observer_at-Move g i call s _ = stay refl refl

  second_clock_at-Move :
      (g : Gate) (i : ℕ) (call : Call) (s : Sample) (at : Progress)
      → Knows g call.capability at
      → Move p g (second_clock_at p g i call s at)
  unfolding second_clock_at
  second_clock_at-Move g i call s (at_second_clock b o) (k, m) =
      after_second_clock-Move g i call b o s k m
  second_clock_at-Move g i call s _ k = stay refl refl

  downstream_at-Move :
      (g : Gate) (i : ℕ) (call : Call) (s : Settled) (at : Progress)
      → Move p g (downstream_at p g i call s at)
  unfolding downstream_at
  downstream_at-Move g i call s at_downstream = after_downstream-Move g i call s
  downstream_at-Move g i call s _ = stay refl refl

  on_call-Move :
      (g : Gate) (run : Call → Gate) (o : Option Call)
      → ((call : Call) → o ≡ some call → Move p g (run call))
      → Move p g (on_call p g run o)
  on_call-Move g run none h = stay refl refl
  on_call-Move g run (some call) h = h call refl

  -- Every event is an abstract move.
  pub step-Move : (g : Gate) (e : Event) → IsBound g → Move p g (step p g e)
  unfolding step
  step-Move g (issue input valid hex) v = issue-Move g input valid hex
  step-Move g (consume c) v = start_consume-Move g c
  step-Move g (first_clock i s) v =
      on_call-Move g _ _ λ call _. first_clock_at-Move g i call s call.progress
  step-Move g (observer i s) v =
      on_call-Move g _ _ λ call _. observer_at-Move g i call s call.progress
  step-Move g (second_clock i s) v =
      on_call-Move g _ _
        λ call e. second_clock_at-Move g i call s call.progress (v.call_knows i call e)
  step-Move g (downstream i s) v =
      on_call-Move g _ _ λ call _. downstream_at-Move g i call s call.progress
