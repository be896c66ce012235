-- ===== src/Gate/Steps.antt =====
-- The harness as a transition system. `consume` runs from one point where control leaves it (a call of
-- the clock, the observer, the downstream function) to the next; each of these pieces is one event,
-- and a schedule is any list of events. So calls interleave at every point where the source can be
-- re-entered or suspended. An event that its call does not wait for changes nothing.
use swisstokint_open_risk_in.Prelude.{
  ℕ, String, true, false, Option, none, some, List, [], ◌∷◌, ◌++◌, Result, ok, err, ◌>>=◌, ◌>>◌,
  if◌then◌else◌, get_elem?, set,
}
use Prim.Native.String.{◌++◌ as concat}
use swisstokint_open_risk_in.Platform.{Platform}
use swisstokint_open_risk_in.Value.{Value, Properties, plain, object_prototype}
use swisstokint_open_risk_in.Authorization.{AuthorizationError, Binding, Prepared, prepare_record}
use swisstokint_open_risk_in.Value.{Sample}
use swisstokint_open_risk_in.Gate.Defs.{
  Gate, Call, Progress, Observed, Settled, fulfilled, rejected_with, GateError, binding_mismatch,
  downstream_failed, available, at_first_clock, at_observer, at_second_clock, at_downstream,
  returned, thrown, sample_gate_clock, assert_capability_active, validate_observed,
  exact_binding_matches, reserve_capability, reject_capability, begin_consumption,
  complete_consumption,
}

pub data Event : Type 0 where
  -- the binding input, `witnessValidUntil`, and the random digits of the capability's id
  issue : Value → Value → String → Event
  -- a call of `consume` with the capability of that index
  consume : ℕ → Event
  -- the clock, the observer or the downstream function answers the call of that index
  first_clock second_clock : ℕ → Sample → Event
  observer downstream : ℕ → Settled → Event

unfoldable pub prepare_options : Value → String → Value
prepare_options witness_valid_until hex = Value.object (plain object_prototype) (
    Properties.data_property "witnessValidUntil" true witness_valid_until (
      Properties.data_property "capabilityId" true (Value.text (concat "cap-" hex))
        Properties.no_more))

abbrev pub add_capability : Gate → Result AuthorizationError Prepared → Gate
add_capability g (err e) = g
add_capability g (ok r) = record g {
  capabilities = g.capabilities ++ record { state = available; binding = r.binding } ∷ [];
}

-- `issueReferenceAuthorizationForTest`
unfoldable pub issue_authorization : Platform → Gate → Value → Value → String → Gate
unfolding prepare_options
issue_authorization p g input witness_valid_until hex =
    add_capability g (prepare_record p input (prepare_options witness_valid_until hex))

abbrev pub add_call : Gate → ℕ → Progress → Gate
add_call g c at = record g { calls = g.calls ++ record { capability = c; progress = at } ∷ [] }

abbrev pub progress_to : Gate → ℕ → Call → Progress → Gate
progress_to g i call at = record g { calls = set g.calls i (record call { progress = at }) }

-- The call ends with `e`, or with the error of the state change before it.
abbrev pub end_with : Gate → ℕ → Call → GateError → Result GateError Unit → Gate
end_with g i call e (ok u) = progress_to g i call (thrown e)
end_with g i call e (err stale) = progress_to g i call (thrown stale)

-- `rejectCapability(capability); throw …`
unfoldable pub reject_with : Gate → ℕ → Call → GateError → Gate
reject_with g i call e =
    let o = reject_capability g call.capability in end_with o.gate i call e o.result

abbrev pub reserved : Gate → ℕ → Result GateError Binding → Gate
reserved g c (ok b) = add_call g c (at_first_clock b)
reserved g c (err e) = add_call g c (thrown e)

-- The part of `consume` before the first clock: the reservation.
unfoldable pub start_consume : Gate → ℕ → Gate
start_consume g c = let o = reserve_capability g c in reserved o.gate c o.result

abbrev pub observed : Gate → ℕ → Call → Binding → Result GateError Observed → Gate
observed g i call b (err e) = reject_with g i call e
observed g i call b (ok seen) =
    if exact_binding_matches b seen
    then progress_to g i call (at_second_clock b seen)
    else reject_with g i call binding_mismatch

unfoldable pub after_observer : Gate → ℕ → Call → Binding → Settled → Gate
unfolding reject_with
after_observer g i call b s = observed g i call b (validate_observed s)

-- The call of `executeDownstream`
abbrev pub begun : Gate → ℕ → Call → Observed → ℕ → Result GateError Unit → Gate
begun g i call seen now (err e) = progress_to g i call (thrown e)
begun g i call seen now (ok u) =
    progress_to
      (record g {
        forwards =
            g.forwards
            ++ record { capability = call.capability; observed = seen; at_ms = now } ∷ [];
      })
      i call at_downstream

-- `beginConsumption`, and the call that follows it
unfoldable pub forward_now : Gate → ℕ → Call → Observed → ℕ → Gate
forward_now g i call seen now =
    let o = begin_consumption g call.capability in begun o.gate i call seen now o.result

unfoldable pub fail_downstream : Gate → ℕ → Call → Gate
fail_downstream g i call =
    let o = complete_consumption g call.capability false in
    end_with o.gate i call downstream_failed o.result

abbrev pub completed : Gate → ℕ → Call → Value → Result GateError Unit → Gate
completed g i call v (ok u) = progress_to g i call (returned v)
completed g i call v (err e) = fail_downstream g i call

unfoldable pub after_downstream : Gate → ℕ → Call → Settled → Gate
unfolding fail_downstream
after_downstream g i call rejected_with = fail_downstream g i call
after_downstream g i call (fulfilled v) =
    let o = complete_consumption g call.capability true in completed o.gate i call v o.result

module _ (p : Platform) where
  unfoldable pub active_now : Binding → Result GateError ℕ → Result GateError ℕ
  active_now b now = do ms ← now; assert_capability_active p b ms; ok ms

  abbrev pub first_clocked : Gate → ℕ → Call → Binding → Result GateError ℕ → Gate
  first_clocked g i call b (ok now) = progress_to g i call (at_observer b)
  first_clocked g i call b (err e) = reject_with g i call e

  unfoldable pub after_first_clock : Gate → ℕ → Call → Binding → Sample → Gate
  unfolding active_now reject_with
  after_first_clock g i call b s =
      let o = sample_gate_clock p g s in first_clocked o.gate i call b (active_now b o.result)

  abbrev pub second_clocked : Gate → ℕ → Call → Observed → Result GateError ℕ → Gate
  second_clocked g i call seen (ok now) = forward_now g i call seen now
  second_clocked g i call seen (err e) = reject_with g i call e

  unfoldable pub after_second_clock : Gate → ℕ → Call → Binding → Observed → Sample → Gate
  unfolding active_now reject_with forward_now
  after_second_clock g i call b seen s =
      let o = sample_gate_clock p g s in second_clocked o.gate i call seen (active_now b o.result)

  unfoldable pub first_clock_at : Gate → ℕ → Call → Sample → Progress → Gate
  unfolding after_first_clock
  first_clock_at g i call s (at_first_clock b) = after_first_clock g i call b s
  first_clock_at g i call s _ = g

  unfoldable pub observer_at : Gate → ℕ → Call → Settled → Progress → Gate
  unfolding after_observer
  observer_at g i call s (at_observer b) = after_observer g i call b s
  observer_at g i call s _ = g

  unfoldable pub second_clock_at : Gate → ℕ → Call → Sample → Progress → Gate
  unfolding after_second_clock
  second_clock_at g i call s (at_second_clock b seen) = after_second_clock g i call b seen s
  second_clock_at g i call s _ = g

  unfoldable pub downstream_at : Gate → ℕ → Call → Settled → Progress → Gate
  unfolding after_downstream
  downstream_at g i call s at_downstream = after_downstream g i call s
  downstream_at g i call s _ = g

  abbrev pub on_call : Gate → (Call → Gate) → Option Call → Gate
  on_call g run none = g
  on_call g run (some call) = run call

  unfoldable pub step : Gate → Event → Gate
  step g (issue input valid hex) = issue_authorization p g input valid hex
  step g (consume c) = start_consume g c
  step g (first_clock i s) =
      on_call g (λ call. first_clock_at g i call s call.progress) (get_elem? g.calls i)
  step g (observer i s) =
      on_call g (λ call. observer_at g i call s call.progress) (get_elem? g.calls i)
  step g (second_clock i s) =
      on_call g (λ call. second_clock_at g i call s call.progress) (get_elem? g.calls i)
  step g (downstream i s) =
      on_call g (λ call. downstream_at g i call s call.progress) (get_elem? g.calls i)

  unfoldable pub run : Gate → List Event → Gate
  run g [] = g
  run g (e ∷ es) = run (step g e) es
