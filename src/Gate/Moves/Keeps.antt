-- ===== src/Gate/Moves/Keeps.antt =====
-- Every event keeps the calls' knowledge of their bindings.
use swisstokint_open_risk_in.Prelude.{
  ℕ, ◌≡◌, refl, ◌⊎◌, ◌∙◌, ap, Bool, true, false, Option, none, some, Result, ok, err, arith, inl,
  inr, Bool-cases, Option-cases, get_elem?, set, get_elem?-set_self,
}
use swisstokint_open_risk_in.Platform.{Platform}
use swisstokint_open_risk_in.Value.{Value}
use swisstokint_open_risk_in.Authorization.{AuthorizationError, Prepared, Binding}
use swisstokint_open_risk_in.Value.{Sample}
use swisstokint_open_risk_in.Gate.Defs.{
  Gate, Call, Progress, validating, is_available, Observed, Settled, GateError, fulfilled,
  rejected_with, at_first_clock, at_observer, at_second_clock, at_downstream, returned, thrown,
  reserve_capability, reject_capability, begin_consumption, complete_consumption, sample_gate_clock,
  exact_binding_matches, binding_mismatch, new_gate,
}
use swisstokint_open_risk_in.Gate.Steps.{
  Event, issue, consume, first_clock, second_clock, observer, downstream, step, end_with,
  reject_with, reserved, start_consume, first_clocked, after_first_clock, observed, after_observer,
  begun, forward_now, second_clocked, after_second_clock, fail_downstream, completed,
  after_downstream, first_clock_at, observer_at, second_clock_at, downstream_at, on_call,
  issue_authorization, add_capability,
}
use swisstokint_open_risk_in.Gate.Moves.Parts.{Move, stay, HasBinding, Knows, IsBound, reserve-Move}
use swisstokint_open_risk_in.Gate.Moves.Refines.{step-Move}
use swisstokint_open_risk_in.Gate.Moves.Bound.{
  Progressed, Progressed-IsBound, Same-IsBound, Added-IsBound,
}

calls-end :
    (g h : Gate) (i : ℕ) (call : Call) (e : GateError) (r : Result GateError Unit)
    → h.calls ≡ g.calls
    → Progressed g (end_with h i call e r) i call
calls-end g h i call e (ok u) q =
    (thrown e, ap (λ l. set l i (record call { progress = thrown e })) q, tt)
calls-end g h i call e (err x) q =
    (thrown x, ap (λ l. set l i (record call { progress = thrown x })) q, tt)

calls-reject : (g : Gate) (c : ℕ) → (reject_capability g c).gate.calls ≡ g.calls
unfolding reject_capability
calls-reject g c = ground arith

calls-reserve : (g : Gate) (c : ℕ) → (reserve_capability g c).gate.calls ≡ g.calls
unfolding reserve_capability
calls-reserve g c = ground arith

calls-begin : (g : Gate) (c : ℕ) → (begin_consumption g c).gate.calls ≡ g.calls
unfolding begin_consumption
calls-begin g c = ground arith

calls-complete_consumption :
    (g : Gate) (c : ℕ) (b : Bool) → (complete_consumption g c b).gate.calls ≡ g.calls
unfolding complete_consumption
calls-complete_consumption g c b = ground arith

reject-Progressed :
    (g h : Gate) (i : ℕ) (call : Call) (e : GateError)
    → h.calls ≡ g.calls
    → Progressed g (reject_with h i call e) i call
unfolding reject_with
reject-Progressed g h i call e q = calls-end g _ i call e _ (calls-reject h call.capability ∙ q)

fail-Progressed :
    (g h : Gate) (i : ℕ) (call : Call)
    → h.calls ≡ g.calls
    → Progressed g (fail_downstream h i call) i call
unfolding fail_downstream
fail-Progressed g h i call q =
    calls-end g _ i call _ _ (calls-complete_consumption h call.capability false ∙ q)

forward-Progressed :
    (g h : Gate) (i : ℕ) (call : Call) (o : Observed) (now : ℕ)
    → h.calls ≡ g.calls
    → Progressed g (forward_now h i call o now) i call
unfolding forward_now
forward-Progressed g h i call o now q = go _ _ (calls-begin h call.capability ∙ q)
  where
    go :
        (k : Gate) (r : Result GateError Unit)
        → k.calls ≡ g.calls
        → Progressed g (begun k i call o now r) i call
    go k (ok u) w =
        (at_downstream, ap (λ l. set l i (record call { progress = at_downstream })) w, tt)
    go k (err x) w = (thrown x, ap (λ l. set l i (record call { progress = thrown x })) w, tt)

completed-Progressed :
    (g h : Gate) (i : ℕ) (call : Call) (v : Value) (r : Result GateError Unit)
    → h.calls ≡ g.calls
    → Progressed g (completed h i call v r) i call
completed-Progressed g h i call v (ok u) q =
    (returned v, ap (λ l. set l i (record call { progress = returned v })) q, tt)
completed-Progressed g h i call v (err e) q = fail-Progressed g h i call q

observed-Progressed :
    (g : Gate) (i : ℕ) (call : Call) (b : Binding) (r : Result GateError Observed)
    → HasBinding g call.capability b
    → Progressed g (observed g i call b r) i call
observed-Progressed g i call b (err e) k = reject-Progressed g g i call e refl
observed-Progressed g i call b (ok o) k = elim (Bool-cases (exact_binding_matches b o)) [
  | inl m ↦ rw m (at_second_clock b o, refl, (k, m))
  | inr m ↦ rw m (reject-Progressed g g i call binding_mismatch refl)
]

-- What an event of a call does to the calls: nothing, or that call goes on.
abbrev Goes : Gate → Gate → ℕ → Call → Type 0
Goes g h i call = (h.calls ≡ g.calls) ⊎ Progressed g h i call

module _ (p : Platform) where
  calls-clock : (g : Gate) (s : Sample) → (sample_gate_clock p g s).gate.calls ≡ g.calls
  unfolding sample_gate_clock
  calls-clock g s = ground arith

  capabilities-clock :
      (g : Gate) (s : Sample) → (sample_gate_clock p g s).gate.capabilities ≡ g.capabilities
  unfolding sample_gate_clock
  capabilities-clock g s = ground arith

  first-Progressed :
      (g h : Gate) (i : ℕ) (call : Call) (b : Binding) (r : Result GateError ℕ)
      → h.calls ≡ g.calls
      → HasBinding h call.capability b
      → Progressed g (first_clocked p h i call b r) i call
  first-Progressed g h i call b (ok n) q k =
      (at_observer b, ap (λ l. set l i (record call { progress = at_observer b })) q, k)
  first-Progressed g h i call b (err e) q k = reject-Progressed g h i call e q

  second-Progressed :
      (g h : Gate) (i : ℕ) (call : Call) (o : Observed) (r : Result GateError ℕ)
      → h.calls ≡ g.calls
      → Progressed g (second_clocked p h i call o r) i call
  second-Progressed g h i call o (ok now) q = forward-Progressed g h i call o now q
  second-Progressed g h i call o (err e) q = reject-Progressed g h i call e q

  first_clock-Goes :
      (g : Gate) (i : ℕ) (call : Call) (s : Sample) (at : Progress)
      → Knows g call.capability at
      → Goes g (first_clock_at p g i call s at) i call
  unfolding first_clock_at after_first_clock
  first_clock-Goes g i call s (at_first_clock b) (r, e, k) =
      inr (first-Progressed g _ i call b _ (calls-clock g s) (r, rw (capabilities-clock g s) e, k))
  first_clock-Goes g i call s _ k = inl refl

  observer-Goes :
      (g : Gate) (i : ℕ) (call : Call) (s : Settled) (at : Progress)
      → Knows g call.capability at
      → Goes g (observer_at p g i call s at) i call
  unfolding observer_at after_observer
  observer-Goes g i call s (at_observer b) k = inr (observed-Progressed g i call b _ k)
  observer-Goes g i call s _ k = inl refl

  second_clock-Goes :
      (g : Gate) (i : ℕ) (call : Call) (s : Sample) (at : Progress)
      → Goes g (second_clock_at p g i call s at) i call
  unfolding second_clock_at after_second_clock
  second_clock-Goes g i call s (at_second_clock b o) =
      inr (second-Progressed g _ i call o _ (calls-clock g s))
  second_clock-Goes g i call s _ = inl refl

  downstream-Goes :
      (g : Gate) (i : ℕ) (call : Call) (s : Settled) (at : Progress)
      → Goes g (downstream_at p g i call s at) i call
  unfolding downstream_at after_downstream
  downstream-Goes g i call rejected_with at_downstream = inr (fail-Progressed g g i call refl)
  downstream-Goes g i call (fulfilled v) at_downstream =
      let o = complete_consumption g call.capability true in
      inr (
        completed-Progressed g o.gate i call v o.result
          (calls-complete_consumption g call.capability true))
  downstream-Goes g i call s _ = inl refl

  Goes-IsBound :
      (g h : Gate) (i : ℕ) (call : Call)
      → Move p g h
      → get_elem? g.calls i ≡ some call
      → Goes g h i call
      → IsBound g
      → IsBound h
  Goes-IsBound g h i call m e (inl q) v = Same-IsBound p g h m q v
  Goes-IsBound g h i call m e (inr q) v = Progressed-IsBound p g h i call m e q v

  reserved-IsBound :
      (g h : Gate) (c : ℕ) (r : Result GateError Binding)
      → Move p g h
      → h.calls ≡ g.calls
      → ((b : Binding) → r ≡ ok b → HasBinding h c b)
      → IsBound g
      → IsBound (reserved h c r)
  reserved-IsBound g h c (ok b) m q k v =
      Added-IsBound p h _ (record { capability = c; progress = at_first_clock b }) (stay refl refl)
        refl (k b refl) (Same-IsBound p g h m q v)
  reserved-IsBound g h c (err e) m q k v =
      Added-IsBound p h _ (record { capability = c; progress = thrown e }) (stay refl refl) refl tt
        (Same-IsBound p g h m q v)

  reserve-HasBinding :
      (g : Gate) (c : ℕ) (b : Binding)
      → (reserve_capability g c).result ≡ ok b
      → HasBinding (reserve_capability g c).gate c b
  unfolding reserve_capability
  reserve-HasBinding g c b h = elim (Option-cases (get_elem? g.capabilities c)) [
    | inl e ↦ absurd (ground arith)
    | inr (r, e) ↦ elim (Bool-cases (is_available r.state)) [
      | inl w ↦ (
        record r { state = validating },
        rw (e, w) (get_elem?-set_self g.capabilities c _ e),
        ground arith,
      )
      | inr w ↦ absurd (ground arith)
    ]
  ]

  on_call-IsBound :
      (g : Gate) (i : ℕ) (run : Call → Gate) (o : Option Call)
      → get_elem? g.calls i ≡ o
      → Move p g (on_call p g run o)
      → ((call : Call) → get_elem? g.calls i ≡ some call → Goes g (run call) i call)
      → IsBound g
      → IsBound (on_call p g run o)
  on_call-IsBound g i run none e m k v = v
  on_call-IsBound g i run (some call) e m k v = Goes-IsBound g _ i call m e (k call e) v

  calls-issue :
      (g : Gate) (r : Result AuthorizationError Prepared) → (add_capability g r).calls ≡ g.calls
  calls-issue g (ok a) = refl
  calls-issue g (err e) = refl

  -- Every event keeps the calls' knowledge of their bindings.
  pub step-IsBound : (g : Gate) (e : Event) → IsBound g → IsBound (step p g e)
  unfolding step issue_authorization start_consume
  step-IsBound g (issue input valid hex) v =
      Same-IsBound p g _ (step-Move p g (issue input valid hex) v) (calls-issue g _) v
  step-IsBound g (consume c) v =
      reserved-IsBound g _ c _ (reserve-Move p g c) (calls-reserve g c)
        (λ b q. reserve-HasBinding g c b q) v
  step-IsBound g (first_clock i s) v =
      on_call-IsBound g i _ _ refl (step-Move p g (first_clock i s) v)
        (λ call e. first_clock-Goes g i call s call.progress (v.call_knows i call e)) v
  step-IsBound g (observer i s) v =
      on_call-IsBound g i _ _ refl (step-Move p g (observer i s) v)
        (λ call e. observer-Goes g i call s call.progress (v.call_knows i call e)) v
  step-IsBound g (second_clock i s) v =
      on_call-IsBound g i _ _ refl (step-Move p g (second_clock i s) v)
        (λ call e. second_clock-Goes g i call s call.progress) v
  step-IsBound g (downstream i s) v =
      on_call-IsBound g i _ _ refl (step-Move p g (downstream i s) v)
        (λ call e. downstream-Goes g i call s call.progress) v

pub new_gate-IsBound : IsBound new_gate
unfolding new_gate
new_gate-IsBound = record { call_knows = λ i call e. cc }
