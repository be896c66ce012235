-- ===== src/Gate/Defs.antt =====
-- The state of a gate harness, and the parts of `consume`. A capability is an object without fields,
-- known by its identity: its index in the order of issue. A call of `consume` is known by its index too.
use swisstokint_open_risk_in.Prelude.{
  ℕ, String, Bool, true, false, ◌&&◌, Option, none, some, List, [], ◌∷◌, Result, ok, err, ◌>>=◌,
  ltb, leb, if◌then◌else◌, str_eq, hash_pattern, get_elem?, set,
}
use swisstokint_open_risk_in.Data.{Data}
use swisstokint_open_risk_in.Platform.{Platform}
use swisstokint_open_risk_in.Value.{Value, Sample, sampled, clock_threw, is_function}
use swisstokint_open_risk_in.Value.Exact.{Snapshot, value_at, snapshot_exact_references}
use swisstokint_open_risk_in.PlainData.{capture_plain_data}
use swisstokint_open_risk_in.Authorization.{Binding, canonical_instant, profile_pattern}

-- The codes of `PomRxGateError`.
pub data GateError : Type 0 where
  capability_required capability_stale capability_not_yet_valid capability_expired : GateError
  time_invalid time_rollback observer_failed binding_mismatch downstream_failed : GateError

pub data CapabilityState : Type 0 where
  available validating rejected consuming consumed_success consumed_error : CapabilityState

pub record Capability : Type 0 where
  pub state : CapabilityState
  pub binding : Binding

-- What the trusted observer reported.
pub record Observed : Type 0 where
  pub binding_profile : String
  pub action_commitment : String
  pub context_commitment : String
  pub prepared_execution : Data

-- Where a call of `consume` stands: what it waits for, or how it ended.
pub data Progress : Type 0 where
  at_first_clock at_observer : Binding → Progress
  at_second_clock : Binding → Observed → Progress
  at_downstream : Progress
  returned : Value → Progress
  thrown : GateError → Progress

pub record Call : Type 0 where
  pub capability : ℕ
  pub progress : Progress

-- One call of `executeDownstream`: its argument, and for whom and when it was made.
pub record Forward : Type 0 where
  pub capability : ℕ
  pub observed : Observed
  pub at_ms : ℕ

pub record Gate : Type 0 where
  pub capabilities : List Capability
  pub last_trusted_time_ms : Option ℕ
  pub calls : List Call
  pub forwards : List Forward

-- The private state with which a harness starts.
unfoldable pub new_gate : Gate
new_gate = record { capabilities = []; last_trusted_time_ms = none; calls = []; forwards = [] }

harness_keys : List String
harness_keys = "executeDownstream" ∷ "observeBinding" ∷ "trustedClock" ∷ []

with_functions : Snapshot → Option Gate
with_functions s =
    if is_function (value_at "trustedClock" s)
      && is_function (value_at "observeBinding" s)
      && is_function (value_at "executeDownstream" s)
    then some new_gate
    else none

-- `createReferenceSingleUseGateHarness`; `none` is its TypeError.
unfoldable pub create_harness : Value → Option Gate
unfolding harness_keys with_functions
create_harness options = elim (snapshot_exact_references harness_keys options) [
  | none ↦ none
  | some s ↦ with_functions s
]

-- How a promise settles.
pub data Settled : Type 0 where
  fulfilled : Value → Settled
  rejected_with : Settled

pub record Outcome (A : Type 0) : Type 0 where
  pub gate : Gate
  pub result : Result GateError A

module _ (p : Platform) where
  unfoldable pub sample_trusted_clock : Sample → Result GateError ℕ
  sample_trusted_clock clock_threw = err time_invalid
  sample_trusted_clock (sampled v) = elim (canonical_instant p v) [
    | none ↦ err time_invalid
    | some ms ↦ ok ms
  ]

  moved_back : ℕ → Option ℕ → Bool
  moved_back now none = false
  moved_back now (some last) = ltb now last

  unfoldable pub advance_clock : Gate → Result GateError ℕ → Outcome ℕ
  unfolding moved_back
  advance_clock g (err e) = record { gate = g; result = err e }
  advance_clock g (ok now) =
      if moved_back now g.last_trusted_time_ms
      then record { gate = g; result = err time_rollback }
      else record { gate = record g { last_trusted_time_ms = some now }; result = ok now }

  -- `sampleGateClock`
  unfoldable pub sample_gate_clock : Gate → Sample → Outcome ℕ
  unfolding advance_clock
  sample_gate_clock g s = advance_clock g (sample_trusted_clock s)

  -- A comparison with NaN is false.
  before : ℕ → Option ℕ → Bool
  before now none = false
  before now (some t) = ltb now t

  reached : ℕ → Option ℕ → Bool
  reached now none = false
  reached now (some t) = leb t now

  unfoldable pub assert_capability_active : Binding → ℕ → Result GateError Unit
  unfolding before reached
  assert_capability_active b now =
      if before now (p.date_parse b.issued_at)
      then err capability_not_yet_valid
      else if reached now (p.date_parse b.expires_at)
      then err capability_expired
      else ok tt

observed_keys : List String
observed_keys =
    "binding_profile" ∷ "action_commitment" ∷ "context_commitment" ∷ "prepared_execution" ∷ []

checked_text : (String → Bool) → Value → Result GateError String
checked_text pattern (Value.text s) = if pattern s then ok s else err observer_failed
checked_text pattern v = err observer_failed

captured_data : Value → Result GateError Data
captured_data v = elim (capture_plain_data v) [ ok d ↦ ok d | err e ↦ err observer_failed ]

observed_record : Option Snapshot → Result GateError Observed
unfolding checked_text captured_data
observed_record none = err observer_failed
observed_record (some s) = do
  profile ← checked_text profile_pattern (value_at "binding_profile" s)
  action ← checked_text hash_pattern (value_at "action_commitment" s)
  context ← checked_text hash_pattern (value_at "context_commitment" s)
  prepared ← captured_data (value_at "prepared_execution" s)
  ok (record {
    binding_profile = profile;
    action_commitment = action;
    context_commitment = context;
    prepared_execution = prepared;
  })

-- `validateObservedBinding(await observeBinding(…))`: a rejection is an observer failure too. An
-- observer that rejects with an error of this gate's own class, which the source passes on with that error's
-- code, has no counterpart.
unfoldable pub validate_observed : Settled → Result GateError Observed
unfolding observed_keys observed_record
validate_observed rejected_with = err observer_failed
validate_observed (fulfilled v) = observed_record (snapshot_exact_references observed_keys v)

-- `exactBindingMatches`
unfoldable pub exact_binding_matches : Binding → Observed → Bool
exact_binding_matches b o =
    str_eq b.binding_profile o.binding_profile
    && str_eq b.action_commitment o.action_commitment
    && str_eq b.context_commitment o.context_commitment

-- The state of a capability, `none` for an object that this gate has not issued.
unfoldable pub capability_state : Gate → ℕ → Option CapabilityState
capability_state g c = elim (get_elem? g.capabilities c) [ none ↦ none | some r ↦ some r.state ]

abbrev pub with_state : Gate → ℕ → Capability → CapabilityState → Gate
with_state g c r s = record g { capabilities = set g.capabilities c (record r { state = s }) }

-- `record.state = next` if the capability is in the state that the step wants, else STALE.
abbrev pub change :
    (CapabilityState → Bool) → CapabilityState → Gate → ℕ → Option Capability → Outcome Unit
change wanted next g c none = record { gate = g; result = err capability_stale }
change wanted next g c (some r) =
    if wanted r.state
    then record { gate = with_state g c r next; result = ok tt }
    else record { gate = g; result = err capability_stale }

abbrev pub is_available : CapabilityState → Bool
is_available available = true
is_available _ = false

abbrev pub is_validating : CapabilityState → Bool
is_validating validating = true
is_validating _ = false

abbrev pub is_consuming : CapabilityState → Bool
is_consuming consuming = true
is_consuming _ = false

abbrev pub reserve_from : Gate → ℕ → Option Capability → Outcome Binding
reserve_from g c none = record { gate = g; result = err capability_required }
reserve_from g c (some r) =
    if is_available r.state
    then record { gate = with_state g c r validating; result = ok r.binding }
    else record { gate = g; result = err capability_stale }

unfoldable pub reserve_capability : Gate → ℕ → Outcome Binding
reserve_capability g c = reserve_from g c (get_elem? g.capabilities c)

unfoldable pub reject_capability : Gate → ℕ → Outcome Unit
reject_capability g c = change is_validating rejected g c (get_elem? g.capabilities c)

unfoldable pub begin_consumption : Gate → ℕ → Outcome Unit
begin_consumption g c = change is_validating consuming g c (get_elem? g.capabilities c)

abbrev pub consumed : Bool → CapabilityState
consumed true = consumed_success
consumed false = consumed_error

unfoldable pub complete_consumption : Gate → ℕ → Bool → Outcome Unit
complete_consumption g c success =
    change is_consuming (consumed success) g c (get_elem? g.capabilities c)
