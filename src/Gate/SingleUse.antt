-- ===== src/Gate/SingleUse.antt =====
-- What holds of a gate after any schedule: no capability is forwarded twice, and what was forwarded was
-- authorized.
use swisstokint_open_risk_in.Prelude.{
  ℕ, zero, suc, ◌+◌, ◌≡◌, refl, sym, ◌∙◌, subst, Option, none, some, List, [], ◌∷◌, ◌++◌, arith,
  inl, inr, Bool-cases, get_elem?, set, if◌then◌else◌, ◌==◌, All, All-append, All-map_of,
  get_elem?-append_last, get_elem?-set_self, get_elem?-set_ne, length,
}
use swisstokint_open_risk_in.Platform.{Platform}
use swisstokint_open_risk_in.Authorization.{Binding, IsValidWindow}
use swisstokint_open_risk_in.Gate.Defs.{
  Gate, Capability, CapabilityState, Forward, available, validating, rejected, consuming,
  consumed_success, consumed_error, new_gate, capability_state,
}
use swisstokint_open_risk_in.Gate.Steps.{Event, step, run}
use swisstokint_open_risk_in.Gate.Moves.{
  Move, stay, issues, shifts, forwards_one, Next, reserves, rejects, succeeds_next, fails_next,
  Covers, IsBound, HasBinding, Move-HasBinding, step-Move, step-IsBound, new_gate-IsBound,
}

-- How often the downstream function was called for a capability.
abbrev pub uses : ℕ → List Forward → ℕ
uses c [] = 0
uses c (f ∷ fs) = if f.capability == c then suc (uses c fs) else uses c fs

-- How often it may have been, by the state of the capability.
abbrev pub spent : Option CapabilityState → ℕ
spent none = 0
spent (some available) = 0
spent (some validating) = 0
spent (some rejected) = 0
spent (some consuming) = 1
spent (some consumed_success) = 1
spent (some consumed_error) = 1

uses-append :
    (c : ℕ) (fs : List Forward) (f : Forward)
    → uses c (fs ++ f ∷ []) ≡ uses c fs + (if f.capability == c then 1 else 0)
uses-append c [] f = ground arith
uses-append c (x ∷ fs) f = ground (arith, uses-append c fs f)

abbrev pub state_at : List Capability → ℕ → Option CapabilityState
state_at caps c = elim (get_elem? caps c) [ none ↦ none | some r ↦ some r.state ]

pub state_at-set :
    (caps : List Capability) (c c' : ℕ) (r : Capability) (s : CapabilityState)
    → get_elem? caps c ≡ some r
    → state_at (set caps c (record r { state = s })) c'
      ≡ (if c == c' then some s else state_at caps c')
state_at-set caps c c' r s h = elim (Bool-cases (c == c')) [
  | inl q ↦ ground (arith, get_elem?-set_self caps c (record r { state = s }) h)
  | inr q ↦ ground (arith, get_elem?-set_ne caps c c' (record r { state = s }) (λ e. ground arith))
]

state_at-append :
    (caps : List Capability) (b : Binding) (c : ℕ)
    → spent (state_at (caps ++ record { state = available; binding = b } ∷ []) c)
      ≡ spent (state_at caps c)
state_at-append [] b zero = refl
state_at-append [] b (suc c) = refl
state_at-append (x ∷ caps) b zero = refl
state_at-append (x ∷ caps) b (suc c) = state_at-append caps b c

Next-spent : (s t : CapabilityState) → Next s t → spent (some t) ≡ spent (some s)
Next-spent s t reserves = refl
Next-spent s t rejects = refl
Next-spent s t succeeds_next = refl
Next-spent s t fails_next = refl

-- The number of forwarded executions agrees with the state, for every capability.
abbrev pub Accounted : Gate → Type 0
Accounted g = (c : ℕ) → uses c g.forwards ≡ spent (capability_state g c)

module _ (p : Platform) where
  Move-Accounted : (g h : Gate) → Move p g h → Accounted g → Accounted h
  unfolding capability_state
  Move-Accounted g h (stay e f) a c = rw (e, f) (a c)
  Move-Accounted g h (issues b v e f) a c =
      rw (e, f) (a c ∙ sym (state_at-append g.capabilities b c))
  Move-Accounted g h (shifts d r s q n e f) a c =
      rw (e, f) (ground (arith, a c, state_at-set g.capabilities d c r s q, Next-spent r.state s n))
  Move-Accounted g h (forwards_one f r q v k e w) a c =
      rw (e, w)
        (ground (
          arith,
          a c,
          uses-append c g.forwards f,
          state_at-set g.capabilities f.capability c r consuming q,
        ))

  -- The binding that forwarded execution `f` was made under.
  pub record UnderBinding (g : Gate) (f : Forward) : Type 0 where
    pub binding : Binding
    pub held : HasBinding g f.capability binding
    pub covers : Covers p binding f
    pub window : IsValidWindow p binding.window

  pub record Inv (g : Gate) : Type 0 where
    pub bound : IsBound g
    pub accounted : Accounted g
    pub issued :
        (c : ℕ) (r : Capability)
        → get_elem? g.capabilities c ≡ some r
        → IsValidWindow p r.binding.window
    pub under : All (UnderBinding g) g.forwards

  UnderBinding-Move : (g h : Gate) (f : Forward) → Move p g h → UnderBinding g f → UnderBinding h f
  UnderBinding-Move g h f m u = record {
    binding = u.binding;
    held = Move-HasBinding p g h f.capability u.binding m u.held;
    covers = u.covers;
    window = u.window;
  }

  set-issued :
      (caps : List Capability) (c d : ℕ) (r r' s : Capability)
      → ((c : ℕ) (r : Capability) → get_elem? caps c ≡ some r → IsValidWindow p r.binding.window)
      → get_elem? caps d ≡ some r'
      → s.binding ≡ r'.binding
      → get_elem? (set caps d s) c ≡ some r
      → IsValidWindow p r.binding.window
  set-issued caps c d r r' s v e k q = elim (Bool-cases (d == c)) [
    | inl z ↦
        let same : r'.binding ≡ r.binding = ground (arith, get_elem?-set_self caps d s e) in
        subst (λ (b : Binding). IsValidWindow p b.window) same (v d r' e)
    | inr z ↦ v c r (sym (get_elem?-set_ne caps d c s (λ w. ground arith)) ∙ q)
  ]

  Move-issued :
      (g h : Gate)
      → Move p g h
      → ((c : ℕ) (r : Capability)
          → get_elem? g.capabilities c ≡ some r
          → IsValidWindow p r.binding.window)
      → (c : ℕ) (r : Capability) → get_elem? h.capabilities c ≡ some r
      → IsValidWindow p r.binding.window
  Move-issued g h (stay e f) v c r q = v c r (rw (← e) q)
  Move-issued g h (issues b w e f) v c r q = elim (Bool-cases (c == length g.capabilities)) [
    | inl z ↦
        subst (λ (x : Capability). IsValidWindow p x.binding.window)
          {x = record { state = available; binding = b }} {y = r}
          (ground (
            arith,
            get_elem?-append_last g.capabilities (record { state = available; binding = b }) c,
          ))
          w
    | inr z ↦ v c r (
        ground (
          arith,
          get_elem?-append_last g.capabilities (record { state = available; binding = b }) c,
        ))
  ]
  Move-issued g h (shifts d r' s q' n e f) v c r q =
      set-issued g.capabilities c d r r' (record r' { state = s }) v q' refl (rw e at q)
  Move-issued g h (forwards_one f' r' q' w k e f) v c r q =
      set-issued g.capabilities c f'.capability r r' (record r' { state = consuming }) v q' refl
        (rw e at q)

  Move-under :
      (g h : Gate)
      → Inv g
      → Move p g h
      → All (UnderBinding h) g.forwards
      → All (UnderBinding h) h.forwards
  Move-under g h v (stay e f) u = subst (All (UnderBinding h)) (sym f) u
  Move-under g h v (issues b w e f) u = subst (All (UnderBinding h)) (sym f) u
  Move-under g h v (shifts d r s q n e f) u = subst (All (UnderBinding h)) (sym f) u
  Move-under g h v (forwards_one f r q w k e l) u = subst (All (UnderBinding h)) (sym l) (
      All-append (UnderBinding h) g.forwards (f ∷ []) u (
        record {
          binding = r.binding;
          held = (
            record r { state = consuming },
            rw e (get_elem?-set_self g.capabilities f.capability _ q),
            refl,
          );
          covers = k;
          window = v.issued f.capability r q;
        },
        tt,
      ))

  pub step-Inv : (g : Gate) (e : Event) → Inv g → Inv (step p g e)
  step-Inv g e v =
      let m = step-Move p g e v.bound in
      record {
        bound = step-IsBound p g e v.bound;
        accounted = Move-Accounted g _ m v.accounted;
        issued = Move-issued g _ m v.issued;
        under = Move-under g _ v m (
            All-map_of (UnderBinding g) (UnderBinding (step p g e)) g.forwards
              (λ f. UnderBinding-Move g _ f m) v.under);
      }

  pub run-Inv : (g : Gate) (es : List Event) → Inv g → Inv (run p g es)
  unfolding run
  run-Inv g [] v = v
  run-Inv g (e ∷ es) v = run-Inv (step p g e) es (step-Inv g e v)

  pub new_gate-Inv : Inv new_gate
  unfolding new_gate capability_state
  new_gate-Inv = record {
    bound = new_gate-IsBound;
    accounted = λ c. refl;
    issued = λ c r e. cc;
    under = tt;
  }
