-- ===== src/Gate/Moves/Bound.antt =====
-- A running call knows the binding of its capability, and every event keeps that so.
use swisstokint_open_risk_in.Prelude.{
  ℕ, ◌≡◌, refl, sym, ◌∙◌, subst, some, List, [], ◌∷◌, ◌++◌, arith, inl, inr, Bool-cases, get_elem?,
  set, ◌==◌, ==_iff, get_elem?-append_left, get_elem?-append_last, get_elem?-set_self,
  get_elem?-set_ne, length,
}
use swisstokint_open_risk_in.Platform.{Platform}
use swisstokint_open_risk_in.Authorization.{Binding}
use swisstokint_open_risk_in.Gate.Defs.{
  Gate, Call, Capability, Progress, consuming, at_first_clock, at_observer, at_second_clock,
  at_downstream, returned, thrown,
}
use swisstokint_open_risk_in.Gate.Moves.Parts.{
  Move, stay, issues, shifts, forwards_one, HasBinding, Knows, IsBound,
}

-- A capability keeps its binding when the state of one is changed.
set-HasBinding :
    (caps : List Capability) (c c' : ℕ) (r r' s : Capability)
    → get_elem? caps c' ≡ some r'
    → s.binding ≡ r'.binding
    → get_elem? caps c ≡ some r
    → (x : Capability) × (get_elem? (set caps c' s) c ≡ some x) × (x.binding ≡ r.binding)
set-HasBinding caps c c' r r' s e k h = elim (Bool-cases (c' == c)) [
  | inl q ↦
      let same : c' ≡ c = (==_iff c' c).0 q in
      (
        s,
        subst (λ n. get_elem? (set caps c' s) n ≡ some s) same (get_elem?-set_self caps c' s e),
        ground arith,
      )
  | inr q ↦ (r, get_elem?-set_ne caps c' c s (λ p. ground arith) ∙ h, refl)
]

module _ (p : Platform) where
  pub Move-HasBinding :
      (g h : Gate) (c : ℕ) (b : Binding) → Move p g h → HasBinding g c b → HasBinding h c b
  Move-HasBinding g h c b (stay e f) (r, q, k) = (r, rw e q, k)
  Move-HasBinding g h c b (issues x v e f) (r, q, k) =
      (r, rw e (get_elem?-append_left g.capabilities _ c q), k)
  Move-HasBinding g h c b (shifts c' r' s q' n e f) (r, q, k) =
      let (x, y, z) = set-HasBinding g.capabilities c c' r r' (record r' { state = s }) q' refl q in
      (x, rw e y, z ∙ k)
  Move-HasBinding g h c b (forwards_one f' r' q' v w e f) (r, q, k) =
      let (x, y, z) =
        set-HasBinding g.capabilities c f'.capability r r' (record r' { state = consuming }) q' refl
          q in
      (x, rw e y, z ∙ k)

  Move-Knows : (g h : Gate) (c : ℕ) (at : Progress) → Move p g h → Knows g c at → Knows h c at
  Move-Knows g h c (at_first_clock b) m k = Move-HasBinding g h c b m k
  Move-Knows g h c (at_observer b) m k = Move-HasBinding g h c b m k
  Move-Knows g h c (at_second_clock b o) m (k, e) = (Move-HasBinding g h c b m k, e)
  Move-Knows g h c at_downstream m k = tt
  Move-Knows g h c (returned v) m k = tt
  Move-Knows g h c (thrown e) m k = tt

-- The call of index `i` went on to where it knows what it has to.
abbrev pub Progressed : Gate → Gate → ℕ → Call → Type 0
Progressed g h i call =
    (at : Progress) × (h.calls ≡ set g.calls i (record call { progress = at }))
    × Knows h call.capability at

module _ (p : Platform) where
  pub Progressed-IsBound :
      (g h : Gate) (i : ℕ) (call : Call)
      → Move p g h
      → get_elem? g.calls i ≡ some call
      → Progressed g h i call
      → IsBound g
      → IsBound h
  Progressed-IsBound g h i call m e (at, q, k) v = record {
    call_knows = λ j other found. elim (Bool-cases (i == j)) [
      | inl w ↦
          let same : i ≡ j = (==_iff i j).0 w in
          let there : get_elem? h.calls j ≡ some (record call { progress = at }) = rw q (
            subst
              (λ n.
                get_elem? (set g.calls i (record call { progress = at })) n
                ≡ some (record call { progress = at }))
              same (get_elem?-set_self g.calls i _ e)) in
          let it : record call { progress = at } ≡ other = ground arith in
          subst (λ (x : Call). Knows h x.capability x.progress) it k
      | inr w ↦ Move-Knows p g h other.capability other.progress m (
          v.call_knows j other (
            sym (get_elem?-set_ne g.calls i j (record call { progress = at }) (λ z. ground arith))
            ∙ (rw (← q) found)))
    ];
  }

  pub Same-IsBound : (g h : Gate) → Move p g h → h.calls ≡ g.calls → IsBound g → IsBound h
  Same-IsBound g h m e v = record {
    call_knows = λ j other found. Move-Knows p g h _ _ m (v.call_knows j other (rw e at found));
  }

  pub Added-IsBound :
      (g h : Gate) (call : Call)
      → Move p g h
      → h.calls ≡ g.calls ++ call ∷ []
      → Knows h call.capability call.progress
      → IsBound g
      → IsBound h
  Added-IsBound g h call m e k v = record {
    call_knows = λ j other found. elim (Bool-cases (j == length g.calls)) [
      | inl w ↦
          let it : call ≡ other = ground (arith, get_elem?-append_last g.calls call j) in
          subst (λ (x : Call). Knows h x.capability x.progress) it k
      | inr w ↦
          Move-Knows p g h _ _ m
            (v.call_knows j other (ground (arith, get_elem?-append_last g.calls call j)))
    ];
  }
