-- ===== src/ClaimStore/Sound.antt =====
-- The invariant of a world: every handle and every claim past its `mkdir` owns its directory, and
-- every program that runs is tame.
use swisstokint_open_risk_in.Prelude.{
  ℕ, String, ◌≡◌, refl, sym, subst, ◌∙◌, Bool, false, Option, none, some, arith, inl, inr, ◌⊎◌,
  Bool-cases, ==_iff, ◌==◌, get_elem?, length, get_elem?-append_last, get_elem?-set_self,
  get_elem?-set_ne,
}
use swisstokint_open_risk_in.ClaimStore.Records.{ClaimRecord, Terminal}
use swisstokint_open_risk_in.ClaimStore.Io.{Place, capability_directory, Io, ret, raise, call}
use swisstokint_open_risk_in.ClaimStore.Programs.{Inspection}
use swisstokint_open_risk_in.ClaimStore.Files.{Files, Entry, directory, lookup}
use swisstokint_open_risk_in.ClaimStore.Kept.{is_temp}
use swisstokint_open_risk_in.ClaimStore.Tame.{IsTame}
use swisstokint_open_risk_in.ClaimStore.Owner.{Returns, Guarded, returns}
use swisstokint_open_risk_in.ClaimStore.World.{
  World, Call, Progress, HandleState, claiming, claimed, completing, inspecting, answered, failed,
  failed_closed, terminal, add_call, put_progress, set_handle, set_state, after_claim,
  after_inspect, after_complete, close_handle,
}

abbrev pub Made : Files → String → ℕ → Type 0
Made fs c i = lookup (capability_directory c) fs ≡ some (directory i)

-- The new files still have what the old ones had, but for temporary files.
pub record Keeps (old new : Files) : Type 0 where
  pub entry :
      (b : Place) (x : Entry) → is_temp b ≡ false → lookup b old ≡ some x → lookup b new ≡ some x

-- A claim that runs, not yet past its `mkdir` or past it.
abbrev pub Earning : Files → ℕ → Io ClaimRecord → Type 0
Earning fs i m = (c : String) × (Guarded c m ⊎ (Returns c m × Made fs c i))

abbrev pub Owns : Files → ℕ → Progress → Type 0
Owns fs i (claiming m) = Earning fs i m
Owns fs i (claimed r s) = Made fs r.capability_id i
Owns fs i _ = Unit

-- A program of the store, in some phase.
abbrev pub Tamed : {A : Type 0} → Io A → Type 0
Tamed m = (n : ℕ) × ((b : Bool) × IsTame n b m)

abbrev pub TameCall : Progress → Type 0
TameCall (claiming m) = Tamed m
TameCall (inspecting m) = Tamed m
TameCall (completing h t m) = Tamed m
TameCall _ = Unit

pub record Sound (w : World) : Type 0 where
  pub owns : (i : ℕ) (c : Call) → get_elem? w.calls i ≡ some c → Owns w.files i c.progress
  pub tame : (i : ℕ) (c : Call) → get_elem? w.calls i ≡ some c → TameCall c.progress

pub Owns-kept :
    (old new : Files) (i : ℕ) (q : Progress) → Keeps old new → Owns old i q → Owns new i q
Owns-kept old new i (claiming m) k (c, inl g) = (c, inl g)
Owns-kept old new i (claiming m) k (c, inr (g, e)) = (c, inr (g, k.entry _ _ refl e))
Owns-kept old new i (claimed r s) k h = k.entry _ _ refl h
Owns-kept old new i (completing h t m) k o = tt
Owns-kept old new i (inspecting m) k o = tt
Owns-kept old new i (answered v) k o = tt
Owns-kept old new i (failed e) k o = tt

pub after_claim-Owns :
    (fs : Files) (i : ℕ) (m : Io ClaimRecord) → Earning fs i m → Owns fs i (after_claim m)
after_claim-Owns fs i (ret r) (c, inl g) = elim g [ ]
after_claim-Owns fs i (ret r) (c, inr (returns s e, k)) = rw e k
after_claim-Owns fs i (raise e) h = tt
after_claim-Owns fs i (call o k) h = h

pub after_claim-TameCall : (m : Io ClaimRecord) → Tamed m → TameCall (after_claim m)
after_claim-TameCall (ret r) h = tt
after_claim-TameCall (raise e) h = tt
after_claim-TameCall (call o k) h = h

pub after_inspect-Sound :
    (fs : Files) (i : ℕ) (m : Io Inspection)
    → Tamed m
    → Owns fs i (after_inspect m) × TameCall (after_inspect m)
after_inspect-Sound fs i (ret r) h = (tt, tt)
after_inspect-Sound fs i (raise e) h = (tt, tt)
after_inspect-Sound fs i (call o k) h = (tt, h)

pub after_complete-Sound :
    (fs : Files) (i h : ℕ) (t : Terminal) (m : Io Inspection)
    → Tamed m
    → Owns fs i (after_complete h t m) × TameCall (after_complete h t m)
after_complete-Sound fs i h t (ret r) k = (tt, tt)
after_complete-Sound fs i h t (raise e) k = (tt, tt)
after_complete-Sound fs i h t (call o f) k = (tt, k)

pub add_call-Sound :
    (w : World) (c : Call)
    → Sound w
    → Owns w.files (length w.calls) c.progress × TameCall c.progress
    → Sound (add_call w c)
add_call-Sound w c v (o, t) = record {
  owns = λ i d h. elim (Bool-cases (i == length w.calls)) [
    | inl e ↦
        let z : c ≡ d = ground (arith, get_elem?-append_last w.calls c i) in
        let j : i ≡ length w.calls = (==_iff _ _).0 e in rw (sym z, j) o
    | inr e ↦ v.owns i d (ground (arith, get_elem?-append_last w.calls c i))
  ];
  tame = λ i d h. elim (Bool-cases (i == length w.calls)) [
    | inl e ↦ let z : c ≡ d = ground (arith, get_elem?-append_last w.calls c i) in rw (sym z) t
    | inr e ↦ v.tame i d (ground (arith, get_elem?-append_last w.calls c i))
  ];
}

pub put_progress-Sound :
    (w : World) (i : ℕ) (c : Call) (q : Progress)
    → Sound w
    → get_elem? w.calls i ≡ some c
    → Owns w.files i q × TameCall q
    → Sound (put_progress w i c q)
put_progress-Sound w i c q v h (o, t) =
    let self = get_elem?-set_self w.calls i (record c { progress = q }) h in
    record {
      owns = λ j d k. elim (Bool-cases (i == j)) [
        | inl e ↦
            let j' : i ≡ j = (==_iff _ _).0 e in
            let z : record c { progress = q } ≡ d = ground (arith, self, k, j') in
            subst (λ x. Owns w.files x d.progress) j' (subst (λ x. Owns w.files i x.progress) z o)
        | inr e ↦ v.owns j d (sym (get_elem?-set_ne w.calls i j _ (λ x. ground (arith, e, x))) ∙ k)
      ];
      tame = λ j d k. elim (Bool-cases (i == j)) [
        | inl e ↦
            let j' : i ≡ j = (==_iff _ _).0 e in
            let z : record c { progress = q } ≡ d = ground (arith, self, k, j') in
            subst (λ x. TameCall x.progress) z t
        | inr e ↦ v.tame j d (sym (get_elem?-set_ne w.calls i j _ (λ x. ground (arith, e, x))) ∙ k)
      ];
    }

set_state-Sound :
    (w : World) (h : ℕ) (s : HandleState) (c : Call) (q : Progress)
    → Sound w
    → get_elem? w.calls h ≡ some c
    → Owns w.files h q
    → Sound (set_state w h s c q)
unfolding set_state
set_state-Sound w h s c (claimed r old) v e o = put_progress-Sound w h c (claimed r s) v e (o, tt)
set_state-Sound w h s c (claiming m) v e o = v
set_state-Sound w h s c (completing j t m) v e o = v
set_state-Sound w h s c (inspecting m) v e o = v
set_state-Sound w h s c (answered x) v e o = v
set_state-Sound w h s c (failed x) v e o = v

pub set_handle-Sound :
    (w : World) (h : ℕ) (s : HandleState) (o : Option Call)
    → Sound w
    → get_elem? w.calls h ≡ o
    → Sound (set_handle w h s o)
unfolding set_handle
set_handle-Sound w h s none v e = v
set_handle-Sound w h s (some c) v e = set_state-Sound w h s c c.progress v e (v.owns h c e)

pub close_handle-Sound :
    (w : World) (h : ℕ) (t : Terminal) (m : Io Inspection) → Sound w → Sound (close_handle w h t m)
close_handle-Sound w h t (ret r) v = set_handle-Sound w h (terminal t) _ v refl
close_handle-Sound w h t (raise e) v = set_handle-Sound w h failed_closed _ v refl
close_handle-Sound w h t (call o k) v = v
