-- ===== src/ClaimStore/Handles.antt =====
-- Handles that `complete` has taken: what the parts of a step leave of them.
use swisstokint_open_risk_in.Prelude.{
  ℕ, ◌≡◌, ◌≢◌, refl, ap, subst, ◌∙◌, Bool, true, false, Option, none, some, [], ◌∷◌, arith, inl,
  inr, Bool-cases, ==_iff, ◌==◌, get_elem?, get_elem?-append_left, get_elem?-set_self,
  get_elem?-set_ne,
}
use swisstokint_open_risk_in.ClaimStore.Records.{ClaimRecord, Terminal}
use swisstokint_open_risk_in.ClaimStore.Io.{Op, Reply, Io, ret, raise, call}
use swisstokint_open_risk_in.ClaimStore.Durable.{RootFacts}
use swisstokint_open_risk_in.ClaimStore.Programs.{Inspection}
use swisstokint_open_risk_in.ClaimStore.Files.{Luck}
use swisstokint_open_risk_in.ClaimStore.World.{
  World, Call, Progress, HandleState, claiming, claimed, completing, inspecting, answered, failed,
  handle_open, failed_closed, terminal, add_call, put_progress, set_handle, set_state, close_handle,
  answer, resume_claim, resume_inspect, resume_complete, resume_call, resume_some,
}
use swisstokint_open_risk_in.ClaimStore.Sound.{Sound, TameCall}
use swisstokint_open_risk_in.ClaimStore.Resume.{Answered, answer_op-Answered}

abbrev pub is_open : HandleState → Bool
is_open handle_open = true
is_open _ = false

-- Call `h` returned a handle, which is open no more.
pub record Used (w : World) (h : ℕ) : Type 0 where
  pub holder : Call
  pub claim : ClaimRecord
  pub state : HandleState
  pub found : get_elem? w.calls h ≡ some holder
  pub claims : holder.progress ≡ claimed claim state
  pub closed : is_open state ≡ false

pub add_call-Used : (w : World) (h : ℕ) (c : Call) → Used w h → Used (add_call w c) h
add_call-Used w h c u = record {
  holder = u.holder;
  claim = u.claim;
  state = u.state;
  found = get_elem?-append_left w.calls (c ∷ []) h u.found;
  claims = u.claims;
  closed = u.closed;
}

put_other-Used :
    (w : World) (h i : ℕ) (c : Call) (q : Progress)
    → i ≢ h
    → Used w h
    → Used (put_progress w i c q) h
put_other-Used w h i c q n u = record {
  holder = u.holder;
  claim = u.claim;
  state = u.state;
  found = get_elem?-set_ne w.calls i h _ n ∙ u.found;
  claims = u.claims;
  closed = u.closed;
}

-- A call that still runs is not the one that returned the handle.
abbrev runs : Progress → Bool
runs (claiming m) = true
runs (completing h t m) = true
runs (inspecting m) = true
runs _ = false

runs-ne :
    (w : World) (h i : ℕ) (c : Call)
    → Used w h
    → get_elem? w.calls i ≡ some c
    → runs c.progress ≡ true
    → i ≢ h
runs-ne w h i c u e r n =
    let same : u.holder ≡ c = ground (arith, u.found, e, n) in
    let x : runs u.holder.progress ≡ false = ap runs u.claims in
    let y : runs u.holder.progress ≡ true = ap (λ z. runs z.progress) same ∙ r in cc

-- A call that returned a handle, with the handle in a state that is not open
pub put_self-Used :
    (w : World) (h : ℕ) (c : Call) (r : ClaimRecord) (s : HandleState)
    → get_elem? w.calls h ≡ some c
    → is_open s ≡ false
    → Used (put_progress w h c (claimed r s)) h
put_self-Used w h c r s e k = record {
  holder = record c { progress = claimed r s };
  claim = r;
  state = s;
  found = get_elem?-set_self w.calls h (record c { progress = claimed r s }) e;
  claims = refl;
  closed = k;
}

put_handle-Used :
    (w : World) (h j : ℕ) (c : Call) (r : ClaimRecord) (s : HandleState)
    → get_elem? w.calls j ≡ some c
    → is_open s ≡ false
    → Used w h
    → Used (put_progress w j c (claimed r s)) h
put_handle-Used w h j c r s e k u = elim (Bool-cases (j == h)) [
  | inl z ↦
      subst (λ x. Used (put_progress w j c (claimed r s)) x) ((==_iff j h).0 z)
        (put_self-Used w j c r s e k)
  | inr z ↦ put_other-Used w h j c _ (λ x. ground (arith, z, x)) u
]

set_state-Used :
    (w : World) (h j : ℕ) (s : HandleState) (c : Call) (q : Progress)
    → get_elem? w.calls j ≡ some c
    → is_open s ≡ false
    → Used w h
    → Used (set_state w j s c q) h
unfolding set_state
set_state-Used w h j s c (claimed r old) e k u = put_handle-Used w h j c r s e k u
set_state-Used w h j s c (claiming m) e k u = u
set_state-Used w h j s c (completing i t m) e k u = u
set_state-Used w h j s c (inspecting m) e k u = u
set_state-Used w h j s c (answered x) e k u = u
set_state-Used w h j s c (failed x) e k u = u

pub set_handle-Used :
    (w : World) (h j : ℕ) (s : HandleState) (o : Option Call)
    → get_elem? w.calls j ≡ o
    → is_open s ≡ false
    → Used w h
    → Used (set_handle w j s o) h
unfolding set_handle
set_handle-Used w h j s none e k u = u
set_handle-Used w h j s (some c) e k u = set_state-Used w h j s c c.progress e k u

pub close_handle-Used :
    (w : World) (h j : ℕ) (t : Terminal) (m : Io Inspection)
    → Used w h
    → Used (close_handle w j t m) h
close_handle-Used w h j t (ret v) u = set_handle-Used w h j (terminal t) _ refl refl u
close_handle-Used w h j t (raise e) u = set_handle-Used w h j failed_closed _ refl refl u
close_handle-Used w h j t (call o k) u = u

Answered-Used :
    (w : World) (h i : ℕ) (o : Op) (a : World × Reply) → Answered w i o a → Used w h → Used a.0 h
Answered-Used w h i o a n u = record {
  holder = u.holder;
  claim = u.claim;
  state = u.state;
  found = ap (λ x. get_elem? x h) n.same_calls ∙ u.found;
  claims = u.claims;
  closed = u.closed;
}

resume_call-Used :
    (w : World) (h i : ℕ) (l : Luck) (facts : RootFacts) (c : Call) (q : Progress)
    → get_elem? w.calls i ≡ some c
    → c.progress ≡ q
    → TameCall q
    → Used w h
    → Used (resume_call w i l facts c q) h
unfolding resume_call resume_claim resume_inspect resume_complete
resume_call-Used w h i l facts c (claiming (call o k)) e p t u =
    put_other-Used _ h i c _ (runs-ne w h i c u e (ap runs p))
      (Answered-Used w h i o _ (answer_op-Answered w c.store i l facts o k t) u)
resume_call-Used w h i l facts c (inspecting (call o k)) e p t u =
    put_other-Used _ h i c _ (runs-ne w h i c u e (ap runs p))
      (Answered-Used w h i o _ (answer_op-Answered w c.store i l facts o k t) u)
resume_call-Used w h i l facts c (completing j x (call o k)) e p t u =
    close_handle-Used _ h j x (k (answer w c.store i l facts o).1) (
      put_other-Used _ h i c _ (runs-ne w h i c u e (ap runs p))
        (Answered-Used w h i o _ (answer_op-Answered w c.store i l facts o k t) u))
resume_call-Used w h i l facts c (claiming (ret r)) e p t u = u
resume_call-Used w h i l facts c (claiming (raise x)) e p t u = u
resume_call-Used w h i l facts c (inspecting (ret r)) e p t u = u
resume_call-Used w h i l facts c (inspecting (raise x)) e p t u = u
resume_call-Used w h i l facts c (completing j x (ret r)) e p t u = u
resume_call-Used w h i l facts c (completing j x (raise y)) e p t u = u
resume_call-Used w h i l facts c (claimed r s) e p t u = u
resume_call-Used w h i l facts c (answered r) e p t u = u
resume_call-Used w h i l facts c (failed x) e p t u = u

pub resume_some-Used :
    (w : World) (h i : ℕ) (l : Luck) (facts : RootFacts) (o : Option Call)
    → Sound w
    → get_elem? w.calls i ≡ o
    → Used w h
    → Used (resume_some w i l facts o) h
unfolding resume_some
resume_some-Used w h i l facts none v e u = u
resume_some-Used w h i l facts (some c) v e u =
    resume_call-Used w h i l facts c c.progress e refl (v.tame i c e) u
