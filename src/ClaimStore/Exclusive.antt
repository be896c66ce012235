-- ===== src/ClaimStore/Exclusive.antt =====
-- At most one handle per capability, whatever the interleaving and whatever fails.
use swisstokint_open_risk_in.Prelude.{
  ℕ, String, ◌≡◌, refl, subst, Bool, true, false, Option, none, some, List, [], ◌∷◌, Result, ok,
  err, inl, get_elem?,
}
use swisstokint_open_risk_in.Data.{Data}
use swisstokint_open_risk_in.Platform.{Platform}
use swisstokint_open_risk_in.ClaimStore.Records.{ClaimError, ClaimRecord, TerminalRecord}
use swisstokint_open_risk_in.ClaimStore.Programs.{finalize}
use swisstokint_open_risk_in.ClaimStore.Tame.{claim-IsTame, inspect-IsTame, finalize-IsTame}
use swisstokint_open_risk_in.ClaimStore.Owner.{claim-Guarded}
use swisstokint_open_risk_in.ClaimStore.World.{
  World, Call, Progress, HandleState, Event, claiming, claimed, completing, inspecting, answered,
  failed, handle_open, finalizing, failed_closed, terminal, complete, complete_handle,
  complete_outcome, complete_with, set_handle, close_handle, terminal_of, step, run, empty_world,
  start_claim, start_inspect, start_complete, resume,
}
use swisstokint_open_risk_in.ClaimStore.Sound.{
  Made, Owns, Sound, after_claim-Owns, after_claim-TameCall, after_inspect-Sound,
  after_complete-Sound, add_call-Sound, set_handle-Sound, close_handle-Sound,
}
use swisstokint_open_risk_in.ClaimStore.Resume.{resume_some-Sound}

pub empty_world-Sound : Sound empty_world
empty_world-Sound = record { owns = λ i c e. cc; tame = λ i c e. cc }

module _ (p : Platform) (parse_json : String → Option Data) where
  complete_with-Sound :
      (w : World) (s h nonce : ℕ) (r : ClaimRecord) (b : Bool)
      (q : Result ClaimError TerminalRecord)
      → Sound w
      → Sound (complete_with p parse_json w s h nonce r b q)
  unfolding complete_with
  complete_with-Sound w s h nonce r b (err e) v =
      add_call-Sound _ _ (set_handle-Sound w h finalizing _ v refl) (tt, tt)
  complete_with-Sound w s h nonce r b (ok t) v =
      let m = finalize p parse_json r t nonce in
      let finalized = set_handle w h finalizing (get_elem? w.calls h) in
      let closed = close_handle finalized h (terminal_of b) m in
      add_call-Sound closed _
        (close_handle-Sound finalized h _ m (set_handle-Sound w h finalizing _ v refl))
        (after_complete-Sound closed.files _ h _ m
          (nonce, (false, finalize-IsTame p parse_json r t nonce)))

  complete_outcome-Sound :
      (w : World) (s h nonce : ℕ) (r : ClaimRecord) (o : Option Bool)
      → Sound w
      → Sound (complete_outcome p parse_json w s h nonce r o)
  unfolding complete_outcome
  complete_outcome-Sound w s h nonce r none v = add_call-Sound _ _ v (tt, tt)
  complete_outcome-Sound w s h nonce r (some b) v = complete_with-Sound w s h nonce r b _ v

  complete_handle-Sound :
      (w : World) (s h nonce : ℕ) (o : Option Bool) (q : Progress) (b : Bool)
      → Sound w
      → Sound (complete_handle p parse_json w s h nonce o q b)
  unfolding complete_handle
  complete_handle-Sound w s h nonce o (claimed r handle_open) true v =
      complete_outcome-Sound w s h nonce r o v
  complete_handle-Sound w s h nonce o (claimed r handle_open) false v =
      add_call-Sound _ _ v (tt, tt)
  complete_handle-Sound w s h nonce o (claimed r finalizing) b v = add_call-Sound _ _ v (tt, tt)
  complete_handle-Sound w s h nonce o (claimed r failed_closed) b v = add_call-Sound _ _ v (tt, tt)
  complete_handle-Sound w s h nonce o (claimed r (terminal t)) b v = add_call-Sound _ _ v (tt, tt)
  complete_handle-Sound w s h nonce o (claiming m) b v = add_call-Sound _ _ v (tt, tt)
  complete_handle-Sound w s h nonce o (completing j t m) b v = add_call-Sound _ _ v (tt, tt)
  complete_handle-Sound w s h nonce o (inspecting m) b v = add_call-Sound _ _ v (tt, tt)
  complete_handle-Sound w s h nonce o (answered m) b v = add_call-Sound _ _ v (tt, tt)
  complete_handle-Sound w s h nonce o (failed m) b v = add_call-Sound _ _ v (tt, tt)

  complete-Sound :
      (w : World) (s h nonce : ℕ) (o : Option Bool) (c : Option Call)
      → Sound w
      → Sound (complete p parse_json w s h nonce o c)
  unfolding complete
  complete-Sound w s h nonce o none v = add_call-Sound _ _ v (tt, tt)
  complete-Sound w s h nonce o (some c) v = complete_handle-Sound w s h nonce o c.progress _ v

  pub step-Sound : (w : World) (e : Event) → Sound w → Sound (step p parse_json w e)
  unfolding step
  step-Sound w (start_claim s input nonce) v =
      let (c, g) = claim-Guarded p parse_json input nonce in
      add_call-Sound w _ v (
        after_claim-Owns w.files _ _ (c, inl g),
        after_claim-TameCall _ (nonce, (false, claim-IsTame p parse_json input nonce)),
      )
  step-Sound w (start_inspect s input) v =
      add_call-Sound w _ v
        (after_inspect-Sound w.files _ _ (0, (true, inspect-IsTame p parse_json input)))
  step-Sound w (start_complete s h o nonce) v = complete-Sound w s h nonce o _ v
  step-Sound w (resume i l facts) v = resume_some-Sound w i l facts _ v refl

  pub run-Sound : (w : World) (es : List Event) → Sound w → Sound (run p parse_json w es)
  unfolding run
  run-Sound w [] v = v
  run-Sound w (e ∷ es) v = run-Sound (step p parse_json w e) es (step-Sound w e v)

  -- From an empty file system, whatever the interleaving of claims, completions and inspections of any
  -- number of stores, and whichever operations fail: two calls of `claim` that both returned a handle
  -- for one capability are the same call.
  pub claim_exclusive :
      (es : List Event) (i j : ℕ) (c d : Call) (r t : ClaimRecord) (s u : HandleState)
      → get_elem? (run p parse_json empty_world es).calls i ≡ some c
      → get_elem? (run p parse_json empty_world es).calls j ≡ some d
      → c.progress ≡ claimed r s
      → d.progress ≡ claimed t u
      → r.capability_id ≡ t.capability_id
      → i ≡ j
  claim_exclusive es i j c d r t s u a b x y e =
      let v = run-Sound empty_world es empty_world-Sound in
      let m : Made (run p parse_json empty_world es).files r.capability_id i =
        subst (Owns (run p parse_json empty_world es).files i) x (v.owns i c a) in
      let n : Made (run p parse_json empty_world es).files t.capability_id j =
        subst (Owns (run p parse_json empty_world es).files j) y (v.owns j d b) in
      let n' : Made (run p parse_json empty_world es).files r.capability_id j = rw e n in cc
