-- ===== src/ClaimStore/Lifecycle.antt =====
-- The life of a handle: once `complete` has taken it, it never opens again.
use swisstokint_open_risk_in.Prelude.{
  ℕ, String, ◌≡◌, refl, Bool, true, false, Option, none, some, List, [], ◌∷◌, Result, ok, err,
  ==_iff, get_elem?,
}
use swisstokint_open_risk_in.Data.{Data}
use swisstokint_open_risk_in.Platform.{Platform}
use swisstokint_open_risk_in.ClaimStore.Records.{
  ClaimError, ClaimRecord, TerminalRecord, durable_stale,
}
use swisstokint_open_risk_in.ClaimStore.World.{
  World, Call, Progress, HandleState, Event, claiming, claimed, completing, inspecting, answered,
  failed, handle_open, finalizing, failed_closed, terminal, add_call, new_call, complete,
  complete_handle, complete_outcome, complete_with, step, run, start_claim, start_inspect,
  start_complete, resume, set_handle, set_state, terminal_of,
}
use swisstokint_open_risk_in.ClaimStore.Sound.{Sound}
use swisstokint_open_risk_in.ClaimStore.Exclusive.{step-Sound}
use swisstokint_open_risk_in.ClaimStore.Records.{make_terminal_record}
use swisstokint_open_risk_in.ClaimStore.Handles.{
  is_open, Used, add_call-Used, set_handle-Used, put_self-Used, close_handle-Used, resume_some-Used,
}

-- Call `h` of the store returned a handle, which is open.
pub record IsOpenHandle (w : World) (s h : ℕ) : Type 0 where
  pub holder : Call
  pub claim : ClaimRecord
  pub found : get_elem? w.calls h ≡ some holder
  pub claims : holder.progress ≡ claimed claim handle_open
  pub own : holder.store ≡ s

set_finalizing-Used :
    (w : World) (h : ℕ) (c : Call) (r : ClaimRecord)
    → get_elem? w.calls h ≡ some c
    → c.progress ≡ claimed r handle_open
    → Used (set_handle w h finalizing (get_elem? w.calls h)) h
unfolding set_handle set_state
set_finalizing-Used w h c r e q = rw (e, q) (put_self-Used w h c r finalizing e refl)

module _ (p : Platform) (parse_json : String → Option Data) where
  complete_with-Used :
      (w : World) (h s j nonce : ℕ) (r : ClaimRecord) (b : Bool)
      (q : Result ClaimError TerminalRecord)
      → Used w h
      → Used (complete_with p parse_json w s j nonce r b q) h
  unfolding complete_with
  complete_with-Used w h s j nonce r b (err e) u =
      add_call-Used _ h _ (set_handle-Used w h j finalizing _ refl refl u)
  complete_with-Used w h s j nonce r b (ok t) u =
      add_call-Used _ h _
        (close_handle-Used _ h j _ _ (set_handle-Used w h j finalizing _ refl refl u))

  finalizing-Used :
      (w : World) (s h nonce : ℕ) (b : Bool) (c : Call) (r : ClaimRecord)
      → get_elem? w.calls h ≡ some c
      → c.progress ≡ claimed r handle_open
      → (q : Result ClaimError TerminalRecord)
      → Used (complete_with p parse_json w s h nonce r b q) h
  unfolding complete_with
  finalizing-Used w s h nonce b c r e k (err x) =
      add_call-Used _ h _ (set_finalizing-Used w h c r e k)
  finalizing-Used w s h nonce b c r e k (ok t) =
      add_call-Used _ h _ (close_handle-Used _ h h _ _ (set_finalizing-Used w h c r e k))

  complete_outcome-Used :
      (w : World) (h s j nonce : ℕ) (r : ClaimRecord) (o : Option Bool)
      → Used w h
      → Used (complete_outcome p parse_json w s j nonce r o) h
  unfolding complete_outcome
  complete_outcome-Used w h s j nonce r none u = add_call-Used w h _ u
  complete_outcome-Used w h s j nonce r (some b) u =
      complete_with-Used w h s j nonce r b (make_terminal_record p r _) u

  complete_handle-Used :
      (w : World) (h s j nonce : ℕ) (o : Option Bool) (q : Progress) (b : Bool)
      → Used w h
      → Used (complete_handle p parse_json w s j nonce o q b) h
  unfolding complete_handle
  complete_handle-Used w h s j nonce o (claimed r handle_open) true u =
      complete_outcome-Used w h s j nonce r o u
  complete_handle-Used w h s j nonce o (claimed r handle_open) false u = add_call-Used w h _ u
  complete_handle-Used w h s j nonce o (claimed r finalizing) b u = add_call-Used w h _ u
  complete_handle-Used w h s j nonce o (claimed r failed_closed) b u = add_call-Used w h _ u
  complete_handle-Used w h s j nonce o (claimed r (terminal t)) b u = add_call-Used w h _ u
  complete_handle-Used w h s j nonce o (claiming m) b u = add_call-Used w h _ u
  complete_handle-Used w h s j nonce o (completing i t m) b u = add_call-Used w h _ u
  complete_handle-Used w h s j nonce o (inspecting m) b u = add_call-Used w h _ u
  complete_handle-Used w h s j nonce o (answered m) b u = add_call-Used w h _ u
  complete_handle-Used w h s j nonce o (failed m) b u = add_call-Used w h _ u

  complete-Used :
      (w : World) (h s j nonce : ℕ) (o : Option Bool) (c : Option Call)
      → Used w h
      → Used (complete p parse_json w s j nonce o c) h
  unfolding complete
  complete-Used w h s j nonce o none u = add_call-Used w h _ u
  complete-Used w h s j nonce o (some c) u = complete_handle-Used w h s j nonce o c.progress _ u

  step-Used : (w : World) (e : Event) (h : ℕ) → Sound w → Used w h → Used (step p parse_json w e) h
  unfolding step
  step-Used w (start_claim s input nonce) h v u = add_call-Used w h _ u
  step-Used w (start_inspect s input) h v u = add_call-Used w h _ u
  step-Used w (start_complete s j o nonce) h v u = complete-Used w h s j nonce o _ u
  step-Used w (resume i l facts) h v u = resume_some-Used w h i l facts _ v refl u

  run-Used :
      (w : World) (es : List Event) (h : ℕ) → Sound w → Used w h → Used (run p parse_json w es) h
  unfolding run
  run-Used w [] h v u = u
  run-Used w (e ∷ es) h v u =
      run-Used (step p parse_json w e) es h (step-Sound p parse_json w e v) (step-Used w e h v u)

  closed_handle :
      (w : World) (s h nonce : ℕ) (o : Option Bool) (r : ClaimRecord) (t : HandleState) (b : Bool)
      → is_open t ≡ false
      → complete_handle p parse_json w s h nonce o (claimed r t) b
        ≡ add_call w (new_call s (failed durable_stale))
  unfolding complete_handle
  closed_handle w s h nonce o r handle_open b e = absurd (cc)
  closed_handle w s h nonce o r finalizing b e = refl
  closed_handle w s h nonce o r failed_closed b e = refl
  closed_handle w s h nonce o r (terminal t) b e = refl

  complete_stale :
      (w : World) (s h nonce : ℕ) (o : Option Bool)
      → Used w h
      → step p parse_json w (start_complete s h o nonce)
        ≡ add_call w (new_call s (failed durable_stale))
  unfolding step complete
  complete_stale w s h nonce o u =
      rw (u.found, u.claims) (closed_handle w s h nonce o u.claim u.state _ u.closed)

  -- `complete` with an outcome takes an open handle of its store before anything is awaited.
  taken-Used :
      (w : World) (s h nonce : ℕ) (b : Bool)
      → IsOpenHandle w s h
      → Used (step p parse_json w (start_complete s h (some b) nonce)) h
  unfolding step complete complete_handle complete_outcome
  taken-Used w s h nonce b o =
      rw (o.found, o.claims, (==_iff o.holder.store s).1 o.own)
        (finalizing-Used w s h nonce b o.holder o.claim o.found o.claims
          (make_terminal_record p o.claim (terminal_of b)))

  -- In a world whose programs are the store's, an open handle is completed by its store with the
  -- outcome success or error. From that call on, while its file operations are still awaited and
  -- whether they succeed or fail, under any schedule and any failures, the handle is not open, and each
  -- further completion of it, by whichever store and with whichever outcome, is refused as STALE and
  -- changes nothing but the list of calls.
  pub handle_single_use :
      (w : World) (es : List Event) (s h nonce : ℕ) (b : Bool) (s' nonce' : ℕ) (o : Option Bool)
      → Sound w
      → IsOpenHandle w s h
      → Used (run p parse_json w (start_complete s h (some b) nonce ∷ es)) h
        × (step p parse_json
              (run p parse_json w (start_complete s h (some b) nonce ∷ es))
              (start_complete s' h o nonce')
            ≡ add_call
                (run p parse_json w (start_complete s h (some b) nonce ∷ es))
                (new_call s' (failed durable_stale)))
  unfolding run
  handle_single_use w es s h nonce b s' nonce' o v u =
      let e = start_complete s h (some b) nonce in
      let u' =
        run-Used (step p parse_json w e) es h (step-Sound p parse_json w e v)
          (taken-Used w s h nonce b u) in
      (u', complete_stale _ s' h nonce' o u')
