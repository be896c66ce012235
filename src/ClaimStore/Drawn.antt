-- ===== src/ClaimStore/Drawn.antt =====
-- Histories whose calls draw distinct numbers: the invariant of Staged over them, and what a resumed call
-- leaves.
use swisstokint_open_risk_in.Prelude.{
  ℕ, suc, String, ◌≡◌, refl, sym, ap, subst, ◌∙◌, arith, length, length-append, length-set, Bool,
  true, false, Option, none, some, List, [], ◌∷◌, Result, ok, err, get_elem?,
}
use swisstokint_open_risk_in.Data.{Data}
use swisstokint_open_risk_in.Platform.{Platform}
use swisstokint_open_risk_in.ClaimStore.Records.{
  ClaimError, ClaimRecord, Terminal, TerminalRecord, make_terminal_record,
}
use swisstokint_open_risk_in.ClaimStore.Io.{Place, Op, Io, ret, raise, call}
use swisstokint_open_risk_in.ClaimStore.Durable.{RootFacts}
use swisstokint_open_risk_in.ClaimStore.Programs.{Inspection, finalize}
use swisstokint_open_risk_in.ClaimStore.Files.{file, Luck, lookup}
use swisstokint_open_risk_in.ClaimStore.Kept.{is_temp}
use swisstokint_open_risk_in.ClaimStore.World.{
  World, Call, Progress, HandleState, Event, claiming, claimed, completing, inspecting, answered,
  failed, handle_open, finalizing, failed_closed, terminal, terminal_of, add_call, put_progress,
  set_handle, set_state, close_handle, resume_claim, resume_inspect, resume_complete, resume_call,
  resume_some, complete, complete_handle, complete_outcome, complete_with, step, run, start_claim,
  start_inspect, start_complete, resume,
}
use swisstokint_open_risk_in.ClaimStore.Tame.{claim-IsTame, inspect-IsTame, finalize-IsTame}
use swisstokint_open_risk_in.ClaimStore.Staged.{Owner, StagedCall, IsStaged, Moved}
use swisstokint_open_risk_in.ClaimStore.Stages.{
  after_claim-StagedCall, after_inspect-StagedCall, after_complete-StagedCall, new-Private,
  add_call-IsStaged, set_handle-IsStaged, close_handle-IsStaged, staged-Moved, resume_some-IsStaged,
}

set_state-files :
    (w : World) (h : ℕ) (s : HandleState) (c : Call) (q : Progress)
    → (set_state w h s c q).files ≡ w.files
unfolding set_state
set_state-files w h s c (claimed r old) = refl
set_state-files w h s c (claiming m) = refl
set_state-files w h s c (completing j t m) = refl
set_state-files w h s c (inspecting m) = refl
set_state-files w h s c (answered x) = refl
set_state-files w h s c (failed x) = refl

pub set_handle-files :
    (w : World) (h : ℕ) (s : HandleState) (o : Option Call) → (set_handle w h s o).files ≡ w.files
unfolding set_handle
set_handle-files w h s none = refl
set_handle-files w h s (some c) = set_state-files w h s c c.progress

pub close_handle-files :
    (w : World) (h : ℕ) (t : Terminal) (m : Io Inspection) → (close_handle w h t m).files ≡ w.files
close_handle-files w h t (ret v) = set_handle-files w h _ _
close_handle-files w h t (raise e) = set_handle-files w h _ _
close_handle-files w h t (call o k) = refl

-- The numbers that the events draw tell their calls apart: a call that starts has index `n`.
abbrev pub HasOwner : Owner → ℕ → List Event → Type 0
HasOwner own n [] = Unit
HasOwner own n (start_claim s input nonce ∷ es) = (own nonce ≡ n) × HasOwner own (suc n) es
HasOwner own n (start_inspect s input ∷ es) = HasOwner own (suc n) es
HasOwner own n (start_complete s h o nonce ∷ es) = (own nonce ≡ n) × HasOwner own (suc n) es
HasOwner own n (resume i l facts ∷ es) = HasOwner own n es

-- One call more
record Grown (own : Owner) (w w' : World) : Type 0 where
  staged : IsStaged own w'
  size : length w'.calls ≡ suc (length w.calls)

Grown-add :
    (own : Owner) (w w' : World) (c : Call)
    → length w'.calls ≡ length w.calls
    → IsStaged own w'
    → StagedCall own (length w'.calls) w'.files c.progress
    → Grown own w (add_call w' c)
Grown-add own w w' c e v t = record {
  staged = add_call-IsStaged own w' c v t;
  size = omega (arith, e, length-append w'.calls (c ∷ []));
}

Grown-next :
    (own : Owner) (w w' : World) (es : List Event)
    → Grown own w w'
    → HasOwner own (suc (length w.calls)) es
    → IsStaged own w' × HasOwner own (length w'.calls) es
Grown-next own w w' es g u = (g.staged, subst (λ n. HasOwner own n es) (sym g.size) u)

set_state-length :
    (w : World) (h : ℕ) (s : HandleState) (c : Call) (q : Progress)
    → length (set_state w h s c q).calls ≡ length w.calls
unfolding set_state
set_state-length w h s c (claimed r old) = length-set w.calls h _
set_state-length w h s c (claiming m) = refl
set_state-length w h s c (completing j t m) = refl
set_state-length w h s c (inspecting m) = refl
set_state-length w h s c (answered x) = refl
set_state-length w h s c (failed x) = refl

set_handle-length :
    (w : World) (h : ℕ) (s : HandleState) (o : Option Call)
    → length (set_handle w h s o).calls ≡ length w.calls
unfolding set_handle
set_handle-length w h s none = refl
set_handle-length w h s (some c) = set_state-length w h s c c.progress

close_handle-length :
    (w : World) (h : ℕ) (t : Terminal) (m : Io Inspection)
    → length (close_handle w h t m).calls ≡ length w.calls
close_handle-length w h t (ret v) = set_handle-length w h _ _
close_handle-length w h t (raise e) = set_handle-length w h _ _
close_handle-length w h t (call o k) = refl

-- What the resumed call leaves: the number of calls, and the contents of names that are not temporary.
pub record Settled (w w' : World) : Type 0 where
  pub size : length w'.calls ≡ length w.calls
  pub content :
      (b : Place) (k : ℕ)
      → is_temp b ≡ false
      → lookup b w.files ≡ some (file k)
      → get_elem? w'.files.contents k ≡ get_elem? w.files.contents k

Settled-refl : (w : World) → Settled w w
Settled-refl w = record { size = refl; content = λ b k n h. refl }

Moved-Settled :
    (w w' : World) (n : ℕ) (d : Bool) (o : Op) (i : ℕ) (c : Call) (q : Progress)
    → Moved n d o w w'
    → Settled w (put_progress w' i c q)
Moved-Settled w w' n d o i c q m = record {
  size = length-set w'.calls i _ ∙ ap length m.same_calls;
  content = m.stable.same;
}

close_handle-Settled :
    (w w' : World) (h : ℕ) (t : Terminal) (m : Io Inspection)
    → Settled w w'
    → Settled w (close_handle w' h t m)
close_handle-Settled w w' h t m g = record {
  size = close_handle-length w' h t m ∙ g.size;
  content =
      λ b k n e. ap (λ x. get_elem? x.contents k) (close_handle-files w' h t m) ∙ g.content b k n e;
}

resume_call-Settled :
    (own : Owner) (w : World) (i : ℕ) (l : Luck) (facts : RootFacts) (c : Call) (q : Progress)
    → IsStaged own w
    → StagedCall own i w.files q
    → Settled w (resume_call w i l facts c q)
unfolding resume_call resume_claim resume_inspect resume_complete
resume_call-Settled own w i l facts c (claiming (call o k)) v (n, (d, (t, e))) =
    Moved-Settled w _ n d o i c _ (staged-Moved own w c.store i l facts n d o k v t e)
resume_call-Settled own w i l facts c (inspecting (call o k)) v (n, (d, (t, e))) =
    Moved-Settled w _ n d o i c _ (staged-Moved own w c.store i l facts n d o k v t e)
resume_call-Settled own w i l facts c (completing h x (call o k)) v (n, (d, (t, e))) =
    close_handle-Settled w _ h x _
      (Moved-Settled w _ n d o i c _ (staged-Moved own w c.store i l facts n d o k v t e))
resume_call-Settled own w i l facts c (claiming (ret r)) v t = Settled-refl w
resume_call-Settled own w i l facts c (claiming (raise r)) v t = Settled-refl w
resume_call-Settled own w i l facts c (inspecting (ret r)) v t = Settled-refl w
resume_call-Settled own w i l facts c (inspecting (raise r)) v t = Settled-refl w
resume_call-Settled own w i l facts c (completing h x (ret r)) v t = Settled-refl w
resume_call-Settled own w i l facts c (completing h x (raise r)) v t = Settled-refl w
resume_call-Settled own w i l facts c (claimed r s) v t = Settled-refl w
resume_call-Settled own w i l facts c (answered r) v t = Settled-refl w
resume_call-Settled own w i l facts c (failed r) v t = Settled-refl w

pub resume_some-Settled :
    (own : Owner) (w : World) (i : ℕ) (l : Luck) (facts : RootFacts) (o : Option Call)
    → IsStaged own w
    → get_elem? w.calls i ≡ o
    → Settled w (resume_some w i l facts o)
unfolding resume_some
resume_some-Settled own w i l facts none v e = Settled-refl w
resume_some-Settled own w i l facts (some c) v e =
    resume_call-Settled own w i l facts c c.progress v (v.staged i c e)

module _ (p : Platform) (parse_json : String → Option Data) where
  complete_with-Staged :
      (own : Owner) (w : World) (s h nonce : ℕ) (r : ClaimRecord) (b : Bool)
      (q : Result ClaimError TerminalRecord)
      → own nonce ≡ length w.calls
      → IsStaged own w
      → Grown own w (complete_with p parse_json w s h nonce r b q)
  unfolding complete_with
  complete_with-Staged own w s h nonce r b (err e) d v =
      let finalized = set_handle w h finalizing (get_elem? w.calls h) in
      Grown-add own w finalized _ (set_handle-length w h finalizing _)
        (set_handle-IsStaged own w h finalizing _ v refl) tt
  complete_with-Staged own w s h nonce r b (ok t) d v =
      let m = finalize p parse_json r t nonce in
      let finalized = set_handle w h finalizing (get_elem? w.calls h) in
      let closed = close_handle finalized h (terminal_of b) m in
      let z = set_handle-IsStaged own w h finalizing (get_elem? w.calls h) v refl in
      let z' = close_handle-IsStaged own finalized h (terminal_of b) m z in
      let size =
        close_handle-length finalized h (terminal_of b) m ∙ set_handle-length w h finalizing _ in
      Grown-add own w closed _ size z' (
        after_complete-StagedCall own _ closed.files h (terminal_of b) m (
          nonce,
          (
            false,
            (
              finalize-IsTame p parse_json r t nonce,
              λ f. (d ∙ sym size, new-Private own closed nonce z' (d ∙ sym size)),
            ),
          ),
        ))

  complete_outcome-Staged :
      (own : Owner) (w : World) (s h nonce : ℕ) (r : ClaimRecord) (o : Option Bool)
      → own nonce ≡ length w.calls
      → IsStaged own w
      → Grown own w (complete_outcome p parse_json w s h nonce r o)
  unfolding complete_outcome
  complete_outcome-Staged own w s h nonce r none d v = Grown-add own w w _ refl v tt
  complete_outcome-Staged own w s h nonce r (some b) d v =
      complete_with-Staged own w s h nonce r b (make_terminal_record p r _) d v

  complete_handle-Staged :
      (own : Owner) (w : World) (s h nonce : ℕ) (o : Option Bool) (q : Progress) (b : Bool)
      → own nonce ≡ length w.calls
      → IsStaged own w
      → Grown own w (complete_handle p parse_json w s h nonce o q b)
  unfolding complete_handle
  complete_handle-Staged own w s h nonce o (claimed r handle_open) true d v =
      complete_outcome-Staged own w s h nonce r o d v
  complete_handle-Staged own w s h nonce o (claimed r handle_open) false d v =
      Grown-add own w w _ refl v tt
  complete_handle-Staged own w s h nonce o (claimed r finalizing) b d v =
      Grown-add own w w _ refl v tt
  complete_handle-Staged own w s h nonce o (claimed r failed_closed) b d v =
      Grown-add own w w _ refl v tt
  complete_handle-Staged own w s h nonce o (claimed r (terminal t)) b d v =
      Grown-add own w w _ refl v tt
  complete_handle-Staged own w s h nonce o (claiming m) b d v = Grown-add own w w _ refl v tt
  complete_handle-Staged own w s h nonce o (completing j t m) b d v = Grown-add own w w _ refl v tt
  complete_handle-Staged own w s h nonce o (inspecting m) b d v = Grown-add own w w _ refl v tt
  complete_handle-Staged own w s h nonce o (answered m) b d v = Grown-add own w w _ refl v tt
  complete_handle-Staged own w s h nonce o (failed m) b d v = Grown-add own w w _ refl v tt

  complete-Staged :
      (own : Owner) (w : World) (s h nonce : ℕ) (o : Option Bool) (c : Option Call)
      → own nonce ≡ length w.calls
      → IsStaged own w
      → Grown own w (complete p parse_json w s h nonce o c)
  unfolding complete
  complete-Staged own w s h nonce o none d v = Grown-add own w w _ refl v tt
  complete-Staged own w s h nonce o (some c) d v =
      complete_handle-Staged own w s h nonce o c.progress _ d v

  -- What the calls that a world starts with add.
  pub step-Staged :
      (own : Owner) (w : World) (e : Event) (es : List Event)
      → IsStaged own w
      → HasOwner own (length w.calls) (e ∷ es)
      → IsStaged own (step p parse_json w e)
        × HasOwner own (length (step p parse_json w e).calls) es
  unfolding step
  step-Staged own w (start_claim s input nonce) es v (d, u) =
      Grown-next own w _ es
        (Grown-add own w w _ refl v (
          after_claim-StagedCall own _ w.files _ (
            nonce,
            (false, (claim-IsTame p parse_json input nonce, λ f. (d, new-Private own w nonce v d))),
          )))
        u
  step-Staged own w (start_inspect s input) es v u =
      Grown-next own w _ es
        (Grown-add own w w _ refl v (
          after_inspect-StagedCall own _ w.files _
            (0, (true, (inspect-IsTame p parse_json input, λ f. absurd (cc))))))
        u
  step-Staged own w (start_complete s h o nonce) es v (d, u) =
      Grown-next own w _ es (complete-Staged own w s h nonce o (get_elem? w.calls h) d v) u
  step-Staged own w (resume i l facts) es v u = (
    resume_some-IsStaged own w i l facts _ v refl,
    subst (λ n. HasOwner own n es)
        (sym (resume_some-Settled own w i l facts (get_elem? w.calls i) v refl).size) u,
  )

  pub run-IsStaged :
      (own : Owner) (w : World) (es : List Event)
      → IsStaged own w
      → HasOwner own (length w.calls) es
      → IsStaged own (run p parse_json w es)
  unfolding run
  run-IsStaged own w [] v u = v
  run-IsStaged own w (e ∷ es) v u =
      let (v', u') = step-Staged own w e es v u in run-IsStaged own (step p parse_json w e) es v' u'
