-- ===== src/ClaimStore/Resume.antt =====
-- When the awaited operation of a call settles, the world stays sound.
use swisstokint_open_risk_in.Prelude.{
  ℕ, String, ◌≡◌, refl, sym, ap, subst, ◌∙◌, Bool, Option, none, some, Result, inl, inr, get_elem?,
}
use swisstokint_open_risk_in.ClaimStore.Records.{ClaimError, ClaimRecord, Terminal}
use swisstokint_open_risk_in.ClaimStore.Io.{
  capability_directory, Op, lstat, mkdir, open_new, sync_file, close_file, unlink, sync_directory,
  read_file, write_file, link, await_root, Reply, done, Io, ret, raise, call,
}
use swisstokint_open_risk_in.ClaimStore.Durable.{RootFacts}
use swisstokint_open_risk_in.ClaimStore.Programs.{Inspection}
use swisstokint_open_risk_in.ClaimStore.Files.{Luck, attempted}
use swisstokint_open_risk_in.ClaimStore.Kept.{IsTameOp, attempted-keeps, attempted-mkdir}
use swisstokint_open_risk_in.ClaimStore.Tame.{after, IsTame-op, IsTame-next}
use swisstokint_open_risk_in.ClaimStore.Owner.{Guarded-next, Returns-next}
use swisstokint_open_risk_in.ClaimStore.World.{
  World, Call, Progress, claiming, claimed, completing, inspecting, answered, failed, answer,
  root_reply, resume_claim, resume_inspect, resume_complete, resume_call, resume_some, settled,
}
use swisstokint_open_risk_in.ClaimStore.Sound.{
  Made, Keeps, Earning, Owns, TameCall, Tamed, Sound, Owns-kept, after_claim-Owns,
  after_claim-TameCall, after_inspect-Sound, after_complete-Sound, put_progress-Sound,
  close_handle-Sound,
}

-- What an awaited operation of call `i` leaves.
pub record Answered (w : World) (i : ℕ) (o : Op) (a : World × Reply) : Type 0 where
  pub same_calls : a.0.calls ≡ w.calls
  pub kept : Keeps w.files a.0.files
  pub made : (c : String) → o ≡ mkdir (capability_directory c) → a.1 ≡ done → Made a.0.files c i

attempted-Answered :
    (n : ℕ) (d : Bool) (w : World) (i : ℕ) (l : Luck) (o : Op)
    → IsTameOp n d o
    → Answered w i o
        (record w { files = (attempted l i o w.files).files }, (attempted l i o w.files).reply)
attempted-Answered n d w i l o t = record {
  same_calls = refl;
  kept = record { entry = λ b x f h. attempted-keeps n d l i o w.files b x t f h };
  made = λ c e y. rw e (
      attempted-mkdir l i (capability_directory c) w.files
        (subst (λ z. (attempted l i z w.files).reply ≡ done) e y));
}

root_reply-Answered :
    (w : World) (s i : ℕ) (facts : RootFacts) (q : Option (Result ClaimError Unit))
    → Answered w i await_root (root_reply w s facts q)
unfolding root_reply
root_reply-Answered w s i facts (some r) = record {
  same_calls = refl;
  kept = record { entry = λ b x n h. h };
  made = λ c e d. cc;
}
root_reply-Answered w s i facts none = record {
  same_calls = refl;
  kept = record { entry = λ b x n h. h };
  made = λ c e d. cc;
}

answer-Answered :
    (n : ℕ) (d : Bool) (w : World) (s i : ℕ) (l : Luck) (facts : RootFacts) (o : Op)
    → IsTameOp n d o
    → Answered w i o (answer w s i l facts o)
unfolding answer
answer-Answered n d w s i l facts await_root t = root_reply-Answered w s i facts (settled s w.roots)
answer-Answered n d w s i l facts (lstat a) t = attempted-Answered n d w i l (lstat a) t
answer-Answered n d w s i l facts (mkdir a) t = attempted-Answered n d w i l (mkdir a) t
answer-Answered n d w s i l facts (open_new a) t = attempted-Answered n d w i l (open_new a) t
answer-Answered n d w s i l facts (write_file a b) t =
    attempted-Answered n d w i l (write_file a b) t
answer-Answered n d w s i l facts (sync_file a) t = attempted-Answered n d w i l (sync_file a) t
answer-Answered n d w s i l facts (close_file a) t = attempted-Answered n d w i l (close_file a) t
answer-Answered n d w s i l facts (link a b) t = attempted-Answered n d w i l (link a b) t
answer-Answered n d w s i l facts (unlink a) t = attempted-Answered n d w i l (unlink a) t
answer-Answered n d w s i l facts (sync_directory a) t =
    attempted-Answered n d w i l (sync_directory a) t
answer-Answered n d w s i l facts (read_file a) t = attempted-Answered n d w i l (read_file a) t

pub answer_op-Answered :
    {A : Type 0} (w : World) (s i : ℕ) (l : Luck) (facts : RootFacts) (o : Op) (k : Reply → Io A)
    → Tamed (call o k)
    → Answered w i o (answer w s i l facts o)
answer_op-Answered w s i l facts o k (n, (d, t)) =
    answer-Answered n d w s i l facts o (IsTame-op n d o k t)

Tamed-next : {A : Type 0} (o : Op) (k : Reply → Io A) → Tamed (call o k) → (r : Reply) → Tamed (k r)
Tamed-next o k (n, (d, t)) r = (n, (after d o, IsTame-next n d o k t r))

Answered-Sound :
    (w : World) (i : ℕ) (o : Op) (a : World × Reply) → Sound w → Answered w i o a → Sound a.0
Answered-Sound w i o (w', r) v n = record {
  owns = λ j c e.
      Owns-kept w.files w'.files j c.progress n.kept
        (v.owns j c (ap (λ x. get_elem? x j) (sym n.same_calls) ∙ e));
  tame = λ j c e. v.tame j c (ap (λ x. get_elem? x j) (sym n.same_calls) ∙ e);
}

Earning-next :
    (w : World) (i : ℕ) (o : Op) (k : Reply → Io ClaimRecord) (a : World × Reply)
    → Earning w.files i (call o k)
    → Answered w i o a
    → Earning a.0.files i (k a.1)
Earning-next w i o k (w', r) (c, inr (g, m)) n =
    (c, inr (Returns-next c o k r g, n.kept.entry _ _ refl m))
Earning-next w i o k (w', r) (c, inl g) n = elim (Guarded-next c o k r g) [
  | inl h ↦ (c, inl h)
  | inr (h, e, d) ↦ (c, inr (h, n.made c e d))
]

resume_claim-Sound :
    (w : World) (i : ℕ) (c : Call) (o : Op) (k : Reply → Io ClaimRecord) (a : World × Reply)
    → Sound w
    → get_elem? w.calls i ≡ some c
    → Tamed (call o k)
    → Earning w.files i (call o k)
    → Answered w i o a
    → Sound (resume_claim a i c k)
unfolding resume_claim
resume_claim-Sound w i c o k (w', r) v e t g n =
    put_progress-Sound w' i c _ (Answered-Sound w i o (w', r) v n)
      (ap (λ x. get_elem? x i) n.same_calls ∙ e)
      (
        after_claim-Owns w'.files i (k r) (Earning-next w i o k (w', r) g n),
        after_claim-TameCall (k r) (Tamed-next o k t r),
      )

Answered-get_elem? :
    (w : World) (i j : ℕ) (c : Call) (o : Op) (a : World × Reply)
    → get_elem? w.calls j ≡ some c
    → Answered w i o a
    → get_elem? a.0.calls j ≡ some c
Answered-get_elem? w i j c o a e n = ap (λ x. get_elem? x j) n.same_calls ∙ e

resume_inspect-Sound :
    (w : World) (i : ℕ) (c : Call) (o : Op) (k : Reply → Io Inspection) (a : World × Reply)
    → Sound w
    → get_elem? w.calls i ≡ some c
    → Tamed (call o k)
    → Answered w i o a
    → Sound (resume_inspect a i c k)
unfolding resume_inspect
resume_inspect-Sound w i c o k (w', r) v e t n =
    put_progress-Sound w' i c _ (Answered-Sound w i o (w', r) v n)
      (Answered-get_elem? w i i c o (w', r) e n)
      (after_inspect-Sound w'.files i (k r) (Tamed-next o k t r))

resume_complete-Sound :
    (w : World) (i : ℕ) (c : Call) (h : ℕ) (t : Terminal) (o : Op) (k : Reply → Io Inspection)
    (a : World × Reply)
    → Sound w
    → get_elem? w.calls i ≡ some c
    → Tamed (call o k)
    → Answered w i o a
    → Sound (resume_complete a i c h t k)
unfolding resume_complete
resume_complete-Sound w i c h t o k (w', r) v e m n = close_handle-Sound _ h t (k r) (
    put_progress-Sound w' i c _ (Answered-Sound w i o (w', r) v n)
      (Answered-get_elem? w i i c o (w', r) e n)
      (after_complete-Sound w'.files i h t (k r) (Tamed-next o k m r)))

resume_call-Sound :
    (w : World) (i : ℕ) (l : Luck) (facts : RootFacts) (c : Call) (q : Progress)
    → Sound w
    → get_elem? w.calls i ≡ some c
    → Owns w.files i q
    → TameCall q
    → Sound (resume_call w i l facts c q)
unfolding resume_call
resume_call-Sound w i l facts c (claiming (call o k)) v e g t =
    resume_claim-Sound w i c o k _ v e t g (answer_op-Answered w c.store i l facts o k t)
resume_call-Sound w i l facts c (inspecting (call o k)) v e g t =
    resume_inspect-Sound w i c o k _ v e t (answer_op-Answered w c.store i l facts o k t)
resume_call-Sound w i l facts c (completing h x (call o k)) v e g t =
    resume_complete-Sound w i c h x o k _ v e t (answer_op-Answered w c.store i l facts o k t)
resume_call-Sound w i l facts c (claiming (ret r)) v e g t = v
resume_call-Sound w i l facts c (claiming (raise x)) v e g t = v
resume_call-Sound w i l facts c (inspecting (ret r)) v e g t = v
resume_call-Sound w i l facts c (inspecting (raise x)) v e g t = v
resume_call-Sound w i l facts c (completing h x (ret r)) v e g t = v
resume_call-Sound w i l facts c (completing h x (raise y)) v e g t = v
resume_call-Sound w i l facts c (claimed r s) v e g t = v
resume_call-Sound w i l facts c (answered r) v e g t = v
resume_call-Sound w i l facts c (failed x) v e g t = v

pub resume_some-Sound :
    (w : World) (i : ℕ) (l : Luck) (facts : RootFacts) (o : Option Call)
    → Sound w
    → get_elem? w.calls i ≡ o
    → Sound (resume_some w i l facts o)
unfolding resume_some
resume_some-Sound w i l facts none v e = v
resume_some-Sound w i l facts (some c) v e =
    resume_call-Sound w i l facts c c.progress v e (v.owns i c e) (v.tame i c e)
