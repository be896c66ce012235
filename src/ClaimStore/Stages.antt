-- ===== src/ClaimStore/Stages.antt =====
-- The parts of a step, and the invariant of Staged.
use swisstokint_open_risk_in.Prelude.{
  ℕ, ◌≡◌, ◌≢◌, refl, sym, ap, subst, ◌∙◌, inl, inr, Bool, false, Option, none, some, [], ◌∷◌, arith,
  Bool-cases, ==_iff, ◌==◌, length, length-append, length-set, get_elem?, set,
  get_elem?-append_last, get_elem?-below, get_elem?-set_self, get_elem?-set_ne,
}
use swisstokint_open_risk_in.ClaimStore.Records.{ClaimRecord, Terminal}
use swisstokint_open_risk_in.ClaimStore.Io.{
  Place, root_directory, capability_directory, record_file, temp_file, Op, Reply, Io, ret, raise,
  call,
}
use swisstokint_open_risk_in.ClaimStore.Durable.{RootFacts}
use swisstokint_open_risk_in.ClaimStore.Programs.{Inspection}
use swisstokint_open_risk_in.ClaimStore.Files.{Files, file, lookup, Luck}
use swisstokint_open_risk_in.ClaimStore.Kept.{IsTempOf}
use swisstokint_open_risk_in.ClaimStore.Tame.{IsTame, IsTame-op}
use swisstokint_open_risk_in.ClaimStore.Private.{later-Numbered}
use swisstokint_open_risk_in.ClaimStore.Origin.{Private, old, new, linked}
use swisstokint_open_risk_in.ClaimStore.World.{
  World, Call, Progress, HandleState, claiming, claimed, completing, inspecting, answered, failed,
  failed_closed, terminal, add_call, put_progress, set_handle, set_state, after_claim,
  after_inspect, after_complete, close_handle, answer, resume_claim, resume_inspect,
  resume_complete, resume_call, resume_some,
}
use swisstokint_open_risk_in.ClaimStore.Staged.{
  Owner, Staged, StagedCall, IsStaged, Moved, answer-Moved, next-Staged, other-StagedCall,
}

module _ (own : Owner) where
  pub after_claim-StagedCall :
      (i : ℕ) (fs : Files) (m : Io ClaimRecord)
      → Staged own i fs m
      → StagedCall own i fs (after_claim m)
  after_claim-StagedCall i fs (ret r) h = tt
  after_claim-StagedCall i fs (raise e) h = tt
  after_claim-StagedCall i fs (call o k) h = h

  pub after_inspect-StagedCall :
      (i : ℕ) (fs : Files) (m : Io Inspection)
      → Staged own i fs m
      → StagedCall own i fs (after_inspect m)
  after_inspect-StagedCall i fs (ret r) h = tt
  after_inspect-StagedCall i fs (raise e) h = tt
  after_inspect-StagedCall i fs (call o k) h = h

  pub after_complete-StagedCall :
      (i : ℕ) (fs : Files) (h : ℕ) (t : Terminal) (m : Io Inspection)
      → Staged own i fs m
      → StagedCall own i fs (after_complete h t m)
  after_complete-StagedCall i fs h t (ret r) g = tt
  after_complete-StagedCall i fs h t (raise e) g = tt
  after_complete-StagedCall i fs h t (call o k) g = g

  -- A call that is added is in its first stage: no temporary name has its number.
  undrawn :
      (w : World) (n : ℕ) (t : Place) (k : ℕ)
      → IsStaged own w
      → own n ≡ length w.calls
      → IsTempOf n t
      → ¬ (lookup t w.files ≡ some (file k))
  undrawn w n (temp_file c b m) k v e h x = omega (arith, v.known c b m k x, ap own h)
  undrawn w n root_directory k v e h x = elim h [ ]
  undrawn w n (capability_directory c) k v e h x = elim h [ ]
  undrawn w n (record_file c b) k v e h x = elim h [ ]

  pub new-Private :
      (w : World) (n : ℕ) → IsStaged own w → own n ≡ length w.calls → Private n w.files
  new-Private w n v e = record { only = λ t a k h x y. absurd (undrawn w n t k v e h x) }

  pub add_call-IsStaged :
      (w : World) (c : Call)
      → IsStaged own w
      → StagedCall own (length w.calls) w.files c.progress
      → IsStaged own (add_call w c)
  add_call-IsStaged w c v t = record {
    numbered = v.numbered;
    known = λ d b n k h. omega (arith, v.known d b n k h, length-append w.calls (c ∷ []));
    staged = λ i d h. elim (Bool-cases (i == length w.calls)) [
      | inl e ↦
          let z : c ≡ d = ground (arith, get_elem?-append_last w.calls c i) in
          let j : i ≡ length w.calls = (==_iff _ _).0 e in rw (sym z, j) t
      | inr e ↦ v.staged i d (ground (arith, get_elem?-append_last w.calls c i))
    ];
  }

  put_claimed-IsStaged :
      (w : World) (i : ℕ) (c : Call) (r : ClaimRecord) (s : HandleState)
      → IsStaged own w
      → get_elem? w.calls i ≡ some c
      → IsStaged own (put_progress w i c (claimed r s))
  put_claimed-IsStaged w i c r s v h =
      let d = record c { progress = claimed r s } in
      let self = get_elem?-set_self w.calls i d h in
      record {
        numbered = v.numbered;
        known = λ x b n k y. omega (arith, v.known x b n k y, length-set w.calls i d);
        staged = λ j e k. elim (Bool-cases (i == j)) [
          | inl q ↦
              let j' : i ≡ j = (==_iff _ _).0 q in
              let z : d ≡ e = ground (arith, self, k, j') in
              subst (λ x. StagedCall own j w.files x.progress) z tt
          | inr q ↦
              v.staged j e (sym (get_elem?-set_ne w.calls i j _ (λ x. ground (arith, q, x))) ∙ k)
        ];
      }

  set_state-IsStaged :
      (w : World) (h : ℕ) (s : HandleState) (c : Call) (q : Progress)
      → IsStaged own w
      → get_elem? w.calls h ≡ some c
      → IsStaged own (set_state w h s c q)
  unfolding set_state
  set_state-IsStaged w h s c (claimed r x) v e = put_claimed-IsStaged w h c r s v e
  set_state-IsStaged w h s c (claiming m) v e = v
  set_state-IsStaged w h s c (completing j t m) v e = v
  set_state-IsStaged w h s c (inspecting m) v e = v
  set_state-IsStaged w h s c (answered x) v e = v
  set_state-IsStaged w h s c (failed x) v e = v

  pub set_handle-IsStaged :
      (w : World) (h : ℕ) (s : HandleState) (o : Option Call)
      → IsStaged own w
      → get_elem? w.calls h ≡ o
      → IsStaged own (set_handle w h s o)
  unfolding set_handle
  set_handle-IsStaged w h s none v e = v
  set_handle-IsStaged w h s (some c) v e = set_state-IsStaged w h s c c.progress v e

  pub close_handle-IsStaged :
      (w : World) (h : ℕ) (t : Terminal) (m : Io Inspection)
      → IsStaged own w
      → IsStaged own (close_handle w h t m)
  close_handle-IsStaged w h t (ret r) v = set_handle-IsStaged w h (terminal t) _ v refl
  close_handle-IsStaged w h t (raise e) v = set_handle-IsStaged w h failed_closed _ v refl
  close_handle-IsStaged w h t (call o k) v = v

  -- The call `i` moved and goes on as `q`.
  resumed-IsStaged :
      (w w' : World) (i n : ℕ) (d : Bool) (o : Op) (c : Call) (q : Progress)
      → IsStaged own w
      → get_elem? w.calls i ≡ some c
      → (d ≡ false → own n ≡ i)
      → Moved n d o w w'
      → StagedCall own i w'.files q
      → IsStaged own (put_progress w' i c q)
  resumed-IsStaged w w' i n d o c q v h mine m t =
      let e = record c { progress = q } in
      let h' : get_elem? w'.calls i ≡ some c = ap (λ x. get_elem? x i) m.same_calls ∙ h in
      let self = get_elem?-set_self w'.calls i e h' in
      let size : length (set w'.calls i e) ≡ length w.calls =
        length-set w'.calls i e ∙ ap length m.same_calls in
      record {
        numbered = later-Numbered n d o w.files w'.files m.origin v.numbered m.stable;
        known = λ x b j k y. elim (m.origin (temp_file x b j) k y) [
          | old z ↦ omega (arith, v.known x b j k z, size)
          | new f z u l ↦ omega (arith, ap own z, mine f, size, get_elem?-below w.calls i c h)
          | linked t' f g p z u ↦ absurd (cc)
        ];
        staged = λ j x k. elim (Bool-cases (i == j)) [
          | inl s ↦
              let j' : i ≡ j = (==_iff _ _).0 s in
              let z : e ≡ x = ground (arith, self, k, j') in
              subst (λ y. StagedCall own y w'.files x.progress) j'
                (subst (λ y. StagedCall own i w'.files y.progress) z t)
          | inr s ↦
              let ne : i ≢ j = λ y. ground (arith, s, y) in
              let k' : get_elem? w.calls j ≡ some x =
                ap (λ y. get_elem? y j) (sym m.same_calls)
                ∙ sym (get_elem?-set_ne w'.calls i j _ ne)
                ∙ k in
              other-StagedCall own i j n d o x.progress w w' ne v.numbered mine m (v.staged j x k')
        ];
      }

  resume_claim-IsStaged :
      (w : World) (a : World × Reply) (i n : ℕ) (d : Bool) (o : Op) (c : Call)
      (k : Reply → Io ClaimRecord)
      → IsStaged own w
      → get_elem? w.calls i ≡ some c
      → IsTame n d (call o k)
      → (d ≡ false → (own n ≡ i) × Private n w.files)
      → Moved n d o w a.0
      → IsStaged own (resume_claim a i c k)
  unfolding resume_claim
  resume_claim-IsStaged w (w', r) i n d o c k v h t e m =
      resumed-IsStaged w w' i n d o c _ v h (λ f. (e f).0) m
        (after_claim-StagedCall i w'.files (k r)
          (next-Staged own i n d o k r w w' v.numbered t e m))

  resume_inspect-IsStaged :
      (w : World) (a : World × Reply) (i n : ℕ) (d : Bool) (o : Op) (c : Call)
      (k : Reply → Io Inspection)
      → IsStaged own w
      → get_elem? w.calls i ≡ some c
      → IsTame n d (call o k)
      → (d ≡ false → (own n ≡ i) × Private n w.files)
      → Moved n d o w a.0
      → IsStaged own (resume_inspect a i c k)
  unfolding resume_inspect
  resume_inspect-IsStaged w (w', r) i n d o c k v h t e m =
      resumed-IsStaged w w' i n d o c _ v h (λ f. (e f).0) m
        (after_inspect-StagedCall i w'.files (k r)
          (next-Staged own i n d o k r w w' v.numbered t e m))

  resume_complete-IsStaged :
      (w : World) (a : World × Reply) (i n : ℕ) (d : Bool) (o : Op) (c : Call) (g : ℕ)
      (x : Terminal) (k : Reply → Io Inspection)
      → IsStaged own w
      → get_elem? w.calls i ≡ some c
      → IsTame n d (call o k)
      → (d ≡ false → (own n ≡ i) × Private n w.files)
      → Moved n d o w a.0
      → IsStaged own (resume_complete a i c g x k)
  unfolding resume_complete
  resume_complete-IsStaged w (w', r) i n d o c g x k v h t e m = close_handle-IsStaged _ g x (k r) (
      resumed-IsStaged w w' i n d o c _ v h (λ f. (e f).0) m
        (after_complete-StagedCall i w'.files g x (k r)
          (next-Staged own i n d o k r w w' v.numbered t e m)))

  -- What the operation of a call that runs does.
  pub staged-Moved :
      {A : Type 0} (w : World) (s i : ℕ) (l : Luck) (facts : RootFacts) (n : ℕ) (d : Bool) (o : Op)
      (k : Reply → Io A)
      → IsStaged own w
      → IsTame n d (call o k)
      → (d ≡ false → (own n ≡ i) × Private n w.files)
      → Moved n d o w (answer w s i l facts o).0
  staged-Moved w s i l facts n d o k v t e =
      answer-Moved n d w v.numbered (λ f. (e f).1) s i l facts o (IsTame-op n d o k t)

  resume_call-IsStaged :
      (w : World) (i : ℕ) (l : Luck) (facts : RootFacts) (c : Call) (q : Progress)
      → IsStaged own w
      → get_elem? w.calls i ≡ some c
      → StagedCall own i w.files q
      → IsStaged own (resume_call w i l facts c q)
  unfolding resume_call
  resume_call-IsStaged w i l facts c (claiming (call o k)) v h (n, (d, (t, e))) =
      resume_claim-IsStaged w _ i n d o c k v h t e (staged-Moved w c.store i l facts n d o k v t e)
  resume_call-IsStaged w i l facts c (inspecting (call o k)) v h (n, (d, (t, e))) =
      resume_inspect-IsStaged w _ i n d o c k v h t e
        (staged-Moved w c.store i l facts n d o k v t e)
  resume_call-IsStaged w i l facts c (completing g x (call o k)) v h (n, (d, (t, e))) =
      resume_complete-IsStaged w _ i n d o c g x k v h t e
        (staged-Moved w c.store i l facts n d o k v t e)
  resume_call-IsStaged w i l facts c (claiming (ret r)) v h t = v
  resume_call-IsStaged w i l facts c (claiming (raise r)) v h t = v
  resume_call-IsStaged w i l facts c (inspecting (ret r)) v h t = v
  resume_call-IsStaged w i l facts c (inspecting (raise r)) v h t = v
  resume_call-IsStaged w i l facts c (completing g x (ret r)) v h t = v
  resume_call-IsStaged w i l facts c (completing g x (raise r)) v h t = v
  resume_call-IsStaged w i l facts c (claimed r s) v h t = v
  resume_call-IsStaged w i l facts c (answered r) v h t = v
  resume_call-IsStaged w i l facts c (failed r) v h t = v

  pub resume_some-IsStaged :
      (w : World) (i : ℕ) (l : Luck) (facts : RootFacts) (o : Option Call)
      → IsStaged own w
      → get_elem? w.calls i ≡ o
      → IsStaged own (resume_some w i l facts o)
  unfolding resume_some
  resume_some-IsStaged w i l facts none v h = v
  resume_some-IsStaged w i l facts (some c) v h =
      resume_call-IsStaged w i l facts c c.progress v h (v.staged i c h)
