-- ===== src/Trust/Accepts.antt =====
-- What an authorization that the verifier grants rests on, and identities that have ended.
use swisstokint_open_risk_in.Prelude.{
  ℕ, ◌≤◌, ◌<◌, ◌≡◌, ◌≢◌, refl, sym, subst, ◌∙◌, String, true, false, Option, none, some, List,
  Result, ok, err, ltb, arith, &&_parts, Ensures, Ensures-bind, Ensures-ok, guard-true, >>=-eq-ok,
}
use swisstokint_open_risk_in.Platform.{Platform}
use swisstokint_open_risk_in.Value.{Value, Sample}
use swisstokint_open_risk_in.Canonical.Safe.{PayloadError}
use swisstokint_open_risk_in.Dict.{lookup}
use swisstokint_open_risk_in.Witness.Crypto.{Crypto}
use swisstokint_open_risk_in.Trust.Records.{
  TrustError, Role, source, witness, Identity, Trust, TrustSnapshot, is_active, record_active_at,
  sample_trust_clock,
}
use swisstokint_open_risk_in.Trust.Snapshots.{hashed, trust_snapshot, build_snapshot}
use swisstokint_open_risk_in.Trust.Verify.{
  Authorized, Documents, VerifyError, candidate_record, is_source, is_witness, earliest, coded,
  trusted_documents, verified_documents, after_verify_clock, verify_candidate, usable,
}
use swisstokint_open_risk_in.Trust.Steps.{Event, run, sample-Unchanged}
use swisstokint_open_risk_in.Trust.Invariant.{run-ended}

-- An enrolled identity that may sign at an instant.
pub record Signs (p : Platform) (t : Trust) (role : Role) (k : String) (now until : ℕ)
    : Type 0 where
  pub identity : Identity
  pub enrolled : lookup k t.records ≡ some identity
  pub has_role : identity.role ≡ role
  pub is_active : is_active identity.status ≡ true
  pub active_now : record_active_at p identity now ≡ true
  pub expiry : ℕ
  pub expires : p.date_parse identity.valid_until ≡ some expiry
  pub bounded : until ≤ expiry

-- An authorization at an instant: its two identities may sign then, it ends later and no later than they
-- do, and it carries the revision of the state.
pub record IsAuthorization (p : Platform) (t : Trust) (now : ℕ) (a : Authorized) : Type 0 where
  pub until : ℕ
  pub source_signs : Signs p t source a.source_key_id now until
  pub witness_signs : Signs p t witness a.witness_key_id now until
  pub current : a.current_time ≡ p.to_iso_string now
  pub valid_until : a.authorization_valid_until ≡ p.to_iso_string until
  pub later : now < until
  pub revision : a.trust_revision ≡ t.revision

candidate_record-eq : (o : Option Identity) (r : Identity) → candidate_record o ≡ ok r → o ≡ some r
unfolding candidate_record
candidate_record-eq none r h = cc
candidate_record-eq (some q) r h = ground arith

source_role : (r : Role) → is_source r ≡ true → r ≡ source
source_role source h = refl
source_role witness h = cc

witness_role : (r : Role) → is_witness r ≡ true → r ≡ witness
witness_role witness h = refl
witness_role source h = cc

earliest-Bounds :
    (a : ℕ) (b c : Option ℕ) (m : ℕ)
    → earliest a b c ≡ ok m
    → (x : ℕ) × (y : ℕ) × (b ≡ some x) × (c ≡ some y) × (m ≤ x) × (m ≤ y)
unfolding earliest
earliest-Bounds a (some b) (some c) m h = (b, c, refl, refl, ground arith, ground arith)
earliest-Bounds a none c m h = cc
earliest-Bounds a (some b) none m h = cc

coded-eq : {E A : Type 0} (e : VerifyError) (r : Result E A) (a : A) → coded e r ≡ ok a → r ≡ ok a
unfolding coded
coded-eq e (ok b) a h = ground arith
coded-eq e (err x) a h = cc

ltb→lt : (a b : ℕ) → ltb a b ≡ true → a < b
ltb→lt a b h = ground arith

some-inj : {a b : Identity} → ◌≡◌ {A = Option Identity} (some a) (some b) → a ≡ b
some-inj h = cc

module _ (p : Platform) where
  hashed-revision :
      (n : ℕ) (ids : List Identity) (r : Result PayloadError String) (s : TrustSnapshot)
      → hashed p n ids r ≡ ok s
      → s.revision ≡ n
  unfolding hashed
  hashed-revision n ids (ok text) s h = ground arith
  hashed-revision n ids (err e) s h = cc

  snapshot-revision :
      (t : Trust) (s : TrustSnapshot) → trust_snapshot p t ≡ ok s → s.revision ≡ t.revision
  unfolding trust_snapshot build_snapshot
  snapshot-revision t s h = hashed-revision t.revision _ _ s h

  -- What the test on the two records establishes for the current instant.
  usable-parts :
      (sr wr : Identity) (occurred received now : ℕ)
      → usable p sr wr occurred received now ≡ true
      → ((is_active sr.status ≡ true) × (record_active_at p sr now ≡ true))
        × ((is_active wr.status ≡ true) × (record_active_at p wr now ≡ true))
  usable-parts sr wr occurred received now h = ground arith

  trusted-IsAuthorization :
      (t : Trust) (now : ℕ) (d : Documents)
      → Ensures (IsAuthorization p t now) (trusted_documents p t now d)
  unfolding trusted_documents
  trusted-IsAuthorization t now d = Ensures-bind _ _ λ u0 _. Ensures-bind _ _ λ sr hs.
      Ensures-bind _ _ λ wr hw. Ensures-bind _ _ λ u1 roles. Ensures-bind _ _ λ u2 _.
        Ensures-bind _ _ λ occurred _. Ensures-bind _ _ λ received _. Ensures-bind _ _ λ u3 _.
          Ensures-bind _ _ λ u4 usable_now. Ensures-bind _ _ λ ack_until _.
            Ensures-bind _ _ λ until e. Ensures-bind _ _ λ u5 later. Ensures-bind _ _ λ trust ht.
              let (x, y, hx, hy, lx, ly) = earliest-Bounds _ _ _ _ e in
              let (forward, backward) =
                usable-parts sr wr occurred received now (guard-true _ _ usable_now) in
              let rs = &&_parts _ _ (guard-true _ _ roles) in
              Ensures-ok _ (record {
                until = until;
                source_signs = record {
                  identity = sr;
                  enrolled = candidate_record-eq _ _ hs;
                  has_role = source_role _ rs.0;
                  is_active = forward.0;
                  active_now = forward.1;
                  expiry = x;
                  expires = hx;
                  bounded = lx;
                };
                witness_signs = record {
                  identity = wr;
                  enrolled = candidate_record-eq _ _ hw;
                  has_role = witness_role _ rs.1;
                  is_active = backward.0;
                  active_now = backward.1;
                  expiry = y;
                  expires = hy;
                  bounded = ly;
                };
                current = refl;
                valid_until = refl;
                later = ltb→lt _ _ (guard-true _ _ later);
                revision = snapshot-revision t trust (coded-eq _ _ _ ht);
              })

  after_clock-IsAuthorization :
      (c : Crypto) (u : Trust) (m : Result TrustError ℕ) (e a : Value) (x : Authorized)
      → (after_verify_clock p c u m e a).result ≡ ok x
      → (now : ℕ) × (m ≡ ok now) × IsAuthorization p u now x
  unfolding after_verify_clock
  after_clock-IsAuthorization c u (err q) e a x h = absurd (cc)
  after_clock-IsAuthorization c u (ok now) e a x h =
      let (d, _, k) = >>=-eq-ok (verified_documents p c now e a) (trusted_documents p u now) h in
      (now, refl, (trusted-IsAuthorization u now d).at x k)

  -- What the verifier grants, it grants at the instant that the trusted clock gave in this call: the
  -- source and the Witness are enrolled in the state under these roles, are active by their status and
  -- at that instant, and the granted end is later than that instant and no later than either enrolment
  -- allows. The authorization carries that instant, that end and the revision of the state.
  pub verify-IsAuthorization :
      (c : Crypto) (e a : Value) (s : Sample) (t : Trust) (x : Authorized)
      → (verify_candidate p c e a s t).result ≡ ok x
      → (now : ℕ) × ((sample_trust_clock p t s).result ≡ ok now)
        × IsAuthorization p (sample_trust_clock p t s).state now x
  unfolding verify_candidate
  verify-IsAuthorization c e a s t x h =
      let o = sample_trust_clock p t s in after_clock-IsAuthorization c o.state o.result e a x h

  -- An identity that is enrolled but has ended signs nothing.
  ended-Signs :
      (t : Trust) (k j : String) (r : Identity) (role : Role) (now until : ℕ)
      → lookup k t.records ≡ some r
      → is_active r.status ≡ false
      → Signs p t role j now until
      → j ≢ k
  ended-Signs t k j r role now until h ended s e =
      let same : s.identity ≡ r =
        some-inj (sym (subst (λ i. lookup i t.records ≡ some s.identity) e s.enrolled) ∙ h) in
      let clash : true ≡ false =
        sym s.is_active ∙ subst (λ i. is_active i.status ≡ false) (sym same) ended in
      absurd (cc)

  -- An identity that was revoked, rotated out or recovered from takes part in no authorization, as a
  -- source or as a Witness, whatever calls come between: after any calls from a state in which it has
  -- ended, every authorization that the verifier grants names other identities.
  pub ended_never_signs :
      (c : Crypto) (t : Trust) (k : String) (r : Identity) (es : List Event) (e a : Value)
      (s : Sample) (x : Authorized)
      → lookup k t.records ≡ some r
      → is_active r.status ≡ false
      → (verify_candidate p c e a s (run p c t es)).result ≡ ok x
      → (x.source_key_id ≢ k) × (x.witness_key_id ≢ k)
  ended_never_signs c t k r es e a s x h ended granted =
      let u = run p c t es in
      let (now, _, auth) = verify-IsAuthorization c e a s u x granted in
      let after = run-ended p c t es k r h ended in
      let there : lookup k (sample_trust_clock p u s).state.records ≡ some r =
        rw (sample-Unchanged p u s).0 after in
      (
        ended-Signs _ k _ r source now _ there ended auth.source_signs,
        ended-Signs _ k _ r witness now _ there ended auth.witness_signs,
      )
