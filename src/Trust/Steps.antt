-- ===== src/Trust/Steps.antt =====
-- Histories of calls of one lifecycle, and what each call may change.
use swisstokint_open_risk_in.Prelude.{
  ℕ, ◌≡◌, refl, sym, subst, ◌⊎◌, inl, inr, false, List, [], ◌∷◌, Result, ok, err, arith, Ensures,
  Ensures-bind, Ensures-ok,
}
use swisstokint_open_risk_in.Platform.{Platform}
use swisstokint_open_risk_in.Value.{Value, Sample, sampled, clock_threw}
use swisstokint_open_risk_in.Witness.Crypto.{Crypto}
use swisstokint_open_risk_in.Trust.Records.{
  TrustError, Trust, Prepared, is_active, sample_trust_clock, advance, read_clock,
}
use swisstokint_open_risk_in.Trust.Snapshots.{commit_mutation, finish, after_sample}
use swisstokint_open_risk_in.Trust.Admin.{
  Change, Answer, with_input, enroll_identity, revoke_identity, rotation, rotate_identity, recovery,
  recover_identity,
}
use swisstokint_open_risk_in.Trust.Verify.{verify_candidate, after_verify_clock}
use swisstokint_open_risk_in.Trust.Moves.{Move, Commits, IsPrepared, Instant}
use swisstokint_open_risk_in.Trust.Prepares.{
  canonical_utc-Instant, enroll_at-IsPrepared, revoke_at-IsPrepared, replace_at-IsPrepared,
}

-- A call of the administrator, with its input.
pub data Request : Type 0 where
  enroll revoke rotate recover : Value → Request

-- A call, and what the trusted clock did in it.
pub data Event : Type 0 where
  administer : Request → Sample → Event
  verify : Value → Value → Sample → Event

abbrev pub Unchanged : Trust → Trust → Type 0
Unchanged t u = (u.records ≡ t.records) × (u.revision ≡ t.revision)

module _ (p : Platform) where
  -- How a call that began in `t` leaves the state, by its result.
  abbrev pub Ends : {A : Type 0} → Trust → Trust → Result TrustError A → Type 0
  Ends t u (ok a) = Commits p t u
  Ends t u (err e) = Unchanged t u

  module _ (c : Crypto) where
    unfoldable pub admin : Request → Sample → Trust → Answer p c
    unfolding enroll_identity revoke_identity rotate_identity recover_identity
    admin (enroll input) sample t = enroll_identity p c input sample t
    admin (revoke input) sample t = revoke_identity p c input sample t
    admin (rotate input) sample t = rotate_identity p c input sample t
    admin (recover input) sample t = recover_identity p c input sample t

    unfoldable pub step : Trust → Event → Trust
    unfolding admin verify_candidate
    step t (administer r sample) = (admin r sample t).state
    step t (verify envelope ack sample) = (verify_candidate p c envelope ack sample t).state

    unfoldable pub run : Trust → List Event → Trust
    unfolding step
    run t [] = t
    run t (e ∷ es) = run (step t e) es

module _ (p : Platform) where
  advance-Unchanged : (t : Trust) (r : Result TrustError ℕ) → Unchanged t (advance p t r).state
  advance-Unchanged t (err e) = (refl, refl)
  advance-Unchanged t (ok now) = ground arith

  pub sample-Unchanged : (t : Trust) (s : Sample) → Unchanged t (sample_trust_clock p t s).state
  unfolding sample_trust_clock
  sample-Unchanged t s = advance-Unchanged t (read_clock p s)

  read_clock-Instant : (s : Sample) (now : ℕ) → read_clock p s ≡ ok now → Instant p now
  unfolding read_clock
  read_clock-Instant clock_threw now h = cc
  read_clock-Instant (sampled v) now h = canonical_utc-Instant p v now h

  advance-ok :
      (t : Trust) (r : Result TrustError ℕ) (now : ℕ) → (advance p t r).result ≡ ok now → r ≡ ok now
  advance-ok t (err e) now h = cc
  advance-ok t (ok m) now h = ground arith

  pub sample-Instant :
      (t : Trust) (s : Sample) (now : ℕ)
      → (sample_trust_clock p t s).result ≡ ok now
      → Instant p now
  unfolding sample_trust_clock
  sample-Instant t s now h = read_clock-Instant s now (advance-ok t (read_clock p s) now h)

  Commits-from : (t u w : Trust) → Unchanged t u → Commits p u w → Commits p t w
  Commits-from t u w same h = record {
    move = subst (λ d. Move p d w.records) same.0 h.move;
    revision = ground (arith, h.revision);
    size = h.size;
  }

  finish-Ends :
      (t u : Trust) (m : Result TrustError (Prepared × Change))
      → Unchanged t u
      → Ensures (λ q. IsPrepared p u q.0) m
      → Ends p t (finish u m).state (finish u m).result
  unfolding finish commit_mutation
  finish-Ends t u (err e) same h = same
  finish-Ends t u (ok q) same h =
      let q-IsPrepared = h.at q refl in
      Commits-from t u _ same (record {
        move = q-IsPrepared.move;
        revision = q-IsPrepared.revision;
        size = q-IsPrepared.size;
      })

  after_sample-Ends :
      (t u : Trust) (m : Result TrustError ℕ)
      (body : Trust → ℕ → Result TrustError (Prepared × Change))
      → Unchanged t u
      → ((now : ℕ) → m ≡ ok now → Ensures (λ q. IsPrepared p u q.0) (body u now))
      → Ends p t (after_sample u m body).state (after_sample u m body).result
  unfolding after_sample
  after_sample-Ends t u (err e) body same h = same
  after_sample-Ends t u (ok now) body same h = finish-Ends t u (body u now) same (h now refl)

  either :
      {A : Type 0} {t u : Trust} (m : Result TrustError A)
      → Ends p t u m
      → Unchanged t u ⊎ Commits p t u
  either (ok a) h = inr h
  either (err e) h = inl h

  module _ (c : Crypto) where
    with_input-Ends :
        {A : Type 0} (m : Result TrustError A) (s : Sample) (t : Trust)
        (body : A → Trust → ℕ → Result TrustError (Prepared × Change))
        → ((a : A) (u : Trust) (now : ℕ)
            → m ≡ ok a
            → Instant p now
            → Ensures (λ q. IsPrepared p u q.0) (body a u now))
        → Ends p t (with_input p c m s t body).state (with_input p c m s t body).result
    unfolding with_input
    with_input-Ends (err e) s t body h = (refl, refl)
    with_input-Ends (ok a) s t body h =
        after_sample-Ends t _ _ (body a) (sample-Unchanged t s)
          (λ now e. h a _ now refl (sample-Instant t s now e))

    rotation-Ended : (v : Value) → Ensures (λ r. is_active r.status ≡ false) (rotation p c v)
    unfolding rotation
    rotation-Ended v = Ensures-bind _ _ λ s _. Ensures-ok _ refl

    recovery-Ended : (v : Value) → Ensures (λ r. is_active r.status ≡ false) (recovery p c v)
    unfolding recovery
    recovery-Ended v = Ensures-bind _ _ λ s _. Ensures-bind _ _ λ reason _. Ensures-ok _ refl

    -- Each call of an administrator either fails and leaves the records and the revision as they were,
    -- or makes one of the moves that the lifecycle allows, with the next revision and at most 32
    -- identities.
    pub admin_atomic :
        (r : Request) (s : Sample) (t : Trust)
        → Ends p t (admin p c r s t).state (admin p c r s t).result
    unfolding admin enroll_identity revoke_identity rotate_identity recover_identity
    admin_atomic (enroll v) s t =
        with_input-Ends _ s t _ (λ a u now _ i. enroll_at-IsPrepared p c a u now i)
    admin_atomic (revoke v) s t =
        with_input-Ends _ s t _ (λ a u now _ i. revoke_at-IsPrepared p c a u now)
    admin_atomic (rotate v) s t =
        with_input-Ends (rotation p c v) s t _
          (λ a u now e i. replace_at-IsPrepared p c a u now ((rotation-Ended v).at a e) i)
    admin_atomic (recover v) s t =
        with_input-Ends (recovery p c v) s t _
          (λ a u now e i. replace_at-IsPrepared p c a u now ((recovery-Ended v).at a e) i)

    after_verify-state :
        (u : Trust) (m : Result TrustError ℕ) (e a : Value)
        → (after_verify_clock p c u m e a).state ≡ u
    unfolding after_verify_clock
    after_verify-state u (err x) e a = refl
    after_verify-state u (ok now) e a = refl

    pub verify-Unchanged :
        (e a : Value) (s : Sample) (t : Trust) → Unchanged t (verify_candidate p c e a s t).state
    unfolding verify_candidate
    verify-Unchanged e a s t =
        subst (λ u. Unchanged t u) (sym (after_verify-state (sample_trust_clock p t s).state _ e a))
          (sample-Unchanged t s)

    -- One call: the records stay, or one move was committed.
    pub step-Ends :
        (t : Trust) (e : Event) → Unchanged t (step p c t e) ⊎ Commits p t (step p c t e)
    unfolding step
    step-Ends t (administer r s) = either (admin p c r s t).result (admin_atomic r s t)
    step-Ends t (verify e a s) = inl (verify-Unchanged e a s t)
