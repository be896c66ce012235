-- ===== src/Trust/Revisions.antt =====
-- The revision and the clock of a lifecycle over any calls.
use swisstokint_open_risk_in.Prelude.{
  ℕ, ◌≤◌, ◌≡◌, refl, ◌∙◌, inl, inr, Bool-cases, Option, none, some, List, [], ◌∷◌, Result, ok, err,
  arith, ltb,
}
use swisstokint_open_risk_in.Platform.{Platform}
use swisstokint_open_risk_in.Value.{Value, Sample}
use swisstokint_open_risk_in.Gate.Clock.{NotAfter, NotAfter-refl, NotAfter-trans}
use swisstokint_open_risk_in.Witness.Crypto.{Crypto}
use swisstokint_open_risk_in.Trust.Records.{
  TrustError, Trust, Prepared, advance, read_clock, sample_trust_clock,
}
use swisstokint_open_risk_in.Trust.Snapshots.{finish, commit_mutation, after_sample}
use swisstokint_open_risk_in.Trust.Admin.{
  Change, with_input, enroll_identity, revoke_identity, rotate_identity, recover_identity,
}
use swisstokint_open_risk_in.Trust.Verify.{after_verify_clock, verify_candidate}
use swisstokint_open_risk_in.Trust.Steps.{
  Event, administer, verify, Request, enroll, revoke, rotate, recover, admin, step, step-Ends, run,
}

-- The revision of a later state is no smaller, and equal only if the records are the same.
abbrev pub Revised : Trust → Trust → Type 0
Revised t u = (t.revision ≤ u.revision) × (u.revision ≡ t.revision → u.records ≡ t.records)

Revised-trans : (t u v : Trust) → Revised t u → Revised u v → Revised t v
Revised-trans t u v a b = (
  omega (arith, a.0, b.0),
  λ e.
      let first : u.revision ≡ t.revision = omega (arith, a.0, b.0) in
      let second : v.revision ≡ u.revision = omega arith in b.1 second ∙ a.1 first,
)

module _ (p : Platform) (c : Crypto) where
  step-Revised : (t : Trust) (e : Event) → Revised t (step p c t e)
  step-Revised t e = elim (step-Ends p c t e) [
    | inl same ↦ (omega (arith, same.1), λ q. same.0)
    | inr commits ↦ (omega (arith, commits.revision), λ q. absurd (omega (arith, commits.revision)))
  ]

  -- After any calls the revision is no smaller than before, and if it is the same the records are the
  -- same too: a revision names one set of records in the history of a lifecycle.
  pub run-Revised : (t : Trust) (es : List Event) → Revised t (run p c t es)
  unfolding run
  run-Revised t [] = (omega arith, λ e. refl)
  run-Revised t (e ∷ es) =
      Revised-trans t (step p c t e) (run p c (step p c t e) es) (step-Revised t e)
        (run-Revised (step p c t e) es)

abbrev Goes : Trust → Trust → Type 0
Goes t u = NotAfter t.last_trusted_time_ms u.last_trusted_time_ms

module _ (p : Platform) where
  onward :
      (t : Trust) (now : ℕ) (o : Option ℕ)
      → t.last_trusted_time_ms ≡ o
      → Goes t (advance p t (ok now)).state
  onward t now none e = rw e tt
  onward t now (some last) e = elim (Bool-cases (ltb now last)) [
    | inl back ↦ ground arith
    | inr fine ↦ ground arith
  ]

  advance-Goes : (t : Trust) (r : Result TrustError ℕ) → Goes t (advance p t r).state
  advance-Goes t (err e) = NotAfter-refl _
  advance-Goes t (ok now) = onward t now t.last_trusted_time_ms refl

  sample-Goes : (t : Trust) (s : Sample) → Goes t (sample_trust_clock p t s).state
  unfolding sample_trust_clock
  sample-Goes t s = advance-Goes t (read_clock p s)

  finish-time :
      (t : Trust) (m : Result TrustError (Prepared × Change))
      → (finish t m).state.last_trusted_time_ms ≡ t.last_trusted_time_ms
  unfolding finish commit_mutation
  finish-time t (err e) = refl
  finish-time t (ok q) = refl

  after_sample-time :
      (t : Trust) (m : Result TrustError ℕ)
      (body : Trust → ℕ → Result TrustError (Prepared × Change))
      → (after_sample t m body).state.last_trusted_time_ms ≡ t.last_trusted_time_ms
  unfolding after_sample
  after_sample-time t (err e) body = refl
  after_sample-time t (ok now) body = finish-time t (body t now)

  module _ (c : Crypto) where
    with_input-Goes :
        {A : Type 0} (m : Result TrustError A) (s : Sample) (t : Trust)
        (body : A → Trust → ℕ → Result TrustError (Prepared × Change))
        → Goes t (with_input p c m s t body).state
    unfolding with_input
    with_input-Goes (err e) s t body = NotAfter-refl _
    with_input-Goes (ok a) s t body =
        rw
          (after_sample-time (sample_trust_clock p t s).state (sample_trust_clock p t s).result
            (body a))
          (sample-Goes t s)

    admin-Goes : (r : Request) (s : Sample) (t : Trust) → Goes t (admin p c r s t).state
    unfolding admin enroll_identity revoke_identity rotate_identity recover_identity
    admin-Goes (enroll v) s t = with_input-Goes _ s t _
    admin-Goes (revoke v) s t = with_input-Goes _ s t _
    admin-Goes (rotate v) s t = with_input-Goes _ s t _
    admin-Goes (recover v) s t = with_input-Goes _ s t _

    verify-time :
        (u : Trust) (m : Result TrustError ℕ) (e a : Value)
        → (after_verify_clock p c u m e a).state ≡ u
    unfolding after_verify_clock
    verify-time u (err x) e a = refl
    verify-time u (ok now) e a = refl

    step-Goes : (t : Trust) (e : Event) → Goes t (step p c t e)
    unfolding step verify_candidate
    step-Goes t (administer r s) = admin-Goes r s t
    step-Goes t (verify e a s) =
        rw (verify-time (sample_trust_clock p t s).state (sample_trust_clock p t s).result e a)
          (sample-Goes t s)

    -- Whatever calls are made and whatever the trusted clock does in them, the last trusted time of a
    -- lifecycle never moves back, and once there is one it stays.
    pub trust_clock_monotone : (t : Trust) (es : List Event) → Goes t (run p c t es)
    unfolding run
    trust_clock_monotone t [] = NotAfter-refl _
    trust_clock_monotone t (e ∷ es) =
        NotAfter-trans _ _ _ (step-Goes t e) (trust_clock_monotone (step p c t e) es)
