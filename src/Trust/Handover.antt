-- ===== src/Trust/Handover.antt =====
-- Rotation and recovery: the instant at which a successor replaces its predecessor.
use swisstokint_open_risk_in.Prelude.{
  ℕ, ◌+◌, ◌≤◌, ◌<◌, ◌≡◌, refl, sym, subst, ◌∙◌, String, true, false, Option, some, Result, ok, err,
  arith, Ensures, Ensures-bind, Ensures-ok, guard-true,
}
use swisstokint_open_risk_in.Platform.{Platform}
use swisstokint_open_risk_in.Value.{Sample}
use swisstokint_open_risk_in.Dict.{Dict, lookup, insert, lookup-insert_self, lookup-insert_ne}
use swisstokint_open_risk_in.Witness.Crypto.{KeyObject, Crypto, pom_rx_key_id}
use swisstokint_open_risk_in.Trust.Records.{
  TrustError, Identity, Trust, TrustSnapshot, Prepared, Role, Status, min_validity_ms,
  record_active_at, sample_trust_clock,
}
use swisstokint_open_risk_in.Trust.Snapshots.{stage_mutation, commit_mutation, finish, after_sample}
use swisstokint_open_risk_in.Trust.Admin.{
  Change, one, two, Replacement, ended, new_identity, replace_at, with_input, rotation,
  rotate_identity, recovery, recover_identity,
}
use swisstokint_open_risk_in.Trust.Moves.{Instant}
use swisstokint_open_risk_in.Trust.Prepares.{validity_window-Window, neither, str_eq-false}
use swisstokint_open_risk_in.Trust.Steps.{
  Request, enroll, revoke, rotate, recover, admin, sample-Instant,
}

-- What a replacement at an instant did: the returned records are those that are found under their keys;
-- the predecessor is active at no instant from then on, the successor from then until its end, which is
-- at least a second later.
pub record HandsOver (p : Platform) (now : ℕ) (d : Dict Identity) (q n : Identity) : Type 0 where
  pub old_key : String
  pub old_record : lookup old_key d ≡ some q
  pub new_record : lookup n.key_id d ≡ some n
  pub named : n.predecessor_key_id ≡ some old_key
  pub role : n.role ≡ q.role
  pub old_stops : (at : ℕ) → now ≤ at → record_active_at p q at ≡ false
  pub expiry : ℕ
  pub lasts : now + min_validity_ms ≤ expiry
  pub new_starts : (at : ℕ) → now ≤ at → at < expiry → record_active_at p n at ≡ true

abbrev pub Replaced : Platform → ℕ → Dict Identity → Change → Type 0
Replaced p now d (one r) = ⊥
Replaced p now d (two q n) = HandsOver p now d q n

module _ (p : Platform) where
  ended_stops :
      (r : Identity) (status : Status) (reason : String) (now at : ℕ)
      → Instant p now
      → now ≤ at
      → record_active_at p (ended r status (p.to_iso_string now) reason) at ≡ false
  unfolding record_active_at
  ended_stops r status reason now at i h = rw i (ground arith)

  module _ (c : Crypto) where
    fresh_starts :
        (key : KeyObject) (role : Role) (now expiry at : ℕ) (o : Option String)
        → Instant p now
        → Instant p expiry
        → now ≤ at
        → at < expiry
        → record_active_at p (new_identity p c key role now expiry o) at ≡ true
    unfolding record_active_at
    fresh_starts key role now expiry at o i j h k = rw (i, j) (ground arith)

    stage_mutation-records :
        (t : Trust) (d : Dict Identity) → Ensures (λ q. q.records ≡ d) (stage_mutation p t d)
    unfolding stage_mutation
    stage_mutation-records t d =
        Ensures-bind _ _ λ u _. Ensures-bind _ _ λ trust _. Ensures-ok _ refl

    replace_at-HandsOver :
        (r : Replacement) (t : Trust) (now : ℕ)
        → Instant p now
        → Ensures (λ q. Replaced p now q.0.records q.1) (replace_at p c r t now)
    unfolding replace_at
    replace_at-HandsOver q t now i = Ensures-bind _ _ λ k _. Ensures-bind _ _ λ r _.
        Ensures-bind _ _ λ u _. Ensures-bind _ _ λ v _. Ensures-bind _ _ λ key _.
          Ensures-bind _ _ λ w new. Ensures-bind _ _ λ expiry window. Ensures-bind _ _ λ prepared h.
            let d = (stage_mutation-records t _).at _ h in
            let span = (validity_window-Window p now _).at _ window in
            let differs = str_eq-false _ _ (neither _ _ (guard-true _ _ new)).0 in
            Ensures-ok _ (record {
              old_key = k;
              old_record =
                  rw d (lookup-insert_ne k _ _ _ (λ e. differs (sym e)) ∙ lookup-insert_self k _ _);
              new_record = rw d (
                  lookup-insert_self (pom_rx_key_id c key) _
                    (insert k (ended r q.status (p.to_iso_string now) q.reason) t.records));
              named = refl;
              role = refl;
              old_stops = λ at after. ended_stops r q.status q.reason now at i after;
              expiry = expiry;
              lasts = span.1;
              new_starts = λ at after before.
                  fresh_starts key r.role now expiry at (some k) i span.0 after before;
            })

module _ (p : Platform) (P : ℕ → Dict Identity → Change → Type 0) where
  finish-with :
      (t : Trust) (m : Result TrustError (Prepared × Change)) (now : ℕ) (x : TrustSnapshot)
      (change : Change)
      → Ensures (λ q. P now q.0.records q.1) m
      → (finish t m).result ≡ ok (x, change)
      → P now (finish t m).state.records change
  unfolding finish commit_mutation
  finish-with t (err e) now x change h r = absurd (cc)
  finish-with t (ok q) now x change h r =
      let same : q.1 ≡ change = cc in subst (P now q.0.records) same (h.at q refl)

  after_sample-with :
      (t : Trust) (m : Result TrustError ℕ)
      (body : Trust → ℕ → Result TrustError (Prepared × Change)) (x : TrustSnapshot)
      (change : Change)
      → ((now : ℕ) → m ≡ ok now → Ensures (λ q. P now q.0.records q.1) (body t now))
      → (after_sample t m body).result ≡ ok (x, change)
      → (now : ℕ) × (m ≡ ok now) × P now (after_sample t m body).state.records change
  unfolding after_sample
  after_sample-with t (err e) body x change h r = absurd (cc)
  after_sample-with t (ok now) body x change h r =
      (now, refl, finish-with t (body t now) now x change (h now refl) r)

  with_input-with :
      (c : Crypto) {A : Type 0} (m : Result TrustError A) (s : Sample) (t : Trust)
      (body : A → Trust → ℕ → Result TrustError (Prepared × Change)) (x : TrustSnapshot)
      (change : Change)
      → ((a : A) (u : Trust) (now : ℕ)
          → Instant p now
          → Ensures (λ q. P now q.0.records q.1) (body a u now))
      → (with_input p c m s t body).result ≡ ok (x, change)
      → (now : ℕ) × ((sample_trust_clock p t s).result ≡ ok now)
        × P now (with_input p c m s t body).state.records change
  unfolding with_input
  with_input-with c (err e) s t body x change h r = absurd (cc)
  with_input-with c (ok a) s t body x change h r =
      let o = sample_trust_clock p t s in
      after_sample-with o.state o.result (body a) x change
        (λ now e. h a o.state now (sample-Instant p t s now e)) r

-- A request to replace an identity.
abbrev pub IsReplacement : Request → Type 0
IsReplacement (enroll v) = ⊥
IsReplacement (revoke v) = ⊥
IsReplacement (rotate v) = Unit
IsReplacement (recover v) = Unit

module _ (p : Platform) (c : Crypto) where
  -- A rotation or a recovery that succeeds hands over at the instant of the trusted clock: the two
  -- records that it returns are enrolled under their keys, with one role and the successor naming the
  -- predecessor; the predecessor is active at no instant from then on, and the successor at every
  -- instant from then until its end, which is at least a second later.
  pub replacement-HandsOver :
      (r : Request) (s : Sample) (t : Trust) (x : TrustSnapshot) (change : Change)
      → IsReplacement r
      → (admin p c r s t).result ≡ ok (x, change)
      → (now : ℕ) × ((sample_trust_clock p t s).result ≡ ok now)
        × Replaced p now (admin p c r s t).state.records change
  unfolding admin rotate_identity recover_identity
  replacement-HandsOver (enroll v) s t x change i h = absurd i
  replacement-HandsOver (revoke v) s t x change i h = absurd i
  replacement-HandsOver (rotate v) s t x change i h =
      with_input-with p (Replaced p) c (rotation p c v) s t _ x change
        (λ a u now j. replace_at-HandsOver p c a u now j) h
  replacement-HandsOver (recover v) s t x change i h =
      with_input-with p (Replaced p) c (recovery p c v) s t _ x change
        (λ a u now j. replace_at-HandsOver p c a u now j) h
