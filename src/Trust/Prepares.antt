-- ===== src/Trust/Prepares.antt =====
-- What the operations of the administrator prepare, as moves of the records.
use swisstokint_open_risk_in.Prelude.{
  ℕ, ◌+◌, ◌≤◌, ◌≡◌, ◌≢◌, refl, inl, inr, String, Bool, true, false, ◌||◌, not, Option, none, some,
  ok, leb→le, str_eq, eq_iff, is_some, arith, &&_parts, Option-cases, Ensures, Ensures-bind,
  Ensures-ok, guard-true,
}
use swisstokint_open_risk_in.Platform.{Platform}
use swisstokint_open_risk_in.Value.{Value}
use swisstokint_open_risk_in.Value.Exact.{Snapshot}
use swisstokint_open_risk_in.Authorization.{canonical_instant}
use swisstokint_open_risk_in.Dict.{Dict, lookup, contains}
use swisstokint_open_risk_in.Witness.Crypto.{KeyObject, Crypto, pom_rx_key_id}
use swisstokint_open_risk_in.Trust.Records.{
  duplicate, Role, Status, active, revoked, rotated, recovered, Identity, Trust, min_validity_ms,
  max_validity_ms, is_active, ensure_no_successor, canonical_utc, validate_validity_window,
}
use swisstokint_open_risk_in.Trust.Snapshots.{stage_mutation}
use swisstokint_open_risk_in.Trust.Admin.{
  Replacement, enrolled_record, ended, new_identity, enroll_at, revoke_at, replace_at,
}
use swisstokint_open_risk_in.Trust.Moves.{
  IsFresh, IsEnding, Move, enrols, ends, replaces, IsPrepared, Instant,
}

pub not-false : (b : Bool) → not b ≡ true → b ≡ false
not-false b h = ground arith

pub neither : (a b : Bool) → not (a || b) ≡ true → (a ≡ false) × (b ≡ false)
neither a b h = ground arith

is_some-none : (o : Option Identity) → is_some o ≡ false → o ≡ none
is_some-none none h = refl
is_some-none (some r) h = cc

absent : (k : String) (d : Dict Identity) → not (contains k d) ≡ true → lookup k d ≡ none
absent k d h = is_some-none _ (not-false _ h)

pub str_eq-false : (s t : String) → str_eq s t ≡ false → s ≢ t
str_eq-false s t h e = ground (arith, eq_iff s t)

is_active-eq : (s : Status) → is_active s ≡ true → s ≡ active
is_active-eq active h = refl
is_active-eq revoked h = cc
is_active-eq rotated h = cc
is_active-eq recovered h = cc

enrolled_record-eq :
    (k : String) (d : Dict Identity) (r : Identity)
    → enrolled_record k d ≡ ok r
    → lookup k d ≡ some r
unfolding enrolled_record
enrolled_record-eq k d r h = elim (Option-cases (lookup k d)) [
  | inl e ↦ ground arith
  | inr (q, e) ↦ ground arith
]

module _ (p : Platform) where
  canonical_instant-Instant : (v : Value) (ms : ℕ) → canonical_instant p v ≡ some ms → Instant p ms
  unfolding canonical_instant
  canonical_instant-Instant (Value.text s) ms h = ground (arith, eq_iff (p.to_iso_string ms) s)
  canonical_instant-Instant v ms h = cc

  pub canonical_utc-Instant : (v : Value) (ms : ℕ) → canonical_utc p v ≡ ok ms → Instant p ms
  unfolding canonical_utc
  canonical_utc-Instant v ms h = elim (Option-cases (canonical_instant p v)) [
    | inl e ↦ ground arith
    | inr (a, e) ↦ canonical_instant-Instant v ms (ground arith)
  ]

  stage_mutation-IsPrepared :
      (t : Trust) (d : Dict Identity)
      → Move p t.records d
      → Ensures (IsPrepared p t) (stage_mutation p t d)
  unfolding stage_mutation
  stage_mutation-IsPrepared t d m = Ensures-bind _ _ λ u small. Ensures-bind _ _ λ trust h.
      Ensures-ok _ (record { move = m; revision = refl; size = leb→le _ _ (guard-true _ _ small) })

  pub validity_window-Window :
      (now : ℕ) (v : Value)
      → Ensures
          (λ expiry.
            Instant p expiry × (now + min_validity_ms ≤ expiry) × (expiry ≤ now + max_validity_ms))
          (validate_validity_window p now v)
  unfolding validate_validity_window
  validity_window-Window now v = Ensures-bind _ _ λ expiry h. Ensures-bind _ _ λ u inside.
      let both = &&_parts _ _ (guard-true _ _ inside) in
      Ensures-ok _ (canonical_utc-Instant v expiry h, leb→le _ _ both.0, leb→le _ _ both.1)

  module _ (c : Crypto) where
    new_identity-IsFresh :
        (key : KeyObject) (role : Role) (now expiry : ℕ) (o : Option String)
        → Instant p now
        → Instant p expiry × (now + min_validity_ms ≤ expiry) × (expiry ≤ now + max_validity_ms)
        → IsFresh p (new_identity p c key role now expiry o)
    new_identity-IsFresh key role now expiry o i w = record {
      is_active = refl;
      no_transition = refl;
      now = now;
      expiry = expiry;
      enrolled = i;
      expires = w.0;
      lower = w.1;
      upper = w.2;
    }

    pub enroll_at-IsPrepared :
        (s : Snapshot) (t : Trust) (now : ℕ)
        → Instant p now
        → Ensures (λ q. IsPrepared p t q.0) (enroll_at p c s t now)
    unfolding enroll_at
    enroll_at-IsPrepared s t now i = Ensures-bind _ _ λ key _. Ensures-bind _ _ λ u fresh.
        Ensures-bind _ _ λ expiry w. Ensures-bind _ _ λ role _. Ensures-bind _ _ λ prepared h.
          Ensures-ok _ (
            (stage_mutation-IsPrepared t _ (
                enrols _ _ (absent (pom_rx_key_id c key) t.records (guard-true _ duplicate fresh))
                  (new_identity-IsFresh key role now expiry none i
                    ((validity_window-Window now _).at _ w))
                  refl)).at
              _ h)

    active_ended :
        (r : Identity) (status : Status) (at reason : String)
        → is_active r.status ≡ true
        → is_active status ≡ false
        → IsEnding r (ended r status at reason)
    active_ended r status at reason a n = record {
      was_active = is_active-eq _ a;
      not_active = n;
      key_id = refl;
      role = refl;
      spki = refl;
      enrolled_at = refl;
      valid_until = refl;
      predecessor = refl;
      transition = refl;
    }

    pub revoke_at-IsPrepared :
        (s : Snapshot) (t : Trust) (now : ℕ)
        → Ensures (λ q. IsPrepared p t q.0) (revoke_at p c s t now)
    unfolding revoke_at enrolled_record
    revoke_at-IsPrepared s t now = Ensures-bind _ _ λ k _. Ensures-bind _ _ λ reason _.
        Ensures-bind _ _ λ r found. Ensures-bind _ _ λ u a. Ensures-bind _ _ λ prepared h.
          Ensures-ok _ (
            (stage_mutation-IsPrepared t _ (
                ends _ k r _ (enrolled_record-eq k _ r found)
                  (active_ended r revoked _ reason (guard-true _ _ a) refl))).at
              _ h)

    pub replace_at-IsPrepared :
        (r : Replacement) (t : Trust) (now : ℕ)
        → is_active r.status ≡ false
        → Instant p now
        → Ensures (λ q. IsPrepared p t q.0) (replace_at p c r t now)
    unfolding replace_at ensure_no_successor
    replace_at-IsPrepared q t now n i = Ensures-bind _ _ λ k _. Ensures-bind _ _ λ r found.
        Ensures-bind _ _ λ u a. Ensures-bind _ _ λ v alone. Ensures-bind _ _ λ key _.
          Ensures-bind _ _ λ w new. Ensures-bind _ _ λ expiry window. Ensures-bind _ _ λ prepared h.
            let fresh = neither _ _ (guard-true _ _ new) in
            Ensures-ok _ (
              (stage_mutation-IsPrepared t _ (
                  replaces _ k r _ _ (enrolled_record-eq k _ r found)
                    (active_ended r q.status _ q.reason (&&_parts _ _ (guard-true _ _ a)).0 n)
                    (not-false _ (guard-true _ _ alone)) (is_some-none _ fresh.1)
                    (str_eq-false _ _ fresh.0)
                    (new_identity-IsFresh key r.role now expiry (some k) i
                      ((validity_window-Window now _).at _ window))
                    refl refl)).at
                _ h)
