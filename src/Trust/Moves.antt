-- ===== src/Trust/Moves.antt =====
-- What one operation may do to the records of a trust lifecycle.
use swisstokint_open_risk_in.Prelude.{
  ℕ, ◌+◌, ◌≤◌, ◌≡◌, ◌≢◌, String, true, false, none, some, length, any_of, is_some,
}
use swisstokint_open_risk_in.Platform.{Platform}
use swisstokint_open_risk_in.Dict.{Dict, lookup, insert, values}
use swisstokint_open_risk_in.Trust.Records.{
  active, Identity, Trust, Prepared, max_identities, min_validity_ms, max_validity_ms, is_active,
  succeeds_key,
}

-- A record as it is made: active, not ended, and valid for at least a second and at most 366 days from
-- the instant of its enrolment.
pub record IsFresh (p : Platform) (r : Identity) : Type 0 where
  pub is_active : r.status ≡ active
  pub no_transition : r.transition_at ≡ none
  pub now : ℕ
  pub expiry : ℕ
  pub enrolled : p.date_parse r.enrolled_at ≡ some now
  pub expires : p.date_parse r.valid_until ≡ some expiry
  pub lower : now + min_validity_ms ≤ expiry
  pub upper : expiry ≤ now + max_validity_ms

-- An active record, ended: nothing but its status and its transition differ.
pub record IsEnding (r s : Identity) : Type 0 where
  pub was_active : r.status ≡ active
  pub not_active : is_active s.status ≡ false
  pub key_id : s.key_id ≡ r.key_id
  pub role : s.role ≡ r.role
  pub spki : s.public_key_spki ≡ r.public_key_spki
  pub enrolled_at : s.enrolled_at ≡ r.enrolled_at
  pub valid_until : s.valid_until ≡ r.valid_until
  pub predecessor : s.predecessor_key_id ≡ r.predecessor_key_id
  pub transition : is_some s.transition_at ≡ true

-- What a successful operation does to the records.
pub data Move (p : Platform) : Dict Identity → Dict Identity → Type 0 where
  enrols :
      (d : Dict Identity) (r : Identity)
      → lookup r.key_id d ≡ none
      → IsFresh p r
      → r.predecessor_key_id ≡ none
      → Move p d (insert r.key_id r d)
  ends :
      (d : Dict Identity) (k : String) (r s : Identity)
      → lookup k d ≡ some r
      → IsEnding r s
      → Move p d (insert k s d)
  replaces :
      (d : Dict Identity) (k : String) (r s n : Identity)
      → lookup k d ≡ some r
      → IsEnding r s
      → any_of (succeeds_key k) (values d) ≡ false
      → lookup n.key_id d ≡ none
      → n.key_id ≢ k
      → IsFresh p n
      → n.predecessor_key_id ≡ some k
      → n.role ≡ r.role
      → Move p d (insert n.key_id n (insert k s d))

-- A committed operation: one move, one more revision, and at most 32 identities.
pub record Commits (p : Platform) (t u : Trust) : Type 0 where
  pub move : Move p t.records u.records
  pub revision : u.revision ≡ t.revision + 1
  pub size : length u.records ≤ max_identities

-- A prepared mutation that would be such an operation.
pub record IsPrepared (p : Platform) (t : Trust) (q : Prepared) : Type 0 where
  pub move : Move p t.records q.records
  pub revision : q.revision ≡ t.revision + 1
  pub size : length q.records ≤ max_identities

-- An instant that a canonical text denotes is denoted by its text.
abbrev pub Instant : Platform → ℕ → Type 0
Instant p ms = p.date_parse (p.to_iso_string ms) ≡ some ms
