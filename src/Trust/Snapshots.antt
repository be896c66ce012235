-- ===== src/Trust/Snapshots.antt =====
-- The snapshots of the trust state, and `stageMutation` and `commitMutation`, which take one.
use Prim.Native.String.{◌++◌ as concat}
use swisstokint_open_risk_in.Prelude.{
  ℕ, ◌+◌, String, Option, none, some, List, [], ◌∷◌, Result, ok, err, guard, ◌>>=◌, ◌>>◌, leb,
  text_lt, length, if◌then◌else◌,
}
use swisstokint_open_risk_in.Data
use swisstokint_open_risk_in.Data.{Data, Items, record_of}
use swisstokint_open_risk_in.Platform.{Platform}
use swisstokint_open_risk_in.Canonical.{canonicalize_payload}
use swisstokint_open_risk_in.Canonical.Safe.{PayloadError}
use swisstokint_open_risk_in.Dict.{Dict, values}
use swisstokint_open_risk_in.Trust.Records.{
  TrustError, capacity, trust_payload, Role, source, witness, Status, active, revoked, rotated,
  recovered, Identity, Trust, TrustSnapshot, Prepared, Reply, max_identities,
}

abbrev role_text : Role → String
role_text source = "source"
role_text witness = "witness"

abbrev status_text : Status → String
status_text active = "active"
status_text revoked = "revoked"
status_text rotated = "rotated"
status_text recovered = "recovered"

abbrev text_or_null : Option String → Data
text_or_null none = Data.null
text_or_null (some s) = Data.text s

unfoldable pub identity_data : Identity → Data
identity_data r = record_of (
    ("key_id", Data.text r.key_id)
    ∷ ("role", Data.text (role_text r.role))
    ∷ ("public_key_spki", Data.text r.public_key_spki)
    ∷ ("enrolled_at", Data.text r.enrolled_at)
    ∷ ("valid_until", Data.text r.valid_until)
    ∷ ("status", Data.text (status_text r.status))
    ∷ ("predecessor_key_id", text_or_null r.predecessor_key_id)
    ∷ ("transition_at", text_or_null r.transition_at)
    ∷ ("transition_reason", text_or_null r.transition_reason)
    ∷ [])

identity_items : List Identity → Items
unfolding identity_data
identity_items [] = Data.nil
identity_items (r ∷ rest) = Data.cons (identity_data r) (identity_items rest)

insert_identity : Identity → List Identity → List Identity
insert_identity r [] = r ∷ []
insert_identity r (x ∷ xs) =
    let behind = x ∷ insert_identity r xs in
    if text_lt x.key_id r.key_id then behind else r ∷ x ∷ xs

-- `[...].sort(lexicalKeyIdCompare)`
unfoldable pub sort_identities : List Identity → List Identity
unfolding insert_identity
sort_identities [] = []
sort_identities (r ∷ rest) = insert_identity r (sort_identities rest)

unfoldable pub trust_data : ℕ → List Identity → Data
unfolding identity_items
trust_data revision identities = record_of (
    ("schema_version", Data.text "pom-rx-witness-trust-state/0.1")
    ∷ ("revision", Data.number (Data.nat revision))
    ∷ ("identities", Data.array (identity_items identities))
    ∷ [])

module _ (p : Platform) where
  unfoldable pub hashed :
      ℕ → List Identity → Result PayloadError String → Result TrustError TrustSnapshot
  hashed revision identities (ok canonical) = ok (record {
    revision = revision;
    identities = identities;
    trust_state_hash = p.sha256_hex (concat "swisstokint:pom-rx-witness-trust-state:v1:" canonical);
  })
  hashed revision identities (err e) = err (trust_payload e)

  hashed_identities : ℕ → List Identity → Result TrustError TrustSnapshot
  unfolding trust_data hashed
  hashed_identities revision identities =
      hashed revision identities (canonicalize_payload p (trust_data revision identities))

  unfoldable pub build_snapshot : Dict Identity → ℕ → Result TrustError TrustSnapshot
  unfolding sort_identities hashed_identities
  build_snapshot d revision = hashed_identities revision (sort_identities (values d))

  -- `snapshot`
  unfoldable pub trust_snapshot : Trust → Result TrustError TrustSnapshot
  unfolding build_snapshot
  trust_snapshot t = build_snapshot t.records t.revision

  -- `stageMutation`, from the prospective records
  unfoldable pub stage_mutation : Trust → Dict Identity → Result TrustError Prepared
  unfolding build_snapshot
  stage_mutation t prospective = do
    guard (leb (length prospective) max_identities) capacity
    trust ← build_snapshot prospective (t.revision + 1)
    ok (record { records = prospective; revision = t.revision + 1; trust = trust })

-- `commitMutation`
unfoldable pub commit_mutation : Trust → Prepared → Trust
commit_mutation t prepared = record t { records = prepared.records; revision = prepared.revision }

module _ {A : Type 0} where
  -- The end of an operation: what it prepared is committed, and an error leaves the state.
  unfoldable pub finish : Trust → Result TrustError (Prepared × A) → Reply (TrustSnapshot × A)
  finish t (err e) = record { state = t; result = err e }
  finish t (ok (prepared, a)) = record {
    state = commit_mutation t prepared;
    result = ok (prepared.trust, a);
  }

  -- `const now = sampleTrustedClock(); …`
  unfoldable pub after_sample :
      Trust
      → Result TrustError ℕ
      → (Trust → ℕ → Result TrustError (Prepared × A))
      → Reply (TrustSnapshot × A)
  unfolding finish
  after_sample t (err e) body = record { state = t; result = err e }
  after_sample t (ok now) body = finish t (body t now)
