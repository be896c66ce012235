-- ===== src/ClaimStore/Owner.antt =====
-- A claim returns a record for a capability only after its own `mkdir` made the capability's directory.
use swisstokint_open_risk_in.Prelude.{
  ℕ, String, ◌≡◌, ◌≢◌, refl, sym, ap, subst, ok-inj, ◌⊎◌, Option, Result, ok, err, >>=-eq-ok, inl,
  inr,
}
use swisstokint_open_risk_in.Data.{Data}
use swisstokint_open_risk_in.Platform.{Platform}
use swisstokint_open_risk_in.Value.{Value}
use swisstokint_open_risk_in.ClaimStore.Records.{ClaimError, ClaimRecord, make_claim_record}
use swisstokint_open_risk_in.ClaimStore.Io.{
  capability_directory, Op, mkdir, await_root, Reply, done, eexist, enoent, fault, stat, content,
  root, Io, ret, raise, call, ◌>>=ᵢ◌, lift, when_done,
}
use swisstokint_open_risk_in.ClaimStore.Durable.{trusted}
use swisstokint_open_risk_in.ClaimStore.Programs.{claim, after_mkdir, reserve_directory, request}

-- Whatever record it returns is for capability `c`.
pub data Returns (c : String) : Io ClaimRecord → Type 0 where
  returns : (r : ClaimRecord) → r.capability_id ≡ c → Returns c (ret r)
  raises : (e : ClaimError) → Returns c (raise e)
  calls :
      {o : Op} {k : Reply → Io ClaimRecord} → ((r : Reply) → Returns c (k r)) → Returns c (call o k)

-- It returns nothing before it has made the directory of `c`.
pub data Guarded (c : String) : Io ClaimRecord → Type 0 where
  stops : (e : ClaimError) → Guarded c (raise e)
  waits :
      {k : Reply → Io ClaimRecord} → ((r : Reply) → Guarded c (k r)) → Guarded c (call await_root k)
  makes :
      {k : Reply → Io ClaimRecord}
      → Returns c (k done)
      → ((r : Reply) → r ≢ done → Guarded c (k r))
      → Guarded c (call (mkdir (capability_directory c)) k)

lift-Returns :
    {A : Type 0} (c : String) (m : Result ClaimError A) (f : A → Io ClaimRecord)
    → ((a : A) → m ≡ ok a → Returns c (f a))
    → Returns c (lift m >>=ᵢ f)
unfolding ◌>>=ᵢ◌
lift-Returns c (ok a) f h = h a refl
lift-Returns c (err e) f h = raises e

bind-Returns :
    {A : Type 0} (c : String) (m : Io A) (f : A → Io ClaimRecord)
    → ((a : A) → Returns c (f a))
    → Returns c (m >>=ᵢ f)
unfolding ◌>>=ᵢ◌
bind-Returns c (ret a) f h = h a
bind-Returns c (raise e) f h = raises e
bind-Returns c (call o k) f h = calls (λ r. bind-Returns c (k r) f h)

when_done-Returns :
    (c : String) (next other : Io ClaimRecord) (r : Reply)
    → Returns c next
    → Returns c other
    → Returns c (when_done next other r)
when_done-Returns c next other done a b = a
when_done-Returns c next other eexist a b = b
when_done-Returns c next other enoent a b = b
when_done-Returns c next other fault a b = b
when_done-Returns c next other (stat k n) a b = b
when_done-Returns c next other (content s) a b = b
when_done-Returns c next other (root x) a b = b

trusted-Guarded :
    (c : String) (next : Io ClaimRecord) (r : Reply) → Guarded c next → Guarded c (trusted next r)
unfolding trusted
trusted-Guarded c next (root (ok u)) h = h
trusted-Guarded c next (root (err e)) h = stops e
trusted-Guarded c next done h = stops _
trusted-Guarded c next eexist h = stops _
trusted-Guarded c next enoent h = stops _
trusted-Guarded c next fault h = stops _
trusted-Guarded c next (stat k n) h = stops _
trusted-Guarded c next (content s) h = stops _

module _ (p : Platform) (parse_json : String → Option Data) where
  made_claim-capability_id :
      (c a : String) (r : ClaimRecord) → make_claim_record p c a ≡ ok r → r.capability_id ≡ c
  unfolding make_claim_record
  made_claim-capability_id c a r h =
      let (t, q, k) = >>=-eq-ok _ _ h in ap (λ x. x.capability_id) (sym (ok-inj k))

  after_mkdir-Returns : (c a : String) (n : ℕ) → Returns c (after_mkdir p parse_json c a n done)
  unfolding after_mkdir
  after_mkdir-Returns c a n = calls (λ r.
      when_done-Returns c _ _ r
        (lift-Returns c _ _
          (λ m e. bind-Returns c _ _ (λ u. returns m (made_claim-capability_id c a m e))))
        (raises _))

  after_mkdir-Guarded :
      (c a : String) (n : ℕ) (r : Reply) → r ≢ done → Guarded c (after_mkdir p parse_json c a n r)
  unfolding after_mkdir
  after_mkdir-Guarded c a n done h = absurd (h refl)
  after_mkdir-Guarded c a n eexist h = stops _
  after_mkdir-Guarded c a n enoent h = stops _
  after_mkdir-Guarded c a n fault h = stops _
  after_mkdir-Guarded c a n (stat k m) h = stops _
  after_mkdir-Guarded c a n (content s) h = stops _
  after_mkdir-Guarded c a n (root x) h = stops _

  started :
      (n : ℕ) (q : Result ClaimError (String × String))
      → (c : String) × Guarded c (lift q >>=ᵢ reserve_directory p parse_json n)
  unfolding ◌>>=ᵢ◌ reserve_directory
  started n (ok (c, a)) = (
    c,
    waits (λ r.
        trusted-Guarded c _ r (makes (after_mkdir-Returns c a n) (after_mkdir-Guarded c a n))),
  )
  started n (err e) = ("", stops e)

  pub claim-Guarded :
      (input : Value) (n : ℕ) → (c : String) × Guarded c (claim p parse_json input n)
  unfolding claim
  claim-Guarded input n = started n (request p parse_json input)

done-cases : (r : Reply) → (r ≡ done) ⊎ (r ≢ done)
done-cases done = inl refl
done-cases eexist = inr (λ e. cc)
done-cases enoent = inr (λ e. cc)
done-cases fault = inr (λ e. cc)
done-cases (stat k n) = inr (λ e. cc)
done-cases (content s) = inr (λ e. cc)
done-cases (root x) = inr (λ e. cc)

-- A guarded program that gets a reply stays guarded, or its `mkdir` succeeded.
pub Guarded-next :
    (c : String) (o : Op) (k : Reply → Io ClaimRecord) (r : Reply)
    → Guarded c (call o k)
    → Guarded c (k r) ⊎ (Returns c (k r) × (o ≡ mkdir (capability_directory c)) × (r ≡ done))
Guarded-next c o k r (waits f) = inl (f r)
Guarded-next c o k r (makes g f) = elim (done-cases r) [
  | inl e ↦ inr (subst (λ x. Returns c (k x)) (sym e) g, refl, e)
  | inr n ↦ inl (f r n)
]

pub Returns-next :
    (c : String) (o : Op) (k : Reply → Io ClaimRecord) (r : Reply)
    → Returns c (call o k)
    → Returns c (k r)
Returns-next c o k r (calls f) = f r
