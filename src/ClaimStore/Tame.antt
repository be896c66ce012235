-- ===== src/ClaimStore/Tame.antt =====
-- The programs of the store, by the operations that they make on temporary names.
use swisstokint_open_risk_in.Prelude.{
  ℕ, String, refl, Bool, true, false, Option, none, some, Result, ok, err, Option-cases, inl, inr,
}
use swisstokint_open_risk_in.Data.{Data}
use swisstokint_open_risk_in.Platform.{Platform}
use swisstokint_open_risk_in.Value.{Value}
use swisstokint_open_risk_in.ClaimStore.Records.{
  ClaimError, durable_io, durable_replay, ClaimRecord, TerminalRecord, claim_data, terminal_data,
  make_claim_record,
}
use swisstokint_open_risk_in.ClaimStore.Io.{
  Base, claim_json, terminal_json, Place, temp_file, Op, lstat, link, read_file, is_directory,
  is_regular, is_other, Reply, done, eexist, enoent, fault, stat, content, root, Io, ret, raise,
  call, ◌>>=ᵢ◌, lift, choose, when_done, attempt,
}
use swisstokint_open_risk_in.ClaimStore.Durable.{
  trusted, publish, after_link, drop_temp, close_and_drop,
}
use swisstokint_open_risk_in.ClaimStore.Programs.{
  claim, inspect, finalize, write_exclusive, read_bounded_json, after_mkdir, reserve_directory,
  request, after_read, after_lstat, inspect_claim, inspect_directory, inspect_trusted, persisted,
}
use swisstokint_open_risk_in.ClaimStore.Kept.{IsTameOp}

-- Whether a link was attempted, after this operation
abbrev pub after : Bool → Op → Bool
after b (link a c) = true
after b _ = b

-- A program of a call that drew the number `n`, which has attempted a link (`b`) or not.
pub data IsTame {A : Type 0} (n : ℕ) : Bool → Io A → Type 0 where
  returns : {b : Bool} → (a : A) → IsTame n b (ret a)
  raises : {b : Bool} → (e : ClaimError) → IsTame n b (raise e)
  calls :
      {b : Bool} {o : Op} {k : Reply → Io A}
      → IsTameOp n b o
      → ((r : Reply) → IsTame n (after b o) (k r))
      → IsTame n b (call o k)

pub IsTame-op :
    {A : Type 0} (n : ℕ) (b : Bool) (o : Op) (k : Reply → Io A)
    → IsTame n b (call o k)
    → IsTameOp n b o
IsTame-op n b o k (calls t f) = t

pub IsTame-next :
    {A : Type 0} (n : ℕ) (b : Bool) (o : Op) (k : Reply → Io A)
    → IsTame n b (call o k)
    → (r : Reply) → IsTame n (after b o) (k r)
IsTame-next n b o k (calls t f) = f

module _ {A : Type 0} (n : ℕ) (b : Bool) where
  lift-IsTame : (m : Result ClaimError A) → IsTame n b (lift m)
  lift-IsTame (ok a) = returns a
  lift-IsTame (err e) = raises e

  when_done-IsTame :
      (next other : Io A) (r : Reply)
      → IsTame n b next
      → IsTame n b other
      → IsTame n b (when_done next other r)
  when_done-IsTame next other done x y = x
  when_done-IsTame next other eexist x y = y
  when_done-IsTame next other enoent x y = y
  when_done-IsTame next other fault x y = y
  when_done-IsTame next other (stat k m) x y = y
  when_done-IsTame next other (content s) x y = y
  when_done-IsTame next other (root z) x y = y

  drop_temp-IsTame :
      (c : String) (base : Base) (e : ClaimError)
      → IsTame {A = A} n b (drop_temp (temp_file c base n) e)
  unfolding drop_temp
  drop_temp-IsTame c base e = calls refl (λ r. raises e)

  close_and_drop-IsTame :
      (c : String) (base : Base) (e : ClaimError)
      → IsTame {A = A} n b (close_and_drop (temp_file c base n) e)
  unfolding close_and_drop
  close_and_drop-IsTame c base e = calls tt (λ r. drop_temp-IsTame c base e)

  trusted-IsTame : (next : Io A) (r : Reply) → IsTame n b next → IsTame n b (trusted next r)
  unfolding trusted
  trusted-IsTame next (root (ok u)) h = h
  trusted-IsTame next (root (err e)) h = raises _
  trusted-IsTame next done h = raises _
  trusted-IsTame next eexist h = raises _
  trusted-IsTame next enoent h = raises _
  trusted-IsTame next fault h = raises _
  trusted-IsTame next (stat k m) h = raises _
  trusted-IsTame next (content s) h = raises _

attempt-IsTame :
    {A : Type 0} (n : ℕ) (b : Bool) (o : Op) (other next : Io A)
    → IsTameOp n b o
    → IsTame n (after b o) other
    → IsTame n (after b o) next
    → IsTame n b (attempt o other next)
attempt-IsTame n b o other next t x y =
    calls t (λ r. when_done-IsTame n (after b o) next other r y x)

-- A program that only looks at files.
data IsReading {A : Type 0} : Io A → Type 0 where
  reading_returns : (a : A) → IsReading (ret a)
  reading_raises : (e : ClaimError) → IsReading (raise e)
  stats :
      (a : Place) (k : Reply → Io A)
      → ((r : Reply) → IsReading (k r))
      → IsReading (call (lstat a) k)
  reads :
      (a : Place) (k : Reply → Io A)
      → ((r : Reply) → IsReading (k r))
      → IsReading (call (read_file a) k)

module _ {A B : Type 0} (n : ℕ) where
  -- What follows may not link, whatever the first program did.
  bind-IsTame :
      (b : Bool) (m : Io A) (f : A → Io B)
      → IsTame n b m
      → ((c : Bool) (a : A) → IsTame n c (f a))
      → IsTame n b (m >>=ᵢ f)
  unfolding ◌>>=ᵢ◌
  bind-IsTame b (ret a) f h g = g b a
  bind-IsTame b (raise e) f h g = raises e
  bind-IsTame b (call o k) f h g =
      calls (IsTame-op n b o k h) (λ r. bind-IsTame (after b o) (k r) f (IsTame-next n b o k h r) g)

module _ {A B : Type 0} (n : ℕ) (b : Bool) where
  lifted-IsTame :
      (m : Result ClaimError A) (f : A → Io B)
      → ((a : A) → IsTame n b (f a))
      → IsTame n b (lift m >>=ᵢ f)
  unfolding ◌>>=ᵢ◌
  lifted-IsTame (ok a) f g = g a
  lifted-IsTame (err e) f g = raises e

  reading-IsTame :
      (m : Io A) (f : A → Io B) → IsReading m → ((a : A) → IsTame n b (f a)) → IsTame n b (m >>=ᵢ f)
  unfolding ◌>>=ᵢ◌
  reading-IsTame _ f (reading_returns a) g = g a
  reading-IsTame _ f (reading_raises e) g = raises e
  reading-IsTame _ f (stats a k h) g = calls tt (λ r. reading-IsTame (k r) f (h r) g)
  reading-IsTame _ f (reads a k h) g = calls tt (λ r. reading-IsTame (k r) f (h r) g)

after_link-IsTame :
    (c : String) (base : Base) (n : ℕ) (r : Reply)
    → IsTame n true (after_link c (temp_file c base n) r)
unfolding after_link
after_link-IsTame c base n done =
    attempt-IsTame n true _ _ _ refl (drop_temp-IsTame n true c base durable_io)
      (attempt-IsTame n true _ _ _ tt (raises durable_io) (returns tt))
after_link-IsTame c base n eexist = drop_temp-IsTame n true c base durable_replay
after_link-IsTame c base n enoent = drop_temp-IsTame n true c base durable_io
after_link-IsTame c base n fault = drop_temp-IsTame n true c base durable_io
after_link-IsTame c base n (stat k m) = drop_temp-IsTame n true c base durable_io
after_link-IsTame c base n (content s) = drop_temp-IsTame n true c base durable_io
after_link-IsTame c base n (root x) = drop_temp-IsTame n true c base durable_io

publish-IsTame :
    (c : String) (base : Base) (n : ℕ) (body : String) → IsTame n false (publish c base n body)
unfolding publish
publish-IsTame c base n body =
    let drop = close_and_drop-IsTame n false c base durable_io in
    attempt-IsTame n false _ _ _ (refl, refl) (raises durable_io)
      (attempt-IsTame n false _ _ _ (refl, refl) drop
        (attempt-IsTame n false _ _ _ tt drop (
          attempt-IsTame n false _ _ _ tt drop
            (calls (refl, (refl, refl)) (λ r. after_link-IsTame c base n r)))))

module _ (p : Platform) (parse_json : String → Option Data) where
  write_exclusive-IsTame :
      (c : String) (b : Base) (n : ℕ) (d : Data)
      → IsTame n false (write_exclusive p parse_json c b n d)
  unfolding write_exclusive
  write_exclusive-IsTame c b n d = lifted-IsTame n false _ _ (λ body. publish-IsTame c b n body)

  parsed-IsReading : (s : String) → IsReading (after_read p parse_json (content s))
  unfolding after_read
  parsed-IsReading s = elim (Option-cases (parse_json s)) [
    | inl e ↦ rw (after_read, e) (reading_raises _)
    | inr (d, e) ↦ rw (after_read, e) (reading_returns _)
  ]

  after_read-IsReading : (r : Reply) → IsReading (after_read p parse_json r)
  unfolding after_read
  after_read-IsReading (content s) = parsed-IsReading s
  after_read-IsReading done = reading_raises _
  after_read-IsReading eexist = reading_raises _
  after_read-IsReading enoent = reading_raises _
  after_read-IsReading fault = reading_raises _
  after_read-IsReading (stat k n) = reading_raises _
  after_read-IsReading (root x) = reading_raises _

  choose-IsReading :
      {A : Type 0} (b : Bool) (x y : Io A) → IsReading x → IsReading y → IsReading (choose b x y)
  choose-IsReading true x y h k = h
  choose-IsReading false x y h k = k

  after_lstat-IsReading : (f : Place) (r : Reply) → IsReading (after_lstat p parse_json f r)
  unfolding after_lstat
  after_lstat-IsReading f enoent = reading_returns _
  after_lstat-IsReading f (stat k n) =
      choose-IsReading _ _ _ (reads _ _ after_read-IsReading) (reading_raises _)
  after_lstat-IsReading f done = reading_raises _
  after_lstat-IsReading f eexist = reading_raises _
  after_lstat-IsReading f fault = reading_raises _
  after_lstat-IsReading f (content s) = reading_raises _
  after_lstat-IsReading f (root x) = reading_raises _

  read_bounded_json-IsReading : (f : Place) → IsReading (read_bounded_json p parse_json f)
  unfolding read_bounded_json
  read_bounded_json-IsReading f = stats _ _ (after_lstat-IsReading f)

  after_mkdir-IsTame :
      (c a : String) (n : ℕ) (r : Reply) → IsTame n false (after_mkdir p parse_json c a n r)
  unfolding after_mkdir
  after_mkdir-IsTame c a n done = attempt-IsTame n false _ _ _ tt (raises durable_io) (
      lifted-IsTame n false (make_claim_record p c a) _ (λ r.
        bind-IsTame n false _ _ (write_exclusive-IsTame c claim_json n (claim_data r))
          (λ b u. returns _)))
  after_mkdir-IsTame c a n eexist = raises _
  after_mkdir-IsTame c a n enoent = raises _
  after_mkdir-IsTame c a n fault = raises _
  after_mkdir-IsTame c a n (stat k m) = raises _
  after_mkdir-IsTame c a n (content s) = raises _
  after_mkdir-IsTame c a n (root x) = raises _

  pub claim-IsTame : (input : Value) (n : ℕ) → IsTame n false (claim p parse_json input n)
  unfolding claim reserve_directory
  claim-IsTame input n =
      lifted-IsTame n false (request p parse_json input) _ (λ (c, a).
        calls tt (λ r. trusted-IsTame n false _ r (calls refl (after_mkdir-IsTame c a n))))

  pub finalize-IsTame :
      (c : ClaimRecord) (t : TerminalRecord) (n : ℕ) → IsTame n false (finalize p parse_json c t n)
  unfolding finalize
  finalize-IsTame c t n = reading-IsTame n false _ _ (read_bounded_json-IsReading _) (λ raw.
      lifted-IsTame n false (persisted p parse_json c raw) _ (λ u.
        bind-IsTame n false _ _
          (write_exclusive-IsTame c.capability_id terminal_json n (terminal_data t))
          (λ b v. returns _)))

  inspect_claim-IsTame :
      (c a : String) (o : Option Value) → IsTame 0 true (inspect_claim p parse_json c a o)
  unfolding inspect_claim
  inspect_claim-IsTame c a none = returns _
  inspect_claim-IsTame c a (some raw) =
      lifted-IsTame 0 true _ _
        (λ r. reading-IsTame 0 true _ _ (read_bounded_json-IsReading _) (λ t. lift-IsTame 0 true _))

  inspect_directory-IsTame :
      (c a : String) (r : Reply) → IsTame 0 true (inspect_directory p parse_json c a r)
  unfolding inspect_directory
  inspect_directory-IsTame c a enoent = returns _
  inspect_directory-IsTame c a (stat is_directory n) =
      reading-IsTame 0 true _ _ (read_bounded_json-IsReading _) (inspect_claim-IsTame c a)
  inspect_directory-IsTame c a (stat is_regular n) = raises _
  inspect_directory-IsTame c a (stat is_other n) = raises _
  inspect_directory-IsTame c a done = raises _
  inspect_directory-IsTame c a eexist = raises _
  inspect_directory-IsTame c a fault = raises _
  inspect_directory-IsTame c a (content s) = raises _
  inspect_directory-IsTame c a (root x) = raises _

  -- An inspection creates and writes nothing.
  pub inspect-IsTame : (input : Value) → IsTame 0 true (inspect p parse_json input)
  unfolding inspect inspect_trusted
  inspect-IsTame input = lifted-IsTame 0 true _ _ (λ (c, a).
      calls tt (λ r. trusted-IsTame 0 true _ r (calls tt (inspect_directory-IsTame c a))))
