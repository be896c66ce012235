-- ===== src/ClaimStore/Io.antt =====
-- Asynchronous programs on a file system. Control leaves a program at every file operation (each is
-- awaited in the source), so what other calls and other processes do can come between.
use swisstokint_open_risk_in.Prelude.{ℕ, String, Bool, true, false, Result, ok, err}
use swisstokint_open_risk_in.ClaimStore.Records.{ClaimError}

-- `sync_directory` is all of `fsyncDirectory`: opening a directory, syncing and closing it.
--
-- A path below the root of the store, by its parts. Formats keep the parts apart: a capability id has
-- no separator in it.
pub data Base : Type 0 where
  claim_json terminal_json : Base

pub data Place : Type 0 where
  root_directory : Place
  -- `path.join(root, capabilityId)`
  capability_directory : String → Place
  record_file : String → Base → Place
  -- the temporary name for a record, with the number that makes it unique
  temp_file : String → Base → ℕ → Place

pub data Op : Type 0 where
  lstat mkdir open_new sync_file close_file unlink sync_directory read_file : Place → Op
  write_file : Place → String → Op
  link : Place → Place → Op
  -- `await trustedRoot()`
  await_root : Op

-- What a name stands for, as `lstat` tells it apart.
pub data Kind : Type 0 where
  is_directory is_regular is_other : Kind

pub data Reply : Type 0 where
  done eexist enoent fault : Reply
  stat : Kind → ℕ → Reply
  content : String → Reply
  root : Result ClaimError Unit → Reply

-- A program that returns, throws, or waits for a reply.
pub data Io (A : Type 0) : Type 0 where
  ret : A → Io A
  raise : ClaimError → Io A
  call : Op → (Reply → Io A) → Io A

infixl 5 ◌>>=ᵢ◌
unfoldable pub ◌>>=ᵢ◌ : {A B : Type 0} → Io A → (A → Io B) → Io B
ret a >>=ᵢ f = f a
raise e >>=ᵢ f = raise e
call o k >>=ᵢ f = call o (λ r. k r >>=ᵢ f)

abbrev pub lift : {A : Type 0} → Result ClaimError A → Io A
lift (ok a) = ret a
lift (err e) = raise e

abbrev pub choose : {A : Type 0} → Bool → Io A → Io A → Io A
choose true a b = a
choose false a b = b

-- A reply that is success, or any other.
abbrev pub when_done : {A : Type 0} → Io A → Io A → Reply → Io A
when_done next other done = next
when_done next other _ = other

-- An operation, what follows its success, and what follows any failure of it.
abbrev pub attempt : {A : Type 0} → Op → Io A → Io A → Io A
attempt o other next = call o (when_done next other)
