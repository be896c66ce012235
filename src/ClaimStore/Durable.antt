-- ===== src/ClaimStore/Durable.antt =====
-- The trusted root (the facts that its operations find come together when it settles) and the durable
-- publication of a record: `trustedRoot` and `writeExclusiveDurable`.
use swisstokint_open_risk_in.Prelude.{
  ℕ, ◌/◌, ◌%◌, String, Bool, true, false, ◌&&◌, ◌||◌, not, Option, none, some, [], ◌∷◌, Result, ok,
  err, guard, ◌>>=◌, ◌>>◌, ◌==◌, in_range, utf16_length, codes,
}
use swisstokint_open_risk_in.Value.{Value}
use swisstokint_open_risk_in.Value.Exact.{value_at}
use swisstokint_open_risk_in.ClaimStore.Records.{
  ClaimError, durable_invalid, durable_io, durable_replay, durable_root_invalid, own_data,
  matching_text,
}
use swisstokint_open_risk_in.ClaimStore.Io.{
  Base, Place, capability_directory, record_file, temp_file, open_new, sync_file, close_file,
  unlink, sync_directory, write_file, link, Kind, is_directory, is_regular, Reply, done, eexist,
  root, Io, ret, raise, call, attempt,
}

abbrev pub max_record_bytes : ℕ
max_record_bytes = 16384

-- `createReferenceDurableClaimStore`: its options. `is_absolute` is `path.isAbsolute`.
unfoldable pub bootstrap : (String → Bool) → Value → Result ClaimError String
unfolding own_data matching_text
bootstrap is_absolute options = do
  s ← own_data ("rootDir" ∷ []) options
  matching_text (λ r. in_range 2 4096 (utf16_length (codes r)) && is_absolute r) durable_invalid
      (value_at "rootDir" s)

-- What the store finds at its root: `lstat`, `realpath`, the process and the sync of the parent.
pub record RootStat : Type 0 where
  pub kind : Kind
  pub resolves_to_itself : Bool
  pub mode : ℕ
  pub on_windows : Bool
  pub uid : ℕ
  pub current_uid : Option ℕ
  pub parent_synced : Bool

pub data RootFacts : Type 0 where
  root_missing root_unreadable : RootFacts
  root_found : RootStat → RootFacts

abbrev is_dir : Kind → Bool
is_dir is_directory = true
is_dir _ = false

abbrev pub is_file : Kind → Bool
is_file is_regular = true
is_file _ = false

-- `(stat.mode & 0o022) !== 0`: bit 4 or bit 1
unfoldable pub group_or_world_write : ℕ → Bool
group_or_world_write mode = (mode / 16) % 2 == 1 || (mode / 2) % 2 == 1

abbrev other_owner : ℕ → Option ℕ → Bool
other_owner uid none = false
other_owner uid (some current) = not (uid == current)

-- The checks of `trustedRoot`
unfoldable pub check_root : RootFacts → Result ClaimError Unit
unfolding group_or_world_write
check_root root_missing = err durable_root_invalid
check_root root_unreadable = err durable_io
check_root (root_found s) = do
  guard
      (is_dir s.kind
        && s.resolves_to_itself
        && not (not s.on_windows && group_or_world_write s.mode)
        && not (other_owner s.uid s.current_uid))
      durable_root_invalid
  guard s.parent_synced durable_io

-- `finally`: failures of the clean-up are swallowed.
unfoldable pub drop_temp : {A : Type 0} → Place → ClaimError → Io A
drop_temp temp e = call (unlink temp) (λ r. raise e)

unfoldable pub close_and_drop : {A : Type 0} → Place → ClaimError → Io A
unfolding drop_temp
close_and_drop temp e = call (close_file temp) (λ r. drop_temp temp e)

-- After `link`
unfoldable pub after_link : String → Place → Reply → Io Unit
unfolding drop_temp
after_link cap temp done =
    attempt (unlink temp) (drop_temp temp durable_io)
      (attempt (sync_directory (capability_directory cap)) (raise durable_io) (ret tt))
after_link cap temp eexist = drop_temp temp durable_replay
after_link cap temp _ = drop_temp temp durable_io

-- The `try` block of `writeExclusiveDurable`
unfoldable pub publish : String → Base → ℕ → String → Io Unit
unfolding close_and_drop after_link
publish cap base nonce body =
    let temp = temp_file cap base nonce in
    attempt (open_new temp) (raise durable_io) (
      attempt (write_file temp body) (close_and_drop temp durable_io) (
        attempt (sync_file temp) (close_and_drop temp durable_io) (
          attempt (close_file temp) (close_and_drop temp durable_io)
            (call (link temp (record_file cap base)) (after_link cap temp)))))

-- The reply of `await trustedRoot()`
unfoldable pub trusted : {A : Type 0} → Io A → Reply → Io A
trusted next (root (ok u)) = next
trusted next (root (err e)) = raise e
trusted next _ = raise durable_io
