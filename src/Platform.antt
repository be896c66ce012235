-- ===== src/Platform.antt =====
-- What the program takes from its platform and does not implement: SHA-256, the calendar of `Date`,
-- Unicode normalisation and the collation of texts. An instant is the number of milliseconds since the
-- earliest instant of `Date`, so it is not negative; the source only compares instants, subtracts them
-- and adds durations to them.
use Prim.Native.Nat.{Ordering}
use swisstokint_open_risk_in.Prelude.{ℕ, String, Option, ◌≡◌, true, hash_pattern}

pub record Platform : Type 0 where
  -- `sha256Hex`: node:crypto
  pub sha256_hex : String → String
  -- `new Date(text).getTime()`, `none` for NaN
  pub date_parse : String → Option ℕ
  -- `new Date(ms).toISOString()`
  pub to_iso_string : ℕ → String
  -- `text.normalize('NFC')`
  pub normalize_nfc : String → String
  -- `left.localeCompare(right)`
  pub locale_compare : String → String → Ordering

-- A digest is 64 lowercase hexadecimal digits.
abbrev pub HexDigests : Platform → Type 0
HexDigests p = (s : String) → hash_pattern (p.sha256_hex s) ≡ true
