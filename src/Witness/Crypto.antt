-- ===== src/Witness/Crypto.antt =====
-- What sdk/typescript/pom-rx-witness.mjs takes from node:crypto and Buffer, and its checks of keys and
-- signatures. An error that node:crypto throws is a `type_error`, as a failed assertion is.
use Prim.Native.String.{◌++◌ as concat, String}
use swisstokint_open_risk_in.Prelude.{
  ℕ, zero, suc, ◌≡◌, Bool, true, false, ◌&&◌, ◌||◌, Option, none, some, List, [], ◌∷◌, Result, ok,
  err, guard, ◌>>=◌, ◌>>◌, ◌==◌, str_eq, codes, in_range, utf16_length, is_alnum, if◌then◌else◌,
}
use swisstokint_open_risk_in.Data.{Data, text}
use swisstokint_open_risk_in.Value.{Value}
use swisstokint_open_risk_in.Merkle.Tree.{ProofError, type_error}

-- A `KeyObject`: what the program reads of it.
pub record KeyObject : Type 0 where
  -- `key.asymmetricKeyType`
  pub asymmetric_key_type : String
  -- `key.export({ format: 'der', type: 'spki' }).toString('base64')`
  pub spki : String

pub record Crypto : Type 0 where
  -- `key?.type === 'public' ? key : crypto.createPublicKey(key)`, `none` when that throws
  pub public_key_object : Value → Option KeyObject
  -- `crypto.createPublicKey({ key: Buffer.from(value, 'base64'), format: 'der', type: 'spki' })`
  pub decode_spki : String → Option KeyObject
  -- `Buffer.from(value, 'base64').toString('base64')`
  pub recode_base64 : String → String
  -- `Buffer.from(value, 'base64').length`
  pub base64_bytes : String → ℕ
  -- the hexadecimal SHA-256 of the bytes whose base64 text this is
  pub sha256_base64 : String → String
  -- `crypto.verify(null, message, key, signature)`, the signature in base64
  pub verify : String → KeyObject → String → Bool
  -- `crypto.sign(null, message, privateKey).toString('base64')`, `none` when that throws
  pub sign : String → Value → Option String

-- A key comes back from its exported bytes as it was.
abbrev pub Decodes : Crypto → Type 0
Decodes c = (s : String) (k : KeyObject) → c.decode_spki s ≡ some k → k.spki ≡ s

-- `text.slice(0, n)`
abbrev pub slice_first : ℕ → String → String
slice_first zero s = String.[]
slice_first (suc n) String.[] = String.[]
slice_first (suc n) (String.◌∷◌ c s) = String.◌∷◌ c (slice_first n s)

is_base64_code : ℕ → Bool
is_base64_code c = is_alnum c || c == b'+' || c == b'/'

-- What follows the digits: at most two `=`.
abbrev is_padding : List ℕ → Bool
is_padding [] = true
is_padding (c ∷ []) = c == b'='
is_padding (c ∷ d ∷ []) = c == b'=' && d == b'='
is_padding _ = false

base64_rest : List ℕ → Bool
unfolding is_base64_code
base64_rest [] = true
base64_rest (c ∷ s) =
    let rest = base64_rest s in if is_base64_code c then rest else is_padding (c ∷ s)

-- `BASE64_PATTERN`
unfoldable pub base64_pattern : String → Bool
unfolding is_base64_code base64_rest
base64_pattern s = elim (codes s) [ [] ↦ false | c ∷ cs ↦ is_base64_code c && base64_rest cs ]

bounded_base64 : ℕ → ℕ → Option Data → Result ProofError String
unfolding base64_pattern
bounded_base64 lo hi (some (text s)) =
    if in_range lo hi (utf16_length (codes s)) && base64_pattern s then ok s else err type_error
bounded_base64 lo hi _ = err type_error

unfoldable pub as_ed25519 : Option KeyObject → Result ProofError KeyObject
as_ed25519 none = err type_error
as_ed25519 (some k) = if str_eq k.asymmetric_key_type "ed25519" then ok k else err type_error

module _ (c : Crypto) where
  -- `toEd25519PublicKey`
  unfoldable pub to_ed25519_public_key : Value → Result ProofError KeyObject
  unfolding as_ed25519
  to_ed25519_public_key v = as_ed25519 (c.public_key_object v)

  -- `decodePublicKey`
  unfoldable pub decode_public_key : Option Data → Result ProofError KeyObject
  unfolding bounded_base64 as_ed25519
  decode_public_key o = do
    value ← bounded_base64 40 256 o
    guard (str_eq (c.recode_base64 value) value) type_error
    as_ed25519 (c.decode_spki value)

  -- `decodeSignature`
  unfoldable pub decode_signature : Option Data → Result ProofError String
  unfolding bounded_base64
  decode_signature o = do
    value ← bounded_base64 80 128 o
    guard (str_eq (c.recode_base64 value) value) type_error
    guard (c.base64_bytes value == 64) type_error
    ok value

  -- `pomRxKeyId`, of a key that is Ed25519
  unfoldable pub pom_rx_key_id : KeyObject → String
  pom_rx_key_id k = concat "ed25519-" (slice_first 32 (c.sha256_base64 k.spki))
