-- ===== src/Canonical.antt =====
-- sdk/typescript/swisstokint-proof.mjs: the validation of payloads and their canonical text.
pub mod Number
pub mod Render
pub mod Safe
use Prim.Native.String.{len}
use swisstokint_open_risk_in.Prelude.{ℕ, String, Result, ok, err, guard, ◌>>=◌, ◌>>◌, leb}
use swisstokint_open_risk_in.Data.{Data, object}
use swisstokint_open_risk_in.Platform.{Platform}
use Safe.{PayloadError, validate_safe_value, payload_shape, payload_canonical_bytes, max_nodes}
use Render.{canonicalize_value}

abbrev pub max_canonical_bytes : ℕ
max_canonical_bytes = 16384

module _ (p : Platform) where
  bounded : String → Result PayloadError String
  bounded canonical = do
    guard (leb (len canonical) max_canonical_bytes) payload_canonical_bytes
    ok canonical

  canonicalize_object : Data → Result PayloadError String
  unfolding bounded
  canonicalize_object payload = do
    left ← validate_safe_value payload 0 max_nodes
    bounded (canonicalize_value p payload)

  -- `canonicalizePayload`: the canonical text of an object, or the code that is thrown.
  unfoldable pub canonicalize_payload : Data → Result PayloadError String
  unfolding canonicalize_object
  canonicalize_payload (object fs) = canonicalize_object (object fs)
  canonicalize_payload payload = err payload_shape
