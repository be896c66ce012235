-- ===== src/Json.antt =====
-- applications/blockchain-digital-assets/wallet-guard/json-ingress.mjs: the strict JSON texts that the
-- wallet guard accepts.
pub mod Lex
pub mod Scan
pub mod Shorter
pub mod Fuel
pub mod Token
pub mod Quoted
pub mod Keys
pub mod Numbers
pub mod Grammar
pub mod Sound
pub mod Complete
pub mod Equivalence
pub mod Ingress
pub mod Bounds
mod Tests
