-- ===== src/Witness.antt =====
-- sdk/typescript/pom-rx-witness.mjs: envelopes that a source signs, and acknowledgements that a
-- Witness signs.
pub mod Crypto
pub mod Envelope
pub mod Ack
pub mod Sound
