-- ===== src/Tests.antt =====
-- The theorems at concrete inputs, with the parameters instantiated by the functions of Values.
pub mod Values
pub mod Tokens
pub mod Pairing
pub mod Readings
pub mod Server
pub mod Migrating
pub mod Flashing
pub mod Interleaving
pub mod Console
