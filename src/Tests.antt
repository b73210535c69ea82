-- ===== src/Tests.antt =====
-- The theorems at concrete inputs, and runs of the definitions.
pub mod Samples
pub mod Codec
pub mod Handlers
pub mod Agent
pub mod Mib
pub mod Server
pub mod Text
pub mod Table
pub mod Tallies
pub mod Format
pub mod Serial
pub mod Linux
pub mod System
