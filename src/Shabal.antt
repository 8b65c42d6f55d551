-- ===== src/Shabal.antt =====
-- poc/src/shabal256.rs: the Shabal-256 hash over one message, and the deadline of a scoop.
pub mod Word
pub mod State
pub mod Perm
pub mod Bits
pub mod Shape
pub mod Dl
pub mod Spec
pub mod Xor
pub mod Inverse
pub mod Hash
mod Tests
