-- ===== src/Poc.antt =====
-- poc/src/lib.rs: proof of capacity and the RandomX algorithm.
pub mod Plot
pub mod Scoop
pub mod Codec
pub mod Capacity
pub mod Bytes
pub mod KeyHash
pub mod RandomX
pub mod Engine
pub mod Rpc
mod Tests
