-- ===== src/Runtime.antt =====
-- runtime/src: the node's runtime.
pub mod Difficulty
pub mod Inherents
pub mod Blocks
pub mod Api
pub mod Parameters
pub mod Apis
mod Tests
