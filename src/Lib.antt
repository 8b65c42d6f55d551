-- ===== src/Lib.antt =====
-- Verification of the conjugate-poc node, a substrate chain with proof-of-capacity consensus.
--
-- The node's own parts are the Shabal-256 hash (poc/src/shabal256.rs), plot files and deadlines,
-- the RandomX algorithm and both kinds of verification and mining (poc/src/lib.rs), the runtime's
-- modules (runtime/src/difficulty.rs, rewards/src/lib.rs, anyupgrade/src/lib.rs) with the block
-- check of runtime/src/lib.rs, the consensus engine that the project adds to its copy of substrate
-- (vendor/substrate/core/consensus/poc), and the program that starts a node (src/service.rs,
-- src/cli.rs): it registers the providers of inherent data, among them the author's, and starts the
-- import queue and the mining threads with them. The engine asks the runtime for the difficulty,
-- which `on_finalize` of the difficulty module sets after each block, and calls the algorithm's
-- `poc_verify` and `poc_mine`; these generate a plot with Shabal and compare deadlines.
--
-- Common holds what the modules share: Tests (Boolean tests on the native numbers), Lists and
-- Predicates (lists under native indices), Results (a value, an error or a panic), Panic (slices of
-- buffers, a panic as `none`). Primitives has the constants of primitives/src/lib.rs.
--
-- Shabal models poc/src/shabal256.rs: Word (32-bit arithmetic, written out with its wrap-around,
-- and the casts between bytes and words), State (the blocks and the counter), Perm (`perm` and
-- `perm_dl` as lists of their unrolled calls), Hash (`shabal256_hash_fast`,
-- `shabal256_deadline_fast`). Spec states the permutation as loops, Inverse runs it backwards, Dl
-- and Hash/Deadline relate the deadline variant to the general hash, Hash/Refines the code to a
-- hash made of the loops.
--
-- Poc models poc/src/lib.rs: Plot (`noncegen_rust`), Scoop (`calculate_scoop` and
-- `find_best_deadline_rust`), Capacity (`decode_gensig`, `poc_verify`, `poc_mine`), KeyHash
-- (`key_hash`), RandomX (`Compute::compute`, `is_valid_hash`, `verify`, `mine`), Engine
-- (`RandomXAlgorithm` as the engine's algorithm), Rpc (the miners' requests and `getmineinfo`).
-- Codec states what is assumed of the `parity-scale-codec` and `hex` crates; the record Machines of
-- RandomX what is assumed of the `randomx` and `lru_cache` crates.
--
-- Runtime models the difficulty module (Difficulty), `check_inherents` of the block builder with
-- the blocks that a node makes of its inherents (Inherents), the storage of the project's own modules
-- over the blocks of a chain (Blocks), the version and the parameters (Parameters), all interfaces
-- of `impl_runtime_apis!` (Apis), and those that the engine's algorithm calls at a block (Api).
-- Rewards and AnyUpgrade model the modules of these names; the module Inherents has what they use
-- of the `inherents` crate, in Laws its documented behaviour, and in Sample a crate that behaves
-- so.
--
-- Consensus models the engine: `PocAux`, `check_header` and `verify` of `PocVerifier`, in Mining
-- one pass of `mine_loop` and in its child Thread the thread of `start_mine`, in Registration what
-- `import_queue` and `start_mine` start with, in Drift what `check_inherents` lets pass, in
-- Upgrades the engine's check by the runtime's interface, and in Node a node that imports what
-- `verify` and `mine_loop` pass on, in any order (Agreement compares two such nodes). Substrate's
-- client is an argument there, with laws on what it stores and which block it calls the best;
-- Sample is a client in memory that fulfils them. ChainSpec has the chains of src/chain_spec.rs and
-- `load_spec` of src/cli.rs, in Genesis what the difficulty module starts with, and in Next the
-- difficulty after it. Service models src/service.rs, Cli src/cli.rs and src/main.rs, JsonRpc the
-- HTTP stub of pocjsonrpc/src/lib.rs.
--
-- Structs are records, enums data types, byte strings lists of numbers, and the storage of a module
-- a record that its operations take and return. Integers are natural numbers with the wrap-around
-- of the source written out; 256-bit arithmetic that panics on overflow is an `Option`. The loops
-- of `noncegen_rust`, of the deadline search and of the difficulty module are structural in their
-- number of rounds. Two loops run on fuel: the walk of `key_hash`, for which more fuel than the
-- parent's number is enough, and the inner loop of `mine_loop`, which ends by the first try that
-- finds a seal or sees a new best block.
--
-- Not modelled: printing; the parts of runtime/src/lib.rs that only name types of the vendored
-- modules; the threads themselves; the rest of substrate and the RandomX library, which are
-- vendored copies of other projects.
pub mod Common
pub mod Primitives
pub mod Shabal
pub mod Poc
pub mod Runtime
pub mod Service
pub mod Cli
pub mod JsonRpc
pub mod Inherents
pub mod Rewards
pub mod AnyUpgrade
pub mod Consensus
pub mod ChainSpec
