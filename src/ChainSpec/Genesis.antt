-- ===== src/ChainSpec/Genesis.antt =====
-- src/chain_spec.rs and runtime/src/difficulty.rs: the storage that a chain starts with.
mod Tests
use conjugate_poc.Common.{
  ℕ, ◌<◌, ◌^◌, ◌≡◌, refl, arith, List, [], ◌∷◌, Option, none, some, replicate, length-replicate,
  All, All-replicate,
}
use conjugate_poc.Common.Panic.{◌>>=◌}
use conjugate_poc.Primitives.{difficulty_adjust_window, max_difficulty}
use conjugate_poc.Runtime.Difficulty.{Storage, on_finalize}
use conjugate_poc.Runtime.Difficulty.Bounds.{Fits, IsSound, on_finalize_lem}
use conjugate_poc.ChainSpec.{
  Alternative, development, local_testnet, conjugatepoc, GenesisConfig, testnet_genesis,
  mainnet_genesis, ChainSpec, load,
}

-- `decl_storage!` of the difficulty module: the defaults, with the configured difficulty.
unfoldable pub genesis_storage : GenesisConfig → Storage
genesis_storage config = record {
  past = replicate difficulty_adjust_window none;
  current_difficulty = config.initial_difficulty;
  initial_difficulty = config.initial_difficulty;
}

-- The storage after blocks at the given moments, in order.
unfoldable pub run_blocks : List ℕ → Storage → Option Storage
run_blocks [] s = some s
run_blocks (now ∷ moments) s = do s' ← on_finalize now s; run_blocks moments s'

pub genesis-IsSound :
    (wasm_binary genesis_binary : List ℕ) (a : Alternative)
    → IsSound (genesis_storage (load wasm_binary genesis_binary a).genesis)
unfolding genesis_storage load testnet_genesis mainnet_genesis
genesis-IsSound w g development = record {
  size = refl;
  entries = All-replicate Fits 60 none tt;
  current = omega arith;
  initial = omega arith;
}
genesis-IsSound w g local_testnet = record {
  size = refl;
  entries = All-replicate Fits 60 none tt;
  current = omega arith;
  initial = omega arith;
}
genesis-IsSound w g conjugatepoc = record {
  size = refl;
  entries = All-replicate Fits 60 none tt;
  current = omega arith;
  initial = omega arith;
}

run_blocks-IsSound :
    (moments : List ℕ) (s : Storage)
    → All (λ now. now < 2 ^ 64) moments
    → IsSound s
    → (s' : Storage) × (run_blocks moments s ≡ some s') × IsSound s'
unfolding run_blocks
run_blocks-IsSound [] s fit sound = (s, refl, sound)
run_blocks-IsSound (now ∷ moments) s fit sound =
    let (ran, kept) = on_finalize_lem now s fit.0 sound in
    let (s', rest, last) = run_blocks-IsSound moments _ fit.1 kept in (s', rw ran rest, last)

-- On each chain that the node knows, blocks at any 64-bit moments are finalized with no panic in the
-- difficulty module, and leave its storage sound.
pub load-IsSound :
    (wasm_binary genesis_binary : List ℕ) (a : Alternative) (moments : List ℕ)
    → All (λ now. now < 2 ^ 64) moments
    → (s : Storage) × (run_blocks moments
          (genesis_storage (load wasm_binary genesis_binary a).genesis)
        ≡ some s)
      × IsSound s
load-IsSound wasm_binary genesis_binary a moments fit =
    run_blocks-IsSound moments (genesis_storage (load wasm_binary genesis_binary a).genesis) fit
      (genesis-IsSound wasm_binary genesis_binary a)
