-- ===== src/ChainSpec/Next.antt =====
-- src/chain_spec.rs, runtime/src and poc/src/lib.rs: the difficulty that the engine asks for, from the
-- chain's genesis on.
mod Tests
use conjugate_poc.Common.{
  ℕ, ◌≤◌, ◌<◌, ◌^◌, ◌≡◌, refl, sym, ◌∙◌, arith, All, List, [], ◌∷◌, Option, some, Outcome, ok,
}
use conjugate_poc.Primitives.{min_difficulty, max_difficulty}
use conjugate_poc.Poc.Codec.{Codec}
use conjugate_poc.Poc.Capacity.{NonceData}
use conjugate_poc.Poc.Engine.{Api, next_difficulty, randomx_algorithm}
use conjugate_poc.Consensus.{Algorithm}
use conjugate_poc.Runtime.Api.{runtime_api}
use conjugate_poc.Runtime.Difficulty.{Storage, on_finalize}
use conjugate_poc.Runtime.Difficulty.Bounds.{IsSound, on_finalize_lem}
use conjugate_poc.Runtime.Difficulty.Change.{on_finalize_change}
use conjugate_poc.ChainSpec.{
  Alternative, development, local_testnet, conjugatepoc, testnet_genesis, mainnet_genesis, load,
}
use conjugate_poc.ChainSpec.Genesis.{genesis_storage, run_blocks, genesis-IsSound}

genesis_at_least :
    (wasm_binary genesis_binary : List ℕ) (a : Alternative)
    → min_difficulty
      ≤ (genesis_storage (load wasm_binary genesis_binary a).genesis).current_difficulty
unfolding genesis_storage load testnet_genesis mainnet_genesis
genesis_at_least w g development = omega arith
genesis_at_least w g local_testnet = omega arith
genesis_at_least w g conjugatepoc = omega arith

run_blocks_at_least :
    (moments : List ℕ) (s : Storage)
    → All (λ now. now < 2 ^ 64) moments
    → IsSound s
    → min_difficulty ≤ s.current_difficulty
    → (s' : Storage) × (run_blocks moments s ≡ some s')
      × IsSound s'
      × (min_difficulty ≤ s'.current_difficulty)
unfolding run_blocks
run_blocks_at_least [] s fit sound least = (s, refl, sound, least)
run_blocks_at_least (now ∷ moments) s (moment, fit) sound least =
    let (ran, kept) = on_finalize_lem now s moment sound in
    let change = on_finalize_change now s _ moment sound ran in
    let (s', rest, last, least') = run_blocks_at_least moments _ fit kept change.0 in
    (s', rw ran rest, last, least')

-- On each chain that the node knows, after blocks at any 64-bit moments, `RandomXAlgorithm` answers the
-- engine with a difficulty between the least and the greatest, if the runtime's storage at the
-- parent is what these blocks leave.
pub difficulty-load :
    (wasm_binary genesis_binary : List ℕ) (a : Alternative) (moments : List ℕ)
    (codec : Codec NonceData) (hex_decode : List ℕ → Option (List ℕ))
    (storage_at : List ℕ → Option Storage) (parent : List ℕ)
    → All (λ now. now < 2 ^ 64) moments
    → storage_at parent
      ≡ run_blocks moments (genesis_storage (load wasm_binary genesis_binary a).genesis)
    → (d : ℕ) × ((randomx_algorithm codec hex_decode (runtime_api storage_at)).difficulty parent
        ≡ ok d)
      × (min_difficulty ≤ d)
      × (d ≤ max_difficulty)
unfolding randomx_algorithm next_difficulty runtime_api
difficulty-load wasm_binary genesis_binary a moments codec hex_decode storage_at parent fit at =
    let (s, ran, sound, least) =
      run_blocks_at_least moments (genesis_storage (load wasm_binary genesis_binary a).genesis) fit
        (genesis-IsSound wasm_binary genesis_binary a)
        (genesis_at_least wasm_binary genesis_binary a) in
    (s.current_difficulty, rw (at ∙ ran) refl, least, sound.current)
