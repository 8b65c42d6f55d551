-- ===== src/ChainSpec/Next/Tests.antt =====
-- src/chain_spec.rs: the difficulty after two blocks of the main chain.
use conjugate_poc.Common.{ℕ, ◌≤◌, ◌≡◌, refl, arith, List, [], ◌∷◌, Option, none, ok}
use conjugate_poc.Primitives.{min_difficulty, max_difficulty}
use conjugate_poc.Poc.Codec.{Codec}
use conjugate_poc.Poc.Capacity.{NonceData}
use conjugate_poc.Poc.Engine.{randomx_algorithm}
use conjugate_poc.Runtime.Api.{runtime_api}
use conjugate_poc.Runtime.Difficulty.{Storage}
use conjugate_poc.ChainSpec.{conjugatepoc, load}
use conjugate_poc.ChainSpec.Genesis.{genesis_storage, run_blocks}
use conjugate_poc.ChainSpec.Next.{difficulty-load}

abbrev no_data : Codec NonceData
no_data = record { encode = λ n. []; decode = λ raw. none }

abbrev moments : List ℕ
moments = 1574000000000 ∷ 1574000060000 ∷ []

abbrev storage_at : List ℕ → Option Storage
storage_at parent =
    run_blocks moments (genesis_storage (load (1 ∷ []) (2 ∷ []) conjugatepoc).genesis)

difficulty-load_example :
    (d : ℕ) × ((randomx_algorithm no_data (λ text. none) (runtime_api storage_at)).difficulty
        (4 ∷ [])
      ≡ ok d)
    × (min_difficulty ≤ d)
    × (d ≤ max_difficulty)
difficulty-load_example =
    difficulty-load (1 ∷ []) (2 ∷ []) conjugatepoc moments no_data (λ text. none) storage_at
      (4 ∷ []) (omega arith) refl
