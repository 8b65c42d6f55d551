-- ===== src/ChainSpec/Genesis/Tests.antt =====
-- src/chain_spec.rs: the theorem on a chain's storage at a concrete chain, and the names of chains.
use conjugate_poc.Common.{◌≡◌, refl, arith, [], ◌∷◌, some}
use conjugate_poc.Poc.Bytes.{same_bytes}
use conjugate_poc.Runtime.Difficulty.{Storage}
use conjugate_poc.Runtime.Difficulty.Bounds.{IsSound}
use conjugate_poc.ChainSpec.{conjugatepoc, load, from}
use conjugate_poc.ChainSpec.Genesis.{genesis_storage, run_blocks, load-IsSound}

from_default : from [] ≡ some conjugatepoc
unfolding from same_bytes
from_default = refl

load-IsSound_example :
    (s : Storage) × (run_blocks
        (1574000000000 ∷ 1574000060000 ∷ [])
        (genesis_storage (load (1 ∷ []) (2 ∷ []) conjugatepoc).genesis)
      ≡ some s)
    × IsSound s
load-IsSound_example =
    load-IsSound (1 ∷ []) (2 ∷ []) conjugatepoc (1574000000000 ∷ 1574000060000 ∷ []) (omega arith)
