-- ===== src/Runtime/Api.antt =====
-- runtime/src/lib.rs: the runtime's interfaces that the engine's algorithm calls, over the storage that
-- the difficulty module has at each block. A block without storage fails the call.
use conjugate_poc.Common.{ℕ, List, Option}
use mathlib.Core.Option
use conjugate_poc.Primitives.{algorithm_identifier}
use conjugate_poc.Poc.Engine.{Api}
use conjugate_poc.Runtime.Difficulty.{Storage}

-- `DifficultyApi` and `AlgorithmApi`.
unfoldable pub runtime_api : (List ℕ → Option Storage) → Api
runtime_api storage_at = record {
  difficulty = λ parent. Option.map (λ (s : Storage). s.current_difficulty) (storage_at parent);
  identifier = λ parent. Option.map (λ (s : Storage). algorithm_identifier) (storage_at parent);
}
