-- ===== src/Runtime/Apis.antt =====
-- runtime/src/lib.rs: `impl_runtime_apis!`. The executive and the modules of substrate, and the storage
-- that they share, are arguments; a runtime that panics is `none`.
use conjugate_poc.Common.{ℕ, List, [], Option, some, Outcome, ok, err, panic, none}
use conjugate_poc.Common.Panic.{◌>>=◌}
use conjugate_poc.Primitives.{algorithm_identifier}
use conjugate_poc.Inherents.{Stored}
use conjugate_poc.AnyUpgrade.{InherentError, InherentType}
use conjugate_poc.Runtime.Difficulty.{Storage}
use conjugate_poc.Runtime.Inherents.{Extrinsic, CheckInherentsResult, check_block}
use conjugate_poc.Runtime.Parameters.{ApisVec, RuntimeVersion, version}

-- The types of the chain, and the storage.
pub record Types : Type 1 where
  pub Header : Type 0
  pub ApplyResult : Type 0
  pub Validity : Type 0
  pub Metadata : Type 0
  pub Hash : Type 0
  pub InherentData : Type 0
  pub Result : Type 0
  pub State : Type 0

pub record Block (types : Types) : Type 0 where
  pub header : types.Header
  pub extrinsics : List Extrinsic

-- `Executive`.
pub record Executive (types : Types) : Type 0 where
  pub execute_block : Block types → types.State → Option types.State
  pub initialize_block : types.Header → types.State → Option types.State
  pub apply_extrinsic : Extrinsic → types.State → Option (types.ApplyResult × types.State)
  pub finalize_block : types.State → Option (types.Header × types.State)
  pub validate_transaction : Extrinsic → types.State → Option types.Validity
  pub offchain_worker : ℕ → types.State → Option types.State

-- What the runtime calls of the modules, and of the macros' inherent data.
pub record Modules (types : Types) : Type 0 where
  pub metadata : types.Metadata
  pub random_seed : types.State → types.Hash
  pub block_number : types.State → ℕ
  pub timestamp : types.State → ℕ
  pub difficulty : types.State → Storage
  pub create_extrinsics : types.InherentData → types.State → Option (List Extrinsic)
  pub check_extrinsics : types.InherentData → Block types → types.State → Option types.Result
  pub anyupgrade_data : types.InherentData → Stored InherentType
  pub results : CheckInherentsResult types.Result

-- The interfaces: `Core`, `Metadata`, `BlockBuilder`, `TaggedTransactionQueue`, `OffchainWorkerApi`,
-- `SessionKeys`, `TimestampApi`, `DifficultyApi`, `AlgorithmApi`.
pub record RuntimeApis (types : Types) : Type 0 where
  pub version : RuntimeVersion
  pub execute_block : Block types → types.State → Option types.State
  pub initialize_block : types.Header → types.State → Option types.State
  pub metadata : types.Metadata
  pub apply_extrinsic : Extrinsic → types.State → Option (types.ApplyResult × types.State)
  pub finalize_block : types.State → Option (types.Header × types.State)
  pub inherent_extrinsics : types.InherentData → types.State → Option (List Extrinsic)
  pub check_inherents : Block types → types.InherentData → types.State → Option types.Result
  pub random_seed : types.State → types.Hash
  pub validate_transaction : Extrinsic → types.State → Option types.Validity
  pub offchain_worker : ℕ → types.State → Option types.State
  pub generate_session_keys : Option (List ℕ) → List ℕ
  pub timestamp : types.State → ℕ
  pub difficulty : types.State → ℕ
  pub identifier : List ℕ

unfoldable pub returned : {Result : Type 0} → Outcome InherentError Result → Option Result
returned (ok result) = some result
returned (err e) = none
returned panic = none

module _ (types : Types) (executive : Executive types) (modules : Modules types)
    (runtime_api_versions : ApisVec) where
  -- `check_inherents`: the extrinsics, and then the required upgrade.
  unfoldable pub checked_inherents :
      Block types → types.InherentData → types.State → Option types.Result
  checked_inherents block data' state = do
    checked ← modules.check_extrinsics data' block state
    returned (
        check_block modules.results (modules.block_number state) block.extrinsics
          (modules.anyupgrade_data data') checked)

  unfoldable pub runtime_apis : RuntimeApis types
  runtime_apis = record {
    version = version runtime_api_versions;
    execute_block = executive.execute_block;
    initialize_block = executive.initialize_block;
    metadata = modules.metadata;
    apply_extrinsic = executive.apply_extrinsic;
    finalize_block = executive.finalize_block;
    inherent_extrinsics = modules.create_extrinsics;
    check_inherents = checked_inherents;
    random_seed = modules.random_seed;
    validate_transaction = executive.validate_transaction;
    offchain_worker = executive.offchain_worker;
    generate_session_keys = λ seed. [];
    timestamp = modules.timestamp;
    difficulty = λ state. (modules.difficulty state).current_difficulty;
    identifier = algorithm_identifier;
  }
