-- ===== src/Consensus/Upgrades.antt =====
-- vendor/substrate/core/consensus/poc/src/lib.rs and runtime/src/lib.rs: the engine's check of a block
-- by the runtime's block builder. The decoding of the block's extrinsics is an argument.
pub mod Planned
mod Tests
use conjugate_poc.Common.{
  ℕ, ◌+◌, ◌^◌, ◌≤◌, ◌<◌, ltb, le→ltb, ◌≡◌, ◌≢◌, ◌↔◌, inl, inr, refl, sym, ap, ap₂, ◌∙◌, arith, Bool,
  Option-cases, Bool-cases, true, false, List, [], ◌∷◌, Option, none, some, Outcome, ok, err, panic,
  ok-injective,
}
use mathlib.Core.Path.{subst}
use mathlib.Core.Option.{some-injective}
use conjugate_poc.Poc.Codec.{Codec}
use conjugate_poc.Inherents.{Stored, present}
use conjugate_poc.AnyUpgrade.{InherentError, InherentType, Whitelist, get, saturated}
use conjugate_poc.AnyUpgrade.Whitelist.{IsSorted}
use conjugate_poc.Runtime.Inherents.{CheckInherentsResult, check_block}
use conjugate_poc.Runtime.Inherents.Upgrades.{Upgrades, PutFatal, ChecksEach, check_block-Upgrades}
use conjugate_poc.Runtime.Parameters.{ApisVec}
use conjugate_poc.Runtime.Apis.{
  Types, Block, Executive, Modules, returned, checked_inherents, runtime_apis,
}
use conjugate_poc.Consensus.{
  Header, PocAux, AuxStore, Error, runtime_failed, CheckError, timestamp_other, other_module,
  max_timestamp_drift_secs, Algorithm, BlockOrigin, BlockImportParams, verify, check_body,
}
use conjugate_poc.Consensus.Drift.{Passes, in_order, tolerated, check_inherents-Passes}
use conjugate_poc.Consensus.Verified.{verify-IsVerified, verify-check_body}

-- How the engine reads a result: `ok` and `into_errors`.
pub record Reading (Result : Type 0) : Type 0 where
  pub okay : Result → Bool
  pub errors : Result → List CheckError

-- An error that ends every check.
pub data Fatal : CheckError → Type 0 where
  bad_timestamp : (message : List ℕ) → Fatal (timestamp_other message)
  bad_inherent : (message : List ℕ) → Fatal (other_module message)

-- A fatal error is the only one, and the result is not in order.
abbrev pub ReadsFatal : {Result : Type 0} → CheckInherentsResult Result → Reading Result → Type 0
ReadsFatal {Result} ops reading =
    (r : Result)
    → ops.fatal_error r ≡ true
    → (error : CheckError) × (reading.okay r ≡ false)
      × (reading.errors r ≡ error ∷ [])
      × Fatal error

-- What the engine relies on of the modules' checks.
pub record ModulesLaws {Call : Type 0} (codec : Codec Call) (types : Types)
    (modules : Modules types) : Type 0 where
  pub put_fatal : PutFatal modules.results
  pub checks_each :
      (data' : types.InherentData) (block : Block types) (state : types.State)
      (checked : types.Result)
      → modules.check_extrinsics data' block state ≡ some checked
      → ChecksEach codec modules.results
          (modules.block_number state)
          block.extrinsics
          (modules.anyupgrade_data data')
          checked

module _ (types : Types) (executive : Executive types) (modules : Modules types)
    (runtime_api_versions : ApisVec) (reading : Reading types.Result)
    (decode : Header → List (List ℕ) → Option (Block types)) where
  -- `runtime_api().check_inherents`, at the storage of the parent; a runtime that does not decode the
  -- block or panics gives an error.
  unfoldable pub runtime_check :
      types.State
      → types.InherentData
      → Header
      → List (List ℕ)
      → Outcome Error (Bool × List CheckError)
  runtime_check state data' header body = elim (decode header body) [
    | none ↦ err runtime_failed
    | some block ↦
        elim ((runtime_apis types executive modules runtime_api_versions).check_inherents block
          data' state) [
            | none ↦ err runtime_failed
            | some r ↦ ok (reading.okay r, reading.errors r)
          ]
  ]
