-- ===== src/Runtime/Blocks.antt =====
-- runtime/src/lib.rs: the storage of the difficulty and rewards modules over the blocks of a chain, as
-- their calls and their `on_finalize` change it. `Executive` and the other modules are not part of
-- the project: the fees of an extrinsic and what other calls do to the balances are its effect, any
-- function on the ledger.
pub mod Issuance
use conjugate_poc.Common.{ℕ, ◌*◌, List, [], ◌∷◌, Option, some}
use conjugate_poc.Common.Panic.{◌>>=◌}
use conjugate_poc.Inherents.{Origin}
use conjugate_poc.Rewards.{set_author}
use conjugate_poc.Runtime.Difficulty
use conjugate_poc.Rewards

-- `parameter_types!`.
abbrev pub reward : ℕ
reward = 60 * 1000000000000

abbrev pub existential_deposit : ℕ
existential_deposit = 500

-- An extrinsic that is applied, with its effect on the ledger: a call of `set_author`, or one that
-- leaves the two modules alone.
pub data Applied (AccountId Ledger : Type 0) : Type 0 where
  author_call : Origin AccountId → AccountId → (Ledger → Ledger) → Applied AccountId Ledger
  other_call : (Ledger → Ledger) → Applied AccountId Ledger

-- The timestamp that a block sets, and its extrinsics.
pub record Block (AccountId Ledger : Type 0) : Type 0 where
  pub now : ℕ
  pub extrinsics : List (Applied AccountId Ledger)

pub record State (AccountId Ledger : Type 0) : Type 0 where
  pub difficulty : Difficulty.Storage
  pub rewards : Rewards.Storage AccountId Ledger

module _ {AccountId Ledger : Type 0} where
  unfoldable pub apply_extrinsic :
      Applied AccountId Ledger → Rewards.Storage AccountId Ledger → Rewards.Storage AccountId Ledger
  apply_extrinsic (author_call origin author effect) s =
      (set_author origin author (record s { ledger = effect s.ledger })).1
  apply_extrinsic (other_call effect) s = record s { ledger = effect s.ledger }

  unfoldable pub apply_extrinsics :
      List (Applied AccountId Ledger)
      → Rewards.Storage AccountId Ledger
      → Rewards.Storage AccountId Ledger
  apply_extrinsics [] s = s
  apply_extrinsics (xt ∷ xts) s = apply_extrinsics xts (apply_extrinsic xt s)

module _ {AccountId Ledger : Type 0} (deposit_creating : AccountId → ℕ → Ledger → Ledger) where
  -- The extrinsics, and `on_finalize` of each module; the two share no storage.
  unfoldable pub execute_block :
      Block AccountId Ledger → State AccountId Ledger → Option (State AccountId Ledger)
  execute_block b s = do
    difficulty ← Difficulty.on_finalize b.now s.difficulty
    some (record {
      difficulty = difficulty;
      rewards =
          Rewards.on_finalize deposit_creating reward (apply_extrinsics b.extrinsics s.rewards);
    })

  unfoldable pub execute_blocks :
      List (Block AccountId Ledger) → State AccountId Ledger → Option (State AccountId Ledger)
  execute_blocks [] s = some s
  execute_blocks (b ∷ blocks) s = do s' ← execute_block b s; execute_blocks blocks s'
