-- ===== src/Runtime/Blocks/Issuance.antt =====
-- runtime/src/lib.rs, rewards/src/lib.rs and runtime/src/difficulty.rs: what the chain's blocks leave
-- behind.
use conjugate_poc.Common.{
  ℕ, ◌+◌, ◌-◌, ◌*◌, ◌^◌, ◌≤◌, ◌<◌, ◌≡◌, refl, arith, All, List, [], ◌∷◌, Option, none, some, length,
}
use conjugate_poc.Inherents.{Origin, no_origin, root, signed}
use conjugate_poc.Rewards.{set_author}
use conjugate_poc.Rewards.Block.{first_author, run_calls, pay, on_finalize-run_calls}
use conjugate_poc.Runtime.Difficulty
use conjugate_poc.Runtime.Difficulty.Bounds.{IsSound, finalized, on_finalize_lem}
use conjugate_poc.Runtime.Blocks.{
  reward, existential_deposit, Applied, author_call, other_call, Block, State, apply_extrinsic,
  apply_extrinsics, execute_block, execute_blocks,
}

-- How many of the authors there are.
abbrev count_some {ℓ} : {A : Type ℓ} → Option A → ℕ
count_some none = 0
count_some (some _) = 1

count_some-le {ℓ} : {A : Type ℓ} (o : Option A) → count_some o ≤ 1
count_some-le none = omega arith
count_some-le (some a) = omega arith

module _ {AccountId Ledger : Type 0} where
  abbrev pub effect : Applied AccountId Ledger → Ledger → Ledger
  effect (author_call caller author change) ledger = change ledger
  effect (other_call change) ledger = change ledger

  -- The effects of a block's extrinsics in order.
  abbrev pub effects : List (Applied AccountId Ledger) → Ledger → Ledger
  effects [] ledger = ledger
  effects (xt ∷ xts) ledger = effects xts (effect xt ledger)

  -- The calls of `set_author` among the extrinsics.
  abbrev pub author_calls : List (Applied AccountId Ledger) → List (Origin AccountId × AccountId)
  author_calls [] = []
  author_calls (author_call caller author change ∷ xts) = (caller, author) ∷ author_calls xts
  author_calls (other_call change ∷ xts) = author_calls xts

  -- The effects on the ledger do not mix with the calls.
  apply_extrinsics-run_calls :
      (xts : List (Applied AccountId Ledger)) (set : Option AccountId) (ledger : Ledger)
      → apply_extrinsics xts (record { author = set; ledger = ledger })
        ≡ run_calls (author_calls xts) (record { author = set; ledger = effects xts ledger })
  unfolding apply_extrinsics apply_extrinsic set_author
  apply_extrinsics-run_calls [] set ledger = refl
  apply_extrinsics-run_calls (other_call change ∷ xts) set ledger =
      apply_extrinsics-run_calls xts set (change ledger)
  apply_extrinsics-run_calls (author_call no_origin author change ∷ xts) none ledger =
      apply_extrinsics-run_calls xts (some author) (change ledger)
  apply_extrinsics-run_calls (author_call no_origin author change ∷ xts) (some first) ledger =
      apply_extrinsics-run_calls xts (some first) (change ledger)
  apply_extrinsics-run_calls (author_call root author change ∷ xts) set ledger =
      apply_extrinsics-run_calls xts set (change ledger)
  apply_extrinsics-run_calls (author_call (signed account) author change ∷ xts) set ledger =
      apply_extrinsics-run_calls xts set (change ledger)

  -- The author whom a block rewards.
  abbrev pub author_of : Block AccountId Ledger → Option AccountId
  author_of b = first_author (author_calls b.extrinsics)

  -- The blocks that name an author.
  abbrev pub authored : List (Block AccountId Ledger) → ℕ
  authored [] = 0
  authored (b ∷ blocks) = count_some (author_of b) + authored blocks

  abbrev pub Timely : Block AccountId Ledger → Type 0
  Timely b = b.now < 2 ^ 64

module _ {AccountId Ledger : Type 0} (deposit_creating : AccountId → ℕ → Ledger → Ledger)
    (issuance : Ledger → ℕ) where
  -- A deposit of at least the existential deposit is issued in full, unless the issuance leaves `u128`.
  abbrev pub Issues : Type 0
  Issues =
      (account : AccountId) (value : ℕ) (ledger : Ledger)
      → existential_deposit ≤ value
      → issuance ledger + value < 2 ^ 128
      → issuance (deposit_creating account value ledger) ≡ issuance ledger + value

  -- An extrinsic that issues nothing: fees burn, and transfers keep the issuance.
  abbrev pub IssuesNothing : Applied AccountId Ledger → Type 0
  IssuesNothing xt = (ledger : Ledger) → issuance (effect xt ledger) ≤ issuance ledger

  abbrev pub NoneIssue : Block AccountId Ledger → Type 0
  NoneIssue b = All IssuesNothing b.extrinsics

  -- What extrinsics burn, by the ledger that each finds.
  abbrev pub burnt_by : List (Applied AccountId Ledger) → Ledger → ℕ
  burnt_by [] ledger = 0
  burnt_by (xt ∷ xts) ledger =
      (issuance ledger - issuance (effect xt ledger)) + burnt_by xts (effect xt ledger)

  -- The ledger after a block.
  abbrev pub ledger_after : Block AccountId Ledger → Ledger → Ledger
  ledger_after b ledger = pay deposit_creating reward (author_of b) (effects b.extrinsics ledger)

  abbrev pub burnt : List (Block AccountId Ledger) → Ledger → ℕ
  burnt [] ledger = 0
  burnt (b ∷ blocks) ledger = burnt_by b.extrinsics ledger + burnt blocks (ledger_after b ledger)

  issuance-effects :
      (xts : List (Applied AccountId Ledger)) (ledger : Ledger)
      → All IssuesNothing xts
      → issuance (effects xts ledger) + burnt_by xts ledger ≡ issuance ledger
  issuance-effects [] ledger none_issue = omega arith
  issuance-effects (xt ∷ xts) ledger (lower, none_issue) =
      omega (arith, lower ledger, issuance-effects xts (effect xt ledger) none_issue)

  abbrev state : Difficulty.Storage → Ledger → State AccountId Ledger
  state difficulty ledger = record {
    difficulty = difficulty;
    rewards = record { author = none; ledger = ledger };
  }

  module _ (issues : Issues) where
    issuance-pay :
        (ledger : Ledger) (author : Option AccountId)
        → issuance ledger + reward < 2 ^ 128
        → issuance (pay deposit_creating reward author ledger)
          ≡ issuance ledger + reward * count_some author
    issuance-pay ledger none fits = omega arith
    issuance-pay ledger (some account) fits =
        let issued = issues account reward ledger (omega arith) fits in omega arith

    execute_block-state :
        (b : Block AccountId Ledger) (difficulty : Difficulty.Storage) (ledger : Ledger)
        (timely : b.now < 2 ^ 64) (sound : IsSound difficulty)
        → execute_block deposit_creating b (state difficulty ledger)
          ≡ some (state (finalized b.now difficulty timely sound) (ledger_after b ledger))
    unfolding execute_block
    execute_block-state b difficulty ledger timely sound =
        rw
          (
            (on_finalize_lem b.now difficulty timely sound).0,
            apply_extrinsics-run_calls b.extrinsics none ledger,
            on_finalize-run_calls deposit_creating reward (author_calls b.extrinsics)
                (effects b.extrinsics ledger),
          )
          refl

    -- Let a deposit of at least the existential deposit be issued in full while the issuance fits a
    -- `u128`, and let the extrinsics issue nothing themselves and change the storage of the two
    -- modules only by `set_author`. Then from a sound difficulty and no author, the calls and the two
    -- `on_finalize` of blocks whose timestamps fit a `u64` never panic, and leave a sound difficulty,
    -- no author, and an issuance raised by the reward for each block that names an author and
    -- lowered by what the extrinsics burn, as long as all rewards fit.
    pub execute_blocks_lem :
        (blocks : List (Block AccountId Ledger)) (difficulty : Difficulty.Storage) (ledger : Ledger)
        → All Timely blocks
        → All NoneIssue blocks
        → IsSound difficulty
        → issuance ledger + reward * length blocks < 2 ^ 128
        → (difficulty' : Difficulty.Storage) × (ledger' : Ledger) × (execute_blocks deposit_creating
              blocks
              (state difficulty ledger)
            ≡ some (state difficulty' ledger'))
          × IsSound difficulty'
          × (issuance ledger' + burnt blocks ledger ≡ issuance ledger + reward * authored blocks)
    unfolding execute_blocks
    execute_blocks_lem [] difficulty ledger timely none_issue sound fits =
        (difficulty, ledger, refl, sound, omega arith)
    execute_blocks_lem (b ∷ blocks) difficulty ledger (now, timely) (lower, none_issue) sound fits =
        let kept = issuance-effects b.extrinsics ledger lower in
        let issued = issuance-pay (effects b.extrinsics ledger) (author_of b) (omega arith) in
        let at_most = count_some-le (author_of b) in
        let (d, l, run, sound', total) =
          execute_blocks_lem blocks (finalized b.now difficulty now sound) (ledger_after b ledger)
            timely none_issue (on_finalize_lem b.now difficulty now sound).1 (omega arith) in
        (d, l, rw (execute_block-state b difficulty ledger now sound) run, sound', omega arith)
