-- ===== src/Runtime/Tests.antt =====
-- runtime/src: the theorems of the runtime at concrete inputs.
use conjugate_poc.Common.{
  ◌-◌, ℕ, ◌+◌, ◌*◌, ◌/◌, ◌≤◌, min, max, ◌≡◌, refl, arith, true, false, List, [], ◌∷◌, Option, none,
  some, replicate, ok, unwrap,
}
use conjugate_poc.Primitives.{difficulty_adjust_window, min_difficulty, max_difficulty}
use conjugate_poc.Runtime.Difficulty.{Storage, delta, difficulty_or, on_finalize}
use conjugate_poc.Runtime.Difficulty.Window.{total, deltas}
use conjugate_poc.Runtime.Difficulty.Bounds.{IsSound, finalized, on_finalize_lem}
use conjugate_poc.Runtime.Difficulty.Change.{on_finalize_change, on_finalize_slower}
use conjugate_poc.Runtime.Difficulty.Steady.{on_time, steady, steady-IsSound, on_finalize-on_time}
use conjugate_poc.Runtime.Blocks.{reward, author_call, other_call, Block, State, execute_blocks}
use conjugate_poc.Runtime.Blocks.Issuance.{authored, burnt, execute_blocks_lem}
use conjugate_poc.Inherents.{Stored, present, no_origin, signed}
use conjugate_poc.AnyUpgrade.{
  InherentError, InherentType, inherent_identifier, required_not_found, is_inherent_required, get,
  is_some,
}
use conjugate_poc.Runtime.Inherents.{Extrinsic, another, CheckInherentsResult, check_block}
use conjugate_poc.Runtime.Inherents.Required.{HasUpgrade, check_block_lem}

-- The storage of a new chain of initial difficulty 10000.
abbrev new_chain : Storage
new_chain = record {
  past = replicate 60 none;
  current_difficulty = 10000;
  initial_difficulty = 10000;
}

new_chain-IsSound : IsSound new_chain
new_chain-IsSound = record {
  size = refl;
  entries = omega arith;
  current = omega arith;
  initial = omega arith;
}

abbrev moment : ℕ
moment = 1574000000000

abbrev first_block : Storage
first_block = finalized moment new_chain (omega arith) new_chain-IsSound

first_finalized : on_finalize moment new_chain ≡ some first_block
first_finalized = (on_finalize_lem moment new_chain (omega arith) new_chain-IsSound).0

on_finalize_lem_example : (on_finalize moment new_chain ≡ some first_block) × IsSound first_block
on_finalize_lem_example = on_finalize_lem moment new_chain (omega arith) new_chain-IsSound

on_finalize_change_example :
    (min_difficulty ≤ first_block.current_difficulty)
    × (first_block.current_difficulty * 40
        ≤ max (total 10000 first_block.past) (40 * min_difficulty))
    × (min max_difficulty (total 10000 first_block.past / 120) ≤ first_block.current_difficulty)
on_finalize_change_example =
    on_finalize_change moment new_chain first_block (omega arith) new_chain-IsSound first_finalized

abbrev hour : Storage
hour = steady 10000 10000 moment

hour-IsSound : IsSound hour
hour-IsSound = steady-IsSound 10000 10000 moment (omega arith) (omega arith) (omega arith)

abbrev prompt : Storage
prompt = finalized (moment + 3600000) hour (omega arith) hour-IsSound

abbrev late : Storage
late = finalized (moment + 3700000) hour (omega arith) hour-IsSound

same_total : total 10000 prompt.past ≡ total 10000 late.past
unfolding total difficulty_or on_time
same_total = refl

longer : deltas prompt.past ≤ deltas late.past
unfolding deltas delta on_time
longer = omega arith

on_finalize_slower_example : late.current_difficulty ≤ prompt.current_difficulty
on_finalize_slower_example =
    on_finalize_slower (moment + 3600000) (moment + 3700000) hour hour prompt late (omega arith)
      (omega arith) hour-IsSound hour-IsSound
      (on_finalize_lem (moment + 3600000) hour (omega arith) hour-IsSound).0
      (on_finalize_lem (moment + 3700000) hour (omega arith) hour-IsSound).0 same_total longer

on_finalize-on_time_example :
    on_finalize (moment + 3600000) (steady 10000 10000 moment)
    ≡ some (record {
      past = on_time difficulty_adjust_window 10000 (moment + 60000);
      current_difficulty = min max_difficulty (max min_difficulty (10000 * 180 / 179));
      initial_difficulty = 10000;
    })
on_finalize-on_time_example =
    on_finalize-on_time 10000 10000 moment (omega arith) (omega arith) (omega arith)

-- Results with at most one error, which is fatal.
abbrev results : CheckInherentsResult (Option InherentError)
results = record {
  fatal_error = λ result. elim result [ none ↦ false | some _ ↦ true ];
  put_error = λ id e result. elim result [ none ↦ some (some e) | some _ ↦ none ];
}

abbrev planned : Stored InherentType
planned = present (0, (9, 1 ∷ 2 ∷ []) ∷ [])

planned_required : is_inherent_required 9 planned ≡ ok true
unfolding is_inherent_required get is_some
planned_required = refl

abbrev plain : List Extrinsic
plain = record { is_signed = some false; function = another [] } ∷ []

check_block_lem_example :
    (HasUpgrade plain → check_block results 9 plain planned none ≡ ok none)
    × ((HasUpgrade plain → ⊥)
        → check_block results 9 plain planned none
          ≡ unwrap (results.put_error inherent_identifier required_not_found none))
check_block_lem_example = check_block_lem results 9 plain planned none planned_required refl

abbrev deposit : ℕ → ℕ → ℕ → ℕ
deposit account value ledger = ledger + value

-- A fee of at most ten units, which burns.
abbrev fee : ℕ → ℕ
fee ledger = ledger - 10

fee_lowers : (ledger : ℕ) → fee ledger ≤ ledger
fee_lowers ledger = omega arith

-- A block of the author 7, which a signed call of 8 cannot change but pays for, and a block of nobody's
-- with another paid call.
abbrev chain_blocks : List (Block ℕ ℕ)
chain_blocks =
    record {
      now = moment;
      extrinsics = author_call (signed 8) 8 fee ∷ author_call no_origin 7 (λ l. l) ∷ [];
    }
    ∷ record { now = moment + 60000; extrinsics = other_call fee ∷ [] }
    ∷ []

abbrev at_start : State ℕ ℕ
at_start = record { difficulty = new_chain; rewards = record { author = none; ledger = 1000 } }

execute_blocks_lem_example :
    (difficulty' : Storage) × (ledger' : ℕ) × (execute_blocks deposit chain_blocks at_start
      ≡ some (record {
        difficulty = difficulty';
        rewards = record { author = none; ledger = ledger' };
      }))
    × IsSound difficulty'
    × (ledger' + burnt deposit (λ l. l) chain_blocks 1000 ≡ 1000 + reward * authored chain_blocks)
execute_blocks_lem_example =
    execute_blocks_lem deposit (λ l. l) (λ account value ledger least fits. refl) chain_blocks
      new_chain 1000 (omega arith, (omega arith, tt))
      ((fee_lowers, ((λ ledger. omega arith), tt)), ((fee_lowers, tt), tt)) new_chain-IsSound
      (omega arith)
