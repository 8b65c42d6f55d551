-- ===== src/Rewards/Tests.antt =====
-- rewards/src/lib.rs: the theorem on a block at a concrete block.
use conjugate_poc.Common.{ℕ, ◌≡◌, List, [], ◌∷◌, none}
use conjugate_poc.Inherents.{Origin, no_origin, root, signed}
use conjugate_poc.Rewards.{on_finalize}
use conjugate_poc.Rewards.Block.{run_calls, on_finalize-run_calls}

-- A ledger that lists its deposits.
abbrev deposit : ℕ → ℕ → List (ℕ × ℕ) → List (ℕ × ℕ)
deposit author reward ledger = (author, reward) ∷ ledger

abbrev calls : List (Origin ℕ × ℕ)
calls = (signed 1, 1) ∷ (no_origin, 2) ∷ (root, 3) ∷ (no_origin, 4) ∷ []

on_finalize-run_calls_example :
    on_finalize deposit 60000000000000 (run_calls calls (record { author = none; ledger = [] }))
    ≡ record { author = none; ledger = (2, 60000000000000) ∷ [] }
on_finalize-run_calls_example = on_finalize-run_calls deposit 60000000000000 calls []
