-- ===== src/Rewards/Block.antt =====
-- rewards/src/lib.rs: the `set_author` calls of a block and its end.
use conjugate_poc.Common.{ℕ, ◌≡◌, refl, ap, ◌∙◌, List, [], ◌∷◌, Option, none, some}
use conjugate_poc.Inherents.{Origin, no_origin, root, signed}
use conjugate_poc.Rewards.{Storage, set_author, on_finalize}

-- The author of the first inherent call.
abbrev pub first_author {ℓ} :
    {AccountId : Type ℓ} → List (Origin AccountId × AccountId) → Option AccountId
first_author [] = none
first_author ((no_origin, author) ∷ calls) = some author
first_author ((root, author) ∷ calls) = first_author calls
first_author ((signed _, author) ∷ calls) = first_author calls

module _ {ℓ κ} {AccountId : Type ℓ} {Ledger : Type κ} where
  -- The calls of a block in order, each with its origin and its author.
  abbrev pub run_calls :
      List (Origin AccountId × AccountId) → Storage AccountId Ledger → Storage AccountId Ledger
  run_calls [] s = s
  run_calls ((origin, author) ∷ calls) s = run_calls calls (set_author origin author s).1

  abbrev pub pay : (AccountId → ℕ → Ledger → Ledger) → ℕ → Option AccountId → Ledger → Ledger
  pay deposit_creating reward none ledger = ledger
  pay deposit_creating reward (some author) ledger = deposit_creating author reward ledger

  run_calls-set :
      (calls : List (Origin AccountId × AccountId)) (author : AccountId) (ledger : Ledger)
      → run_calls calls (record { author = some author; ledger = ledger })
        ≡ record { author = some author; ledger = ledger }
  unfolding set_author
  run_calls-set [] author ledger = refl
  run_calls-set ((no_origin, other) ∷ calls) author ledger = run_calls-set calls author ledger
  run_calls-set ((root, other) ∷ calls) author ledger = run_calls-set calls author ledger
  run_calls-set ((signed _, other) ∷ calls) author ledger = run_calls-set calls author ledger

  run_calls-unset :
      (calls : List (Origin AccountId × AccountId)) (ledger : Ledger)
      → run_calls calls (record { author = none; ledger = ledger })
        ≡ record { author = first_author calls; ledger = ledger }
  unfolding set_author
  run_calls-unset [] ledger = refl
  run_calls-unset ((no_origin, author) ∷ calls) ledger = run_calls-set calls author ledger
  run_calls-unset ((root, author) ∷ calls) ledger = run_calls-unset calls ledger
  run_calls-unset ((signed _, author) ∷ calls) ledger = run_calls-unset calls ledger

  -- A block that starts with no author pays the reward once, to the author of its first `set_author`
  -- call with no origin, and nothing if it has no such call, whatever other calls with whatever
  -- origins it holds; at its end the author is cleared.
  pub on_finalize-run_calls :
      (deposit_creating : AccountId → ℕ → Ledger → Ledger) (reward : ℕ)
      (calls : List (Origin AccountId × AccountId)) (ledger : Ledger)
      → on_finalize deposit_creating reward
          (run_calls calls (record { author = none; ledger = ledger }))
        ≡ record { author = none; ledger = pay deposit_creating reward (first_author calls) ledger }
  unfolding on_finalize
  on_finalize-run_calls deposit_creating reward calls ledger =
      ap (on_finalize deposit_creating reward) (run_calls-unset calls ledger)
      ∙ paid (first_author calls)
    where
      paid :
          (first : Option AccountId)
          → on_finalize deposit_creating reward (record { author = first; ledger = ledger })
            ≡ record { author = none; ledger = pay deposit_creating reward first ledger }
      paid none = refl
      paid (some author) = refl
