-- ===== src/Consensus/Mining/Stops.antt =====
-- vendor/substrate/core/consensus/poc/src/lib.rs: the inner loop of `mine_loop` ends.
use conjugate_poc.Common.{
  ℕ, zero, suc, if◌then◌else◌, ◌<◌, ◌≡◌, ◌≢◌, ◌⊎◌, inl, inr, refl, arith, Bool, true, false, List,
  Option, none, some, Outcome, ok, err, panic,
}
use conjugate_poc.Poc.Bytes.{same_bytes}
use conjugate_poc.Consensus.{Error}
use conjugate_poc.Consensus.Mining.{Sealing, out_of_fuel, new_best, found, seal_loop}

-- One try of the loop, `rest` the tries after it.
abbrev step : Outcome Error (Option (List ℕ)) → Bool → Outcome Error Sealing → Outcome Error Sealing
step first same rest = elim first [
  | ok (some nonce_data) ↦ ok (found nonce_data)
  | ok none ↦ if same then rest else ok new_best
  | err e ↦ err e
  | panic ↦ panic
]

step-stops :
    (first : Outcome Error (Option (List ℕ))) (same : Bool) (rest : Outcome Error Sealing)
    → (first ≡ ok none → same ≡ true → rest ≢ ok out_of_fuel)
    → step first same rest ≢ ok out_of_fuel
step-stops (ok (some nonce_data)) same rest h e = absurd cc
step-stops (ok none) true rest h e = h refl refl e
step-stops (ok none) false rest h e = absurd cc
step-stops (err x) same rest h e = absurd cc
step-stops panic same rest h e = absurd cc

-- If the `n`-th try finds a seal or a new best block follows it, more than `n` tries are enough fuel.
pub seal_loop-stops :
    (n fuel : ℕ) (tries : ℕ → Outcome Error (Option (List ℕ))) (best_at : ℕ → List ℕ)
    (best_hash : List ℕ)
    → n < fuel
    → ((nonce_data : List ℕ) × (tries n ≡ ok (some nonce_data)))
      ⊎ (same_bytes best_hash (best_at n) ≡ false)
    → seal_loop fuel tries best_at best_hash ≢ ok out_of_fuel
unfolding seal_loop
seal_loop-stops n zero tries best_at best_hash h stops = λ _. absurd (omega arith)
seal_loop-stops zero (suc fuel) tries best_at best_hash h (inl (nonce_data, hit)) =
    step-stops (tries 0) (same_bytes best_hash (best_at 0)) _ (λ missed same. absurd cc)
seal_loop-stops zero (suc fuel) tries best_at best_hash h (inr changed) =
    step-stops (tries 0) (same_bytes best_hash (best_at 0)) _ (λ missed same. absurd cc)
seal_loop-stops (suc n) (suc fuel) tries best_at best_hash h stops =
    step-stops (tries 0) (same_bytes best_hash (best_at 0)) _ (λ missed same.
      seal_loop-stops n fuel (λ i. tries (suc i)) (λ i. best_at (suc i)) best_hash (omega arith)
        stops)
