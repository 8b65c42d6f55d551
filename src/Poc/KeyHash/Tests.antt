-- ===== src/Poc/KeyHash/Tests.antt =====
-- poc/src/lib.rs: the theorems on `key_hash` at concrete inputs.
use conjugate_poc.Common.{
  ℕ, ◌+◌, ◌-◌, ◌<◌, ◌≡◌, refl, arith, [], ◌∷◌, Option, none, some, Outcome, ok,
}
use mathlib.Core.Path.{subst}
use conjugate_poc.Poc.KeyHash.{Error, Header, by_hash, by_number, Headers, key_number_of, key_hash}
use conjugate_poc.Poc.KeyHash.Walk.{IsChain, Ancestor, key_hash-Ancestor}

-- A chain whose blocks have their number for a hash.
abbrev block : ℕ → Header
block n = record { number = n; hash = n ∷ []; parent_hash = (n - 1) ∷ [] }

abbrev store : Headers
store (by_number n) = ok (some (block n))
store (by_hash []) = ok none
store (by_hash (n ∷ _)) = ok (some (block n))

below :
    (n : ℕ) (x : Header)
    → ◌≡◌ {A = Outcome Error (Option Header)} (ok (some (block n))) (ok (some x))
    → 0 < x.number
    → (p : Header) × (store (by_hash x.parent_hash) ≡ ok (some p)) × (p.number + 1 ≡ x.number)
below n x e =
    let is : block n ≡ x = cc in
    subst
      (λ (y : Header).
        0 < y.number
        → (p : Header) × (store (by_hash y.parent_hash) ≡ ok (some p)) × (p.number + 1 ≡ y.number))
      is (λ pos. (block (n - 1), refl, omega arith))

store-IsChain : IsChain store
store-IsChain (by_number n) x e pos = below n x e pos
store-IsChain (by_hash []) x e pos = absurd cc
store-IsChain (by_hash (n ∷ _)) x e pos = below n x e pos

key_hash-Ancestor_example :
    (k : Header) × (key_hash store 3001 (by_number 3000) ≡ ok k.hash)
    × (k.number ≡ key_number_of 3000)
    × Ancestor store (block 3000) k
key_hash-Ancestor_example =
    key_hash-Ancestor store store-IsChain 3001 (by_number 3000) (block 3000) refl (omega arith)
