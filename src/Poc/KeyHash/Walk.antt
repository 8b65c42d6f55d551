-- ===== src/Poc/KeyHash/Walk.antt =====
-- poc/src/lib.rs: which header `key_hash` returns, and that its loop ends.
use conjugate_poc.Common.{ℕ, zero, suc, ◌+◌, ◌%◌, ◌≤◌, ◌<◌, eq→==, ne→==, ◌≡◌, ◌⊎◌, arith, some, ok}
use native.Mathlib.Decide.{ℕ_discrete}
use conjugate_poc.Poc.KeyHash.{
  Header, BlockId, by_hash, Headers, period, offset, key_number_of, walk, key_hash,
}

-- The key block stands at a multiple of the period, at or below the parent. It is the latest such
-- block that is at least the offset below the parent, or the genesis block.
pub record IsKeyNumber (parent key : ℕ) : Type 0 where
  pub aligned : key % period ≡ 0
  pub below : key ≤ parent
  pub settled : (key ≡ 0) ⊎ (key + offset ≤ parent)
  pub latest : parent < key + period + offset

-- The key number of a parent is a multiple of the period, at or below the parent: the latest that is
-- at least the offset below it, or 0.
key_number_of-IsKeyNumber : (parent : ℕ) → IsKeyNumber parent (key_number_of parent)
unfolding key_number_of
key_number_of-IsKeyNumber parent = record {
  aligned = ground arith;
  below = ground arith;
  settled = ground arith;
  latest = ground arith;
}

-- `Ancestor header x k`: `k` is reached from `x` by parent hashes, through headers of the store.
pub data Ancestor (header : Headers) : Header → Header → Type 0 where
  here : (x : Header) → Ancestor header x x
  up :
      (x p : Header) {k : Header}
      → header (by_hash x.parent_hash) ≡ ok (some p)
      → Ancestor header p k
      → Ancestor header x k

-- A store with the parent of each of its headers but the genesis block, one number lower.
abbrev pub IsChain : Headers → Type 0
IsChain header =
    (id : BlockId) (x : Header)
    → header id ≡ ok (some x)
    → 0 < x.number
    → (p : Header) × (header (by_hash x.parent_hash) ≡ ok (some p)) × (p.number + 1 ≡ x.number)

module _ (header : Headers) (chain : IsChain header) where
  walk-Ancestor :
      (fuel key : ℕ) (id : BlockId) (x : Header)
      → header id ≡ ok (some x)
      → key ≤ x.number
      → x.number < fuel
      → (k : Header) × (walk header fuel key x ≡ ok k) × (k.number ≡ key) × Ancestor header x k
  unfolding walk
  walk-Ancestor zero key id x found below enough = absurd (omega arith)
  walk-Ancestor (suc fuel) key id x found below enough = elim (ℕ_discrete x.number key) [
    | yes same ↦ (x, rw (eq→== x.number key same), same, here x)
    | no other ↦
        (let (p, stored, number) = chain id x found (omega arith) in
          let (k, ends, at, path) =
            walk-Ancestor fuel key (by_hash x.parent_hash) p stored (omega arith) (omega arith) in
          (k, rw (ne→== x.number key other, stored) ends, at, up x p stored path))
  ]

  -- In a store with the ancestors of the parent, and with more fuel than the parent's number,
  -- `key_hash` returns the hash of the parent's ancestor at the key number.
  pub key_hash-Ancestor :
      (fuel : ℕ) (parent : BlockId) (x : Header)
      → header parent ≡ ok (some x)
      → x.number < fuel
      → (k : Header) × (key_hash header fuel parent ≡ ok k.hash)
        × (k.number ≡ key_number_of x.number)
        × Ancestor header x k
  unfolding key_hash
  key_hash-Ancestor fuel parent x found enough =
      let key = key_number_of x.number in
      let (k, ends, at, path) =
        walk-Ancestor fuel key parent x found (key_number_of-IsKeyNumber x.number).below enough in
      (k, rw (found, ends), at, path)
