-- ===== src/Poc/RandomX.antt =====
-- poc/src/lib.rs: `Seal`, `Compute`, `is_valid_hash`, and `verify` and `mine` of `RandomXAlgorithm`.
-- The RandomX machine and the cache of machines are an interface; the codec, the runtime call, the
-- headers and the random nonces are arguments.
pub mod Cached
pub mod Mined
mod Tests
use conjugate_poc.Common.{
  ℕ, zero, suc, ◌+◌, ◌*◌, ◌^◌, ltb, ◌==◌, if◌then◌else◌, Bool, true, false, ◌&&◌, List, Option,
  none, some, Outcome, ok, err, panic, ◌>>=◌, ◌≡◌, ◌⊎◌,
}
use conjugate_poc.Primitives.{algorithm_identifier}
use conjugate_poc.Poc.Bytes.{same_bytes, be_number}
use conjugate_poc.Poc.Codec.{Codec}
use conjugate_poc.Poc.KeyHash.{Error, rng_failed, identifier_failed, Headers, BlockId, key_hash}

pub record Seal : Type 0 where
  pub difficulty : ℕ
  pub work : List ℕ
  pub nonce : List ℕ

pub record Calculation : Type 0 where
  pub difficulty : ℕ
  pub pre_hash : List ℕ
  pub nonce : List ℕ

pub record Compute : Type 0 where
  pub key_hash : List ℕ
  pub pre_hash : List ℕ
  pub difficulty : ℕ
  pub nonce : List ℕ

-- The `randomx` crate and `lru_cache` as the code uses them. A machine may change as it calculates;
-- what it returns is fixed by the key that it was made for.
pub record Machines : Type 1 where
  pub Vm : Type 0
  pub Cache : Type 0
  pub new_vm : List ℕ → Vm
  pub calculate : Vm → List ℕ → List ℕ × Vm
  pub get : List ℕ → Cache → Option Vm
  pub insert : List ℕ → Vm → Cache → Cache
  pub vm_key : Vm → List ℕ
  pub randomx : List ℕ → List ℕ → List ℕ
  pub new_vm_key : (key : List ℕ) → vm_key (new_vm key) ≡ key
  pub calculate_hash :
      (vm : Vm) (input : List ℕ) → (calculate vm input).0 ≡ randomx (vm_key vm) input
  pub calculate_key : (vm : Vm) (input : List ℕ) → vm_key (calculate vm input).1 ≡ vm_key vm
  pub get_insert :
      (key other : List ℕ) (vm found : Vm) (cache : Cache)
      → get key (insert other vm cache) ≡ some found
      → ((key ≡ other) × (found ≡ vm)) ⊎ (get key cache ≡ some found)

unfoldable pub is_valid_hash : List ℕ → ℕ → Bool
is_valid_hash hash difficulty = ltb (be_number 0 hash * difficulty) (2 ^ 256)

-- `==` of seals.
unfoldable pub same_seal : Seal → Seal → Bool
same_seal s t =
    s.difficulty == t.difficulty && same_bytes s.work t.work && same_bytes s.nonce t.nonce

module _ (m : Machines) (calculation : Codec Calculation) where
  open m use {Cache, new_vm, calculate, get, insert}

  -- `compute`: the machine that `get_mut` finds is used in place, which leaves it in the cache as it
  -- is afterwards.
  unfoldable pub compute : Compute → Cache → Seal × Cache
  compute c cache =
      let input =
        calculation.encode
          (record { difficulty = c.difficulty; pre_hash = c.pre_hash; nonce = c.nonce }) in
      let vm : m.Vm = elim (get c.key_hash cache) [ none ↦ new_vm c.key_hash | some vm ↦ vm ] in
      let (work, vm') = calculate vm input in
      (
        record { difficulty = c.difficulty; work = work; nonce = c.nonce },
        insert c.key_hash vm' cache,
      )

  module _ (codec : Codec Seal) (header : Headers) where
    -- `identifier` is what the runtime call returns for the parent, `none` its failure.
    unfoldable pub verify :
        ℕ → Option (List ℕ) → BlockId → List ℕ → List ℕ → ℕ → Cache → Outcome Error Bool × Cache
    verify fuel none parent pre_hash seal difficulty cache = (err identifier_failed, cache)
    verify fuel (some identifier) parent pre_hash seal difficulty cache =
        let checked : List ℕ → Outcome Error Bool × Cache = λ key. elim (codec.decode seal) [
          | none ↦ (ok false, cache)
          | some decoded ↦
              if is_valid_hash decoded.work difficulty
              then (let (computed, cache') =
                    compute
                      (record {
                        key_hash = key;
                        pre_hash = pre_hash;
                        difficulty = difficulty;
                        nonce = decoded.nonce;
                      })
                      cache in
                  (ok (same_seal computed decoded), cache'))
              else (ok false, cache)
        ] in
        let keyed : Outcome Error Bool × Cache = elim (key_hash header fuel parent) [
          | ok key ↦ checked key
          | err e ↦ (err e, cache)
          | panic ↦ (panic, cache)
        ] in
        if same_bytes identifier algorithm_identifier then keyed else (panic, cache)

    -- The loop of `mine`: `round` tries with the nonces that the generator gives.
    unfoldable pub mine_loop :
        ℕ → (ℕ → List ℕ) → List ℕ → List ℕ → ℕ → Cache → Option (List ℕ) × Cache
    mine_loop zero nonces key pre_hash difficulty cache = (none, cache)
    mine_loop (suc round) nonces key pre_hash difficulty cache =
        let (seal, cache') =
          compute
            (record {
              key_hash = key;
              pre_hash = pre_hash;
              difficulty = difficulty;
              nonce = nonces 0;
            })
            cache in
        let rest = mine_loop round (λ i. nonces (suc i)) key pre_hash difficulty cache' in
        if is_valid_hash seal.work difficulty then (some (codec.encode seal), cache') else rest

    -- `rng` is the generator's nonces, `none` its failure to start.
    unfoldable pub mine :
        ℕ
        → Option (ℕ → List ℕ)
        → BlockId
        → List ℕ
        → ℕ
        → ℕ
        → Cache
        → Outcome Error (Option (List ℕ)) × Cache
    mine fuel none parent pre_hash difficulty round cache = (err rng_failed, cache)
    mine fuel (some nonces) parent pre_hash difficulty round cache =
        elim (key_hash header fuel parent) [
          | ok key ↦
              (let (mined, cache') = mine_loop round nonces key pre_hash difficulty cache in
                (ok mined, cache'))
          | err e ↦ (err e, cache)
          | panic ↦ (panic, cache)
        ]
