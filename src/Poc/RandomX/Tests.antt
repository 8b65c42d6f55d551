-- ===== src/Poc/RandomX/Tests.antt =====
-- poc/src/lib.rs: the theorems on the RandomX algorithm at a concrete machine, cache and codec.
use conjugate_poc.Common.{
  ℕ, if◌then◌else◌, ◌≡◌, ◌⊎◌, inl, inr, refl, sym, true, Bool-cases, List, [], ◌∷◌, ◌++◌, Option,
  none, some, ok, length, take, drop, take-append, drop-append,
}
use mathlib.Core.Option.{some-injective}
use conjugate_poc.Primitives.{algorithm_identifier}
use conjugate_poc.Poc.Bytes.{same_bytes, same_bytes-eq, be_number}
use conjugate_poc.Poc.Codec.{Codec, RoundTrips}
use conjugate_poc.Poc.KeyHash.{Header, by_number, Headers, key_number_of, walk, key_hash}
use conjugate_poc.Poc.RandomX.{
  Seal, Calculation, Compute, Machines, compute, is_valid_hash, verify, mine_loop, mine,
}
use conjugate_poc.Poc.RandomX.Cached.{IsKeyed, sealed, compute-sealed}
use conjugate_poc.Poc.RandomX.Mined.{verify-mine}

lookup : List ℕ → List (List ℕ × List ℕ) → Option (List ℕ)
lookup key [] = none
lookup key ((other, vm) ∷ cache) =
    let rest = lookup key cache in if same_bytes key other then some vm else rest

lookup_lem :
    (key other vm found : List ℕ) (cache : List (List ℕ × List ℕ))
    → lookup key ((other, vm) ∷ cache) ≡ some found
    → ((key ≡ other) × (found ≡ vm)) ⊎ (lookup key cache ≡ some found)
unfolding lookup
lookup_lem key other vm found cache e = elim (Bool-cases (same_bytes key other)) [
  | inl same ↦ inl (same_bytes-eq key other same, sym (some-injective _ _ (rw same at e)))
  | inr differ ↦ inr (rw differ at e)
]

-- A machine is its key, and its hash the key and the input, one after the other.
abbrev machines : Machines
machines = record {
  Vm = List ℕ;
  Cache = List (List ℕ × List ℕ);
  new_vm = λ key. key;
  calculate = λ vm input. (vm ++ input, vm);
  get = lookup;
  insert = λ key vm cache. (key, vm) ∷ cache;
  vm_key = λ vm. vm;
  randomx = λ key input. key ++ input;
  new_vm_key = λ key. refl;
  calculate_hash = λ vm input. refl;
  calculate_key = λ vm input. refl;
  get_insert = λ key other vm found cache e. lookup_lem key other vm found cache e;
}

abbrev calculation : Codec Calculation
calculation = record { encode = λ c. c.difficulty ∷ (c.pre_hash ++ c.nonce); decode = λ raw. none }

abbrev decode_seal : List ℕ → Option Seal
decode_seal [] = none
decode_seal (_ ∷ []) = none
decode_seal (d ∷ n ∷ rest) =
    some (record { difficulty = d; work = take n rest; nonce = drop n rest })

abbrev seals : Codec Seal
seals = record {
  encode = λ s. s.difficulty ∷ length s.work ∷ (s.work ++ s.nonce);
  decode = decode_seal;
}

seals-RoundTrips : RoundTrips seals
seals-RoundTrips s i = some (record {
  difficulty = s.difficulty;
  work = take-append (length s.work) s.work s.nonce refl i;
  nonce = drop-append (length s.work) s.work s.nonce refl i;
})

abbrev genesis : Header
genesis = record { number = 0; hash = 3 ∷ []; parent_hash = 0 ∷ [] }

abbrev store : Headers
store id = ok (some genesis)

empty-IsKeyed : IsKeyed machines []
unfolding lookup
empty-IsKeyed key vm e = absurd cc

abbrev try : Compute
try = record { key_hash = 3 ∷ []; pre_hash = 1 ∷ []; difficulty = 2; nonce = 7 ∷ [] }

compute-sealed_example :
    ((compute machines calculation try []).0 ≡ sealed machines calculation try)
    × IsKeyed machines (compute machines calculation try []).1
compute-sealed_example = compute-sealed machines calculation try [] empty-IsKeyed

abbrev raw : List ℕ
raw = seals.encode (sealed machines calculation try)

mined_raw :
    (mine machines calculation seals store 1 (some (λ i. 7 ∷ [])) (by_number 0) (1 ∷ []) 2 1 []).0
    ≡ ok (some raw)
unfolding mine mine_loop compute is_valid_hash be_number key_hash key_number_of walk lookup
    same_bytes
mined_raw = refl

verify-mine_example :
    (verify machines calculation seals store 1
      (some algorithm_identifier)
      (by_number 0)
      (1 ∷ [])
      raw
      2
      (mine machines calculation seals store 1
        (some (λ i. 7 ∷ []))
        (by_number 0)
        (1 ∷ [])
        2
        1
        []).1).0
    ≡ ok true
verify-mine_example =
    verify-mine machines calculation seals store seals-RoundTrips 1 (λ i. 7 ∷ []) (by_number 0)
      (1 ∷ []) 2 1 [] raw empty-IsKeyed mined_raw
