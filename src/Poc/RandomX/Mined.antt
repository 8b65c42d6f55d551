-- ===== src/Poc/RandomX/Mined.antt =====
-- poc/src/lib.rs: `verify` accepts what `mine` returns.
use conjugate_poc.Common.{
  ℕ, zero, suc, ◌≢◌, ◌≡◌, inl, inr, refl, sym, ap, ◌∙◌, List, Option, some, Outcome, ok, err, panic,
  true, false, Bool-cases, ==_refl,
}
use mathlib.Core.Option.{some-injective}
use conjugate_poc.Primitives.{algorithm_identifier}
use conjugate_poc.Poc.Bytes.{same_bytes_refl}
use conjugate_poc.Poc.Codec.{Codec, RoundTrips}
use conjugate_poc.Poc.KeyHash.{Headers, BlockId, key_hash, Error}
use conjugate_poc.Poc.RandomX.{
  Seal, Calculation, Compute, Machines, compute, is_valid_hash, same_seal, verify, mine_loop, mine,
}
use conjugate_poc.Poc.RandomX.Cached.{IsKeyed, sealed, compute-sealed}

same_seal_refl : (s : Seal) → same_seal s s ≡ true
unfolding same_seal
same_seal_refl s = rw (==_refl s.difficulty, same_bytes_refl s.work, same_bytes_refl s.nonce)

data Ending (o : Outcome Error (List ℕ)) : Type 0 where
  by_ok : (key : List ℕ) → o ≡ ok key → Ending o
  by_err : (x : Error) → o ≡ err x → Ending o
  by_panic : o ≡ panic → Ending o

Outcome-cases : (o : Outcome Error (List ℕ)) → Ending o
Outcome-cases (ok key) = by_ok key refl
Outcome-cases (err x) = by_err x refl
Outcome-cases panic = by_panic refl

ok-eq : {a b : Option (List ℕ)} → ◌≡◌ {A = Outcome Error (Option (List ℕ))} (ok a) (ok b) → a ≡ b
ok-eq e = cc

module _ (m : Machines) (calculation : Codec Calculation) (codec : Codec Seal)
    (header : Headers) where
  -- The calculation that a try with `nonce` makes.
  abbrev try : List ℕ → List ℕ → ℕ → List ℕ → Compute
  try key pre_hash difficulty nonce = record {
    key_hash = key;
    pre_hash = pre_hash;
    difficulty = difficulty;
    nonce = nonce;
  }

  -- `raw` encodes the seal of some nonce, and the seal's work is valid.
  record IsMined (key pre_hash : List ℕ) (difficulty : ℕ) (raw : List ℕ) : Type 0 where
    nonce : List ℕ
    encoded : raw ≡ codec.encode (sealed m calculation (try key pre_hash difficulty nonce))
    valid :
        is_valid_hash (sealed m calculation (try key pre_hash difficulty nonce)).work difficulty
        ≡ true

  module _ (round : ℕ) (nonces : ℕ → List ℕ) (key pre_hash : List ℕ) (difficulty : ℕ)
      (cache : m.Cache) where
    -- The seal of the first try, and the cache after it.
    abbrev first : Seal × m.Cache
    first = compute m calculation (try key pre_hash difficulty (nonces 0)) cache

    abbrev run : Option (List ℕ) × m.Cache
    run = mine_loop m calculation codec header (suc round) nonces key pre_hash difficulty cache

    hit :
        is_valid_hash first.0.work difficulty ≡ true → run ≡ (some (codec.encode first.0), first.1)
    unfolding mine_loop
    hit e = rw e

    miss :
        is_valid_hash first.0.work difficulty ≡ false
        → run
          ≡ mine_loop m calculation codec header round
              (λ i. nonces (suc i))
              key
              pre_hash
              difficulty
              first.1
    unfolding mine_loop
    miss e = rw e

  mine_loop-IsMined :
      (round : ℕ) (nonces : ℕ → List ℕ) (key pre_hash : List ℕ) (difficulty : ℕ) (cache : m.Cache)
      (raw : List ℕ)
      → IsKeyed m cache
      → (mine_loop m calculation codec header round nonces key pre_hash difficulty cache).0
        ≡ some raw
      → IsMined key pre_hash difficulty raw
        × IsKeyed m
            (mine_loop m calculation codec header round nonces key pre_hash difficulty cache).1
  mine_loop-IsMined zero nonces key pre_hash difficulty cache raw keyed e =
      absurd (unfold mine_loop in cc e)
  mine_loop-IsMined (suc round) nonces key pre_hash difficulty cache raw keyed e =
      let c = try key pre_hash difficulty (nonces 0) in
      let (seal, keyed') = compute-sealed m calculation c cache keyed in
      let s : Seal = (compute m calculation c cache).0 in
      elim (Bool-cases (is_valid_hash s.work difficulty)) [
        | inl valid ↦
            (let at_hit = hit round nonces key pre_hash difficulty cache valid in
              let found : some (codec.encode s) ≡ some raw = rw at_hit at e in
              rw at_hit (
                record {
                  nonce = nonces 0;
                  encoded = sym (some-injective _ _ found) ∙ ap codec.encode seal;
                  valid = ap (λ (t : Seal). is_valid_hash t.work difficulty) (sym seal) ∙ valid;
                },
                keyed',
              ))
        | inr invalid ↦
            (let at_miss = miss round nonces key pre_hash difficulty cache invalid in
              rw at_miss (
                mine_loop-IsMined round (λ i. nonces (suc i)) key pre_hash difficulty
                  (compute m calculation c cache).1 raw keyed' (rw at_miss at e)))
      ]

  module _ (fuel : ℕ) (nonces : ℕ → List ℕ) (parent : BlockId) (pre_hash : List ℕ)
      (difficulty round : ℕ) (cache : m.Cache) where
    abbrev mined_by : Outcome Error (Option (List ℕ)) × m.Cache
    mined_by =
        mine m calculation codec header fuel (some nonces) parent pre_hash difficulty round cache

    mine_ok :
        (key : List ℕ)
        → key_hash header fuel parent ≡ ok key
        → let looped =
            mine_loop m calculation codec header round nonces key pre_hash difficulty cache in
          mined_by ≡ (ok looped.0, looped.1)
    unfolding mine
    mine_ok key found = rw (found, mine)

    mine_not_ok : (raw : List ℕ) → mined_by.0 ≡ ok (some raw) → mined_by.0 ≢ ok (some raw) → ⊥
    mine_not_ok raw e ne = ne e

  module _ (round_trips : RoundTrips codec) where
    accepted :
        (fuel : ℕ) (parent : BlockId) (key pre_hash : List ℕ) (difficulty : ℕ) (raw : List ℕ)
        (cache : m.Cache)
        → key_hash header fuel parent ≡ ok key
        → IsMined key pre_hash difficulty raw
        → IsKeyed m cache
        → (verify m calculation codec header fuel
            (some algorithm_identifier)
            parent
            pre_hash
            raw
            difficulty
            cache).0
          ≡ ok true
    unfolding verify
    accepted fuel parent key pre_hash difficulty raw cache keyed mined ok_cache =
        let c = try key pre_hash difficulty mined.nonce in
        let s = sealed m calculation c in
        let decoded : codec.decode raw ≡ some s = ap codec.decode mined.encoded ∙ round_trips s in
        rw (
          same_bytes_refl algorithm_identifier,
          keyed,
          decoded,
          mined.valid,
          (compute-sealed m calculation c cache ok_cache).0,
          same_seal_refl s,
        )

    -- If decoding undoes encoding and the cached machines stand under their keys, then whatever
    -- `mine` returns for a parent, pre-hash and difficulty, `verify` accepts for the same three,
    -- with the same headers and the cache that the mining left.
    pub verify-mine :
        (fuel : ℕ) (nonces : ℕ → List ℕ) (parent : BlockId) (pre_hash : List ℕ)
        (difficulty round : ℕ) (cache : m.Cache) (raw : List ℕ)
        → IsKeyed m cache
        → (mine m calculation codec header fuel
            (some nonces)
            parent
            pre_hash
            difficulty
            round
            cache).0
          ≡ ok (some raw)
        → (verify m calculation codec header fuel
            (some algorithm_identifier)
            parent
            pre_hash
            raw
            difficulty
            (mine m calculation codec header fuel
              (some nonces)
              parent
              pre_hash
              difficulty
              round
              cache).1).0
          ≡ ok true
    verify-mine fuel nonces parent pre_hash difficulty round cache raw keyed e =
        elim (Outcome-cases (key_hash header fuel parent)) [
          | by_ok key found ↦
              (let ran = mine_ok fuel nonces parent pre_hash difficulty round cache key found in
                let mined =
                  mine_loop-IsMined round nonces key pre_hash difficulty cache raw keyed
                    (ok-eq (rw ran at e)) in
                rw ran (accepted fuel parent key pre_hash difficulty raw _ found mined.0 mined.1))
          | by_err x found ↦ absurd (
              mine_not_ok fuel nonces parent pre_hash difficulty round cache raw e
                (unfold mine in rw (found, mine) (cc)))
          | by_panic found ↦ absurd (
              mine_not_ok fuel nonces parent pre_hash difficulty round cache raw e
                (unfold mine in rw (found, mine) (cc)))
        ]
