-- ===== src/Poc/RandomX/Cached.antt =====
-- poc/src/lib.rs: the cache of machines does not change what `compute` returns.
use conjugate_poc.Common.{ℕ, ◌≡◌, inl, inr, sym, ap, ◌∙◌, List, some, Option-cases}
use conjugate_poc.Poc.Codec.{Codec}
use conjugate_poc.Poc.RandomX.{Seal, Calculation, Compute, Machines, compute}

module _ (m : Machines) where
  -- Each machine of the cache was made for the key that it stands under.
  abbrev pub IsKeyed : m.Cache → Type 0
  IsKeyed cache = (key : List ℕ) (vm : m.Vm) → m.get key cache ≡ some vm → m.vm_key vm ≡ key

  insert-IsKeyed :
      (key : List ℕ) (vm : m.Vm) (cache : m.Cache)
      → m.vm_key vm ≡ key
      → IsKeyed cache
      → IsKeyed (m.insert key vm cache)
  insert-IsKeyed key vm cache k keyed other found e =
      elim (m.get_insert other key vm found cache e) [
        | inl (same, it) ↦ ap m.vm_key it ∙ k ∙ sym same
        | inr old ↦ keyed other found old
      ]

  module _ (calculation : Codec Calculation) where
    -- The seal with the RandomX hash of the encoded calculation under the key.
    abbrev pub sealed : Compute → Seal
    sealed c = record {
      difficulty = c.difficulty;
      work = m.randomx c.key_hash (
          calculation.encode
            (record { difficulty = c.difficulty; pre_hash = c.pre_hash; nonce = c.nonce }));
      nonce = c.nonce;
    }

    run_machine :
        (c : Compute) (cache : m.Cache) (vm : m.Vm)
        → m.vm_key vm ≡ c.key_hash
        → IsKeyed cache
        → let input =
            calculation.encode
              (record { difficulty = c.difficulty; pre_hash = c.pre_hash; nonce = c.nonce }) in
          ((m.calculate vm input).0 ≡ m.randomx c.key_hash input)
          × IsKeyed (m.insert c.key_hash (m.calculate vm input).1 cache)
    run_machine c cache vm k keyed =
        let input =
          calculation.encode
            (record { difficulty = c.difficulty; pre_hash = c.pre_hash; nonce = c.nonce }) in
        (
          m.calculate_hash vm input ∙ ap (λ x. m.randomx x input) k,
          insert-IsKeyed c.key_hash (m.calculate vm input).1 cache (m.calculate_key vm input ∙ k)
              keyed,
        )

    -- With a cache whose machines stand under their keys, whether it holds the key or not, `compute`
    -- returns the seal of the calculation's RandomX hash, and leaves such a cache.
    pub compute-sealed :
        (c : Compute) (cache : m.Cache)
        → IsKeyed cache
        → ((compute m calculation c cache).0 ≡ sealed c) × IsKeyed (compute m calculation c cache).1
    unfolding compute
    compute-sealed c cache keyed = elim (Option-cases (m.get c.key_hash cache)) [
      | inl missing ↦
          (let r = run_machine c cache (m.new_vm c.key_hash) (m.new_vm_key c.key_hash) keyed in
            rw missing
              ((λ i. record { difficulty = c.difficulty; work = r.0 i; nonce = c.nonce }), r.1))
      | inr (vm, found) ↦
          (let r = run_machine c cache vm (keyed c.key_hash vm found) keyed in
            rw found
              ((λ i. record { difficulty = c.difficulty; work = r.0 i; nonce = c.nonce }), r.1))
    ]
