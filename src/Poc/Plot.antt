-- ===== src/Poc/Plot.antt =====
-- poc/src/lib.rs: `noncegen_rust`, which fills a plot cache in place. The sizes of a nonce and of
-- the hashed window are parameters here and the crate's constants in `noncegen_rust`. Sums of
-- `u64` wrap, as in a release build; `none` is a panic.
pub mod Rounds
pub mod Content
pub mod Whole
use conjugate_poc.Common.{
  ℕ, zero, suc, ◌+◌, ◌-◌, ◌*◌, ◌/◌, ◌%◌, ◌^◌, ◌==◌, leb, if◌then◌else◌, List, [], ◌∷◌, ◌++◌, Option,
  none, some, replicate, get_or, get_elem?,
}
use conjugate_poc.Common.Panic.{◌>>=◌, slice, copy_into, store}
use conjugate_poc.Primitives.{hash_size, nonce_size, hash_cap}
use conjugate_poc.Shabal.Word.{words_of, ◌^^◌}
use conjugate_poc.Shabal.Hash.{shabal256_hash_fast}

-- The bytes of a `u64` in memory after `to_be`.
unfoldable pub be_bytes : ℕ → List ℕ
be_bytes v =
    (v / 2 ^ 56 % 256)
    ∷ (v / 2 ^ 48 % 256)
    ∷ (v / 2 ^ 40 % 256)
    ∷ (v / 2 ^ 32 % 256)
    ∷ (v / 2 ^ 24 % 256)
    ∷ (v / 2 ^ 16 % 256)
    ∷ (v / 2 ^ 8 % 256)
    ∷ (v % 256)
    ∷ []

-- The termination strings, 16 words each.
unfoldable pub t1 : ℕ → ℕ → List ℕ
unfolding be_bytes
t1 id nonce = words_of (be_bytes id) ++ (words_of (be_bytes nonce) ++ (0x80 ∷ replicate 11 0))

unfoldable pub t2 : ℕ → ℕ → List ℕ → List ℕ
unfolding be_bytes
t2 id nonce hash =
    words_of hash
    ++ (words_of (be_bytes id) ++ (words_of (be_bytes nonce) ++ (0x80 ∷ replicate 3 0)))

abbrev pub t3 : List ℕ
t3 = 0x80 ∷ replicate 15 0

-- The number of rounds of `(lo..=hi).rev().step_by(hash_size)`.
abbrev pub rev_steps : ℕ → ℕ → ℕ
rev_steps lo hi = if leb lo hi then (hi - lo) / hash_size + 1 else 0

-- Both loops over `i`: hash `cache[base + i..until i]` with a termination string and store the hash
-- below `base + i`. `left` rounds from `i` down.
unfoldable pub hash_rounds : ℕ → (ℕ → ℕ) → (ℕ → List ℕ) → ℕ → ℕ → List ℕ → Option (List ℕ)
hash_rounds base until term zero i cache = some cache
hash_rounds base until term (suc left) i cache = do
  read ← slice cache (base + i) (until i)
  cache' ← copy_into cache (base + i - hash_size) (base + i) (shabal256_hash_fast read (term i))
  hash_rounds base until term left (i - hash_size) cache'

-- `cache[base + i] ^= final_buffer[i % HASH_SIZE]` for `left` indices from `i` on.
unfoldable pub xor_final : ℕ → List ℕ → ℕ → ℕ → List ℕ → Option (List ℕ)
xor_final base final zero i cache = some cache
xor_final base final (suc left) i cache = do
  x ← get_elem? cache (base + i)
  cache' ← store cache (base + i) (x ^^ get_or final (i % hash_size) 0)
  xor_final base final left (i + 1) cache'

module _ (size cap : ℕ) where
  -- The body of the loop over the nonces, for the nonce stored at `base`.
  unfoldable pub plot_nonce : ℕ → ℕ → ℕ → List ℕ → Option (List ℕ)
  plot_nonce base id nonce cache =
      let seed = t1 id nonce in
      let hash = shabal256_hash_fast [] seed in
      let odd = t2 id nonce hash in
      do
        c₁ ← copy_into cache (base + size - hash_size) (base + size) hash
        c₂ ←
            hash_rounds base (λ _. base + size) (λ i. if i % 64 == 0 then seed else odd)
              (rev_steps (size - cap + hash_size) (size - hash_size)) (size - hash_size) c₁
        c₃ ←
            hash_rounds base (λ i. base + i + cap) (λ _. t3) (rev_steps hash_size (size - cap))
              (size - cap) c₂
        all ← slice c₃ base (base + size)
        xor_final base (shabal256_hash_fast all seed) size 0 c₃

  -- `left` nonces from the `n`th on.
  unfoldable pub plot_nonces : ℕ → ℕ → ℕ → ℕ → List ℕ → Option (List ℕ)
  plot_nonces id start zero n cache = some cache
  plot_nonces id start (suc left) n cache = do
    cache' ← plot_nonce (n * size) id ((start + n) % 2 ^ 64) cache
    plot_nonces id start left (n + 1) cache'

unfoldable pub noncegen_rust : List ℕ → ℕ → ℕ → ℕ → Option (List ℕ)
noncegen_rust cache numeric_id local_startnonce local_nonces =
    plot_nonces nonce_size hash_cap numeric_id local_startnonce local_nonces 0 cache
