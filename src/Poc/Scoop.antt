-- ===== src/Poc/Scoop.antt =====
-- poc/src/lib.rs: `calculate_scoop` and `find_best_deadline_rust`.
pub mod Range
pub mod Best
use Prim.Native.Nat.{bit_and, bit_or}
use conjugate_poc.Common.{
  ℕ, zero, suc, ◌+◌, ◌-◌, ◌*◌, ◌^◌, ltb, if◌then◌else◌, List, [], ◌∷◌, ◌++◌, Option, none, some,
  replicate, get_or,
}
use conjugate_poc.Common.Panic.{◌>>=◌, slice}
use conjugate_poc.Primitives.{scoop_size}
use conjugate_poc.Shabal.Word.{words_of}
use conjugate_poc.Shabal.Hash.{shabal256_hash_fast, shabal256_deadline_fast}
use conjugate_poc.Poc.Plot.{be_bytes}

-- The hash of the generation signature, the height and the padding.
unfoldable pub scoop_hash : ℕ → List ℕ → List ℕ
scoop_hash height gensig =
    shabal256_hash_fast [] (words_of (gensig ++ (be_bytes height ++ (0x80 ∷ replicate 23 0))))

unfoldable pub calculate_scoop : ℕ → List ℕ → ℕ
calculate_scoop height gensig =
    let new_gensig = scoop_hash height gensig in
    bit_or (bit_and (get_or new_gensig 30 0) 0x0f * 2 ^ 8) (get_or new_gensig 31 0)

-- The loop from nonce `i` on, with `left` rounds; the pair is the best deadline and its offset.
unfoldable pub best_loop : List ℕ → List ℕ → ℕ → ℕ → ℕ × ℕ → Option (ℕ × ℕ)
best_loop data' gensig zero i best = some best
best_loop data' gensig (suc left) i (best_deadline, best_offset) = do
  scoop ← slice data' (i * scoop_size) (i * scoop_size + scoop_size)
  let result = shabal256_deadline_fast scoop gensig
  best_loop data' gensig left (i + 1)
      (if ltb result best_deadline then (result, i) else (best_deadline, best_offset))

unfoldable pub find_best_deadline_rust : List ℕ → ℕ → List ℕ → Option (ℕ × ℕ)
find_best_deadline_rust data' number_of_nonces gensig =
    best_loop data' gensig number_of_nonces 0 (2 ^ 64 - 1, 0)
