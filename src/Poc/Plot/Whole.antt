-- ===== src/Poc/Plot/Whole.antt =====
-- poc/src/lib.rs: all nonces of a `noncegen_rust` call, at the crate's sizes.
use conjugate_poc.Common.{
  ℕ, zero, suc, ◌+◌, ◌*◌, ◌%◌, ◌^◌, ◌≡◌, refl, sym, ap, ◌∙◌, arith, List, [], ◌∷◌, ◌++◌, some,
  length, take, drop, length-take, length-drop, length-append, take-append-drop,
}
use mathlib.Core.List.{append_assoc}
use conjugate_poc.Primitives.{nonce_size, hash_cap}
use conjugate_poc.Poc.Plot.{plot_nonces, noncegen_rust}
use conjugate_poc.Poc.Plot.Content.{IsSized, nonce_bytes, length-nonce_bytes, plot_nonce-content}

-- The contents of `left` nonces, the first of them number `start + n`.
unfoldable pub plots : ℕ → ℕ → ℕ → ℕ → ℕ → ℕ → List ℕ
plots size cap id start zero n = []
plots size cap id start (suc left) n =
    nonce_bytes size cap id ((start + n) % 2 ^ 64) ++ plots size cap id start left (n + 1)

module _ (size cap : ℕ) (sized : IsSized size cap) (id start : ℕ) where
  plot_nonces-content :
      (left n : ℕ) (pre old post : List ℕ)
      → length pre ≡ n * size
      → length old ≡ left * size
      → plot_nonces size cap id start left n (pre ++ (old ++ post))
        ≡ some (pre ++ (plots size cap id start left n ++ post))
  unfolding plot_nonces plots
  plot_nonces-content zero n pre [] post p h = refl
  plot_nonces-content zero n pre (x ∷ old) post p h = absurd (omega arith)
  plot_nonces-content (suc left) n pre old post p h =
      let head = take size old in
      let rest = drop size old in
      let nonce = (start + n) % 2 ^ 64 in
      let bytes = nonce_bytes size cap id nonce in
      let split : pre ++ (old ++ post) ≡ pre ++ (head ++ (rest ++ post)) =
        ap (λ x. pre ++ (x ++ post)) (sym (take-append-drop size old))
        ∙ ap (λ x. pre ++ x) (append_assoc head rest post) in
      let room : size + left * size ≡ suc left * size = omega arith in
      let one =
        plot_nonce-content size cap sized id nonce pre head (rest ++ post)
          (omega (arith, length-take size old)) in
      rw (split, ← p, one)
        (ap (λ x. plot_nonces size cap id start left (n + 1) x)
            (sym (append_assoc pre bytes (rest ++ post)))
          ∙ plot_nonces-content left (n + 1) (pre ++ bytes) rest post
              (omega (arith, length-append pre bytes, length-nonce_bytes size cap sized id nonce))
              (omega (arith, length-drop size old))
          ∙ ap some (
              append_assoc pre bytes _
              ∙ ap (λ x. pre ++ x)
                  (sym (append_assoc bytes (plots size cap id start left (n + 1)) post))))

pub crate_sizes : IsSized nonce_size hash_cap
crate_sizes = omega arith

-- On a cache with room for the nonces, `noncegen_rust` does not panic: it overwrites the first
-- `local_nonces * NONCE_SIZE` bytes with the contents of the consecutive nonces, whatever stood
-- there, and leaves the rest of the cache as it is.
pub noncegen_rust-content :
    (numeric_id local_startnonce local_nonces : ℕ) (old post : List ℕ)
    → length old ≡ local_nonces * nonce_size
    → noncegen_rust (old ++ post) numeric_id local_startnonce local_nonces
      ≡ some (plots nonce_size hash_cap numeric_id local_startnonce local_nonces 0 ++ post)
unfolding noncegen_rust
noncegen_rust-content numeric_id local_startnonce local_nonces old post h =
    plot_nonces-content nonce_size hash_cap crate_sizes numeric_id local_startnonce local_nonces 0
      [] old post refl h
