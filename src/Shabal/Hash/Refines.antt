-- ===== src/Shabal/Hash/Refines.antt =====
-- Shabal-256 over a message as its loops, and that `shabal256_hash_fast` of
-- poc/src/shabal256.rs computes it.
use conjugate_poc.Common.{ℕ, zero, suc, ◌/◌, ◌≡◌, refl, ap, ◌∙◌, List, length, take, drop}
use conjugate_poc.Shabal.Word.{bytes_of, words_of}
use conjugate_poc.Shabal.State.{State, init, input_block_add, input_block_sub, incr_w, swap_bc}
use conjugate_poc.Shabal.Spec.{reference_p, apply_p-eq-reference_p}
use conjugate_poc.Shabal.Hash.{
  apply_p, xor_state, absorb, absorb_all, final_round, final_rounds, hash_state,
  shabal256_hash_fast,
}
use conjugate_poc.Shabal.Hash.Bounds.{
  IsShaped, init-IsShaped, xor_state-IsShaped, add_b-IsShaped, apply_p-IsShaped, absorb-IsShaped,
  absorb_all-IsShaped, final_round-IsShaped,
}

-- One block: add it to `b`, mix the counter in, permute, subtract the block from `c`, swap, count.
reference_block : List ℕ → State → State
reference_block d s =
    let mixed = reference_p d (xor_state (record s { b = input_block_add s.b d })) in
    incr_w (swap_bc (record mixed { c = input_block_sub mixed.c d }))

reference_blocks : ℕ → List ℕ → State → State
reference_blocks zero d s = s
reference_blocks (suc num) d s = reference_blocks num (drop 16 d) (reference_block d s)

-- The `left` rounds after the last block: swap, mix the counter in, permute.
reference_close : ℕ → List ℕ → State → State
reference_close zero d s = s
reference_close (suc left) d s = reference_close left d (reference_p d (xor_state (swap_bc s)))

-- The whole blocks of the message, then the last block with three closing rounds; the result is
-- the upper half of `b`.
pub reference_hash : List ℕ → List ℕ → List ℕ
reference_hash data' term =
    let s = reference_blocks (length data' / 64) (words_of data') init in
    let last = reference_p term (xor_state (record s { b = input_block_add s.b term })) in
    bytes_of (take 8 (drop 8 (reference_close 3 term last).b))

absorb-eq-reference_block : (d : List ℕ) (s : State) → IsShaped s → absorb d s ≡ reference_block d s
unfolding absorb reference_block
absorb-eq-reference_block d s h =
    let added : State = record s { b = input_block_add s.b d } in
    let sized = (xor_state-IsShaped added (add_b-IsShaped d s h)).size_a in
    rw (apply_p-eq-reference_p d (xor_state added) sized)

absorb_all-eq-reference_blocks :
    (num : ℕ) (d : List ℕ) (s : State) → IsShaped s → absorb_all num d s ≡ reference_blocks num d s
unfolding absorb_all reference_blocks
absorb_all-eq-reference_blocks zero d s h = refl
absorb_all-eq-reference_blocks (suc num) d s h =
    absorb_all-eq-reference_blocks num (drop 16 d) (absorb d s) (absorb-IsShaped d s h)
    ∙ ap (reference_blocks num (drop 16 d)) (absorb-eq-reference_block d s h)

swap_bc-IsShaped : (s : State) → IsShaped s → IsShaped (swap_bc s)
unfolding swap_bc
swap_bc-IsShaped s h = record { size_a = h.size_a; b = h.c; c = h.b }

final_round-eq-reference :
    (d : List ℕ) (s : State)
    → IsShaped s
    → final_round (apply_p d) s ≡ reference_p d (xor_state (swap_bc s))
unfolding final_round
final_round-eq-reference d s h =
    apply_p-eq-reference_p d _ (xor_state-IsShaped _ (swap_bc-IsShaped s h)).size_a

final_rounds-eq-reference :
    (d : List ℕ) (s : State)
    → IsShaped s
    → final_rounds (apply_p d) s ≡ reference_close 3 d (reference_p d (xor_state s))
unfolding final_rounds reference_close
final_rounds-eq-reference d s h =
    let x = xor_state-IsShaped s h in
    let h₀ = apply_p-IsShaped d _ x in
    let h₁ = final_round-IsShaped d _ h₀ in
    let h₂ = final_round-IsShaped d _ h₁ in
    final_round-eq-reference d _ h₂
    ∙ ap (λ t. reference_p d (xor_state (swap_bc t))) (final_round-eq-reference d _ h₁)
    ∙ ap (λ t. reference_p d (xor_state (swap_bc (reference_p d (xor_state (swap_bc t))))))
        (final_round-eq-reference d _ h₀)
    ∙ ap (reference_close 3 d) (apply_p-eq-reference_p d _ x.size_a)

-- For every message and last block, the code returns the hash that the loops define.
pub shabal256_hash_fast-eq-reference_hash :
    (data' term : List ℕ) → shabal256_hash_fast data' term ≡ reference_hash data' term
unfolding shabal256_hash_fast hash_state reference_hash
shabal256_hash_fast-eq-reference_hash data' term =
    let num = length data' / 64 in
    let ws = words_of data' in
    let absorbed = absorb_all-IsShaped num ws init init-IsShaped in
    rw (
      final_rounds-eq-reference term _ (add_b-IsShaped term _ absorbed),
      absorb_all-eq-reference_blocks num ws init init-IsShaped,
    )
