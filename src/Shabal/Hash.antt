-- ===== src/Shabal/Hash.antt =====
-- poc/src/shabal256.rs: `apply_p`, `apply_p_dl`, `shabal256_hash_fast` and
-- `shabal256_deadline_fast`.
pub mod Bounds
pub mod Deadline
pub mod Refines
use conjugate_poc.Common.{ℕ, zero, suc, ◌+◌, ◌*◌, ◌/◌, ◌^◌, List, [], ◌∷◌, length, take, drop}
use conjugate_poc.Shabal.Word.{bytes_of, words_of}
use conjugate_poc.Shabal.State.{
  State, init, at, input_block_add, input_block_sub, input_block_add_dl, input_block_sub_dl, xor_w,
  incr_w, swap_bc, rotate_b, add_c,
}
use conjugate_poc.Shabal.Perm.{perm, perm_dl}

unfoldable pub apply_p : List ℕ → State → State
apply_p data' s =
    let r = perm s.c data' (record { a = s.a; b = rotate_b s.b }) in
    record s { a = add_c r.a s.c; b = r.b }

unfoldable pub apply_p_dl : List ℕ → List ℕ → State → State
apply_p_dl data_a data_b s =
    let r = perm_dl s.c data_a data_b (record { a = s.a; b = rotate_b s.b }) in
    record s { a = add_c r.a s.c; b = r.b }

unfoldable pub xor_state : State → State
unfolding xor_w
xor_state s = record s { a = xor_w s.a s.w_low s.w_high }

-- The body of the `while num > 0` loop; `data'` is `&data[ptr..]`.
unfoldable pub absorb : List ℕ → State → State
absorb data' s =
    let s₁ = apply_p data' (xor_state (record s { b = input_block_add s.b data' })) in
    incr_w (swap_bc (record s₁ { c = input_block_sub s₁.c data' }))

-- The loop, with `num` rounds left at the words `data'`.
unfoldable pub absorb_all : ℕ → List ℕ → State → State
absorb_all zero data' s = s
absorb_all (suc num) data' s = absorb_all num (drop 16 data') (absorb data' s)

-- One round of `for _ in 0..3`.
unfoldable pub final_round : (State → State) → State → State
final_round apply s = apply (xor_state (swap_bc s))

unfoldable pub final_rounds : (State → State) → State → State
unfolding final_round
final_rounds apply s =
    final_round apply (final_round apply (final_round apply (apply (xor_state s))))

-- The state at the end of `shabal256_hash_fast`.
unfoldable pub hash_state : List ℕ → List ℕ → State
hash_state data' term =
    let s = absorb_all (length data' / 64) (words_of data') init in
    final_rounds (apply_p term) (record s { b = input_block_add s.b term })

unfoldable pub shabal256_hash_fast : List ℕ → List ℕ → List ℕ
unfolding hash_state
shabal256_hash_fast data' term = bytes_of (take 8 (drop 8 (hash_state data' term).b))

abbrev pub term_dl : List ℕ
term_dl = 0x80 ∷ 0 ∷ 0 ∷ 0 ∷ 0 ∷ 0 ∷ 0 ∷ 0 ∷ []

-- The first block of `shabal256_deadline_fast`.
unfoldable pub absorb_dl : List ℕ → List ℕ → State → State
absorb_dl gensig data' s =
    let s₁ =
      apply_p_dl gensig data' (xor_state (record s { b = input_block_add_dl s.b gensig data' })) in
    incr_w (swap_bc (record s₁ { c = input_block_sub_dl s₁.c gensig data' }))

unfoldable pub deadline_state : List ℕ → List ℕ → State
deadline_state data' gensig =
    let words = words_of data' in
    let s = absorb_dl (words_of gensig) (take 8 words) init in
    let data_b = drop 8 words in
    final_rounds (apply_p_dl data_b term_dl)
      (record s { b = input_block_add_dl s.b data_b term_dl })

-- `b[4]` of `b` read as eight `u64`s.
unfoldable pub shabal256_deadline_fast : List ℕ → List ℕ → ℕ
unfolding deadline_state
shabal256_deadline_fast data' gensig =
    let b = (deadline_state data' gensig).b in at b 8 + at b 9 * 2 ^ 32
