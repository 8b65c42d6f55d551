-- ===== src/Shabal/Hash/Bounds.antt =====
-- poc/src/shabal256.rs: what the rounds keep of the state, and the ranges of the results.
use conjugate_poc.Common.{
  ℕ, zero, suc, ◌*◌, ◌/◌, ◌≡◌, refl, ◌∙◌, arith, List, [], ◌∷◌, length, take, drop, length-take,
  length-drop, All,
}
use conjugate_poc.Shabal.Word.{bytes_of}
use conjugate_poc.Shabal.State.{State, init, at, input_block_add, incr_w, swap_bc}
use conjugate_poc.Shabal.Perm.{perm}
use conjugate_poc.Shabal.Shape.{
  IsByte, IsArray, input_block_add-IsArray, input_block_sub-IsArray, rotate_b-IsArray,
  run_calls-IsPermuted, add_c-IsArray, length-xor_w,
}
use conjugate_poc.Shabal.Hash.{
  apply_p, xor_state, absorb, absorb_all, final_round, final_rounds, hash_state,
  shabal256_hash_fast,
}

pub record IsShaped (s : State) : Type 0 where
  pub size_a : length s.a ≡ 12
  pub b : IsArray 16 s.b
  pub c : IsArray 16 s.c

pub init-IsShaped : IsShaped init
init-IsShaped = record {
  size_a = refl;
  b = record { size = refl; words = omega arith };
  c = record { size = refl; words = omega arith };
}

pub apply_p-IsShaped : (d : List ℕ) (s : State) → IsShaped s → IsShaped (apply_p d s)
unfolding apply_p perm
apply_p-IsShaped d s h =
    let r =
      run_calls-IsPermuted s.c (at d) _ _ {m = 12} {n = 16}
        (record { size_a = h.size_a; b = rotate_b-IsArray h.b }) in
    record { size_a = (add_c-IsArray _ s.c).size; b = r.b; c = h.c }

pub xor_state-IsShaped : (s : State) → IsShaped s → IsShaped (xor_state s)
unfolding xor_state
xor_state-IsShaped s h = record {
  size_a = length-xor_w s.a s.w_low s.w_high ∙ h.size_a;
  b = h.b;
  c = h.c;
}

pub add_b-IsShaped :
    (d : List ℕ) (s : State) → IsShaped s → IsShaped (record s { b = input_block_add s.b d })
add_b-IsShaped d s h = record { size_a = h.size_a; b = input_block_add-IsArray d h.b; c = h.c }

pub absorb-IsShaped : (d : List ℕ) (s : State) → IsShaped s → IsShaped (absorb d s)
unfolding absorb swap_bc incr_w
absorb-IsShaped d s h =
    let r = apply_p-IsShaped d _ (xor_state-IsShaped _ (add_b-IsShaped d s h)) in
    record { size_a = r.size_a; b = input_block_sub-IsArray d r.c; c = r.b }

pub absorb_all-IsShaped :
    (num : ℕ) (d : List ℕ) (s : State) → IsShaped s → IsShaped (absorb_all num d s)
unfolding absorb_all
absorb_all-IsShaped zero d s h = h
absorb_all-IsShaped (suc num) d s h =
    absorb_all-IsShaped num (drop 16 d) (absorb d s) (absorb-IsShaped d s h)

pub final_round-IsShaped :
    (d : List ℕ) (s : State) → IsShaped s → IsShaped (final_round (apply_p d) s)
unfolding final_round swap_bc
final_round-IsShaped d s h =
    apply_p-IsShaped d _ (xor_state-IsShaped _ (record { size_a = h.size_a; b = h.c; c = h.b }))

final_rounds-IsShaped :
    (d : List ℕ) (s : State) → IsShaped s → IsShaped (final_rounds (apply_p d) s)
unfolding final_rounds
final_rounds-IsShaped d s h =
    let round = final_round-IsShaped d in
    round _ (round _ (round _ (apply_p-IsShaped d _ (xor_state-IsShaped s h))))

pub hash_state-IsShaped : (d term : List ℕ) → IsShaped (hash_state d term)
unfolding hash_state
hash_state-IsShaped d term =
    final_rounds-IsShaped term _
      (add_b-IsShaped term _ (absorb_all-IsShaped (length d / 64) _ init init-IsShaped))

length-bytes_of : (ws : List ℕ) → length (bytes_of ws) ≡ 4 * length ws
unfolding bytes_of
length-bytes_of [] = refl
length-bytes_of (w ∷ ws) = omega (arith, length-bytes_of ws)

All-bytes_of : (ws : List ℕ) → All IsByte (bytes_of ws)
unfolding bytes_of
All-bytes_of [] = tt
All-bytes_of (w ∷ ws) = (omega arith, (omega arith, (omega arith, (omega arith, All-bytes_of ws))))

-- Whatever the data and the last block, the hash is 32 bytes.
pub hash-IsHash :
    (d term : List ℕ)
    → (length (shabal256_hash_fast d term) ≡ 32) × All IsByte (shabal256_hash_fast d term)
unfolding shabal256_hash_fast
hash-IsHash d term = (
  (let size = (hash_state-IsShaped d term).b.size in
      let b = (hash_state d term).b in
      omega
        (arith, length-bytes_of (take 8 (drop 8 b)), length-take 8 (drop 8 b), length-drop 8 b)),
  All-bytes_of _,
)
