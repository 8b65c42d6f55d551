-- ===== src/Shabal/Tests.antt =====
-- The test of poc/src/shabal256.rs, run on the model.
use conjugate_poc.Common.{
  ℕ, ◌≡◌, refl, Bool, true, ◌&&◌, List, [], ◌∷◌, ◌++◌, replicate, take, arith,
}
use conjugate_poc.Poc.Bytes.{same_bytes, same_bytes_refl}
use conjugate_poc.Shabal.Inverse.{undo_perm, undo_perm-perm}
use conjugate_poc.Shabal.Hash.Deadline.{deadline-eq-hash, le_u64, last_block}
use conjugate_poc.Shabal.Hash.Refines.{reference_hash, shabal256_hash_fast-eq-reference_hash}
use conjugate_poc.Shabal.Word.{add32, sub32, mul32, rotl32, not32, bytes_of, words_of}
use conjugate_poc.Shabal.State.{
  input_block_add, input_block_sub, xor_w, incr_w, swap_bc, rotate_b, add_c,
}
use conjugate_poc.Shabal.Perm.{elt_a, elt_b, perm_elt, run_call, run_calls, perm, Arrays}
use conjugate_poc.Shabal.Hash.{
  apply_p, xor_state, absorb, absorb_all, final_rounds, hash_state, shabal256_hash_fast,
  shabal256_deadline_fast,
}

abbrev test_a_result : List ℕ
test_a_result =
    0xDA ∷ 0x8F ∷ 0x08 ∷ 0xC0 ∷ 0x2A ∷ 0x67 ∷ 0xBA ∷ 0x9A ∷ 0x56 ∷ 0xBD ∷ 0xD0 ∷ 0x79 ∷ 0x8E ∷ 0x48
    ∷ 0xAE ∷ 0x07 ∷ 0x14 ∷ 0x21 ∷ 0x5E ∷ 0x09 ∷ 0x3B ∷ 0x5B ∷ 0x85 ∷ 0x06 ∷ 0x49 ∷ 0xA3 ∷ 0x77
    ∷ 0x18 ∷ 0x99 ∷ 0x3F ∷ 0x54 ∷ 0xA2 ∷ []

abbrev test_b_result : List ℕ
test_b_result =
    0xB4 ∷ 0x9F ∷ 0x34 ∷ 0xBF ∷ 0x51 ∷ 0x86 ∷ 0x4C ∷ 0x30 ∷ 0x53 ∷ 0x3C ∷ 0xC4 ∷ 0x6C ∷ 0xC2 ∷ 0x54
    ∷ 0x2B ∷ 0xDE ∷ 0xC2 ∷ 0xF9 ∷ 0x6F ∷ 0xD0 ∷ 0x6F ∷ 0x5C ∷ 0x53 ∷ 0x9A ∷ 0xFF ∷ 0x6E ∷ 0xAD
    ∷ 0x58 ∷ 0x83 ∷ 0xF7 ∷ 0x32 ∷ 0x7A ∷ []

abbrev test_b_m1 : List ℕ
test_b_m1 =
    0x64636261 ∷ 0x68676665 ∷ 0x6C6B6A69 ∷ 0x706F6E6D ∷ 0x74737271 ∷ 0x78777675 ∷ 0x302D7A79
    ∷ 0x34333231 ∷ 0x38373635 ∷ 0x42412D39 ∷ 0x46454443 ∷ 0x4A494847 ∷ 0x4E4D4C4B ∷ 0x5251504F
    ∷ 0x56555453 ∷ 0x5A595857 ∷ []

abbrev test_b_m2 : List ℕ
test_b_m2 =
    0x3231302D ∷ 0x36353433 ∷ 0x2D393837 ∷ 0x64636261 ∷ 0x68676665 ∷ 0x6C6B6A69 ∷ 0x706F6E6D
    ∷ 0x74737271 ∷ 0x78777675 ∷ 0x00807A79 ∷ 0x00000000 ∷ 0x00000000 ∷ 0x00000000 ∷ 0x00000000
    ∷ 0x00000000 ∷ 0x00000000 ∷ []

hash_a : shabal256_hash_fast (replicate 64 0) (0x80 ∷ replicate 15 0) ≡ test_a_result
unfolding add32 sub32 mul32 rotl32 not32 bytes_of words_of input_block_add input_block_sub xor_w
    incr_w swap_bc rotate_b add_c elt_a elt_b perm_elt run_call run_calls perm apply_p xor_state
    absorb absorb_all final_rounds hash_state shabal256_hash_fast
hash_a = refl

hash_b : shabal256_hash_fast (bytes_of test_b_m1) test_b_m2 ≡ test_b_result
unfolding add32 sub32 mul32 rotl32 not32 bytes_of words_of input_block_add input_block_sub xor_w
    incr_w swap_bc rotate_b add_c elt_a elt_b perm_elt run_call run_calls perm apply_p xor_state
    absorb absorb_all final_rounds hash_state shabal256_hash_fast
hash_b = refl

-- The two assertions of `shabal256`.
unfoldable shabal256 : Bool
shabal256 =
    same_bytes (shabal256_hash_fast (replicate 64 0) (0x80 ∷ replicate 15 0)) test_a_result
    && same_bytes (shabal256_hash_fast (bytes_of test_b_m1) test_b_m2) test_b_result

shabal256_passes : shabal256 ≡ true
unfolding shabal256
shabal256_passes =
    rw (hash_a, hash_b, same_bytes_refl test_a_result, same_bytes_refl test_b_result) refl

abbrev test_a_term : List ℕ
test_a_term = 0x80 ∷ replicate 15 0

shabal256_hash_fast-eq-reference_hash_example :
    shabal256_hash_fast (replicate 64 0) test_a_term ≡ reference_hash (replicate 64 0) test_a_term
shabal256_hash_fast-eq-reference_hash_example =
    shabal256_hash_fast-eq-reference_hash (replicate 64 0) test_a_term

abbrev ones : Arrays
ones = record { a = replicate 12 1; b = replicate 16 1 }

undo_perm-perm_example : undo_perm test_b_m1 test_b_m2 (perm test_b_m1 test_b_m2 ones) ≡ ones
undo_perm-perm_example =
    undo_perm-perm test_b_m1 test_b_m2 ones (omega arith) (omega arith) (record {
      a = record { size = refl; words = omega arith };
      b = record { size = refl; words = omega arith };
    })

deadline-eq-hash_example :
    shabal256_deadline_fast (test_a_result ++ test_b_result) test_a_result
    ≡ le_u64 (
        shabal256_hash_fast
          (test_a_result ++ take 32 (test_a_result ++ test_b_result))
          (last_block (test_a_result ++ test_b_result)))
deadline-eq-hash_example = deadline-eq-hash test_a_result (test_a_result ++ test_b_result) refl refl
