-- ===== src/Poc/Capacity/Panics.antt =====
-- poc/src/lib.rs: `decode_gensig` gives the raw bytes of the signature to `hex::decode`, so no call
-- that reaches it returns.
use conjugate_poc.Common.{
  ℕ, ◌+◌, ◌-◌, ◌*◌, ◌%◌, ◌^◌, ◌==◌, ltb, leb, ◌&&◌, ◌⊎◌, ◌≡◌, ◌≢◌, refl, arith, inl, inr, true,
  Bool-cases, Option-cases, List, Option, none, some, length, ok, panic,
}
use conjugate_poc.Common.Panic.{◌>>=◌, copy_into_size}
use conjugate_poc.Primitives.{algorithm_identifier}
use conjugate_poc.Poc.Bytes.{same_bytes}
use conjugate_poc.Poc.Codec.{Codec, Halves}
use conjugate_poc.Poc.Capacity.{
  NonceData, decode_gensig, zeros, poc_verify, poc_mine, mine_file, name_part, plot_name,
  check_nonce,
}

module _ (hex_decode : List ℕ → Option (List ℕ)) (halves : Halves hex_decode) where
  -- If `hex::decode` makes one byte of two characters, `decode_gensig` panics on every 32-byte hash.
  decode_gensig_panics :
      (gensig : List ℕ) → length gensig ≡ 32 → decode_gensig hex_decode gensig ≡ none
  unfolding decode_gensig
  decode_gensig_panics gensig h = elim (Option-cases (hex_decode gensig)) [
    | inl bad ↦ rw bad
    | inr (bytes, e) ↦ rw (e, copy_into_size (zeros 32) 0 32 bytes (wrong_size bytes e))
  ]
    where
      wrong_size : (bytes : List ℕ) → hex_decode gensig ≡ some bytes → length bytes ≢ 32 - 0
      wrong_size bytes e = omega (arith, halves gensig bytes e)

  module _ (codec : Codec NonceData) where
    checked_panics :
        (n : NonceData) (base_target : ℕ)
        → length n.generation_sig ≡ 32
        → (decode_gensig hex_decode n.generation_sig >>= check_nonce n base_target) ≡ none
    checked_panics n base_target h = rw (decode_gensig_panics n.generation_sig h)

    -- If `hex::decode` makes one byte of two characters and decoded nonce data has a 32-byte
    -- generation signature, `poc_verify` never returns `Ok(true)`: it accepts no block.
    pub poc_verify-ne-true :
        (identifier : Option (List ℕ)) (nonce_data : List ℕ) (base_target : ℕ)
        → ((n : NonceData) → codec.decode nonce_data ≡ some n → length n.generation_sig ≡ 32)
        → poc_verify codec hex_decode identifier nonce_data base_target ≢ ok true
    unfolding poc_verify
    poc_verify-ne-true none nonce_data base_target h = cc
    poc_verify-ne-true (some identifier) nonce_data base_target h =
        elim (Bool-cases (same_bytes identifier algorithm_identifier)) [
          | inl same ↦ elim (Option-cases (codec.decode nonce_data)) [
            | inl bad ↦ rw (same, bad) (cc)
            | inr (n, e) ↦ rw (same, e, checked_panics n base_target (h n e)) (cc)
          ]
          | inr other ↦ rw other (cc)
        ]

    mine_file_panics :
        (account_id start_nonce nonces base_target : ℕ) (file generation_sig : List ℕ)
        → length generation_sig ≡ 32
        → (mine_file codec hex_decode account_id start_nonce nonces file generation_sig base_target
            ≡ some none)
          ⊎ (mine_file codec hex_decode account_id start_nonce nonces file generation_sig
                base_target
              ≡ none)
    unfolding mine_file
    mine_file_panics account_id start_nonce nonces base_target file generation_sig h =
        elim (Bool-cases (length file == (nonces * 4096 * 64) % 2 ^ 64)) [
          | inl full ↦ elim (Bool-cases (leb start_nonce 1 && ltb 1 (start_nonce + nonces))) [
            | inl inside ↦ inr (rw (full, inside, decode_gensig_panics generation_sig h))
            | inr outside ↦ inl (rw (full, outside))
          ]
          | inr other ↦ inl (rw other)
        ]

    name_parts :
        (name_part plot_name 0 ≡ some 10790126960500947771)
        × (name_part plot_name 1 ≡ some 1)
        × (name_part plot_name 2 ≡ some 4096)
    unfolding name_part
    name_parts = (refl, refl, refl)

    -- If `hex::decode` makes one byte of two characters, `poc_mine` on a 32-byte generation signature
    -- never mines: it returns `Ok(None)` or panics, whatever the plot file holds.
    pub poc_mine-never :
        (plotfile : Option (List ℕ)) (generation_sig : List ℕ) (base_target : ℕ)
        → length generation_sig ≡ 32
        → (poc_mine codec hex_decode plotfile generation_sig base_target ≡ ok none)
          ⊎ (poc_mine codec hex_decode plotfile generation_sig base_target ≡ panic)
    unfolding poc_mine
    poc_mine-never none generation_sig base_target h = inl refl
    poc_mine-never (some file) generation_sig base_target h =
        elim (mine_file_panics 10790126960500947771 1 4096 base_target file generation_sig h) [
          | inl nothing ↦ inl (rw (name_parts.0, name_parts.1, name_parts.2, nothing))
          | inr stops ↦ inr (rw (name_parts.0, name_parts.1, name_parts.2, stops))
        ]
