-- ===== src/Shabal/Dl.antt =====
-- poc/src/shabal256.rs: the variants with two half blocks do what the general ones do on the
-- joined block.
use conjugate_poc.Common.{
  ℕ, ◌+◌, ◌<◌, ◌≡◌, refl, sym, ap, ◌∙◌, arith, List, [], ◌∷◌, ◌++◌, ◌⊎◌, inl, inr, length, All,
  get_or-append_left, get_or-append_right,
}
use conjugate_poc.Shabal.State.{
  State, at, input_block_add, input_block_sub, input_block_add_dl, input_block_sub_dl,
}
use conjugate_poc.Shabal.Perm.{
  Arrays, Call, call, run_call, run_calls, perm, perm_dl, perm_dl_calls, dl_word,
}
use conjugate_poc.Shabal.Hash.{apply_p, apply_p_dl}

-- Where a word of the half blocks stands in the joined block.
abbrev flat : ℕ ⊎ ℕ → ℕ
flat (inl i) = i
flat (inr i) = 8 + i

abbrev InHalf : ℕ ⊎ ℕ → Type 0
InHalf (inl i) = i < 8
InHalf (inr i) = Unit

abbrev ReadsHalf : Call (ℕ ⊎ ℕ) → Type 0
ReadsHalf (call _ _ _ _ _ _ _ m) = InHalf m

abbrev flatten_calls : List (Call (ℕ ⊎ ℕ)) → List (Call ℕ)
flatten_calls [] = []
flatten_calls (call a0 a1 b0 b1 b2 b3 c m ∷ ks) =
    call a0 a1 b0 b1 b2 b3 c (flat m) ∷ flatten_calls ks

module _ (c data_a data_b : List ℕ) (half : length data_a ≡ 8) where
  dl_word-append : (m : ℕ ⊎ ℕ) → InHalf m → dl_word data_a data_b m ≡ at (data_a ++ data_b) (flat m)
  dl_word-append (inl i) h = sym (get_or-append_left data_a data_b i 0 (omega arith))
  dl_word-append (inr i) h = sym (
      get_or-append_right data_a data_b (8 + i) 0 (omega arith)
      ∙ ap (λ (t : ℕ). at data_b t) (omega arith))

  run_calls-flatten :
      (ks : List (Call (ℕ ⊎ ℕ))) (s : Arrays)
      → All ReadsHalf ks
      → run_calls c (dl_word data_a data_b) ks s
        ≡ run_calls c (at (data_a ++ data_b)) (flatten_calls ks) s
  unfolding run_calls run_call
  run_calls-flatten [] s h = refl
  run_calls-flatten (call a0 a1 b0 b1 b2 b3 xc m ∷ ks) s h =
      rw (dl_word-append m h.0) (run_calls-flatten ks _ h.1)

  perm_dl-append : (s : Arrays) → perm_dl c data_a data_b s ≡ perm c (data_a ++ data_b) s
  unfolding perm_dl perm
  perm_dl-append s = run_calls-flatten perm_dl_calls s (omega arith)

pub apply_p_dl-append :
    (data_a data_b : List ℕ) (s : State)
    → length data_a ≡ 8
    → apply_p_dl data_a data_b s ≡ apply_p (data_a ++ data_b) s
unfolding apply_p_dl apply_p
apply_p_dl-append data_a data_b s h = rw (perm_dl-append s.c data_a data_b h)

pub input_block_add_dl-append :
    (b data_a data_b : List ℕ)
    → length b ≡ 16
    → length data_a ≡ 8
    → length data_b ≡ 8
    → input_block_add_dl b data_a data_b ≡ input_block_add b (data_a ++ data_b)
unfolding input_block_add_dl input_block_add
input_block_add_dl-append
      (x0 ∷ x1 ∷ x2 ∷ x3 ∷ x4 ∷ x5 ∷ x6 ∷ x7 ∷ x8 ∷ x9 ∷ x10 ∷ x11 ∷ x12 ∷ x13 ∷ x14 ∷ x15 ∷ [])
      (d0 ∷ d1 ∷ d2 ∷ d3 ∷ d4 ∷ d5 ∷ d6 ∷ d7 ∷ []) (e0 ∷ e1 ∷ e2 ∷ e3 ∷ e4 ∷ e5 ∷ e6 ∷ e7 ∷ []) h p
      q =
    refl
input_block_add_dl-append _ _ _ h p q = absurd (omega arith)

pub input_block_sub_dl-append :
    (b data_a data_b : List ℕ)
    → length b ≡ 16
    → length data_a ≡ 8
    → length data_b ≡ 8
    → input_block_sub_dl b data_a data_b ≡ input_block_sub b (data_a ++ data_b)
unfolding input_block_sub_dl input_block_sub
input_block_sub_dl-append
      (x0 ∷ x1 ∷ x2 ∷ x3 ∷ x4 ∷ x5 ∷ x6 ∷ x7 ∷ x8 ∷ x9 ∷ x10 ∷ x11 ∷ x12 ∷ x13 ∷ x14 ∷ x15 ∷ [])
      (d0 ∷ d1 ∷ d2 ∷ d3 ∷ d4 ∷ d5 ∷ d6 ∷ d7 ∷ []) (e0 ∷ e1 ∷ e2 ∷ e3 ∷ e4 ∷ e5 ∷ e6 ∷ e7 ∷ []) h p
      q =
    refl
input_block_sub_dl-append _ _ _ h p q = absurd (omega arith)
