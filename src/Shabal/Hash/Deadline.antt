-- ===== src/Shabal/Hash/Deadline.antt =====
-- poc/src/shabal256.rs: `shabal256_deadline_fast` is `shabal256_hash_fast` on the joined message.
use mathlib.Core.Path.{fun_ext}
use conjugate_poc.Common.{
  ℕ, ◌+◌, ◌-◌, ◌*◌, ◌/◌, ◌^◌, ◌<◌, ◌≤◌, ◌≡◌, refl, sym, ap, ap₂, ◌∙◌, arith, List, [], ◌∷◌, ◌++◌,
  length, take, drop, length-take, length-drop, length-append, All, All-take, All-drop, All-get_or,
  take-append, get_or-take, get_or-drop, drop-append, take-append-drop, get_or,
}
use conjugate_poc.Shabal.Word.{bytes_of, words_of}
use conjugate_poc.Shabal.State.{State, init, at}
use conjugate_poc.Shabal.Dl.{
  apply_p_dl-append, input_block_add_dl-append, input_block_sub_dl-append,
}
use conjugate_poc.Shabal.Shape.{IsWord, length-words_of}
use conjugate_poc.Shabal.Hash.{
  apply_p, apply_p_dl, xor_state, absorb, absorb_dl, absorb_all, final_rounds, hash_state,
  shabal256_hash_fast, deadline_state, shabal256_deadline_fast, term_dl,
}
use conjugate_poc.Shabal.Hash.Bounds.{IsShaped, init-IsShaped, absorb-IsShaped, hash_state-IsShaped}

-- Bytes that fill whole words are read apart from what follows.
words_of-append :
    (k : ℕ) (xs ys : List ℕ) → length xs ≡ 4 * k → words_of (xs ++ ys) ≡ words_of xs ++ words_of ys
unfolding words_of
words_of-append k (x ∷ y ∷ z ∷ w ∷ xs) ys e =
    ap (λ t. (x + y * 2 ^ 8 + z * 2 ^ 16 + w * 2 ^ 24) ∷ t)
      (words_of-append (k - 1) xs ys (omega arith))
words_of-append k [] ys e = refl
words_of-append k _ ys e = absurd (omega arith)

absorb_dl-append :
    (g d : List ℕ) (s : State)
    → length g ≡ 8
    → length d ≡ 8
    → IsShaped s
    → absorb_dl g d s ≡ absorb (g ++ d) s
unfolding absorb_dl absorb apply_p xor_state
absorb_dl-append g d s p q h = rw (
  input_block_add_dl-append s.b g d h.b.size p q,
  apply_p_dl-append g d _ p,
  input_block_sub_dl-append s.c g d h.c.size p q,
)

-- The two halves of the message: the first block is the signature and the first half of the
-- scoop, the last block the second half of the scoop and the padding.
module _ (gensig low high : List ℕ) (g : length gensig ≡ 32) (l : length low ≡ 32)
    (h : length high ≡ 32) where
  first_block : words_of (gensig ++ low) ≡ words_of gensig ++ words_of low
  first_block = words_of-append 8 gensig low g

  scoop_low : take 8 (words_of (low ++ high)) ≡ words_of low
  scoop_low =
      ap (λ t. take 8 t) (words_of-append 8 low high l)
      ∙ take-append 8 (words_of low) (words_of high) (length-words_of 8 low l)

  scoop_high : drop 8 (words_of (low ++ high)) ≡ words_of high
  scoop_high =
      ap (λ t. drop 8 t) (words_of-append 8 low high l)
      ∙ drop-append 8 (words_of low) (words_of high) (length-words_of 8 low l)

  one_block : length (gensig ++ low) / 64 ≡ 1
  one_block = omega (arith, length-append gensig low)

  absorb_all-one : (ws : List ℕ) (s : State) → absorb_all 1 ws s ≡ absorb ws s
  unfolding absorb_all
  absorb_all-one ws s = refl

  final_rounds-joined :
      (s : State)
      → final_rounds (apply_p_dl (words_of high) term_dl) s
        ≡ final_rounds (apply_p (words_of high ++ term_dl)) s
  final_rounds-joined s =
      ap (λ f. final_rounds f s)
        (fun_ext (λ t. apply_p_dl-append (words_of high) term_dl t (length-words_of 8 high h)))

  deadline_state-eq-hash_state :
      deadline_state (low ++ high) gensig ≡ hash_state (gensig ++ low) (words_of high ++ term_dl)
  unfolding deadline_state hash_state
  deadline_state-eq-hash_state =
      let gw = length-words_of 8 gensig g in
      let lw = length-words_of 8 low l in
      let hw = length-words_of 8 high h in
      let start = absorb-IsShaped (words_of gensig ++ words_of low) init init-IsShaped in
      rw (
        scoop_low,
        scoop_high,
        one_block,
        first_block,
        absorb_all-one _ init,
        absorb_dl-append (words_of gensig) (words_of low) init gw lw init-IsShaped,
        input_block_add_dl-append _ (words_of high) term_dl start.b.size hw refl,
        final_rounds-joined _,
      )

-- The first eight bytes of a byte string as a little-endian `u64`.
abbrev pub le_u64 : List ℕ → ℕ
le_u64 xs =
    let byte : ℕ → ℕ = λ i. get_or xs i 0 in
    byte 0
    + byte 1 * 2 ^ 8
    + byte 2 * 2 ^ 16
    + byte 3 * 2 ^ 24
    + byte 4 * 2 ^ 32
    + byte 5 * 2 ^ 40
    + byte 6 * 2 ^ 48
    + byte 7 * 2 ^ 56

le_u64-bytes_of :
    (ws : List ℕ)
    → All IsWord ws
    → 2 ≤ length ws
    → le_u64 (bytes_of ws) ≡ at ws 0 + at ws 1 * 2 ^ 32
unfolding bytes_of
le_u64-bytes_of (u ∷ v ∷ ws) p h = omega arith
le_u64-bytes_of _ p h = absurd (omega arith)

at-output : (i : ℕ) (b : List ℕ) → i < 8 → at (take 8 (drop 8 b)) i ≡ at b (8 + i)
at-output i b h = get_or-take 8 (drop 8 b) i 0 h ∙ get_or-drop 8 b i 0

-- The last block of the general hash.
abbrev pub last_block : List ℕ → List ℕ
last_block scoop = words_of (drop 32 scoop) ++ term_dl

abbrev joined : List ℕ → List ℕ → State
joined gensig scoop = hash_state (gensig ++ take 32 scoop) (last_block scoop)

deadline_state-eq-joined :
    (gensig scoop : List ℕ)
    → length gensig ≡ 32
    → length scoop ≡ 64
    → deadline_state scoop gensig ≡ joined gensig scoop
deadline_state-eq-joined gensig scoop g n =
    ap (λ t. deadline_state t gensig) (sym (take-append-drop 32 scoop))
    ∙ deadline_state-eq-hash_state gensig (take 32 scoop) (drop 32 scoop) g
        (omega (arith, length-take 32 scoop)) (omega (arith, length-drop 32 scoop))

-- The deadline of a 64-byte scoop under a 32-byte generation signature is the first eight bytes,
-- read as a little-endian `u64`, of the general hash of the signature and the first half of the
-- scoop, with the second half of the scoop and the padding as its last block.
pub deadline-eq-hash :
    (gensig scoop : List ℕ)
    → length gensig ≡ 32
    → length scoop ≡ 64
    → shabal256_deadline_fast scoop gensig
      ≡ le_u64 (shabal256_hash_fast (gensig ++ take 32 scoop) (last_block scoop))
unfolding shabal256_deadline_fast shabal256_hash_fast
deadline-eq-hash gensig scoop g n =
    let b = (joined gensig scoop).b in
    let shaped = (hash_state-IsShaped (gensig ++ take 32 scoop) (last_block scoop)).b in
    let out = take 8 (drop 8 b) in
    let bytes =
      le_u64-bytes_of out (All-take IsWord 8 _ (All-drop IsWord 8 b shaped.words))
        (omega (arith, shaped.size, length-take 8 (drop 8 b), length-drop 8 b)) in
    ap (λ (t : State). at t.b 8 + at t.b 9 * 2 ^ 32) (deadline_state-eq-joined gensig scoop g n)
    ∙ sym (
        bytes
        ∙ ap₂ (λ (x y : ℕ). x + y * 2 ^ 32) (at-output 0 b (omega arith))
            (at-output 1 b (omega arith)))

-- The deadline of a 64-byte scoop under a 32-byte generation signature fits a `u64`.
pub deadline_lt :
    (gensig scoop : List ℕ)
    → length gensig ≡ 32
    → length scoop ≡ 64
    → shabal256_deadline_fast scoop gensig < 2 ^ 64
unfolding shabal256_deadline_fast
deadline_lt gensig scoop g n =
    let words = (hash_state-IsShaped (gensig ++ take 32 scoop) (last_block scoop)).b.words in
    rw (deadline_state-eq-joined gensig scoop g n) (
      omega (
        arith,
        All-get_or IsWord _ 8 0 words (omega arith),
        All-get_or IsWord _ 9 0 words (omega arith),
      ))
