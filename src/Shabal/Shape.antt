-- ===== src/Shabal/Shape.antt =====
-- The lengths and the word bounds of the arrays through the rounds of poc/src/shabal256.rs.
use conjugate_poc.Common.{
  ℕ, suc, ◌-◌, ◌*◌, ◌<◌, ◌≡◌, refl, ap, ◌∙◌, arith, List, [], ◌∷◌, map, length, length-set, All,
  All-set, length-map,
}
use conjugate_poc.Shabal.Word.{word_size, add32, sub32, rotl32, not32, words_of}
use conjugate_poc.Shabal.Bits.{rotl32_lt}
use conjugate_poc.Shabal.State.{input_block_add, input_block_sub, rotate_b, add_c, xor_w}
use conjugate_poc.Shabal.Perm.{Arrays, Call, call, elt_b, perm_elt, run_call, run_calls}

abbrev pub IsWord : ℕ → Type 0
IsWord w = w < word_size

abbrev pub IsByte : ℕ → Type 0
IsByte x = x < 256

-- `n` words.
pub record IsArray (n : ℕ) (xs : List ℕ) : Type 0 where
  pub size : length xs ≡ n
  pub words : All IsWord xs

add32_lt : (x y : ℕ) → IsWord (add32 x y)
unfolding add32
add32_lt x y = omega arith

sub32_lt : (x y : ℕ) → IsWord (sub32 x y)
unfolding sub32
sub32_lt x y = omega arith

pub not32_lt : (x : ℕ) → IsWord (not32 x)
unfolding not32
not32_lt x = omega arith

length-input_block_add : (b d : List ℕ) → length (input_block_add b d) ≡ length b
unfolding input_block_add
length-input_block_add [] d = refl
length-input_block_add (x ∷ b) [] = refl
length-input_block_add (x ∷ b) (y ∷ d) = ap suc (length-input_block_add b d)

All-input_block_add : (b d : List ℕ) → All IsWord b → All IsWord (input_block_add b d)
unfolding input_block_add
All-input_block_add [] d p = tt
All-input_block_add (x ∷ b) [] p = p
All-input_block_add (x ∷ b) (y ∷ d) p = (add32_lt x y, All-input_block_add b d p.1)

length-input_block_sub : (c d : List ℕ) → length (input_block_sub c d) ≡ length c
unfolding input_block_sub
length-input_block_sub [] d = refl
length-input_block_sub (x ∷ c) [] = refl
length-input_block_sub (x ∷ c) (y ∷ d) = ap suc (length-input_block_sub c d)

All-input_block_sub : (c d : List ℕ) → All IsWord c → All IsWord (input_block_sub c d)
unfolding input_block_sub
All-input_block_sub [] d p = tt
All-input_block_sub (x ∷ c) [] p = p
All-input_block_sub (x ∷ c) (y ∷ d) p = (sub32_lt x y, All-input_block_sub c d p.1)

All-rotate : (b : List ℕ) → All IsWord b → All IsWord (map (λ x. rotl32 x 17) b)
All-rotate [] p = tt
All-rotate (x ∷ b) p = (rotl32_lt x p.0, All-rotate b p.1)

pub input_block_add-IsArray :
    {n : ℕ} {b : List ℕ} (d : List ℕ) → IsArray n b → IsArray n (input_block_add b d)
input_block_add-IsArray {n} {b} d h = record {
  size = length-input_block_add b d ∙ h.size;
  words = All-input_block_add b d h.words;
}

pub input_block_sub-IsArray :
    {n : ℕ} {c : List ℕ} (d : List ℕ) → IsArray n c → IsArray n (input_block_sub c d)
input_block_sub-IsArray {n} {c} d h = record {
  size = length-input_block_sub c d ∙ h.size;
  words = All-input_block_sub c d h.words;
}

pub rotate_b-IsArray : {n : ℕ} {b : List ℕ} → IsArray n b → IsArray n (rotate_b b)
unfolding rotate_b
rotate_b-IsArray {n} {b} h = record {
  size = length-map b (λ x. rotl32 x 17) ∙ h.size;
  words = All-rotate b h.words;
}

-- What `perm` keeps: the lengths, and the bound of the words of `b`.
pub record IsPermuted (m n : ℕ) (s : Arrays) : Type 0 where
  pub size_a : length s.a ≡ m
  pub b : IsArray n s.b

perm_elt-IsPermuted :
    (s : Arrays) (xa0 xa1 xb0 xb1 xb2 xb3 xc xm : ℕ) {m n : ℕ}
    → IsPermuted m n s
    → IsPermuted m n (perm_elt s xa0 xa1 xb0 xb1 xb2 xb3 xc xm)
unfolding perm_elt elt_b
perm_elt-IsPermuted s xa0 xa1 xb0 xb1 xb2 xb3 xc xm h = record {
  size_a = length-set s.a xa0 _ ∙ h.size_a;
  b = record {
    size = length-set s.b xb0 _ ∙ h.b.size;
    words = All-set IsWord s.b xb0 _ h.b.words (not32_lt _);
  };
}

pub run_calls-IsPermuted :
    {M : Type 0} (c : List ℕ) (word : M → ℕ) (ks : List (Call M)) (s : Arrays) {m n : ℕ}
    → IsPermuted m n s
    → IsPermuted m n (run_calls c word ks s)
unfolding run_calls run_call
run_calls-IsPermuted c word [] s h = h
run_calls-IsPermuted c word (call xa0 xa1 xb0 xb1 xb2 xb3 xc xm ∷ ks) s h =
    run_calls-IsPermuted c word ks _ (perm_elt-IsPermuted s xa0 xa1 xb0 xb1 xb2 xb3 _ _ h)

pub add_c-IsArray : (a c : List ℕ) → IsArray 12 (add_c a c)
unfolding add_c add32
add_c-IsArray a c = record { size = refl; words = omega arith }

pub length-xor_w : (a : List ℕ) (l h : ℕ) → length (xor_w a l h) ≡ length a
unfolding xor_w
length-xor_w a l h = length-set _ 1 _ ∙ length-set a 0 _

pub length-words_of : (k : ℕ) (xs : List ℕ) → length xs ≡ 4 * k → length (words_of xs) ≡ k
unfolding words_of
length-words_of k (x ∷ y ∷ z ∷ w ∷ xs) e =
    let ih : length (words_of xs) ≡ k - 1 = length-words_of (k - 1) xs (omega arith) in omega arith
length-words_of k [] e = omega arith
length-words_of k _ e = absurd (omega arith)

All-words_of : (xs : List ℕ) → All IsByte xs → All IsWord (words_of xs)
unfolding words_of
All-words_of (x ∷ y ∷ z ∷ w ∷ xs) p = (omega arith, All-words_of xs p.1.1.1.1)
All-words_of [] p = tt
All-words_of _ p = tt
