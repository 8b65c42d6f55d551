-- ===== src/Shabal/State.antt =====
-- poc/src/shabal256.rs: the state words and what the rounds do to them apart from `perm`. The
-- arrays are lists; an index that the source writes out is read by `at`.
use conjugate_poc.Common.{ℕ, ◌==◌, if◌then◌else◌, List, [], ◌∷◌, map, get_or, set}
use conjugate_poc.Shabal.Word.{add32, sub32, rotl32, ◌^^◌}

abbrev pub a_init : List ℕ
a_init =
    0x52F84552 ∷ 0xE54B7999 ∷ 0x2D8EE3EC ∷ 0xB9645191 ∷ 0xE0078B86 ∷ 0xBB7C44C9 ∷ 0xD2B5C1CA
    ∷ 0xB0D2EB8C ∷ 0x14CE5A45 ∷ 0x22AF50DC ∷ 0xEFFDBC6B ∷ 0xEB21B74A ∷ []

abbrev pub b_init : List ℕ
b_init =
    0xB555C6EE ∷ 0x3E710596 ∷ 0xA72A652F ∷ 0x9301515F ∷ 0xDA28C1FA ∷ 0x696FD868 ∷ 0x9CB6BF72
    ∷ 0x0AFE4002 ∷ 0xA6E03615 ∷ 0x5138C1D4 ∷ 0xBE216306 ∷ 0xB38B8890 ∷ 0x3EA8B96B ∷ 0x3299ACE4
    ∷ 0x30924DD4 ∷ 0x55CB34A5 ∷ []

abbrev pub c_init : List ℕ
c_init =
    0xB405F031 ∷ 0xC4233EBA ∷ 0xB3733979 ∷ 0xC0DD9D55 ∷ 0xC51C28AE ∷ 0xA327B8E1 ∷ 0x56C56167
    ∷ 0xED614433 ∷ 0x88B59D60 ∷ 0x60E2CEBA ∷ 0x758B4B8B ∷ 0x83E82A7F ∷ 0xBC968828 ∷ 0xE6E00BF7
    ∷ 0xBA839E55 ∷ 0x9B491C60 ∷ []

-- `xs[i]`.
abbrev pub at : List ℕ → ℕ → ℕ
at xs i = get_or xs i 0

-- The three arrays and the two halves of the block counter.
pub record State : Type 0 where
  pub a : List ℕ
  pub b : List ℕ
  pub c : List ℕ
  pub w_low : ℕ
  pub w_high : ℕ

abbrev pub init : State
init = record { a = a_init; b = b_init; c = c_init; w_low = 1; w_high = 0 }

-- `zip` stops at the shorter; what is left of `b` stays.
unfoldable pub input_block_add : List ℕ → List ℕ → List ℕ
input_block_add [] data' = []
input_block_add (x ∷ b) [] = x ∷ b
input_block_add (x ∷ b) (d ∷ data') = add32 x d ∷ input_block_add b data'

unfoldable pub input_block_sub : List ℕ → List ℕ → List ℕ
input_block_sub [] data' = []
input_block_sub (x ∷ c) [] = x ∷ c
input_block_sub (x ∷ c) (d ∷ data') = sub32 x d ∷ input_block_sub c data'

unfoldable pub input_block_add_dl : List ℕ → List ℕ → List ℕ → List ℕ
input_block_add_dl b data_a data_b =
    add32 (at b 0) (at data_a 0)
    ∷ add32 (at b 1) (at data_a 1)
    ∷ add32 (at b 2) (at data_a 2)
    ∷ add32 (at b 3) (at data_a 3)
    ∷ add32 (at b 4) (at data_a 4)
    ∷ add32 (at b 5) (at data_a 5)
    ∷ add32 (at b 6) (at data_a 6)
    ∷ add32 (at b 7) (at data_a 7)
    ∷ add32 (at b 8) (at data_b 0)
    ∷ add32 (at b 9) (at data_b 1)
    ∷ add32 (at b 10) (at data_b 2)
    ∷ add32 (at b 11) (at data_b 3)
    ∷ add32 (at b 12) (at data_b 4)
    ∷ add32 (at b 13) (at data_b 5)
    ∷ add32 (at b 14) (at data_b 6)
    ∷ add32 (at b 15) (at data_b 7)
    ∷ []

unfoldable pub input_block_sub_dl : List ℕ → List ℕ → List ℕ → List ℕ
input_block_sub_dl b data_a data_b =
    sub32 (at b 0) (at data_a 0)
    ∷ sub32 (at b 1) (at data_a 1)
    ∷ sub32 (at b 2) (at data_a 2)
    ∷ sub32 (at b 3) (at data_a 3)
    ∷ sub32 (at b 4) (at data_a 4)
    ∷ sub32 (at b 5) (at data_a 5)
    ∷ sub32 (at b 6) (at data_a 6)
    ∷ sub32 (at b 7) (at data_a 7)
    ∷ sub32 (at b 8) (at data_b 0)
    ∷ sub32 (at b 9) (at data_b 1)
    ∷ sub32 (at b 10) (at data_b 2)
    ∷ sub32 (at b 11) (at data_b 3)
    ∷ sub32 (at b 12) (at data_b 4)
    ∷ sub32 (at b 13) (at data_b 5)
    ∷ sub32 (at b 14) (at data_b 6)
    ∷ sub32 (at b 15) (at data_b 7)
    ∷ []

unfoldable pub xor_w : List ℕ → ℕ → ℕ → List ℕ
xor_w a w_low w_high = let a' = set a 0 (at a 0 ^^ w_low) in set a' 1 (at a' 1 ^^ w_high)

-- `incr_w`: the new low and high halves.
unfoldable pub incr_w : State → State
incr_w s =
    let low = add32 s.w_low 1 in
    record s { w_low = low; w_high = if low == 0 then add32 s.w_high 1 else s.w_high }

unfoldable pub swap_bc : State → State
swap_bc s = record s { b = s.c; c = s.b }

-- The loop at the head of `apply_p`.
unfoldable pub rotate_b : List ℕ → List ℕ
rotate_b b = map (λ x. rotl32 x 17) b

-- The three words of `c` that `apply_p` adds to a word of `a`, in the order of the source.
abbrev add_three : List ℕ → ℕ → ℕ → ℕ → ℕ → ℕ
add_three c x i j k = add32 (add32 (add32 x (at c i)) (at c j)) (at c k)

-- The twelve assignments at the end of `apply_p`.
unfoldable pub add_c : List ℕ → List ℕ → List ℕ
add_c a c =
    add_three c (at a 0) 11 15 3
    ∷ add_three c (at a 1) 12 0 4
    ∷ add_three c (at a 2) 13 1 5
    ∷ add_three c (at a 3) 14 2 6
    ∷ add_three c (at a 4) 15 3 7
    ∷ add_three c (at a 5) 0 4 8
    ∷ add_three c (at a 6) 1 5 9
    ∷ add_three c (at a 7) 2 6 10
    ∷ add_three c (at a 8) 3 7 11
    ∷ add_three c (at a 9) 4 8 12
    ∷ add_three c (at a 10) 5 9 13
    ∷ add_three c (at a 11) 6 10 14
    ∷ []
