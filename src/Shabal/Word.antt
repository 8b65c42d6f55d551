-- ===== src/Shabal/Word.antt =====
-- poc/src/shabal256.rs: the operations on `u32`, and the casts between bytes and words. A word is
-- a number below 2 ^ 32. The casts are `transmute`s on a little-endian machine.
use Prim.Native.Nat.{bit_and, bit_or, bit_xor}
use conjugate_poc.Common.{ℕ, ◌+◌, ◌-◌, ◌*◌, ◌/◌, ◌%◌, ◌^◌, List, [], ◌∷◌}

abbrev pub word_size : ℕ
word_size = 2 ^ 32

-- `wrapping_add`, `wrapping_sub` and `wrapping_mul`.
unfoldable pub add32 : ℕ → ℕ → ℕ
add32 x y = (x + y) % word_size

unfoldable pub sub32 : ℕ → ℕ → ℕ
sub32 x y = (x + word_size - y) % word_size

unfoldable pub mul32 : ℕ → ℕ → ℕ
mul32 x y = (x * y) % word_size

-- `x.wrapping_shl(k) | x.wrapping_shr(32 - k)` for `0 < k < 32`.
unfoldable pub rotl32 : ℕ → ℕ → ℕ
rotl32 x k = bit_or ((x * 2 ^ k) % word_size) (x / 2 ^ (32 - k))

-- `!x`.
unfoldable pub not32 : ℕ → ℕ
not32 x = word_size - 1 - x

infixl 60 ◌^^◌
abbrev pub ◌^^◌ : ℕ → ℕ → ℕ
x ^^ y = bit_xor x y

abbrev pub and32 : ℕ → ℕ → ℕ
and32 x y = bit_and x y

-- A `u32` slice as bytes.
unfoldable pub bytes_of : List ℕ → List ℕ
bytes_of [] = []
bytes_of (w ∷ ws) =
    (w % 256) ∷ (w / 2 ^ 8 % 256) ∷ (w / 2 ^ 16 % 256) ∷ (w / 2 ^ 24 % 256) ∷ bytes_of ws

-- A byte slice read as `len / 4` words; what is left over is not read.
unfoldable pub words_of : List ℕ → List ℕ
words_of (a ∷ b ∷ c ∷ d ∷ rest) = (a + b * 2 ^ 8 + c * 2 ^ 16 + d * 2 ^ 24) ∷ words_of rest
words_of _ = []
