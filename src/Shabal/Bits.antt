-- ===== src/Shabal/Bits.antt =====
-- The bit operations of poc/src/shabal256.rs keep the width of a word.
use Prim.Native.Nat.{digits, bit_or, bit_or-bitwise, bit_and, bit_and-bitwise, min}
use native.Mathlib.Nat.{le_refl, pow-suc}
use conjugate_poc.Common.{
  ℕ, zero, suc, ◌+◌, ◌*◌, ◌/◌, ◌%◌, ◌^◌, ◌≤◌, ◌<◌, max, ◌≡◌, refl, ap, arith,
}
use conjugate_poc.Shabal.Word.{rotl32, word_size}

-- The fuel of the digit recursion does not matter once it is enough.
pub digits_fuel :
    (z : ℕ → ℕ) (op : ℕ → ℕ → ℕ) (i j x y : ℕ)
    → x ≤ i
    → x ≤ j
    → digits z op i x y ≡ digits z op j x y
digits_fuel z op (suc i) (suc j) (suc x) y h k =
    rw (digits_fuel z op i j (suc x / 2) (y / 2) (omega arith) (omega arith))
digits_fuel z op zero j (suc x) y h k = absurd (omega arith)
digits_fuel z op (suc i) zero (suc x) y h k = absurd (omega arith)
digits_fuel z op zero zero zero y h k = refl
digits_fuel z op zero (suc j) zero y h k = refl
digits_fuel z op (suc i) zero zero y h k = refl
digits_fuel z op (suc i) (suc j) zero y h k = refl

bit_or_step : (x y : ℕ) → bit_or x y ≡ max (x % 2) (y % 2) + 2 * bit_or (x / 2) (y / 2)
bit_or_step zero y = simp bit_or-bitwise (omega arith)
bit_or_step (suc x) y = simp bit_or-bitwise (
    omega
      (arith, digits_fuel (λ t. t) max x (suc x / 2) (suc x / 2) (y / 2) (omega arith) (le_refl _)))

bit_or-lt : (k a b : ℕ) → a < 2 ^ k → b < 2 ^ k → bit_or a b < 2 ^ k
bit_or-lt zero zero zero p q = omega arith
bit_or-lt zero zero (suc b) p q = absurd (omega arith)
bit_or-lt zero (suc a) b p q = absurd (omega arith)
bit_or-lt (suc k) a b p q = omega (
  arith,
  bit_or_step a b,
  pow-suc 2 k,
  bit_or-lt k (a / 2) (b / 2) (omega (arith, pow-suc 2 k)) (omega (arith, pow-suc 2 k)),
)

or-zero_fuel : (n a : ℕ) → a ≤ n → bit_or a 0 ≡ a
or-zero_fuel n zero h = refl
or-zero_fuel zero (suc a) h = absurd (omega arith)
or-zero_fuel (suc n) (suc a) h =
    omega (arith, bit_or_step (suc a) 0, or-zero_fuel n (suc a / 2) (omega arith))

-- A rotation by one is a sum.
pub rotl32_one : (x : ℕ) → x < word_size → rotl32 x 1 ≡ (x * 2) % word_size + x / 2 ^ 31
unfolding rotl32
rotl32_one x h =
    let q = (x * 2) % word_size in
    let r = x / 2 ^ 31 in
    let none_left : r / 2 ≡ 0 = omega arith in
    omega (
      arith,
      bit_or_step q r,
      ap (λ (t : ℕ). bit_or (q / 2) t) none_left,
      or-zero_fuel (q / 2) (q / 2) (le_refl _),
    )

bit_and_step : (x y : ℕ) → bit_and x y ≡ min (x % 2) (y % 2) + 2 * bit_and (x / 2) (y / 2)
bit_and_step zero y = simp bit_and-bitwise (omega arith)
bit_and_step (suc x) y = simp bit_and-bitwise (
    omega
      (arith, digits_fuel (λ t. 0) min x (suc x / 2) (suc x / 2) (y / 2) (omega arith) (le_refl _)))

bit_and-le_fuel : (n a b : ℕ) → a ≤ n → bit_and a b ≤ a
bit_and-le_fuel n zero b h = omega (arith, bit_and-bitwise 0 b)
bit_and-le_fuel zero (suc a) b h = absurd (omega arith)
bit_and-le_fuel (suc n) (suc a) b h =
    omega (arith, bit_and_step (suc a) b, bit_and-le_fuel n (suc a / 2) (b / 2) (omega arith))

pub bit_and-le : (a b : ℕ) → bit_and a b ≤ a
bit_and-le a b = bit_and-le_fuel a a b (le_refl a)

pub rotl32_lt : (x : ℕ) → x < word_size → rotl32 x 17 < word_size
unfolding rotl32
rotl32_lt x h = bit_or-lt 32 _ _ (omega arith) (omega arith)

-- An even left operand: the lowest digit is that of the right one.
or_double : (x r : ℕ) → bit_or (x * 2) r ≡ bit_or x (r / 2) * 2 + r % 2
or_double x r =
    let half : x * 2 / 2 ≡ x = omega arith in
    omega (arith, bit_or_step (x * 2) r, ap (λ (t : ℕ). bit_or t (r / 2)) half)

-- A left operand shifted past the right one is added.
pub or_shifted : (k q r : ℕ) → r < 2 ^ k → bit_or (q * 2 ^ k) r ≡ q * 2 ^ k + r
or_shifted zero q zero h =
    let e : q * 1 ≡ q = omega arith in rw e (omega (arith, or-zero_fuel q q (le_refl q)))
or_shifted zero q (suc r) h = absurd (omega arith)
or_shifted (suc k) q r h =
    let twice : q * 2 ^ suc k ≡ q * 2 ^ k * 2 = rw (pow-suc 2 k) (omega arith) in
    let ih = or_shifted k q (r / 2) (omega (arith, pow-suc 2 k)) in
    rw (twice, or_double (q * 2 ^ k) r, ih) (omega arith)

and_zero_fuel : (n a : ℕ) → a ≤ n → bit_and a 0 ≡ 0
and_zero_fuel n zero h = refl
and_zero_fuel zero (suc a) h = absurd (omega arith)
and_zero_fuel (suc n) (suc a) h =
    omega (arith, bit_and_step (suc a) 0, and_zero_fuel n (suc a / 2) (omega arith))

-- The low four bits.
pub and_fifteen : (a : ℕ) → bit_and a 0x0f ≡ a % 16
and_fifteen a = omega (
  arith,
  bit_and_step a 15,
  bit_and_step (a / 2) 7,
  bit_and_step (a / 2 / 2) 3,
  bit_and_step (a / 2 / 2 / 2) 1,
  and_zero_fuel (a / 2 / 2 / 2 / 2) (a / 2 / 2 / 2 / 2) (le_refl _),
)
