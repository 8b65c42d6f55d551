-- ===== src/Shabal/Xor.antt =====
-- Exclusive or of words of any width: it is associative, each number is its own inverse, and it
-- keeps the width.
use Prim.Native.Nat.{differ, bit_xor-bitwise}
use native.Mathlib.Nat.{le_refl, pow-suc}
use conjugate_poc.Common.{
  ℕ, zero, suc, ◌+◌, ◌*◌, ◌/◌, ◌%◌, ◌^◌, ◌≤◌, ◌<◌, ◌≡◌, refl, sym, ap, ◌∙◌, arith,
}
use conjugate_poc.Shabal.Bits.{digits_fuel}
use conjugate_poc.Shabal.Word.{◌^^◌}

differ_lt : (p q : ℕ) → p < 2 → q < 2 → differ p q < 2
differ_lt zero q h k = k
differ_lt (suc zero) zero h k = omega arith
differ_lt (suc zero) (suc zero) h k = omega arith
differ_lt (suc zero) (suc (suc q)) h k = absurd (omega arith)
differ_lt (suc (suc p)) q h k = absurd (omega arith)

differ_assoc : (p q r : ℕ) → p < 2 → q < 2 → r < 2 → differ (differ p q) r ≡ differ p (differ q r)
differ_assoc zero q r h k l = refl
differ_assoc (suc zero) zero r h k l = refl
differ_assoc (suc zero) (suc zero) zero h k l = refl
differ_assoc (suc zero) (suc zero) (suc zero) h k l = refl
differ_assoc (suc zero) (suc zero) (suc (suc r)) h k l = absurd (omega arith)
differ_assoc (suc zero) (suc (suc q)) r h k l = absurd (omega arith)
differ_assoc (suc (suc p)) q r h k l = absurd (omega arith)

differ_self : (p : ℕ) → differ p p ≡ 0
differ_self zero = refl
differ_self (suc p) = differ_self p

xor_step : (a b : ℕ) → a ^^ b ≡ (a / 2 ^^ b / 2) * 2 + differ (a % 2) (b % 2)
xor_step zero b = simp bit_xor-bitwise (omega arith)
xor_step (suc a) b = simp bit_xor-bitwise (
    omega (
      arith,
      digits_fuel (λ y. y) differ a (suc a / 2) (suc a / 2) (b / 2) (omega arith) (le_refl _),
    ))

xor-half : (a b : ℕ) → (a ^^ b) / 2 ≡ (a / 2 ^^ b / 2)
xor-half a b = omega (arith, xor_step a b, differ_lt (a % 2) (b % 2) (omega arith) (omega arith))

xor-low : (a b : ℕ) → (a ^^ b) % 2 ≡ differ (a % 2) (b % 2)
xor-low a b = omega (arith, xor_step a b, differ_lt (a % 2) (b % 2) (omega arith) (omega arith))

eq_of_digits : (a b : ℕ) → a / 2 ≡ b / 2 → a % 2 ≡ b % 2 → a ≡ b
eq_of_digits a b h k = omega arith

zero-xor : (a : ℕ) → (0 ^^ a) ≡ a
zero-xor a = bit_xor-bitwise 0 a

xor-self_fuel : (n a : ℕ) → a ≤ n → (a ^^ a) ≡ 0
xor-self_fuel n zero h = refl
xor-self_fuel zero (suc a) h = absurd (omega arith)
xor-self_fuel (suc n) (suc a) h = omega (
  arith,
  xor_step (suc a) (suc a),
  differ_self (suc a % 2),
  xor-self_fuel n (suc a / 2) (omega arith),
)

xor_self : (a : ℕ) → (a ^^ a) ≡ 0
xor_self a = xor-self_fuel a a (le_refl a)

xor_assoc_fuel : (n a b c : ℕ) → a ≤ n → (a ^^ b ^^ c) ≡ (a ^^ (b ^^ c))
xor_assoc_fuel n zero b c h = rw (zero-xor b, zero-xor (b ^^ c))
xor_assoc_fuel zero (suc a) b c h = absurd (omega arith)
xor_assoc_fuel (suc n) (suc a) b c h =
    eq_of_digits _ _ (simp xor-half (xor_assoc_fuel n (suc a / 2) (b / 2) (c / 2) (omega arith))) (
      simp xor-low
        (differ_assoc (suc a % 2) (b % 2) (c % 2) (omega arith) (omega arith) (omega arith)))

xor_assoc : (a b c : ℕ) → (a ^^ b ^^ c) ≡ (a ^^ (b ^^ c))
xor_assoc a b c = xor_assoc_fuel a a b c (le_refl a)

xor-zero : (a : ℕ) → (a ^^ 0) ≡ a
xor-zero a =
    ap (λ (t : ℕ). a ^^ t) (sym (xor_self a))
    ∙ sym (xor_assoc a a a)
    ∙ ap (λ (t : ℕ). t ^^ a) (xor_self a)
    ∙ zero-xor a

-- The same word a second time takes the first away.
pub xor_cancel : (a b : ℕ) → (a ^^ b ^^ b) ≡ a
xor_cancel a b = xor_assoc a b b ∙ ap (λ (t : ℕ). a ^^ t) (xor_self b) ∙ xor-zero a

pub xor-lt : (k a b : ℕ) → a < 2 ^ k → b < 2 ^ k → (a ^^ b) < 2 ^ k
xor-lt zero zero b p q = rw (zero-xor b) q
xor-lt zero (suc a) b p q = absurd (omega arith)
xor-lt (suc k) a b p q = omega (
  arith,
  pow-suc 2 k,
  xor_step a b,
  differ_lt (a % 2) (b % 2) (omega arith) (omega arith),
  xor-lt k (a / 2) (b / 2) (omega (arith, pow-suc 2 k)) (omega (arith, pow-suc 2 k)),
)
