-- ===== src/Poc/Bytes.antt =====
-- Byte strings of poc/src/lib.rs: equality, and the number that a hash stands for.
use conjugate_poc.Common.{
  ℕ, ◌+◌, ◌*◌, ◌==◌, ==_refl, ==_iff, ◌≡◌, refl, ap, inl, inr, Bool, Bool-cases, true, false, ◌&&◌,
  List, [], ◌∷◌,
}

-- `==` of byte strings.
unfoldable pub same_bytes : List ℕ → List ℕ → Bool
same_bytes [] [] = true
same_bytes (x ∷ xs) (y ∷ ys) = x == y && same_bytes xs ys
same_bytes _ _ = false

pub same_bytes_refl : (xs : List ℕ) → same_bytes xs xs ≡ true
unfolding same_bytes
same_bytes_refl [] = refl
same_bytes_refl (x ∷ xs) = rw (==_refl x) (same_bytes_refl xs)

pub same_bytes-eq : (xs ys : List ℕ) → same_bytes xs ys ≡ true → xs ≡ ys
unfolding same_bytes
same_bytes-eq [] [] e = refl
same_bytes-eq [] (y ∷ ys) e = cc
same_bytes-eq (x ∷ xs) [] e = cc
same_bytes-eq (x ∷ xs) (y ∷ ys) e = elim (Bool-cases (x == y)) [
  | inl same ↦
      (let head : x ≡ y = (==_iff x y).0 same in
        rw head (ap (λ t. y ∷ t) (same_bytes-eq xs ys (rw same at e))))
  | inr differ ↦ (let no : false ≡ true = rw differ at e in absurd cc)
]

-- `U256::from` of a byte slice: the first byte is the highest.
unfoldable pub be_number : ℕ → List ℕ → ℕ
be_number acc [] = acc
be_number acc (x ∷ xs) = be_number (acc * 256 + x) xs
