-- ===== src/Common/Panic.antt =====
-- Code that returns a plain value or panics: `none` is the panic. Slices and what Rust checks of
-- their ranges.
use Prim.Native.Nat.{ℕ, zero, suc, ◌+◌, ◌-◌, ◌≤◌}
use mathlib.Core.Path.{◌≡◌, refl, ap, ◌∙◌, sym}
use mathlib.Core.Logic.{◌≢◌, inl, inr}
use mathlib.Core.Bool.{◌&&◌}
use mathlib.Core.Option.{Option, none, some}
use mathlib.Core.List.{List, [], ◌∷◌, ◌++◌, append_assoc}
use native.Mathlib.Omega.{arith}
use conjugate_poc.Common.Tests.{leb, le→leb, ne→==, Bool-cases, eq→==, ◌==◌, if◌then◌else◌}
use conjugate_poc.Common.Lists.{
  length, take, drop, take-append, drop-append, length-append, get_elem?, set,
}

infixl 5 ◌>>=◌
abbrev pub ◌>>=◌ {ℓ κ} : {A : Type ℓ} {B : Type κ} → Option A → (A → Option B) → Option B
none >>= f = none
some a >>= f = f a

module _ {ℓ} {A : Type ℓ} where
  -- `&xs[lo..hi]`.
  unfoldable pub slice : List A → ℕ → ℕ → Option (List A)
  slice xs lo hi =
      if leb lo hi && leb hi (length xs) then some (take (hi - lo) (drop lo xs)) else none

  -- `xs[lo..hi].clone_from_slice(ys)`.
  unfoldable pub copy_into : List A → ℕ → ℕ → List A → Option (List A)
  copy_into xs lo hi ys =
      if leb lo hi && leb hi (length xs) && length ys == hi - lo
      then some (take lo xs ++ (ys ++ drop hi xs))
      else none

  -- `xs[i] = v`.
  unfoldable pub store : List A → ℕ → A → Option (List A)
  store xs i v = elim (get_elem? xs i) [ none ↦ none | some _ ↦ some (set xs i v) ]

  pub slice_within :
      (xs : List A) (lo hi : ℕ)
      → lo ≤ hi
      → hi ≤ length xs
      → slice xs lo hi ≡ some (take (hi - lo) (drop lo xs))
  unfolding slice
  slice_within xs lo hi h k = rw (le→leb lo hi h, le→leb hi (length xs) k)

  pub slice_mid :
      (xs ys zs : List A) (lo hi : ℕ)
      → lo ≡ length xs
      → hi ≡ lo + length ys
      → slice (xs ++ (ys ++ zs)) lo hi ≡ some ys
  slice_mid xs ys zs lo hi l h =
      slice_within (xs ++ (ys ++ zs)) lo hi (omega arith)
        (omega (arith, length-append xs (ys ++ zs), length-append ys zs))
      ∙ ap (λ t. some (take (hi - lo) t)) (drop-append lo xs (ys ++ zs) (sym l))
      ∙ ap some (take-append (hi - lo) ys zs (omega arith))

  pub copy_into_mid :
      (xs ys zs vs : List A) (lo hi : ℕ)
      → lo ≡ length xs
      → hi ≡ lo + length ys
      → length vs ≡ length ys
      → copy_into (xs ++ (ys ++ zs)) lo hi vs ≡ some (xs ++ (vs ++ zs))
  unfolding copy_into
  copy_into_mid xs ys zs vs lo hi l h v =
      let total : hi ≤ length (xs ++ (ys ++ zs)) =
        omega (arith, length-append xs (ys ++ zs), length-append ys zs) in
      let back : drop hi (xs ++ (ys ++ zs)) ≡ zs =
        ap (λ t. drop hi t) (sym (append_assoc xs ys zs))
        ∙ drop-append hi (xs ++ ys) zs (omega (arith, length-append xs ys)) in
      rw (
        take-append lo xs (ys ++ zs) (sym l),
        back,
        le→leb lo hi (omega arith),
        le→leb hi _ total,
        eq→== (length vs) (hi - lo) (omega arith),
      )

  pub get_elem?_mid :
      (xs : List A) (x : A) (zs : List A) (i : ℕ)
      → i ≡ length xs
      → get_elem? (xs ++ (x ∷ zs)) i ≡ some x
  get_elem?_mid [] x zs zero e = refl
  get_elem?_mid [] x zs (suc i) e = absurd (omega arith)
  get_elem?_mid (y ∷ xs) x zs zero e = absurd (omega arith)
  get_elem?_mid (y ∷ xs) x zs (suc i) e = get_elem?_mid xs x zs i (omega arith)

  pub set_mid :
      (xs : List A) (x v : A) (zs : List A) (i : ℕ)
      → i ≡ length xs
      → set (xs ++ (x ∷ zs)) i v ≡ xs ++ (v ∷ zs)
  set_mid [] x v zs zero e = refl
  set_mid [] x v zs (suc i) e = absurd (omega arith)
  set_mid (y ∷ xs) x v zs zero e = absurd (omega arith)
  set_mid (y ∷ xs) x v zs (suc i) e = ap (λ t. y ∷ t) (set_mid xs x v zs i (omega arith))

  pub store_mid :
      (xs : List A) (x v : A) (zs : List A) (i : ℕ)
      → i ≡ length xs
      → store (xs ++ (x ∷ zs)) i v ≡ some (xs ++ (v ∷ zs))
  unfolding store
  store_mid xs x v zs i e = rw (get_elem?_mid xs x zs i e, store) (ap some (set_mid xs x v zs i e))

  -- A copy between slices of different lengths panics.
  pub copy_into_size :
      (xs : List A) (lo hi : ℕ) (ys : List A) → length ys ≢ hi - lo → copy_into xs lo hi ys ≡ none
  unfolding copy_into
  copy_into_size xs lo hi ys ne = elim (Bool-cases (leb lo hi)) [
    | inl e ↦ elim (Bool-cases (leb hi (length xs))) [
      | inl e' ↦ rw (e, e', ne→== (length ys) (hi - lo) ne)
      | inr e' ↦ rw (e, e')
    ]
    | inr e ↦ rw e
  ]
