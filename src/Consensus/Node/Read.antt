-- ===== src/Consensus/Node/Read.antt =====
-- vendor/substrate/core/consensus/poc/src/lib.rs: reading the auxiliary data after an import.
use conjugate_poc.Common.{
  ℕ, ◌≡◌, refl, ap, ◌∙◌, true, false, inl, inr, List, [], ◌∷◌, ◌++◌, Option, none, some,
  Option-cases, ok,
}
use mathlib.Core.Option.{some-injective}
use conjugate_poc.Poc.Bytes.{same_bytes}
use conjugate_poc.Poc.Codec.{Codec, RoundTrips}
use conjugate_poc.Consensus.{DigestItem, aux_key, PocAux, read, pop}
use conjugate_poc.Consensus.{AuxStore}
use conjugate_poc.Consensus.Node.{with_entry}

same_bytes-aux_key : (x y : List ℕ) → same_bytes (aux_key x) (aux_key y) ≡ same_bytes x y
unfolding aux_key same_bytes
same_bytes-aux_key x y = refl

pop-none : (xs : List DigestItem) → pop xs ≡ none → xs ≡ []
unfolding pop
pop-none [] e = refl
pop-none (x ∷ xs) e = elim (Option-cases (pop xs)) [
  | inl at ↦
      (let no : ◌≡◌ {A = Option (DigestItem × List DigestItem)} (some (x, [])) none = rw at at e in
        absurd cc)
  | inr (last, at) ↦
      (let no : ◌≡◌ {A = Option (DigestItem × List DigestItem)} (some (last.0, x ∷ last.1)) none =
          rw at at e in
        absurd cc)
]

-- What is popped was pushed last.
pub pop-eq :
    (xs ys : List DigestItem) (x : DigestItem) → pop xs ≡ some (x, ys) → xs ≡ ys ++ (x ∷ [])
unfolding pop
pop-eq [] ys x e = absurd cc
pop-eq (y ∷ rest) ys x e = elim (Option-cases (pop rest)) [
  | inl at ↦
      (let only : some (y, []) ≡ some (x, ys) = rw at at e in
        let is : (y, []) ≡ (x, ys) = some-injective _ _ only in
        ap (λ t. y ∷ t) (pop-none rest at) ∙ ap (λ t. t.1 ++ (t.0 ∷ [])) is)
  | inr (last, at) ↦
      (let more : some (last.0, y ∷ last.1) ≡ some (x, ys) = rw at at e in
        let is : (last.0, y ∷ last.1) ≡ (x, ys) = some-injective _ _ more in
        ap (λ t. y ∷ t) (pop-eq rest last.1 last.0 at) ∙ ap (λ t. t.1 ++ (t.0 ∷ [])) is)
]

module _ (codec : Codec PocAux) (round_trips : RoundTrips codec) (h : List ℕ) (a : PocAux)
    (before after : AuxStore)
    (added : (k : List ℕ) → after k ≡ with_entry (aux_key h) (codec.encode a) before k) where
  pub read-added_same : (k : List ℕ) → same_bytes k h ≡ true → read codec after k ≡ ok a
  unfolding read
  read-added_same k same = rw (added (aux_key k), same_bytes-aux_key k h, same, round_trips a) refl

  pub read-added_other :
      (k : List ℕ) → same_bytes k h ≡ false → read codec after k ≡ read codec before k
  unfolding read
  read-added_other k differs = rw (added (aux_key k), same_bytes-aux_key k h, differs) refl
