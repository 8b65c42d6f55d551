-- ===== src/Runtime/Inherents/Required.antt =====
-- runtime/src/lib.rs: when the runtime finds that a block lacks a required upgrade.
use conjugate_poc.Common.{
  ℕ, if-false, Bool-cases, ◌≡◌, inl, inr, refl, true, false, List, [], ◌∷◌, ok, unwrap,
}
use conjugate_poc.Inherents.{Stored}
use conjugate_poc.AnyUpgrade.{
  InherentType, inherent_identifier, required_not_found, is_inherent_required, check_inherents,
}
use conjugate_poc.Runtime.Inherents.{
  Call, any_upgrade, another, Extrinsic, signed_or_false, scan, seen, CheckInherentsResult,
  check_block,
}

-- An upgrade among the extrinsics before the first signed one.
pub data HasUpgrade : List Extrinsic → Type 0 where
  here :
      (xt : Extrinsic) (call : List ℕ) (xts : List Extrinsic)
      → signed_or_false xt.is_signed ≡ false
      → xt.function ≡ any_upgrade call
      → HasUpgrade (xt ∷ xts)
  later :
      (xt : Extrinsic) (xts : List Extrinsic)
      → signed_or_false xt.is_signed ≡ false
      → HasUpgrade xts
      → HasUpgrade (xt ∷ xts)

seen-true : (call : Call) → seen call true ≡ true
unfolding seen
seen-true (any_upgrade c) = refl
seen-true (another c) = refl

scan-true : (xts : List Extrinsic) → scan xts true ≡ true
unfolding scan
scan-true [] = refl
scan-true (xt ∷ xts) = elim (Bool-cases (signed_or_false xt.is_signed)) [
  | inl signed ↦ rw signed refl
  | inr inherent ↦ rw (inherent, seen-true xt.function) (scan-true xts)
]

pub scan-HasUpgrade : (xts : List Extrinsic) → scan xts false ≡ true → HasUpgrade xts
unfolding scan seen
scan-HasUpgrade [] e = absurd cc
scan-HasUpgrade (xt ∷ xts) e = elim (Bool-cases (signed_or_false xt.is_signed)) [
  | inl signed ↦ (let no : false ≡ true = rw signed at e in absurd cc)
  | inr inherent ↦
      go xt.function refl inherent (if-false (signed_or_false xt.is_signed) _ _ _ inherent e)
        (scan-HasUpgrade xts)
]
  where
    go :
        (call : Call)
        → xt.function ≡ call
        → signed_or_false xt.is_signed ≡ false
        → scan xts (seen call false) ≡ true
        → (scan xts false ≡ true → HasUpgrade xts)
        → HasUpgrade (xt ∷ xts)
    go (any_upgrade c) is inherent rest again = here xt c xts inherent is
    go (another c) is inherent rest again = later xt xts inherent (again rest)

pub HasUpgrade-scan : (xts : List Extrinsic) → HasUpgrade xts → scan xts false ≡ true
unfolding scan seen
HasUpgrade-scan [] upgrade = elim upgrade [ ]
HasUpgrade-scan (xt ∷ xts) (here _ call _ inherent is) = rw (inherent, is) (scan-true xts)
HasUpgrade-scan (xt ∷ xts) (later _ _ inherent upgrade) =
    rw inherent (go xt.function (HasUpgrade-scan xts upgrade))
  where
    go : (call : Call) → scan xts false ≡ true → scan xts (seen call false) ≡ true
    go (any_upgrade c) rest = scan-true xts
    go (another c) rest = rest

-- When an upgrade is required and the extrinsics have no fatal error, a block with an upgrade before
-- its first signed extrinsic keeps the result of its extrinsics, and a block without one gets the
-- error that the required upgrade was not found.
pub check_block_lem {ℓ} :
    {Result : Type ℓ} (ops : CheckInherentsResult Result) (block_number : ℕ) (xts : List Extrinsic)
    (data' : Stored InherentType) (checked : Result)
    → is_inherent_required block_number data' ≡ ok true
    → ops.fatal_error checked ≡ false
    → (HasUpgrade xts → check_block ops block_number xts data' checked ≡ ok checked)
      × ((HasUpgrade xts → ⊥)
          → check_block ops block_number xts data' checked
            ≡ unwrap (ops.put_error inherent_identifier required_not_found checked))
unfolding check_block check_inherents
check_block_lem ops block_number xts data' checked required sound = (
  λ upgrade. rw (sound, HasUpgrade-scan xts upgrade, required) refl,
  λ without. elim (Bool-cases (scan xts false)) [
    | inl has ↦ absurd (without (scan-HasUpgrade xts has))
    | inr lacks ↦ rw (sound, lacks, required) refl
  ],
)
