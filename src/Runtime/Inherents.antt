-- ===== src/Runtime/Inherents.antt =====
-- runtime/src/lib.rs: `check_inherents` of the runtime's block builder. The result of checking the
-- extrinsics one by one, and the list of its errors, belong to the `inherents` crate.
pub mod Required
pub mod Created
pub mod Upgrades
mod Tests
use conjugate_poc.Common.{
  ℕ, Bool, true, false, if◌then◌else◌, List, [], ◌∷◌, Option, none, some, Outcome, ok, err, panic,
  ◌>>=◌, unwrap,
}
use conjugate_poc.Inherents.{Stored, InherentIdentifier}
use conjugate_poc.AnyUpgrade.{InherentError, InherentType, inherent_identifier, check_inherents}

-- The modules' calls, as far as the loop tells them apart.
pub data Call : Type 0 where
  any_upgrade : List ℕ → Call
  another : List ℕ → Call

-- `is_signed` is `none` for extrinsics that do not tell.
pub record Extrinsic : Type 0 where
  pub is_signed : Option Bool
  pub function : Call

-- `unwrap_or(false)`.
unfoldable pub signed_or_false : Option Bool → Bool
signed_or_false none = false
signed_or_false (some b) = b

-- What a call makes of the flag.
unfoldable pub seen : Call → Bool → Bool
seen (any_upgrade _) has_anyupgrade_inherent = true
seen (another _) has_anyupgrade_inherent = has_anyupgrade_inherent

-- The loop over the extrinsics.
unfoldable pub scan : List Extrinsic → Bool → Bool
scan [] has_anyupgrade_inherent = has_anyupgrade_inherent
scan (xt ∷ xts) has_anyupgrade_inherent =
    let rest = scan xts (seen xt.function has_anyupgrade_inherent) in
    if signed_or_false xt.is_signed then has_anyupgrade_inherent else rest

-- `CheckInherentsResult`, with `put_error` that fails after a fatal error.
pub record CheckInherentsResult {ℓ} (Result : Type ℓ) : Type ℓ where
  pub fatal_error : Result → Bool
  pub put_error : InherentIdentifier → InherentError → Result → Option Result

-- `checked` is what `check_extrinsics` returns for the block.
unfoldable pub check_block {ℓ} :
    {Result : Type ℓ}
    → CheckInherentsResult Result
    → ℕ
    → List Extrinsic
    → Stored InherentType
    → Result
    → Outcome InherentError Result
check_block ops block_number extrinsics data' checked =
    let has_anyupgrade_inherent = scan extrinsics false in
    let ended : Outcome InherentError _ =
      elim (check_inherents block_number has_anyupgrade_inherent data') [
        | ok _ ↦ ok checked
        | err e ↦ unwrap (ops.put_error inherent_identifier e checked)
        | panic ↦ panic
      ] in
    if ops.fatal_error checked then ok checked else ended
