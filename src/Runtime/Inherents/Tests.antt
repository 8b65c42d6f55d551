-- ===== src/Runtime/Inherents/Tests.antt =====
-- runtime/src/lib.rs: a node's own block with a planned upgrade, under the runtime's check.
use conjugate_poc.Common.{ℕ, ◌≡◌, refl, sym, true, false, List, [], ◌∷◌, Option, none, some, ok}
use mathlib.Core.Option.{some-injective}
use conjugate_poc.Poc.Codec.{Codec}
use conjugate_poc.Inherents.{Stored, present}
use conjugate_poc.AnyUpgrade.{InherentError, InherentType, create_inherent, whitelisted_call}
use conjugate_poc.AnyUpgrade.Checks.{Canonical}
use conjugate_poc.Runtime.Inherents.{another, Extrinsic, CheckInherentsResult, check_block}
use conjugate_poc.Runtime.Inherents.Created.{created_block, Accepted, check_block-created}

-- Calls are their encodings.
abbrev raw_calls : Codec (List ℕ)
raw_calls = record { encode = λ call. call; decode = λ raw. some raw }

raw_calls-Canonical : Canonical raw_calls
raw_calls-Canonical raw call e = sym (some-injective _ _ e)

abbrev planned : Stored InherentType
planned = present (10, (12, 3 ∷ []) ∷ [])

planned_created : create_inherent raw_calls 12 planned ≡ ok (some (3 ∷ []))
unfolding create_inherent whitelisted_call
planned_created = refl

-- Results with at most one error, which is fatal.
abbrev results : CheckInherentsResult (Option InherentError)
results = record {
  fatal_error = λ result. elim result [ none ↦ false | some _ ↦ true ];
  put_error = λ id e result. elim result [ none ↦ some (some e) | some _ ↦ none ];
}

abbrev transfer : Extrinsic
transfer = record { is_signed = some true; function = another (5 ∷ []) }

check_block-created_example :
    Accepted raw_calls 12 planned (some (3 ∷ []))
    × (check_block results 12
          (created_block raw_calls ((1 ∷ []) ∷ []) (some (3 ∷ [])) ((2 ∷ []) ∷ []) (transfer ∷ []))
          planned
          none
        ≡ ok none)
check_block-created_example =
    check_block-created raw_calls raw_calls-Canonical results 12 planned ((1 ∷ []) ∷ [])
      ((2 ∷ []) ∷ []) (transfer ∷ []) (some (3 ∷ [])) none planned_created refl
