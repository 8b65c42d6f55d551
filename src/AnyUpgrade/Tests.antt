-- ===== src/AnyUpgrade/Tests.antt =====
-- anyupgrade/src/lib.rs: the theorems on the whitelist at a concrete one.
use conjugate_poc.Common.{ℕ, ltb, ◌≡◌, ◌↔◌, ◌⊎◌, arith, true, List, [], ◌∷◌, some, ok}
use conjugate_poc.Poc.Codec.{Codec}
use conjugate_poc.Inherents.{present}
use conjugate_poc.AnyUpgrade.{Whitelist, get, saturated, check_inherent}
use conjugate_poc.AnyUpgrade.Checks.{check_inherent_lem}

-- Calls are their encodings.
abbrev raw_calls : Codec (List ℕ)
raw_calls = record { encode = λ call. call; decode = λ raw. some raw }

abbrev planned : Whitelist
planned = (9, 1 ∷ 2 ∷ []) ∷ (12, 3 ∷ []) ∷ []

check_inherent_lem_example :
    check_inherent raw_calls 12 (4 ∷ []) (present (10, planned)) ≡ ok tt
    ↔ (ltb (saturated 12) 10 ≡ true) ⊎ (get (saturated 12) planned ≡ some (4 ∷ []))
check_inherent_lem_example = check_inherent_lem raw_calls 12 10 planned (4 ∷ []) (omega arith)
