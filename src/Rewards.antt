-- ===== src/Rewards.antt =====
-- rewards/src/lib.rs: the module that pays a block's author. Accounts, their codec, the ledger and
-- its `deposit_creating` are arguments.
pub mod Block
mod Tests
use conjugate_poc.Common.{
  ℕ, Bool, true, false, if◌then◌else◌, List, [], ◌∷◌, Option, none, some, Outcome, ok, err, panic,
}
use conjugate_poc.Poc.Bytes.{same_bytes}
use conjugate_poc.Poc.Codec.{Codec}
use mathlib.Core.Option
use conjugate_poc.Inherents.{
  Stored, absent, malformed, present, Provider, InherentsCrate, InherentIdentifier, RuntimeString,
  Origin, no_origin,
}

-- b"rewards_"
abbrev pub inherent_identifier : InherentIdentifier
inherent_identifier = 114 ∷ 101 ∷ 119 ∷ 97 ∷ 114 ∷ 100 ∷ 115 ∷ 95 ∷ []

pub data InherentError : Type 0 where
  other : RuntimeString → InherentError

unfoldable pub is_fatal_error : InherentError → Bool
is_fatal_error (other message) = true

unfoldable pub try_from :
    (List ℕ → Option InherentError) → InherentIdentifier → List ℕ → Option InherentError
try_from decode id data' = if same_bytes id inherent_identifier then decode data' else none

-- `ensure_none` fails, or the author is set.
pub data DispatchError : Type 0 where
  bad_origin : DispatchError
  author_already_set : DispatchError

-- The storage of the module, and the ledger of the balances module.
pub record Storage {ℓ κ} (AccountId : Type ℓ) (Ledger : Type κ) : Type (ℓ ⊔ κ) where
  pub author : Option AccountId
  pub ledger : Ledger

pub data Call {ℓ} (AccountId : Type ℓ) : Type ℓ where
  set_author_call : AccountId → Call AccountId

module _ {ℓ κ} {AccountId : Type ℓ} {Ledger : Type κ} where
  unfoldable pub set_author :
      Origin AccountId
      → AccountId
      → Storage AccountId Ledger
      → Outcome DispatchError (Unit {0}) × Storage AccountId Ledger
  set_author no_origin author s = elim s.author [
    | some _ ↦ (err author_already_set, s)
    | none ↦ (ok tt, record s { author = some author })
  ]
  set_author _ author s = (err bad_origin, s)

  unfoldable pub on_finalize :
      (AccountId → ℕ → Ledger → Ledger) → ℕ → Storage AccountId Ledger → Storage AccountId Ledger
  on_finalize deposit_creating reward s =
      let paid : Ledger = elim s.author [
        | some author ↦ deposit_creating author reward s.ledger
        | none ↦ s.ledger
      ] in
      record { author = none; ledger = paid }

-- `expect` on the decoding of the data and of the account.
unfoldable pub create_inherent {ℓ} :
    {AccountId : Type ℓ}
    → (List ℕ → Option AccountId)
    → Stored (List ℕ)
    → Outcome DispatchError (Option (Call AccountId))
create_inherent decode absent = ok none
create_inherent decode malformed = panic
create_inherent decode (present author_raw) = elim (decode author_raw) [
  | none ↦ panic
  | some author ↦ ok (some (set_author_call author))
]

unfoldable pub check_inherent {ℓ} :
    {AccountId : Type ℓ} → Call AccountId → Stored (List ℕ) → Outcome InherentError (Unit {0})
check_inherent call data' = ok tt

-- `InherentDataProvider`. The text of an error is what `Debug` prints.
unfoldable pub inherent_data_provider :
    (crate : InherentsCrate)
    → Codec (List ℕ)
    → (List ℕ → Option InherentError)
    → (InherentError → List ℕ)
    → List ℕ
    → Provider crate.Data
inherent_data_provider crate codec decode debug value = record {
  inherent_identifier = inherent_identifier;
  provide_inherent_data = crate.put_data inherent_identifier (codec.encode value);
  error_to_string = λ error. Option.map debug (try_from decode inherent_identifier error);
}
