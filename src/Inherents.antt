-- ===== src/Inherents.antt =====
-- What the modules rewards/src/lib.rs and anyupgrade/src/lib.rs use of the `inherents` crate.
pub mod Laws
pub mod Sample
use conjugate_poc.Common.{ℕ, List, Bool, Option, Outcome}
use conjugate_poc.Poc.Codec.{Codec}

-- What `InherentData::get_data` finds under an identifier: nothing, bytes that do not decode, a value.
pub data Stored {ℓ} (A : Type ℓ) : Type ℓ where
  absent : Stored A
  malformed : Stored A
  present : A → Stored A

-- `InherentIdentifier` and `RuntimeString`, as bytes.
abbrev pub InherentIdentifier : Type 0
InherentIdentifier = List ℕ

abbrev pub RuntimeString : Type 0
RuntimeString = List ℕ

-- The origin of a call.
pub data Origin {ℓ} (AccountId : Type ℓ) : Type ℓ where
  no_origin : Origin AccountId
  root : Origin AccountId
  signed : AccountId → Origin AccountId

-- `ProvideInherentData`, over the crate's `InherentData`.
pub record Provider (Data : Type 0) : Type 0 where
  pub inherent_identifier : InherentIdentifier
  pub provide_inherent_data : Data → Outcome RuntimeString Data
  pub error_to_string : List ℕ → Option (List ℕ)

-- `InherentData` and `InherentDataProviders`; `put_data` takes the encoded value.
pub record InherentsCrate : Type 1 where
  pub Data : Type 0
  pub Providers : Type 0
  pub put_data : InherentIdentifier → List ℕ → Data → Outcome RuntimeString Data
  pub get_data : {A : Type 0} → Codec A → InherentIdentifier → Data → Stored A
  pub new : Providers
  pub has_provider : InherentIdentifier → Providers → Bool
  pub register_provider : Provider Data → Providers → Outcome RuntimeString Providers
  pub create_inherent_data : Providers → Outcome RuntimeString Data
