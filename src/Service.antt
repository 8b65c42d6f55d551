-- ===== src/Service.antt =====
-- src/service.rs: the providers of inherent data that the node registers, and its services. The crates
-- `inherents` and `srml_timestamp`, the hashes and accounts, and the service builder are arguments.
pub mod Providers
pub mod Data
pub mod Inherent
pub mod Sample
mod Tests
use conjugate_poc.Common.{
  ℕ, zero, suc, ◌==◌, ◌&&◌, if◌then◌else◌, Bool, true, false, List, [], ◌∷◌, Option, none, some,
  Outcome, ok, err, panic, ◌>>=◌, unwrap, replicate,
}
use conjugate_poc.Poc.Codec.{Codec}
use conjugate_poc.Inherents.{RuntimeString, Provider, InherentsCrate}
use conjugate_poc.Consensus.Registration.{ImportQueue, import_queue, Miner, start_mine}
use conjugate_poc.AnyUpgrade
use conjugate_poc.Rewards

pub data ServiceError : Type 0 where
  inherent_data_failed : RuntimeString → ServiceError
  builder_failed : List ℕ → ServiceError

-- `map_err` of the registration's error.
unfoldable pub map_err : {A : Type 0} → Outcome RuntimeString A → Outcome ServiceError A
map_err (ok a) = ok a
map_err (err message) = err (inherent_data_failed message)
map_err panic = panic

-- `starts_with("0x")` and `&author[2..]`.
unfoldable pub strip_0x : List ℕ → List ℕ
strip_0x [] = []
strip_0x (x ∷ []) = x ∷ []
strip_0x (x ∷ y ∷ digits) = if x == 48 && y == 120 then digits else x ∷ y ∷ digits

-- What the providers are made of: the timestamp's, the codecs of the two inherent types, the decoders and
-- texts of their errors, and an account's reading (`H256::from_str`, `from_h256`) and codec.
pub record Sources (crate : InherentsCrate) : Type 1 where
  pub timestamp : Provider crate.Data
  pub upgrades_codec : Codec AnyUpgrade.InherentType
  pub decode_upgrade_error : List ℕ → Option AnyUpgrade.InherentError
  pub debug_upgrade_error : AnyUpgrade.InherentError → List ℕ
  pub author_codec : Codec (List ℕ)
  pub decode_reward_error : List ℕ → Option Rewards.InherentError
  pub debug_reward_error : Rewards.InherentError → List ℕ
  pub AccountId : Type 0
  pub account_from_str : List ℕ → Option AccountId
  pub account_codec : Codec AccountId

module _ (crate : InherentsCrate) (sources : Sources crate) where
  unfoldable pub upgrades_provider : Provider crate.Data
  upgrades_provider =
      AnyUpgrade.inherent_data_provider crate sources.upgrades_codec sources.decode_upgrade_error
        sources.debug_upgrade_error (0, [])

  unfoldable pub author_provider : sources.AccountId → Provider crate.Data
  author_provider account =
      Rewards.inherent_data_provider crate sources.author_codec sources.decode_reward_error
        sources.debug_reward_error (sources.account_codec.encode account)

  -- A provider whose identifier is not registered yet.
  unfoldable pub register_once :
      Provider crate.Data → crate.Providers → Outcome ServiceError crate.Providers
  register_once provider s =
      if crate.has_provider provider.inherent_identifier s
      then ok s
      else map_err (crate.register_provider provider s)

  -- `expect` on the account, which is read only if it is needed.
  unfoldable pub register_author :
      Option (List ℕ) → crate.Providers → Outcome ServiceError crate.Providers
  register_author none s = ok s
  register_author (some author) s =
      let registered = unwrap (sources.account_from_str (strip_0x author)) >>= λ account.
      map_err (crate.register_provider (author_provider account) s) in
      if crate.has_provider Rewards.inherent_identifier s then ok s else registered

  unfoldable pub conjugatepoc_inherent_data_providers :
      Option (List ℕ) → Outcome ServiceError crate.Providers
  conjugatepoc_inherent_data_providers author = register_once sources.timestamp crate.new >>= λ s.
      register_once upgrades_provider s >>= λ s. register_author author s

  -- The registry is one object, which the queue and the miners share.
  pub record Service : Type 0 where
    pub import_queue : ImportQueue
    pub miners : List Miner
    pub providers : crate.Providers

  -- `builder` is whether the service builder takes the configuration.
  unfoldable pub new_full_start :
      Outcome ServiceError (Unit {0})
      → Option (List ℕ)
      → Outcome ServiceError (ImportQueue × crate.Providers)
  new_full_start builder author = conjugatepoc_inherent_data_providers author >>= λ s.
      builder >>= λ _. map_err (import_queue crate sources.timestamp 0 s)

  -- One call of `start_mine` to a thread.
  unfoldable pub start_miners :
      ℕ → ℕ → crate.Providers → Outcome ServiceError (List Miner × crate.Providers)
  start_miners zero round s = ok ([], s)
  start_miners (suc threads) round s =
      map_err (start_mine crate sources.timestamp none round 2 s) >>= λ started.
      start_miners threads round started.1 >>= λ rest. ok (started.0 ∷ rest.0, rest.1)

  -- `build` is the end of the builder's chain.
  unfoldable pub new_full :
      Outcome ServiceError (Unit {0})
      → Outcome ServiceError (Unit {0})
      → Bool
      → Option (List ℕ)
      → ℕ
      → ℕ
      → Outcome ServiceError Service
  new_full builder build is_authority author threads round =
      new_full_start builder author >>= λ started. build >>= λ _.
      (if is_authority then start_miners threads round started.1 else ok ([], started.1))
      >>= λ mining.
          ok (record { import_queue = started.0; miners = mining.0; providers = mining.1 })

  unfoldable pub new_light :
      Outcome ServiceError (Unit {0})
      → Outcome ServiceError (Unit {0})
      → Option (List ℕ)
      → Outcome ServiceError Service
  new_light builder build author = conjugatepoc_inherent_data_providers author >>= λ s.
      builder >>= λ _. map_err (import_queue crate sources.timestamp 0 s) >>= λ started.
      build >>= λ _. ok (record { import_queue = started.0; miners = []; providers = started.1 })
