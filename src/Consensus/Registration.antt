-- ===== src/Consensus/Registration.antt =====
-- vendor/substrate/core/consensus/poc/src/lib.rs: what the import queue and the mining threads start with,
-- and the registry of providers that they share, which is taken and returned. The verifier's queue
-- and the thread are the client's.
use conjugate_poc.Common.{
  ℕ, if◌then◌else◌, ◌≡◌, refl, true, List, Option, Outcome, ok, err, panic, ◌>>=◌,
}
use conjugate_poc.Inherents.{RuntimeString, Provider, InherentsCrate}

-- The arguments of `import_queue` and of `start_mine` that are numbers or data. `start_mine` hands
-- `round` to `mine_loop`, which does not read it.
pub record ImportQueue : Type 0 where
  pub check_inherents_after : ℕ

pub record Miner : Type 0 where
  pub preruntime : Option (List ℕ)
  pub round : ℕ
  pub build_time_secs : ℕ

module _ (crate : InherentsCrate) (timestamp : Provider crate.Data) where
  unfoldable pub register_poc_inherent_data_provider :
      crate.Providers → Outcome RuntimeString crate.Providers
  register_poc_inherent_data_provider s =
      if crate.has_provider timestamp.inherent_identifier s
      then ok s
      else crate.register_provider timestamp s

  unfoldable pub import_queue :
      ℕ → crate.Providers → Outcome RuntimeString (ImportQueue × crate.Providers)
  import_queue check_inherents_after s = register_poc_inherent_data_provider s >>= λ s'.
      ok (record { check_inherents_after = check_inherents_after }, s')

  -- A failed registration is only a warning.
  unfoldable pub registered_or_warned : crate.Providers → Outcome RuntimeString crate.Providers
  registered_or_warned s = elim (register_poc_inherent_data_provider s) [
    | ok s' ↦ ok s'
    | err message ↦ ok s
    | panic ↦ panic
  ]

  unfoldable pub start_mine :
      Option (List ℕ) → ℕ → ℕ → crate.Providers → Outcome RuntimeString (Miner × crate.Providers)
  start_mine preruntime round build_time_secs s = registered_or_warned s >>= λ s'.
      ok (record { preruntime = preruntime; round = round; build_time_secs = build_time_secs }, s')

  -- With the timestamp's provider in the registry neither changes it.
  pub register_poc_inherent_data_provider-registered :
      (s : crate.Providers)
      → crate.has_provider timestamp.inherent_identifier s ≡ true
      → register_poc_inherent_data_provider s ≡ ok s
  unfolding register_poc_inherent_data_provider
  register_poc_inherent_data_provider-registered s there = rw there refl
