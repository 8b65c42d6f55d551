-- ===== src/Service/Inherent.antt =====
-- src/service.rs, rewards/src/lib.rs and anyupgrade/src/lib.rs: from the registered providers to
-- the inherents of a block.
use conjugate_poc.Common.{
  ℕ, ltb, le→ltb, arith, ◌≡◌, refl, false, List, ◌∷◌, Option, none, some, ok, err,
}
use conjugate_poc.Poc.Codec.{Codec}
use conjugate_poc.Inherents.{InherentsCrate, no_origin, Origin}
use conjugate_poc.Inherents.Laws.{Laws}
use conjugate_poc.AnyUpgrade
use conjugate_poc.Rewards
use conjugate_poc.Rewards.{Storage, Call, set_author_call}
use conjugate_poc.Rewards.Block.{run_calls, on_finalize-run_calls}
use conjugate_poc.Service.{strip_0x, Sources, conjugatepoc_inherent_data_providers}
use conjugate_poc.Service.Data.{Relies, registered_as, registered_of, Registers-Holds}

not_below : (block_number : ℕ) → ltb (AnyUpgrade.saturated block_number) 0 ≡ false
not_below block_number = le→ltb (AnyUpgrade.saturated block_number) 0 (omega arith)

module _ (crate : InherentsCrate) (laws : Laws crate) (sources : Sources crate)
    (relies : Relies crate laws sources) where
  -- The inherent data of an author, and what the rewards module makes of it.
  pub created_author :
      (author : List ℕ) (account : sources.AccountId)
      → sources.account_from_str (strip_0x author) ≡ some account
      → (s : crate.Providers) × (d : crate.Data) × (conjugatepoc_inherent_data_providers crate
            sources
            (some author)
          ≡ ok s)
        × (crate.create_inherent_data s ≡ ok d)
        × (Rewards.create_inherent sources.account_codec.decode
              (crate.get_data sources.author_codec Rewards.inherent_identifier d)
            ≡ ok (some (set_author_call account)))
  unfolding Rewards.create_inherent
  created_author author account is =
      let (s, done, now) = registered_as crate laws sources relies author account is in
      let h = Registers-Holds crate laws sources relies (some account) s now in
      (s, h.data', done, h.created, rw (h.author, relies.account_round_trips account) refl)

  -- If the laws of the `inherents` crate hold, the timestamp's provider puts its data under its own
  -- identifier alone, and the codecs of authors and of the empty whitelist round trip, then for an
  -- author given to the node that is an account the inherent data can be created, the rewards
  -- module makes of it the call that sets this account as the author, and a block that starts with
  -- this call pays the account the reward, once, whatever other `set_author` calls follow.
  pub create_inherent-author :
      {Ledger : Type 0} (deposit_creating : sources.AccountId → ℕ → Ledger → Ledger) (reward : ℕ)
      (calls : List (Origin sources.AccountId × sources.AccountId)) (ledger : Ledger)
      (author : List ℕ) (account : sources.AccountId)
      → sources.account_from_str (strip_0x author) ≡ some account
      → (s : crate.Providers) × (d : crate.Data) × (conjugatepoc_inherent_data_providers crate
            sources
            (some author)
          ≡ ok s)
        × (crate.create_inherent_data s ≡ ok d)
        × (Rewards.create_inherent sources.account_codec.decode
              (crate.get_data sources.author_codec Rewards.inherent_identifier d)
            ≡ ok (some (set_author_call account)))
        × (Rewards.on_finalize deposit_creating reward
              (run_calls ((no_origin, account) ∷ calls) (record { author = none; ledger = ledger }))
            ≡ record { author = none; ledger = deposit_creating account reward ledger })
  create_inherent-author deposit_creating reward calls ledger author account is =
      let (s, d, done, created, call) = created_author author account is in
      (
        s,
        d,
        done,
        created,
        call,
        on_finalize-run_calls deposit_creating reward ((no_origin, account) ∷ calls) ledger,
      )

  -- If the laws of the `inherents` crate hold, the timestamp's provider puts its data under its own
  -- identifier alone, and the codecs of authors and of the empty whitelist round trip, then with
  -- the providers that the node registers the inherent data can be created, and from it no upgrade
  -- is required at any block, none is made, and every call that a block brings is refused as not
  -- whitelisted.
  pub check_inherent-default :
      (author : Option (List ℕ)) (s : crate.Providers) (block_number : ℕ) {Call : Type 0}
      (codec : Codec Call) (call : Call)
      → conjugatepoc_inherent_data_providers crate sources author ≡ ok s
      → (d : crate.Data) × (crate.create_inherent_data s ≡ ok d)
        × (let data' = crate.get_data sources.upgrades_codec AnyUpgrade.inherent_identifier d in
            (AnyUpgrade.is_inherent_required block_number data' ≡ ok false)
            × (AnyUpgrade.create_inherent codec block_number data' ≡ ok none)
            × (AnyUpgrade.check_inherent codec block_number call data'
                ≡ err AnyUpgrade.not_whitelisted))
  unfolding AnyUpgrade.is_inherent_required AnyUpgrade.create_inherent AnyUpgrade.check_inherent
      AnyUpgrade.whitelisted_call AnyUpgrade.is_whitelisted AnyUpgrade.get AnyUpgrade.is_some
  check_inherent-default author s block_number codec call done =
      let (account, now) = registered_of crate laws sources relies author s done in
      let h = Registers-Holds crate laws sources relies account s now in
      (
        h.data',
        h.created,
        (
          rw h.upgrades (rw (not_below block_number) refl),
          rw h.upgrades refl,
          rw h.upgrades (rw (not_below block_number) refl),
        ),
      )
