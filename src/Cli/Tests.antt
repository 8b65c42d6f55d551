-- ===== src/Cli/Tests.antt =====
-- src/cli.rs: an authority that mines for the account 7 with three threads.
use conjugate_poc.Common.{ℕ, List, none, ◌≡◌, refl, true, false, [], ◌∷◌, some, replicate, ok}
use conjugate_poc.Poc.Bytes.{same_bytes}
use conjugate_poc.Inherents.Sample.{crate, crate_laws}
use conjugate_poc.Inherents.Laws.{any_provider}
use conjugate_poc.AnyUpgrade
use conjugate_poc.Rewards
use conjugate_poc.Rewards.{set_author_call}
use conjugate_poc.Consensus.Registration.{
  register_poc_inherent_data_provider, import_queue, registered_or_warned, start_mine,
}
use conjugate_poc.Service.{
  Service, strip_0x, upgrades_provider, author_provider, map_err, register_once, register_author,
  conjugatepoc_inherent_data_providers, new_full, new_full_start, start_miners,
}
use conjugate_poc.Service.Sample.{sources, sample_relies, author, author_account}
use conjugate_poc.Cli.Main.{VersionInfo, panicked, main}
use conjugate_poc.Cli.Ends.{main-panicked}
use conjugate_poc.Cli.{
  exit_fired, Commands, Parsed, run_cmd, CustomArgs, Configuration, unwrap_or, start_service,
}
use conjugate_poc.Cli.Start.{mining_threads, started, start_service-author}

abbrev args : CustomArgs
args = record { author = some author; threads = some 3; round = none }

abbrev config : Configuration
config = record { is_light = false; is_authority = true }

abbrev providers : crate.Providers
providers =
    sources.timestamp
    ∷ upgrades_provider crate sources
    ∷ author_provider crate sources (7 ∷ [])
    ∷ []

abbrev service : Service crate sources
service = started crate sources 3 5000 providers

starts : start_service crate sources (ok tt) (ok tt) args config ≡ ok service
unfolding start_service new_full new_full_start start_miners start_mine registered_or_warned
    register_poc_inherent_data_provider import_queue conjugatepoc_inherent_data_providers
    register_once register_author strip_0x any_provider same_bytes map_err upgrades_provider
    author_provider AnyUpgrade.inherent_data_provider Rewards.inherent_data_provider unwrap_or
starts = refl

start_service-author_example :
    (d : crate.Data) × (service.import_queue ≡ record { check_inherents_after = 0 })
    × (service.miners
        ≡ replicate
            (mining_threads args config)
            (record { preruntime = none; round = unwrap_or 5000 args.round; build_time_secs = 2 }))
    × (crate.create_inherent_data service.providers ≡ ok d)
    × (Rewards.create_inherent sources.account_codec.decode
          (crate.get_data sources.author_codec Rewards.inherent_identifier d)
        ≡ ok (some (set_author_call (7 ∷ []))))
start_service-author_example =
    start_service-author crate sources crate_laws sample_relies (ok tt) (ok tt) args config service
      author (7 ∷ []) refl author_account starts

-- A text that is no account.
abbrev bad_args : CustomArgs
bad_args = record { author = some (48 ∷ 120 ∷ 7 ∷ 7 ∷ []); threads = none; round = none }

abbrev commands : Commands crate sources (ok tt) (ok tt)
commands = record {
  run = λ load_spec closure. closure bad_args config;
  build_spec = λ load_spec. ok tt;
  export_blocks = λ blocks load_spec. ok tt;
  import_blocks = λ blocks load_spec. ok tt;
  purge_chain = λ load_spec. ok tt;
  revert_chain = λ blocks load_spec. ok tt;
}

bad_account : sources.account_from_str (strip_0x (48 ∷ 120 ∷ 7 ∷ 7 ∷ [])) ≡ none
unfolding strip_0x
bad_account = refl

-- Every command line runs a node.
abbrev parse_and_prepare : VersionInfo → List (List ℕ) → Parsed
parse_and_prepare version given = run_cmd

main-panicked_example :
    main crate sources
      (ok tt)
      (ok tt)
      parse_and_prepare
      commands
      (λ id. none)
      (ok tt)
      exit_fired
      (49 ∷ [])
      (49 ∷ [])
      ((97 ∷ []) ∷ [])
    ≡ panicked
main-panicked_example =
    main-panicked crate sources (ok tt) (ok tt) bad_args config crate_laws refl parse_and_prepare
      commands (λ id. none) exit_fired (49 ∷ []) (49 ∷ []) ((97 ∷ []) ∷ []) refl (λ closure. refl)
      (48 ∷ 120 ∷ 7 ∷ 7 ∷ []) refl bad_account
