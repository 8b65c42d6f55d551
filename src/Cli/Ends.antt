-- ===== src/Cli/Ends.antt =====
-- src/main.rs and src/cli.rs: how the program ends when the author is no account.
use conjugate_poc.Common.{ℕ, ◌≡◌, refl, List, none, some, Option, Outcome, ok}
use conjugate_poc.Inherents.{InherentsCrate}
use conjugate_poc.Inherents.Laws.{Laws}
use conjugate_poc.ChainSpec.{ChainSpec}
use conjugate_poc.Service.{ServiceError, strip_0x, Sources}
use conjugate_poc.Service.Providers.{timestamp_identifier}
use conjugate_poc.Cli.{CliError, CustomArgs, Configuration, Ended, Parsed, Commands, run_cmd}
use conjugate_poc.Cli.Run.{run-panic}
use conjugate_poc.Cli.Main.{VersionInfo, version_info, panicked, end_of, main}

module _ (crate : InherentsCrate) (sources : Sources crate)
    (builder build : Outcome ServiceError (Unit {0})) (custom : CustomArgs)
    (config : Configuration) where
  -- If the laws of the `inherents` crate hold, the timestamp module has its own identifier,
  -- `substrate_cli` parses the arguments as the `Run` command and runs its closure with the custom
  -- arguments and the configuration, then the program with an author that is no account, with or
  -- without its `0x`, ends by a panic at its start, in every role, with any number of threads, and
  -- however the service would have ended.
  pub main-panicked :
      (laws : Laws crate)
      → sources.timestamp.inherent_identifier ≡ timestamp_identifier
      → (parse_and_prepare : VersionInfo → List (List ℕ) → Parsed)
        (commands : Commands crate sources builder build) (load_spec : List ℕ → Option ChainSpec)
        (ended : Ended) (commit version : List ℕ) (args : List (List ℕ))
      → parse_and_prepare (version_info commit version) args ≡ run_cmd
      → ((closure : CustomArgs → Configuration → Outcome CliError (Unit {0}))
          → commands.run load_spec closure ≡ closure custom config)
      → (author : List ℕ) → custom.author ≡ some author
      → sources.account_from_str (strip_0x author) ≡ none
      → main crate sources builder build parse_and_prepare commands load_spec
          (ok tt)
          ended
          commit
          version
          args
        ≡ panicked
  unfolding main end_of
  main-panicked laws timestamp_is parse_and_prepare commands load_spec ended commit version args
        parsed calls author given bad =
      rw
        (
          parsed,
          run-panic crate sources builder build custom config laws timestamp_is commands load_spec
              ended calls author given bad,
        )
        refl
