-- ===== src/Cli/Run.antt =====
-- src/cli.rs: how the command that runs a node ends.
use conjugate_poc.Common.{
  ℕ, if◌then◌else◌, ◌≡◌, refl, ap, ◌∙◌, Bool, true, false, List, Option, none, some, Outcome, ok,
  panic,
}
use mathlib.Core.Path.{subst}
use conjugate_poc.Inherents.{InherentsCrate}
use conjugate_poc.Inherents.Laws.{Laws}
use conjugate_poc.ChainSpec.{ChainSpec}
use conjugate_poc.Service.{
  ServiceError, strip_0x, Sources, conjugatepoc_inherent_data_providers, new_full_start, new_full,
  new_light,
}
use conjugate_poc.Service.Providers.{
  timestamp_identifier, RegistersAuthor, conjugatepoc_inherent_data_providers_lem,
}
use conjugate_poc.Cli.{
  CliError, map_err, CustomArgs, Configuration, unwrap_or, Ended, start_service, run_node, Commands,
  run_cmd, run,
}

module _ (crate : InherentsCrate) (sources : Sources crate)
    (builder build : Outcome ServiceError (Unit {0})) (args : CustomArgs)
    (config : Configuration) where
  -- The service fails to start as its providers do.
  start_service-panic :
      conjugatepoc_inherent_data_providers crate sources args.author ≡ panic
      → start_service crate sources builder build args config ≡ panic
  unfolding start_service new_full new_full_start new_light
  start_service-panic failed = by_role config.is_light
    where
      by_role :
          (is_light : Bool)
          → (if is_light
              then new_light crate sources builder build args.author
              else new_full crate sources builder build config.is_authority args.author
                  (unwrap_or 1 args.threads)
                  (unwrap_or 5000 args.round))
            ≡ panic
      by_role true = rw failed refl
      by_role false = rw failed refl

  -- If the laws of the `inherents` crate hold, the timestamp module has its own identifier and
  -- `substrate_cli` runs the closure of the `Run` command with the arguments and the configuration,
  -- then a node whose author is no account, with or without its `0x`, panics at its start, in every
  -- role, with any number of threads and however the service would have ended.
  pub run-panic :
      (laws : Laws crate)
      → sources.timestamp.inherent_identifier ≡ timestamp_identifier
      → (commands : Commands crate sources builder build) (load_spec : List ℕ → Option ChainSpec)
        (ended : Ended)
      → ((closure : CustomArgs → Configuration → Outcome CliError (Unit {0}))
          → commands.run load_spec closure ≡ closure args config)
      → (author : List ℕ) → args.author ≡ some author
      → sources.account_from_str (strip_0x author) ≡ none
      → run crate sources builder build commands load_spec (ok tt) ended run_cmd ≡ panic
  unfolding run run_node map_err
  run-panic laws timestamp_is commands load_spec ended calls author given bad =
      let failed : conjugatepoc_inherent_data_providers crate sources args.author ≡ panic =
        ap (conjugatepoc_inherent_data_providers crate sources) given
        ∙ subst (RegistersAuthor crate laws sources author) bad
            ((conjugatepoc_inherent_data_providers_lem crate laws sources timestamp_is).1 author) in
      calls (run_node crate sources builder build (ok tt) ended)
      ∙ rw (start_service-panic failed) refl
