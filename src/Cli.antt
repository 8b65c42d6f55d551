-- ===== src/Cli.antt =====
-- src/cli.rs: what the command line starts. The parsing of the arguments, the commands on a chain's
-- data, the runtime of threads and what ends the waiting are arguments.
pub mod Start
pub mod Run
pub mod Main
pub mod Ends
mod Tests
use conjugate_poc.Common.{
  ℕ, if◌then◌else◌, Bool, true, false, List, [], ◌∷◌, Option, none, some, Outcome, ok, err, panic,
  ◌>>=◌,
}
use conjugate_poc.Inherents.{InherentsCrate}
use conjugate_poc.ChainSpec.{ChainSpec}
use conjugate_poc.Consensus.Registration.{ImportQueue}
use conjugate_poc.Service.{ServiceError, Sources, Service, new_full_start, new_full, new_light}

pub record CustomArgs : Type 0 where
  pub author : Option (List ℕ)
  pub threads : Option ℕ
  pub round : Option ℕ

-- What is read of a configuration's `roles`: whether they are `LIGHT`, and `is_authority`.
pub record Configuration : Type 0 where
  pub is_light : Bool
  pub is_authority : Bool

pub data CliError : Type 0 where
  runtime_failed : List ℕ → CliError
  not_started : ServiceError → CliError
  exit_failed : CliError
  service_failed : List ℕ → CliError

unfoldable pub map_err : {A : Type 0} → Outcome ServiceError A → Outcome CliError A
map_err (ok a) = ok a
map_err (err e) = err (not_started e)
map_err panic = panic

unfoldable pub unwrap_or : ℕ → Option ℕ → ℕ
unwrap_or default none = default
unwrap_or default (some n) = n

-- What `select` sees first.
pub data Ended : Type 0 where
  exit_fired : Ended
  exit_canceled : Ended
  service_ended : Ended
  service_broke : List ℕ → Ended

-- What `run_until_exit` does, in order.
pub data Action : Type 0 where
  spawn_informant : Action
  block_on_select : Action
  fire_exit : Action
  shutdown_on_idle : Action

unfoldable pub service_res : Ended → Outcome CliError (Unit {0})
service_res exit_fired = ok tt
service_res exit_canceled = err exit_failed
service_res service_ended = ok tt
service_res (service_broke e) = err (service_failed e)

unfoldable pub run_until_exit : Ended → Outcome CliError (Unit {0}) × List Action
run_until_exit ended =
    (service_res ended, spawn_informant ∷ block_on_select ∷ fire_exit ∷ shutdown_on_idle ∷ [])

-- `ParseAndPrepare`.
pub data Parsed : Type 0 where
  run_cmd : Parsed
  build_spec_cmd : Parsed
  export_blocks_cmd : Parsed
  import_blocks_cmd : Parsed
  purge_chain_cmd : Parsed
  revert_chain_cmd : Parsed
  custom_command : Parsed

-- The handler of Ctrl-C takes the sender out of its cell: whether it sends, and whether the cell is
-- full after it. Sending panics when the receiver is gone.
unfoldable pub handle_signal : Bool → Bool → Outcome (Unit {0}) Bool × Bool
handle_signal receiver_alive false = (ok false, false)
handle_signal true true = (ok true, false)
handle_signal false true = (panic, false)

module _ (crate : InherentsCrate) (sources : Sources crate)
    (builder : Outcome ServiceError (Unit {0})) (build : Outcome ServiceError (Unit {0})) where
  -- The service of a role.
  unfoldable pub start_service :
      CustomArgs → Configuration → Outcome ServiceError (Service crate sources)
  start_service args config =
      let full =
        new_full crate sources builder build config.is_authority args.author
          (unwrap_or 1 args.threads) (unwrap_or 5000 args.round) in
      if config.is_light then new_light crate sources builder build args.author else full

  -- The closure of the `Run` command; `runtime` is what `Runtime::new` returns.
  unfoldable pub run_node :
      Outcome CliError (Unit {0}) → Ended → CustomArgs → Configuration → Outcome CliError (Unit {0})
  run_node runtime ended args config =
      runtime >>= λ _. map_err (start_service args config) >>= λ service. (run_until_exit ended).0

  abbrev pub Specs : Type 0
  Specs = List ℕ → Option ChainSpec

  -- The builder that the commands on blocks use.
  abbrev pub BlocksBuilder : Type 0
  BlocksBuilder = Outcome ServiceError ImportQueue

  -- What `substrate_cli` does for each command.
  pub record Commands : Type 0 where
    pub run :
        Specs
        → (CustomArgs → Configuration → Outcome CliError (Unit {0}))
        → Outcome CliError (Unit {0})
    pub build_spec : Specs → Outcome CliError (Unit {0})
    pub export_blocks : BlocksBuilder → Specs → Outcome CliError (Unit {0})
    pub import_blocks : BlocksBuilder → Specs → Outcome CliError (Unit {0})
    pub purge_chain : Specs → Outcome CliError (Unit {0})
    pub revert_chain : BlocksBuilder → Specs → Outcome CliError (Unit {0})

  unfoldable pub blocks_builder : BlocksBuilder
  blocks_builder = new_full_start crate sources builder none >>= λ started. ok started.0

  unfoldable pub run :
      Commands → Specs → Outcome CliError (Unit {0}) → Ended → Parsed → Outcome CliError (Unit {0})
  run commands load_spec runtime ended run_cmd = commands.run load_spec (run_node runtime ended)
  run commands load_spec runtime ended build_spec_cmd = commands.build_spec load_spec
  run commands load_spec runtime ended export_blocks_cmd =
      commands.export_blocks blocks_builder load_spec
  run commands load_spec runtime ended import_blocks_cmd =
      commands.import_blocks blocks_builder load_spec
  run commands load_spec runtime ended purge_chain_cmd = commands.purge_chain load_spec
  run commands load_spec runtime ended revert_chain_cmd =
      commands.revert_chain blocks_builder load_spec
  run commands load_spec runtime ended custom_command = ok tt
