-- ===== src/Consensus/Upgrades/Tests.antt =====
-- vendor/substrate/core/consensus/poc and runtime/src/lib.rs: a verified block with a planned upgrade,
-- under a runtime that keeps the first error, which is fatal.
use conjugate_poc.Common.{
  ℕ, zero, suc, ◌+◌, ◌≡◌, ◌↔◌, refl, arith, true, false, if◌then◌else◌, List, [], ◌∷◌, map, Option,
  none, some, Outcome, ok, err, panic,
}
use mathlib.Core.Path.{subst}
use mathlib.Core.Option.{some-injective}
use conjugate_poc.Poc.Codec.{Codec}
use conjugate_poc.Poc.Bytes.{same_bytes}
use conjugate_poc.Inherents.{Stored, present}
use conjugate_poc.AnyUpgrade.{
  InherentError, InherentType, Whitelist, get, saturated, is_whitelisted, is_some,
  is_inherent_required, check_inherents, check_inherent,
}
use conjugate_poc.Runtime.Inherents.{
  any_upgrade, another, Call, Extrinsic, signed_or_false, seen, scan, CheckInherentsResult,
  check_block,
}
use conjugate_poc.Runtime.Inherents.Upgrades.{Upgrades, first, after}
use conjugate_poc.Runtime.Difficulty.{Storage}
use conjugate_poc.Runtime.Apis.{
  Types, Block, Executive, Modules, returned, checked_inherents, runtime_apis,
}
use conjugate_poc.Consensus.{
  Header, from_network, BlockImportParams, seal, poc_engine_id, best_of, read, aux_key, pop,
  check_sealed, check_header, increment, check_body, verify, other_module,
}
use conjugate_poc.Consensus.Mining.{sealed_header}
use conjugate_poc.Consensus.Sample.{hash, algorithm, codec, store, proposal}
use conjugate_poc.Consensus.Upgrades.{Reading, ReadsFatal, bad_inherent, ModulesLaws, runtime_check}
use conjugate_poc.Consensus.Upgrades.Planned.{verify-Upgrades}

-- Calls are their encodings.
abbrev raw_calls : Codec (List ℕ)
raw_calls = record { encode = λ call. call; decode = λ raw. some raw }

abbrev results : CheckInherentsResult (Option InherentError)
results = record {
  fatal_error = λ result. elim result [ none ↦ false | some _ ↦ true ];
  put_error = λ id e result. elim result [ none ↦ some (some e) | some _ ↦ none ];
}

abbrev reading : Reading (Option InherentError)
reading = record {
  okay = λ result. elim result [ none ↦ true | some _ ↦ false ];
  errors = λ result. elim result [ none ↦ [] | some _ ↦ other_module [] ∷ [] ];
}

reads_fatal : ReadsFatal results reading
reads_fatal none fatal = absurd cc
reads_fatal (some e) fatal = (other_module [], refl, refl, bad_inherent [])

-- The module's answer to one extrinsic, and what comes of the rest.
abbrev answered : ℕ → Call → Stored InherentType → Option InherentError → Option InherentError
answered n (another call) data' rest = rest
answered n (any_upgrade raw) data' rest = elim (check_inherent raw_calls n raw data') [
  | ok _ ↦ rest
  | err e ↦ some e
  | panic ↦ rest
]

abbrev checked_each : ℕ → List Extrinsic → Stored InherentType → Option InherentError
checked_each n [] data' = none
checked_each n (xt ∷ xts) data' =
    let rest = answered n xt.function data' (checked_each n xts data') in
    if signed_or_false xt.is_signed then none else rest

-- A storage is the number of the block that is checked, a decoded header nothing.
abbrev types : Types
types = record {
  Header = Unit {0};
  ApplyResult = Unit {0};
  Validity = Unit {0};
  Metadata = Unit {0};
  Hash = Unit {0};
  InherentData = Stored InherentType;
  Result = Option InherentError;
  State = ℕ;
}

abbrev executive : Executive types
executive = record {
  execute_block = λ block n. some (n + 1);
  initialize_block = λ header n. some n;
  apply_extrinsic = λ xt n. some (tt, n);
  finalize_block = λ n. some (tt, n);
  validate_transaction = λ xt n. some tt;
  offchain_worker = λ number n. some n;
}

abbrev window : Storage
window = record { past = []; current_difficulty = 100; initial_difficulty = 100 }

abbrev modules : Modules types
modules = record {
  metadata = tt;
  random_seed = λ n. tt;
  block_number = λ n. n;
  timestamp = λ n. 1000;
  difficulty = λ n. window;
  create_extrinsics = λ data' n. some [];
  check_extrinsics = λ data' block n. some (checked_each n block.extrinsics data');
  anyupgrade_data = λ data'. data';
  results = results;
}

answered_fatal :
    (n : ℕ) (call : Call) (data' : Stored InherentType) (rest : Option InherentError)
    → results.fatal_error rest ≡ true
    → results.fatal_error (answered n call data' rest) ≡ true
answered_fatal n (another call) data' rest fatal = fatal
answered_fatal n (any_upgrade raw) data' rest fatal =
    elim (check_inherent raw_calls n raw data')
      as (λ (o : Outcome InherentError (Unit {0})).
        results.fatal_error (elim o [ ok _ ↦ rest | err e ↦ some e | panic ↦ rest ]) ≡ true) [
          | ok _ ↦ fatal
          | err e ↦ refl
          | panic ↦ fatal
        ]

answered_refused :
    (n : ℕ) (call : Call) (data' : Stored InherentType) (rest : Option InherentError) (raw : List ℕ)
    (e : InherentError)
    → call ≡ any_upgrade raw
    → check_inherent raw_calls n raw data' ≡ err e
    → answered n call data' rest ≡ some e
answered_refused n call data' rest raw e is refused = rw (is, answered, refused) refl

checked_each_fatal :
    (n : ℕ) (xts : List Extrinsic) (data' : Stored InherentType) (raw : List ℕ) (e : InherentError)
    → Upgrades raw xts
    → check_inherent raw_calls n raw data' ≡ err e
    → results.fatal_error (checked_each n xts data') ≡ true
checked_each_fatal n [] data' raw e upgrade refused = elim upgrade [ ]
checked_each_fatal n (xt ∷ xts) data' raw e (first _ _ inherent is) refused =
    rw (inherent, answered_refused n xt.function data' (checked_each n xts data') raw e is refused)
      refl
checked_each_fatal n (xt ∷ xts) data' raw e (after _ _ inherent upgrade) refused = rw inherent (
    answered_fatal n xt.function data' (checked_each n xts data')
      (checked_each_fatal n xts data' raw e upgrade refused))

laws : ModulesLaws raw_calls types modules
laws = record {
  put_fatal = put_fatal_lem;
  checks_each = λ data' block n checked is call e upgrade refused fatal.
      subst (λ r. results.fatal_error r ≡ true) (some-injective _ _ is)
        (checked_each_fatal n block.extrinsics data' call e upgrade refused);
}
  where
    put_fatal_lem :
        (id : List ℕ) (e : InherentError) (r r' : Option InherentError)
        → conjugate_poc.AnyUpgrade.is_fatal_error e ≡ true
        → results.put_error id e r ≡ some r'
        → results.fatal_error r' ≡ true
    put_fatal_lem id e none r' fatal done =
        subst (λ r. results.fatal_error r ≡ true) (some-injective _ _ done) refl
    put_fatal_lem id e (some e') r' fatal done = absurd cc

-- An extrinsic begins with 0 if it is an unsigned upgrade, and is a signed transfer otherwise.
abbrev decode_extrinsic : List ℕ → Extrinsic
decode_extrinsic [] = record { is_signed = some true; function = another [] }
decode_extrinsic (zero ∷ raw) = record { is_signed = some false; function = any_upgrade raw }
decode_extrinsic (suc n ∷ raw) = record { is_signed = some true; function = another raw }

abbrev decode : Header → List (List ℕ) → Option (Block types)
decode header body = some (record { header = tt; extrinsics = map decode_extrinsic body })

abbrev body : List (List ℕ)
body = (0 ∷ 3 ∷ []) ∷ (1 ∷ 5 ∷ []) ∷ []

abbrev planned : Whitelist
planned = (8, 3 ∷ []) ∷ (12, 4 ∷ []) ∷ []

abbrev params : BlockImportParams
params = record {
  origin = from_network;
  header = proposal [];
  justification = none;
  post_digests = seal poc_engine_id (9 ∷ []) ∷ [];
  body = some body;
  finalized = false;
  auxiliary = (80 ∷ 111 ∷ 67 ∷ 58 ∷ 8 ∷ 1 ∷ [], 100 ∷ 600 ∷ []) ∷ [];
  custom = true;
}

verifies :
    verify hash codec store algorithm 0 none
      (4 ∷ [])
      (ok 1000)
      (runtime_check types executive modules [] reading decode 8 (present (5, planned)))
      from_network
      (sealed_header (proposal []) (9 ∷ []))
      none
      (some body)
    ≡ ok params
unfolding verify best_of read aux_key check_header check_sealed pop same_bytes increment check_body
    conjugate_poc.Consensus.check_inherents runtime_check runtime_apis checked_inherents returned
    check_block scan seen signed_or_false check_inherents is_inherent_required is_some get
    is_whitelisted check_inherent
verifies = refl

verify-Upgrades_example :
    Upgrades (3 ∷ []) (map decode_extrinsic body) ↔ (get (saturated 8) planned ≡ some (3 ∷ []))
verify-Upgrades_example =
    verify-Upgrades types executive modules [] reading decode reads_fatal hash codec store algorithm
      raw_calls laws 0 none (4 ∷ []) 1000 8 (present (5, planned)) 5 planned from_network
      (sealed_header (proposal []) (9 ∷ [])) none body
      (record { header = tt; extrinsics = map decode_extrinsic body }) params (3 ∷ []) (omega arith)
      (omega arith) refl (omega arith) (omega arith) refl (λ raw upgrade. (raw, refl)) verifies
