-- ===== src/Consensus.antt =====
-- vendor/substrate/core/consensus/poc/src/lib.rs and poc/primitives/src/lib.rs: the consensus engine.
-- Hashes, the codec of the auxiliary data, the client, the selection of the chain, the algorithm and
-- the runtime's checks are arguments.
pub mod Checked
pub mod Verified
pub mod Sample
mod Tests
pub mod Mining
pub mod Node
pub mod Registration
pub mod Drift
pub mod Upgrades
use conjugate_poc.Common.{
  ℕ, zero, suc, ◌+◌, ◌-◌, ◌%◌, ◌^◌, min, ltb, leb, if◌then◌else◌, Bool, true, false, not, List, [],
  ◌∷◌, ◌++◌, Option, none, some, Outcome, ok, err, panic, ◌>>=◌,
}
use conjugate_poc.Poc.Bytes.{same_bytes}
use conjugate_poc.Poc.Codec.{Codec}

-- b"poc_"
abbrev pub poc_engine_id : List ℕ
poc_engine_id = 112 ∷ 111 ∷ 99 ∷ 95 ∷ []

-- b"PoC:"
abbrev pub poc_aux_prefix : List ℕ
poc_aux_prefix = 80 ∷ 111 ∷ 67 ∷ 58 ∷ []

unfoldable pub aux_key : List ℕ → List ℕ
aux_key hash = poc_aux_prefix ++ hash

-- `TotalDifficulty::increment` of `U256`, which saturates.
unfoldable pub increment : ℕ → ℕ → ℕ
increment total other = min (2 ^ 256 - 1) (total + other)

pub record PocAux : Type 0 where
  pub difficulty : ℕ
  pub total_difficulty : ℕ

pub data DigestItem : Type 0 where
  seal : List ℕ → List ℕ → DigestItem
  pre_runtime : List ℕ → List ℕ → DigestItem
  other_item : List ℕ → DigestItem

-- A header: its digest, and what the engine reads of the rest.
pub record Header : Type 0 where
  pub parent_hash : List ℕ
  pub number : ℕ
  pub state_root : List ℕ
  pub extrinsics_root : List ℕ
  pub digest : List DigestItem

pub data Error : Type 0 where
  wrong_engine : List ℕ → Error
  unsealed : List ℕ → Error
  invalid_nonce_data : Error
  client_failed : Error
  aux_undecodable : Error
  select_failed : Error
  algorithm_failed : Error
  inherent_data_failed : Error
  runtime_failed : Error
  too_far_in_future : Error
  inherent_error : List ℕ → Error
  no_best_header : Error
  proposing_failed : Error
  import_failed : Error

-- `AuxStore::get_aux`; `err` is the client's failure.
abbrev pub AuxStore : Type 0
AuxStore = List ℕ → Outcome Error (Option (List ℕ))

-- `PocAux::read`.
unfoldable pub read : Codec PocAux → AuxStore → List ℕ → Outcome Error PocAux
read codec get_aux hash = get_aux (aux_key hash) >>= λ stored. elim stored [
  | none ↦ ok (record { difficulty = 0; total_difficulty = 0 })
  | some bytes ↦ elim (codec.decode bytes) [ none ↦ err aux_undecodable | some aux ↦ ok aux ]
]

-- `difficulty` and `poc_verify` of `PocAlgorithm`; blocks are named by their hash.
pub record Algorithm : Type 0 where
  pub difficulty : List ℕ → Outcome Error ℕ
  pub poc_verify : List ℕ → List ℕ → List ℕ → ℕ → Outcome Error Bool

-- `Vec::pop`.
unfoldable pub pop : List DigestItem → Option (DigestItem × List DigestItem)
pop [] = none
pop (x ∷ xs) = elim (pop xs) [ none ↦ some (x, []) | some (last, rest) ↦ some (last, x ∷ rest) ]

abbrev pub Checked : Type 0
Checked = Header × ℕ × DigestItem

-- `check_header`.
module _ (hash : Header → List ℕ) (algorithm : Algorithm) where
  unfoldable pub check_sealed : Header → List ℕ → List ℕ → Outcome Error Checked
  check_sealed header parent nonce_data = algorithm.difficulty parent >>= λ difficulty.
      algorithm.poc_verify parent (hash header) nonce_data difficulty >>= λ valid.
      if valid
      then ok (header, difficulty, seal poc_engine_id nonce_data)
      else err invalid_nonce_data

  unfoldable pub check_header : Header → List ℕ → Outcome Error Checked
  check_header header parent = elim (pop header.digest) [
    | none ↦ err (unsealed (hash header))
    | some (seal id nonce_data, rest) ↦
        if same_bytes id poc_engine_id
        then check_sealed (record header { digest = rest }) parent nonce_data
        else err (wrong_engine id)
    | some (pre_runtime id bytes, rest) ↦ err (unsealed (hash header))
    | some (other_item bytes, rest) ↦ err (unsealed (hash header))
  ]

-- An error of the runtime's check, as the timestamp module reads it.
pub data CheckError : Type 0 where
  valid_at_timestamp : ℕ → CheckError
  timestamp_other : List ℕ → CheckError
  other_module : List ℕ → CheckError

abbrev pub max_timestamp_drift_secs : ℕ
max_timestamp_drift_secs = 60

-- `try_for_each` over the errors.
unfoldable pub check_errors : ℕ → List CheckError → Outcome Error (Unit {0})
check_errors timestamp_now [] = ok tt
check_errors timestamp_now (valid_at_timestamp timestamp ∷ errors) =
    let rest = check_errors timestamp_now errors in
    if ltb ((timestamp_now + max_timestamp_drift_secs) % 2 ^ 64) timestamp
    then err too_far_in_future
    else rest
check_errors timestamp_now (timestamp_other message ∷ errors) = err (inherent_error message)
check_errors timestamp_now (other_module message ∷ errors) = err (inherent_error message)

-- `checked` is the runtime's answer: whether the inherents are in order, and its errors.
unfoldable pub check_inherents :
    ℕ → Header → Outcome Error (Bool × List CheckError) → ℕ → Outcome Error (Unit {0})
check_inherents check_inherents_after header checked timestamp_now =
    let run =
      checked >>= λ answer. if answer.0 then ok tt else check_errors timestamp_now answer.1 in
    if ltb header.number check_inherents_after then ok tt else run

pub data BlockOrigin : Type 0 where
  own : BlockOrigin
  from_network : BlockOrigin

-- `BlockImportParams`; the fork choice is always `Custom`.
pub record BlockImportParams : Type 0 where
  pub origin : BlockOrigin
  pub header : Header
  pub justification : Option (List ℕ)
  pub post_digests : List DigestItem
  pub body : Option (List (List ℕ))
  pub finalized : Bool
  pub auxiliary : List (List ℕ × List ℕ)
  pub custom : Bool

-- The best block's hash: by the selection of the chain, whose failure is `none`, or the client's.
unfoldable pub best_of :
    (Header → List ℕ) → Option (Option Header) → List ℕ → Outcome Error (List ℕ)
best_of hash none client_best = ok client_best
best_of hash (some none) client_best = err select_failed
best_of hash (some (some header)) client_best = ok (hash header)

-- `check_inherents` of `Verifier::verify`, only for a block with its body.
unfoldable pub check_body :
    ℕ
    → Header
    → Option (List (List ℕ))
    → (List (List ℕ) → Outcome Error (Bool × List CheckError))
    → ℕ
    → Outcome Error (Unit {0})
check_body check_inherents_after header none runtime timestamp_now = ok tt
check_body check_inherents_after header (some body) runtime timestamp_now =
    check_inherents check_inherents_after header (runtime body) timestamp_now

module _ (hash : Header → List ℕ) (codec : Codec PocAux) (get_aux : AuxStore)
    (algorithm : Algorithm) where
  -- `verify` of `PocVerifier`. `now` is the inherent data's timestamp, and `runtime` the runtime's
  -- check of a block with the checked header and a body.
  unfoldable pub verify :
      ℕ
      → Option (Option Header)
      → List ℕ
      → Outcome Error ℕ
      → (Header → List (List ℕ) → Outcome Error (Bool × List CheckError))
      → BlockOrigin
      → Header
      → Option (List ℕ)
      → Option (List (List ℕ))
      → Outcome Error BlockImportParams
  verify check_inherents_after select client_best now runtime origin header justification body =
      now >>= λ timestamp_now. best_of hash select client_best >>= λ best_hash.
      read codec get_aux best_hash >>= λ best_aux. read codec get_aux header.parent_hash >>= λ aux.
      check_header hash algorithm header header.parent_hash >>= λ checked.
      let (checked_header, difficulty, nonce_data) = checked in
      let total = increment aux.total_difficulty difficulty in
      check_body check_inherents_after checked_header body (runtime checked_header) timestamp_now
      >>= λ _. ok (record {
        origin = origin;
        header = checked_header;
        justification = justification;
        post_digests = nonce_data ∷ [];
        body = body;
        finalized = false;
        auxiliary =
            (
              aux_key (hash header),
              codec.encode (record { difficulty = difficulty; total_difficulty = total }),
            )
            ∷ [];
        custom = ltb best_aux.total_difficulty total;
      })
