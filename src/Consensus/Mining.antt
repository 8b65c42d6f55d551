-- ===== src/Consensus/Mining.antt =====
-- vendor/substrate/core/consensus/poc/src/lib.rs: `mine_loop`, one pass of its outer loop at a time.
-- What other threads and crates do meanwhile is the record of arguments `World`.
pub mod Stops
pub mod Origin
pub mod Verified
pub mod Live
pub mod Thread
use conjugate_poc.Common.{
  ℕ, zero, suc, ltb, if◌then◌else◌, Bool, true, false, List, [], ◌∷◌, ◌++◌, Option, none, some,
  Outcome, ok, err, panic, ◌>>=◌,
}
use conjugate_poc.Poc.Bytes.{same_bytes}
use conjugate_poc.Poc.Codec.{Codec}
use conjugate_poc.Consensus.{
  Header, DigestItem, seal, pre_runtime, poc_engine_id, aux_key, increment, PocAux, AuxStore, read,
  Error, select_failed, no_best_header, Algorithm, BlockOrigin, own, BlockImportParams, best_of,
}

-- The `i`-th try calls `poc_mine` for a parent, a pre-hash and a difficulty, and `best_at i` is the
-- client's best hash after it. The fields `_after` hold once a seal is found.
pub record World : Type 0 where
  pub is_major_syncing : Bool
  pub select : Option (Option Header)
  pub client_best : List ℕ
  pub client_header : List ℕ → Outcome Error (Option Header)
  pub get_aux : AuxStore
  pub init : Header → Outcome Error (Unit {0})
  pub inherent_data : Outcome Error (Unit {0})
  pub propose : Header → List DigestItem → Outcome Error (Header × List (List ℕ))
  pub poc_mine : ℕ → List ℕ → List ℕ → ℕ → Outcome Error (Option (List ℕ))
  pub best_at : ℕ → List ℕ
  pub select_after : Option (Option Header)
  pub client_best_after : List ℕ
  pub get_aux_after : AuxStore
  pub import_block : BlockImportParams → Outcome Error (Unit {0})

-- How the inner loop ends.
pub data Sealing : Type 0 where
  out_of_fuel : Sealing
  new_best : Sealing
  found : List ℕ → Sealing

-- `tries` and `best_at` from the current try on.
unfoldable pub seal_loop :
    ℕ → (ℕ → Outcome Error (Option (List ℕ))) → (ℕ → List ℕ) → List ℕ → Outcome Error Sealing
seal_loop zero tries best_at best_hash = ok out_of_fuel
seal_loop (suc fuel) tries best_at best_hash =
    let rest = seal_loop fuel (λ i. tries (suc i)) (λ i. best_at (suc i)) best_hash in
    elim (tries 0) [
      | ok (some nonce_data) ↦ ok (found nonce_data)
      | ok none ↦ if same_bytes best_hash (best_at 0) then rest else ok new_best
      | err e ↦ err e
      | panic ↦ panic
    ]

-- How a pass ends: the loop goes on after each.
pub data Pass : Type 0 where
  skipped : Pass
  no_fuel : Pass
  restarted : Pass
  dropped : Pass
  imported : BlockImportParams → Pass

-- The best block, by the selection of the chain or the client.
unfoldable pub best_header : (Header → List ℕ) → World → Outcome Error (List ℕ × Header)
best_header hash w = elim w.select [
  | some none ↦ err select_failed
  | some (some header) ↦ ok (hash header, header)
  | none ↦ w.client_header w.client_best >>= λ stored. elim stored [
    | none ↦ err no_best_header
    | some header ↦ ok (w.client_best, header)
  ]
]

unfoldable pub inherent_digest : Option (List ℕ) → List DigestItem
inherent_digest none = []
inherent_digest (some preruntime) = pre_runtime poc_engine_id preruntime ∷ []

-- The header with its seal, as the chain stores it.
abbrev pub sealed_header : Header → List ℕ → Header
sealed_header header nonce_data = record header {
  digest = header.digest ++ (seal poc_engine_id nonce_data ∷ []);
}

module _ (hash : Header → List ℕ) (codec : Codec PocAux) (algorithm : Algorithm) where
  -- The parameters of the block mined on a parent with the auxiliary data `aux`.
  unfoldable pub mined_params : PocAux → Header → List (List ℕ) → ℕ → List ℕ → BlockImportParams
  mined_params aux header body difficulty nonce_data = record {
    origin = own;
    header = header;
    justification = none;
    post_digests = seal poc_engine_id nonce_data ∷ [];
    body = some body;
    finalized = false;
    auxiliary =
        (
          aux_key (hash (sealed_header header nonce_data)),
          codec.encode (record {
            difficulty = difficulty;
            total_difficulty = increment aux.total_difficulty difficulty;
          }),
        )
        ∷ [];
    custom = true;
  }

  -- The pass once a seal is found.
  unfoldable pub finish : World → PocAux → Header → List (List ℕ) → ℕ → List ℕ → Outcome Error Pass
  finish w aux header body difficulty nonce_data =
      best_of hash w.select_after w.client_best_after >>= λ best_hash.
      read codec w.get_aux_after best_hash >>= λ best_aux.
      let params = mined_params aux header body difficulty nonce_data in
      let imports = w.import_block params >>= λ _. ok (imported params) in
      if ltb (increment aux.total_difficulty difficulty) best_aux.total_difficulty
      then ok dropped
      else imports

  unfoldable pub after_sealing :
      World → PocAux → Header → List (List ℕ) → ℕ → Sealing → Outcome Error Pass
  after_sealing w aux header body difficulty out_of_fuel = ok no_fuel
  after_sealing w aux header body difficulty new_best = ok restarted
  after_sealing w aux header body difficulty (found nonce_data) =
      finish w aux header body difficulty nonce_data

  -- The pass from the proposed block on.
  unfoldable pub seal_block :
      ℕ → World → List ℕ → PocAux → Header × List (List ℕ) → Outcome Error Pass
  seal_block fuel w best_hash aux (header, body) = algorithm.difficulty best_hash >>= λ difficulty.
      seal_loop fuel (λ i. w.poc_mine i best_hash (hash header) difficulty) w.best_at best_hash
      >>= after_sealing w aux header body difficulty

  -- One pass of `'outer`.
  unfoldable pub mine_pass : ℕ → Option (List ℕ) → World → Outcome Error Pass
  mine_pass fuel preruntime w =
      let run = best_header hash w >>= λ best. read codec w.get_aux best.0 >>= λ aux.
      w.init best.1 >>= λ _. w.inherent_data >>= λ _.
      w.propose best.1 (inherent_digest preruntime) >>= seal_block fuel w best.0 aux in
      if w.is_major_syncing then ok skipped else run
