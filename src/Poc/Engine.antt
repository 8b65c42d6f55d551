-- ===== src/Poc/Engine.antt =====
-- poc/src/lib.rs: `RandomXAlgorithm` as the algorithm that the consensus engine runs, and what the
-- engine then does. The calls of the runtime's interface are arguments, `none` their failure.
pub mod Miner
use conjugate_poc.Common.{
  ℕ, ◌≡◌, ◌≢◌, Bool, true, List, Option, none, some, Outcome, ok, err, panic, length,
}
use conjugate_poc.Poc.Codec.{Codec, Halves}
use conjugate_poc.Poc.Capacity.{NonceData, poc_verify}
use conjugate_poc.Poc.Capacity.Panics.{poc_verify-ne-true}
use conjugate_poc.Consensus.{
  Header, PocAux, AuxStore, Error, algorithm_failed, Algorithm, CheckError, BlockOrigin,
  BlockImportParams, verify,
}
use conjugate_poc.Consensus.Verified.{verify-IsVerified}
use conjugate_poc.Poc.Capacity

-- The client's runtime interface at a parent.
pub record Api : Type 0 where
  pub difficulty : List ℕ → Option ℕ
  pub identifier : List ℕ → Option (List ℕ)

-- The engine sees an error as a text.
unfoldable pub as_text : Outcome Capacity.Error Bool → Outcome Error Bool
as_text (ok valid) = ok valid
as_text (err e) = err algorithm_failed
as_text panic = panic

unfoldable pub next_difficulty : Option ℕ → Outcome Error ℕ
next_difficulty none = err algorithm_failed
next_difficulty (some difficulty) = ok difficulty

module _ (codec : Codec NonceData) (hex_decode : List ℕ → Option (List ℕ)) (api : Api) where
  unfoldable pub randomx_algorithm : Algorithm
  randomx_algorithm = record {
    difficulty = λ parent. next_difficulty (api.difficulty parent);
    poc_verify = λ parent pre_hash nonce_data base_target.
        as_text (poc_verify codec hex_decode (api.identifier parent) nonce_data base_target);
  }

  as_text-true : (o : Outcome Capacity.Error Bool) → as_text o ≡ ok true → o ≡ ok true
  unfolding as_text
  as_text-true (ok valid) e = cc
  as_text-true (err x) e = cc
  as_text-true panic e = cc

  module _ (halves : Halves hex_decode)
      (sized : (raw : List ℕ) (n : NonceData)
        → codec.decode raw ≡ some n
        → length n.generation_sig ≡ 32) where
    -- If `hex::decode` makes one byte of two characters and decoded nonce data has a 32-byte
    -- generation signature, the engine with `RandomXAlgorithm` verifies no block at all, whatever its
    -- header and body, the node's auxiliary data and the runtime's answers.
    pub verify-ne-ok :
        (hash : Header → List ℕ) (aux_codec : Codec PocAux) (get_aux : AuxStore)
        (check_inherents_after : ℕ) (select : Option (Option Header)) (client_best : List ℕ)
        (now : Outcome Error ℕ)
        (runtime : Header → List (List ℕ) → Outcome Error (Bool × List CheckError))
        (origin : BlockOrigin) (header : Header) (justification : Option (List ℕ))
        (body : Option (List (List ℕ))) (p : BlockImportParams)
        → verify hash aux_codec get_aux randomx_algorithm check_inherents_after select client_best
            now runtime origin header justification body
          ≢ ok p
    unfolding randomx_algorithm
    verify-ne-ok hash aux_codec get_aux check_inherents_after select client_best now runtime origin
          header justification body p e =
        let v =
          verify-IsVerified hash aux_codec get_aux randomx_algorithm check_inherents_after select
            client_best now runtime origin header justification body p e in
        poc_verify-ne-true hex_decode halves codec (api.identifier header.parent_hash) v.nonce_data
          v.difficulty (sized v.nonce_data) (as_text-true _ v.sealed.accepted)
