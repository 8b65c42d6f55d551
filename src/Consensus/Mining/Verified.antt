-- ===== src/Consensus/Mining/Verified.antt =====
-- vendor/substrate/core/consensus/poc/src/lib.rs: the blocks that `mine_loop` imports verify.
use conjugate_poc.Common.{
  ℕ, ltb, ◌≡◌, refl, ap, ◌∙◌, Bool, true, List, [], ◌∷◌, Option, some, Outcome, ok,
}
use mathlib.Core.Path.{subst}
use conjugate_poc.Poc.Codec.{Codec}
use conjugate_poc.Consensus.{
  Header, DigestItem, seal, poc_engine_id, aux_key, PocAux, AuxStore, read, Error, CheckError,
  Algorithm, BlockOrigin, BlockImportParams, best_of, check_body, verify, increment,
}
use conjugate_poc.Consensus.Checked.{check_header-sealed}
use conjugate_poc.Consensus.Verified.{verify-ok}
use conjugate_poc.Consensus.Mining.{
  World, imported, best_header, inherent_digest, sealed_header, mined_params, mine_pass,
}
use conjugate_poc.Consensus.Mining.Origin.{mine_pass-IsMined}

-- `poc_mine` gives only seals that `poc_verify` accepts.
abbrev pub MinesValid : Algorithm → World → Type 0
MinesValid algorithm w =
    (i : ℕ) (parent pre_hash nonce_data : List ℕ) (difficulty : ℕ)
    → w.poc_mine i parent pre_hash difficulty ≡ ok (some nonce_data)
    → algorithm.poc_verify parent pre_hash nonce_data difficulty ≡ ok true

-- The proposer builds on the header that it is given.
abbrev pub BuildsOn : (Header → List ℕ) → World → Type 0
BuildsOn hash w =
    (best_hash : List ℕ) (best header : Header) (digest : List DigestItem) (body : List (List ℕ))
    → best_header hash w ≡ ok (best_hash, best)
    → w.propose best digest ≡ ok (header, body)
    → header.parent_hash ≡ best_hash

module _ (hash : Header → List ℕ) (codec : Codec PocAux) (algorithm : Algorithm) (w : World)
    (mines_valid : MinesValid algorithm w) (builds_on : BuildsOn hash w) where
  -- If `poc_mine` gives only seals that `poc_verify` accepts and the proposer builds on its parent,
  -- then a block that a pass of the mining loop imports has a seal with which any other node, that
  -- has the same auxiliary data for the parent and whose runtime passes the inherents, verifies it:
  -- with the same header, digests, body and stored total difficulty, as the best block exactly if
  -- its total is above that of the node's best block.
  pub verify-mine_pass :
      (fuel : ℕ) (preruntime : Option (List ℕ)) (p : BlockImportParams) (get_aux : AuxStore)
      (check_inherents_after : ℕ) (select : Option (Option Header)) (client_best best_hash : List ℕ)
      (best_aux : PocAux) (timestamp_now : ℕ)
      (runtime : Header → List (List ℕ) → Outcome Error (Bool × List CheckError))
      (origin : BlockOrigin) (justification : Option (List ℕ))
      → mine_pass hash codec algorithm fuel preruntime w ≡ ok (imported p)
      → best_of hash select client_best ≡ ok best_hash
      → read codec get_aux best_hash ≡ ok best_aux
      → read codec get_aux p.header.parent_hash ≡ read codec w.get_aux p.header.parent_hash
      → check_body check_inherents_after p.header p.body (runtime p.header) timestamp_now ≡ ok tt
      → (nonce_data : List ℕ) × (aux : PocAux) × (verify hash codec get_aux algorithm
            check_inherents_after select client_best
            (ok timestamp_now)
            runtime
            origin
            (sealed_header p.header nonce_data)
            justification
            p.body
          ≡ ok (record p {
            origin = origin;
            justification = justification;
            custom = ltb best_aux.total_difficulty aux.total_difficulty;
          }))
        × (p.auxiliary
            ≡ (aux_key (hash (sealed_header p.header nonce_data)), codec.encode aux) ∷ [])
  unfolding mined_params
  verify-mine_pass fuel preruntime p get_aux check_inherents_after select client_best best_hash
        best_aux timestamp_now runtime origin justification e selected best_read parent_read
        checked =
      let mined = mine_pass-IsMined hash codec algorithm w fuel preruntime p e in
      let total = increment mined.aux.total_difficulty mined.difficulty in
      let built : mined.header.parent_hash ≡ mined.best_hash =
        builds_on mined.best_hash mined.best mined.header (inherent_digest preruntime) mined.body
          mined.chosen mined.proposed in
      subst
        (λ (q : BlockImportParams).
          read codec get_aux q.header.parent_hash ≡ read codec w.get_aux q.header.parent_hash
          → check_body check_inherents_after q.header q.body (runtime q.header) timestamp_now
            ≡ ok tt
          → (nonce_data : List ℕ) × (aux : PocAux) × (verify hash codec get_aux algorithm
                check_inherents_after select client_best (ok timestamp_now) runtime origin
                (sealed_header q.header nonce_data) justification q.body
              ≡ ok (record q {
                origin = origin;
                justification = justification;
                custom = ltb best_aux.total_difficulty aux.total_difficulty;
              }))
            × (q.auxiliary
                ≡ (aux_key (hash (sealed_header q.header nonce_data)), codec.encode aux) ∷ []))
        mined.params
        (λ same_aux passed. (
          mined.nonce_data,
          record { difficulty = mined.difficulty; total_difficulty = total },
          verify-ok hash codec get_aux algorithm check_inherents_after select client_best
              (ok timestamp_now) runtime origin (sealed_header mined.header mined.nonce_data)
              justification (some mined.body) best_hash best_aux mined.aux
              (mined.header, mined.difficulty, seal poc_engine_id mined.nonce_data) timestamp_now
              refl selected best_read
              (same_aux ∙ ap (read codec w.get_aux) built ∙ mined.parent_read)
              (check_header-sealed hash algorithm mined.header mined.nonce_data
                mined.header.parent_hash mined.difficulty
                (ap algorithm.difficulty built ∙ mined.at_difficulty)
                (ap
                    (λ x.
                      algorithm.poc_verify x (hash mined.header) mined.nonce_data mined.difficulty)
                    built
                  ∙ mines_valid mined.try mined.best_hash (hash mined.header) mined.nonce_data
                      mined.difficulty mined.mined))
              passed,
          refl,
        ))
        parent_read checked
