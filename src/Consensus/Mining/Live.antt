-- ===== src/Consensus/Mining/Live.antt =====
-- vendor/substrate/core/consensus/poc/src/lib.rs: a miner that finds a seal in time imports its block.
use conjugate_poc.Common.{
  ℕ, zero, suc, ◌≤◌, ◌<◌, le→ltb, if-else, ◌≡◌, refl, arith, true, false, List, Option, none, some,
  Outcome, ok,
}
use conjugate_poc.Poc.Bytes.{same_bytes}
use conjugate_poc.Poc.Codec.{Codec}
use conjugate_poc.Consensus.{Header, PocAux, read, Error, Algorithm, best_of, increment}
use conjugate_poc.Consensus.Mining.{
  World, found, seal_loop, imported, best_header, inherent_digest, mined_params, finish,
  after_sealing, seal_block, mine_pass,
}

-- The first `n` tries find nothing and no new best block comes; the try after them finds a seal.
pub record FindsAt (tries : ℕ → Outcome Error (Option (List ℕ))) (best_at : ℕ → List ℕ)
    (best_hash : List ℕ) (n : ℕ) (nonce_data : List ℕ) : Type 0 where
  pub nothing : (i : ℕ) → i < n → tries i ≡ ok none
  pub still_best : (i : ℕ) → i < n → same_bytes best_hash (best_at i) ≡ true
  pub hit : tries n ≡ ok (some nonce_data)

seal_loop-FindsAt :
    (n fuel : ℕ) (tries : ℕ → Outcome Error (Option (List ℕ))) (best_at : ℕ → List ℕ)
    (best_hash nonce_data : List ℕ)
    → n < fuel
    → FindsAt tries best_at best_hash n nonce_data
    → seal_loop fuel tries best_at best_hash ≡ ok (found nonce_data)
unfolding seal_loop
seal_loop-FindsAt n zero tries best_at best_hash nonce_data h f = absurd (omega arith)
seal_loop-FindsAt zero (suc fuel) tries best_at best_hash nonce_data h f =
    rw (seal_loop, f.hit) refl
seal_loop-FindsAt (suc n) (suc fuel) tries best_at best_hash nonce_data h f =
    rw (seal_loop, f.nothing 0 (omega arith), f.still_best 0 (omega arith))
      (seal_loop-FindsAt n fuel (λ i. tries (suc i)) (λ i. best_at (suc i)) best_hash nonce_data
        (omega arith)
        (record {
          nothing = λ i below. f.nothing (suc i) (omega arith);
          still_best = λ i below. f.still_best (suc i) (omega arith);
          hit = f.hit;
        }))

module _ (hash : Header → List ℕ) (codec : Codec PocAux) (algorithm : Algorithm) (w : World)
    (preruntime : Option (List ℕ)) where
  -- A pass in which nothing fails: the parent is `best`, the block `header` and `body`, and the `n`-th
  -- try finds `nonce_data` before another block becomes heavier.
  pub record Succeeds (best_hash : List ℕ) (best : Header) (aux : PocAux) (header : Header)
      (body : List (List ℕ)) (difficulty n : ℕ) (nonce_data after : List ℕ) (best_aux : PocAux)
      : Type 0 where
    pub synced : w.is_major_syncing ≡ false
    pub chosen : best_header hash w ≡ ok (best_hash, best)
    pub parent_read : read codec w.get_aux best_hash ≡ ok aux
    pub inits : w.init best ≡ ok tt
    pub inherents : w.inherent_data ≡ ok tt
    pub proposed : w.propose best (inherent_digest preruntime) ≡ ok (header, body)
    pub at_difficulty : algorithm.difficulty best_hash ≡ ok difficulty
    pub finds :
        FindsAt
          (λ i. w.poc_mine i best_hash (hash header) difficulty)
          w.best_at
          best_hash
          n
          nonce_data
    pub selected : best_of hash w.select_after w.client_best_after ≡ ok after
    pub best_read : read codec w.get_aux_after after ≡ ok best_aux
    pub not_behind : best_aux.total_difficulty ≤ increment aux.total_difficulty difficulty
    pub imports :
        w.import_block (mined_params hash codec algorithm aux header body difficulty nonce_data)
        ≡ ok tt

  -- If no call of a pass fails, some try finds a seal while the best block stays, and the best block
  -- at the end is not heavier than the new one, then with more rounds than that try's number the
  -- pass ends with the block imported.
  pub mine_pass-imports :
      (best_hash : List ℕ) (best : Header) (aux : PocAux) (header : Header) (body : List (List ℕ))
      (difficulty n : ℕ) (nonce_data after : List ℕ) (best_aux : PocAux) (fuel : ℕ)
      → Succeeds best_hash best aux header body difficulty n nonce_data after best_aux
      → n < fuel
      → mine_pass hash codec algorithm fuel preruntime w
        ≡ ok (imported (mined_params hash codec algorithm aux header body difficulty nonce_data))
  unfolding mine_pass seal_block after_sealing finish
  mine_pass-imports best_hash best aux header body difficulty n nonce_data after best_aux fuel s
        enough =
      let looped =
        seal_loop-FindsAt n fuel (λ i. w.poc_mine i best_hash (hash header) difficulty) w.best_at
          best_hash nonce_data enough s.finds in
      let ahead =
        le→ltb (increment aux.total_difficulty difficulty) best_aux.total_difficulty s.not_behind in
      if-else w.is_major_syncing _ _ _ s.synced (
        rw
          (
            s.chosen, s.parent_read, s.inits, s.inherents, s.proposed, s.at_difficulty, looped,
            s.selected, s.best_read, ahead, s.imports,
          )
          refl)
