-- ===== src/Poc/Engine/Miner.antt =====
-- poc/src/lib.rs and vendor/substrate/core/consensus/poc/src/lib.rs: the mining thread with the
-- `poc_mine` of `RandomXAlgorithm`.
use conjugate_poc.Common.{
  ℕ, ◌≡◌, ◌≢◌, inl, inr, ◌⊎◌, All, List, [], ◌∷◌, map, Option, none, some, Outcome, ok, err, panic,
  length,
}
use conjugate_poc.Poc.Codec.{Codec, Halves}
use conjugate_poc.Poc.Capacity.{NonceData, poc_mine}
use conjugate_poc.Poc.Capacity.Panics.{poc_mine-never}
use conjugate_poc.Consensus.{Header, PocAux, Error, algorithm_failed, Algorithm, BlockImportParams}
use conjugate_poc.Consensus.Mining.{World, imported, mine_pass}
use conjugate_poc.Consensus.Mining.Origin.{mine_pass-IsMined}
use conjugate_poc.Consensus.Mining.Thread.{thread, thread_empty}
use conjugate_poc.Poc.Capacity

-- The engine sees an error as a text.
unfoldable pub mined_text :
    Outcome Capacity.Error (Option (List ℕ)) → Outcome Error (Option (List ℕ))
mined_text (ok mined) = ok mined
mined_text (err e) = err algorithm_failed
mined_text panic = panic

module _ (codec : Codec NonceData) (hex_decode : List ℕ → Option (List ℕ)) where
  -- A pass in which the algorithm mines; `plotfiles` is the plot file at each try.
  unfoldable pub mining : World × (ℕ → Option (List ℕ)) → World
  mining (w, plotfiles) = record w {
    poc_mine = λ i parent pre_hash base_target.
        mined_text (poc_mine codec hex_decode (plotfiles i) pre_hash base_target);
  }

  module _ (halves : Halves hex_decode) (hash : Header → List ℕ)
      (sized : (header : Header) → length (hash header) ≡ 32) (aux_codec : Codec PocAux)
      (algorithm : Algorithm) (fuel : ℕ) (preruntime : Option (List ℕ)) where
    never_mined :
        (o : Outcome Capacity.Error (Option (List ℕ))) (nonce_data : List ℕ)
        → (o ≡ ok none) ⊎ (o ≡ panic)
        → mined_text o ≢ ok (some nonce_data)
    unfolding mined_text
    never_mined o nonce_data (inl is) e =
        let no : ◌≡◌ {A = Outcome Error (Option (List ℕ))} (ok none) (ok (some nonce_data)) =
          rw is at e in
        absurd cc
    never_mined o nonce_data (inr is) e =
        let no : ◌≡◌ {A = Outcome Error (Option (List ℕ))} panic (ok (some nonce_data)) =
          rw is at e in
        absurd cc

    mine_pass-mining :
        (w : World × (ℕ → Option (List ℕ))) (p : BlockImportParams)
        → mine_pass hash aux_codec algorithm fuel preruntime (mining w) ≢ ok (imported p)
    unfolding mining
    mine_pass-mining (w, plotfiles) p e =
        let o =
          mine_pass-IsMined hash aux_codec algorithm (mining (w, plotfiles)) fuel preruntime p e in
        never_mined _ o.nonce_data
          (poc_mine-never hex_decode halves codec (plotfiles o.try) (hash o.header) o.difficulty
            (sized o.header))
          o.mined

    none_imported :
        (ws : List (World × (ℕ → Option (List ℕ))))
        → All
            (λ w.
              (p : BlockImportParams)
              → mine_pass hash aux_codec algorithm fuel preruntime w ≢ ok (imported p))
            (map mining ws)
    none_imported [] = tt
    none_imported (w ∷ ws) = (mine_pass-mining w, none_imported ws)

    -- If `hex::decode` makes one byte of two characters and a header's hash has 32 bytes, a mining thread
    -- that mines with `RandomXAlgorithm` imports no block, over any number of passes and tries, whatever the
    -- plot files hold and whatever the client, the proposer and the runtime answer.
    pub thread-mining :
        (ws : List (World × (ℕ → Option (List ℕ))))
        → thread hash aux_codec algorithm fuel preruntime (map mining ws) ≡ []
    thread-mining ws =
        thread_empty hash aux_codec algorithm fuel preruntime (map mining ws) (none_imported ws)
