-- ===== src/Consensus/Node/Reached.antt =====
-- vendor/substrate/core/consensus/poc/src/lib.rs: the best block over any sequence of steps.
use conjugate_poc.Common.{
  ℕ, ◌≤◌, ltb, ltb→lt, ltb-false→le, ◌≡◌, sym, ap, ◌∙◌, arith, true, false, List, [], ◌∷◌, ok,
  ok-injective,
}
use mathlib.Core.Path.{subst}
use conjugate_poc.Poc.Bytes.{same_bytes}
use conjugate_poc.Poc.Codec.{Codec, RoundTrips}
use conjugate_poc.Consensus.{Header, PocAux, aux_key, increment, read, Algorithm, BlockImportParams}
use conjugate_poc.Consensus.Verified.{verify-IsVerified}
use conjugate_poc.Consensus.Mining.{mined_params}
use conjugate_poc.Consensus.Mining.Origin.{mine_pass-IsMined}
use conjugate_poc.Consensus.Node.{
  Client, ClientLaws, post_header, Step, network, mined, Reach, here, next,
}
use conjugate_poc.Consensus.Node.Heaviest.{
  IsHeaviest, NoLower, post_header-eq, seen_best, with_block,
}

module _ (hash : Header → List ℕ) (codec : Codec PocAux) (round_trips : RoundTrips codec)
    (algorithm : Algorithm) (client : Client) (laws : ClientLaws hash client) where
  -- The best block of a client's state is the heaviest.
  abbrev pub Heaviest : client.State → Type 0
  Heaviest n = IsHeaviest codec (client.get_aux n) (client.best n)

  abbrev Kept : client.State → client.State → Type 0
  Kept n m =
      Heaviest m
      × NoLower codec (client.get_aux n) (client.best n) (client.get_aux m) (client.best m)

  -- The import of a block whose data are `a`.
  import_block-Kept :
      (n m : client.State) (p : BlockImportParams) (a : PocAux) (s : Heaviest n)
      → client.import_block p n ≡ ok m
      → p.auxiliary ≡ (aux_key (hash (post_header p)), codec.encode a) ∷ []
      → (p.custom ≡ true → s.best_aux.total_difficulty ≤ a.total_difficulty)
      → (p.custom ≡ false
          → (a.total_difficulty ≤ s.best_aux.total_difficulty)
            × (same_bytes (client.best n) (hash (post_header p)) ≡ false))
      → Kept n m
  import_block-Kept n m p a s done data' above below =
      subst
        (λ best'.
          IsHeaviest codec (client.get_aux m) best'
          × NoLower codec (client.get_aux n) (client.best n) (client.get_aux m) best')
        (sym (laws.best_lem p n m done))
        (with_block codec round_trips (hash (post_header p)) a (client.get_aux n) (client.get_aux m)
          (laws.stored p n m _ _ done data') (client.best n) s p.custom above below)

  Step-Kept : (n m : client.State) → Heaviest n → Step hash codec algorithm client n m → Kept n m
  unfolding mined_params
  Step-Kept n m s
        (network check_inherents_after select client_best now runtime origin header justification
          body p sees other verified done) =
      let v =
        verify-IsVerified hash codec (client.get_aux n) algorithm check_inherents_after select
          client_best now runtime origin header justification body p verified in
      let a : PocAux = record {
        difficulty = v.difficulty;
        total_difficulty = increment v.parent_aux.total_difficulty v.difficulty;
      } in
      let best_is =
        seen_best codec (client.get_aux n) (client.best n) s v.best_hash v.best_aux _ sees
          v.selected v.best_read in
      let test : p.custom ≡ ltb s.best_aux.total_difficulty a.total_difficulty =
        v.best ∙ ap (λ (b : PocAux). ltb b.total_difficulty a.total_difficulty) best_is in
      let whole : header ≡ post_header p = sym (
        post_header-eq hash algorithm header header.parent_hash p v.difficulty v.nonce_data v.sealed
          v.digests) in
      import_block-Kept n m p a s done
        (v.stored ∙ ap (λ h. (aux_key (hash h), codec.encode a) ∷ []) whole)
        (λ c. let above = ltb→lt _ _ (sym test ∙ c) in omega arith)
        (λ c. (
          ltb-false→le _ _ (sym test ∙ c),
          subst (λ h. same_bytes (client.best n) (hash h) ≡ false) whole other,
        ))
  Step-Kept n m s (mined fuel preruntime w p sees get pass done) =
      let o = mine_pass-IsMined hash codec algorithm w fuel preruntime p pass in
      let a : PocAux = record {
        difficulty = o.difficulty;
        total_difficulty = increment o.aux.total_difficulty o.difficulty;
      } in
      let best_is =
        seen_best codec (client.get_aux n) (client.best n) s o.not_behind.after
          o.not_behind.best_aux _ sees o.not_behind.selected
          (subst (λ get_aux. read codec get_aux o.not_behind.after ≡ ok o.not_behind.best_aux) get
            o.not_behind.best_read) in
      let ahead : s.best_aux.total_difficulty ≤ a.total_difficulty =
        subst (λ (b : PocAux). b.total_difficulty ≤ a.total_difficulty) best_is
          o.not_behind.at_least in
      import_block-Kept n m p a s done
        (sym (ap (λ (p : BlockImportParams). p.auxiliary) o.params)
          ∙ ap (λ (p : BlockImportParams). (aux_key (hash (post_header p)), codec.encode a) ∷ [])
              o.params)
        (λ c. ahead)
        (λ c.
          let no : true ≡ false = ap (λ (p : BlockImportParams). p.custom) o.params ∙ c in
          absurd cc)

  -- If an import stores the block's data and makes it the best one as it says, and what the codec
  -- encodes it decodes, then a best block that is the heaviest of those that the client has data of
  -- stays the heaviest, and its total difficulty does not fall, whatever blocks other than the best
  -- one the node verifies from the network and whatever blocks it mines, in any order, as long as
  -- each look at the best block and at the data sees the client's.
  pub Reach-Heaviest :
      (n m : client.State)
      → Heaviest n
      → Reach hash codec algorithm client n m
      → Heaviest m
        × NoLower codec (client.get_aux n) (client.best n) (client.get_aux m) (client.best m)
  Reach-Heaviest n m s here = (
    s,
    λ a b r t.
        let is : a ≡ b = ok-injective (sym r ∙ t) in
        subst (λ (b : PocAux). a.total_difficulty ≤ b.total_difficulty) is (omega arith),
  )
  Reach-Heaviest n m s (next {m = k} steps step) =
      let (s', low) = Reach-Heaviest n k s steps in
      let (s'', low') = Step-Kept k m s' step in
      (
        s'',
        λ a b r t.
            let one = low a s'.best_aux r s'.best_read in
            let two = low' s'.best_aux b s'.best_read t in omega arith,
      )
