-- ===== src/Consensus/Node/Agreement.antt =====
-- vendor/substrate/core/consensus/poc/src/lib.rs: nodes that have seen the same blocks in different orders.
mod Tests
use conjugate_poc.Common.{ℕ, ◌≤◌, ◌≡◌, refl, sym, ◌∙◌, arith, List, ok, ok-injective}
use mathlib.Core.Path.{subst}
use conjugate_poc.Poc.Codec.{Codec, RoundTrips}
use conjugate_poc.Consensus.{Header, PocAux, read, Algorithm}
use conjugate_poc.Consensus.Node.{Client, ClientLaws, Reach}
use conjugate_poc.Consensus.Node.Heaviest.{IsHeaviest}
use conjugate_poc.Consensus.Node.Reached.{Reach-Heaviest}

module _ (hash : Header → List ℕ) (codec : Codec PocAux) (round_trips : RoundTrips codec)
    (algorithm : Algorithm) (client : Client) (laws : ClientLaws hash client) where
  -- States that have the same auxiliary data for every block.
  abbrev pub Agree : client.State → client.State → Type 0
  Agree n m = (h : List ℕ) → read codec (client.get_aux n) h ≡ read codec (client.get_aux m) h

  at_most :
      (n m : client.State) (a b : PocAux)
      → IsHeaviest codec (client.get_aux m) (client.best m)
      → Agree n m
      → read codec (client.get_aux n) (client.best n) ≡ ok a
      → read codec (client.get_aux m) (client.best m) ≡ ok b
      → a.total_difficulty ≤ b.total_difficulty
  at_most n m a b s agree r t =
      let known = s.heaviest (client.best n) a (sym (agree (client.best n)) ∙ r) in
      let is : s.best_aux ≡ b = ok-injective (sym s.best_read ∙ t) in
      subst (λ (b : PocAux). a.total_difficulty ≤ b.total_difficulty) is known

  -- If an import stores the block's data and makes it the best one as it says, and what the codec
  -- encodes it decodes, then two nodes that start with the heaviest of their blocks as the best one,
  -- and that end with the same data for every block, whatever they verified and mined in whatever
  -- orders, end with best blocks of the same total difficulty, as long as each look at the best block
  -- and at the data sees the client's, and no block verified is the best one already.
  pub Reach-same_total :
      (n n' m m' : client.State)
      → IsHeaviest codec (client.get_aux n) (client.best n)
      → IsHeaviest codec (client.get_aux m) (client.best m)
      → Reach hash codec algorithm client n n'
      → Reach hash codec algorithm client m m'
      → Agree n' m'
      → (a b : PocAux) → read codec (client.get_aux n') (client.best n') ≡ ok a
      → read codec (client.get_aux m') (client.best m') ≡ ok b
      → a.total_difficulty ≡ b.total_difficulty
  Reach-same_total n n' m m' s t nsteps msteps agree a b r q =
      let (s', _) = Reach-Heaviest hash codec round_trips algorithm client laws n n' s nsteps in
      let (t', _) = Reach-Heaviest hash codec round_trips algorithm client laws m m' t msteps in
      let below = at_most n' m' a b t' agree r q in
      let above = at_most m' n' b a s' (λ h. sym (agree h)) q r in omega arith
