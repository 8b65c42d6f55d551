-- ===== src/Consensus/Node.antt =====
-- vendor/substrate/core/consensus/poc/src/lib.rs: a node that imports, in any order, the blocks that
-- `verify` passes and those that `mine_loop` mines. The client is an argument.
pub mod Read
pub mod Heaviest
pub mod Reached
pub mod Agreement
pub mod Sample
mod Tests
use conjugate_poc.Common.{
  ℕ, if◌then◌else◌, ◌≡◌, Bool, true, false, List, [], ◌∷◌, ◌++◌, Option, none, some, Outcome, ok,
}
use conjugate_poc.Poc.Bytes.{same_bytes}
use conjugate_poc.Poc.Codec.{Codec}
use conjugate_poc.Consensus.{
  Header, PocAux, AuxStore, Error, CheckError, Algorithm, BlockOrigin, BlockImportParams, best_of,
  verify,
}
use conjugate_poc.Consensus.Mining.{World, imported, mine_pass}

-- The client: its auxiliary data, the hash of its best block, and the import of a block.
pub record Client : Type 1 where
  pub State : Type 0
  pub get_aux : State → AuxStore
  pub best : State → List ℕ
  pub import_block : BlockImportParams → State → Outcome Error State

-- The header that the chain stores.
abbrev pub post_header : BlockImportParams → Header
post_header p = record p.header { digest = p.header.digest ++ p.post_digests }

-- Data stored under one more key.
abbrev pub with_entry : List ℕ → List ℕ → AuxStore → AuxStore
with_entry key value get_aux k = if same_bytes k key then ok (some value) else get_aux k

-- What the engine relies on: an import stores the block's auxiliary data, and `Custom` says whether the
-- block becomes the best one.
pub record ClientLaws (hash : Header → List ℕ) (client : Client) : Type 0 where
  pub stored :
      (p : BlockImportParams) (n m : client.State) (key value : List ℕ)
      → client.import_block p n ≡ ok m
      → p.auxiliary ≡ (key, value) ∷ []
      → (k : List ℕ) → client.get_aux m k ≡ with_entry key value (client.get_aux n) k
  pub best_lem :
      (p : BlockImportParams) (n m : client.State)
      → client.import_block p n ≡ ok m
      → client.best m ≡ (if p.custom then hash (post_header p) else client.best n)

module _ (hash : Header → List ℕ) (client : Client) where
  -- The best block, by either way to ask for it, is the node's.
  abbrev pub Sees : Option (Option Header) → List ℕ → client.State → Type 0
  Sees select client_best n = best_of hash select client_best ≡ ok (client.best n)

module _ (hash : Header → List ℕ) (codec : Codec PocAux) (algorithm : Algorithm)
    (client : Client) where
  -- A network block is verified against the node as it is, and it is not the best block itself, which
  -- the client knows already. A mined block may have been begun earlier, but the last look at the
  -- best block is at the node as it is. A failed import leaves no step.
  pub data Step (n : client.State) : client.State → Type 0 where
    network :
        {m : client.State} (check_inherents_after : ℕ) (select : Option (Option Header))
        (client_best : List ℕ) (now : Outcome Error ℕ)
        (runtime : Header → List (List ℕ) → Outcome Error (Bool × List CheckError))
        (origin : BlockOrigin) (header : Header) (justification : Option (List ℕ))
        (body : Option (List (List ℕ))) (p : BlockImportParams)
        → Sees hash client select client_best n
        → same_bytes (client.best n) (hash header) ≡ false
        → verify hash codec
            (client.get_aux n)
            algorithm
            check_inherents_after
            select
            client_best
            now
            runtime
            origin
            header
            justification
            body
          ≡ ok p
        → client.import_block p n ≡ ok m
        → Step n m
    mined :
        {m : client.State} (fuel : ℕ) (preruntime : Option (List ℕ)) (w : World)
        (p : BlockImportParams)
        → Sees hash client w.select_after w.client_best_after n
        → w.get_aux_after ≡ client.get_aux n
        → mine_pass hash codec algorithm fuel preruntime w ≡ ok (imported p)
        → client.import_block p n ≡ ok m
        → Step n m

  pub data Reach (n : client.State) : client.State → Type 0 where
    here : Reach n n
    next : {m k : client.State} → Reach n m → Step m k → Reach n k
