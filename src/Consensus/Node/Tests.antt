-- ===== src/Consensus/Node/Tests.antt =====
-- vendor/substrate/core/consensus/poc/src/lib.rs: a node that verifies one block and mines another.
use conjugate_poc.Common.{true, false, ◌≤◌, ◌≡◌, refl, [], ◌∷◌, none, ok}
use conjugate_poc.Poc.Bytes.{same_bytes}
use conjugate_poc.Consensus.{
  seal, poc_engine_id, aux_key, increment, PocAux, read, from_network, BlockImportParams, best_of,
  check_body, check_sealed, check_header, pop, verify,
}
use conjugate_poc.Consensus.Mining.{
  World, best_header, inherent_digest, sealed_header, mined_params, finish, after_sealing,
  seal_loop, seal_block, mine_pass,
}
use conjugate_poc.Consensus.Sample.{hash, algorithm, codec, proposal, world, runtime}
use conjugate_poc.Consensus.Node.{Step, network, mined, here, next}
use conjugate_poc.Consensus.Node.Heaviest.{start-IsHeaviest}
use conjugate_poc.Consensus.Node.Reached.{Heaviest, Reach-Heaviest}
use conjugate_poc.Consensus.Node.Sample.{Memory, stored_in, imported_into, client, client_laws}

abbrev start : Memory
start = record { aux = []; best = 7 ∷ 0 ∷ [] }

abbrev from_peer : BlockImportParams
from_peer = record {
  origin = from_network;
  header = proposal [];
  justification = none;
  post_digests = seal poc_engine_id (9 ∷ []) ∷ [];
  body = none;
  finalized = false;
  auxiliary = (80 ∷ 111 ∷ 67 ∷ 58 ∷ 8 ∷ 1 ∷ [], 100 ∷ 100 ∷ []) ∷ [];
  custom = true;
}

abbrev later : Memory
later = record { aux = (80 ∷ 111 ∷ 67 ∷ 58 ∷ 8 ∷ 1 ∷ [], 100 ∷ 100 ∷ []) ∷ []; best = 8 ∷ 1 ∷ [] }

abbrev own_world : World
own_world = record world {
  get_aux = stored_in start.aux;
  propose = λ header digest. ok (record (proposal digest) { number = 9 }, []);
  client_best_after = 8 ∷ 1 ∷ [];
  get_aux_after = stored_in later.aux;
}

abbrev own_params : BlockImportParams
own_params =
    mined_params hash codec algorithm (record { difficulty = 0; total_difficulty = 0 })
      (record (proposal []) { number = 9 }) [] 100 (9 ∷ [])

abbrev end : Memory
end = imported_into own_params later

verifies : Step hash codec algorithm client start later
unfolding verify best_of read aux_key check_header check_sealed pop same_bytes increment check_body
verifies =
    network 0 none (7 ∷ 0 ∷ []) (ok 1000) runtime from_network
      (sealed_header (proposal []) (9 ∷ [])) none none from_peer refl refl refl refl

mines : Step hash codec algorithm client later end
unfolding mine_pass best_header read aux_key inherent_digest seal_block seal_loop after_sealing
    finish best_of same_bytes increment mined_params
mines = mined 2 none own_world own_params refl refl refl refl

Reach-Heaviest_example :
    Heaviest hash codec (λ a. refl) algorithm client client_laws end
    × ((a b : PocAux)
        → read codec (stored_in start.aux) start.best ≡ ok a
        → read codec (stored_in end.aux) end.best ≡ ok b
        → a.total_difficulty ≤ b.total_difficulty)
Reach-Heaviest_example =
    Reach-Heaviest hash codec (λ a. refl) algorithm client client_laws start end
      (start-IsHeaviest codec (stored_in start.aux) start.best (λ k. refl))
      (next (next here verifies) mines)
