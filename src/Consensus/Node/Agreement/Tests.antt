-- ===== src/Consensus/Node/Agreement/Tests.antt =====
-- vendor/substrate/core/consensus/poc/src/lib.rs: two blocks of one parent, seen in either order.
use conjugate_poc.Common.{
  ℕ, ◌≡◌, refl, sym, Bool, Bool-cases, inl, inr, true, false, List, [], ◌∷◌, none, ok,
}
use mathlib.Core.Path.{subst}
use conjugate_poc.Poc.Bytes.{same_bytes, same_bytes-eq}
use conjugate_poc.Consensus.{
  Header, seal, poc_engine_id, aux_key, increment, PocAux, read, from_network, BlockImportParams,
  best_of, check_body, check_sealed, check_header, pop, verify,
}
use conjugate_poc.Consensus.Mining.{sealed_header}
use conjugate_poc.Consensus.Sample.{hash, algorithm, codec, proposal, runtime}
use conjugate_poc.Consensus.Node.{Step, network, here, next}
use conjugate_poc.Consensus.Node.Heaviest.{start-IsHeaviest}
use conjugate_poc.Consensus.Node.Sample.{Memory, stored_in, client, client_laws}
use conjugate_poc.Consensus.Node.Agreement.{Agree, Reach-same_total}

abbrev start : Memory
start = record { aux = []; best = 7 ∷ 0 ∷ [] }

abbrev ninth : Header
ninth = record (proposal []) { number = 9 }

-- The entry of the block of a number: the hash has the length of the sealed digest.
abbrev entry : ℕ → List ℕ × List ℕ
entry number = (80 ∷ 111 ∷ 67 ∷ 58 ∷ number ∷ 1 ∷ [], 100 ∷ 100 ∷ [])

abbrev params : Header → Bool → BlockImportParams
params header custom = record {
  origin = from_network;
  header = header;
  justification = none;
  post_digests = seal poc_engine_id (9 ∷ []) ∷ [];
  body = none;
  finalized = false;
  auxiliary = entry header.number ∷ [];
  custom = custom;
}

abbrev eighth_first : Memory
eighth_first = record { aux = entry 8 ∷ []; best = 8 ∷ 1 ∷ [] }

abbrev eighth_best : Memory
eighth_best = record { aux = entry 9 ∷ entry 8 ∷ []; best = 8 ∷ 1 ∷ [] }

abbrev ninth_first : Memory
ninth_first = record { aux = entry 9 ∷ []; best = 9 ∷ 1 ∷ [] }

abbrev ninth_best : Memory
ninth_best = record { aux = entry 8 ∷ entry 9 ∷ []; best = 9 ∷ 1 ∷ [] }

one : Step hash codec algorithm client start eighth_first
unfolding verify best_of read aux_key check_header check_sealed pop same_bytes increment check_body
one =
    network 0 none (7 ∷ 0 ∷ []) (ok 1000) runtime from_network
      (sealed_header (proposal []) (9 ∷ [])) none none (params (proposal []) true) refl refl refl
      refl

two : Step hash codec algorithm client eighth_first eighth_best
unfolding verify best_of read aux_key check_header check_sealed pop same_bytes increment check_body
two =
    network 0 none (8 ∷ 1 ∷ []) (ok 1000) runtime from_network (sealed_header ninth (9 ∷ [])) none
      none (params ninth false) refl refl refl refl

one' : Step hash codec algorithm client start ninth_first
unfolding verify best_of read aux_key check_header check_sealed pop same_bytes increment check_body
one' =
    network 0 none (7 ∷ 0 ∷ []) (ok 1000) runtime from_network (sealed_header ninth (9 ∷ [])) none
      none (params ninth true) refl refl refl refl

two' : Step hash codec algorithm client ninth_first ninth_best
unfolding verify best_of read aux_key check_header check_sealed pop same_bytes increment check_body
two' =
    network 0 none (9 ∷ 1 ∷ []) (ok 1000) runtime from_network
      (sealed_header (proposal []) (9 ∷ [])) none none (params (proposal []) false) refl refl refl
      refl

eighth_best-Agree : Agree hash codec (λ a. refl) algorithm client client_laws eighth_best ninth_best
unfolding read aux_key same_bytes
eighth_best-Agree h = elim (Bool-cases (same_bytes h (8 ∷ 1 ∷ []))) [
  | inl eighth ↦
      subst
        (λ h. read codec (stored_in eighth_best.aux) h ≡ read codec (stored_in ninth_best.aux) h)
        (sym (same_bytes-eq h (8 ∷ 1 ∷ []) eighth)) refl
  | inr not_eighth ↦ elim (Bool-cases (same_bytes h (9 ∷ 1 ∷ []))) [
    | inl ninth ↦
        subst
          (λ h. read codec (stored_in eighth_best.aux) h ≡ read codec (stored_in ninth_best.aux) h)
          (sym (same_bytes-eq h (9 ∷ 1 ∷ []) ninth)) refl
    | inr not_ninth ↦ rw (not_eighth, not_ninth) refl
  ]
]

abbrev best_aux : PocAux
best_aux = record { difficulty = 100; total_difficulty = 100 }

read_eighth : read codec (stored_in eighth_best.aux) eighth_best.best ≡ ok best_aux
unfolding read aux_key same_bytes
read_eighth = refl

read_ninth : read codec (stored_in ninth_best.aux) ninth_best.best ≡ ok best_aux
unfolding read aux_key same_bytes
read_ninth = refl

Reach-same_total_example : best_aux.total_difficulty ≡ best_aux.total_difficulty
Reach-same_total_example =
    Reach-same_total hash codec (λ a. refl) algorithm client client_laws start eighth_best start
      ninth_best (start-IsHeaviest codec (stored_in []) start.best (λ k. refl))
      (start-IsHeaviest codec (stored_in []) start.best (λ k. refl)) (next (next here one) two)
      (next (next here one') two') eighth_best-Agree best_aux best_aux read_eighth read_ninth
