-- ===== src/Consensus/Tests.antt =====
-- vendor/substrate/core/consensus/poc: the theorems on the engine in a concrete world.
use conjugate_poc.Common.{
  ◌++◌, err, Bool, Outcome, ◌↔◌, ◌⊎◌, ℕ, zero, suc, ◌<◌, ltb, ◌≡◌, ◌≢◌, inl, refl, sym, ap, ◌∙◌,
  arith, true, false, List, [], ◌∷◌, none, ok, ok-injective,
}
use mathlib.Core.Option.{some-injective}
use conjugate_poc.Poc.Bytes.{same_bytes, same_bytes_refl}
use conjugate_poc.Consensus.{
  Error, inherent_data_failed, CheckError, valid_at_timestamp, seal, poc_engine_id, aux_key,
  increment, PocAux, read, from_network, BlockImportParams, best_of, check_body, check_inherents,
  check_sealed, check_header, pop, verify,
}
use conjugate_poc.Consensus.Drift.{Passes, check_inherents-Passes}
use conjugate_poc.Consensus.Verified.{IsVerified, verify-IsVerified}
use conjugate_poc.Consensus.Mining.{
  World, out_of_fuel, seal_loop, imported, best_header, inherent_digest, sealed_header,
  mined_params, finish, after_sealing, seal_block, mine_pass,
}
use conjugate_poc.Consensus.Mining.Live.{FindsAt, Succeeds}
use conjugate_poc.Consensus.Mining.Thread.{thread, NeverPanics, thread-imports}
use conjugate_poc.Consensus.Mining.Stops.{seal_loop-stops}
use conjugate_poc.Consensus.Mining.Verified.{MinesValid, BuildsOn, verify-mine_pass}
use conjugate_poc.Consensus.Sample.{
  hash, algorithm, codec, store, best, proposal, tries, world, params, runtime,
}

seal_loop-stops_example : seal_loop 2 tries (λ i. 7 ∷ 0 ∷ []) (7 ∷ 0 ∷ []) ≢ ok out_of_fuel
seal_loop-stops_example =
    seal_loop-stops 1 2 tries (λ i. 7 ∷ 0 ∷ []) (7 ∷ 0 ∷ []) (omega arith) (inl (9 ∷ [], refl))

world-MinesValid : MinesValid algorithm world
world-MinesValid zero parent pre_hash nonce_data difficulty e = absurd cc
world-MinesValid (suc i) parent pre_hash nonce_data difficulty e =
    let is : 9 ∷ [] ≡ nonce_data = some-injective _ _ (ok-injective e) in
    ap (λ x. ok (same_bytes x (9 ∷ []))) (sym is) ∙ ap ok (same_bytes_refl (9 ∷ []))

world-BuildsOn : BuildsOn hash world
unfolding best_header
world-BuildsOn best_hash best' header digest body chosen proposed =
    let is : (proposal digest, []) ≡ (header, body) = ok-injective proposed in
    let at : (hash best, best) ≡ (best_hash, best') = ok-injective chosen in
    ap (λ x. x.0.parent_hash) (sym is) ∙ ap (λ x. x.0) at

world_mines : mine_pass hash codec algorithm 2 none world ≡ ok (imported params)
unfolding mine_pass best_header read aux_key inherent_digest seal_block seal_loop after_sealing
    finish best_of same_bytes increment mined_params
world_mines = refl

selected : best_of hash none (4 ∷ []) ≡ ok (4 ∷ [])
unfolding best_of
selected = refl

stored : read codec store (4 ∷ []) ≡ ok (record { difficulty = 50; total_difficulty = 500 })
unfolding read
stored = refl

passed : check_body 0 params.header params.body (runtime params.header) 1000 ≡ ok tt
unfolding check_body check_inherents mined_params
passed = refl

verify-mine_pass_example :
    (nonce_data : List ℕ) × (aux : PocAux) × (verify hash codec store algorithm 0 none
        (4 ∷ [])
        (ok 1000)
        runtime
        from_network
        (sealed_header params.header nonce_data)
        none
        params.body
      ≡ ok (record params {
        origin = from_network;
        justification = none;
        custom = ltb 500 aux.total_difficulty;
      }))
    × (params.auxiliary
        ≡ (aux_key (hash (sealed_header params.header nonce_data)), codec.encode aux) ∷ [])
verify-mine_pass_example =
    verify-mine_pass hash codec algorithm world world-MinesValid world-BuildsOn 2 none params store
      0 none (4 ∷ []) (4 ∷ []) (record { difficulty = 50; total_difficulty = 500 }) 1000 runtime
      from_network none world_mines selected stored refl passed

abbrev parent_aux : PocAux
parent_aux = record { difficulty = 50; total_difficulty = 500 }

first_fails : (i : ℕ) → i < 1 → tries i ≡ ok none
first_fails zero below = refl
first_fails (suc i) below = absurd (omega arith)

tries-FindsAt : FindsAt tries (λ i. 7 ∷ 0 ∷ []) (7 ∷ 0 ∷ []) 1 (9 ∷ [])
unfolding same_bytes
tries-FindsAt = record { nothing = first_fails; still_best = λ i below. refl; hit = refl }

world-Succeeds :
    Succeeds hash codec algorithm world none
      (7 ∷ 0 ∷ [])
      best
      parent_aux
      (proposal [])
      []
      100
      1
      (9 ∷ [])
      (7 ∷ 0 ∷ [])
      parent_aux
unfolding best_header read aux_key inherent_digest best_of increment
world-Succeeds = record {
  synced = refl;
  chosen = refl;
  parent_read = refl;
  inits = refl;
  inherents = refl;
  proposed = refl;
  at_difficulty = refl;
  finds = tries-FindsAt;
  selected = refl;
  best_read = refl;
  not_behind = omega arith;
  imports = refl;
}

-- A pass without inherent data fails.
abbrev broken : World
broken = record world { inherent_data = err inherent_data_failed }

broken-NeverPanics : NeverPanics hash codec algorithm 2 none broken
unfolding mine_pass best_header read
broken-NeverPanics = cc

thread-imports_example :
    thread hash codec algorithm 2 none (broken ∷ world ∷ broken ∷ [])
    ≡ thread hash codec algorithm 2 none (broken ∷ [])
      ++ (params ∷ thread hash codec algorithm 2 none (broken ∷ []))
thread-imports_example =
    thread-imports hash codec algorithm 2 none (broken ∷ []) (broken ∷ []) world (7 ∷ 0 ∷ []) best
      parent_aux (proposal []) [] 100 1 (9 ∷ []) (7 ∷ 0 ∷ []) parent_aux (broken-NeverPanics, tt)
      world-Succeeds (omega arith)

abbrev network_params : BlockImportParams
network_params = record {
  origin = from_network;
  header = proposal [];
  justification = none;
  post_digests = seal poc_engine_id (9 ∷ []) ∷ [];
  body = none;
  finalized = false;
  auxiliary = (80 ∷ 111 ∷ 67 ∷ 58 ∷ 8 ∷ 1 ∷ [], 100 ∷ 600 ∷ []) ∷ [];
  custom = true;
}

world_verifies :
    verify hash codec store algorithm 0 none
      (4 ∷ [])
      (ok 1000)
      runtime
      from_network
      (sealed_header (proposal []) (9 ∷ []))
      none
      none
    ≡ ok network_params
unfolding verify best_of read aux_key check_header check_sealed pop same_bytes increment check_body
world_verifies = refl

verify-IsVerified_example :
    IsVerified hash codec store algorithm 0 none
      (4 ∷ [])
      (ok 1000)
      runtime
      from_network
      (sealed_header (proposal []) (9 ∷ []))
      none
      none
      network_params
verify-IsVerified_example =
    verify-IsVerified hash codec store algorithm 0 none (4 ∷ []) (ok 1000) runtime from_network
      (sealed_header (proposal []) (9 ∷ [])) none none network_params world_verifies

abbrev soon : Outcome Error (Bool × List CheckError)
soon = ok (false, valid_at_timestamp 1060 ∷ [])

check_inherents-Passes_example :
    (check_inherents 0 best soon 1000 ≡ ok tt)
    ↔ (7 < 0) ⊎ ((answer : Bool × List CheckError) × (soon ≡ ok answer) × Passes 1000 answer)
check_inherents-Passes_example = check_inherents-Passes 1000 (omega arith) 0 best soon
