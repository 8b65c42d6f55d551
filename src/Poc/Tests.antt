-- ===== src/Poc/Tests.antt =====
-- poc/src/lib.rs: the theorems on plots, scoops and nonce data at concrete inputs. Zeroed buffers of
-- the crate's sizes stand for plot files and caches.
use conjugate_poc.Common.{
  ℕ, suc, ◌+◌, ◌*◌, ◌%◌, ◌<◌, ◌==◌, ◌≡◌, ◌≢◌, inl, inr, ap, sym, ◌∙◌, arith, true, List, [], ◌∷◌,
  ◌++◌, Option, none, some, Option-cases, length, ok, map,
}
use mathlib.Core.Option.{some-injective}
use conjugate_poc.Primitives.{nonce_size, hash_cap, num_scoops, algorithm_identifier}
use conjugate_poc.Shabal.Hash.{shabal256_deadline_fast}
use conjugate_poc.Poc.Codec.{Codec, Halves}
use conjugate_poc.Poc.Plot.{noncegen_rust}
use conjugate_poc.Poc.Plot.Whole.{plots, noncegen_rust-content}
use conjugate_poc.Poc.Scoop.{calculate_scoop, find_best_deadline_rust}
use conjugate_poc.Poc.Scoop.Range.{scoop_byte, calculate_scoop_lem}
use conjugate_poc.Poc.Scoop.Best.{IsLeast, find_best_deadline_rust-IsLeast}
use conjugate_poc.Poc.Capacity.{zeros, NonceData, check_nonce}
use conjugate_poc.Poc.Capacity.Check.{length-zeros, plot_of, mirrored_scoop, check_nonce_lem}
use conjugate_poc.Poc.Engine.Miner.{mining, thread-mining}
use conjugate_poc.Poc.Engine.{Api, randomx_algorithm, verify-ne-ok}
use conjugate_poc.Consensus.{Header, from_network, verify}
use conjugate_poc.Consensus.Mining.{World, sealed_header}
use conjugate_poc.Consensus.Mining.Thread.{thread}
use conjugate_poc.Consensus.Sample.{hash, codec, store, proposal, params, runtime, world}

abbrev gensig : List ℕ
gensig = zeros 32

two_nonces : length (zeros 524288) ≡ 2 * nonce_size
two_nonces = omega (arith, length-zeros 524288)

noncegen_rust-content_example :
    noncegen_rust (zeros 524288 ++ (7 ∷ [])) 42 5 2
    ≡ some (plots nonce_size hash_cap 42 5 2 0 ++ (7 ∷ []))
noncegen_rust-content_example = noncegen_rust-content 42 5 2 (zeros 524288) (7 ∷ []) two_nonces

calculate_scoop_lem_example :
    (calculate_scoop 3 gensig ≡ scoop_byte 3 gensig 30 % 16 * 256 + scoop_byte 3 gensig 31)
    × (calculate_scoop 3 gensig < num_scoops)
calculate_scoop_lem_example = calculate_scoop_lem 3 gensig

find_best_deadline_rust-IsLeast_example :
    (b o : ℕ) × (find_best_deadline_rust (zeros 128) 2 gensig ≡ some (b, o))
    × IsLeast (zeros 128) gensig 2 b o
find_best_deadline_rust-IsLeast_example =
    find_best_deadline_rust-IsLeast (zeros 128) gensig (length-zeros 32) 2
      (omega (arith, length-zeros 128))

abbrev nonce_data : NonceData
nonce_data = record {
  height = 1;
  deadline = 12;
  nonce = 5;
  reader_task_processed = true;
  account_id = 42;
  generation_sig = gensig;
}

check_nonce_lem_example :
    check_nonce nonce_data 488671834567 gensig
    ≡ some (
        12
        == shabal256_deadline_fast
            (mirrored_scoop (plot_of 42 5) (calculate_scoop 1 gensig))
            gensig)
check_nonce_lem_example =
    check_nonce_lem nonce_data 488671834567 gensig (length-zeros 32) (omega arith) (omega arith)

-- Two characters below 16 to a byte.
hex_pairs : List ℕ → Option (List ℕ)
hex_pairs [] = some []
hex_pairs (x ∷ []) = none
hex_pairs (x ∷ y ∷ rest) = elim (hex_pairs rest) [
  | none ↦ none
  | some bytes ↦ some ((x * 16 + y) ∷ bytes)
]

hex_pairs-Halves : Halves hex_pairs
unfolding hex_pairs
hex_pairs-Halves [] bytes e = ap (λ (b : List ℕ). 2 * length b) (some-injective _ _ e)
hex_pairs-Halves (x ∷ []) bytes e = absurd cc
hex_pairs-Halves (x ∷ y ∷ rest) bytes e = elim (Option-cases (hex_pairs rest)) [
  | inl bad ↦ (let no : none ≡ some bytes = rw bad at e in absurd cc)
  | inr (found, good) ↦
      (let is : (x * 16 + y) ∷ found ≡ bytes = some-injective _ _ (rw good at e) in
        let size : suc (length found) ≡ length bytes = ap length is in
        omega (arith, hex_pairs-Halves rest found good, size))
]

-- Nonce data that differ in their nonce alone.
abbrev nonce_codec : Codec NonceData
nonce_codec = record {
  encode = λ n. n.nonce ∷ [];
  decode = λ raw. elim raw [ [] ↦ none | x ∷ _ ↦ some (record nonce_data { nonce = x }) ];
}

gensig_size :
    (raw : List ℕ) (n : NonceData) → nonce_codec.decode raw ≡ some n → length n.generation_sig ≡ 32
gensig_size [] n e = absurd cc
gensig_size (x ∷ _) n e =
    ap (λ (x : NonceData). length x.generation_sig) (sym (some-injective _ _ e)) ∙ length-zeros 32

abbrev api : Api
api = record {
  difficulty = λ parent. some 488671834567;
  identifier = λ parent. some algorithm_identifier;
}

verify-ne-ok_example :
    verify hash codec store
      (randomx_algorithm nonce_codec hex_pairs api)
      0
      none
      (4 ∷ [])
      (ok 1000)
      runtime
      from_network
      (sealed_header (proposal []) (9 ∷ []))
      none
      none
    ≢ ok params
verify-ne-ok_example =
    verify-ne-ok nonce_codec hex_pairs api hex_pairs-Halves gensig_size hash codec store 0 none
      (4 ∷ []) (ok 1000) runtime from_network (sealed_header (proposal []) (9 ∷ [])) none none
      params

abbrev hash32 : Header → List ℕ
hash32 header = zeros 32

-- A pass with a plot file of the right length.
abbrev passes : List (World × (ℕ → Option (List ℕ)))
passes = (world, λ i. some (zeros 1073741824)) ∷ []

thread-mining_example :
    thread hash32 codec
      (randomx_algorithm nonce_codec hex_pairs api)
      2
      none
      (map (mining nonce_codec hex_pairs) passes)
    ≡ []
thread-mining_example =
    thread-mining nonce_codec hex_pairs hex_pairs-Halves hash32 (λ header. length-zeros 32) codec
      (randomx_algorithm nonce_codec hex_pairs api) 2 none passes
