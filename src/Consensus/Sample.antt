-- ===== src/Consensus/Sample.antt =====
-- vendor/substrate/core/consensus/poc: a concrete world for the engine, where the one seal that is
-- accepted is the byte 9.
use conjugate_poc.Common.{
  ℕ, zero, suc, Bool, true, false, List, [], ◌∷◌, Option, none, some, Outcome, ok, length,
}
use conjugate_poc.Poc.Bytes.{same_bytes}
use conjugate_poc.Poc.Codec.{Codec}
use conjugate_poc.Consensus.{
  Header, DigestItem, PocAux, AuxStore, Error, CheckError, Algorithm, BlockImportParams,
}
use conjugate_poc.Consensus.Mining.{World, mined_params}

abbrev pub hash : Header → List ℕ
hash h = h.number ∷ length h.digest ∷ []

abbrev pub algorithm : Algorithm
algorithm = record {
  difficulty = λ parent. ok 100;
  poc_verify = λ parent pre_hash nonce_data difficulty. ok (same_bytes nonce_data (9 ∷ []));
}

abbrev decode_aux : List ℕ → Option PocAux
decode_aux [] = none
decode_aux (_ ∷ []) = none
decode_aux (d ∷ t ∷ _) = some (record { difficulty = d; total_difficulty = t })

abbrev pub codec : Codec PocAux
codec = record { encode = λ aux. aux.difficulty ∷ aux.total_difficulty ∷ []; decode = decode_aux }

-- The same data under every key.
abbrev pub store : AuxStore
store key = ok (some (50 ∷ 500 ∷ []))

abbrev pub best : Header
best = record {
  parent_hash = 6 ∷ 1 ∷ [];
  number = 7;
  state_root = [];
  extrinsics_root = [];
  digest = [];
}

abbrev pub proposal : List DigestItem → Header
proposal digest = record {
  parent_hash = 7 ∷ 0 ∷ [];
  number = 8;
  state_root = 1 ∷ [];
  extrinsics_root = 2 ∷ [];
  digest = digest;
}

abbrev pub tries : ℕ → Outcome Error (Option (List ℕ))
tries zero = ok none
tries (suc i) = ok (some (9 ∷ []))

abbrev pub world : World
world = record {
  is_major_syncing = false;
  select = some (some best);
  client_best = 7 ∷ 0 ∷ [];
  client_header = λ h. ok (some best);
  get_aux = store;
  init = λ header. ok tt;
  inherent_data = ok tt;
  propose = λ header digest. ok (proposal digest, []);
  poc_mine = λ i parent pre_hash difficulty. tries i;
  best_at = λ i. 7 ∷ 0 ∷ [];
  select_after = none;
  client_best_after = 7 ∷ 0 ∷ [];
  get_aux_after = store;
  import_block = λ p. ok tt;
}

abbrev pub params : BlockImportParams
params =
    mined_params hash codec algorithm (record { difficulty = 50; total_difficulty = 500 })
      (proposal []) [] 100 (9 ∷ [])

abbrev pub runtime : Header → List (List ℕ) → Outcome Error (Bool × List CheckError)
runtime header body = ok (true, [])
