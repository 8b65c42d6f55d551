-- ===== src/Poc/Capacity.antt =====
-- poc/src/lib.rs: `NonceData`, `decode_gensig`, `poc_verify` and `poc_mine`. The codec, `hex`, the
-- client's runtime calls and the plot file are arguments. The lines that only print are left out,
-- but not the divisions and casts that they make.
pub mod Check
pub mod Mined
pub mod Panics
use conjugate_poc.Common.{
  ℕ, zero, suc, ◌+◌, ◌-◌, ◌*◌, ◌/◌, ◌%◌, ◌^◌, ◌==◌, ltb, leb, if◌then◌else◌, Bool, true, false,
  ◌&&◌, List, [], ◌∷◌, Option, none, some, length, replicate, map, ◌++◌, Outcome, ok, err, panic,
  get_elem?,
}
use mathlib.Core.List.{reverse}
use conjugate_poc.Common.Panic.{◌>>=◌, slice, copy_into}
use conjugate_poc.Primitives.{algorithm_identifier}
use conjugate_poc.Poc.Bytes.{same_bytes}
use conjugate_poc.Poc.Codec.{Codec}
use conjugate_poc.Poc.Plot.{noncegen_rust}
use conjugate_poc.Poc.Scoop.{calculate_scoop, find_best_deadline_rust}

-- `vec![0u8; n]` and `[0; n]`.
unfoldable pub zeros : ℕ → List ℕ
zeros n = replicate n 0

pub record NonceData : Type 0 where
  pub height : ℕ
  pub deadline : ℕ
  pub nonce : ℕ
  pub reader_task_processed : Bool
  pub account_id : ℕ
  pub generation_sig : List ℕ

pub data Error : Type 0 where
  identifier_failed : Error

-- The zero array, filled from what `hex::decode` makes of the raw bytes.
unfoldable pub decode_gensig : (List ℕ → Option (List ℕ)) → List ℕ → Option (List ℕ)
decode_gensig hex_decode gensig = do bytes ← hex_decode gensig; copy_into (zeros 32) 0 32 bytes

-- `U256::as_u64` and a division by it.
unfoldable pub adjusted : ℕ → ℕ → Option ℕ
adjusted deadline base_target =
    if ltb base_target (2 ^ 64)
    then (if base_target == 0 then none else some (deadline / base_target))
    else none

-- The deadline that `poc_verify` computes for an account, a nonce and a height.
unfoldable pub computed_deadline : ℕ → ℕ → ℕ → List ℕ → Option ℕ
computed_deadline account_id nonce height gensig =
    let scoop = calculate_scoop height gensig in
    let address = 64 * scoop in
    let mirroraddress = 64 * (4095 - scoop) in
    do
      cache ← noncegen_rust (zeros 262144) account_id nonce 1
      low ← slice cache address (address + 32)
      half ← copy_into (zeros 64) 0 32 low
      high ← slice cache (mirroraddress + 32) (mirroraddress + 64)
      mirrorscoopdata ← copy_into half 32 64 high
      best ← find_best_deadline_rust mirrorscoopdata 1 gensig
      some best.0

-- The part of `poc_verify` after the generation signature is decoded.
unfoldable pub check_nonce : NonceData → ℕ → List ℕ → Option Bool
check_nonce nonce_data base_target gensig = do
  deadline ← computed_deadline nonce_data.account_id nonce_data.nonce nonce_data.height gensig
  deadline_adj ← adjusted deadline base_target
  some (nonce_data.deadline == deadline)

-- A panic of the code so far is a panic of the call.
abbrev pub returned {ℓ} : {A : Type ℓ} → Option A → Outcome Error A
returned none = panic
returned (some a) = ok a

module _ (codec : Codec NonceData) (hex_decode : List ℕ → Option (List ℕ)) where
  -- `identifier` is what the runtime call returns for the parent, `none` its failure.
  unfoldable pub poc_verify : Option (List ℕ) → List ℕ → ℕ → Outcome Error Bool
  poc_verify none nonce_data base_target = err identifier_failed
  poc_verify (some identifier) nonce_data base_target =
      let checked : Outcome Error Bool = elim (codec.decode nonce_data) [
        | none ↦ ok false
        | some decoded ↦ returned (do
          gensig ← decode_gensig hex_decode decoded.generation_sig
          check_nonce decoded base_target gensig)
      ] in
      if same_bytes identifier algorithm_identifier then checked else panic

-- `name.split("_")`: the pieces between the separators.
unfoldable pub split_on : ℕ → List ℕ → List ℕ → List (List ℕ)
split_on separator piece [] = reverse piece ∷ []
split_on separator piece (c ∷ rest) =
    if c == separator
    then reverse piece ∷ split_on separator [] rest
    else split_on separator (c ∷ piece) rest

-- `parse::<u64>()` of a piece with no sign.
unfoldable pub parse_digits : ℕ → List ℕ → Option ℕ
parse_digits n [] = some n
parse_digits n (c ∷ rest) =
    let n' = n * 10 + (c - b'0') in
    let more = parse_digits n' rest in
    if leb b'0' c && leb c b'9' && ltb n' (2 ^ 64) then more else none

unfoldable pub parse_u64 : List ℕ → Option ℕ
unfolding parse_digits
parse_u64 [] = none
parse_u64 (c ∷ rest) = parse_digits 0 (c ∷ rest)

-- "10790126960500947771_1_4096".
abbrev pub plot_name : List ℕ
plot_name =
    map (λ d. b'0' + d)
      (1 ∷ 0 ∷ 7 ∷ 9 ∷ 0 ∷ 1 ∷ 2 ∷ 6 ∷ 9 ∷ 6 ∷ 0 ∷ 5 ∷ 0 ∷ 0 ∷ 9 ∷ 4 ∷ 7 ∷ 7 ∷ 7 ∷ 1 ∷ [])
    ++ (b'_' ∷ b'1' ∷ b'_' ∷ b'4' ∷ b'0' ∷ b'9' ∷ b'6' ∷ [])

-- `parts[i].parse::<u64>().unwrap()`.
unfoldable pub name_part : List ℕ → ℕ → Option ℕ
unfolding split_on parse_u64
name_part name i = do part ← get_elem? (split_on b'_' [] name) i; parse_u64 part

-- The part of `poc_mine` after the generation signature is decoded: read the scoop of the nonce
-- from the plot file and make the nonce data.
unfoldable pub mine_nonce : ℕ → ℕ → ℕ → List ℕ → ℕ → List ℕ → List ℕ → Option NonceData
mine_nonce account_id start_nonce nonce file base_target generation_sig gensig =
    let height : ℕ = 1 in
    let scoop = calculate_scoop height gensig in
    let address = scoop * 64 * 4096 + (nonce - start_nonce) * 64 in
    do
      scoopdata ← slice file address (address + 64)
      best ← find_best_deadline_rust scoopdata 1 gensig
      deadline_adj ← adjusted best.0 base_target
      some (record {
        height = height;
        deadline = best.0;
        nonce = best.1;
        reader_task_processed = true;
        account_id = account_id;
        generation_sig = generation_sig;
      })

module _ (codec : Codec NonceData) (hex_decode : List ℕ → Option (List ℕ)) where
  -- The part of `poc_mine` on the opened file, with the numbers of its name.
  unfoldable pub mine_file : ℕ → ℕ → ℕ → List ℕ → List ℕ → ℕ → Option (Option (List ℕ))
  mine_file account_id start_nonce nonces file generation_sig base_target =
      let nonce : ℕ = 1 in
      let mined : Option (Option (List ℕ)) = (do
        gensig ← decode_gensig hex_decode generation_sig
        noncedata ← mine_nonce account_id start_nonce nonce file base_target generation_sig gensig
        some (some (codec.encode noncedata))) in
      if length file == (nonces * 4096 * 64) % 2 ^ 64
      then (if leb start_nonce nonce && ltb nonce (start_nonce + nonces) then mined else some none)
      else some none

  -- `plotfile` is the content of the file, `none` if it is not there.
  unfoldable pub poc_mine : Option (List ℕ) → List ℕ → ℕ → Outcome Error (Option (List ℕ))
  poc_mine none generation_sig base_target = ok none
  poc_mine (some file) generation_sig base_target = returned (do
    account_id ← name_part plot_name 0
    start_nonce ← name_part plot_name 1
    nonces ← name_part plot_name 2
    mine_file account_id start_nonce nonces file generation_sig base_target)
