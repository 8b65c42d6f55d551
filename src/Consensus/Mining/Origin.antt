-- ===== src/Consensus/Mining/Origin.antt =====
-- vendor/substrate/core/consensus/poc/src/lib.rs: how the blocks that `mine_loop` imports come about.
use conjugate_poc.Common.{
  ℕ, zero, suc, ◌≤◌, ltb, ltb-false→le, ◌≡◌, refl, ap, ◌∙◌, Bool, true, false, Bool-cases, if-false,
  inl, inr, List, Option, none, some, Outcome, ok, err, panic, >>=-eq-ok,
}
use conjugate_poc.Poc.Bytes.{same_bytes}
use conjugate_poc.Poc.Codec.{Codec}
use conjugate_poc.Consensus.{
  Header, PocAux, read, Error, Algorithm, BlockImportParams, best_of, increment,
}
use conjugate_poc.Consensus.Mining.{
  World, Sealing, out_of_fuel, new_best, found, seal_loop, Pass, imported, dropped, skipped,
  best_header, inherent_digest, mined_params, finish, after_sealing, seal_block, mine_pass,
}

-- A seal that the loop finds is the one that some try gave.
seal_loop-found :
    (fuel : ℕ) (tries : ℕ → Outcome Error (Option (List ℕ))) (best_at : ℕ → List ℕ)
    (best_hash nonce_data : List ℕ)
    → seal_loop fuel tries best_at best_hash ≡ ok (found nonce_data)
    → (i : ℕ) × (tries i ≡ ok (some nonce_data))
unfolding seal_loop
seal_loop-found zero tries best_at best_hash nonce_data e = absurd cc
seal_loop-found (suc fuel) tries best_at best_hash nonce_data e =
    go (tries 0) refl (same_bytes best_hash (best_at 0)) refl
      (seal_loop-found fuel (λ i. tries (suc i)) (λ i. best_at (suc i)) best_hash nonce_data)
  where
    go :
        (first : Outcome Error (Option (List ℕ)))
        → tries 0 ≡ first
        → (same : Bool) → same_bytes best_hash (best_at 0) ≡ same
        → (seal_loop fuel (λ i. tries (suc i)) (λ i. best_at (suc i)) best_hash
              ≡ ok (found nonce_data)
            → (i : ℕ) × (tries (suc i) ≡ ok (some nonce_data)))
        → (i : ℕ) × (tries i ≡ ok (some nonce_data))
    go (ok (some other)) t same s rest =
        let hit : ◌≡◌ {A = Outcome Error Sealing} (ok (found other)) (ok (found nonce_data)) =
          rw (seal_loop, t) at e in
        let is : other ≡ nonce_data = cc in (0, t ∙ ap (λ x. ok (some x)) is)
    go (ok none) t true s rest =
        let later = rest (rw (seal_loop, t, s) at e) in (suc later.0, later.1)
    go (ok none) t false s rest =
        let no : ◌≡◌ {A = Outcome Error Sealing} (ok new_best) (ok (found nonce_data)) =
          rw (seal_loop, t, s) at e in
        absurd cc
    go (err x) t same s rest =
        let no : ◌≡◌ {A = Outcome Error Sealing} (err x) (ok (found nonce_data)) =
          rw (seal_loop, t) at e in
        absurd cc
    go panic t same s rest =
        let no : ◌≡◌ {A = Outcome Error Sealing} panic (ok (found nonce_data)) =
          rw (seal_loop, t) at e in
        absurd cc

imported-injective :
    {p q : BlockImportParams}
    → ◌≡◌ {A = Outcome Error Pass} (ok (imported p)) (ok (imported q))
    → p ≡ q
imported-injective e = cc

module _ (hash : Header → List ℕ) (codec : Codec PocAux) (algorithm : Algorithm) (w : World) where
  -- The best block's total difficulty, as read last, is at most the new block's.
  pub record NotBehind (parent_total difficulty : ℕ) : Type 0 where
    pub after : List ℕ
    pub best_aux : PocAux
    pub selected : best_of hash w.select_after w.client_best_after ≡ ok after
    pub best_read : read codec w.get_aux_after after ≡ ok best_aux
    pub at_least : best_aux.total_difficulty ≤ increment parent_total difficulty

  -- How an imported block came about.
  pub record IsMined (preruntime : Option (List ℕ)) (p : BlockImportParams) : Type 0 where
    pub best_hash : List ℕ
    pub best : Header
    pub aux : PocAux
    pub header : Header
    pub body : List (List ℕ)
    pub difficulty : ℕ
    pub nonce_data : List ℕ
    pub try : ℕ
    pub chosen : best_header hash w ≡ ok (best_hash, best)
    pub parent_read : read codec w.get_aux best_hash ≡ ok aux
    pub proposed : w.propose best (inherent_digest preruntime) ≡ ok (header, body)
    pub at_difficulty : algorithm.difficulty best_hash ≡ ok difficulty
    pub mined : w.poc_mine try best_hash (hash header) difficulty ≡ ok (some nonce_data)
    pub params : mined_params hash codec algorithm aux header body difficulty nonce_data ≡ p
    pub not_behind : NotBehind aux.total_difficulty difficulty

  finish-params :
      (aux : PocAux) (header : Header) (body : List (List ℕ)) (difficulty : ℕ) (nonce_data : List ℕ)
      (p : BlockImportParams)
      → finish hash codec algorithm w aux header body difficulty nonce_data ≡ ok (imported p)
      → (mined_params hash codec algorithm aux header body difficulty nonce_data ≡ p)
        × NotBehind aux.total_difficulty difficulty
  unfolding finish
  finish-params aux header body difficulty nonce_data p e =
      let (best_hash, b, e1) = >>=-eq-ok (best_of hash w.select_after w.client_best_after) _ e in
      let (best_aux, r, e2) = >>=-eq-ok (read codec w.get_aux_after best_hash) _ e1 in
      elim (Bool-cases
        (ltb (increment aux.total_difficulty difficulty) best_aux.total_difficulty)) [
          | inl behind ↦
              (let no : ◌≡◌ {A = Outcome Error Pass} (ok dropped) (ok (imported p)) =
                  rw behind at e2 in
                absurd cc)
          | inr ahead ↦
              (let (done, i, e3) =
                  >>=-eq-ok
                    (w.import_block
                      (mined_params hash codec algorithm aux header body difficulty nonce_data))
                    (λ _. ok (
                      imported
                        (mined_params hash codec algorithm aux header body difficulty nonce_data)))
                    (rw ahead at e2) in
                (
                  imported-injective e3,
                  record {
                    after = best_hash;
                    best_aux = best_aux;
                    selected = b;
                    best_read = r;
                    at_least =
                        ltb-false→le (increment aux.total_difficulty difficulty)
                          best_aux.total_difficulty ahead;
                  },
                ))
        ]

  after_sealing-found :
      (aux : PocAux) (header : Header) (body : List (List ℕ)) (difficulty : ℕ) (sealing : Sealing)
      (p : BlockImportParams)
      → after_sealing hash codec algorithm w aux header body difficulty sealing ≡ ok (imported p)
      → (nonce_data : List ℕ) × (sealing ≡ found nonce_data)
        × (mined_params hash codec algorithm aux header body difficulty nonce_data ≡ p)
        × NotBehind aux.total_difficulty difficulty
  unfolding after_sealing
  after_sealing-found aux header body difficulty out_of_fuel p e = absurd cc
  after_sealing-found aux header body difficulty new_best p e = absurd cc
  after_sealing-found aux header body difficulty (found nonce_data) p e =
      let (is, ahead) = finish-params aux header body difficulty nonce_data p e in
      (nonce_data, refl, is, ahead)

  pub mine_pass-IsMined :
      (fuel : ℕ) (preruntime : Option (List ℕ)) (p : BlockImportParams)
      → mine_pass hash codec algorithm fuel preruntime w ≡ ok (imported p)
      → IsMined preruntime p
  unfolding mine_pass seal_block
  mine_pass-IsMined fuel preruntime p e = elim (Bool-cases w.is_major_syncing) [
    | inl syncing ↦
        (let no : ◌≡◌ {A = Outcome Error Pass} (ok skipped) (ok (imported p)) = rw syncing at e in
          absurd cc)
    | inr synced ↦
        (let (best, chosen, e1) =
            >>=-eq-ok (best_header hash w) _ (if-false w.is_major_syncing _ _ _ synced e) in
          let (aux, parent_read, e2) = >>=-eq-ok (read codec w.get_aux best.0) _ e1 in
          let (i, _, e3) = >>=-eq-ok (w.init best.1) _ e2 in
          let (d, _, e4) = >>=-eq-ok w.inherent_data _ e3 in
          let (block, proposed, e5) =
            >>=-eq-ok (w.propose best.1 (inherent_digest preruntime)) _ e4 in
          let (difficulty, at_difficulty, e6) = >>=-eq-ok (algorithm.difficulty best.0) _ e5 in
          let (sealing, looped, e7) =
            >>=-eq-ok
              (seal_loop fuel (λ i. w.poc_mine i best.0 (hash block.0) difficulty) w.best_at best.0)
              _ e6 in
          let (nonce_data, is, params, not_behind) =
            after_sealing-found aux block.0 block.1 difficulty sealing p e7 in
          let (try, mined) =
            seal_loop-found fuel (λ i. w.poc_mine i best.0 (hash block.0) difficulty) w.best_at
              best.0 nonce_data (looped ∙ ap ok is) in
          record {
            best_hash = best.0;
            best = best.1;
            aux = aux;
            header = block.0;
            body = block.1;
            difficulty = difficulty;
            nonce_data = nonce_data;
            try = try;
            chosen = chosen;
            parent_read = parent_read;
            proposed = proposed;
            at_difficulty = at_difficulty;
            mined = mined;
            params = params;
            not_behind = not_behind;
          })
  ]
