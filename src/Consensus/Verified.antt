-- ===== src/Consensus/Verified.antt =====
-- vendor/substrate/core/consensus/poc/src/lib.rs: what a verified block is.
use conjugate_poc.Common.{
  ℕ, ltb, ◌≡◌, refl, sym, ap, ◌∙◌, Bool, false, List, [], ◌∷◌, Option, Outcome, ok, >>=-eq-ok,
  ok-injective,
}
use mathlib.Core.Path.{subst}
use conjugate_poc.Poc.Codec.{Codec}
use conjugate_poc.Consensus.{
  Header, seal, poc_engine_id, aux_key, increment, PocAux, AuxStore, read, Error, CheckError,
  Algorithm, BlockOrigin, BlockImportParams, best_of, check_body, check_header, verify, pop,
  Checked,
}
use conjugate_poc.Consensus.Checked.{IsAccepted, check_popped}

module _ (hash : Header → List ℕ) (codec : Codec PocAux) (get_aux : AuxStore)
    (algorithm : Algorithm) (check_inherents_after : ℕ) (select : Option (Option Header))
    (client_best : List ℕ) (now : Outcome Error ℕ)
    (runtime : Header → List (List ℕ) → Outcome Error (Bool × List CheckError))
    (origin : BlockOrigin) (header : Header) (justification : Option (List ℕ))
    (body : Option (List (List ℕ))) where
  -- How the imported block comes from the header and the node's auxiliary data.
  pub record IsVerified (p : BlockImportParams) : Type 0 where
    pub best_hash : List ℕ
    pub best_aux : PocAux
    pub parent_aux : PocAux
    pub difficulty : ℕ
    pub nonce_data : List ℕ
    pub selected : best_of hash select client_best ≡ ok best_hash
    pub best_read : read codec get_aux best_hash ≡ ok best_aux
    pub parent_read : read codec get_aux header.parent_hash ≡ ok parent_aux
    pub sealed : IsAccepted hash algorithm header header.parent_hash p.header difficulty nonce_data
    pub digests : p.post_digests ≡ seal poc_engine_id nonce_data ∷ []
    pub stored :
        p.auxiliary
        ≡ (
          aux_key (hash header),
          codec.encode (record {
            difficulty = difficulty;
            total_difficulty = increment parent_aux.total_difficulty difficulty;
          }),
        )
          ∷ []
    pub best :
        p.custom ≡ ltb best_aux.total_difficulty (increment parent_aux.total_difficulty difficulty)
    pub kept : (p.body ≡ body) × (p.origin ≡ origin) × (p.finalized ≡ false)

  -- A block that `verify` passes ends with the engine's seal, and the algorithm accepts the seal for
  -- the header without it at the parent's difficulty; the total difficulty stored for it is the
  -- parent's raised by that difficulty, and it becomes the best exactly if its total is above that
  -- of the best block.
  pub verify-IsVerified :
      (p : BlockImportParams)
      → verify hash codec get_aux algorithm check_inherents_after select client_best now runtime
          origin header justification body
        ≡ ok p
      → IsVerified p
  unfolding verify
  verify-IsVerified p e =
      let (timestamp_now, t, e1) = >>=-eq-ok now _ e in
      let (best_hash, b, e2) = >>=-eq-ok (best_of hash select client_best) _ e1 in
      let (best_aux, ba, e3) = >>=-eq-ok (read codec get_aux best_hash) _ e2 in
      let (aux, pa, e4) = >>=-eq-ok (read codec get_aux header.parent_hash) _ e3 in
      let (checked, c, e5) =
        >>=-eq-ok (check_header hash algorithm header header.parent_hash) _ e4 in
      let (done, _, e6) =
        >>=-eq-ok
          (check_body check_inherents_after checked.0 body (runtime checked.0) timestamp_now) _
          e5 in
      let (nonce_data, accepted, is_seal) =
        check_popped hash algorithm header header.parent_hash checked c (pop header.digest) refl in
      subst IsVerified (ok-injective e6) (record {
        best_hash = best_hash;
        best_aux = best_aux;
        parent_aux = aux;
        difficulty = checked.1;
        nonce_data = nonce_data;
        selected = b;
        best_read = ba;
        parent_read = pa;
        sealed = accepted;
        digests = ap (λ x. x ∷ []) is_seal;
        stored = refl;
        best = refl;
        kept = (refl, refl, refl);
      })

  -- A block that `verify` passes passed the runtime's check.
  pub verify-check_body :
      (p : BlockImportParams) (timestamp_now : ℕ)
      → now ≡ ok timestamp_now
      → verify hash codec get_aux algorithm check_inherents_after select client_best now runtime
          origin header justification body
        ≡ ok p
      → check_body check_inherents_after p.header body (runtime p.header) timestamp_now ≡ ok tt
  unfolding verify
  verify-check_body p timestamp_now clock e =
      let (timestamp, t, e1) = >>=-eq-ok now _ e in
      let (best_hash, b, e2) = >>=-eq-ok (best_of hash select client_best) _ e1 in
      let (best_aux, ba, e3) = >>=-eq-ok (read codec get_aux best_hash) _ e2 in
      let (aux, pa, e4) = >>=-eq-ok (read codec get_aux header.parent_hash) _ e3 in
      let (checked, c, e5) =
        >>=-eq-ok (check_header hash algorithm header header.parent_hash) _ e4 in
      let (done, d, e6) =
        >>=-eq-ok (check_body check_inherents_after checked.0 body (runtime checked.0) timestamp) _
          e5 in
      let same : checked.0 ≡ p.header =
        ap (λ (p : BlockImportParams). p.header) (ok-injective e6) in
      let at : timestamp ≡ timestamp_now = ok-injective (sym t ∙ clock) in
      subst (λ h. check_body check_inherents_after h body (runtime h) timestamp_now ≡ ok tt) same
        (subst (λ t. check_body check_inherents_after checked.0 body (runtime checked.0) t ≡ ok tt)
          at d)

  -- What `verify` returns when nothing fails.
  pub verify-ok :
      (best_hash : List ℕ) (best_aux aux : PocAux) (checked : Checked) (timestamp_now : ℕ)
      → now ≡ ok timestamp_now
      → best_of hash select client_best ≡ ok best_hash
      → read codec get_aux best_hash ≡ ok best_aux
      → read codec get_aux header.parent_hash ≡ ok aux
      → check_header hash algorithm header header.parent_hash ≡ ok checked
      → check_body check_inherents_after checked.0 body (runtime checked.0) timestamp_now ≡ ok tt
      → let total = increment aux.total_difficulty checked.1 in
        verify hash codec get_aux algorithm check_inherents_after select client_best now runtime
          origin header justification body
        ≡ ok (record {
          origin = origin;
          header = checked.0;
          justification = justification;
          post_digests = checked.2 ∷ [];
          body = body;
          finalized = false;
          auxiliary =
              (
                aux_key (hash header),
                codec.encode (record { difficulty = checked.1; total_difficulty = total }),
              )
              ∷ [];
          custom = ltb best_aux.total_difficulty total;
        })
  unfolding verify
  verify-ok best_hash best_aux aux checked timestamp_now t b ba pa c d =
      rw (t, b, ba, pa, c, d) refl
