-- ===== src/Consensus/Checked.antt =====
-- vendor/substrate/core/consensus/poc/src/lib.rs: what `check_header` accepts.
use conjugate_poc.Common.{
  ℕ, ◌≡◌, refl, ap, ◌∙◌, true, Bool-cases, inl, inr, List, [], ◌∷◌, ◌++◌, Option, none, some, ok,
  err, >>=-eq-ok,
}
use mathlib.Core.Path.{subst}
use conjugate_poc.Poc.Bytes.{same_bytes, same_bytes_refl, same_bytes-eq}
use conjugate_poc.Consensus.{
  Header, DigestItem, seal, pre_runtime, other_item, poc_engine_id, Algorithm, check_header,
  check_sealed, pop, Checked, unsealed, wrong_engine, invalid_nonce_data,
}

pop-append : (xs : List DigestItem) (x : DigestItem) → pop (xs ++ (x ∷ [])) ≡ some (x, xs)
unfolding pop
pop-append [] x = refl
pop-append (y ∷ ys) x = rw (pop-append ys x) refl

module _ (hash : Header → List ℕ) (algorithm : Algorithm) where
  -- A header with the engine's seal at the end of its digest passes when the algorithm accepts the
  -- seal for the header without it.
  pub check_header-sealed :
      (header : Header) (nonce_data parent : List ℕ) (difficulty : ℕ)
      → algorithm.difficulty parent ≡ ok difficulty
      → algorithm.poc_verify parent (hash header) nonce_data difficulty ≡ ok true
      → check_header hash algorithm
          (record header { digest = header.digest ++ (seal poc_engine_id nonce_data ∷ []) })
          parent
        ≡ ok (header, difficulty, seal poc_engine_id nonce_data)
  unfolding check_header check_sealed
  check_header-sealed header nonce_data parent difficulty d v =
      rw
        (
          check_header,
          pop-append header.digest (seal poc_engine_id nonce_data),
          same_bytes_refl poc_engine_id,
          check_sealed,
          d,
          v,
        )
        refl

-- A header whose last digest is the engine's seal: without it, `unsealed_header`, which the algorithm
-- accepts with the seal at its difficulty.
pub record IsAccepted (hash : Header → List ℕ) (algorithm : Algorithm) (header : Header)
    (parent : List ℕ) (unsealed_header : Header) (difficulty : ℕ) (nonce_data : List ℕ)
    : Type 0 where
  pub at_difficulty : algorithm.difficulty parent ≡ ok difficulty
  pub accepted : algorithm.poc_verify parent (hash unsealed_header) nonce_data difficulty ≡ ok true
  pub taken : pop header.digest ≡ some (seal poc_engine_id nonce_data, unsealed_header.digest)
  pub rest : record header { digest = unsealed_header.digest } ≡ unsealed_header

module _ (hash : Header → List ℕ) (algorithm : Algorithm) where
  check_sealed-Accepted :
      (header : Header) (parent nonce_data : List ℕ) (c : Checked)
      → check_sealed hash algorithm header parent nonce_data ≡ ok c
      → (difficulty : ℕ) × (algorithm.difficulty parent ≡ ok difficulty)
        × (algorithm.poc_verify parent (hash header) nonce_data difficulty ≡ ok true)
        × ((header, difficulty, seal poc_engine_id nonce_data) ≡ c)
  unfolding check_sealed
  check_sealed-Accepted header parent nonce_data c e =
      let (difficulty, d, e1) = >>=-eq-ok (algorithm.difficulty parent) _ e in
      let (valid, v, e2) =
        >>=-eq-ok (algorithm.poc_verify parent (hash header) nonce_data difficulty) _ e1 in
      elim (Bool-cases valid) [
        | inl good ↦ (
          difficulty,
          d,
          v ∙ ap ok good,
          (let is : ok (header, difficulty, seal poc_engine_id nonce_data) ≡ ok c = rw good at e2 in
              cc),
        )
        | inr wrong ↦ (let bad : err invalid_nonce_data ≡ ok c = rw wrong at e2 in absurd cc)
      ]

  pub check_popped :
      (header : Header) (parent : List ℕ) (c : Checked)
      → check_header hash algorithm header parent ≡ ok c
      → (popped : Option (DigestItem × List DigestItem)) → pop header.digest ≡ popped
      → (nonce_data : List ℕ) × IsAccepted hash algorithm header parent c.0 c.1 nonce_data
        × (c.2 ≡ seal poc_engine_id nonce_data)
  unfolding check_header
  check_popped header parent c e none popped =
      (let bad : err (unsealed (hash header)) ≡ ok c = rw (check_header, popped) at e in absurd cc)
  check_popped header parent c e (some (pre_runtime id bytes, rest)) popped =
      (let bad : err (unsealed (hash header)) ≡ ok c = rw (check_header, popped) at e in absurd cc)
  check_popped header parent c e (some (other_item bytes, rest)) popped =
      (let bad : err (unsealed (hash header)) ≡ ok c = rw (check_header, popped) at e in absurd cc)
  check_popped header parent c e (some (seal id nonce_data, rest)) popped =
      elim (Bool-cases (same_bytes id poc_engine_id)) [
        | inl engine ↦
            (let is : id ≡ poc_engine_id = same_bytes-eq id poc_engine_id engine in
              let run : check_sealed hash algorithm (record header { digest = rest }) parent
                    nonce_data
                  ≡ ok c =
                rw (check_header, popped, engine) at e in
              let (difficulty, d, v, same) =
                check_sealed-Accepted (record header { digest = rest }) parent nonce_data c run in
              subst
                (λ (c : Checked).
                  (nonce_data : List ℕ) × IsAccepted hash algorithm header parent c.0 c.1 nonce_data
                  × (c.2 ≡ seal poc_engine_id nonce_data))
                same
                (
                  nonce_data,
                  record {
                    at_difficulty = d;
                    accepted = v;
                    taken = popped ∙ ap (λ x. some (seal x nonce_data, rest)) is;
                    rest = refl;
                  },
                  refl,
                ))
        | inr differs ↦
            (let bad : err (wrong_engine id) ≡ ok c = rw (check_header, popped, differs) at e in
              absurd cc)
      ]
