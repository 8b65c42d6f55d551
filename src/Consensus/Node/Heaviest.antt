-- ===== src/Consensus/Node/Heaviest.antt =====
-- vendor/substrate/core/consensus/poc/src/lib.rs: the best block of a node that runs the engine.
use conjugate_poc.Common.{
  ℕ, ◌≤◌, if◌then◌else◌, ◌≡◌, refl, sym, ap, ap₂, ◌∙◌, arith, inl, inr, Bool, true, false,
  Bool-cases, List, [], ◌∷◌, ◌++◌, Outcome, ok, ok-injective,
}
use mathlib.Core.Path.{subst}
use conjugate_poc.Poc.Bytes.{same_bytes, same_bytes_refl}
use conjugate_poc.Poc.Codec.{Codec, RoundTrips}
use conjugate_poc.Consensus.{
  Header, DigestItem, PocAux, seal, poc_engine_id, aux_key, read, Error, Algorithm,
  BlockImportParams,
}
use conjugate_poc.Consensus.Checked.{IsAccepted}
use conjugate_poc.Consensus.{AuxStore}
use conjugate_poc.Common.{none}
use conjugate_poc.Consensus.Node.{post_header, with_entry}
use conjugate_poc.Consensus.Node.Read.{pop-eq, read-added_same, read-added_other}

abbrev with_digest : Header → List DigestItem → Header
with_digest h d = record h { digest = d }

-- What the chain stores of a verified block is the header that was verified.
pub post_header-eq :
    (hash : Header → List ℕ) (algorithm : Algorithm) (header : Header) (parent : List ℕ)
    (p : BlockImportParams) (difficulty : ℕ) (nonce_data : List ℕ)
    → IsAccepted hash algorithm header parent p.header difficulty nonce_data
    → p.post_digests ≡ seal poc_engine_id nonce_data ∷ []
    → post_header p ≡ header
post_header-eq hash algorithm header parent p difficulty nonce_data accepted digests =
    ap₂ with_digest (sym accepted.rest) (
      ap (λ d. p.header.digest ++ d) digests
      ∙ sym (pop-eq header.digest p.header.digest (seal poc_engine_id nonce_data) accepted.taken))

module _ (codec : Codec PocAux) where
  -- No block that there is data of is above the best one.
  pub record IsHeaviest (get_aux : AuxStore) (best : List ℕ) : Type 0 where
    pub best_aux : PocAux
    pub best_read : read codec get_aux best ≡ ok best_aux
    pub heaviest :
        (h : List ℕ) (a : PocAux)
        → read codec get_aux h ≡ ok a
        → a.total_difficulty ≤ best_aux.total_difficulty

  -- Without any data.
  pub start-IsHeaviest :
      (get_aux : AuxStore) (best : List ℕ)
      → ((k : List ℕ) → get_aux k ≡ ok none)
      → IsHeaviest get_aux best
  unfolding read
  start-IsHeaviest get_aux best no_data = record {
    best_aux = record { difficulty = 0; total_difficulty = 0 };
    best_read = rw (no_data (aux_key best)) refl;
    heaviest = λ h a e.
        let is : record { difficulty = 0; total_difficulty = 0 } ≡ a =
          ok-injective (rw (no_data (aux_key h)) at e) in
        subst (λ (a : PocAux). a.total_difficulty ≤ 0) is (omega arith);
  }

  -- The total difficulty of the best block does not fall.
  abbrev pub NoLower : AuxStore → List ℕ → AuxStore → List ℕ → Type 0
  NoLower before best after best' =
      (a b : PocAux)
      → read codec before best ≡ ok a
      → read codec after best' ≡ ok b
      → a.total_difficulty ≤ b.total_difficulty

  same-aux :
      (get_aux : AuxStore) (k : List ℕ) (a b : PocAux)
      → read codec get_aux k ≡ ok a
      → read codec get_aux k ≡ ok b
      → a ≡ b
  same-aux get_aux k a b r s = ok-injective (sym r ∙ s)

  -- The best block, as the engine asks for it.
  pub seen_best :
      (get_aux : AuxStore) (best : List ℕ) (s : IsHeaviest get_aux best) (best_hash : List ℕ)
      (best_aux : PocAux) (o : Outcome Error (List ℕ))
      → o ≡ ok best
      → o ≡ ok best_hash
      → read codec get_aux best_hash ≡ ok best_aux
      → best_aux ≡ s.best_aux
  seen_best get_aux best s best_hash best_aux o sees selected r =
      let is : best_hash ≡ best = ok-injective (sym selected ∙ sees) in
      same-aux get_aux best best_aux s.best_aux
        (subst (λ h. read codec get_aux h ≡ ok best_aux) is r) s.best_read

  module _ (round_trips : RoundTrips codec) (h : List ℕ) (a : PocAux) (before after : AuxStore)
      (added : (k : List ℕ) → after k ≡ with_entry (aux_key h) (codec.encode a) before k)
      (best : List ℕ) (s : IsHeaviest before best) where
    -- One more block, when the best one after it is `c`.
    with_best :
        (best' : List ℕ) (c : PocAux)
        → read codec after best' ≡ ok c
        → a.total_difficulty ≤ c.total_difficulty
        → s.best_aux.total_difficulty ≤ c.total_difficulty
        → IsHeaviest after best' × NoLower before best after best'
    with_best best' c r below kept = (
      record {
        best_aux = c;
        best_read = r;
        heaviest = λ k x e. elim (Bool-cases (same_bytes k h)) [
          | inl same ↦
              (let is : a ≡ x =
                  ok-injective
                    (sym (read-added_same codec round_trips h a before after added k same) ∙ e) in
                subst (λ (y : PocAux). y.total_difficulty ≤ c.total_difficulty) is below)
          | inr differs ↦
              (let known =
                  s.heaviest k x (
                    sym (read-added_other codec round_trips h a before after added k differs)
                    ∙ e) in
                omega arith)
        ];
      },
      λ x y was is.
          let x_is : s.best_aux ≡ x = ok-injective (sym s.best_read ∙ was) in
          let y_is : c ≡ y = ok-injective (sym r ∙ is) in
          subst (λ (y : PocAux). x.total_difficulty ≤ y.total_difficulty) y_is
            (subst (λ (x : PocAux). x.total_difficulty ≤ c.total_difficulty) x_is kept),
    )

    -- One more block, which is the best one or not.
    pub with_block :
        (custom : Bool)
        → (custom ≡ true → s.best_aux.total_difficulty ≤ a.total_difficulty)
        → (custom ≡ false
            → (a.total_difficulty ≤ s.best_aux.total_difficulty) × (same_bytes best h ≡ false))
        → let best' = if custom then h else best in
          IsHeaviest after best' × NoLower before best after best'
    with_block true above below =
        with_best h a
          (read-added_same codec round_trips h a before after added h (same_bytes_refl h))
          (omega arith) (above refl)
    with_block false above below =
        with_best best s.best_aux
          (read-added_other codec round_trips h a before after added best (below refl).1
            ∙ s.best_read)
          (below refl).0 (omega arith)
