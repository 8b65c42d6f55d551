-- ===== src/Poc/Plot/Rounds.antt =====
-- poc/src/lib.rs: the two hash loops of `noncegen_rust` build the nonce from its end, as a list
-- that grows at the front.
use conjugate_poc.Common.{
  ℕ, zero, suc, ◌+◌, ◌-◌, ◌*◌, ◌%◌, ◌≤◌, ◌≡◌, refl, sym, ap, ◌∙◌, arith, List, [], ◌∷◌, ◌++◌, some,
  length, take, drop, length-take, length-drop, length-append, take-append-drop, get_or,
}
use mathlib.Core.List.{append_assoc}
use conjugate_poc.Common.Panic.{
  slice, copy_into, slice_mid, copy_into_mid, get_elem?_mid, store_mid,
}
use conjugate_poc.Primitives.{hash_size}
use conjugate_poc.Shabal.Word.{◌^^◌}
use conjugate_poc.Shabal.Hash.{shabal256_hash_fast}
use conjugate_poc.Shabal.Hash.Bounds.{hash-IsHash}
use conjugate_poc.Poc.Plot.{hash_rounds, xor_final}

-- Put the hash of what `read` takes of the bytes so far in front of them, `left` times.
pub grow : (List ℕ → List ℕ) → (List ℕ → List ℕ) → ℕ → List ℕ → List ℕ
grow read term zero acc = acc
grow read term (suc left) acc =
    grow read term left (shabal256_hash_fast (read acc) (term acc) ++ acc)

pub length-grow :
    (read term : List ℕ → List ℕ) (left : ℕ) (acc : List ℕ)
    → length (grow read term left acc) ≡ 32 * left + length acc
unfolding grow
length-grow read term zero acc = omega arith
length-grow read term (suc left) acc =
    let hash = shabal256_hash_fast (read acc) (term acc) in
    omega (
      arith,
      length-grow read term left (hash ++ acc),
      length-append hash acc,
      (hash-IsHash (read acc) (term acc)).0,
    )

-- What a round of the code reads at index `i`, where `acc` holds the bytes above.
pub record Reads (base size top : ℕ) (until : ℕ → ℕ) (term : ℕ → List ℕ)
    (read term' : List ℕ → List ℕ) : Type 0 where
  pub rest : List ℕ → List ℕ
  pub front : (acc : List ℕ) (i : ℕ) → i + length acc ≡ size → i ≤ top → acc ≡ read acc ++ rest acc
  pub end :
      (acc : List ℕ) (i : ℕ)
      → i + length acc ≡ size
      → i ≤ top
      → until i ≡ base + i + length (read acc)
  pub last : (acc : List ℕ) (i : ℕ) → i + length acc ≡ size → term i ≡ term' acc

-- A cache: what stands before the nonce, what is not yet written of it, its bytes so far, the rest.
abbrev pub parts : List ℕ → List ℕ → List ℕ → List ℕ → List ℕ
parts pre gap acc post = pre ++ (gap ++ (acc ++ post))

pub write_round :
    (base i : ℕ) (pre gap acc post hash : List ℕ)
    → length pre ≡ base
    → length gap ≡ i
    → 32 ≤ i
    → length hash ≡ 32
    → copy_into (parts pre gap acc post) (base + i - hash_size) (base + i) hash
      ≡ some (parts pre (take (i - 32) gap) (hash ++ acc) post)
write_round base i pre gap acc post hash p g h k =
    let low = take (i - 32) gap in
    let high = drop (i - 32) gap in
    let split : parts pre gap acc post ≡ (pre ++ low) ++ (high ++ (acc ++ post)) =
      ap (λ x. pre ++ (x ++ (acc ++ post))) (sym (take-append-drop (i - 32) gap))
      ∙ ap (λ x. pre ++ x) (append_assoc low high (acc ++ post))
      ∙ sym (append_assoc pre low _) in
    ap (λ x. copy_into x (base + i - hash_size) (base + i) hash) split
    ∙ copy_into_mid (pre ++ low) high (acc ++ post) hash (base + i - hash_size) (base + i)
        (omega (arith, length-append pre low, length-take (i - 32) gap))
        (omega (arith, length-drop (i - 32) gap)) (omega (arith, length-drop (i - 32) gap))
    ∙ ap some
        (append_assoc pre low _ ∙ ap (λ x. pre ++ (low ++ x)) (sym (append_assoc hash acc post)))

module _ (base size top : ℕ) (until : ℕ → ℕ) (term : ℕ → List ℕ) (read term' : List ℕ → List ℕ)
    (reads : Reads base size top until term read term') where
  read_round :
      (i : ℕ) (pre gap acc post : List ℕ)
      → length pre ≡ base
      → length gap ≡ i
      → i + length acc ≡ size
      → i ≤ top
      → slice (parts pre gap acc post) (base + i) (until i) ≡ some (read acc)
  read_round i pre gap acc post p g s t =
      let split : parts pre gap acc post ≡ (pre ++ gap) ++ (read acc ++ (reads.rest acc ++ post)) =
        ap (λ x. pre ++ (gap ++ (x ++ post))) (reads.front acc i s t)
        ∙ ap (λ x. pre ++ (gap ++ x)) (append_assoc (read acc) (reads.rest acc) post)
        ∙ sym (append_assoc pre gap _) in
      ap (λ x. slice x (base + i) (until i)) split
      ∙ slice_mid (pre ++ gap) (read acc) (reads.rest acc ++ post) (base + i) (until i)
          (omega (arith, length-append pre gap)) (reads.end acc i s t)

  -- The rounds never panic, leave the cache around the nonce as it is, and grow its bytes.
  pub hash_rounds-grow :
      (left i : ℕ) (pre gap acc post : List ℕ)
      → length pre ≡ base
      → length gap ≡ i
      → i + length acc ≡ size
      → i ≤ top
      → 32 * left ≤ i
      → (gap' : List ℕ) × (length gap' ≡ i - 32 * left)
        × (hash_rounds base until term left i (parts pre gap acc post)
            ≡ some (parts pre gap' (grow read term' left acc) post))
  unfolding hash_rounds grow
  hash_rounds-grow zero i pre gap acc post p g s t h = (gap, omega arith, refl)
  hash_rounds-grow (suc left) i pre gap acc post p g s t h =
      let hash = shabal256_hash_fast (read acc) (term' acc) in
      let size_hash = (hash-IsHash (read acc) (term' acc)).0 in
      let (gap', size', eq) =
        hash_rounds-grow left (i - 32) pre (take (i - 32) gap) (hash ++ acc) post p
          (omega (arith, length-take (i - 32) gap)) (omega (arith, length-append hash acc))
          (omega arith) (omega arith) in
      (
        gap',
        omega arith,
        rw
            (
              read_round i pre gap acc post p g s t,
              reads.last acc i s,
              write_round base i pre gap acc post hash p g (omega arith) size_hash,
            )
            eq,
      )

-- Each byte with a byte of the final hash, from index `i` of the nonce on.
pub mask : List ℕ → ℕ → List ℕ → List ℕ
mask final i [] = []
mask final i (x ∷ xs) = (x ^^ get_or final (i % hash_size) 0) ∷ mask final (i + 1) xs

pub length-mask : (final : List ℕ) (i : ℕ) (xs : List ℕ) → length (mask final i xs) ≡ length xs
unfolding mask
length-mask final i [] = refl
length-mask final i (x ∷ xs) = ap suc (length-mask final (i + 1) xs)

pub xor_final-mask :
    (base i : ℕ) (final pre body post : List ℕ)
    → length pre ≡ base + i
    → xor_final base final (length body) i (pre ++ (body ++ post))
      ≡ some (pre ++ (mask final i body ++ post))
unfolding xor_final mask
xor_final-mask base i final pre [] post p = refl
xor_final-mask base i final pre (x ∷ body) post p =
    let y = x ^^ get_or final (i % hash_size) 0 in
    let at_i : base + i ≡ length pre = sym p in
    rw
      (
        get_elem?_mid pre x (body ++ post) (base + i) at_i,
        store_mid pre x y (body ++ post) (base + i) at_i,
      )
      (ap (λ t. xor_final base final (length body) (i + 1) t)
          (sym (append_assoc pre (y ∷ []) (body ++ post)))
        ∙ xor_final-mask base (i + 1) final (pre ++ (y ∷ [])) body post
            (omega (arith, length-append pre (y ∷ [])))
        ∙ ap some (append_assoc pre (y ∷ []) (mask final (i + 1) body ++ post)))
