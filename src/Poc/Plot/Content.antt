-- ===== src/Poc/Plot/Content.antt =====
-- poc/src/lib.rs: what `noncegen_rust` leaves in the cache, as a function of the account, the nonce
-- and the sizes alone.
use conjugate_poc.Common.{
  ℕ, ◌+◌, ◌-◌, ◌/◌, ◌%◌, ◌≤◌, ◌==◌, le→leb, if◌then◌else◌, ◌≡◌, refl, sym, ap, ◌∙◌, arith, List, [],
  ◌∷◌, ◌++◌, some, length, take, drop, length-take, take-append-drop,
}
use mathlib.Core.List.{append-nil}
use conjugate_poc.Common.Panic.{copy_into, slice_mid}
use conjugate_poc.Primitives.{hash_size}
use conjugate_poc.Shabal.Hash.{shabal256_hash_fast}
use conjugate_poc.Shabal.Hash.Bounds.{hash-IsHash}
use conjugate_poc.Poc.Plot.{t1, t2, t3, rev_steps, hash_rounds, xor_final, plot_nonce}
use conjugate_poc.Poc.Plot.Rounds.{
  grow, length-grow, Reads, parts, write_round, hash_rounds-grow, mask, length-mask, xor_final-mask,
}

-- Sizes for which the loops meet: whole pairs of hashes, at least one pair in the window.
pub record IsSized (size cap : ℕ) : Type 0 where
  pub size_even : size % 64 ≡ 0
  pub cap_even : cap % 64 ≡ 0
  pub cap_pos : 64 ≤ cap
  pub cap_le : cap ≤ size

-- The bytes before the window is full: each hash is of all bytes so far, and the termination string
-- alternates with their number.
seed_bytes : ℕ → ℕ → ℕ → List ℕ
seed_bytes cap id nonce =
    let seed = t1 id nonce in
    let hash = shabal256_hash_fast [] seed in
    let odd = t2 id nonce hash in
    grow (λ acc. acc) (λ acc. if length acc % 64 == 0 then seed else odd) (cap / 32 - 1) hash

-- All bytes: each further hash is of the first `cap` bytes so far.
chain_bytes : ℕ → ℕ → ℕ → ℕ → List ℕ
chain_bytes size cap id nonce =
    grow (λ acc. take cap acc) (λ acc. t3) ((size - cap) / 32) (seed_bytes cap id nonce)

-- The content of a nonce.
pub nonce_bytes : ℕ → ℕ → ℕ → ℕ → List ℕ
nonce_bytes size cap id nonce =
    let bytes = chain_bytes size cap id nonce in
    mask (shabal256_hash_fast bytes (t1 id nonce)) 0 bytes

nil_of_length : (xs : List ℕ) → length xs ≡ 0 → xs ≡ []
nil_of_length [] e = refl
nil_of_length (x ∷ xs) e = absurd (omega arith)

module _ (size cap : ℕ) (sized : IsSized size cap) (id nonce : ℕ) where
  length-seed_bytes : length (seed_bytes cap id nonce) ≡ cap
  unfolding seed_bytes
  length-seed_bytes = omega (
    arith,
    sized.cap_even,
    sized.cap_pos,
    length-grow (λ acc. acc)
        (λ acc.
          if length acc % 64 == 0
          then t1 id nonce
          else t2 id nonce (shabal256_hash_fast [] (t1 id nonce)))
        (cap / 32 - 1) (shabal256_hash_fast [] (t1 id nonce)),
    (hash-IsHash [] (t1 id nonce)).0,
  )

  length-chain_bytes : length (chain_bytes size cap id nonce) ≡ size
  unfolding chain_bytes
  length-chain_bytes = omega (
    arith,
    sized.cap_even,
    sized.size_even,
    sized.cap_le,
    length-grow (λ acc. take cap acc) (λ acc. t3) ((size - cap) / 32) (seed_bytes cap id nonce),
    length-seed_bytes,
  )

  pub length-nonce_bytes : length (nonce_bytes size cap id nonce) ≡ size
  unfolding nonce_bytes
  length-nonce_bytes = length-mask _ 0 (chain_bytes size cap id nonce) ∙ length-chain_bytes

  parity : (acc : List ℕ) (i : ℕ) → i + length acc ≡ size → (i % 64 == 0) ≡ (length acc % 64 == 0)
  parity acc i s = let even = sized.size_even in ground (arith, even)

  pick : List ℕ → List ℕ
  pick acc =
      if length acc % 64 == 0
      then t1 id nonce
      else t2 id nonce (shabal256_hash_fast [] (t1 id nonce))

  seed-Reads :
      (base : ℕ)
      → Reads base size size
          (λ _. base + size)
          (λ i.
            if i % 64 == 0 then t1 id nonce else t2 id nonce (shabal256_hash_fast [] (t1 id nonce)))
          (λ acc. acc)
          pick
  unfolding pick
  seed-Reads base = record {
    rest = λ acc. [];
    front = λ acc i s t. sym (append-nil acc);
    end = λ acc i s t. omega arith;
    last = λ acc i s. rw (parity acc i s);
  }

  chain-Reads :
      (base : ℕ)
      → Reads base size (size - cap) (λ i. base + i + cap) (λ _. t3) (λ acc. take cap acc) (λ _. t3)
  chain-Reads base = record {
    rest = λ acc. drop cap acc;
    front = λ acc i s t. sym (take-append-drop cap acc);
    end = λ acc i s t. omega (arith, length-take cap acc, sized.cap_le);
    last = λ acc i s. refl;
  }

  seed_steps : rev_steps (size - cap + hash_size) (size - hash_size) ≡ cap / 32 - 1
  seed_steps =
      rw
        (le→leb (size - cap + hash_size) (size - hash_size)
          (omega (arith, sized.cap_pos, sized.cap_le)))
        (omega (arith, sized.cap_pos, sized.cap_le, sized.cap_even))

  chain_steps : rev_steps hash_size (size - cap) ≡ (size - cap) / 32
  chain_steps = ground (arith, sized.cap_le, sized.cap_even, sized.size_even)

  module _ (pre old post : List ℕ) (old_size : length old ≡ size) where
    first_hash :
        copy_into
          (pre ++ (old ++ post))
          (length pre + size - hash_size)
          (length pre + size)
          (shabal256_hash_fast [] (t1 id nonce))
        ≡ some (parts pre (take (size - 32) old) (shabal256_hash_fast [] (t1 id nonce)) post)
    first_hash =
        let hash = shabal256_hash_fast [] (t1 id nonce) in
        write_round (length pre) size pre old [] post hash refl old_size
          (omega (arith, sized.cap_pos, sized.cap_le)) (hash-IsHash [] (t1 id nonce)).0
        ∙ ap (λ x. some (parts pre (take (size - 32) old) x post)) (append-nil hash)

    seed_rounds :
        (gap : List ℕ) × (length gap ≡ size - cap)
        × (hash_rounds
              (length pre)
              (λ _. length pre + size)
              (λ i.
                if i % 64 == 0
                then t1 id nonce
                else t2 id nonce (shabal256_hash_fast [] (t1 id nonce)))
              (rev_steps (size - cap + hash_size) (size - hash_size))
              (size - hash_size)
              (parts pre (take (size - 32) old) (shabal256_hash_fast [] (t1 id nonce)) post)
            ≡ some (parts pre gap (seed_bytes cap id nonce) post))
    unfolding seed_bytes pick
    seed_rounds =
        let hash = shabal256_hash_fast [] (t1 id nonce) in
        let (gap, size', eq) =
          hash_rounds-grow (length pre) size size _ _ _ _ (seed-Reads (length pre)) (cap / 32 - 1)
            (size - 32) pre (take (size - 32) old) hash post refl
            (omega (arith, length-take (size - 32) old))
            (omega (arith, (hash-IsHash [] (t1 id nonce)).0, sized.cap_pos, sized.cap_le))
            (omega arith) (omega (arith, sized.cap_le)) in
        (gap, omega (arith, sized.cap_pos, sized.cap_le, sized.cap_even), rw seed_steps eq)

    chain_rounds :
        (gap : List ℕ)
        → length gap ≡ size - cap
        → hash_rounds
            (length pre)
            (λ i. length pre + i + cap)
            (λ _. t3)
            (rev_steps hash_size (size - cap))
            (size - cap)
            (parts pre gap (seed_bytes cap id nonce) post)
          ≡ some (pre ++ (chain_bytes size cap id nonce ++ post))
    unfolding chain_bytes
    chain_rounds gap g =
        let (gap', size', eq) =
          hash_rounds-grow (length pre) size (size - cap) _ _ _ _ (chain-Reads (length pre))
            ((size - cap) / 32) (size - cap) pre gap (seed_bytes cap id nonce) post refl g
            (omega (arith, length-seed_bytes, sized.cap_le)) (omega arith) (omega arith) in
        let closed : gap' ≡ [] =
          nil_of_length gap' (omega (arith, sized.cap_le, sized.cap_even, sized.size_even)) in
        rw chain_steps
          (eq ∙ ap (λ x. some (parts pre x (chain_bytes size cap id nonce) post)) closed)

    -- One nonce of the cache is overwritten with its content; all else stays, and nothing panics.
    pub plot_nonce-content :
        plot_nonce size cap (length pre) id nonce (pre ++ (old ++ post))
        ≡ some (pre ++ (nonce_bytes size cap id nonce ++ post))
    unfolding plot_nonce nonce_bytes
    plot_nonce-content =
        let (gap, gap_size, eq) = seed_rounds in
        let bytes = chain_bytes size cap id nonce in
        let sizes = length-chain_bytes in
        let final = shabal256_hash_fast bytes (t1 id nonce) in
        rw
          (
            first_hash,
            eq,
            chain_rounds gap gap_size,
            slice_mid pre bytes post (length pre) (length pre + size) refl (omega arith),
          )
          (ap (λ (t : ℕ). xor_final (length pre) final t 0 (pre ++ (bytes ++ post))) (sym sizes)
            ∙ xor_final-mask (length pre) 0 final pre bytes post (omega arith))
