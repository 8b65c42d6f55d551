-- ===== src/Poc/Scoop/Best.antt =====
-- poc/src/lib.rs: the loop of `find_best_deadline_rust` finds the first least deadline.
use conjugate_poc.Common.{
  ℕ, zero, suc, ◌+◌, ◌-◌, ◌*◌, ◌^◌, ◌≤◌, ◌<◌, ◌≡◌, refl, ap, ◌∙◌, arith, false, List, some, ◌⊎◌,
  inl, inr, length, take, drop, length-take, length-drop, ltb, Bool-cases, ltb→lt,
}
use native.Mathlib.Decide.{dec_lt}
use conjugate_poc.Common.Panic.{slice, slice_within}
use conjugate_poc.Primitives.{scoop_size}
use conjugate_poc.Shabal.Hash.{shabal256_deadline_fast}
use conjugate_poc.Shabal.Hash.Deadline.{deadline_lt}
use conjugate_poc.Poc.Scoop.{best_loop, find_best_deadline_rust}

-- The deadline of the scoop of nonce `i`.
abbrev pub deadline_at : List ℕ → List ℕ → ℕ → ℕ
deadline_at data' gensig i =
    shabal256_deadline_fast (take scoop_size (drop (i * scoop_size) data')) gensig

-- `best` is at most each of the first `n` deadlines, less than those before `offset`, and the one at
-- `offset`, or `u64::MAX` and offset 0 if there are none.
pub record IsLeast (data' gensig : List ℕ) (n best offset : ℕ) : Type 0 where
  pub least : (j : ℕ) → j < n → best ≤ deadline_at data' gensig j
  pub first : (j : ℕ) → j < offset → best < deadline_at data' gensig j
  pub attained : 0 < n → (offset < n) × (best ≡ deadline_at data' gensig offset)
  pub empty : n ≡ 0 → (best ≡ 2 ^ 64 - 1) × (offset ≡ 0)

last_or : (j i : ℕ) → j < i + 1 → (j < i) ⊎ (j ≡ i)
last_or j i h = elim (dec_lt j i) [ yes less ↦ inl less | no more ↦ inr (omega arith) ]

not_less : (a b : ℕ) → ltb a b ≡ false → b ≤ a
not_less a b h = ground arith

module _ (data' gensig : List ℕ) (g : length gensig ≡ 32) where
  scoop_read :
      (i : ℕ)
      → (i + 1) * scoop_size ≤ length data'
      → slice data' (i * scoop_size) (i * scoop_size + scoop_size)
        ≡ some (take scoop_size (drop (i * scoop_size) data'))
  scoop_read i h =
      slice_within data' (i * scoop_size) (i * scoop_size + scoop_size) (omega arith) (omega arith)
      ∙ (let e : i * scoop_size + scoop_size - i * scoop_size ≡ scoop_size = omega arith in
          ap (λ (t : ℕ). some (take t (drop (i * scoop_size) data'))) e)

  deadline_at_lt :
      (i : ℕ) → (i + 1) * scoop_size ≤ length data' → deadline_at data' gensig i < 2 ^ 64
  deadline_at_lt i h = deadline_lt gensig _ g (
      omega (
        arith,
        length-take scoop_size (drop (i * scoop_size) data'),
        length-drop (i * scoop_size) data',
      ))

  module _ (i best offset : ℕ) (h : (i + 1) * scoop_size ≤ length data')
      (p : IsLeast data' gensig i best offset) where
    -- The `i`th deadline is the least so far, and the first such.
    replaced :
        deadline_at data' gensig i < best
        → IsLeast data' gensig (i + 1) (deadline_at data' gensig i) i
    replaced less = record {
      least = λ j k. elim (last_or j i k) [
        | inl old ↦ omega (arith, p.least j old)
        | inr new ↦ rw new (omega arith)
      ];
      first = λ j k. omega (arith, p.least j k);
      attained = λ _. (omega arith, refl);
      empty = λ e. absurd (omega arith);
    }

    -- Only `u64::MAX` itself is kept at the first nonce.
    first_kept :
        best ≤ deadline_at data' gensig i
        → i ≡ 0
        → (offset < i + 1) × (best ≡ deadline_at data' gensig offset)
    first_kept more zeroth =
        let (top, low) = p.empty zeroth in
        let same : offset ≡ i = omega arith in
        (omega arith, rw same (omega (arith, deadline_at_lt i h)))

    kept : best ≤ deadline_at data' gensig i → IsLeast data' gensig (i + 1) best offset
    kept more = record {
      least = λ j k. elim (last_or j i k) [ inl old ↦ p.least j old | inr new ↦ rw new more ];
      first = p.first;
      attained = λ _. elim (dec_lt 0 i) [
        | yes some_read ↦ (omega (arith, (p.attained some_read).0), (p.attained some_read).1)
        | no none_read ↦ first_kept more (omega arith)
      ];
      empty = λ e. absurd (omega arith);
    }

  best_loop-IsLeast :
      (left i best offset : ℕ)
      → (i + left) * scoop_size ≤ length data'
      → IsLeast data' gensig i best offset
      → (b o : ℕ) × (best_loop data' gensig left i (best, offset) ≡ some (b, o))
        × IsLeast data' gensig (i + left) b o
  unfolding best_loop
  best_loop-IsLeast zero i best offset h p =
      let e : i + 0 ≡ i = omega arith in (best, offset, refl, rw e p)
  best_loop-IsLeast (suc left) i best offset h p =
      let here : (i + 1) * scoop_size ≤ length data' = omega arith in
      let d = deadline_at data' gensig i in
      let e : i + suc left ≡ i + 1 + left = omega arith in
      rw (scoop_read i here, e)
        (elim (Bool-cases (ltb d best)) [
          | inl less ↦ rw less (
              best_loop-IsLeast left (i + 1) d i (omega arith)
                (replaced i best offset here p (ltb→lt d best less)))
          | inr more ↦ rw more (
              best_loop-IsLeast left (i + 1) best offset (omega arith)
                (kept i best offset here p (not_less d best more)))
        ])

  -- On data that holds the scoops, `find_best_deadline_rust` does not panic and returns the least of
  -- their deadlines with the first offset that has it; with no nonces it returns `u64::MAX` and 0.
  pub find_best_deadline_rust-IsLeast :
      (number_of_nonces : ℕ)
      → number_of_nonces * scoop_size ≤ length data'
      → (b o : ℕ) × (find_best_deadline_rust data' number_of_nonces gensig ≡ some (b, o))
        × IsLeast data' gensig number_of_nonces b o
  unfolding find_best_deadline_rust
  find_best_deadline_rust-IsLeast n h =
      let start : IsLeast data' gensig 0 (2 ^ 64 - 1) 0 = record {
        least = λ j k. absurd (omega arith);
        first = λ j k. absurd (omega arith);
        attained = λ k. absurd (omega arith);
        empty = λ e. (refl, refl);
      } in
      let e : 0 + n ≡ n = omega arith in
      let (b, o, eq, p) = best_loop-IsLeast n 0 (2 ^ 64 - 1) 0 (omega arith) start in
      (b, o, eq, rw e at p)
