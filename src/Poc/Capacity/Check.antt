-- ===== src/Poc/Capacity/Check.antt =====
-- poc/src/lib.rs: the deadline that `poc_verify` computes, from the content of the nonce.
use mathlib.Core.List.{append-nil}
use conjugate_poc.Common.{
  ℕ, ◌+◌, ◌-◌, ◌*◌, ◌/◌, ◌%◌, ◌^◌, ◌≤◌, ◌<◌, ◌==◌, ◌≡◌, refl, sym, ap, ◌∙◌, arith, lt→ltb, List, [],
  ◌++◌, some, length, length-replicate, length-take, length-drop, length-append, take, drop, ne→==,
  take-append,
}
use conjugate_poc.Common.Panic.{slice, copy_into, slice_within, copy_into_mid}
use conjugate_poc.Primitives.{nonce_size, hash_cap, scoop_size}
use conjugate_poc.Shabal.Hash.{shabal256_deadline_fast}
use conjugate_poc.Poc.Plot.{noncegen_rust}
use conjugate_poc.Poc.Plot.Content.{nonce_bytes, length-nonce_bytes}
use conjugate_poc.Poc.Plot.Whole.{noncegen_rust-content, plots, crate_sizes}
use conjugate_poc.Poc.Scoop.{calculate_scoop, find_best_deadline_rust}
use conjugate_poc.Poc.Scoop.Range.{calculate_scoop_lem}
use conjugate_poc.Poc.Scoop.Best.{find_best_deadline_rust-IsLeast}
use conjugate_poc.Poc.Capacity.{zeros, NonceData, computed_deadline, check_nonce, adjusted}

pub length-zeros : (n : ℕ) → length (zeros n) ≡ n
unfolding zeros
length-zeros n = length-replicate n 0

-- The content of a nonce at the crate's sizes.
abbrev pub plot_of : ℕ → ℕ → List ℕ
plot_of account_id nonce = nonce_bytes nonce_size hash_cap account_id (nonce % 2 ^ 64)

-- The scoop that is hashed: the low half of scoop `scoop` and the high half of its mirror.
abbrev pub mirrored_scoop : List ℕ → ℕ → List ℕ
mirrored_scoop plot scoop =
    take 32 (drop (64 * scoop) plot) ++ take 32 (drop (64 * (4095 - scoop) + 32) plot)

one_plot :
    (account_id nonce : ℕ)
    → noncegen_rust (zeros 262144) account_id nonce 1 ≡ some (plot_of account_id nonce)
one_plot account_id nonce =
    ap (λ x. noncegen_rust x account_id nonce 1) (sym (append-nil (zeros 262144)))
    ∙ noncegen_rust-content account_id nonce 1 (zeros 262144) [] (length-zeros 262144 ∙ omega arith)
    ∙ ap some (
        append-nil _
        ∙ unfold plots in (append-nil _ ∙ (let e : nonce + 0 ≡ nonce = omega arith in rw e)))

-- The two halves are copied into a zero array one after the other.
low_half : (low : List ℕ) → length low ≡ 32 → copy_into (zeros 64) 0 32 low ≡ some (low ++ zeros 32)
unfolding zeros
low_half low l = copy_into_mid [] (zeros 32) (zeros 32) low 0 32 refl refl l

high_half :
    (low high : List ℕ)
    → length low ≡ 32
    → length high ≡ 32
    → copy_into (low ++ zeros 32) 32 64 high ≡ some (low ++ high)
high_half low high l h =
    ap (λ x. copy_into (low ++ x) 32 64 high) (sym (append-nil (zeros 32)))
    ∙ copy_into_mid low (zeros 32) [] high 32 64 (sym l) (omega (arith, length-zeros 32))
        (h ∙ sym (length-zeros 32))
    ∙ ap (λ x. some (low ++ x)) (append-nil high)

take_all : (n : ℕ) (xs : List ℕ) → length xs ≡ n → take n xs ≡ xs
take_all n xs e = ap (λ x. take n x) (sym (append-nil xs)) ∙ take-append n xs [] e

-- With one scoop the best deadline is that of the scoop, at offset 0.
pub one_scoop :
    (scoop gensig : List ℕ)
    → length gensig ≡ 32
    → length scoop ≡ 64
    → find_best_deadline_rust scoop 1 gensig ≡ some (shabal256_deadline_fast scoop gensig, 0)
one_scoop scoop gensig g s =
    let (b, o, eq, p) = find_best_deadline_rust-IsLeast scoop gensig g 1 (omega arith) in
    let (below, best) = p.attained (omega arith) in
    let zeroth : o ≡ 0 = omega arith in
    let whole : take scoop_size (drop (0 * scoop_size) scoop) ≡ scoop = take_all 64 scoop s in
    eq
    ∙ ap (λ (t : ℕ). some (b, t)) zeroth
    ∙ ap (λ (t : ℕ). some (t, 0))
        (best ∙ rw zeroth (ap (λ x. shabal256_deadline_fast x gensig) whole))

half_read :
    (xs : List ℕ) (lo hi : ℕ)
    → hi ≡ lo + 32
    → hi ≤ length xs
    → (slice xs lo hi ≡ some (take 32 (drop lo xs))) × (length (take 32 (drop lo xs)) ≡ 32)
half_read xs lo hi e h =
    let width : hi - lo ≡ 32 = omega arith in
    (
      slice_within xs lo hi (omega arith) h ∙ ap (λ (t : ℕ). some (take t (drop lo xs))) width,
      omega (arith, length-take 32 (drop lo xs), length-drop lo xs),
    )

-- For a 32-byte generation signature `poc_verify` computes, with no panic, the deadline of the scoop
-- that the height and the signature choose, its high half taken from the mirror scoop of the nonce.
computed_deadline_lem :
    (account_id nonce height : ℕ) (gensig : List ℕ)
    → length gensig ≡ 32
    → computed_deadline account_id nonce height gensig
      ≡ some (
          shabal256_deadline_fast
            (mirrored_scoop (plot_of account_id nonce) (calculate_scoop height gensig))
            gensig)
unfolding computed_deadline
computed_deadline_lem account_id nonce height gensig g =
    let plot = plot_of account_id nonce in
    let scoop = calculate_scoop height gensig in
    let in_plot = (calculate_scoop_lem height gensig).1 in
    let size = length-nonce_bytes nonce_size hash_cap crate_sizes account_id (nonce % 2 ^ 64) in
    let low = half_read plot (64 * scoop) (64 * scoop + 32) refl (omega arith) in
    let high =
      half_read plot (64 * (4095 - scoop) + 32) (64 * (4095 - scoop) + 64) (omega arith)
        (omega arith) in
    let l = take 32 (drop (64 * scoop) plot) in
    let h = take 32 (drop (64 * (4095 - scoop) + 32) plot) in
    let whole : length (l ++ h) ≡ 64 = omega (arith, low.1, high.1, length-append l h) in
    rw (
      one_plot account_id nonce,
      low.0,
      low_half l low.1,
      high.0,
      high_half l h low.1 high.1,
      one_scoop (l ++ h) gensig g whole,
    )

pub adjusted-some :
    (deadline base_target : ℕ)
    → 0 < base_target
    → base_target < 2 ^ 64
    → adjusted deadline base_target ≡ some (deadline / base_target)
unfolding adjusted
adjusted-some deadline base_target p h =
    rw (lt→ltb base_target (2 ^ 64) h, ne→== base_target 0 (omega arith))

module _ (n : NonceData) (base_target : ℕ) (gensig : List ℕ) (g : length gensig ≡ 32) where
  -- For a 32-byte generation signature and a base target that is positive and fits a `u64`, the rest
  -- of `poc_verify` accepts exactly the nonce data whose deadline is the one of the mirrored scoop.
  pub check_nonce_lem :
      0 < base_target
      → base_target < 2 ^ 64
      → check_nonce n base_target gensig
        ≡ some (
            n.deadline
            == shabal256_deadline_fast
                (mirrored_scoop (plot_of n.account_id n.nonce) (calculate_scoop n.height gensig))
                gensig)
  unfolding check_nonce
  check_nonce_lem p h = rw (
    computed_deadline_lem n.account_id n.nonce n.height gensig g,
    adjusted-some _ base_target p h,
  )
