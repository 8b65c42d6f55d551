-- ===== src/Shabal/Spec.antt =====
-- The Shabal permutation as its loops, and that the unrolled code of poc/src/shabal256.rs runs it.
use conjugate_poc.Common.{
  ℕ, zero, suc, ◌+◌, ◌-◌, ◌%◌, ◌≡◌, refl, ◌∙◌, arith, List, [], ◌∷◌, length, set, length-set,
}
use conjugate_poc.Shabal.Word.{add32}
use conjugate_poc.Shabal.State.{State, at, rotate_b, add_c}
use conjugate_poc.Shabal.Perm.{Arrays, Call, call, run_call, run_calls, perm, perm_elt}
use conjugate_poc.Shabal.Hash.{apply_p}

-- Step `n` of the 3 * 16: the indices of `a` go round 12, those of `b`, `c` and the data round 16.
mix_step : List ℕ → List ℕ → ℕ → Arrays → Arrays
mix_step c data' n s =
    let i = n % 16 in
    perm_elt s (n % 12) ((n + 11) % 12) i ((i + 13) % 16) ((i + 9) % 16) ((i + 6) % 16)
      (at c ((24 - i) % 16)) (at data' i)

-- The steps from `n` on, `left` of them.
mix_loop : List ℕ → List ℕ → ℕ → ℕ → Arrays → Arrays
mix_loop c data' zero n s = s
mix_loop c data' (suc left) n s = mix_loop c data' left (n + 1) (mix_step c data' n s)

-- The additions of `c` from step `j` on, `left` of them.
add_loop : List ℕ → ℕ → ℕ → List ℕ → List ℕ
add_loop c zero j a = a
add_loop c (suc left) j a =
    add_loop c left (j + 1) (set a (j % 12) (add32 (at a (j % 12)) (at c ((j + 3) % 16))))

-- The keyed permutation: rotate, 48 steps, 36 additions.
pub reference_p : List ℕ → State → State
reference_p data' s =
    let r = mix_loop s.c data' 48 0 (record { a = s.a; b = rotate_b s.b }) in
    record s { a = add_loop s.c 36 0 r.a; b = r.b }

perm-eq-mix_loop : (c data' : List ℕ) (s : Arrays) → perm c data' s ≡ mix_loop c data' 48 0 s
unfolding perm run_calls run_call mix_loop mix_step
perm-eq-mix_loop c data' s = refl

add32_reorder : (x u v w : ℕ) → add32 (add32 (add32 x u) v) w ≡ add32 (add32 (add32 x w) v) u
unfolding add32
add32_reorder x u v w = omega arith

add_c-eq-add_loop : (a c : List ℕ) → length a ≡ 12 → add_c a c ≡ add_loop c 36 0 a
unfolding add_c add_loop
add_c-eq-add_loop (x0 ∷ x1 ∷ x2 ∷ x3 ∷ x4 ∷ x5 ∷ x6 ∷ x7 ∷ x8 ∷ x9 ∷ x10 ∷ x11 ∷ []) c h = λ i.
    add32_reorder x0 (at c 11) (at c 15) (at c 3) i
    ∷ add32_reorder x1 (at c 12) (at c 0) (at c 4) i
    ∷ add32_reorder x2 (at c 13) (at c 1) (at c 5) i
    ∷ add32_reorder x3 (at c 14) (at c 2) (at c 6) i
    ∷ add32_reorder x4 (at c 15) (at c 3) (at c 7) i
    ∷ add32_reorder x5 (at c 0) (at c 4) (at c 8) i
    ∷ add32_reorder x6 (at c 1) (at c 5) (at c 9) i
    ∷ add32_reorder x7 (at c 2) (at c 6) (at c 10) i
    ∷ add32_reorder x8 (at c 3) (at c 7) (at c 11) i
    ∷ add32_reorder x9 (at c 4) (at c 8) (at c 12) i
    ∷ add32_reorder x10 (at c 5) (at c 9) (at c 13) i
    ∷ add32_reorder x11 (at c 6) (at c 10) (at c 14) i
    ∷ []
add_c-eq-add_loop _ c h = absurd (omega arith)

length-run_calls :
    {M : Type 0} (c : List ℕ) (word : M → ℕ) (ks : List (Call M)) (s : Arrays)
    → length (run_calls c word ks s).a ≡ length s.a
unfolding run_calls run_call perm_elt
length-run_calls c word [] s = refl
length-run_calls c word (call xa0 xa1 xb0 xb1 xb2 xb3 xc xm ∷ ks) s =
    length-run_calls c word ks _ ∙ length-set s.a xa0 _

-- On twelve words of `a`, the unrolled `apply_p` is the permutation written as its loops.
pub apply_p-eq-reference_p :
    (data' : List ℕ) (s : State) → length s.a ≡ 12 → apply_p data' s ≡ reference_p data' s
unfolding apply_p reference_p
apply_p-eq-reference_p data' s h =
    let start : Arrays = record { a = s.a; b = rotate_b s.b } in
    let sized : length (perm s.c data' start).a ≡ 12 =
      unfold perm in length-run_calls s.c (at data') _ start ∙ h in
    rw (add_c-eq-add_loop (perm s.c data' start).a s.c sized, perm-eq-mix_loop s.c data' start)
