-- ===== src/Runtime/Difficulty/Change.antt =====
-- runtime/src/difficulty.rs: how far and which way one block moves the difficulty.
use native.Mathlib.Nat.{div-mul-le_self, lt-mul-div-succ, le-div_iff_mul-le}
use mathlib.Core.Path.{subst}
use mathlib.Core.Option.{some-injective}
use conjugate_poc.Common.{
  ℕ, ◌+◌, ◌*◌, ◌/◌, ◌^◌, ◌≤◌, ◌<◌, min, max, ◌≡◌, refl, sym, ◌∙◌, arith, some,
}
use conjugate_poc.Primitives.{block_time_msec, min_difficulty, max_difficulty}
use conjugate_poc.Runtime.Difficulty.{Storage, on_finalize}
use conjugate_poc.Runtime.Difficulty.Window.{total, deltas}
use conjugate_poc.Runtime.Difficulty.Bounds.{
  IsSound, retarget, damped_span, damped_span_bounds, pushed, finalized, on_finalize_lem,
}

quotient_bounds :
    (x span lo hi : ℕ)
    → lo ≤ span
    → span ≤ hi
    → 0 < lo
    → (x / span * lo ≤ x) × (x < (x / span + 1) * hi)
quotient_bounds x span lo hi p q r =
    let least = div-mul-le_self x span in
    let most = lt-mul-div-succ x {b = span} (omega arith) in
    (grind (arith, least), grind (arith, most))

retarget_bounds :
    (sum ts_delta : ℕ)
    → let next = retarget sum (damped_span ts_delta) in
      (min_difficulty ≤ next)
      × (next * 40 ≤ max sum (40 * min_difficulty))
      × (min max_difficulty (sum / 120) ≤ next)
unfolding retarget
retarget_bounds sum ts_delta =
    let scaled = max min_difficulty sum * block_time_msec in
    let span = damped_span_bounds ts_delta in
    let q =
      quotient_bounds scaled (damped_span ts_delta) 2400000 7200000 span.0 span.1 (omega arith) in
    (omega arith, omega (arith, q.0), omega (arith, q.1))

-- On sound storage a block moves the difficulty within its limits: to at most three halves of the
-- average of the window that it leaves, and at least half of it (the sum is sixty averages), up to
-- the least and the greatest difficulty.
pub on_finalize_change :
    (now : ℕ) (s s' : Storage)
    → now < 2 ^ 64
    → IsSound s
    → on_finalize now s ≡ some s'
    → let sum = total s.initial_difficulty s'.past in
      (min_difficulty ≤ s'.current_difficulty)
      × (s'.current_difficulty * 40 ≤ max sum (40 * min_difficulty))
      × (min max_difficulty (sum / 120) ≤ s'.current_difficulty)
on_finalize_change now s s' moment sound e =
    let same : finalized now s moment sound ≡ s' =
      some-injective _ _ (sym (on_finalize_lem now s moment sound).0 ∙ e) in
    subst
      (λ (t : Storage).
        let sum = total s.initial_difficulty t.past in
        (min_difficulty ≤ t.current_difficulty)
        × (t.current_difficulty * 40 ≤ max sum (40 * min_difficulty))
        × (min max_difficulty (sum / 120) ≤ t.current_difficulty))
      same
      (retarget_bounds (total s.initial_difficulty (pushed now s.current_difficulty s.past))
        (deltas (pushed now s.current_difficulty s.past)))

quotient_antitone : (x a b : ℕ) → 0 < a → a ≤ b → x / b ≤ x / a
quotient_antitone x a b pos le =
    let least = div-mul-le_self x b in (le-div_iff_mul-le pos).1 (grind (arith, least))

slower-target : (sum a b : ℕ) → a ≤ b → retarget sum (damped_span b) ≤ retarget sum (damped_span a)
unfolding retarget damped_span
slower-target sum a b longer =
    let spans : damped_span a ≤ damped_span b = omega arith in
    let scaled = max min_difficulty sum * block_time_msec in
    let q =
      quotient_antitone scaled (damped_span a) (damped_span b) (omega (arith, damped_span_bounds a))
        spans in
    omega (arith, q)

-- What `on_finalize` returns on sound storage has the target of the window that it leaves.
on_finalize-target :
    (now : ℕ) (s s' : Storage)
    → now < 2 ^ 64
    → IsSound s
    → on_finalize now s ≡ some s'
    → s'.current_difficulty
      ≡ retarget (total s.initial_difficulty s'.past) (damped_span (deltas s'.past))
on_finalize-target now s s' moment sound e =
    let same : finalized now s moment sound ≡ s' =
      some-injective _ _ (sym (on_finalize_lem now s moment sound).0 ∙ e) in
    subst
      (λ (t : Storage).
        t.current_difficulty
        ≡ retarget (total s.initial_difficulty t.past) (damped_span (deltas t.past)))
      same refl

-- Slower blocks never give a higher difficulty: of two sound storages whose new windows have one sum
-- of difficulties, the one whose window took longer ends with at most the other's difficulty.
pub on_finalize_slower :
    (now now' : ℕ) (s t s' t' : Storage)
    → now < 2 ^ 64
    → now' < 2 ^ 64
    → IsSound s
    → IsSound t
    → on_finalize now s ≡ some s'
    → on_finalize now' t ≡ some t'
    → total s.initial_difficulty s'.past ≡ total t.initial_difficulty t'.past
    → deltas s'.past ≤ deltas t'.past
    → t'.current_difficulty ≤ s'.current_difficulty
on_finalize_slower now now' s t s' t' moment moment' sound sound' e e' same longer =
    rw
      (
        on_finalize-target now s s' moment sound e,
        on_finalize-target now' t t' moment' sound' e',
        same,
      )
      (slower-target (total t.initial_difficulty t'.past) (deltas s'.past) (deltas t'.past) longer)
