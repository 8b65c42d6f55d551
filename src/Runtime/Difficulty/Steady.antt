-- ===== src/Runtime/Difficulty/Steady.antt =====
-- runtime/src/difficulty.rs: what the module does when blocks are exactly on time.
use conjugate_poc.Common.{
  ℕ, zero, suc, ◌+◌, ◌*◌, ◌/◌, ◌^◌, ◌≤◌, ◌<◌, min, max, ◌≡◌, refl, ap, ap₂, ◌∙◌, arith, [], ◌∷◌,
  ◌++◌, some, length, All,
}
use conjugate_poc.Primitives.{
  difficulty_adjust_window, block_time_msec, block_time_window_msec, min_difficulty, max_difficulty,
}
use conjugate_poc.Runtime.Difficulty.{Window, Storage, delta, difficulty_or, on_finalize}
use conjugate_poc.Runtime.Difficulty.Window.{total, deltas}
use conjugate_poc.Runtime.Difficulty.Bounds.{
  Fits, IsSound, retarget, damped_span, pushed, target, on_finalize_lem,
}

-- `n` blocks of difficulty `d`, the block time apart, the first at `t`.
unfoldable pub on_time : ℕ → ℕ → ℕ → Window
on_time zero d t = []
on_time (suc n) d t =
    some (record { difficulty = d; timestamp = t }) ∷ on_time n d (t + block_time_msec)

on_time-snoc :
    (n d t : ℕ)
    → on_time n d t ++ (some (record { difficulty = d; timestamp = t + n * block_time_msec }) ∷ [])
      ≡ on_time (suc n) d t
unfolding on_time
on_time-snoc zero d t = let e : t + 0 * block_time_msec ≡ t = omega arith in rw e
on_time-snoc (suc n) d t =
    let e : t + suc n * block_time_msec ≡ t + block_time_msec + n * block_time_msec = omega arith in
    rw e (
      ap (λ w. some (record { difficulty = d; timestamp = t }) ∷ w)
        (on_time-snoc n d (t + block_time_msec)))

length-on_time : (n d t : ℕ) → length (on_time n d t) ≡ n
unfolding on_time
length-on_time zero d t = refl
length-on_time (suc n) d t = ap suc (length-on_time n d (t + block_time_msec))

on_time-Fits :
    (n d t : ℕ) → d ≤ max_difficulty → t + n * block_time_msec < 2 ^ 64 → All Fits (on_time n d t)
unfolding on_time
on_time-Fits zero d t h k = tt
on_time-Fits (suc n) d t h k =
    ((h, omega arith), on_time-Fits n d (t + block_time_msec) h (omega arith))

deltas-on_time : (n d t : ℕ) → deltas (on_time (suc n) d t) ≡ n * block_time_msec
unfolding deltas on_time delta
deltas-on_time zero d t = omega arith
deltas-on_time (suc n) d t = omega (arith, deltas-on_time n d (t + block_time_msec))

total-on_time : (initial n d t : ℕ) → total initial (on_time n d t) ≡ n * d
unfolding total on_time difficulty_or
total-on_time initial zero d t = omega arith
total-on_time initial (suc n) d t = omega (arith, total-on_time initial n d (t + block_time_msec))

-- The storage after an hour of blocks on time, all of one difficulty.
abbrev pub steady : ℕ → ℕ → ℕ → Storage
steady initial d t = record {
  past = on_time difficulty_adjust_window d t;
  current_difficulty = d;
  initial_difficulty = initial;
}

pub steady-IsSound :
    (initial d t : ℕ)
    → initial ≤ max_difficulty
    → d ≤ max_difficulty
    → t + block_time_window_msec < 2 ^ 64
    → IsSound (steady initial d t)
steady-IsSound initial d t i h k = record {
  size = length-on_time difficulty_adjust_window d t;
  entries = on_time-Fits difficulty_adjust_window d t h k;
  current = h;
  initial = i;
}

pushed-on_time :
    (n d t : ℕ)
    → pushed (t + suc n * block_time_msec) d (on_time (suc n) d t)
      ≡ on_time (suc n) d (t + block_time_msec)
unfolding on_time
pushed-on_time n d t =
    let e : t + suc n * block_time_msec ≡ t + block_time_msec + n * block_time_msec = omega arith in
    rw e (on_time-snoc n d (t + block_time_msec))

retarget_on_time :
    (d : ℕ)
    → retarget (60 * d) (damped_span (59 * block_time_msec))
      ≡ min max_difficulty (max min_difficulty (d * 180 / 179))
unfolding retarget damped_span
retarget_on_time d = omega arith

-- After an hour of blocks of one difficulty `d` that came exactly a minute apart, one more block on
-- time sets the difficulty to `d * 180 / 179`, within the least and the greatest.
pub on_finalize-on_time :
    (initial d t : ℕ)
    → initial ≤ max_difficulty
    → d ≤ max_difficulty
    → t + block_time_window_msec < 2 ^ 64
    → on_finalize (t + block_time_window_msec) (steady initial d t)
      ≡ some (record {
        past = on_time difficulty_adjust_window d (t + block_time_msec);
        current_difficulty = min max_difficulty (max min_difficulty (d * 180 / 179));
        initial_difficulty = initial;
      })
on_finalize-on_time initial d t i h k =
    let window = on_time 60 d (t + block_time_msec) in
    let left : pushed (t + block_time_window_msec) d (on_time 60 d t) ≡ window =
      pushed-on_time 59 d t in
    let next : target initial window ≡ min max_difficulty (max min_difficulty (d * 180 / 179)) =
      ap₂ (λ (x y : ℕ). retarget x (damped_span y))
        (total-on_time initial 60 d (t + block_time_msec))
        (deltas-on_time 59 d (t + block_time_msec))
      ∙ retarget_on_time d in
    (on_finalize_lem (t + block_time_window_msec) (steady initial d t) k
      (steady-IsSound initial d t i h k)).0
    ∙ ap
        (λ w. some (record {
          past = w;
          current_difficulty = target initial w;
          initial_difficulty = initial;
        }))
        left
    ∙ ap
        (λ (x : ℕ).
          some (record { past = window; current_difficulty = x; initial_difficulty = initial }))
        next
