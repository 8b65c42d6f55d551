-- ===== src/Runtime/Difficulty/Bounds.antt =====
-- runtime/src/difficulty.rs: `on_finalize` does not overflow, keeps the storage sound and bounds the
-- change of the difficulty.
use conjugate_poc.Common.{
  ℕ, ◌+◌, ◌-◌, ◌*◌, ◌/◌, ◌^◌, ◌≤◌, ◌<◌, min, max, ◌≡◌, sym, arith, List, [], ◌∷◌, ◌++◌, Option,
  none, some, length, length-append, All, All-append,
}
use conjugate_poc.Primitives.{
  difficulty_adjust_window, block_time_msec, block_time_window_msec, min_difficulty, max_difficulty,
}
use conjugate_poc.Runtime.Difficulty.{
  DifficultyAndTimestamp, Window, Storage, damp, clamp, delta, delta_loop, difficulty_or, sum_loop,
  mul256, adjusted_span, next_difficulty, push_block, on_finalize,
}
use conjugate_poc.Runtime.Difficulty.Window.{
  push_block-rest, deltas, total, delta_loop-eq-deltas, sum_loop-eq-total,
}

-- A difficulty of at most 128 bits and a 64-bit moment.
abbrev pub Fits : Option DifficultyAndTimestamp → Type 0
Fits none = Unit
Fits (some d) = (d.difficulty ≤ max_difficulty) × (d.timestamp < 2 ^ 64)

pub record IsSound (s : Storage) : Type 0 where
  pub size : length s.past ≡ difficulty_adjust_window
  pub entries : All Fits s.past
  pub current : s.current_difficulty ≤ max_difficulty
  pub initial : s.initial_difficulty ≤ max_difficulty

delta-lt : (x y : Option DifficultyAndTimestamp) → Fits x → Fits y → delta x y < 2 ^ 64
unfolding delta
delta-lt none y p q = omega arith
delta-lt (some x) none p q = omega arith
delta-lt (some x) (some y) p q = omega arith

deltas-le :
    (x : Option DifficultyAndTimestamp) (xs : Window)
    → All Fits (x ∷ xs)
    → deltas (x ∷ xs) ≤ length xs * 2 ^ 64
unfolding deltas
deltas-le x [] p = omega arith
deltas-le x (y ∷ ys) p = omega (arith, delta-lt x y p.0 p.1.0, deltas-le y ys p.1)

difficulty_or-le :
    (initial : ℕ) (x : Option DifficultyAndTimestamp)
    → initial ≤ max_difficulty
    → Fits x
    → difficulty_or initial x ≤ max_difficulty
unfolding difficulty_or
difficulty_or-le initial none h p = h
difficulty_or-le initial (some d) h p = p.0

total-le :
    (initial : ℕ) (xs : Window)
    → initial ≤ max_difficulty
    → All Fits xs
    → total initial xs ≤ length xs * max_difficulty
unfolding total
total-le initial [] h p = omega arith
total-le initial (x ∷ xs) h p =
    omega (arith, difficulty_or-le initial x h p.0, total-le initial xs h p.1)

-- The span with its dampening: a third of the way from the goal to the measured time, at least one
-- millisecond, and at most twice the goal. The lower clamp never acts.
unfoldable pub damped_span : ℕ → ℕ
damped_span ts_delta =
    min ((max 1 ts_delta + 2 * block_time_window_msec) / 3) (2 * block_time_window_msec)

adjusted_span-eq-damped_span :
    (ts_delta : ℕ) → ts_delta < 2 ^ 127 → adjusted_span ts_delta ≡ damped_span ts_delta
unfolding adjusted_span damped_span damp clamp
adjusted_span-eq-damped_span ts_delta h = ground arith

pub damped_span_bounds :
    (ts_delta : ℕ) → (2400000 ≤ damped_span ts_delta) × (damped_span ts_delta ≤ 7200000)
unfolding damped_span
damped_span_bounds ts_delta = (omega arith, omega arith)

-- The next difficulty, with no overflow.
unfoldable pub retarget : ℕ → ℕ → ℕ
retarget diff_sum adj_ts =
    min max_difficulty (max min_difficulty (max min_difficulty diff_sum * block_time_msec / adj_ts))

next_difficulty-eq-retarget :
    (diff_sum adj_ts : ℕ)
    → diff_sum ≤ 60 * max_difficulty
    → next_difficulty diff_sum adj_ts ≡ some (retarget diff_sum adj_ts)
unfolding next_difficulty mul256 retarget
next_difficulty-eq-retarget diff_sum adj_ts h = ground arith

-- The window that a block leaves.
abbrev pub pushed : ℕ → ℕ → Window → Window
pushed now current [] = []
pushed now current (x ∷ xs) = xs ++ (some (record { timestamp = now; difficulty = current }) ∷ [])

-- The difficulty that a window and the initial difficulty give.
abbrev pub target : ℕ → Window → ℕ
target initial window = retarget (total initial window) (damped_span (deltas window))

retarget-le : (diff_sum adj_ts : ℕ) → retarget diff_sum adj_ts ≤ max_difficulty
unfolding retarget
retarget-le diff_sum adj_ts = omega arith

-- A window of the full size, as its first entry and the rest.
computed_window :
    (initial : ℕ) (window : Window)
    → length window ≡ difficulty_adjust_window
    → initial ≤ max_difficulty
    → All Fits window
    → (delta_loop (difficulty_adjust_window - 1) 1 window 0 ≡ deltas window)
      × (deltas window < 2 ^ 127)
      × (sum_loop initial difficulty_adjust_window 0 window 0 ≡ some (total initial window))
computed_window initial [] size h p = absurd (omega arith)
computed_window initial (x ∷ xs) size h p =
    let many : difficulty_adjust_window - 1 ≡ length xs = omega arith in
    let times = deltas-le x xs p in
    let sums = total-le initial (x ∷ xs) h p in
    (
      rw many (delta_loop-eq-deltas x xs (omega arith)),
      omega arith,
      rw (sym size) (sum_loop-eq-total initial (x ∷ xs) (omega arith)),
    )

module _ (now : ℕ) (s : Storage) (moment : now < 2 ^ 64) (sound : IsSound s) where
  pushed_past : push_block now s.current_difficulty s.past ≡ pushed now s.current_difficulty s.past
  pushed_past = go s.past sound.size
    where
      go :
          (w : Window)
          → length w ≡ difficulty_adjust_window
          → push_block now s.current_difficulty w ≡ pushed now s.current_difficulty w
      go [] size = absurd (omega arith)
      go (x ∷ xs) size = push_block-rest now s.current_difficulty x xs

  pushed-Fits :
      (w : Window)
      → length w ≡ difficulty_adjust_window
      → All Fits w
      → (length (pushed now s.current_difficulty w) ≡ difficulty_adjust_window)
        × All Fits (pushed now s.current_difficulty w)
  pushed-Fits [] size p = absurd (omega arith)
  pushed-Fits (x ∷ xs) size p =
      let block : List (Option DifficultyAndTimestamp) =
        some (record { timestamp = now; difficulty = s.current_difficulty }) ∷ [] in
      (
        omega (arith, length-append xs block),
        All-append Fits xs block p.1 ((sound.current, moment), tt),
      )

  -- The storage after the block.
  abbrev pub finalized : Storage
  finalized = record s {
    past = pushed now s.current_difficulty s.past;
    current_difficulty = target s.initial_difficulty (pushed now s.current_difficulty s.past);
  }

  -- On sound storage with a 64-bit moment, `on_finalize` does not panic: the oldest entry of the
  -- window gives way to the block's, the next difficulty is the window's sum times the block time by
  -- the dampened span, within the least and the greatest difficulty, and the storage stays sound.
  pub on_finalize_lem : (on_finalize now s ≡ some finalized) × IsSound finalized
  unfolding on_finalize
  on_finalize_lem =
      let w = pushed now s.current_difficulty s.past in
      let (size, fit) = pushed-Fits s.past sound.size sound.entries in
      let (times, small, sums) = computed_window s.initial_difficulty w size sound.initial fit in
      let room = total-le s.initial_difficulty w sound.initial fit in
      (
        rw (
          pushed_past,
          times,
          sums,
          adjusted_span-eq-damped_span (deltas w) small,
          next_difficulty-eq-retarget (total s.initial_difficulty w) (damped_span (deltas w))
              (omega arith),
        ),
        record { size = size; entries = fit; current = retarget-le _ _; initial = sound.initial },
      )
