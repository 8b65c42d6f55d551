-- ===== src/Runtime/Difficulty.antt =====
-- runtime/src/difficulty.rs: the difficulty module. `u128` arithmetic wraps, as in a release build;
-- `U256` arithmetic panics on overflow, which is `none`. A moment is a `u64` of milliseconds.
pub mod Window
pub mod Bounds
pub mod Change
pub mod Steady
use conjugate_poc.Common.{
  ℕ, zero, suc, ◌+◌, ◌-◌, ◌*◌, ◌/◌, ◌%◌, ◌^◌, min, max, ltb, ◌==◌, if◌then◌else◌, List, Option,
  none, some, length, get_or, set,
}
use conjugate_poc.Common.Panic.{◌>>=◌}
use conjugate_poc.Primitives.{
  difficulty_adjust_window, block_time_msec, block_time_window_msec, difficulty_damp_factor,
  clamp_factor, min_difficulty, max_difficulty,
}

pub record DifficultyAndTimestamp : Type 0 where
  pub difficulty : ℕ
  pub timestamp : ℕ

abbrev pub u128 : ℕ → ℕ
u128 n = n % 2 ^ 128

-- `damp` and `clamp`; the factors are positive.
unfoldable pub damp : ℕ → ℕ → ℕ → ℕ
damp actual goal damp_factor = u128 (actual + u128 ((damp_factor - 1) * goal)) / damp_factor

unfoldable pub clamp : ℕ → ℕ → ℕ → ℕ
clamp actual goal clamp_factor = max (goal / clamp_factor) (min actual (u128 (goal * clamp_factor)))

-- `U256` addition and multiplication.
unfoldable pub add256 : ℕ → ℕ → Option ℕ
add256 x y = if ltb (x + y) (2 ^ 256) then some (x + y) else none

unfoldable pub mul256 : ℕ → ℕ → Option ℕ
mul256 x y = if ltb (x * y) (2 ^ 256) then some (x * y) else none

abbrev pub Window : Type 0
Window = List (Option DifficultyAndTimestamp)

-- The storage of the module.
pub record Storage : Type 0 where
  pub past : Window
  pub current_difficulty : ℕ
  pub initial_difficulty : ℕ

-- `data[i]`.
abbrev pub entry : Window → ℕ → Option DifficultyAndTimestamp
entry window i = get_or window i none

-- `data[i - 1] = data[i]` for `left` indices from `i` on.
unfoldable pub shift_loop : ℕ → ℕ → Window → Window
shift_loop zero i window = window
shift_loop (suc left) i window = shift_loop left (i + 1) (set window (i - 1) (entry window i))

-- The time between two neighbours; a missing one counts as the block time.
unfoldable pub delta : Option DifficultyAndTimestamp → Option DifficultyAndTimestamp → ℕ
delta (some prev) (some cur) = cur.timestamp - prev.timestamp
delta _ _ = block_time_msec

unfoldable pub delta_loop : ℕ → ℕ → Window → ℕ → ℕ
delta_loop zero i window ts_delta = ts_delta
delta_loop (suc left) i window ts_delta =
    delta_loop left (i + 1) window (u128 (ts_delta + delta (entry window (i - 1)) (entry window i)))

unfoldable pub difficulty_or : ℕ → Option DifficultyAndTimestamp → ℕ
difficulty_or initial none = initial
difficulty_or initial (some d) = d.difficulty

unfoldable pub sum_loop : ℕ → ℕ → ℕ → Window → ℕ → Option ℕ
sum_loop initial zero i window diff_sum = some diff_sum
sum_loop initial (suc left) i window diff_sum = do
  diff_sum' ← add256 diff_sum (difficulty_or initial (entry window i))
  sum_loop initial left (i + 1) window diff_sum'

-- The adjusted time span of a window.
unfoldable pub adjusted_span : ℕ → ℕ
adjusted_span ts_delta =
    clamp
      (damp (if ts_delta == 0 then 1 else ts_delta) block_time_window_msec difficulty_damp_factor)
      block_time_window_msec clamp_factor

-- The next difficulty from the sum of the window's and the adjusted span.
unfoldable pub next_difficulty : ℕ → ℕ → Option ℕ
next_difficulty diff_sum adj_ts = do
  scaled ← mul256 (if ltb diff_sum min_difficulty then min_difficulty else diff_sum) block_time_msec
  some (min max_difficulty (max min_difficulty (scaled / adj_ts)))

-- The window after the block at `now`.
unfoldable pub push_block : ℕ → ℕ → Window → Window
push_block now current window =
    let shifted = shift_loop (length window - 1) 1 window in
    set shifted (length shifted - 1) (some (record { timestamp = now; difficulty = current }))

unfoldable pub on_finalize : ℕ → Storage → Option Storage
on_finalize now s =
    let window = push_block now s.current_difficulty s.past in
    let ts_delta = delta_loop (difficulty_adjust_window - 1) 1 window 0 in
    do
      diff_sum ← sum_loop s.initial_difficulty difficulty_adjust_window 0 window 0
      difficulty ← next_difficulty diff_sum (adjusted_span ts_delta)
      some (record s { past = window; current_difficulty = difficulty })
