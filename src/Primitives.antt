-- ===== src/Primitives.antt =====
-- primitives/src/lib.rs: the constants that the crates share. A block interval is a minute; the
-- difficulty window is an hour of blocks.
use conjugate_poc.Common.{ℕ, ◌-◌, ◌*◌, ◌/◌, ◌^◌, List, [], ◌∷◌}

abbrev pub block_time_sec : ℕ
block_time_sec = 60

abbrev pub block_time_msec : ℕ
block_time_msec = block_time_sec * 1000

abbrev pub hour_height : ℕ
hour_height = 3600 / block_time_sec

abbrev pub day_height : ℕ
day_height = 24 * hour_height

abbrev pub week_height : ℕ
week_height = 7 * day_height

abbrev pub year_height : ℕ
year_height = 52 * week_height

abbrev pub difficulty_adjust_window : ℕ
difficulty_adjust_window = hour_height

abbrev pub block_time_window_sec : ℕ
block_time_window_sec = difficulty_adjust_window * block_time_sec

abbrev pub block_time_window_msec : ℕ
block_time_window_msec = difficulty_adjust_window * block_time_msec

abbrev pub clamp_factor : ℕ
clamp_factor = 2

abbrev pub difficulty_damp_factor : ℕ
difficulty_damp_factor = 3

abbrev pub min_difficulty : ℕ
min_difficulty = difficulty_damp_factor

-- `u128::max_value()`.
abbrev pub max_difficulty : ℕ
max_difficulty = 2 ^ 128 - 1

abbrev pub hash_size : ℕ
hash_size = 32

abbrev pub hash_cap : ℕ
hash_cap = 4096

abbrev pub num_scoops : ℕ
num_scoops = 4096

abbrev pub scoop_size : ℕ
scoop_size = 64

abbrev pub nonce_size : ℕ
nonce_size = num_scoops * scoop_size

abbrev pub message_size : ℕ
message_size = 16

-- `*b"randomx0"`.
abbrev pub algorithm_identifier : List ℕ
algorithm_identifier = b'r' ∷ b'a' ∷ b'n' ∷ b'd' ∷ b'o' ∷ b'm' ∷ b'x' ∷ b'0' ∷ []
