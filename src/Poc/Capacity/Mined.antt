-- ===== src/Poc/Capacity/Mined.antt =====
-- poc/src/lib.rs: what `poc_mine` makes of a plot file once it has a generation signature.
use conjugate_poc.Common.{ℕ, ◌+◌, ◌*◌, List, take, drop}

-- The 64 bytes of the plot file for scoop `scoop` of nonce number `n`.
abbrev pub plot_scoop : List ℕ → ℕ → ℕ → List ℕ
plot_scoop file scoop n = take 64 (drop (scoop * 64 * 4096 + n * 64) file)
