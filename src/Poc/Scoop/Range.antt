-- ===== src/Poc/Scoop/Range.antt =====
-- poc/src/lib.rs: the scoop number in arithmetic.
use conjugate_poc.Common.{ℕ, ◌+◌, ◌*◌, ◌%◌, ◌<◌, ◌≡◌, arith, List, get_or, All-get_or}
use conjugate_poc.Primitives.{num_scoops}
use conjugate_poc.Shabal.Bits.{or_shifted, and_fifteen}
use conjugate_poc.Shabal.Shape.{IsByte}
use conjugate_poc.Shabal.Hash.Bounds.{hash-IsHash}
use conjugate_poc.Poc.Scoop.{scoop_hash, calculate_scoop}

-- Byte `i` of the hash that the scoop number is read from.
abbrev pub scoop_byte : ℕ → List ℕ → ℕ → ℕ
scoop_byte height gensig i = get_or (scoop_hash height gensig) i 0

-- The scoop number is the low four bits of byte 30 of the hash and byte 31 below them, so it is one
-- of the 4096 scoops.
pub calculate_scoop_lem :
    (height : ℕ) (gensig : List ℕ)
    → (calculate_scoop height gensig
        ≡ scoop_byte height gensig 30 % 16 * 256 + scoop_byte height gensig 31)
      × (calculate_scoop height gensig < num_scoops)
unfolding calculate_scoop
calculate_scoop_lem height gensig =
    let x = scoop_byte height gensig 30 in
    let y = scoop_byte height gensig 31 in
    let byte : y < 256 =
      unfold scoop_hash in All-get_or IsByte _ 31 0 (hash-IsHash _ _).1 (omega arith) in
    rw (and_fifteen x, or_shifted 8 (x % 16) y byte) (omega arith, omega arith)
