-- ===== src/Runtime/Difficulty/Window.antt =====
-- runtime/src/difficulty.rs: the shift of the window, and its two sums as sums over the list.
use conjugate_poc.Common.{
  ℕ, zero, suc, ◌+◌, ◌-◌, ◌^◌, ◌<◌, lt→ltb, ◌≡◌, refl, sym, ap, ap₂, ◌∙◌, arith, [], ◌∷◌, ◌++◌,
  Option, some, length, set, length-append,
}
use mathlib.Core.List.{append_assoc}
use conjugate_poc.Common.Panic.{set_mid}
use conjugate_poc.Runtime.Difficulty.{
  DifficultyAndTimestamp, Window, entry, shift_loop, push_block, delta, delta_loop, difficulty_or,
  sum_loop, add256, u128,
}

entry_at :
    (pre : Window) (x : Option DifficultyAndTimestamp) (post : Window) (i : ℕ)
    → i ≡ length pre
    → entry (pre ++ (x ∷ post)) i ≡ x
entry_at [] x post zero e = refl
entry_at [] x post (suc i) e = absurd (omega arith)
entry_at (y ∷ pre) x post zero e = absurd (omega arith)
entry_at (y ∷ pre) x post (suc i) e = entry_at pre x post i (omega arith)

-- The same entry behind one more.
entry_next :
    (pre : Window) (x y : Option DifficultyAndTimestamp) (post : Window) (i : ℕ)
    → i ≡ length pre + 1
    → entry (pre ++ (x ∷ y ∷ post)) i ≡ y
entry_next pre x y post i e =
    ap (λ w. entry w i) (sym (append_assoc pre (x ∷ []) (y ∷ post)))
    ∙ entry_at (pre ++ (x ∷ [])) y post i (omega (arith, length-append pre (x ∷ [])))

last_of : Option DifficultyAndTimestamp → Window → Option DifficultyAndTimestamp
last_of x [] = x
last_of x (y ∷ ys) = last_of y ys

shift_loop-rest :
    (pre : Window) (x : Option DifficultyAndTimestamp) (xs : Window) (i : ℕ)
    → i ≡ length pre + 1
    → shift_loop (length xs) i (pre ++ (x ∷ xs)) ≡ pre ++ (xs ++ (last_of x xs ∷ []))
unfolding shift_loop last_of
shift_loop-rest pre x [] i e = refl
shift_loop-rest pre x (y ∷ ys) i e =
    let moved : set (pre ++ (x ∷ y ∷ ys)) (i - 1) (entry (pre ++ (x ∷ y ∷ ys)) i)
        ≡ pre ++ (y ∷ y ∷ ys) =
      ap (set (pre ++ (x ∷ y ∷ ys)) (i - 1)) (entry_next pre x y ys i e)
      ∙ set_mid pre x y (y ∷ ys) (i - 1) (omega arith) in
    ap (shift_loop (length ys) (i + 1)) (moved ∙ sym (append_assoc pre (y ∷ []) (y ∷ ys)))
    ∙ shift_loop-rest (pre ++ (y ∷ [])) y ys (i + 1) (omega (arith, length-append pre (y ∷ [])))
    ∙ append_assoc pre (y ∷ []) _

-- The oldest entry goes, and the block's comes last.
pub push_block-rest :
    (now current : ℕ) (x : Option DifficultyAndTimestamp) (xs : Window)
    → push_block now current (x ∷ xs)
      ≡ xs ++ (some (record { timestamp = now; difficulty = current }) ∷ [])
unfolding push_block
push_block-rest now current x xs =
    let shifted = shift_loop-rest [] x xs 1 refl in
    let width : suc (length xs) - 1 ≡ length xs = omega arith in
    rw (width, shifted)
      (set_mid xs (last_of x xs) _ [] (length (xs ++ (last_of x xs ∷ [])) - 1)
        (omega (arith, length-append xs (last_of x xs ∷ []))))

-- The times between the neighbours of a window.
unfoldable pub deltas : Window → ℕ
deltas [] = 0
deltas (x ∷ []) = 0
deltas (x ∷ y ∷ ys) = delta x y + deltas (y ∷ ys)

-- The difficulties of a window, with the initial one for what is missing.
unfoldable pub total : ℕ → Window → ℕ
total initial [] = 0
total initial (x ∷ xs) = difficulty_or initial x + total initial xs

delta_loop-deltas :
    (pre : Window) (x : Option DifficultyAndTimestamp) (xs : Window) (i acc : ℕ)
    → i ≡ length pre + 1
    → acc + deltas (x ∷ xs) < 2 ^ 128
    → delta_loop (length xs) i (pre ++ (x ∷ xs)) acc ≡ acc + deltas (x ∷ xs)
unfolding delta_loop deltas
delta_loop-deltas pre x [] i acc e h = omega arith
delta_loop-deltas pre x (y ∷ ys) i acc e h =
    let w = pre ++ (x ∷ y ∷ ys) in
    let read : delta (entry w (i - 1)) (entry w i) ≡ delta x y =
      ap₂ delta (entry_at pre x (y ∷ ys) (i - 1) (omega arith)) (entry_next pre x y ys i e) in
    let fits : u128 (acc + delta x y) ≡ acc + delta x y = omega arith in
    ap (λ (t : ℕ). delta_loop (length ys) (i + 1) w (u128 (acc + t))) read
    ∙ ap₂ (delta_loop (length ys) (i + 1)) (sym (append_assoc pre (x ∷ []) (y ∷ ys))) fits
    ∙ delta_loop-deltas (pre ++ (x ∷ [])) y ys (i + 1) (acc + delta x y)
        (omega (arith, length-append pre (x ∷ []))) (omega arith)
    ∙ omega arith

-- The loop over a window whose times add up without overflow.
pub delta_loop-eq-deltas :
    (x : Option DifficultyAndTimestamp) (xs : Window)
    → deltas (x ∷ xs) < 2 ^ 128
    → delta_loop (length xs) 1 (x ∷ xs) 0 ≡ deltas (x ∷ xs)
delta_loop-eq-deltas x xs h = delta_loop-deltas [] x xs 1 0 refl (omega arith) ∙ omega arith

sum_loop-total :
    (initial : ℕ) (pre xs : Window) (i acc : ℕ)
    → i ≡ length pre
    → acc + total initial xs < 2 ^ 256
    → sum_loop initial (length xs) i (pre ++ xs) acc ≡ some (acc + total initial xs)
unfolding sum_loop total add256
sum_loop-total initial pre [] i acc e h = ap some (omega arith)
sum_loop-total initial pre (x ∷ xs) i acc e h =
    let d = difficulty_or initial x in
    rw (entry_at pre x xs i e, lt→ltb (acc + d) (2 ^ 256) (omega arith))
      (ap (λ w. sum_loop initial (length xs) (i + 1) w (acc + d))
          (sym (append_assoc pre (x ∷ []) xs))
        ∙ sum_loop-total initial (pre ++ (x ∷ [])) xs (i + 1) (acc + d)
            (omega (arith, length-append pre (x ∷ []))) (omega arith)
        ∙ ap some (omega arith))

pub sum_loop-eq-total :
    (initial : ℕ) (xs : Window)
    → total initial xs < 2 ^ 256
    → sum_loop initial (length xs) 0 xs 0 ≡ some (total initial xs)
sum_loop-eq-total initial xs h =
    sum_loop-total initial [] xs 0 0 refl (omega arith) ∙ ap some (omega arith)
