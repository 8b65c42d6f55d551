-- ===== src/Shabal/Perm.antt =====
-- poc/src/shabal256.rs: `perm_elt`, and the 48 calls of it that `perm` and `perm_dl` make. The
-- calls stand as rows of their numerals, run in order.
use conjugate_poc.Common.{ℕ, List, [], ◌∷◌, ◌⊎◌, inl, inr, set}
use conjugate_poc.Shabal.Word.{mul32, rotl32, not32, ◌^^◌, and32}
use conjugate_poc.Shabal.State.{at}

pub record Arrays : Type 0 where
  pub a : List ℕ
  pub b : List ℕ

-- The value stored into `a[xa0]`.
unfoldable pub elt_a : Arrays → ℕ → ℕ → ℕ → ℕ → ℕ → ℕ → ℕ → ℕ
elt_a s xa0 xa1 xb1 xb2 xb3 xc xm =
    mul32 (at s.a xa0 ^^ mul32 (rotl32 (at s.a xa1) 15) 5 ^^ xc) 3
    ^^ at s.b xb1
    ^^ and32 (at s.b xb2) (not32 (at s.b xb3))
    ^^ xm

-- The value stored into `b[xb0]`, from the new `a[xa0]`.
unfoldable pub elt_b : List ℕ → ℕ → ℕ → ℕ
elt_b b xb0 xa = not32 (rotl32 (at b xb0) 1 ^^ xa)

unfoldable pub perm_elt : Arrays → ℕ → ℕ → ℕ → ℕ → ℕ → ℕ → ℕ → ℕ → Arrays
perm_elt s xa0 xa1 xb0 xb1 xb2 xb3 xc xm =
    let a' = set s.a xa0 (elt_a s xa0 xa1 xb1 xb2 xb3 xc xm) in
    record { a = a'; b = set s.b xb0 (elt_b s.b xb0 (at a' xa0)) }

-- One call of `perm_elt`: its six indices, the index into `c`, and where the data word is.
pub data Call (M : Type 0) : Type 0 where
  call : ℕ → ℕ → ℕ → ℕ → ℕ → ℕ → ℕ → M → Call M

module _ {M : Type 0} (c : List ℕ) (word : M → ℕ) where
  unfoldable pub run_call : Call M → Arrays → Arrays
  run_call (call xa0 xa1 xb0 xb1 xb2 xb3 xc xm) s =
      perm_elt s xa0 xa1 xb0 xb1 xb2 xb3 (at c xc) (word xm)

  unfoldable pub run_calls : List (Call M) → Arrays → Arrays
  run_calls [] s = s
  run_calls (k ∷ ks) s = run_calls ks (run_call k s)

-- The calls of `perm`, in order.
abbrev pub perm_calls : List (Call ℕ)
perm_calls =
    call 0 11 0 13 9 6 8 0
    ∷ call 1 0 1 14 10 7 7 1
    ∷ call 2 1 2 15 11 8 6 2
    ∷ call 3 2 3 0 12 9 5 3
    ∷ call 4 3 4 1 13 10 4 4
    ∷ call 5 4 5 2 14 11 3 5
    ∷ call 6 5 6 3 15 12 2 6
    ∷ call 7 6 7 4 0 13 1 7
    ∷ call 8 7 8 5 1 14 0 8
    ∷ call 9 8 9 6 2 15 15 9
    ∷ call 10 9 10 7 3 0 14 10
    ∷ call 11 10 11 8 4 1 13 11
    ∷ call 0 11 12 9 5 2 12 12
    ∷ call 1 0 13 10 6 3 11 13
    ∷ call 2 1 14 11 7 4 10 14
    ∷ call 3 2 15 12 8 5 9 15
    ∷ call 4 3 0 13 9 6 8 0
    ∷ call 5 4 1 14 10 7 7 1
    ∷ call 6 5 2 15 11 8 6 2
    ∷ call 7 6 3 0 12 9 5 3
    ∷ call 8 7 4 1 13 10 4 4
    ∷ call 9 8 5 2 14 11 3 5
    ∷ call 10 9 6 3 15 12 2 6
    ∷ call 11 10 7 4 0 13 1 7
    ∷ call 0 11 8 5 1 14 0 8
    ∷ call 1 0 9 6 2 15 15 9
    ∷ call 2 1 10 7 3 0 14 10
    ∷ call 3 2 11 8 4 1 13 11
    ∷ call 4 3 12 9 5 2 12 12
    ∷ call 5 4 13 10 6 3 11 13
    ∷ call 6 5 14 11 7 4 10 14
    ∷ call 7 6 15 12 8 5 9 15
    ∷ call 8 7 0 13 9 6 8 0
    ∷ call 9 8 1 14 10 7 7 1
    ∷ call 10 9 2 15 11 8 6 2
    ∷ call 11 10 3 0 12 9 5 3
    ∷ call 0 11 4 1 13 10 4 4
    ∷ call 1 0 5 2 14 11 3 5
    ∷ call 2 1 6 3 15 12 2 6
    ∷ call 3 2 7 4 0 13 1 7
    ∷ call 4 3 8 5 1 14 0 8
    ∷ call 5 4 9 6 2 15 15 9
    ∷ call 6 5 10 7 3 0 14 10
    ∷ call 7 6 11 8 4 1 13 11
    ∷ call 8 7 12 9 5 2 12 12
    ∷ call 9 8 13 10 6 3 11 13
    ∷ call 10 9 14 11 7 4 10 14
    ∷ call 11 10 15 12 8 5 9 15
    ∷ []

-- The calls of `perm_dl`: `inl i` is `data_a[i]`, `inr i` is `data_b[i]`.
abbrev pub perm_dl_calls : List (Call (ℕ ⊎ ℕ))
perm_dl_calls =
    call 0 11 0 13 9 6 8 (inl 0)
    ∷ call 1 0 1 14 10 7 7 (inl 1)
    ∷ call 2 1 2 15 11 8 6 (inl 2)
    ∷ call 3 2 3 0 12 9 5 (inl 3)
    ∷ call 4 3 4 1 13 10 4 (inl 4)
    ∷ call 5 4 5 2 14 11 3 (inl 5)
    ∷ call 6 5 6 3 15 12 2 (inl 6)
    ∷ call 7 6 7 4 0 13 1 (inl 7)
    ∷ call 8 7 8 5 1 14 0 (inr 0)
    ∷ call 9 8 9 6 2 15 15 (inr 1)
    ∷ call 10 9 10 7 3 0 14 (inr 2)
    ∷ call 11 10 11 8 4 1 13 (inr 3)
    ∷ call 0 11 12 9 5 2 12 (inr 4)
    ∷ call 1 0 13 10 6 3 11 (inr 5)
    ∷ call 2 1 14 11 7 4 10 (inr 6)
    ∷ call 3 2 15 12 8 5 9 (inr 7)
    ∷ call 4 3 0 13 9 6 8 (inl 0)
    ∷ call 5 4 1 14 10 7 7 (inl 1)
    ∷ call 6 5 2 15 11 8 6 (inl 2)
    ∷ call 7 6 3 0 12 9 5 (inl 3)
    ∷ call 8 7 4 1 13 10 4 (inl 4)
    ∷ call 9 8 5 2 14 11 3 (inl 5)
    ∷ call 10 9 6 3 15 12 2 (inl 6)
    ∷ call 11 10 7 4 0 13 1 (inl 7)
    ∷ call 0 11 8 5 1 14 0 (inr 0)
    ∷ call 1 0 9 6 2 15 15 (inr 1)
    ∷ call 2 1 10 7 3 0 14 (inr 2)
    ∷ call 3 2 11 8 4 1 13 (inr 3)
    ∷ call 4 3 12 9 5 2 12 (inr 4)
    ∷ call 5 4 13 10 6 3 11 (inr 5)
    ∷ call 6 5 14 11 7 4 10 (inr 6)
    ∷ call 7 6 15 12 8 5 9 (inr 7)
    ∷ call 8 7 0 13 9 6 8 (inl 0)
    ∷ call 9 8 1 14 10 7 7 (inl 1)
    ∷ call 10 9 2 15 11 8 6 (inl 2)
    ∷ call 11 10 3 0 12 9 5 (inl 3)
    ∷ call 0 11 4 1 13 10 4 (inl 4)
    ∷ call 1 0 5 2 14 11 3 (inl 5)
    ∷ call 2 1 6 3 15 12 2 (inl 6)
    ∷ call 3 2 7 4 0 13 1 (inl 7)
    ∷ call 4 3 8 5 1 14 0 (inr 0)
    ∷ call 5 4 9 6 2 15 15 (inr 1)
    ∷ call 6 5 10 7 3 0 14 (inr 2)
    ∷ call 7 6 11 8 4 1 13 (inr 3)
    ∷ call 8 7 12 9 5 2 12 (inr 4)
    ∷ call 9 8 13 10 6 3 11 (inr 5)
    ∷ call 10 9 14 11 7 4 10 (inr 6)
    ∷ call 11 10 15 12 8 5 9 (inr 7)
    ∷ []

unfoldable pub perm : List ℕ → List ℕ → Arrays → Arrays
perm c data' s = run_calls c (at data') perm_calls s

abbrev pub dl_word : List ℕ → List ℕ → ℕ ⊎ ℕ → ℕ
dl_word data_a data_b (inl i) = at data_a i
dl_word data_a data_b (inr i) = at data_b i

unfoldable pub perm_dl : List ℕ → List ℕ → List ℕ → Arrays → Arrays
perm_dl c data_a data_b s = run_calls c (dl_word data_a data_b) perm_dl_calls s
