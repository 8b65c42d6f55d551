-- ===== src/Shabal/Inverse.antt =====
-- The calls of `perm` in poc/src/shabal256.rs can be undone: for a fixed `c` and block the 48
-- steps lose nothing of `a` and `b`.
use conjugate_poc.Common.{
  ℕ, ◌+◌, ◌*◌, ◌/◌, ◌%◌, ◌^◌, ◌<◌, ◌≡◌, ◌≢◌, refl, ap, ◌∙◌, arith, List, [], ◌∷◌, set, length-set,
  get_or-set_self, get_or-set_ne, set-set_self, All, All-set, All-get_or,
}
use conjugate_poc.Shabal.Word.{mul32, rotl32, not32, ◌^^◌, and32}
use conjugate_poc.Shabal.Bits.{rotl32_one, bit_and-le}
use conjugate_poc.Shabal.Xor.{xor_cancel, xor-lt}
use conjugate_poc.Shabal.State.{at}
use conjugate_poc.Shabal.Shape.{IsWord, IsArray, not32_lt}
use conjugate_poc.Shabal.Perm.{
  Arrays, Call, call, elt_a, elt_b, perm_elt, run_call, run_calls, perm, perm_calls,
}

-- 3 * 0xaaaaaaab is 1 mod 2 ^ 32.
abbrev third : ℕ
third = 0xaaaaaaab

-- The word of `b` before the call, from the two new words.
undo_b : ℕ → ℕ → ℕ
undo_b xb xa = let y = not32 xb ^^ xa in y / 2 + y % 2 * 2 ^ 31

-- The word of `a` before the call, from the new word and what the call read.
undo_a : Arrays → ℕ → ℕ → ℕ → ℕ → ℕ → ℕ → ℕ → ℕ
undo_a s xa0 xa1 xb1 xb2 xb3 xc xm =
    let mixed = at s.a xa0 ^^ xm ^^ and32 (at s.b xb2) (not32 (at s.b xb3)) ^^ at s.b xb1 in
    mul32 mixed third ^^ xc ^^ mul32 (rotl32 (at s.a xa1) 15) 5

undo_elt : Arrays → ℕ → ℕ → ℕ → ℕ → ℕ → ℕ → ℕ → ℕ → Arrays
undo_elt s xa0 xa1 xb0 xb1 xb2 xb3 xc xm = record {
  a = set s.a xa0 (undo_a s xa0 xa1 xb1 xb2 xb3 xc xm);
  b = set s.b xb0 (undo_b (at s.b xb0) (at s.a xa0));
}

module _ {M : Type 0} (c : List ℕ) (word : M → ℕ) where
  undo_call : Call M → Arrays → Arrays
  undo_call (call xa0 xa1 xb0 xb1 xb2 xb3 xc xm) s =
      undo_elt s xa0 xa1 xb0 xb1 xb2 xb3 (at c xc) (word xm)

  -- The last call is undone first.
  undo_calls : List (Call M) → Arrays → Arrays
  undo_calls [] s = s
  undo_calls (k ∷ ks) s = undo_call k (undo_calls ks s)

pub undo_perm : List ℕ → List ℕ → Arrays → Arrays
undo_perm c data' s = undo_calls c (at data') perm_calls s

-- The two arrays at their sizes, with words in them.
pub record IsFull (s : Arrays) : Type 0 where
  pub a : IsArray 12 s.a
  pub b : IsArray 16 s.b

-- A call that reads nothing from where it writes `b`, and no `a[xa1]` from where it writes `a`.
abbrev IsApart : {M : Type 0} → Call M → Type 0
IsApart (call xa0 xa1 xb0 xb1 xb2 xb3 xc xm) =
    (xa0 < 12) × (xb0 < 16) × (xa0 ≢ xa1) × (xb0 ≢ xb1) × (xb0 ≢ xb2) × (xb0 ≢ xb3)

mul32_lt : (x y : ℕ) → IsWord (mul32 x y)
unfolding mul32
mul32_lt x y = omega arith

mul32-third : (x : ℕ) → IsWord x → mul32 (mul32 x 3) third ≡ x
unfolding mul32
mul32-third x h = omega arith

not32_twice : (x : ℕ) → IsWord x → not32 (not32 x) ≡ x
unfolding not32
not32_twice x h = omega arith

xor32_lt : (x y : ℕ) → IsWord x → IsWord y → IsWord (x ^^ y)
xor32_lt x y h k = xor-lt 32 x y h k

undo_b-elt : (x xa : ℕ) → IsWord x → IsWord xa → undo_b (not32 (rotl32 x 1 ^^ xa)) xa ≡ x
unfolding undo_b
undo_b-elt x xa h k =
    let rot : IsWord (rotl32 x 1) = omega (arith, rotl32_one x h) in
    let y = not32_twice (rotl32 x 1 ^^ xa) (xor32_lt _ _ rot k) in
    rw (y, xor_cancel (rotl32 x 1) xa) (omega (arith, rotl32_one x h))

-- The algebra of one word of `a`: `v` is what `a[xa1]` gives, `f` the `and` of two words of `b`.
undo_a-elt :
    (x v xc b1 f xm : ℕ)
    → IsWord x
    → IsWord v
    → IsWord xc
    → (mul32 (mul32 (x ^^ v ^^ xc) 3 ^^ b1 ^^ f ^^ xm ^^ xm ^^ f ^^ b1) third ^^ xc ^^ v) ≡ x
undo_a-elt x v xc b1 f xm hx hv hc =
    let word = xor32_lt _ xc (xor32_lt x v hx hv) hc in
    rw (
      xor_cancel (mul32 (x ^^ v ^^ xc) 3 ^^ b1 ^^ f) xm,
      xor_cancel (mul32 (x ^^ v ^^ xc) 3 ^^ b1) f,
      xor_cancel (mul32 (x ^^ v ^^ xc) 3) b1,
      mul32-third (x ^^ v ^^ xc) word,
      xor_cancel (x ^^ v) xc,
      xor_cancel x v,
    )

module _ (s : Arrays) (xa0 xa1 xb0 xb1 xb2 xb3 xc xm : ℕ) (full : IsFull s) (hc : IsWord xc)
    (hm : IsWord xm) where
  IsWord-a : (i : ℕ) → IsWord (at s.a i)
  IsWord-a i = All-get_or IsWord s.a i 0 full.a.words (omega arith)

  IsWord-b : (i : ℕ) → IsWord (at s.b i)
  IsWord-b i = All-get_or IsWord s.b i 0 full.b.words (omega arith)

  elt_a_lt : IsWord (elt_a s xa0 xa1 xb1 xb2 xb3 xc xm)
  unfolding elt_a
  elt_a_lt =
      let masked : IsWord (and32 (at s.b xb2) (not32 (at s.b xb3))) =
        omega (arith, bit_and-le (at s.b xb2) (not32 (at s.b xb3)), IsWord-b xb2) in
      xor32_lt _ xm (xor32_lt _ _ (xor32_lt _ _ (mul32_lt _ 3) (IsWord-b xb1)) masked) hm

  perm_elt-IsFull : IsFull (perm_elt s xa0 xa1 xb0 xb1 xb2 xb3 xc xm)
  unfolding perm_elt elt_b
  perm_elt-IsFull = record {
    a = record {
      size = length-set s.a xa0 _ ∙ full.a.size;
      words = All-set IsWord s.a xa0 _ full.a.words elt_a_lt;
    };
    b = record {
      size = length-set s.b xb0 _ ∙ full.b.size;
      words = All-set IsWord s.b xb0 _ full.b.words (not32_lt _);
    };
  }

  module _ (in_a : xa0 < 12) (in_b : xb0 < 16) (a1 : xa0 ≢ xa1) (b1 : xb0 ≢ xb1) (b2 : xb0 ≢ xb2)
      (b3 : xb0 ≢ xb3) where
    new_a : ℕ
    new_a = elt_a s xa0 xa1 xb1 xb2 xb3 xc xm

    written_a : at (set s.a xa0 new_a) xa0 ≡ new_a
    written_a = get_or-set_self s.a xa0 new_a 0 (rw full.a.size in_a)

    restored_a :
        (b' : ℕ)
        → undo_a (record { a = set s.a xa0 new_a; b = set s.b xb0 b' }) xa0 xa1 xb1 xb2 xb3 xc xm
          ≡ at s.a xa0
    unfolding undo_a new_a elt_a
    restored_a b' =
        rw
          (
            written_a,
            get_or-set_ne s.a xa0 xa1 new_a 0 a1,
            get_or-set_ne s.b xb0 xb1 b' 0 b1,
            get_or-set_ne s.b xb0 xb2 b' 0 b2,
            get_or-set_ne s.b xb0 xb3 b' 0 b3,
          )
          (undo_a-elt (at s.a xa0) _ xc _ _ xm (IsWord-a xa0) (mul32_lt _ 5) hc)

    restored_b : undo_b (at (set s.b xb0 (elt_b s.b xb0 new_a)) xb0) new_a ≡ at s.b xb0
    unfolding elt_b new_a
    restored_b =
        rw (get_or-set_self s.b xb0 (elt_b s.b xb0 new_a) 0 (rw full.b.size in_b))
          (undo_b-elt (at s.b xb0) new_a (IsWord-b xb0) elt_a_lt)

    undo_elt-perm_elt :
        undo_elt (perm_elt s xa0 xa1 xb0 xb1 xb2 xb3 xc xm) xa0 xa1 xb0 xb1 xb2 xb3 xc xm ≡ s
    unfolding undo_elt perm_elt new_a
    undo_elt-perm_elt =
        rw (written_a, restored_a _, restored_b)
          (λ i. record {
            a = set-set_self s.a xa0 new_a 0 i;
            b = set-set_self s.b xb0 (elt_b s.b xb0 new_a) 0 i;
          })

module _ {M : Type 0} (c : List ℕ) (word : M → ℕ) (hc : All IsWord c)
    (hm : (m : M) → IsWord (word m)) where
  run_call-IsFull : (k : Call M) (s : Arrays) → IsFull s → IsFull (run_call c word k s)
  unfolding run_call
  run_call-IsFull (call xa0 xa1 xb0 xb1 xb2 xb3 xc xm) s h =
      perm_elt-IsFull s xa0 xa1 xb0 xb1 xb2 xb3 _ _ h (All-get_or IsWord c xc 0 hc (omega arith))
        (hm xm)

  undo_call-run_call :
      (k : Call M) (s : Arrays)
      → IsApart k
      → IsFull s
      → undo_call c word k (run_call c word k s) ≡ s
  unfolding undo_call run_call
  undo_call-run_call (call xa0 xa1 xb0 xb1 xb2 xb3 xc xm) s (p0, p1, p2, p3, p4, p5) h =
      undo_elt-perm_elt s xa0 xa1 xb0 xb1 xb2 xb3 _ _ h (All-get_or IsWord c xc 0 hc (omega arith))
        (hm xm) p0 p1 p2 p3 p4 p5

  undo_calls-run_calls :
      (ks : List (Call M)) (s : Arrays)
      → All IsApart ks
      → IsFull s
      → undo_calls c word ks (run_calls c word ks s) ≡ s
  unfolding undo_calls run_calls
  undo_calls-run_calls [] s p h = refl
  undo_calls-run_calls (k ∷ ks) s p h =
      ap (undo_call c word k)
        (undo_calls-run_calls ks (run_call c word k s) p.1 (run_call-IsFull k s h))
      ∙ undo_call-run_call k s p.0 h

perm_calls-IsApart : All IsApart perm_calls
perm_calls-IsApart = omega arith

-- For words `c` and `data'`, the 48 steps of `perm` on full arrays are undone by running the
-- inverse steps backwards.
pub undo_perm-perm :
    (c data' : List ℕ) (s : Arrays)
    → All IsWord c
    → All IsWord data'
    → IsFull s
    → undo_perm c data' (perm c data' s) ≡ s
unfolding undo_perm perm
undo_perm-perm c data' s hc hd h =
    undo_calls-run_calls c (at data') hc (λ m. All-get_or IsWord data' m 0 hd (omega arith))
      perm_calls s perm_calls-IsApart h
