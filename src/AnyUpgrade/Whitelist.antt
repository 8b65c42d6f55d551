-- ===== src/AnyUpgrade/Whitelist.antt =====
-- anyupgrade/src/lib.rs: the three walks through the whitelist agree.
use conjugate_poc.Common.{
  ℕ, ◌<◌, ◌==◌, ne→==, ==_refl, ==_iff, ◌≡◌, inl, inr, refl, ap, arith, true, false, Bool-cases,
  List, [], ◌∷◌, none, some, ok, panic, All,
}
use mathlib.Core.Path.{subst}
use mathlib.Core.Option.{some-injective}
use conjugate_poc.Poc.Bytes.{same_bytes, same_bytes_refl, same_bytes-eq}
use conjugate_poc.Poc.Codec.{Codec}
use conjugate_poc.AnyUpgrade.{Whitelist, get, whitelisted_call, is_whitelisted}

-- The keys of a `BTreeMap` ascend.
abbrev pub IsSorted : Whitelist → Type 0
IsSorted [] = Unit
IsSorted ((key, call) ∷ rest) = All (λ entry. key < entry.0) rest × IsSorted rest

-- A key below the others is not among them.
is_whitelisted-beyond :
    (num : ℕ) (ccall : List ℕ) (w : Whitelist)
    → All (λ entry. num < entry.0) w
    → is_whitelisted num ccall w ≡ false
unfolding is_whitelisted
is_whitelisted-beyond num ccall [] h = refl
is_whitelisted-beyond num ccall ((key, call) ∷ w) h =
    rw (ne→== key num (omega (arith, h.0))) (is_whitelisted-beyond num ccall w h.1)

pub is_whitelisted-get :
    (num : ℕ) (ccall : List ℕ) (w : Whitelist)
    → get num w ≡ some ccall
    → is_whitelisted num ccall w ≡ true
unfolding is_whitelisted get
is_whitelisted-get num ccall [] e = cc
is_whitelisted-get num ccall ((key, call) ∷ w) e = elim (Bool-cases (num == key)) [
  | inl same ↦
      (let head : num ≡ key = (==_iff num key).0 same in
        let found : call ≡ ccall = some-injective _ _ (rw same at e) in
        rw (head, found, ==_refl key, same_bytes_refl ccall) refl)
  | inr differ ↦
      (let other : (key == num) ≡ false = ground arith in
        rw (other, is_whitelisted-get num ccall w (rw differ at e)) refl)
]

pub get-is_whitelisted :
    (num : ℕ) (ccall : List ℕ) (w : Whitelist)
    → IsSorted w
    → is_whitelisted num ccall w ≡ true
    → get num w ≡ some ccall
unfolding is_whitelisted get
get-is_whitelisted num ccall [] sorted e = cc
get-is_whitelisted num ccall ((key, call) ∷ w) sorted e = elim (Bool-cases (key == num)) [
  | inl same ↦
      (let head : key ≡ num = (==_iff key num).0 same in
        let here : (num == key) ≡ true = ground arith in
        elim (Bool-cases (same_bytes call ccall)) [
          | inl equal ↦ rw here (ap some (same_bytes-eq call ccall equal))
          | inr unequal ↦
              (let later : is_whitelisted num ccall w ≡ true = rw (same, unequal) at e in
                let above = subst (λ (k : ℕ). All (λ entry. k < entry.0) w) head sorted.0 in
                let never : is_whitelisted num ccall w ≡ false =
                  is_whitelisted-beyond num ccall w above in
                absurd cc)
        ])
  | inr differ ↦
      (let other : (num == key) ≡ false = ground arith in
        rw other (get-is_whitelisted num ccall w sorted.1 (rw differ at e)))
]

pub whitelisted_call-none :
    {Call : Type 0} (codec : Codec Call) (num : ℕ) (w : Whitelist)
    → get num w ≡ none
    → whitelisted_call codec num w ≡ ok none
unfolding whitelisted_call get
whitelisted_call-none codec num [] e = refl
whitelisted_call-none codec num ((key, call) ∷ w) e = elim (Bool-cases (num == key)) [
  | inl same ↦ (let no : some call ≡ none = rw same at e in absurd cc)
  | inr differ ↦
      (let other : (key == num) ≡ false = ground arith in
        rw other (whitelisted_call-none codec num w (rw differ at e)))
]

pub whitelisted_call-some :
    {Call : Type 0} (codec : Codec Call) (num : ℕ) (w : Whitelist) (raw : List ℕ)
    → get num w ≡ some raw
    → whitelisted_call codec num w
      ≡ elim (codec.decode raw) [ none ↦ panic | some decoded ↦ ok (some decoded) ]
unfolding whitelisted_call get
whitelisted_call-some codec num [] raw e = cc
whitelisted_call-some codec num ((key, call) ∷ w) raw e = elim (Bool-cases (num == key)) [
  | inl same ↦
      (let head : num ≡ key = (==_iff num key).0 same in
        let found : call ≡ raw = some-injective _ _ (rw same at e) in
        rw (head, found, ==_refl key) refl)
  | inr differ ↦
      (let other : (key == num) ≡ false = ground arith in
        rw other (whitelisted_call-some codec num w raw (rw differ at e)))
]
