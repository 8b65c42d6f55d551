-- ===== src/AnyUpgrade/Checks.antt =====
-- anyupgrade/src/lib.rs: what a node creates, requires and accepts.
use conjugate_poc.Common.{
  ℕ, ltb, ◌≡◌, ◌↔◌, ◌⊎◌, inl, inr, refl, sym, ap, ◌∙◌, true, Bool-cases, Option-cases, List, Option,
  none, some, Outcome, ok, err, panic,
}
use conjugate_poc.Poc.Codec.{Codec}
use conjugate_poc.Inherents.{Stored, absent, malformed, present}
use conjugate_poc.AnyUpgrade.{
  InherentError, Whitelist, get, is_some, saturated, is_inherent_required, check_inherents,
  is_whitelisted, create_inherent, whitelisted_call, check_inherent, InherentType, not_whitelisted,
}
use conjugate_poc.AnyUpgrade.Whitelist.{
  IsSorted, is_whitelisted-get, get-is_whitelisted, whitelisted_call-none, whitelisted_call-some,
}

-- A call has one encoding.
abbrev pub Canonical : {Call : Type 0} → Codec Call → Type 0
Canonical {Call} codec =
    (raw : List ℕ) (call : Call) → codec.decode raw ≡ some call → codec.encode call ≡ raw

module _ {Call : Type 0} (codec : Codec Call) (canonical : Canonical codec) where
  created_raw :
      (num : ℕ) (w : Whitelist) (call : Call)
      → whitelisted_call codec num w ≡ ok (some call)
      → get num w ≡ some (codec.encode call)
  created_raw num w call e = elim (Option-cases (get num w)) [
    | inl missing ↦
        (let no : ◌≡◌ {A = Outcome InherentError (Option Call)} (ok none) (ok (some call)) =
            sym (whitelisted_call-none codec num w missing) ∙ e in
          absurd cc)
    | inr (raw, found) ↦
        (let at_raw = whitelisted_call-some codec num w raw found in
          elim (Option-cases (codec.decode raw)) [
            | inl bad ↦
                (let no : ◌≡◌ {A = Outcome InherentError (Option Call)} panic (ok (some call)) =
                    rw bad at (sym at_raw ∙ e) in
                  absurd cc)
            | inr (decoded, good) ↦
                (let same : ◌≡◌ {A = Outcome InherentError (Option Call)} (ok (some decoded))
                      (ok (some call)) =
                    rw good at (sym at_raw ∙ e) in
                  let is : decoded ≡ call = cc in
                  found ∙ ap some (sym (ap codec.encode (sym is) ∙ canonical raw decoded good)))
          ])
  ]

  -- If a call has one encoding, the inherent that a node creates for a block passes every node's
  -- check of that block with the same data, and with it the block has the inherent it needs.
  pub check_inherent-create_inherent :
      (block_number : ℕ) (data' : Stored InherentType) (call : Call)
      → create_inherent codec block_number data' ≡ ok (some call)
      → (check_inherent codec block_number call data' ≡ ok tt)
        × (check_inherents block_number true data' ≡ ok tt)
  unfolding create_inherent check_inherent check_inherents is_inherent_required
  check_inherent-create_inherent block_number absent call e = absurd cc
  check_inherent-create_inherent block_number malformed call e = absurd cc
  check_inherent-create_inherent block_number (present (check_from, w)) call e =
      let num = saturated block_number in
      let found = created_raw num w call e in
      let listed = is_whitelisted-get num (codec.encode call) w found in
      elim (Bool-cases (ltb num check_from)) [
        | inl early ↦ (rw early refl, rw early refl)
        | inr late ↦ (rw (late, listed) refl, rw (late, found) (unfold is_some in refl))
      ]

-- From the block `check_from` on, a call passes the check exactly when it is the one that the
-- whitelist, whose keys ascend, has for the block; before that block every call passes.
pub check_inherent_lem :
    {Call : Type 0} (codec : Codec Call) (block_number check_from : ℕ) (w : Whitelist) (call : Call)
    → IsSorted w
    → check_inherent codec block_number call (present (check_from, w)) ≡ ok tt
      ↔ (ltb (saturated block_number) check_from ≡ true)
        ⊎ (get (saturated block_number) w ≡ some (codec.encode call))
unfolding check_inherent
check_inherent_lem codec block_number check_from w call sorted =
    let num = saturated block_number in
    let raw = codec.encode call in
    elim (Bool-cases (ltb num check_from)) [
      | inl early ↦ ((λ _. inl early), (λ _. rw early refl))
      | inr late ↦ elim (Bool-cases (is_whitelisted num raw w)) [
        | inl listed ↦
            ((λ _. inr (get-is_whitelisted num raw w sorted listed)), (λ _. rw (late, listed) refl))
        | inr unlisted ↦ (
          (λ e. let no : err not_whitelisted ≡ ok tt = rw (late, unlisted) at e in absurd cc),
          (λ o. elim o [
            | inl early ↦ absurd cc
            | inr found ↦ (let listed = is_whitelisted-get num raw w found in absurd cc)
          ]),
        )
      ]
    ]
