-- ===== src/Runtime/Inherents/Created.antt =====
-- runtime/src/lib.rs and anyupgrade/src/lib.rs: the block that a node makes of its inherent data, under
-- the runtime's check with the same data.
use conjugate_poc.Common.{
  ℕ, ltb, Bool, Bool-cases, Option-cases, inl, inr, ◌≡◌, refl, sym, ◌∙◌, false, List, [], ◌∷◌, ◌++◌,
  map, Option, none, some, Outcome, ok, panic,
}
use conjugate_poc.Poc.Codec.{Codec}
use conjugate_poc.Inherents.{Stored, absent, malformed, present}
use conjugate_poc.AnyUpgrade.{
  InherentError, InherentType, Whitelist, get, is_some, saturated, is_inherent_required,
  check_inherents, create_inherent, whitelisted_call, check_inherent,
}
use conjugate_poc.AnyUpgrade.Whitelist.{whitelisted_call-some}
use conjugate_poc.AnyUpgrade.Checks.{Canonical, check_inherent-create_inherent}
use conjugate_poc.Runtime.Inherents.{
  any_upgrade, another, Extrinsic, signed_or_false, scan, CheckInherentsResult, check_block,
}
use conjugate_poc.Runtime.Inherents.Required.{HasUpgrade, here, later, HasUpgrade-scan}

-- The inherents of the other modules.
abbrev pub others : List (List ℕ) → List Extrinsic
others calls = map (λ call. record { is_signed = some false; function = another call }) calls

module _ {Call : Type 0} (codec : Codec Call) where
  -- The upgrade's inherent, if there is one.
  abbrev pub upgrade : Option Call → List Extrinsic
  upgrade none = []
  upgrade (some call) =
      record { is_signed = some false; function = any_upgrade (codec.encode call) } ∷ []

  -- The inherents, in the order of the modules, and then the transactions.
  abbrev pub created_block :
      List (List ℕ) → Option Call → List (List ℕ) → List Extrinsic → List Extrinsic
  created_block before made after transactions =
      others before ++ (upgrade made ++ (others after ++ transactions))

  -- The module's own check of the inherent.
  abbrev pub Accepted : ℕ → Stored InherentType → Option Call → Type 0
  Accepted block_number data' none = Unit {0}
  Accepted block_number data' (some call) = check_inherent codec block_number call data' ≡ ok tt

  created-HasUpgrade :
      (before : List (List ℕ)) (call : Call) (rest : List Extrinsic)
      → HasUpgrade (others before ++ (upgrade (some call) ++ rest))
  unfolding signed_or_false
  created-HasUpgrade [] call rest = here _ (codec.encode call) rest refl refl
  created-HasUpgrade (c ∷ before) call rest = later _ _ refl (created-HasUpgrade before call rest)

  get-created_none :
      (num : ℕ) (w : Whitelist) → whitelisted_call codec num w ≡ ok none → get num w ≡ none
  get-created_none num w e = elim (Option-cases (get num w)) [
    | inl missing ↦ missing
    | inr (raw, found) ↦
        (let at_raw = whitelisted_call-some codec num w raw found in
          elim (Option-cases (codec.decode raw)) [
            | inl bad ↦
                (let no : ◌≡◌ {A = Outcome InherentError (Option Call)} panic (ok none) =
                    rw bad at (sym at_raw ∙ e) in
                  absurd cc)
            | inr (call, good) ↦
                (let no : ◌≡◌ {A = Outcome InherentError (Option Call)} (ok (some call)) (ok none) =
                    rw good at (sym at_raw ∙ e) in
                  absurd cc)
          ])
  ]

  -- Without an inherent none is required.
  created_none :
      (block_number : ℕ) (data' : Stored InherentType) (has : Bool)
      → create_inherent codec block_number data' ≡ ok none
      → check_inherents block_number has data' ≡ ok tt
  unfolding create_inherent check_inherents is_inherent_required
  created_none block_number absent has e = refl
  created_none block_number malformed has e = absurd cc
  created_none block_number (present (check_from, w)) has e =
      let num = saturated block_number in
      let missing = get-created_none num w e in
      elim (Bool-cases (ltb num check_from)) [
        | inl early ↦ rw early refl
        | inr late ↦ rw (late, missing) (unfold is_some in refl)
      ]

  -- If a call has one encoding, then a block that a node makes of its inherent data, with or without
  -- an upgrade, with any inherents of the other modules and any transactions, is accepted: the
  -- upgrade passes the module's check, and the runtime's check keeps the result of the extrinsics
  -- when that has no fatal error.
  pub check_block-created {ℓ} :
      Canonical codec
      → {Result : Type ℓ} (ops : CheckInherentsResult Result) (block_number : ℕ)
        (data' : Stored InherentType) (before after : List (List ℕ)) (transactions : List Extrinsic)
        (made : Option Call) (checked : Result)
      → create_inherent codec block_number data' ≡ ok made
      → ops.fatal_error checked ≡ false
      → Accepted block_number data' made
        × (check_block ops block_number (created_block before made after transactions) data' checked
            ≡ ok checked)
  unfolding check_block
  check_block-created canonical ops block_number data' before after transactions none checked e
        sound =
      (
        tt,
        rw
            (
              sound,
              created_none block_number data'
                  (scan (created_block before none after transactions) false) e,
            )
            refl,
      )
  check_block-created canonical ops block_number data' before after transactions (some call) checked
        e sound =
      let (passes, has) =
        check_inherent-create_inherent codec canonical block_number data' call e in
      let seen =
        HasUpgrade-scan (created_block before (some call) after transactions)
          (created-HasUpgrade before call (others after ++ transactions)) in
      (passes, rw (sound, seen, has) refl)
