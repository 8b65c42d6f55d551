-- ===== src/Runtime/Inherents/Upgrades.antt =====
-- runtime/src/lib.rs: which upgrades stand among the inherents of a block that passes the runtime's
-- check.
use conjugate_poc.Common.{
  ℕ, ltb, ◌≡◌, ◌↔◌, inl, inr, refl, sym, ap, ◌∙◌, Bool-cases, Option-cases, true, false, List, [],
  ◌∷◌, some, Outcome, ok, err, panic, ok-injective, unwrap,
}
use mathlib.Core.Path.{subst}
use mathlib.Core.Option.{some-injective}
use conjugate_poc.Poc.Codec.{Codec}
use conjugate_poc.Inherents.{Stored, present, InherentIdentifier}
use conjugate_poc.AnyUpgrade.{
  inherent_identifier, InherentError, not_whitelisted, other, required_not_found, InherentType,
  Whitelist, get, is_some, saturated, is_fatal_error, is_inherent_required, check_inherents,
  is_whitelisted, check_inherent,
}
use conjugate_poc.AnyUpgrade.Whitelist.{IsSorted}
use conjugate_poc.AnyUpgrade.Checks.{check_inherent_lem}
use conjugate_poc.Runtime.Inherents.{
  any_upgrade, Extrinsic, signed_or_false, scan, CheckInherentsResult, check_block,
}
use conjugate_poc.Runtime.Inherents.Required.{HasUpgrade, here, later, scan-HasUpgrade}

-- An upgrade with this call, before the first signed extrinsic.
pub data Upgrades (raw : List ℕ) : List Extrinsic → Type 0 where
  first :
      (xt : Extrinsic) (xts : List Extrinsic)
      → signed_or_false xt.is_signed ≡ false
      → xt.function ≡ any_upgrade raw
      → Upgrades raw (xt ∷ xts)
  after :
      (xt : Extrinsic) (xts : List Extrinsic)
      → signed_or_false xt.is_signed ≡ false
      → Upgrades raw xts
      → Upgrades raw (xt ∷ xts)

HasUpgrade-Upgrades : (xts : List Extrinsic) → HasUpgrade xts → (raw : List ℕ) × Upgrades raw xts
HasUpgrade-Upgrades [] upgrade = elim upgrade [ ]
HasUpgrade-Upgrades (xt ∷ xts) (here _ call _ inherent is) = (call, first xt xts inherent is)
HasUpgrade-Upgrades (xt ∷ xts) (later _ _ inherent upgrade) =
    let (raw, found) = HasUpgrade-Upgrades xts upgrade in (raw, after xt xts inherent found)

-- An error that is fatal makes the result fatal.
abbrev pub PutFatal : {Result : Type 0} → CheckInherentsResult Result → Type 0
PutFatal {Result} ops =
    (id : InherentIdentifier) (e : InherentError) (r r' : Result)
    → is_fatal_error e ≡ true
    → ops.put_error id e r ≡ some r'
    → ops.fatal_error r' ≡ true

-- The extrinsics are checked by their modules, up to the first fatal error.
abbrev pub ChecksEach :
    {Call : Type 0}
    → Codec Call
    → {Result : Type 0} → CheckInherentsResult Result
    → ℕ
    → List Extrinsic
    → Stored InherentType
    → Result
    → Type 0
ChecksEach {Call} codec ops block_number xts data' checked =
    (call : Call) (e : InherentError)
    → Upgrades (codec.encode call) xts
    → check_inherent codec block_number call data' ≡ err e
    → is_fatal_error e ≡ true
    → ops.fatal_error checked ≡ true

is_fatal_error_lem : (e : InherentError) → is_fatal_error e ≡ true
unfolding is_fatal_error
is_fatal_error_lem not_whitelisted = refl
is_fatal_error_lem required_not_found = refl
is_fatal_error_lem (other message) = refl

module _ {Call : Type 0} (codec : Codec Call) {Result : Type 0} (ops : CheckInherentsResult Result)
    (put_fatal : PutFatal ops) (block_number : ℕ) (xts : List Extrinsic) where
  -- A result that is not fatal: neither the extrinsics nor the module's check had an error.
  not_fatal :
      (data' : Stored InherentType) (checked r : Result)
      → check_block ops block_number xts data' checked ≡ ok r
      → ops.fatal_error r ≡ false
      → (ops.fatal_error checked ≡ false)
        × (check_inherents block_number (scan xts false) data' ≡ ok tt)
  unfolding check_block
  not_fatal data' checked r e sound = elim (Bool-cases (ops.fatal_error checked)) [
    | inl fatal ↦
        (let is : ok checked ≡ ok r = rw fatal at e in
          let no : true ≡ false = sym fatal ∙ ap ops.fatal_error (ok-injective is) ∙ sound in
          absurd cc)
    | inr fine ↦ (fine, ended (check_inherents block_number (scan xts false) data') refl fine)
  ]
    where
      ended :
          (o : Outcome InherentError (Unit {0}))
          → check_inherents block_number (scan xts false) data' ≡ o
          → ops.fatal_error checked ≡ false
          → o ≡ ok tt
      ended (ok x) is fine = refl
      ended (err error) is fine =
          (let put : unwrap (ops.put_error inherent_identifier error checked) ≡ ok r =
              rw (fine, is) at e in
            elim (Option-cases (ops.put_error inherent_identifier error checked)) [
              | inl missing ↦
                  (let no : ◌≡◌ {A = Outcome InherentError Result} panic (ok r) =
                      rw missing at put in
                    absurd cc)
              | inr (r', done) ↦
                  (let same : ok r' ≡ ok r = rw done at put in
                    let fatal =
                      put_fatal inherent_identifier error checked r' (is_fatal_error_lem error)
                        done in
                    let no : true ≡ false =
                      sym fatal ∙ ap ops.fatal_error (ok-injective same) ∙ sound in
                    absurd cc)
            ])
      ended panic is fine =
          (let no : ◌≡◌ {A = Outcome InherentError Result} panic (ok r) = rw (fine, is) at e in
            absurd cc)

  module _ (check_from : ℕ) (w : Whitelist)
      (late : ltb (saturated block_number) check_from ≡ false) where
    passing_upgrade :
        (checked : Result) (call : Call)
        → ChecksEach codec ops block_number xts (present (check_from, w)) checked
        → ops.fatal_error checked ≡ false
        → Upgrades (codec.encode call) xts
        → check_inherent codec block_number call (present (check_from, w)) ≡ ok tt
    unfolding check_inherent
    passing_upgrade checked call each fine upgrade =
        elim (Bool-cases (is_whitelisted (saturated block_number) (codec.encode call) w)) [
          | inl listed ↦ rw (late, listed) refl
          | inr unlisted ↦
              (let fatal =
                  each call not_whitelisted upgrade (rw (late, unlisted) refl)
                    (is_fatal_error_lem not_whitelisted) in
                absurd cc)
        ]

    required_upgrade :
        (raw : List ℕ)
        → check_inherents block_number (scan xts false) (present (check_from, w)) ≡ ok tt
        → get (saturated block_number) w ≡ some raw
        → HasUpgrade xts
    unfolding check_inherents is_inherent_required is_some
    required_upgrade raw e found = elim (Bool-cases (scan xts false)) [
      | inl has ↦ scan-HasUpgrade xts has
      | inr lacks ↦
          (let no : ◌≡◌ {A = Outcome InherentError (Unit {0})} (err required_not_found) (ok tt) =
              rw (late, found, lacks) at e in
            absurd cc)
    ]

    -- The inherents of a block without a fatal error hold exactly the upgrade that is planned.
    pub check_block-Upgrades :
        (checked r : Result) (raw : List ℕ)
        → IsSorted w
        → ((raw : List ℕ) → Upgrades raw xts → (call : Call) × (raw ≡ codec.encode call))
        → ChecksEach codec ops block_number xts (present (check_from, w)) checked
        → check_block ops block_number xts (present (check_from, w)) checked ≡ ok r
        → ops.fatal_error r ≡ false
        → Upgrades raw xts ↔ (get (saturated block_number) w ≡ some raw)
    check_block-Upgrades checked r raw sorted encoded each run sound =
        let (fine, complete) = not_fatal (present (check_from, w)) checked r run sound in
        let listed : (raw : List ℕ) → Upgrades raw xts → get (saturated block_number) w ≡ some raw =
          λ raw upgrade.
            (let (call, same) = encoded raw upgrade in
              let here' = subst (λ raw. Upgrades raw xts) same upgrade in
              let passed = passing_upgrade checked call each fine here' in
              let (only, _) = check_inherent_lem codec block_number check_from w call sorted in
              elim (only passed) [
                | inl early ↦ absurd cc
                | inr found ↦ found ∙ ap some (sym same)
              ]) in
        (
          listed raw,
          λ found.
              (let (raw', upgrade) =
                  HasUpgrade-Upgrades xts (required_upgrade raw complete found) in
                subst (λ raw. Upgrades raw xts)
                  (some-injective _ _ (sym (listed raw' upgrade) ∙ found)) upgrade),
        )
