-- ===== src/Consensus/Drift.antt =====
-- vendor/substrate/core/consensus/poc/src/lib.rs: which blocks `check_inherents` lets pass, and how far
-- in the future their timestamp may be.
use conjugate_poc.Common.{
  ℕ, ◌+◌, ◌%◌, ◌^◌, ◌≤◌, ◌<◌, ltb, ltb→lt, lt→ltb, le→ltb, ltb-false→le, arith, All, if◌then◌else◌,
  ◌≡◌, if-false, ◌↔◌, ◌⊎◌, inl, inr, refl, Bool, Bool-cases, true, false, List, [], ◌∷◌, Outcome,
  ok, err, >>=-eq-ok,
}
use conjugate_poc.Consensus.{
  Header, Error, too_far_in_future, CheckError, valid_at_timestamp, timestamp_other, other_module,
  max_timestamp_drift_secs, check_errors, check_inherents,
}

-- An error that does not end the import: a timestamp that is valid soon.
abbrev pub Tolerated : ℕ → CheckError → Type 0
Tolerated now (valid_at_timestamp timestamp) = timestamp ≤ now + max_timestamp_drift_secs
Tolerated now (timestamp_other message) = ⊥
Tolerated now (other_module message) = ⊥

-- The runtime's answer has no error, or tolerated ones alone.
pub data Passes (now : ℕ) : Bool × List CheckError → Type 0 where
  in_order : (errors : List CheckError) → Passes now (true, errors)
  tolerated : (errors : List CheckError) → All (Tolerated now) errors → Passes now (false, errors)

module _ (now : ℕ) (fits : now + max_timestamp_drift_secs < 2 ^ 64) where
  check_errors-Tolerated :
      (errors : List CheckError) → check_errors now errors ≡ ok tt → All (Tolerated now) errors
  unfolding check_errors
  check_errors-Tolerated [] e = tt
  check_errors-Tolerated (valid_at_timestamp timestamp ∷ errors) e =
      elim (Bool-cases (ltb ((now + max_timestamp_drift_secs) % 2 ^ 64) timestamp)) [
        | inl far ↦
            (let no : ◌≡◌ {A = Outcome Error (Unit {0})} (err too_far_in_future) (ok tt) =
                rw far at e in
              absurd cc)
        | inr near ↦
            (let at_most = ltb-false→le _ timestamp near in
              (omega arith, check_errors-Tolerated errors (rw near at e)))
      ]
  check_errors-Tolerated (timestamp_other message ∷ errors) e = absurd cc
  check_errors-Tolerated (other_module message ∷ errors) e = absurd cc

  Tolerated-check_errors :
      (errors : List CheckError) → All (Tolerated now) errors → check_errors now errors ≡ ok tt
  unfolding check_errors
  Tolerated-check_errors [] all = refl
  Tolerated-check_errors (valid_at_timestamp timestamp ∷ errors) (near, all) =
      rw (le→ltb ((now + max_timestamp_drift_secs) % 2 ^ 64) timestamp (omega arith))
        (Tolerated-check_errors errors all)
  Tolerated-check_errors (timestamp_other message ∷ errors) (refused, all) = absurd refused
  Tolerated-check_errors (other_module message ∷ errors) (refused, all) = absurd refused

  -- With a clock whose number plus 60 fits a `u64`, the inherents of a block pass exactly when the block
  -- is below the first number to check, or the runtime answers, and either finds no error or only
  -- timestamps that are at most 60 ahead of the clock.
  pub check_inherents-Passes :
      (check_inherents_after : ℕ) (header : Header)
      (checked : Outcome Error (Bool × List CheckError))
      → (check_inherents check_inherents_after header checked now ≡ ok tt)
        ↔ (header.number < check_inherents_after)
          ⊎ ((answer : Bool × List CheckError) × (checked ≡ ok answer) × Passes now answer)
  unfolding check_inherents
  check_inherents-Passes check_inherents_after header checked = (passes, passed)
    where
      answered :
          (answer : Bool × List CheckError)
          → (if answer.0 then ok tt else check_errors now answer.1) ≡ ok tt
          → Passes now answer
      answered (true, errors) e = in_order errors
      answered (false, errors) e = tolerated errors (check_errors-Tolerated errors e)

      passes :
          check_inherents check_inherents_after header checked now ≡ ok tt
          → (header.number < check_inherents_after)
            ⊎ ((answer : Bool × List CheckError) × (checked ≡ ok answer) × Passes now answer)
      passes e = elim (Bool-cases (ltb header.number check_inherents_after)) [
        | inl early ↦ inl (ltb→lt _ _ early)
        | inr late ↦
            (let (answer, is, e1) =
                >>=-eq-ok checked _
                  (if-false (ltb header.number check_inherents_after) _ _ _ late e) in
              inr (answer, is, answered answer e1))
      ]

      answers :
          (answer : Bool × List CheckError)
          → Passes now answer
          → (if answer.0 then ok tt else check_errors now answer.1) ≡ ok tt
      answers (true, errors) p = refl
      answers (false, errors) (tolerated _ all) = Tolerated-check_errors errors all

      passed :
          (header.number < check_inherents_after)
            ⊎ ((answer : Bool × List CheckError) × (checked ≡ ok answer) × Passes now answer)
          → check_inherents check_inherents_after header checked now ≡ ok tt
      passed (inl early) = rw (lt→ltb header.number check_inherents_after early) refl
      passed (inr (answer, is, p)) = elim (Bool-cases (ltb header.number check_inherents_after)) [
        | inl early ↦ rw early refl
        | inr late ↦ rw (late, is) (answers answer p)
      ]
