-- ===== src/Consensus/Upgrades/Planned.antt =====
-- vendor/substrate/core/consensus/poc/src/lib.rs and runtime/src/lib.rs: the upgrades in a block that
-- `verify` passes.
use conjugate_poc.Common.{
  ℕ, ◌+◌, ◌^◌, ◌≤◌, ◌<◌, le→ltb, ◌≡◌, ◌↔◌, inl, inr, refl, sym, ap, ap₂, arith, Bool, Option-cases,
  Bool-cases, false, List, [], ◌∷◌, Option, none, some, Outcome, ok, err, panic, ok-injective,
}
use mathlib.Core.Path.{subst}
use mathlib.Core.Option.{some-injective}
use conjugate_poc.Poc.Codec.{Codec}
use conjugate_poc.Inherents.{present}
use conjugate_poc.AnyUpgrade.{InherentError, Whitelist, get, saturated}
use conjugate_poc.AnyUpgrade.Whitelist.{IsSorted}
use conjugate_poc.Runtime.Inherents.{check_block}
use conjugate_poc.Runtime.Inherents.Upgrades.{Upgrades, ChecksEach, check_block-Upgrades}
use conjugate_poc.Runtime.Parameters.{ApisVec}
use conjugate_poc.Runtime.Apis.{
  Types, Block, Executive, Modules, returned, checked_inherents, runtime_apis,
}
use conjugate_poc.Consensus.{
  Header, PocAux, AuxStore, Error, runtime_failed, CheckError, max_timestamp_drift_secs, Algorithm,
  BlockOrigin, BlockImportParams, verify, check_body,
}
use conjugate_poc.Consensus.Drift.{Passes, tolerated, check_inherents-Passes}
use conjugate_poc.Consensus.Upgrades.{
  Reading, Fatal, bad_timestamp, bad_inherent, ReadsFatal, ModulesLaws, runtime_check,
}
use conjugate_poc.Consensus.Verified.{verify-IsVerified, verify-check_body}

module _ (types : Types) (executive : Executive types) (modules : Modules types)
    (runtime_api_versions : ApisVec) (reading : Reading types.Result)
    (decode : Header → List (List ℕ) → Option (Block types)) where
  -- What a block that passes was read as.
  pub record IsRead (block : Block types) (data' : types.InherentData) (state : types.State)
      : Type 0 where
    pub checked : types.Result
    pub result : types.Result
    pub each : modules.check_extrinsics data' block state ≡ some checked
    pub whole :
        check_block modules.results
          (modules.block_number state)
          block.extrinsics
          (modules.anyupgrade_data data')
          checked
        ≡ ok result
    pub sound : modules.results.fatal_error result ≡ false

  checked_inherents-eq :
      (block : Block types) (data' : types.InherentData) (state : types.State) (r : types.Result)
      → checked_inherents types executive modules runtime_api_versions block data' state ≡ some r
      → (checked : types.Result) × (modules.check_extrinsics data' block state ≡ some checked)
        × (check_block modules.results
              (modules.block_number state)
              block.extrinsics
              (modules.anyupgrade_data data')
              checked
            ≡ ok r)
  unfolding checked_inherents returned
  checked_inherents-eq block data' state r e =
      elim (Option-cases (modules.check_extrinsics data' block state)) [
        | inl missing ↦
            (let no : ◌≡◌ {A = Option types.Result} none (some r) = rw missing at e in absurd cc)
        | inr (checked, each) ↦ (
          checked,
          each,
          go checked
              (check_block modules.results (modules.block_number state) block.extrinsics
                (modules.anyupgrade_data data') checked)
              (rw each at e),
        )
      ]
    where
      go :
          (checked : types.Result) (o : Outcome InherentError types.Result)
          → returned o ≡ some r
          → o ≡ ok r
      go checked (ok x) e1 = ap ok (some-injective _ _ e1)
      go checked (err x) e1 = absurd cc
      go checked panic e1 = absurd cc

  module _ (reads : ReadsFatal modules.results reading) where
    passing_sound :
        (now : ℕ) (r : types.Result)
        → Passes now (reading.okay r, reading.errors r)
        → modules.results.fatal_error r ≡ false
    passing_sound now r passes = elim (Bool-cases (modules.results.fatal_error r)) [
      | inr sound ↦ sound
      | inl fatal ↦
          (let (error, wrong, alone, is_fatal) = reads r fatal in
            absurd (
              go error is_fatal
                (subst (Passes now) (ap₂ (λ okay errors. (okay, errors)) wrong alone) passes)))
    ]
      where
        go : (error : CheckError) → Fatal error → Passes now (false, error ∷ []) → ⊥
        go error (bad_timestamp message) (tolerated _ (refused, _)) = refused
        go error (bad_inherent message) (tolerated _ (refused, _)) = refused

    passing-IsRead :
        (now : ℕ) (data' : types.InherentData) (state : types.State) (header : Header)
        (body : List (List ℕ)) (block : Block types) (answer : Bool × List CheckError)
        → decode header body ≡ some block
        → runtime_check types executive modules runtime_api_versions reading decode state data'
            header body
          ≡ ok answer
        → Passes now answer
        → IsRead block data' state
    unfolding runtime_check runtime_apis
    passing-IsRead now data' state header body block answer decoded e passes =
        elim (Option-cases
          (checked_inherents types executive modules runtime_api_versions block data' state)) [
            | inl missing ↦
                (let no : ◌≡◌ {A = Outcome Error (Bool × List CheckError)} (err runtime_failed)
                      (ok answer) =
                    rw (runtime_check, decoded, missing) at e in
                  absurd cc)
            | inr (r, done) ↦
                (let is : ◌≡◌ {A = Outcome Error (Bool × List CheckError)}
                      (ok (reading.okay r, reading.errors r)) (ok answer) =
                    rw (runtime_check, decoded, done) at e in
                  let (checked, each, whole) = checked_inherents-eq block data' state r done in
                  record {
                    checked = checked;
                    result = r;
                    each = each;
                    whole = whole;
                    sound = passing_sound now r (subst (Passes now) (sym (ok-injective is)) passes);
                  })
          ]

    module _ (hash : Header → List ℕ) (codec : Codec PocAux) (get_aux : AuxStore)
        (algorithm : Algorithm) {Call : Type 0} (calls : Codec Call)
        (laws : ModulesLaws calls types modules) where
      -- Let a fatal error be the only one of a result that is not in order, and let the extrinsics be
      -- checked by their modules. Then a block with a body, from the first number to check on and from
      -- the block on that the whitelist is for, that `verify` passes has among its inherents, the
      -- extrinsics before the first signed one, exactly the upgrade that the whitelist has for the
      -- block, and none when it has none. The clock's number plus 60 fits a `u64`, the block decodes
      -- to calls, and the whitelist's keys ascend.
      pub verify-Upgrades :
          (check_inherents_after : ℕ) (select : Option (Option Header)) (client_best : List ℕ)
          (now : ℕ) (state : types.State) (data' : types.InherentData) (check_from : ℕ)
          (w : Whitelist) (origin : BlockOrigin) (header : Header) (justification : Option (List ℕ))
          (body : List (List ℕ)) (block : Block types) (p : BlockImportParams) (raw : List ℕ)
          → now + max_timestamp_drift_secs < 2 ^ 64
          → check_inherents_after ≤ header.number
          → modules.anyupgrade_data data' ≡ present (check_from, w)
          → check_from ≤ saturated (modules.block_number state)
          → IsSorted w
          → decode p.header body ≡ some block
          → ((raw : List ℕ)
              → Upgrades raw block.extrinsics
              → (call : Call) × (raw ≡ calls.encode call))
          → verify hash codec get_aux algorithm check_inherents_after select client_best
              (ok now)
              (runtime_check types executive modules runtime_api_versions reading decode state
                data')
              origin
              header
              justification
              (some body)
            ≡ ok p
          → Upgrades raw block.extrinsics
            ↔ (get (saturated (modules.block_number state)) w ≡ some raw)
      unfolding check_body
      verify-Upgrades check_inherents_after select client_best now state data' check_from w origin
            header justification body block p raw fits late provided from sorted decoded encoded e =
          let v =
            verify-IsVerified hash codec get_aux algorithm check_inherents_after select client_best
              (ok now)
              (runtime_check types executive modules runtime_api_versions reading decode state
                data')
              origin header justification (some body) p e in
          let number : header.number ≡ p.header.number =
            ap (λ (h : Header). h.number) v.sealed.rest in
          let passed =
            verify-check_body hash codec get_aux algorithm check_inherents_after select client_best
              (ok now)
              (runtime_check types executive modules runtime_api_versions reading decode state
                data')
              origin header justification (some body) p now refl e in
          let (passing, _) = check_inherents-Passes now fits check_inherents_after p.header (
            runtime_check types executive modules runtime_api_versions reading decode state data'
              p.header body) in
          elim (passing passed) [
            | inl early ↦ absurd (omega arith)
            | inr (answer, answered, passes) ↦
                (let r =
                    passing-IsRead now data' state p.header body block answer decoded answered
                      passes in
                  let each = laws.checks_each data' block state r.checked r.each in
                  check_block-Upgrades calls modules.results laws.put_fatal
                    (modules.block_number state) block.extrinsics check_from w
                    (le→ltb (saturated (modules.block_number state)) check_from from) r.checked
                    r.result raw sorted encoded
                    (subst
                      (λ d.
                        ChecksEach calls modules.results (modules.block_number state)
                          block.extrinsics d r.checked)
                      provided each)
                    (subst
                      (λ d.
                        check_block modules.results (modules.block_number state) block.extrinsics d
                          r.checked
                        ≡ ok r.result)
                      provided r.whole)
                    r.sound)
          ]
