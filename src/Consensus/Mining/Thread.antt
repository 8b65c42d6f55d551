-- ===== src/Consensus/Mining/Thread.antt =====
-- vendor/substrate/core/consensus/poc/src/lib.rs: the thread of `start_mine`, over the passes of
-- `mine_loop`. An error ends `mine_loop`, which the thread calls again; a panic ends the thread.
use conjugate_poc.Common.{
  ℕ, ◌<◌, All, ◌≡◌, ◌≢◌, refl, ap, ◌∙◌, List, [], ◌∷◌, ◌++◌, Option, Outcome, ok, err, panic,
}
use mathlib.Core.List.{append_assoc}
use conjugate_poc.Poc.Codec.{Codec}
use conjugate_poc.Consensus.{Header, PocAux, Error, Algorithm, BlockImportParams}
use conjugate_poc.Consensus.Mining.{
  World, Pass, skipped, no_fuel, restarted, dropped, imported, mined_params, mine_pass,
}
use conjugate_poc.Consensus.Mining.Live.{Succeeds, mine_pass-imports}

unfoldable pub imports : Pass → List BlockImportParams
imports skipped = []
imports no_fuel = []
imports restarted = []
imports dropped = []
imports (imported p) = p ∷ []

module _ (hash : Header → List ℕ) (codec : Codec PocAux) (algorithm : Algorithm) (fuel : ℕ)
    (preruntime : Option (List ℕ)) where
  -- The blocks that the thread imports, in order, over the worlds that its passes see. A pass that
  -- runs out of fuel imports nothing.
  unfoldable pub thread : List World → List BlockImportParams
  thread [] = []
  thread (w ∷ ws) =
      let rest = thread ws in
      elim (mine_pass hash codec algorithm fuel preruntime w) [
        | ok pass ↦ imports pass ++ rest
        | err e ↦ rest
        | panic ↦ []
      ]

  abbrev pub NeverPanics : World → Type 0
  NeverPanics w = mine_pass hash codec algorithm fuel preruntime w ≢ panic

  thread-append :
      (before after : List World)
      → All NeverPanics before
      → thread (before ++ after) ≡ thread before ++ thread after
  unfolding thread
  thread-append [] after sound = refl
  thread-append (w ∷ before) after sound =
      go (mine_pass hash codec algorithm fuel preruntime w) refl
        (thread-append before after sound.1)
    where
      go :
          (o : Outcome Error Pass)
          → mine_pass hash codec algorithm fuel preruntime w ≡ o
          → thread (before ++ after) ≡ thread before ++ thread after
          → thread (w ∷ (before ++ after)) ≡ thread (w ∷ before) ++ thread after
      go (ok pass) is later =
          rw (thread, is)
            (ap (λ bs. imports pass ++ bs) later
              ∙ rw (append_assoc (imports pass) (thread before) (thread after)) refl)
      go (err e) is later = rw (thread, is) later
      go panic is later = absurd (sound.0 is)

  -- A thread none of whose passes imports a block.
  pub thread_empty :
      (ws : List World)
      → All
          (λ w.
            (p : BlockImportParams)
            → mine_pass hash codec algorithm fuel preruntime w ≢ ok (imported p))
          ws
      → thread ws ≡ []
  unfolding thread imports
  thread_empty [] none_imported = refl
  thread_empty (w ∷ ws) none_imported =
      go (mine_pass hash codec algorithm fuel preruntime w) refl (thread_empty ws none_imported.1)
    where
      go :
          (o : Outcome Error Pass)
          → mine_pass hash codec algorithm fuel preruntime w ≡ o
          → thread ws ≡ []
          → thread (w ∷ ws) ≡ []
      go (ok skipped) is later = rw (thread, is) later
      go (ok no_fuel) is later = rw (thread, is) later
      go (ok restarted) is later = rw (thread, is) later
      go (ok dropped) is later = rw (thread, is) later
      go (ok (imported p)) is later = absurd (none_imported.0 p is)
      go (err e) is later = rw (thread, is) later
      go panic is later = rw (thread, is) refl

  -- If no pass before panics, whatever fails in them, and in a pass no call fails, some try finds a seal
  -- while the best block stays, and the best block at the end is not heavier than the new one, then
  -- with more rounds than that try's number the thread imports that block, after those of the passes
  -- before and before those of the passes after it.
  pub thread-imports :
      (before after : List World) (w : World) (best_hash : List ℕ) (best : Header) (aux : PocAux)
      (header : Header) (body : List (List ℕ)) (difficulty n : ℕ) (nonce_data best_after : List ℕ)
      (best_aux : PocAux)
      → All NeverPanics before
      → Succeeds hash codec algorithm w preruntime best_hash best aux header body difficulty n
          nonce_data best_after best_aux
      → n < fuel
      → thread (before ++ (w ∷ after))
        ≡ thread before
          ++ (mined_params hash codec algorithm aux header body difficulty nonce_data
              ∷ thread after)
  unfolding thread imports
  thread-imports before after w best_hash best aux header body difficulty n nonce_data best_after
        best_aux sound s enough =
      let pass =
        mine_pass-imports hash codec algorithm w preruntime best_hash best aux header body
          difficulty n nonce_data best_after best_aux fuel s enough in
      let one : thread (w ∷ after)
          ≡ mined_params hash codec algorithm aux header body difficulty nonce_data ∷ thread after =
        rw (thread, pass) refl in
      thread-append before (w ∷ after) sound ∙ ap (λ bs. thread before ++ bs) one
