-- ===== src/Consensus/Node/Sample.antt =====
-- A client in memory: the auxiliary data by key, the latest first, and the hash of the best block.
use conjugate_poc.Common.{
  ℕ, if◌then◌else◌, ◌≡◌, sym, ap, ◌∙◌, List, [], ◌∷◌, ◌++◌, none, some, ok, ok-injective,
}
use conjugate_poc.Poc.Bytes.{same_bytes}
use conjugate_poc.Consensus.{AuxStore, BlockImportParams}
use conjugate_poc.Consensus.Sample.{hash}
use conjugate_poc.Consensus.Node.{Client, ClientLaws, post_header, with_entry}

pub record Memory : Type 0 where
  pub aux : List (List ℕ × List ℕ)
  pub best : List ℕ

abbrev pub stored_in : List (List ℕ × List ℕ) → AuxStore
stored_in [] key = ok none
stored_in ((other, value) ∷ rest) key =
    let later = stored_in rest key in if same_bytes key other then ok (some value) else later

abbrev pub imported_into : BlockImportParams → Memory → Memory
imported_into p n = record {
  aux = p.auxiliary ++ n.aux;
  best = if p.custom then hash (post_header p) else n.best;
}

abbrev pub client : Client
client = record {
  State = Memory;
  get_aux = λ n. stored_in n.aux;
  best = λ n. n.best;
  import_block = λ p n. ok (imported_into p n);
}

one_entry :
    (n : Memory) (data' : List (List ℕ × List ℕ)) (key value : List ℕ)
    → data' ≡ (key, value) ∷ []
    → (k : List ℕ) → stored_in (data' ++ n.aux) k ≡ with_entry key value (stored_in n.aux) k
one_entry n data' key value is k = ap (λ d. stored_in (d ++ n.aux) k) is

pub client_laws : ClientLaws hash client
client_laws = record {
  stored = λ p n m key value done is k.
      ap (λ (m : Memory). stored_in m.aux k) (sym (ok-injective done))
      ∙ one_entry n p.auxiliary key value is k;
  best_lem = λ p n m done. ap (λ (m : Memory). m.best) (sym (ok-injective done));
}
