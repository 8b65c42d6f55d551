-- ===== src/Inherents/Sample.antt =====
-- A concrete `inherents` crate: the data are a list of entries, the registry a list of providers.
use conjugate_poc.Common.{
  ℕ, if◌then◌else◌, ◌≡◌, refl, false, List, [], ◌∷◌, ◌++◌, Option, none, some, Outcome, ok, err,
}
use conjugate_poc.Poc.Bytes.{same_bytes}
use conjugate_poc.Inherents.{InherentIdentifier, RuntimeString, Provider, InherentsCrate}
use conjugate_poc.Inherents.Laws.{Laws, decoded, any_provider, provide_all}

abbrev pub Entries : Type 0
Entries = List (InherentIdentifier × List ℕ)

abbrev pub entry : InherentIdentifier → Entries → Option (List ℕ)
entry id [] = none
entry id ((key, raw) ∷ entries) =
    let rest = entry id entries in if same_bytes id key then some raw else rest

abbrev pub put : InherentIdentifier → List ℕ → Entries → Outcome RuntimeString Entries
put id raw d = elim (entry id d) [ none ↦ ok ((id, raw) ∷ d) | some _ ↦ err [] ]

abbrev pub register :
    Provider Entries → List (Provider Entries) → Outcome RuntimeString (List (Provider Entries))
register p s = if any_provider p.inherent_identifier s then err [] else ok (s ++ (p ∷ []))

pub put-free :
    (id : InherentIdentifier) (raw : List ℕ) (d : Entries)
    → entry id d ≡ none
    → put id raw d ≡ ok ((id, raw) ∷ d)
put-free id raw d free = rw (put, free) refl

pub register-free :
    (p : Provider Entries) (s : List (Provider Entries))
    → any_provider p.inherent_identifier s ≡ false
    → register p s ≡ ok (s ++ (p ∷ []))
register-free p s free = rw (register, free) refl

abbrev pub crate : InherentsCrate
crate = record {
  Data = Entries;
  Providers = List (Provider Entries);
  put_data = put;
  get_data = λ codec id d. decoded codec (entry id d);
  new = [];
  has_provider = any_provider;
  register_provider = register;
  create_inherent_data = λ s. provide_all s [];
}

abbrev pub crate_laws : Laws crate
crate_laws = record {
  stored = entry;
  empty = [];
  registered = λ s. s;
  get_data_lem = λ codec id d. refl;
  stored-empty = λ id. refl;
  put_free = λ id raw d free. ((id, raw) ∷ d, put-free id raw d free, λ key. refl);
  registered-new = refl;
  has_provider_lem = λ id s. refl;
  register_free = λ p s free. (s ++ (p ∷ []), register-free p s free, refl);
  create_inherent_data_lem = λ s d all. all;
}
