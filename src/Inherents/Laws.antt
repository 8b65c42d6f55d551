-- ===== src/Inherents/Laws.antt =====
-- What the crates rely on of the `inherents` crate: its documented behaviour.
use conjugate_poc.Common.{
  ℕ, if◌then◌else◌, ◌≡◌, Bool, true, false, List, [], ◌∷◌, ◌++◌, Option, none, some, Outcome, ok,
  err, panic, refl, ◌>>=◌,
}
use conjugate_poc.Poc.Bytes.{same_bytes}
use conjugate_poc.Poc.Codec.{Codec}
use conjugate_poc.Inherents.{
  Stored, absent, malformed, present, InherentIdentifier, RuntimeString, Provider, InherentsCrate,
}

-- What reading the bytes stored under an identifier yields.
unfoldable pub decoded : {A : Type 0} → Codec A → Option (List ℕ) → Stored A
decoded codec none = absent
decoded codec (some raw) = elim (codec.decode raw) [ none ↦ malformed | some a ↦ present a ]

-- Whether one of the providers has an identifier.
unfoldable pub any_provider : {Data : Type 0} → InherentIdentifier → List (Provider Data) → Bool
any_provider id [] = false
any_provider id (p ∷ providers) =
    let rest = any_provider id providers in
    if same_bytes p.inherent_identifier id then true else rest

-- The providers in their order.
unfoldable pub provide_all :
    {Data : Type 0} → List (Provider Data) → Data → Outcome RuntimeString Data
provide_all [] d = ok d
provide_all (p ∷ providers) d = p.provide_inherent_data d >>= provide_all providers

pub decoded-encode :
    {A : Type 0} (codec : Codec A) (a : A)
    → codec.decode (codec.encode a) ≡ some a
    → decoded codec (some (codec.encode a)) ≡ present a
unfolding decoded
decoded-encode codec a round_trip = rw (decoded, round_trip) refl

pub provide_all-append :
    {Data : Type 0} (ps qs : List (Provider Data)) (d : Data)
    → provide_all (ps ++ qs) d ≡ (provide_all ps d >>= provide_all qs)
unfolding provide_all
provide_all-append [] qs d = refl
provide_all-append (p ∷ ps) qs d =
    elim (p.provide_inherent_data d)
      as (λ o. (o >>= provide_all (ps ++ qs)) ≡ (o >>= provide_all ps >>= provide_all qs)) [
        | ok d' ↦ provide_all-append ps qs d'
        | err e ↦ refl
        | panic ↦ refl
      ]

-- A put under a free identifier succeeds and changes nothing else; the registry holds the providers in
-- the order of their registration, at most one to an identifier; when all of them
-- succeed, their data are the registry's.
pub record Laws (crate : InherentsCrate) : Type 1 where
  pub stored : InherentIdentifier → crate.Data → Option (List ℕ)
  pub empty : crate.Data
  pub registered : crate.Providers → List (Provider crate.Data)
  pub get_data_lem :
      {A : Type 0} (codec : Codec A) (id : InherentIdentifier) (d : crate.Data)
      → crate.get_data codec id d ≡ decoded codec (stored id d)
  pub stored-empty : (id : InherentIdentifier) → stored id empty ≡ none
  pub put_free :
      (id : InherentIdentifier) (raw : List ℕ) (d : crate.Data)
      → stored id d ≡ none
      → (d' : crate.Data) × (crate.put_data id raw d ≡ ok d')
        × ((key : InherentIdentifier)
            → stored key d' ≡ (if same_bytes key id then some raw else stored key d))
  pub registered-new : registered crate.new ≡ []
  pub has_provider_lem :
      (id : InherentIdentifier) (s : crate.Providers)
      → crate.has_provider id s ≡ any_provider id (registered s)
  pub register_free :
      (p : Provider crate.Data) (s : crate.Providers)
      → crate.has_provider p.inherent_identifier s ≡ false
      → (s' : crate.Providers) × (crate.register_provider p s ≡ ok s')
        × (registered s' ≡ registered s ++ (p ∷ []))
  pub create_inherent_data_lem :
      (s : crate.Providers) (d : crate.Data)
      → provide_all (registered s) empty ≡ ok d
      → crate.create_inherent_data s ≡ ok d
