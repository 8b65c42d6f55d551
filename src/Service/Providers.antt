-- ===== src/Service/Providers.antt =====
-- src/service.rs: which providers of inherent data the node registers.
use conjugate_poc.Common.{
  if-else, ℕ, ◌≡◌, refl, ap, ◌∙◌, false, List, [], ◌∷◌, ◌++◌, Option, none, some, Outcome, ok, err,
  panic, ◌>>=◌,
}
use conjugate_poc.Poc.Bytes.{same_bytes}
use conjugate_poc.Inherents.{InherentIdentifier, Provider, InherentsCrate}
use conjugate_poc.Inherents.Laws.{Laws, any_provider}
use conjugate_poc.AnyUpgrade
use conjugate_poc.Rewards
use conjugate_poc.Service.{
  map_err, strip_0x, Sources, upgrades_provider, author_provider, register_once, register_author,
  conjugatepoc_inherent_data_providers,
}

-- b"timstap0"
abbrev pub timestamp_identifier : InherentIdentifier
timestamp_identifier = 116 ∷ 105 ∷ 109 ∷ 115 ∷ 116 ∷ 97 ∷ 112 ∷ 48 ∷ []

>>=-assoc-ok {ℓ κ ν μ} :
    {E : Type ℓ} {A : Type κ} {B : Type ν} {C : Type μ} (first : Outcome E A)
    (next : A → Outcome E B) (last : B → Outcome E C) {b : B}
    → (first >>= next) ≡ ok b
    → (first >>= λ x. next x >>= last) ≡ last b
>>=-assoc-ok (ok a) next last e = ap (λ o. o >>= last) e
>>=-assoc-ok (err x) next last e = absurd cc
>>=-assoc-ok panic next last e = absurd cc

module _ (crate : InherentsCrate) (laws : Laws crate) (sources : Sources crate) where
  abbrev pub providers_of : Option sources.AccountId → List (Provider crate.Data)
  providers_of none = sources.timestamp ∷ upgrades_provider crate sources ∷ []
  providers_of (some account) =
      sources.timestamp
      ∷ upgrades_provider crate sources
      ∷ author_provider crate sources account
      ∷ []

  -- The registry is the one of these providers.
  abbrev pub Registers : Option (List ℕ) → Option sources.AccountId → Type 0
  Registers author account =
      (s : crate.Providers) × (conjugatepoc_inherent_data_providers crate sources author ≡ ok s)
      × (laws.registered s ≡ providers_of account)

  -- An author's text that is no account panics.
  abbrev pub RegistersAuthor : List ℕ → Option sources.AccountId → Type 0
  RegistersAuthor author none =
      conjugatepoc_inherent_data_providers crate sources (some author) ≡ panic
  RegistersAuthor author (some account) = Registers (some author) (some account)

  register_once-new :
      (p : Provider crate.Data) (s : crate.Providers)
      → any_provider p.inherent_identifier (laws.registered s) ≡ false
      → (s' : crate.Providers) × (register_once crate sources p s ≡ ok s')
        × (laws.registered s' ≡ laws.registered s ++ (p ∷ []))
  unfolding register_once map_err
  register_once-new p s free =
      let absent = laws.has_provider_lem p.inherent_identifier s ∙ free in
      let (s', done, now) = laws.register_free p s absent in
      (s', if-else (crate.has_provider p.inherent_identifier s) _ _ _ absent (ap map_err done), now)

  module _ (timestamp_is : sources.timestamp.inherent_identifier ≡ timestamp_identifier) where
    first_two :
        (s : crate.Providers) × ((register_once crate sources sources.timestamp crate.new
            >>= register_once crate sources (upgrades_provider crate sources))
          ≡ ok s)
        × (laws.registered s ≡ providers_of none)
    unfolding any_provider upgrades_provider same_bytes AnyUpgrade.inherent_data_provider
    first_two =
        let (s, one, now) =
          register_once-new sources.timestamp crate.new
            (ap (any_provider sources.timestamp.inherent_identifier) laws.registered-new) in
        let (s', two, then_) =
          register_once-new (upgrades_provider crate sources) s
            (rw (now, laws.registered-new, timestamp_is) refl) in
        (s', rw (one, two) refl, rw (then_, now, laws.registered-new) refl)

    no_author :
        (s : crate.Providers)
        → laws.registered s ≡ providers_of none
        → crate.has_provider Rewards.inherent_identifier s ≡ false
    unfolding any_provider upgrades_provider same_bytes AnyUpgrade.inherent_data_provider
    no_author s now = laws.has_provider_lem _ s ∙ rw (now, timestamp_is) refl

    -- From the first two registrations on.
    after_two :
        (author : Option (List ℕ))
        → conjugatepoc_inherent_data_providers crate sources author
          ≡ register_author crate sources author first_two.0
    unfolding conjugatepoc_inherent_data_providers
    after_two author =
        >>=-assoc-ok (register_once crate sources sources.timestamp crate.new)
          (register_once crate sources (upgrades_provider crate sources))
          (register_author crate sources author) first_two.1

    registers_author :
        (author : List ℕ) (account : Option sources.AccountId)
        → sources.account_from_str (strip_0x author) ≡ account
        → RegistersAuthor author account
    unfolding register_author map_err author_provider Rewards.inherent_data_provider
    registers_author author none bad =
        after_two (some author) ∙ rw (no_author first_two.0 first_two.2, bad) refl
    registers_author author (some account) good =
        let (s, two, now) = first_two in
        let (s', three, then_) =
          laws.register_free (author_provider crate sources account) s (no_author s now) in
        (s', after_two (some author) ∙ rw (no_author s now, good, three) refl, rw (then_, now) refl)

    -- If the laws of the `inherents` crate hold and the timestamp module has its own identifier, the
    -- node registers the timestamp's and the upgrades' provider, and after them the author's if one
    -- is given; an author that is no account, with or without its `0x`, panics.
    pub conjugatepoc_inherent_data_providers_lem :
        Registers none none
        × ((author : List ℕ) → RegistersAuthor author (sources.account_from_str (strip_0x author)))
    unfolding register_author
    conjugatepoc_inherent_data_providers_lem =
        ((first_two.0, after_two none, first_two.2), λ author. registers_author author _ refl)
