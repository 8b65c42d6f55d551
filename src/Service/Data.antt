-- ===== src/Service/Data.antt =====
-- src/service.rs: the inherent data that the registered providers create.
use conjugate_poc.Common.{
  true, ℕ, ◌≡◌, refl, sym, ◌∙◌, false, List, [], ◌∷◌, Option, none, some, Option-cases, inl, inr,
  Outcome, ok, ok-injective, panic,
}
use mathlib.Core.Path.{subst}
use conjugate_poc.Poc.Bytes.{same_bytes, same_bytes_refl}
use conjugate_poc.Poc.Codec.{RoundTrips}
use conjugate_poc.Inherents.{Stored, absent, present, InherentIdentifier, InherentsCrate}
use conjugate_poc.Inherents.Laws.{
  Laws, any_provider, decoded, decoded-encode, provide_all, provide_all-append,
}
use conjugate_poc.AnyUpgrade
use conjugate_poc.Rewards
use conjugate_poc.Rewards.{Storage, Call, set_author_call}
use conjugate_poc.Service.{
  ServiceError, strip_0x, Sources, upgrades_provider, author_provider,
  conjugatepoc_inherent_data_providers,
}
use conjugate_poc.Service.Providers.{
  timestamp_identifier, providers_of, Registers, RegistersAuthor,
  conjugatepoc_inherent_data_providers_lem,
}

module _ (crate : InherentsCrate) (laws : Laws crate) (sources : Sources crate) where
  -- What the node relies on of its arguments: the timestamp module's provider puts its data under its
  -- own identifier alone, the codecs of authors round trip, and so does the empty whitelist.
  pub record Relies : Type 0 where
    pub timestamp_is : sources.timestamp.inherent_identifier ≡ timestamp_identifier
    pub timestamp_provides :
        (d : crate.Data)
        → laws.stored timestamp_identifier d ≡ none
        → (d' : crate.Data) × (sources.timestamp.provide_inherent_data d ≡ ok d')
          × ((key : InherentIdentifier)
              → same_bytes key timestamp_identifier ≡ false
              → laws.stored key d' ≡ laws.stored key d)
    pub upgrades_round_trip :
        sources.upgrades_codec.decode (sources.upgrades_codec.encode (0, [])) ≡ some (0, [])
    pub author_round_trips : RoundTrips sources.author_codec
    pub account_round_trips : RoundTrips sources.account_codec

  abbrev author_stored : Option sources.AccountId → Stored (List ℕ)
  author_stored none = absent
  author_stored (some account) = present (sources.account_codec.encode account)

  -- The inherent data with an upgrades' and perhaps an author's entry.
  pub record Holds (account : Option sources.AccountId) (s : crate.Providers) : Type 0 where
    pub data' : crate.Data
    pub created : crate.create_inherent_data s ≡ ok data'
    pub upgrades :
        crate.get_data sources.upgrades_codec AnyUpgrade.inherent_identifier data' ≡ present (0, [])
    pub author :
        crate.get_data sources.author_codec Rewards.inherent_identifier data'
        ≡ author_stored account

  module _ (relies : Relies) where
    pub registered_as :
        (author : List ℕ) (account : sources.AccountId)
        → sources.account_from_str (strip_0x author) ≡ some account
        → Registers crate laws sources (some author) (some account)
    registered_as author account is =
        subst (RegistersAuthor crate laws sources author) is (
          (conjugatepoc_inherent_data_providers_lem crate laws sources relies.timestamp_is).1
            author)

    pub registered_of :
        (author : Option (List ℕ)) (s : crate.Providers)
        → conjugatepoc_inherent_data_providers crate sources author ≡ ok s
        → (account : Option sources.AccountId) × (laws.registered s
            ≡ providers_of crate laws sources account)
    registered_of none s done =
        let (s', done', now) =
          (conjugatepoc_inherent_data_providers_lem crate laws sources relies.timestamp_is).0 in
        (
          none,
          subst (λ x. laws.registered x ≡ providers_of crate laws sources none)
              (ok-injective (sym done' ∙ done)) now,
        )
    registered_of (some author) s done =
        elim (Option-cases (sources.account_from_str (strip_0x author))) [
          | inl bad ↦
              (let no = subst (RegistersAuthor crate laws sources author) bad (
                  (conjugatepoc_inherent_data_providers_lem crate laws sources
                      relies.timestamp_is).1
                    author) in
                let never : ◌≡◌ {A = Outcome ServiceError crate.Providers} panic (ok s) =
                  sym no ∙ done in
                absurd cc)
          | inr (account, is) ↦
              (let (s', done', now) = registered_as author account is in
                (
                  some account,
                  subst (λ x. laws.registered x ≡ providers_of crate laws sources (some account))
                      (ok-injective (sym done' ∙ done)) now,
                ))
        ]

    -- The timestamp's provider is in the node's registry.
    pub timestamp_registered :
        (author : Option (List ℕ)) (s : crate.Providers)
        → conjugatepoc_inherent_data_providers crate sources author ≡ ok s
        → crate.has_provider sources.timestamp.inherent_identifier s ≡ true
    unfolding any_provider
    timestamp_registered author s done =
        let (account, now) = registered_of author s done in
        laws.has_provider_lem _ s ∙ rw now (first_is account)
      where
        first_is :
            (account : Option sources.AccountId)
            → any_provider sources.timestamp.inherent_identifier
                (providers_of crate laws sources account)
              ≡ true
        first_is none = rw (same_bytes_refl sources.timestamp.inherent_identifier) refl
        first_is (some account) = rw (same_bytes_refl sources.timestamp.inherent_identifier) refl

    -- The data with the upgrades' entry, and the author's entry free.
    two_entries :
        (d' : crate.Data) × (provide_all (providers_of crate laws sources none) laws.empty ≡ ok d')
        × (laws.stored AnyUpgrade.inherent_identifier d'
            ≡ some (sources.upgrades_codec.encode (0, [])))
        × (laws.stored Rewards.inherent_identifier d' ≡ none)
    unfolding provide_all same_bytes upgrades_provider AnyUpgrade.inherent_data_provider
    two_entries =
        let (d, t, t_kept) = relies.timestamp_provides laws.empty (laws.stored-empty _) in
        let free = t_kept AnyUpgrade.inherent_identifier refl ∙ laws.stored-empty _ in
        let (d', u, u_kept) =
          laws.put_free AnyUpgrade.inherent_identifier (sources.upgrades_codec.encode (0, [])) d
            free in
        (
          d',
          rw (t, u) refl,
          u_kept AnyUpgrade.inherent_identifier,
          u_kept Rewards.inherent_identifier
              ∙ t_kept Rewards.inherent_identifier refl
              ∙ laws.stored-empty _,
        )

    pub Registers-Holds :
        (account : Option sources.AccountId) (s : crate.Providers)
        → laws.registered s ≡ providers_of crate laws sources account
        → Holds account s
    unfolding provide_all decoded same_bytes author_provider Rewards.inherent_data_provider
    Registers-Holds none s now =
        let (d', all, upgrades, free) = two_entries in
        record {
          data' = d';
          created = laws.create_inherent_data_lem s d' (rw now all);
          upgrades =
              laws.get_data_lem _ _ _
              ∙ rw upgrades
                  (decoded-encode sources.upgrades_codec (0, []) relies.upgrades_round_trip);
          author = laws.get_data_lem _ _ _ ∙ rw free refl;
        }
    Registers-Holds (some account) s now =
        let (d, all, upgrades, free) = two_entries in
        let (d', a, a_kept) =
          laws.put_free Rewards.inherent_identifier
            (sources.author_codec.encode (sources.account_codec.encode account)) d free in
        record {
          data' = d';
          created = laws.create_inherent_data_lem s d' (
              rw now (
                provide_all-append (providers_of crate laws sources none)
                  (author_provider crate sources account ∷ []) laws.empty
                ∙ rw (all, a) refl));
          upgrades =
              laws.get_data_lem _ _ _
              ∙ rw (a_kept AnyUpgrade.inherent_identifier, upgrades)
                  (decoded-encode sources.upgrades_codec (0, []) relies.upgrades_round_trip);
          author =
              laws.get_data_lem _ _ _
              ∙ rw (a_kept Rewards.inherent_identifier) (
                  decoded-encode sources.author_codec (sources.account_codec.encode account)
                    (relies.author_round_trips (sources.account_codec.encode account)));
        }
