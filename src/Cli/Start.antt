-- ===== src/Cli/Start.antt =====
-- src/cli.rs: what a node that is started mines, and for whom.
use conjugate_poc.Common.{
  ℕ, zero, suc, if◌then◌else◌, ◌≡◌, refl, sym, ap, ap₂, ◌∙◌, Bool, true, false, List, [], none,
  some, replicate, Outcome, ok, >>=-eq-ok, ok-injective,
}
use mathlib.Core.Path.{subst}
use conjugate_poc.Inherents.{InherentsCrate}
use conjugate_poc.Inherents.Laws.{Laws}
use conjugate_poc.Rewards
use conjugate_poc.Rewards.{Call, set_author_call}
use conjugate_poc.Consensus.Registration.{
  ImportQueue, Miner, import_queue, registered_or_warned, start_mine,
  register_poc_inherent_data_provider-registered,
}
use conjugate_poc.Service.{
  ServiceError, map_err, strip_0x, Sources, conjugatepoc_inherent_data_providers, Service,
  new_full_start, start_miners, new_full, new_light,
}
use conjugate_poc.Service.Data.{Relies, timestamp_registered}
use conjugate_poc.Service.Inherent.{created_author}
use conjugate_poc.Cli.{CustomArgs, Configuration, unwrap_or, start_service}

-- How many threads mine.
abbrev pub mining_threads : CustomArgs → Configuration → ℕ
mining_threads args config =
    if config.is_light then 0 else (if config.is_authority then unwrap_or 1 args.threads else 0)

-- A mining thread of the node.
abbrev pub miner : ℕ → Miner
miner round = record { preruntime = none; round = round; build_time_secs = 2 }

module _ (crate : InherentsCrate) (sources : Sources crate) where
  -- A service whose threads share the registry.
  abbrev pub started : ℕ → ℕ → crate.Providers → Service crate sources
  started threads round s = record {
    import_queue = record { check_inherents_after = 0 };
    miners = replicate threads (miner round);
    providers = s;
  }

  module _ (s : crate.Providers)
      (there : crate.has_provider sources.timestamp.inherent_identifier s ≡ true) where
    import_queue-registered :
        import_queue crate sources.timestamp 0 s ≡ ok (record { check_inherents_after = 0 }, s)
    unfolding import_queue
    import_queue-registered =
        rw (register_poc_inherent_data_provider-registered crate sources.timestamp s there) refl

    start_mine-registered :
        (round : ℕ) → start_mine crate sources.timestamp none round 2 s ≡ ok (miner round, s)
    unfolding start_mine registered_or_warned
    start_mine-registered round =
        rw
          (
            registered_or_warned,
            register_poc_inherent_data_provider-registered crate sources.timestamp s there,
          )
          refl

    start_miners-registered :
        (threads round : ℕ)
        → start_miners crate sources threads round s ≡ ok (replicate threads (miner round), s)
    unfolding start_miners map_err
    start_miners-registered zero round = refl
    start_miners-registered (suc threads) round =
        rw (start_mine-registered round, start_miners-registered threads round) refl

    mining-registered :
        (is_authority : Bool) (threads round : ℕ)
        → (if is_authority then start_miners crate sources threads round s else ok ([], s))
          ≡ ok (replicate (if is_authority then threads else 0) (miner round), s)
    mining-registered true threads round = start_miners-registered threads round
    mining-registered false threads round = refl

  abbrev with_mining : ImportQueue → List Miner × crate.Providers → Service crate sources
  with_mining queue mining = record {
    import_queue = queue;
    miners = mining.0;
    providers = mining.1;
  }

  module _ (laws : Laws crate) (relies : Relies crate laws sources)
      (builder build : Outcome ServiceError (Unit {0})) (args : CustomArgs)
      (config : Configuration) where
    abbrev round : ℕ
    round = unwrap_or 5000 args.round

    -- A service that starts has the registered providers everywhere.
    abbrev Starts : ℕ → Service crate sources → Type 0
    Starts threads service =
        (s : crate.Providers) × (conjugatepoc_inherent_data_providers crate sources args.author
          ≡ ok s)
        × (started threads round s ≡ service)

    new_light-Starts :
        (service : Service crate sources)
        → new_light crate sources builder build args.author ≡ ok service
        → Starts 0 service
    unfolding new_light map_err
    new_light-Starts service e =
        let (s, registered, e1) =
          >>=-eq-ok (conjugatepoc_inherent_data_providers crate sources args.author) _ e in
        let there = timestamp_registered crate laws sources relies args.author s registered in
        let (_, _, e2) = >>=-eq-ok builder _ e1 in
        let (_, _, e3) = >>=-eq-ok build _ (rw (import_queue-registered s there) at e2) in
        (s, registered, ok-injective e3)

    new_full-Starts :
        (is_authority : Bool) (service : Service crate sources)
        → new_full crate sources builder build is_authority args.author
            (unwrap_or 1 args.threads)
            round
          ≡ ok service
        → Starts (if is_authority then unwrap_or 1 args.threads else 0) service
    unfolding new_full new_full_start map_err
    new_full-Starts is_authority service e =
        let (pair, e0, e1) = >>=-eq-ok (new_full_start crate sources builder args.author) _ e in
        let (s, registered, e2) =
          >>=-eq-ok (conjugatepoc_inherent_data_providers crate sources args.author) _ e0 in
        let there = timestamp_registered crate laws sources relies args.author s registered in
        let (_, _, e3) = >>=-eq-ok builder _ e2 in
        let queue = ok-injective (rw (import_queue-registered s there) at e3) in
        let (_, _, e4) = >>=-eq-ok build _ e1 in
        let (mining, m, e5) =
          >>=-eq-ok
            (if is_authority
              then start_miners crate sources (unwrap_or 1 args.threads) round pair.1
              else ok ([], pair.1))
            _ e4 in
        let same : (
          replicate (if is_authority then unwrap_or 1 args.threads else 0) (miner round),
          s,
        )
            ≡ mining =
          ok-injective (
            sym (mining-registered s there is_authority (unwrap_or 1 args.threads) round)
            ∙ subst
                (λ (started : ImportQueue × crate.Providers).
                  (if is_authority
                    then start_miners crate sources (unwrap_or 1 args.threads) round started.1
                    else ok ([], started.1))
                  ≡ ok mining)
                (sym queue) m) in
        (s, registered, ap₂ with_mining (ap (λ started. started.0) queue) same ∙ ok-injective e5)

    start_service-Starts :
        (service : Service crate sources)
        → start_service crate sources builder build args config ≡ ok service
        → Starts (mining_threads args config) service
    unfolding start_service
    start_service-Starts service e = by_role config.is_light e
      where
        by_role :
            (is_light : Bool)
            → (if is_light
                then new_light crate sources builder build args.author
                else new_full crate sources builder build config.is_authority args.author
                    (unwrap_or 1 args.threads)
                    round)
              ≡ ok service
            → Starts
                (if is_light
                  then 0
                  else (if config.is_authority then unwrap_or 1 args.threads else 0))
                service
        by_role true light = new_light-Starts service light
        by_role false full = new_full-Starts config.is_authority service full

    -- If the laws of the `inherents` crate hold, the timestamp's provider puts its data under its
    -- own identifier alone, and the codecs of authors and of the empty whitelist round trip, then a
    -- node that starts with an author who is an account mines with as many threads as given, one if
    -- none is given, none if it is a light client or no authority; each is handed the number of
    -- rounds given, 5000 if none is given; imports are checked from the first block on, and of the
    -- inherent data that the shared registry creates the rewards module makes the call that sets
    -- this account as the author.
    pub start_service-author :
        (service : Service crate sources) (author : List ℕ) (account : sources.AccountId)
        → args.author ≡ some author
        → sources.account_from_str (strip_0x author) ≡ some account
        → start_service crate sources builder build args config ≡ ok service
        → (d : crate.Data) × (service.import_queue ≡ record { check_inherents_after = 0 })
          × (service.miners
              ≡ replicate (mining_threads args config) (record {
                preruntime = none;
                round = unwrap_or 5000 args.round;
                build_time_secs = 2;
              }))
          × (crate.create_inherent_data service.providers ≡ ok d)
          × (Rewards.create_inherent sources.account_codec.decode
                (crate.get_data sources.author_codec Rewards.inherent_identifier d)
              ≡ ok (some (set_author_call account)))
    start_service-author service author account given is e =
        let (s, registered, as_started) = start_service-Starts service e in
        let (s', d, registered', created, call) =
          created_author crate laws sources relies author account is in
        let same : s' ≡ service.providers =
          ok-injective (
            sym registered'
            ∙ ap (conjugatepoc_inherent_data_providers crate sources) (sym given)
            ∙ registered)
          ∙ ap (λ (started : Service crate sources). started.providers) as_started in
        (
          d,
          sym (ap (λ (started : Service crate sources). started.import_queue) as_started),
          sym (ap (λ (started : Service crate sources). started.miners) as_started),
          subst (λ s. crate.create_inherent_data s ≡ ok d) same created,
          call,
        )
