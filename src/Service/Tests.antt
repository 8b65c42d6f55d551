-- ===== src/Service/Tests.antt =====
-- src/service.rs: the theorems for a node whose author is the account 7.
use conjugate_poc.Common.{ℕ, ◌+◌, ◌≡◌, refl, false, List, [], ◌∷◌, none, some, ok, err}
use conjugate_poc.Inherents.{Origin, no_origin}
use conjugate_poc.Inherents.Sample.{crate, crate_laws}
use conjugate_poc.AnyUpgrade
use conjugate_poc.Rewards
use conjugate_poc.Rewards.{Storage, set_author_call}
use conjugate_poc.Rewards.Block.{run_calls}
use conjugate_poc.Service.{strip_0x, conjugatepoc_inherent_data_providers}
use conjugate_poc.Service.Providers.{
  Registers, RegistersAuthor, conjugatepoc_inherent_data_providers_lem,
}
use conjugate_poc.Service.Inherent.{create_inherent-author, check_inherent-default}
use conjugate_poc.Service.Sample.{sources, sample_relies, author, author_account}

conjugatepoc_inherent_data_providers_lem_example :
    Registers crate crate_laws sources none none
    × ((author : List ℕ)
        → RegistersAuthor crate crate_laws sources author
            (sources.account_from_str (strip_0x author)))
conjugatepoc_inherent_data_providers_lem_example =
    conjugatepoc_inherent_data_providers_lem crate crate_laws sources refl

abbrev pay_to : List ℕ → ℕ → ℕ → ℕ
pay_to account reward ledger = ledger + reward

abbrev calls : List (Origin (List ℕ) × List ℕ)
calls = (no_origin, 8 ∷ []) ∷ []

abbrev before : Storage (List ℕ) ℕ
before = record { author = none; ledger = 5 }

abbrev after : Storage (List ℕ) ℕ
after = record { author = none; ledger = 65 }

create_inherent-author_example :
    (s : crate.Providers) × (d : crate.Data) × (conjugatepoc_inherent_data_providers crate sources
        (some author)
      ≡ ok s)
    × (crate.create_inherent_data s ≡ ok d)
    × (Rewards.create_inherent sources.account_codec.decode
          (crate.get_data sources.author_codec Rewards.inherent_identifier d)
        ≡ ok (some (set_author_call (7 ∷ []))))
    × (Rewards.on_finalize pay_to 60 (run_calls ((no_origin, 7 ∷ []) ∷ calls) before) ≡ after)
create_inherent-author_example =
    create_inherent-author crate crate_laws sources sample_relies pay_to 60 calls 5 author (7 ∷ [])
      author_account

registers_none : Registers crate crate_laws sources none none
registers_none = (conjugatepoc_inherent_data_providers_lem crate crate_laws sources refl).0

check_inherent-default_example :
    (d : crate.Data) × (crate.create_inherent_data registers_none.0 ≡ ok d)
    × (let data' = crate.get_data sources.upgrades_codec AnyUpgrade.inherent_identifier d in
        (AnyUpgrade.is_inherent_required 1000 data' ≡ ok false)
        × (AnyUpgrade.create_inherent sources.account_codec 1000 data' ≡ ok none)
        × (AnyUpgrade.check_inherent sources.account_codec 1000 (4 ∷ 2 ∷ []) data'
            ≡ err AnyUpgrade.not_whitelisted))
check_inherent-default_example =
    check_inherent-default crate crate_laws sources sample_relies none registers_none.0 1000
      sources.account_codec (4 ∷ 2 ∷ []) registers_none.1
