-- ===== src/Service/Sample.antt =====
-- src/service.rs: concrete arguments of the node. Accounts are texts of one character.
use conjugate_poc.Common.{ℕ, ◌≡◌, refl, List, [], ◌∷◌, Option, none, some, false}
use conjugate_poc.Poc.Bytes.{same_bytes}
use conjugate_poc.Poc.Codec.{Codec}
use conjugate_poc.Inherents.{Provider, InherentIdentifier}
use conjugate_poc.Inherents.Sample.{Entries, put, entry, put-free, crate, crate_laws}
use conjugate_poc.Service.{strip_0x, Sources}
use conjugate_poc.Service.Providers.{timestamp_identifier}
use conjugate_poc.Service.Data.{Relies}

-- "0x" and the account.
abbrev pub author : List ℕ
author = 48 ∷ 120 ∷ 7 ∷ []

abbrev bytes : Codec (List ℕ)
bytes = record { encode = λ b. b; decode = λ b. some b }

abbrev account_from_str : List ℕ → Option (List ℕ)
account_from_str [] = none
account_from_str (x ∷ []) = some (x ∷ [])
account_from_str (x ∷ _ ∷ _) = none

abbrev timestamp : Provider Entries
timestamp = record {
  inherent_identifier = timestamp_identifier;
  provide_inherent_data = put timestamp_identifier (3 ∷ []);
  error_to_string = λ error. none;
}

abbrev pub sources : Sources crate
sources = record {
  timestamp = timestamp;
  upgrades_codec = record { encode = λ u. u.0 ∷ []; decode = λ b. some (0, []) };
  decode_upgrade_error = λ b. none;
  debug_upgrade_error = λ e. [];
  author_codec = bytes;
  decode_reward_error = λ b. none;
  debug_reward_error = λ e. [];
  AccountId = List ℕ;
  account_from_str = account_from_str;
  account_codec = bytes;
}

pub author_account : account_from_str (strip_0x author) ≡ some (7 ∷ [])
unfolding strip_0x
author_account = refl

other_entry :
    (d : Entries) (key : InherentIdentifier)
    → same_bytes key timestamp_identifier ≡ false
    → entry key ((timestamp_identifier, 3 ∷ []) ∷ d) ≡ entry key d
other_entry d key other = rw other refl

pub sample_relies : Relies crate crate_laws sources
sample_relies = record {
  timestamp_is = refl;
  timestamp_provides = λ d free. (
    (timestamp_identifier, 3 ∷ []) ∷ d,
    put-free timestamp_identifier (3 ∷ []) d free,
    other_entry d,
  );
  upgrades_round_trip = refl;
  author_round_trips = λ b. refl;
  account_round_trips = λ b. refl;
}
