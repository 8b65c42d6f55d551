-- ===== src/AnyUpgrade.antt =====
-- anyupgrade/src/lib.rs: the module that runs whitelisted calls as inherents. Calls, their codec and
-- dispatch, the lookup of accounts and the event log are arguments. The whitelist, a `BTreeMap`, is
-- the list of its entries in order.
pub mod Whitelist
pub mod Checks
mod Tests
use conjugate_poc.Common.{
  ℕ, ◌^◌, ◌-◌, min, ltb, ◌==◌, ◌&&◌, Bool, true, false, if◌then◌else◌, List, [], ◌∷◌, Option, none,
  some, Outcome, ok, err, panic, ◌>>=◌,
}
use conjugate_poc.Poc.Bytes.{same_bytes}
use conjugate_poc.Poc.Codec.{Codec}
use mathlib.Core.Option
use conjugate_poc.Inherents.{
  Stored, absent, malformed, present, Provider, InherentsCrate, InherentIdentifier, RuntimeString,
  Origin, no_origin, root, signed,
}

-- b"anyupgra"
abbrev pub inherent_identifier : InherentIdentifier
inherent_identifier = 97 ∷ 110 ∷ 121 ∷ 117 ∷ 112 ∷ 103 ∷ 114 ∷ 97 ∷ []

pub data InherentError : Type 0 where
  not_whitelisted : InherentError
  other : RuntimeString → InherentError
  required_not_found : InherentError

unfoldable pub is_fatal_error : InherentError → Bool
is_fatal_error not_whitelisted = true
is_fatal_error required_not_found = true
is_fatal_error (other message) = true

unfoldable pub try_from :
    (List ℕ → Option InherentError) → InherentIdentifier → List ℕ → Option InherentError
try_from decode id data' = if same_bytes id inherent_identifier then decode data' else none

pub data Event : Type 0 where
  any_done : Bool → Event
  any_as_done : Bool → Event

pub data DispatchError : Type 0 where
  bad_origin : DispatchError
  lookup_failed : DispatchError

-- `dispatch` returns whether the call succeeded, and the state after it.
module _ {ℓ κ ν} {Account : Type ℓ} {Proposal : Type κ} {State : Type ν}
    (dispatch : Proposal → Origin Account → State → Bool × State)
    (deposit_event : Event → State → State) where
  unfoldable pub any : Origin Account → Proposal → State → Outcome DispatchError (Unit {0}) × State
  any no_origin proposal state =
      let (res, state') = dispatch proposal root state in
      (ok tt, deposit_event (any_done res) state')
  any _ proposal state = (err bad_origin, state)

  unfoldable pub any_as {μ} :
      {Source : Type μ}
      → (Source → Option Account)
      → Origin Account
      → Source
      → Proposal
      → State
      → Outcome DispatchError (Unit {0}) × State
  any_as lookup no_origin who proposal state = elim (lookup who) [
    | none ↦ (err lookup_failed, state)
    | some account ↦
        (let (res, state') = dispatch proposal (signed account) state in
          (ok tt, deposit_event (any_as_done res) state'))
  ]
  any_as lookup _ who proposal state = (err bad_origin, state)

abbrev pub Whitelist : Type 0
Whitelist = List (ℕ × List ℕ)

-- From which block the whitelist is checked, and the encoded calls by block.
abbrev pub InherentType : Type 0
InherentType = ℕ × Whitelist

-- "Invalid anyupgrade inherent data encoding."
abbrev pub invalid_encoding : RuntimeString
invalid_encoding =
    73 ∷ 110 ∷ 118 ∷ 97 ∷ 108 ∷ 105 ∷ 100 ∷ 32 ∷ 97 ∷ 110 ∷ 121 ∷ 117 ∷ 112 ∷ 103 ∷ 114 ∷ 97 ∷ 100
    ∷ 101 ∷ 32 ∷ 105 ∷ 110 ∷ 104 ∷ 101 ∷ 114 ∷ 101 ∷ 110 ∷ 116 ∷ 32 ∷ 100 ∷ 97 ∷ 116 ∷ 97 ∷ 32 ∷ 101
    ∷ 110 ∷ 99 ∷ 111 ∷ 100 ∷ 105 ∷ 110 ∷ 103 ∷ 46 ∷ []

-- `unique_saturated_into::<u64>`.
abbrev pub saturated : ℕ → ℕ
saturated block_number = min block_number (2 ^ 64 - 1)

-- `whitelist.get(num)`.
unfoldable pub get : ℕ → Whitelist → Option (List ℕ)
get num [] = none
get num ((key, call) ∷ rest) = let found = get num rest in if num == key then some call else found

unfoldable pub is_some : Option (List ℕ) → Bool
is_some none = false
is_some (some call) = true

unfoldable pub is_inherent_required : ℕ → Stored InherentType → Outcome InherentError Bool
is_inherent_required block_number absent = ok false
is_inherent_required block_number malformed = err (other invalid_encoding)
is_inherent_required block_number (present (check_from, whitelist)) =
    let current_num = saturated block_number in
    if ltb current_num check_from then ok false else ok (is_some (get current_num whitelist))

unfoldable pub check_inherents : ℕ → Bool → Stored InherentType → Outcome InherentError (Unit {0})
check_inherents block_number has_anyupgrade_inherent data' =
    is_inherent_required block_number data' >>= λ required.
    if required then (if has_anyupgrade_inherent then ok tt else err required_not_found) else ok tt

-- The entry of the current block, decoded.
unfoldable pub whitelisted_call :
    {Call : Type 0} → Codec Call → ℕ → Whitelist → Outcome InherentError (Option Call)
whitelisted_call codec current_num [] = ok none
whitelisted_call codec current_num ((num, call) ∷ whitelist) =
    let rest = whitelisted_call codec current_num whitelist in
    if num == current_num
    then elim (codec.decode call) [ none ↦ panic | some decoded ↦ ok (some decoded) ]
    else rest

-- `expect` on the decoding of the data and of the call.
unfoldable pub create_inherent :
    {Call : Type 0} → Codec Call → ℕ → Stored InherentType → Outcome InherentError (Option Call)
create_inherent codec block_number absent = ok none
create_inherent codec block_number malformed = panic
create_inherent codec block_number (present (check_from, whitelist)) =
    whitelisted_call codec (saturated block_number) whitelist

unfoldable pub is_whitelisted : ℕ → List ℕ → Whitelist → Bool
is_whitelisted current_num ccall [] = false
is_whitelisted current_num ccall ((num, call) ∷ whitelist) =
    let rest = is_whitelisted current_num ccall whitelist in
    if num == current_num && same_bytes call ccall then true else rest

unfoldable pub check_inherent :
    {Call : Type 0} → Codec Call → ℕ → Call → Stored InherentType → Outcome InherentError (Unit {0})
check_inherent codec block_number call absent = ok tt
check_inherent codec block_number call malformed = err (other invalid_encoding)
check_inherent codec block_number call (present (check_from, whitelist)) =
    let current_num = saturated block_number in
    if ltb current_num check_from
    then ok tt
    else (if is_whitelisted current_num (codec.encode call) whitelist
        then ok tt
        else err not_whitelisted)

-- `InherentDataProvider`. The text of an error is what `Debug` prints.
unfoldable pub inherent_data_provider :
    (crate : InherentsCrate)
    → Codec (InherentType)
    → (List ℕ → Option InherentError)
    → (InherentError → List ℕ)
    → InherentType
    → Provider crate.Data
inherent_data_provider crate codec decode debug value = record {
  inherent_identifier = inherent_identifier;
  provide_inherent_data = crate.put_data inherent_identifier (codec.encode value);
  error_to_string = λ error. Option.map debug (try_from decode inherent_identifier error);
}
