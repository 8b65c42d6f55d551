-- ===== src/Poc/KeyHash.antt =====
-- poc/src/lib.rs: `key_hash`, the walk from the parent header back to the header that the RandomX key
-- is taken from. The client's header store is an argument; the `while` loop runs on fuel.
pub mod Walk
mod Tests
use conjugate_poc.Common.{
  ℕ, zero, suc, ◌+◌, ◌-◌, ◌*◌, ◌%◌, ltb, ◌==◌, if◌then◌else◌, List, Option, Outcome, ok, err, panic,
  ◌>>=◌, ok_or, ◌≡◌, some, ◌<◌,
}
use conjugate_poc.Primitives.{day_height, hour_height}

pub record Header : Type 0 where
  pub number : ℕ
  pub hash : List ℕ
  pub parent_hash : List ℕ

pub data BlockId : Type 0 where
  by_hash : List ℕ → BlockId
  by_number : ℕ → BlockId

-- `out_of_fuel` is the model's own: the loop had no more rounds.
pub data Error : Type 0 where
  client_error parent_not_found block_not_found out_of_fuel : Error
  identifier_failed rng_failed : Error

-- `client.header`: `err` is a client error, `none` no such header.
abbrev pub Headers : Type 0
Headers = BlockId → Outcome Error (Option Header)

abbrev pub period : ℕ
period = 2 * day_height

abbrev pub offset : ℕ
offset = 2 * hour_height

-- `saturating_sub` is the subtraction of ℕ.
unfoldable pub key_number_of : ℕ → ℕ
key_number_of parent_number =
    let key_number = parent_number - parent_number % period in
    if ltb (parent_number - key_number) offset then key_number - period else key_number

module _ (header : Headers) where
  unfoldable pub walk : ℕ → ℕ → Header → Outcome Error Header
  walk zero key_number current = err out_of_fuel
  walk (suc fuel) key_number current =
      let further : Outcome Error Header = (do
        found ← header (by_hash current.parent_hash)
        next ← ok_or block_not_found found
        walk fuel key_number next) in
      if current.number == key_number then ok current else further

  unfoldable pub key_hash : ℕ → BlockId → Outcome Error (List ℕ)
  key_hash fuel parent = do
    found ← header parent
    parent_header ← ok_or parent_not_found found
    current ← walk fuel (key_number_of parent_header.number) parent_header
    ok current.hash
