-- ===== src/ChainSpec.antt =====
-- src/chain_spec.rs: the chains that the node knows. The runtime's code is an argument; names are their
-- bytes.
pub mod Genesis
pub mod Next
use conjugate_poc.Common.{
  ℕ, ◌^◌, if◌then◌else◌, ◌||◌, Bool, true, false, List, [], ◌∷◌, Option, none, some, map,
}
use conjugate_poc.Poc.Bytes.{same_bytes}

pub data Alternative : Type 0 where
  development local_testnet conjugatepoc : Alternative

pub record GenesisConfig : Type 0 where
  pub code : List ℕ
  pub ids : List ℕ
  pub balances : List (ℕ × ℕ)
  pub vesting : List ℕ
  pub initial_difficulty : ℕ

unfoldable pub testnet_genesis : List ℕ → List ℕ → Bool → GenesisConfig
testnet_genesis wasm_binary endowed_accounts enable_println = record {
  code = wasm_binary;
  ids = endowed_accounts;
  balances = map (λ k. (k, 2 ^ 60)) endowed_accounts;
  vesting = [];
  initial_difficulty = 200;
}

-- `genesis_binary` is the included file.
unfoldable pub mainnet_genesis : List ℕ → GenesisConfig
mainnet_genesis genesis_binary = record {
  code = genesis_binary;
  ids = [];
  balances = [];
  vesting = [];
  initial_difficulty = 10000;
}

pub record Properties : Type 0 where
  pub ss58_format : ℕ
  pub token_decimals : ℕ
  pub token_symbol : List ℕ

pub record ChainSpec : Type 0 where
  pub name : List ℕ
  pub id : List ℕ
  pub genesis : GenesisConfig
  pub boot_nodes : List (List ℕ)
  pub protocol_id : Option (List ℕ)
  pub properties : Option Properties

-- The code of the runtime that the node is built with, and of the genesis block.
unfoldable pub load : List ℕ → List ℕ → Alternative → ChainSpec
load wasm_binary genesis_binary development = record {
  name = 68 ∷ 101 ∷ 118 ∷ 101 ∷ 108 ∷ 111 ∷ 112 ∷ 109 ∷ 101 ∷ 110 ∷ 116 ∷ [];
  id = 100 ∷ 101 ∷ 118 ∷ [];
  genesis = testnet_genesis wasm_binary [] true;
  boot_nodes = [];
  protocol_id = none;
  properties = none;
}
load wasm_binary genesis_binary local_testnet = record {
  name = 76 ∷ 111 ∷ 99 ∷ 97 ∷ 108 ∷ 32 ∷ 84 ∷ 101 ∷ 115 ∷ 116 ∷ 110 ∷ 101 ∷ 116 ∷ [];
  id = 108 ∷ 111 ∷ 99 ∷ 97 ∷ 108 ∷ 95 ∷ 116 ∷ 101 ∷ 115 ∷ 116 ∷ 110 ∷ 101 ∷ 116 ∷ [];
  genesis = testnet_genesis wasm_binary [] true;
  boot_nodes = [];
  protocol_id = none;
  properties = none;
}
load wasm_binary genesis_binary conjugatepoc = record {
  name = 67 ∷ 111 ∷ 110 ∷ 106 ∷ 117 ∷ 103 ∷ 97 ∷ 116 ∷ 101 ∷ 112 ∷ 111 ∷ 99 ∷ [];
  id = 99 ∷ 111 ∷ 110 ∷ 106 ∷ 117 ∷ 103 ∷ 97 ∷ 116 ∷ 101 ∷ 112 ∷ 111 ∷ 99 ∷ [];
  genesis = mainnet_genesis genesis_binary;
  boot_nodes =
      (47 ∷ 100 ∷ 110 ∷ 115 ∷ 52 ∷ 47 ∷ 110 ∷ 111 ∷ 100 ∷ 101 ∷ 46 ∷ 107 ∷ 117 ∷ 108 ∷ 117 ∷ 112
        ∷ 117 ∷ 46 ∷ 110 ∷ 101 ∷ 116 ∷ 119 ∷ 111 ∷ 114 ∷ 107 ∷ 47 ∷ 116 ∷ 99 ∷ 112 ∷ 47 ∷ 51 ∷ 48
        ∷ 51 ∷ 51 ∷ 51 ∷ 47 ∷ 112 ∷ 50 ∷ 112 ∷ 47 ∷ 81 ∷ 109 ∷ 82 ∷ 112 ∷ 74 ∷ 104 ∷ 84 ∷ 114 ∷ 70
        ∷ 85 ∷ 106 ∷ 80 ∷ 71 ∷ 75 ∷ 118 ∷ 118 ∷ 80 ∷ 57 ∷ 72 ∷ 68 ∷ 87 ∷ 67 ∷ 56 ∷ 49 ∷ 66 ∷ 121
        ∷ 75 ∷ 51 ∷ 87 ∷ 78 ∷ 50 ∷ 118 ∷ 118 ∷ 86 ∷ 80 ∷ 86 ∷ 75 ∷ 98 ∷ 110 ∷ 55 ∷ 49 ∷ 66 ∷ 110
        ∷ 77 ∷ 105 ∷ 66 ∷ [])
      ∷ [];
  protocol_id = some (99 ∷ 112 ∷ 111 ∷ []);
  properties =
      some
        (record { ss58_format = 16; token_decimals = 12; token_symbol = 67 ∷ 80 ∷ 79 ∷ 67 ∷ [] });
}

unfoldable pub from : List ℕ → Option Alternative
from s =
    if same_bytes s (100 ∷ 101 ∷ 118 ∷ [])
    then some development
    else (if same_bytes s (108 ∷ 111 ∷ 99 ∷ 97 ∷ 108 ∷ [])
        then some local_testnet
        else (if same_bytes s []
              || same_bytes s
                  (99 ∷ 111 ∷ 110 ∷ 106 ∷ 117 ∷ 103 ∷ 97 ∷ 116 ∷ 101 ∷ 112 ∷ 111 ∷ 99 ∷ [])
            then some conjugatepoc
            else none))

-- `load_spec` of src/cli.rs.
unfoldable pub load_spec : List ℕ → List ℕ → List ℕ → Option ChainSpec
load_spec wasm_binary genesis_binary id = elim (from id) [
  | some spec ↦ some (load wasm_binary genesis_binary spec)
  | none ↦ none
]
