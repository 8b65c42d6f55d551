-- ===== src/Poc/Rpc.antt =====
-- poc/src/lib.rs: the data of the miners' requests, and the server of `getmineinfo`. Starting a server
-- and waiting for it belong to the `jsonrpc` crates and are arguments.
use conjugate_poc.Common.{ℕ, List, [], ◌∷◌, Option, Outcome, unwrap, ◌>>=◌}

pub record SubmitNonce : Type 0 where
  pub accout_id : ℕ
  pub nonce : ℕ
  pub height : ℕ
  pub block : ℕ
  pub deadline_unadjusted : ℕ
  pub deadline : ℕ
  pub gen_sig : List ℕ

pub record SubmitNonceResponse : Type 0 where
  pub accout_id : ℕ
  pub nonce : ℕ
  pub height : ℕ
  pub block : ℕ
  pub deadline : ℕ
  pub base_target : ℕ
  pub result : List ℕ

pub record MiningInfoResponse : Type 0 where
  pub height : ℕ
  pub generation_signature : List ℕ
  pub base_target : ℕ

pub record PocmineParams : Type 0 where
  pub generation_sig : List ℕ
  pub nonce : ℕ
  pub base_target : ℕ
  pub deadline : ℕ
  pub height : ℕ

-- "get_mine_info"
abbrev pub get_mine_info : List ℕ
get_mine_info = 103 ∷ 101 ∷ 116 ∷ 95 ∷ 109 ∷ 105 ∷ 110 ∷ 101 ∷ 95 ∷ 105 ∷ 110 ∷ 102 ∷ 111 ∷ []

-- "mine info"
abbrev pub mine_info : List ℕ
mine_info = 109 ∷ 105 ∷ 110 ∷ 101 ∷ 32 ∷ 105 ∷ 110 ∷ 102 ∷ 111 ∷ []

-- "127.0.0.1:3030"
abbrev pub server_address : List ℕ
server_address = 49 ∷ 50 ∷ 55 ∷ 46 ∷ 48 ∷ 46 ∷ 48 ∷ 46 ∷ 49 ∷ 58 ∷ 51 ∷ 48 ∷ 51 ∷ 48 ∷ []

pub data RestApi : Type 0 where
  unsecure : RestApi

pub data AccessControlAllowOrigin : Type 0 where
  any_origin : AccessControlAllowOrigin

-- What the server is built with: its methods with the text each answers, and the builder's options.
pub record ServerBuilder : Type 0 where
  pub methods : List (List ℕ × List ℕ)
  pub threads : ℕ
  pub rest_api : RestApi
  pub cors : List AccessControlAllowOrigin

abbrev pub mine_server : ServerBuilder
mine_server = record {
  methods = (get_mine_info, mine_info) ∷ [];
  threads = 1;
  rest_api = unsecure;
  cors = any_origin ∷ [];
}

-- `getmineinfo`: it panics when the server does not start, and waits for it otherwise.
unfoldable pub getmineinfo :
    {Address Server : Type 0}
    → (List ℕ → Option Address)
    → (ServerBuilder → Address → Option Server)
    → (Server → Outcome (Unit {0}) (Unit {0}))
    → Outcome (Unit {0}) (Unit {0})
getmineinfo parse start_http wait = unwrap (parse server_address) >>= λ address.
    unwrap (start_http mine_server address) >>= λ server. wait server
