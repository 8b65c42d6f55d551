-- ===== src/JsonRpc/Types.antt =====
-- pocjsonrpc/src/lib.rs: what the miners' requests and answers carry.
use conjugate_poc.Common.{ℕ, List}

pub record SubmitNonce : Type 0 where
  pub accout_id : ℕ
  pub nonce : ℕ
  pub height : ℕ
  pub block : ℕ
  pub deadline_unadjusted : ℕ
  pub deadline : ℕ
  pub gen_sig : List ℕ

pub record SubmitNonceResponse : Type 0 where
  pub accout_id : ℕ
  pub nonce : ℕ
  pub height : ℕ
  pub block : ℕ
  pub deadline : ℕ
  pub base_target : ℕ
  pub result : List ℕ

pub record MiningInfoResponse : Type 0 where
  pub height : ℕ
  pub generation_signature : List ℕ
  pub base_target : ℕ
