-- ===== src/Runtime/Parameters.antt =====
-- runtime/src/lib.rs: the version and the parameters of the runtime.
use conjugate_poc.Common.{ℕ, ◌*◌, List, [], ◌∷◌}

-- The interfaces with their versions, which `impl_runtime_apis!` lists.
abbrev pub ApisVec : Type 0
ApisVec = List (List ℕ × ℕ)

pub record RuntimeVersion : Type 0 where
  pub spec_name : List ℕ
  pub impl_name : List ℕ
  pub authoring_version : ℕ
  pub spec_version : ℕ
  pub impl_version : ℕ
  pub apis : ApisVec

-- "conjugate-poc"
abbrev pub spec_name : List ℕ
spec_name = 99 ∷ 111 ∷ 110 ∷ 106 ∷ 117 ∷ 103 ∷ 97 ∷ 116 ∷ 101 ∷ 45 ∷ 112 ∷ 111 ∷ 99 ∷ []

-- "conjugate-poc-substrate"
abbrev pub impl_name : List ℕ
impl_name =
    99 ∷ 111 ∷ 110 ∷ 106 ∷ 117 ∷ 103 ∷ 97 ∷ 116 ∷ 101 ∷ 45 ∷ 112 ∷ 111 ∷ 99 ∷ 45 ∷ 115 ∷ 117 ∷ 98
    ∷ 115 ∷ 116 ∷ 114 ∷ 97 ∷ 116 ∷ 101 ∷ []

-- `VERSION`.
unfoldable pub version : ApisVec → RuntimeVersion
version runtime_api_versions = record {
  spec_name = spec_name;
  impl_name = impl_name;
  authoring_version = 1;
  spec_version = 1;
  impl_version = 1;
  apis = runtime_api_versions;
}

-- `can_author_with` are the versions of transactions that this node may author with.
pub record NativeVersion : Type 0 where
  pub runtime_version : RuntimeVersion
  pub can_author_with : List ℕ

unfoldable pub native_version : ApisVec → NativeVersion
native_version runtime_api_versions = record {
  runtime_version = version runtime_api_versions;
  can_author_with = [];
}

abbrev pub block_hash_count : ℕ
block_hash_count = 250

abbrev pub maximum_block_weight : ℕ
maximum_block_weight = 1000000

-- In percent.
abbrev pub available_block_ratio : ℕ
available_block_ratio = 75

abbrev pub maximum_block_length : ℕ
maximum_block_length = 5 * 1024 * 1024

-- In milliseconds.
abbrev pub minimum_period : ℕ
minimum_period = 3000

abbrev pub transfer_fee : ℕ
transfer_fee = 0

abbrev pub creation_fee : ℕ
creation_fee = 0

abbrev pub transaction_base_fee : ℕ
transaction_base_fee = 0

abbrev pub transaction_byte_fee : ℕ
transaction_byte_fee = 1
