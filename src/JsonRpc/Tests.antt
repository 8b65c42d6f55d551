-- ===== src/JsonRpc/Tests.antt =====
-- pocjsonrpc/src/lib.rs: the stub with a JSON library that reads `[]` as an array and all else as an
-- object.
use conjugate_poc.Common.{
  ℕ, if◌then◌else◌, ◌≡◌, ◌↔◌, List, [], ◌∷◌, ◌++◌, Option, none, some, ok, panic,
}
use conjugate_poc.Poc.Bytes.{same_bytes}
use conjugate_poc.JsonRpc.{post, submit_nonce, Json, Request, api_response}
use conjugate_poc.JsonRpc.Answers.{Fatal, api_response-Fatal}

abbrev array : List ℕ
array = 91 ∷ 93 ∷ []

abbrev json : Json
json = record {
  Value = Option (List ℕ);
  from_utf8 = λ bytes. some bytes;
  from_str = λ str. some (if same_bytes str array then none else some str);
  set_index = λ key text value. elim value [
    | none ↦ none
    | some object ↦ some (some (object ++ (key ++ text)))
  ];
  to_string = λ value. value;
}

abbrev posted : Request
posted = record { method = post; path = submit_nonce; body = ok array }

api_response-Fatal_example : (api_response json posted ≡ panic) ↔ Fatal json posted
api_response-Fatal_example = api_response-Fatal json posted (λ e. absurd cc)
