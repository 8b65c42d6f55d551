-- ===== src/JsonRpc.antt =====
-- pocjsonrpc/src/lib.rs: the answers of the HTTP stub. `hyper` and `serde_json` are arguments: a body is
-- what `concat2` makes of the stream, and a value is an object, null or another one, as far as the
-- indexing tells them apart.
pub mod Answers
pub mod Types
mod Tests
use conjugate_poc.Common.{
  ℕ, if◌then◌else◌, Bool, true, false, List, [], ◌∷◌, Option, none, some, Outcome, ok, err, panic,
  ◌>>=◌, ok_or, unwrap,
}
use conjugate_poc.Poc.Bytes.{same_bytes}

pub data Method : Type 0 where
  get : Method
  post : Method
  other_method : Method

-- "/get_mining_info"
abbrev pub get_mining_info : List ℕ
get_mining_info =
    47 ∷ 103 ∷ 101 ∷ 116 ∷ 95 ∷ 109 ∷ 105 ∷ 110 ∷ 105 ∷ 110 ∷ 103 ∷ 95 ∷ 105 ∷ 110 ∷ 102 ∷ 111 ∷ []

-- "/submit_nonce"
abbrev pub submit_nonce : List ℕ
submit_nonce = 47 ∷ 115 ∷ 117 ∷ 98 ∷ 109 ∷ 105 ∷ 116 ∷ 95 ∷ 110 ∷ 111 ∷ 110 ∷ 99 ∷ 101 ∷ []

-- "mining info"
abbrev pub mining_info : List ℕ
mining_info = 109 ∷ 105 ∷ 110 ∷ 105 ∷ 110 ∷ 103 ∷ 32 ∷ 105 ∷ 110 ∷ 102 ∷ 111 ∷ []

-- "application/json"
abbrev pub application_json : List ℕ
application_json =
    97 ∷ 112 ∷ 112 ∷ 108 ∷ 105 ∷ 99 ∷ 97 ∷ 116 ∷ 105 ∷ 111 ∷ 110 ∷ 47 ∷ 106 ∷ 115 ∷ 111 ∷ 110 ∷ []

-- "test" and "test_value"
abbrev pub test_key : List ℕ
test_key = 116 ∷ 101 ∷ 115 ∷ 116 ∷ []

abbrev pub test_value : List ℕ
test_value = 116 ∷ 101 ∷ 115 ∷ 116 ∷ 95 ∷ 118 ∷ 97 ∷ 108 ∷ 117 ∷ 101 ∷ []

pub data GenericError : Type 0 where
  body_failed : GenericError
  not_utf8 : GenericError
  not_json : GenericError
  not_printed : GenericError
  not_built : GenericError

pub record Response : Type 0 where
  pub content_type : Option (List ℕ)
  pub body : List ℕ

-- `String::from_utf8`, and of `serde_json` reading, printing and `data[key] = text`, which is `none` for
-- a value that is no object and not null.
pub record Json : Type 1 where
  pub Value : Type 0
  pub from_utf8 : List ℕ → Option (List ℕ)
  pub from_str : List ℕ → Option Value
  pub set_index : List ℕ → List ℕ → Value → Option Value
  pub to_string : Value → Option (List ℕ)

pub record Request : Type 0 where
  pub method : Method
  pub path : List ℕ
  pub body : Outcome GenericError (List ℕ)

module _ (json : Json) where
  -- The handler of `POST /submit_nonce`; the response's status is 200 and its header is sound.
  unfoldable pub answer_nonce : Outcome GenericError (List ℕ) → Outcome GenericError Response
  answer_nonce body = body >>= λ entire_body. ok_or not_utf8 (json.from_utf8 entire_body) >>= λ str.
      ok_or not_json (json.from_str str) >>= λ data'.
      unwrap (json.set_index test_key test_value data') >>= λ data'.
      ok_or not_printed (json.to_string data') >>= λ text.
      ok (record { content_type = some application_json; body = text })

  unfoldable pub api_response : Request → Outcome GenericError Response
  api_response req = elim req.method [
    | get ↦
        if same_bytes req.path get_mining_info
        then ok (record { content_type = none; body = mining_info })
        else ok (record { content_type = none; body = [] })
    | post ↦
        (let answered = answer_nonce req.body in
          if same_bytes req.path submit_nonce
          then answered
          else ok (record { content_type = none; body = [] }))
    | other_method ↦ ok (record { content_type = none; body = [] })
  ]

  -- `map_request_to_response`, from the bytes of the body; `build` is the response builder.
  unfoldable pub map_request_to_response :
      {Req Res : Type 0}
      → (List ℕ → Option Req)
      → (Res → Option (List ℕ))
      → (Response → Option Response)
      → (Req → Res)
      → Outcome GenericError (List ℕ)
      → Outcome GenericError Response
  map_request_to_response from_slice print build transformation body = body >>= λ entire_body.
      ok_or not_json (from_slice entire_body) >>= λ req.
      ok_or not_printed (print (transformation req)) >>= λ string.
      ok_or not_built (build (record { content_type = some application_json; body = string }))

  -- The end of the server; an error is printed.
  unfoldable pub printed : Outcome (List ℕ) (Unit {0}) → Outcome (Unit {0}) (Unit {0})
  printed (ok done) = ok tt
  printed (err e) = ok tt
  printed panic = panic

  -- `run_server`; binding an address in use panics.
  unfoldable pub run_server :
      {Bound : Type 0}
      → (List ℕ × ℕ → Option Bound)
      → (Bound → (Request → Outcome GenericError Response) → Outcome (List ℕ) (Unit {0}))
      → Outcome (Unit {0}) (Unit {0})
  run_server bind serve =
      unwrap (bind (127 ∷ 0 ∷ 0 ∷ 1 ∷ [], 3000)) >>= λ bound. printed (serve bound api_response)
