-- ===== src/JsonRpc/Answers.antt =====
-- pocjsonrpc/src/lib.rs: the requests that the stub does not survive.
use conjugate_poc.Common.{
  ℕ, if◌then◌else◌, ◌≡◌, ◌≢◌, ◌↔◌, refl, Bool, Bool-cases, inl, inr, true, false, List, [], Option,
  none, some, Outcome, ok, err, panic, ◌>>=◌, ok_or, unwrap,
}
use conjugate_poc.Poc.Bytes.{same_bytes}
use conjugate_poc.JsonRpc.{
  Method, get, post, other_method, submit_nonce, test_key, test_value, GenericError, not_utf8,
  not_json, not_printed, Response, Json, Request, answer_nonce, api_response,
}

>>=-eq-panic {ℓ κ ν} :
    {E : Type ℓ} {A : Type κ} {B : Type ν} (first : Outcome E A) (next : A → Outcome E B)
    → first ≢ panic
    → (first >>= next) ≡ panic
    → (x : A) × (first ≡ ok x) × (next x ≡ panic)
>>=-eq-panic panic next sound e = absurd (sound refl)
>>=-eq-panic (err x) next sound e = absurd cc
>>=-eq-panic (ok x) next sound e = (x, refl, e)

ok_or-panic {ℓ κ ν} :
    {E : Type ℓ} {A : Type κ} {B : Type ν} (e : E) (o : Option A) (next : A → Outcome E B)
    → (ok_or e o >>= next) ≡ panic
    → (x : A) × (o ≡ some x) × (next x ≡ panic)
ok_or-panic e none next p = absurd cc
ok_or-panic e (some x) next p = (x, refl, p)

ok_or_sound {ℓ κ ν} :
    {E : Type ℓ} {A : Type κ} {B : Type ν} (e : E) (o : Option A) (f : A → B)
    → (ok_or e o >>= λ x. ok (f x)) ≢ panic
ok_or_sound e none f p = absurd cc
ok_or_sound e (some x) f p = absurd cc

if_sound {ℓ κ} :
    {E : Type ℓ} {A : Type κ} (b : Bool) (x y : A)
    → ◌≢◌ {A = Outcome E A} (if b then ok x else ok y) panic
if_sound true x y p = absurd cc
if_sound false x y p = absurd cc

-- A call that goes on without a panic panics in its `unwrap`.
unwrap-panic {ℓ κ ν} :
    {E : Type ℓ} {A : Type κ} {B : Type ν} (o : Option A) (next : A → Outcome E B)
    → ((x : A) → next x ≢ panic)
    → (unwrap o >>= next) ≡ panic
    → o ≡ none
unwrap-panic none next sound p = refl
unwrap-panic (some x) next sound p = absurd (sound x p)

module _ (json : Json) where
  -- A body that is a JSON value which cannot be indexed by a key.
  pub record Unindexable (body : Outcome GenericError (List ℕ)) : Type 0 where
    pub entire_body : List ℕ
    pub str : List ℕ
    pub value : json.Value
    pub complete : body ≡ ok entire_body
    pub utf8 : json.from_utf8 entire_body ≡ some str
    pub parsed : json.from_str str ≡ some value
    pub refused : json.set_index test_key test_value value ≡ none

  -- Such a body posted to `/submit_nonce`.
  pub record Fatal (req : Request) : Type 0 where
    pub posted : req.method ≡ post
    pub submitted : same_bytes req.path submit_nonce ≡ true
    pub unindexable : Unindexable req.body

  answer_nonce-Unindexable :
      (body : Outcome GenericError (List ℕ))
      → body ≢ panic
      → answer_nonce json body ≡ panic
      → Unindexable body
  unfolding answer_nonce
  answer_nonce-Unindexable body sound e =
      let (entire_body, complete, e1) = >>=-eq-panic body _ sound e in
      let (str, utf8, e2) = ok_or-panic not_utf8 (json.from_utf8 entire_body) _ e1 in
      let (value, parsed, e3) = ok_or-panic not_json (json.from_str str) _ e2 in
      record {
        entire_body = entire_body;
        str = str;
        value = value;
        complete = complete;
        utf8 = utf8;
        parsed = parsed;
        refused =
            unwrap-panic (json.set_index test_key test_value value) _
              (λ v. ok_or_sound not_printed (json.to_string v) _) e3;
      }

  Unindexable-panics :
      (body : Outcome GenericError (List ℕ)) → Unindexable body → answer_nonce json body ≡ panic
  unfolding answer_nonce
  Unindexable-panics body u = rw (u.complete, u.utf8, u.parsed, u.refused) refl

  -- If reading the body itself does not panic, the stub panics on a request exactly when it is posted
  -- to `/submit_nonce`, is UTF-8 and JSON, and the JSON value cannot be indexed by a key; every other
  -- request gets a response or an error.
  pub api_response-Fatal :
      (req : Request) → req.body ≢ panic → (api_response json req ≡ panic) ↔ Fatal req
  unfolding api_response
  api_response-Fatal req sound = (by_method req.method refl, crashes)
    where
      by_method :
          (method : Method) → req.method ≡ method → api_response json req ≡ panic → Fatal req
      by_method get is e = absurd (if_sound _ _ _ (rw (api_response, is) at e))
      by_method post is e = elim (Bool-cases (same_bytes req.path submit_nonce)) [
        | inl submitted ↦
            (let ran : answer_nonce json req.body ≡ panic = rw (api_response, is, submitted) at e in
              record {
                posted = is;
                submitted = submitted;
                unindexable = answer_nonce-Unindexable req.body sound ran;
              })
        | inr elsewhere ↦
            (let no : ◌≡◌ {A = Outcome GenericError Response}
                  (ok (record { content_type = none; body = [] })) panic =
                rw (api_response, is, elsewhere) at e in
              absurd cc)
      ]
      by_method other_method is e =
          (let no : ◌≡◌ {A = Outcome GenericError Response}
                (ok (record { content_type = none; body = [] })) panic =
              rw (api_response, is) at e in
            absurd cc)

      crashes : Fatal req → api_response json req ≡ panic
      crashes fatal =
          rw (api_response, fatal.posted, fatal.submitted)
            (Unindexable-panics req.body fatal.unindexable)
