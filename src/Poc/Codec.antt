-- ===== src/Poc/Codec.antt =====
-- What the crates take from `parity-scale-codec` and `hex`: parameters of the model.
use conjugate_poc.Common.{ℕ, ◌*◌, ◌≡◌, List, Option, some, length}

-- `Encode` and `Decode` of one type; `none` is a decoding error.
pub record Codec (A : Type 0) : Type 0 where
  pub encode : A → List ℕ
  pub decode : List ℕ → Option A

-- What is encoded decodes to itself.
abbrev pub RoundTrips : {A : Type 0} → Codec A → Type 0
RoundTrips {A} codec = (a : A) → codec.decode (codec.encode a) ≡ some a

-- `hex::decode` yields one byte for two characters.
abbrev pub Halves : (List ℕ → Option (List ℕ)) → Type 0
Halves hex_decode =
    (text bytes : List ℕ) → hex_decode text ≡ some bytes → length text ≡ 2 * length bytes
