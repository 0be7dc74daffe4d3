-- ===== src/Runs/Codec.antt =====
-- Tokens and challenges.
use pat_go.Base.{
  ◌≡◌, ◌≢◌, ◌++◌, refl, none, some, [], ◌∷◌, Bytes, ok, replicate, arith, if◌then◌else◌,
}
use pat_go.Base.Strings.{codes, join, split}
use pat_go.Wire.Sample.{sample}
use pat_go.Tokens
use pat_go.Tokens.{Token, empty_token}
use pat_go.Tokens.Layout
use pat_go.Tokens.Layout.{HasShape, layout}
use pat_go.Challenge
use pat_go.Challenge.{TokenChallenge, equals}
use pat_go.Challenge.RoundTrip
use pat_go.Challenge.Inversion

abbrev token : Token
token = record {
  token_type = 2;
  nonce = replicate 32 7;
  context = replicate 32 8;
  key_id = replicate 32 9;
  authenticator = 1 ∷ 2 ∷ [];
}

token_shape : HasShape 2 token
token_shape = record {
  type_fits = omega arith;
  nonce_length = refl;
  context_length = refl;
  key_id_length = refl;
  authenticator_length = refl;
}

unmarshal_token-marshal_example :
    (out : Bytes) × (Tokens.marshal sample token ≡ some out)
    × (Tokens.unmarshal_token sample 2 (out ++ []) ≡ ok token)
unmarshal_token-marshal_example = Layout.unmarshal_token-marshal sample 2 token [] token_shape

token_read : Tokens.unmarshal_token sample 2 (layout token) ≡ ok token
token_read = Layout.unmarshal_token-layout sample 2 token [] token_shape

unmarshal_token-inv_example :
    HasShape 2 token × ((rest : Bytes) × (layout token ≡ layout token ++ rest))
unmarshal_token-inv_example =
    Layout.unmarshal_token-inv sample 2 (layout token) (omega arith) token_read

abbrev challenge : TokenChallenge
challenge = record {
  token_type = 1;
  issuer_name = codes "issuer.example";
  redemption_nonce = 5 ∷ 6 ∷ [];
  origin_info = codes "foo.example" ∷ codes "bar.example" ∷ [];
}

abbrev no_origins : TokenChallenge
no_origins = record challenge { origin_info = [] }

marshal_challenge_lem_example :
    Challenge.marshal sample challenge
    ≡ (if RoundTrip.fits challenge then some (RoundTrip.layout challenge) else none)
marshal_challenge_lem_example = RoundTrip.marshal_challenge_lem sample challenge (omega arith)

unmarshal-marshal_challenge_example :
    (out : Bytes) × (Challenge.marshal sample challenge ≡ some out)
    × (Challenge.unmarshal sample (out ++ 9 ∷ []) ≡ ok challenge)
unfolding join
unmarshal-marshal_challenge_example =
    RoundTrip.unmarshal-marshal_challenge sample challenge (9 ∷ []) (omega arith) (cc) (cc)
      (omega arith) refl

abbrev wire : Bytes
wire = 0 ∷ 1 ∷ 0 ∷ 1 ∷ 65 ∷ 0 ∷ 0 ∷ 3 ∷ 66 ∷ 44 ∷ 67 ∷ 255 ∷ []

abbrev from_wire : TokenChallenge
from_wire = record {
  token_type = 1;
  issuer_name = 65 ∷ [];
  redemption_nonce = [];
  origin_info = (66 ∷ []) ∷ (67 ∷ []) ∷ [];
}

wire_read : Challenge.unmarshal sample wire ≡ ok from_wire
unfolding Challenge.unmarshal split
wire_read = refl

unmarshal-inv_challenge_example :
    (from_wire.issuer_name ≢ [])
    × ((out : Bytes) × (rest : Bytes) × (Challenge.marshal sample from_wire ≡ some out)
        × (wire ≡ out ++ rest))
unmarshal-inv_challenge_example =
    Inversion.unmarshal-inv_challenge sample wire (omega arith) wire_read
