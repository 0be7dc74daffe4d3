-- ===== src/Runs/Basic.antt =====
-- Type 1 and type 2: requests, and whole exchanges over toy cryptography.
use pat_go.Base.{
  ◌≡◌, refl, true, false, none, some, [], ◌∷◌, Bytes, take, ok, replicate, bytes_equal, arith,
}
use pat_go.Wire.Sample.{sample}
use pat_go.Wire.Steps.{after, into}
use pat_go.Oprf.Sample as OprfSample
use pat_go.BlindRsa.Sample as RsaSample
use pat_go.BlindRsa.Sample.{block}
use pat_go.Tokens.{Token, authenticator_input, unmarshal_token}
use pat_go.Tokens.Layout.{HasLengths, input_layout}
use pat_go.Basic.{TokenRequest, empty_request, equal}
use pat_go.Basic
use pat_go.Basic.Layout
use pat_go.Basic.Layout.{layout}
use pat_go.Type1
use pat_go.Type2

abbrev request : TokenRequest
request = record { raw = none; token_key_id = 3; blinded_req = replicate 48 1 }

abbrev long_request : TokenRequest
long_request = record { raw = none; token_key_id = 3; blinded_req = replicate 49 1 }

request_read :
    Basic.unmarshal sample 1 48 empty_request (layout sample 1 48 request) ≡ (request, true)
request_read = Layout.unmarshal-layout sample 1 48 request empty_request [] refl

abbrev used : TokenRequest
used = record empty_request { raw = some (9 ∷ []) }

used_read :
    Basic.unmarshal sample 1 48 used (layout sample 1 48 request)
    ≡ (record request { raw = some (9 ∷ []) }, true)
used_read = Layout.unmarshal-layout sample 1 48 request used [] refl

unmarshal-marshal_long_example :
    (out : Bytes) × (r' : TokenRequest) × (Basic.marshal sample 1 48 long_request
      ≡ some (out, record long_request { raw = some out }))
    × (Basic.unmarshal sample 1 48 empty_request out ≡ (r', true))
    × (r'.blinded_req ≡ take 48 long_request.blinded_req)
    × (equal long_request r' ≡ false)
unmarshal-marshal_long_example =
    Layout.unmarshal-marshal_long sample 1 48 long_request empty_request (omega arith) (omega arith)
      refl (omega arith)

abbrev sha256 : Bytes → Bytes
sha256 x = replicate 32 0

abbrev nonce : Bytes
nonce = replicate 32 5

nonce_lengths : HasLengths nonce nonce
nonce_lengths = record { nonce_length = refl; key_id_length = refl }

abbrev private_token : Token
private_token = Type1.Client.unauthenticated sample (OprfSample.sample 48) sha256 [] nonce nonce

abbrev private_state : Type1.Client.RequestState sample (OprfSample.sample 48) sha256
private_state = record {
  token_input = input_layout private_token;
  request = record { raw = none; token_key_id = 5; blinded_req = 321 ∷ replicate 31 0 };
  client = 4;
  verification_key = 4;
  verifier = tt;
}

private_request :
    Type1.Client.create_token_request sample (OprfSample.sample 48) sha256 tt [] nonce nonce 4
    ≡ ok private_state
unfolding Type1.Client.create_token_request authenticator_input
private_request = refl

create_token_request-Issues_example :
    Type1.Issuance.Issues sample (OprfSample.sample 48) sha256 4 private_token private_state
create_token_request-Issues_example =
    Type1.Issuance.create_token_request-Issues sample (OprfSample.sample 48) sha256
      (OprfSample.sample_laws 48) refl (λ x. refl) 4 [] nonce nonce nonce_lengths private_state tt
      private_request

private_request_with_blind :
    Type1.Client.create_token_request_with_blind sample
      (OprfSample.sample 48)
      sha256
      []
      nonce
      nonce
      4
      (0 ∷ [])
    ≡ ok private_state
unfolding Type1.Client.create_token_request_with_blind authenticator_input
private_request_with_blind = refl

abbrev public_token : Token
public_token = Type2.Client.unauthenticated sample RsaSample.sample sha256 [] nonce nonce

abbrev public_state : Type2.Client.RequestState sample RsaSample.sample sha256
public_state = record {
  token_input = input_layout public_token;
  request = record { raw = none; token_key_id = 5; blinded_req = block 4 };
  verification_key = 4;
  verifier = tt;
}

public_request :
    Type2.Client.create_token_request sample RsaSample.sample sha256 tt [] nonce nonce 4
    ≡ ok public_state
unfolding Type2.Client.create_token_request authenticator_input
public_request = refl

create_token_request-Signs_example :
    Type2.Issuance.Signs sample RsaSample.sample sha256 4 public_token public_state
create_token_request-Signs_example =
    Type2.Issuance.create_token_request-Signs sample RsaSample.sample sha256 RsaSample.sample_laws 4
      refl (λ x. refl) [] nonce nonce nonce_lengths public_state tt public_request

public_request_with_blind :
    Type2.Client.create_token_request_with_blind sample RsaSample.sample sha256 [] nonce nonce 4 []
      []
    ≡ ok public_state
unfolding Type2.Client.create_token_request_with_blind authenticator_input
public_request_with_blind = refl

abbrev signed_token : Token
signed_token = record public_token { authenticator = block 4 }

public_finalized :
    Type2.Client.finalize_token sample RsaSample.sample sha256 public_state (block 4)
    ≡ ok signed_token
unfolding Type2.Client.finalize_token authenticator_input Type2.unmarshal_public_token
    unmarshal_token block after into bytes_equal
public_finalized = refl

finalize_token-Verifies_example :
    Type2.Issuance.Verifies sample RsaSample.sample sha256 4 signed_token
finalize_token-Verifies_example =
    Type2.Issuance.finalize_token-Verifies sample RsaSample.sample sha256 public_state (block 4)
      public_finalized
