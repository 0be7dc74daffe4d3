-- ===== src/Runs/Issuer.antt =====
-- The issuer and the client of rate-limited tokens, over toy cryptography.
use pat_go.Base.{◌≡◌, ◌++◌, refl, true, none, [], ◌∷◌, Bytes, ok, replicate, bytes_equal}
use pat_go.Base.Strings.{codes}
use pat_go.Wire.Sample.{sample}
use pat_go.Wire.Steps.{after, into, read, check, store, attempt, check_rest, accepted}
use pat_go.Ecdsa.Sample.{curve}
use pat_go.Hpke.Sample as HpkeSample
use pat_go.BlindRsa.Sample as RsaSample
use pat_go.BlindRsa.Sample.{block}
use pat_go.Tokens.{Token, authenticator_input, unmarshal_token}
use pat_go.Tokens.Layout.{input_layout}
use pat_go.Type2.Issuance.{Verifies}
use pat_go.Type3
use pat_go.Type3.Request.{RateLimitedRequest, empty_limited, unmarshal}
use pat_go.Type3.Layout.{layout}
use pat_go.Type3.Inner.{InnerRequest}
use pat_go.Type3.Padding.{unpad_origin_name, unpad_from}
use pat_go.Type3.Encryption.{decrypt_origin_token_request, associated_data}
use pat_go.Type3.Attester.{Digests, unmarshal_public_key}
use pat_go.Type3.Response.{Response}
use pat_go.Type3.Issuer.{
  RateLimitedIssuer, evaluate, answer, respond, seal_response, check_signature, issuer_blind,
  find_key,
}
use pat_go.Type3.Grants.{Grants}

abbrev digests : Digests
digests = record { sha384 = λ x. x; hkdf = λ secret salt info n. ok secret; hex = λ x. x }

abbrev response : Response
response = record {
  Cipher = Unit;
  extract = λ salt secret. secret;
  expand = λ prk label n. replicate n 0;
  new_cipher = λ key. ok tt;
  seal = λ c nonce text. text;
  open_ = λ c nonce text. ok text;
  key_size = 16;
  nonce_size = 12;
}

abbrev sha256 : Bytes → Bytes
sha256 x = 1 ∷ []

abbrev name : Bytes
name = codes "ab"

abbrev issuer :
    RateLimitedIssuer sample curve digests HpkeSample.sample RsaSample.sample response sha256
issuer = record {
  name_key = record { id = 1; suite = tt; private_key = 6; public_key = 6 };
  token_key = 4;
  origin_index_keys = (name, 5 ∷ []) ∷ [];
}

abbrev inner : InnerRequest
inner = record {
  raw = none;
  token_key_id = 7;
  blinded_msg = block 3;
  padded_origin = name ++ replicate 30 0;
}

abbrev request : RateLimitedRequest
request = record {
  raw = none;
  request_key = replicate 49 1;
  name_key_id = replicate 32 2;
  encrypted_token_request = replicate 32 0 ++ Type3.Inner.layout sample inner;
  signature = replicate 96 5;
}

granted :
    evaluate sample curve digests HpkeSample.sample RsaSample.sample response sha256 issuer
      (λ n. ok (replicate n 9))
      (layout request)
    ≡ ok (replicate 16 9 ++ block 4, replicate 49 1)
unfolding evaluate answer respond seal_response check_signature issuer_blind find_key unmarshal
    decrypt_origin_token_request associated_data Type3.EncapKey.marshal Type3.Inner.unmarshal
    unmarshal_public_key unpad_origin_name unpad_from bytes_equal after into read check store
    attempt check_rest accepted block
granted = refl

evaluate-Grants_example :
    (req : RateLimitedRequest) × (unmarshal sample empty_limited (layout request) ≡ (req, true))
    × Grants sample curve digests HpkeSample.sample RsaSample.sample response sha256 issuer
        (λ n. ok (replicate n 9))
        req
        (replicate 49 1)
evaluate-Grants_example =
    Type3.Grants.evaluate-Grants sample curve digests HpkeSample.sample RsaSample.sample response
      sha256 issuer (λ n. ok (replicate n 9)) (layout request) granted

abbrev limited_token : Token
limited_token =
    Type3.Client.unauthenticated sample curve digests HpkeSample.sample RsaSample.sample response
      sha256 [] (replicate 32 5) (replicate 32 5)

abbrev client_state :
    Type3.Client.RequestState sample curve digests HpkeSample.sample RsaSample.sample response
      sha256
client_state = record {
  token_input = input_layout (record limited_token { context = replicate 32 1 });
  client_key = [];
  request = request;
  encap_secret = [];
  encap_enc = [];
  name_key = record { id = 1; suite = tt; public_key = 6 };
  verification_key = 4;
  verifier = tt;
}

abbrev signed_token : Token
signed_token = record limited_token { context = replicate 32 1; authenticator = block 4 }

finalized :
    Type3.Client.finalize_token sample curve digests HpkeSample.sample RsaSample.sample response
      sha256 client_state
      (replicate 16 9 ++ block 4)
    ≡ ok signed_token
unfolding Type3.Client.finalize_token Type3.Client.open_response authenticator_input
    Type3.unmarshal_rate_limited_token unmarshal_token block after into bytes_equal
finalized = refl

finalize_token-Verifies_limited_example : Verifies sample RsaSample.sample sha256 4 signed_token
finalize_token-Verifies_limited_example =
    Type3.Issuance.finalize_token-Verifies_limited sample curve digests HpkeSample.sample
      RsaSample.sample response sha256 client_state (replicate 16 9 ++ block 4) finalized
