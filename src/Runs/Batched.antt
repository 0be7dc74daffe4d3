-- ===== src/Runs/Batched.antt =====
-- The batched protocol: requests, and whole exchanges over toy cryptography.
use pat_go.Base.{◌≡◌, ◌++◌, refl, true, none, List, [], ◌∷◌, Bytes, map, ok, replicate, arith}
use pat_go.Wire.Sample.{sample}
use pat_go.Oprf.Sample as OprfSample
use pat_go.Tokens.{authenticator_input}
use pat_go.Tokens.Layout.{input_layout}
use pat_go.Batched
use pat_go.Batched.Request.{BatchedRequest, empty_batch, unmarshal}
use pat_go.Batched.Layout.{layout}
use pat_go.Batched.Client.{
  RequestState, unauthenticated, token_input, create_token_request,
  create_token_request_with_blinds, inputs_and_blinds, marshal_elements,
}

abbrev batch : BatchedRequest
batch = record { raw = none; token_key_id = 3; blinded_req = replicate 32 1 ∷ replicate 32 2 ∷ [] }

batch_read : unmarshal sample empty_batch (layout batch ++ []) ≡ (batch, true)
batch_read =
    Batched.Layout.unmarshal-batch_layout sample batch empty_batch [] (refl, (refl, tt)) (cc)

abbrev sha256 : Bytes → Bytes
sha256 x = replicate 32 0

abbrev key_id : Bytes
key_id = replicate 32 5

abbrev nonces : List Bytes
nonces = replicate 32 6 ∷ replicate 32 7 ∷ []

abbrev state : RequestState sample (OprfSample.sample 64) sha256
state = record {
  token_inputs =
      map (λ n. input_layout (unauthenticated sample (OprfSample.sample 64) sha256 [] key_id n))
        nonces;
  request = record {
    raw = none;
    token_key_id = 5;
    blinded_req = (627 ∷ replicate 31 0) ∷ (659 ∷ replicate 31 0) ∷ [];
  };
  client = 4;
  verification_key = 4;
  verifier = tt;
}

made : create_token_request sample (OprfSample.sample 64) sha256 tt [] nonces key_id 4 ≡ ok state
unfolding create_token_request token_input authenticator_input marshal_elements
made = refl

create_token_request-Issues_batch_example :
    Batched.Issuance.Issues sample
      (OprfSample.sample 64)
      sha256
      4
      (map (unauthenticated sample (OprfSample.sample 64) sha256 [] key_id) nonces)
      state
create_token_request-Issues_batch_example =
    Batched.Issuance.create_token_request-Issues_batch sample (OprfSample.sample 64) sha256
      (OprfSample.sample_laws 64) refl refl (λ x. refl) 4 [] key_id refl tt nonces state
      (refl, (refl, tt)) (cc) (omega arith) (omega arith) made

made_with_blinds :
    create_token_request_with_blinds sample
      (OprfSample.sample 64)
      sha256
      []
      nonces
      key_id
      4
      ((0 ∷ []) ∷ (0 ∷ []) ∷ [])
    ≡ ok state
unfolding create_token_request_with_blinds inputs_and_blinds token_input authenticator_input
    marshal_elements
made_with_blinds = refl
