-- ===== src/Type1/Client.antt =====
-- tokens/type1/client.go. Slicing out of range and an index out of range are panics.
use pat_go.Base.{
  none, List, [], ◌∷◌, ◌++◌, Bytes, drop, get_elem?, slice_to, Outcome, ok, ◌>>=◌, or_panic,
  last_byte,
}
use pat_go.Wire.{Cryptobyte}
use pat_go.Oprf.{Oprf}
use pat_go.Tokens.{Token, authenticator_input}
use pat_go.Basic.{TokenRequest}
use pat_go.Type1.{basic_private_token_type, unmarshal_private_token}

module _ (cb : Cryptobyte) (o : Oprf) (sha256 : Bytes → Bytes) where
  -- `client` is the circl client, which holds the verification key.
  pub record RequestState : Type 0 where
    pub token_input : Bytes
    pub request : TokenRequest
    pub client : o.PublicKey
    pub verification_key : o.PublicKey
    pub verifier : o.FinalizeData

  unfoldable pub finalize_token : RequestState → Bytes → Outcome Token
  finalize_token s response = do
    element_enc ← or_panic (slice_to o.element_length response)
    element ← o.unmarshal_element element_enc
    proof ← o.unmarshal_proof (drop o.element_length response)
    outputs ← o.finalize s.client s.verifier (element ∷ []) proof
    output ← or_panic (get_elem? outputs 0)
    unmarshal_private_token cb (s.token_input ++ output)

  abbrev pub unauthenticated : Bytes → Bytes → Bytes → Token
  unauthenticated challenge nonce token_key_id = record {
    token_type = basic_private_token_type;
    nonce = nonce;
    context = sha256 challenge;
    key_id = token_key_id;
    authenticator = [];
  }

  -- What both constructors do with the blinded input.
  abbrev pub request_state :
      Bytes → Bytes → o.PublicKey → o.FinalizeData × List o.Element → Outcome RequestState
  request_state token_input token_key_id key (finalize_data, elements) = do
    element ← or_panic (get_elem? elements 0)
    enc_request ← o.marshal_element element
    last ← or_panic (last_byte token_key_id)
    ok (record {
      token_input = token_input;
      request = record { raw = none; token_key_id = last; blinded_req = enc_request };
      client = key;
      verification_key = key;
      verifier = finalize_data;
    })

  unfoldable pub create_token_request :
      o.Random → Bytes → Bytes → Bytes → o.PublicKey → Outcome RequestState
  create_token_request rnd challenge nonce token_key_id key = do
    token_input ← or_panic (authenticator_input cb (unauthenticated challenge nonce token_key_id))
    blinded ← o.blind key rnd (token_input ∷ [])
    request_state token_input token_key_id key blinded

  unfoldable pub create_token_request_with_blind :
      Bytes → Bytes → Bytes → o.PublicKey → Bytes → Outcome RequestState
  create_token_request_with_blind challenge nonce token_key_id key blind_enc = do
    token_input ← or_panic (authenticator_input cb (unauthenticated challenge nonce token_key_id))
    blind ← o.unmarshal_scalar blind_enc
    blinded ← o.deterministic_blind key (token_input ∷ []) (blind ∷ [])
    request_state token_input token_key_id key blinded
