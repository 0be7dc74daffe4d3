-- ===== src/Batched/Client.antt =====
-- tokens/typeF91A/client.go. An index out of range is a panic.
use pat_go.Base.{
  ℕ, zero, suc, ◌/◌, ◌%◌, not, ◌==◌, none, List, [], ◌∷◌, ◌++◌, Bytes, length, Outcome, ok, panic,
  ◌>>=◌, ◌>>◌, or_panic, or_err, guard, last_byte, collect,
}
use pat_go.Base.Chunks.{chunks}
use pat_go.Wire.{Cryptobyte}
use pat_go.Oprf.{Oprf}
use pat_go.Tokens.{Token, authenticator_input}
use pat_go.Batched.{batched_private_token_type, unmarshal_batched_private_token}
use pat_go.Batched.Request.{BatchedRequest}

-- The loop over the first `n` elements that encodes each.
unfoldable pub marshal_elements : (o : Oprf) → ℕ → List o.Element → Outcome (List Bytes)
marshal_elements o zero es = ok []
marshal_elements o (suc n) [] = panic
marshal_elements o (suc n) (e ∷ es) = do
  enc ← o.marshal_element e
  encs ← marshal_elements o n es
  ok (enc ∷ encs)

module _ (cb : Cryptobyte) (o : Oprf) (sha256 : Bytes → Bytes) where
  -- `client` is the circl client, which holds the verification key.
  pub record RequestState : Type 0 where
    pub token_inputs : List Bytes
    pub request : BatchedRequest
    pub client : o.PublicKey
    pub verification_key : o.PublicKey
    pub verifier : o.FinalizeData

  -- The last loop of `FinalizeTokens`, which reads a token for each input.
  unfoldable pub read_tokens : List Bytes → List Bytes → Outcome (List Token)
  read_tokens [] outputs = ok []
  read_tokens (input ∷ inputs) [] = panic
  read_tokens (input ∷ inputs) (output ∷ outputs) = do
    token ← unmarshal_batched_private_token cb (input ++ output)
    tokens ← read_tokens inputs outputs
    ok (token ∷ tokens)

  unfoldable pub finalize_tokens : RequestState → Bytes → Outcome (List Token)
  finalize_tokens s response = do
    (encoded, reader) ←
        or_err "invalid batch token response list encoding"
          (cb.read_uint16_length_prefixed response)
    guard (not (cb.is_empty encoded)) "invalid batch token response list encoding"
    guard (length encoded % o.element_length == 0) "invalid batch token response encoding"
    guard (length encoded / o.element_length == length s.token_inputs)
        "invalid batch token response"
    elements ←
        collect o.unmarshal_element
          (chunks o.element_length (length encoded / o.element_length) encoded)
    (proof_enc, _) ←
        or_err "invalid batch token response proof encoding" (cb.read_bytes o.proof_length reader)
    proof ← o.unmarshal_proof proof_enc
    outputs ← o.finalize s.client s.verifier elements proof
    read_tokens s.token_inputs outputs

  abbrev pub unauthenticated : Bytes → Bytes → Bytes → Token
  unauthenticated challenge token_key_id nonce = record {
    token_type = batched_private_token_type;
    nonce = nonce;
    context = sha256 challenge;
    key_id = token_key_id;
    authenticator = [];
  }

  -- What both constructors do with the blinded inputs.
  abbrev pub request_state :
      List Bytes → Bytes → o.PublicKey → o.FinalizeData × List o.Element → Outcome RequestState
  request_state token_inputs token_key_id key (finalize_data, elements) = do
    encoded_elements ← marshal_elements o (length token_inputs) elements
    last ← or_panic (last_byte token_key_id)
    ok (record {
      token_inputs = token_inputs;
      request = record { raw = none; token_key_id = last; blinded_req = encoded_elements };
      client = key;
      verification_key = key;
      verifier = finalize_data;
    })

  unfoldable pub token_input : Bytes → Bytes → Bytes → Outcome Bytes
  token_input challenge token_key_id nonce =
      or_panic (authenticator_input cb (unauthenticated challenge token_key_id nonce))

  unfoldable pub create_token_request :
      o.Random → Bytes → List Bytes → Bytes → o.PublicKey → Outcome RequestState
  create_token_request rnd challenge nonces token_key_id key = do
    token_inputs ← collect (token_input challenge token_key_id) nonces
    blinded ← o.blind key rnd token_inputs
    request_state token_inputs token_key_id key blinded

  -- The first loop of `CreateTokenRequestWithBlinds`: an input and a blind for each nonce.
  unfoldable pub inputs_and_blinds :
      Bytes → Bytes → List Bytes → List Bytes → Outcome (List Bytes × List o.Scalar)
  inputs_and_blinds challenge token_key_id [] encoded_blinds = ok ([], [])
  inputs_and_blinds challenge token_key_id (nonce ∷ nonces) [] = panic
  inputs_and_blinds challenge token_key_id (nonce ∷ nonces) (encoded ∷ encoded_blinds) = do
    input ← token_input challenge token_key_id nonce
    blind ← o.unmarshal_scalar encoded
    (inputs, blinds) ← inputs_and_blinds challenge token_key_id nonces encoded_blinds
    ok (input ∷ inputs, blind ∷ blinds)

  unfoldable pub create_token_request_with_blinds :
      Bytes → List Bytes → Bytes → o.PublicKey → List Bytes → Outcome RequestState
  create_token_request_with_blinds challenge nonces token_key_id key encoded_blinds = do
    (token_inputs, blinds) ← inputs_and_blinds challenge token_key_id nonces encoded_blinds
    blinded ← o.deterministic_blind key token_inputs blinds
    request_state token_inputs token_key_id key blinded
