-- ===== src/Type2/Client.antt =====
-- tokens/type2/client.go, and `Evaluate` of tokens/type2/issuer.go.
use pat_go.Base.{none, [], ◌++◌, Bytes, Outcome, ok, ◌>>=◌, ◌>>◌, or_panic, last_byte}
use pat_go.Wire.{Cryptobyte}
use pat_go.BlindRsa.{BlindRsa}
use pat_go.Tokens.{Token, authenticator_input}
use pat_go.Basic.{TokenRequest}
use pat_go.Type2.{basic_public_token_type, unmarshal_public_token}

module _ (cb : Cryptobyte) (b : BlindRsa) (sha256 : Bytes → Bytes) where
  pub record RequestState : Type 0 where
    pub token_input : Bytes
    pub request : TokenRequest
    pub verification_key : b.PublicKey
    pub verifier : b.VerifierState

  -- The signature is finalized, and the token that it makes is verified before it is returned.
  unfoldable pub finalize_token : RequestState → Bytes → Outcome Token
  finalize_token s blind_signature = do
    signature ← b.finalize s.verifier blind_signature
    token ← unmarshal_public_token cb (s.token_input ++ signature)
    input ← or_panic (authenticator_input cb token)
    b.verify_pss s.verification_key (b.sha384 input) token.authenticator
    ok token

  abbrev pub unauthenticated : Bytes → Bytes → Bytes → Token
  unauthenticated challenge nonce token_key_id = record {
    token_type = basic_public_token_type;
    nonce = nonce;
    context = sha256 challenge;
    key_id = token_key_id;
    authenticator = [];
  }

  -- What both constructors do with the blinded message.
  abbrev pub request_state :
      Bytes → Bytes → b.PublicKey → Bytes × b.VerifierState → Outcome RequestState
  request_state token_input token_key_id key (blinded_message, state) = do
    last ← or_panic (last_byte token_key_id)
    ok (record {
      token_input = token_input;
      request = record { raw = none; token_key_id = last; blinded_req = blinded_message };
      verification_key = key;
      verifier = state;
    })

  unfoldable pub create_token_request :
      b.Random → Bytes → Bytes → Bytes → b.PublicKey → Outcome RequestState
  create_token_request rnd challenge nonce token_key_id key = do
    token_input ← or_panic (authenticator_input cb (unauthenticated challenge nonce token_key_id))
    blinded ← b.blind key rnd token_input
    request_state token_input token_key_id key blinded

  unfoldable pub create_token_request_with_blind :
      Bytes → Bytes → Bytes → b.PublicKey → Bytes → Bytes → Outcome RequestState
  create_token_request_with_blind challenge nonce token_key_id key blind salt = do
    token_input ← or_panic (authenticator_input cb (unauthenticated challenge nonce token_key_id))
    blinded ← b.fixed_blind key token_input blind salt
    request_state token_input token_key_id key blinded

  -- `BasicPublicIssuer.Evaluate`
  unfoldable pub evaluate : b.PrivateKey → TokenRequest → Outcome Bytes
  evaluate key req = b.blind_sign key req.blinded_req
