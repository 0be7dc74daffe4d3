-- ===== src/Type3/Client.antt =====
-- tokens/type3/client.go: the client, which is its secret key. Randomness is an argument.
use pat_go.Base.{
  none, [], ◌++◌, Bytes, drop, get_elem?, slice_to, Outcome, ok, ◌>>=◌, ◌>>◌, or_panic,
}
use pat_go.Base.Strings.{codes}
use pat_go.Wire.{Cryptobyte}
use pat_go.Ecdsa.{Ecdsa, fill_bytes}
use pat_go.BlindRsa.{BlindRsa}
use pat_go.Hpke.{Hpke}
use pat_go.Tokens.{Token, authenticator_input}
use pat_go.Type3.{rate_limited_token_type, unmarshal_rate_limited_token}
use pat_go.Type3.Request.{RateLimitedRequest, add_signed}
use pat_go.Type3.EncapKey.{EncapKey}
use pat_go.Type3.Encryption.{encrypt_origin_token_request}
use pat_go.Type3.Attester.{Digests, client_blind}
use pat_go.Type3.Response.{Response}
use pat_go.Type3.Issuer.{max}

module _ (cb : Cryptobyte) (ec : Ecdsa) (dg : Digests) (h : Hpke) (b : BlindRsa) (rs : Response)
    (sha256 : Bytes → Bytes) where
  -- `blindedRequestKey`, which nothing sets, is left out.
  pub record RequestState : Type 0 where
    pub token_input : Bytes
    pub client_key : Bytes
    pub request : RateLimitedRequest
    pub encap_secret : Bytes
    pub encap_enc : Bytes
    pub name_key : EncapKey h
    pub verification_key : b.PublicKey
    pub verifier : b.VerifierState

  -- The first steps of `FinalizeToken`: the blind signature out of the encrypted response.
  unfoldable pub open_response : RequestState → Bytes → Outcome Bytes
  open_response s encrypted = do
    let n = max rs.key_size rs.nonce_size
    response_nonce ← or_panic (slice_to n encrypted)
    let prk = rs.extract (s.encap_enc ++ response_nonce) s.encap_secret
    cipher ← rs.new_cipher (rs.expand prk (codes "key") rs.key_size)
    rs.open_ cipher (rs.expand prk (codes "nonce") rs.nonce_size) (drop n encrypted)

  unfoldable pub finalize_token : RequestState → Bytes → Outcome Token
  finalize_token s encrypted = do
    blind_signature ← open_response s encrypted
    signature ← b.finalize s.verifier blind_signature
    token ← unmarshal_rate_limited_token cb (s.token_input ++ signature)
    input ← or_panic (authenticator_input cb token)
    b.verify_pss s.verification_key (b.sha384 input) token.authenticator
    ok token

  abbrev pub unauthenticated : Bytes → Bytes → Bytes → Token
  unauthenticated challenge nonce token_key_id = record {
    token_type = rate_limited_token_type;
    nonce = nonce;
    context = sha256 challenge;
    key_id = token_key_id;
    authenticator = [];
  }

  -- The signature of a request, under the blinded key: r and s in 48 bytes each.
  unfoldable pub sign_request :
      ec.Random → ec.PrivateKey → ec.PrivateKey → Bytes → RateLimitedRequest → Outcome Bytes
  sign_request rnd secret_key blind_key ctx request = do
    message ← or_panic (cb.bytes_or_panic (add_signed cb request))
    (r, s) ← ec.blind_key_sign_with_context rnd secret_key blind_key (dg.sha384 message) ctx
    r_enc ← fill_bytes 48 r
    s_enc ← fill_bytes 48 s
    ok (r_enc ++ s_enc)

  -- The key identifier of the inner request is the first byte of the token key's.
  unfoldable pub create_token_request :
      ec.PrivateKey
      → ec.Random
      → b.Random
      → h.Random
      → Bytes
      → Bytes
      → Bytes
      → Bytes
      → b.PublicKey
      → Bytes
      → EncapKey h
      → Outcome RequestState
  create_token_request secret_key ec_rnd b_rnd h_rnd challenge nonce blind_key_enc token_key_id
        token_key origin_name name_key =
      do
        blind_key ← ec.create_key blind_key_enc
        ctx ← client_blind cb ec dg
        blinded ← ec.blind_public_key_with_context (ec.public secret_key) blind_key ctx
        let request_key = ec.marshal_compressed blinded
        token_input ←
            or_panic (authenticator_input cb (unauthenticated challenge nonce token_key_id))
        (blinded_message, verifier) ← b.blind token_key b_rnd token_input
        id ← or_panic (get_elem? token_key_id 0)
        (name_key_id, encrypted, secret) ←
            encrypt_origin_token_request cb h sha256 h_rnd name_key id blinded_message request_key
              origin_name
        let unsigned : RateLimitedRequest = record {
          raw = none;
          request_key = request_key;
          name_key_id = name_key_id;
          encrypted_token_request = encrypted;
          signature = [];
        }
        signature ← sign_request ec_rnd secret_key blind_key ctx unsigned
        encap_enc ← or_panic (slice_to (h.public_key_size name_key.suite) encrypted)
        ok (record {
          token_input = token_input;
          client_key = ec.marshal_compressed (ec.public secret_key);
          request = record unsigned { signature = signature };
          encap_secret = secret;
          encap_enc = encap_enc;
          name_key = name_key;
          verification_key = token_key;
          verifier = verifier;
        })
