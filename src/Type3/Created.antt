-- ===== src/Type3/Created.antt =====
-- What a request of a client of rate-limited tokens is made of.
use pat_go.Base.{
  after, or_panic-inv, ◌≡◌, ℕ, none, some, [], Bytes, get_elem?, slice_to, ok, or_panic,
  ok-injective, sym,
}
use pat_go.Wire.{Cryptobyte}
use pat_go.Ecdsa.{Ecdsa}
use pat_go.BlindRsa.{BlindRsa}
use pat_go.Hpke.{Hpke}
use pat_go.Type3.Request.{RateLimitedRequest}
use pat_go.Type3.EncapKey.{EncapKey}
use pat_go.Type3.Attester.{Digests, client_blind}
use pat_go.Type3.Response.{Response}
use pat_go.Tokens.{authenticator_input}
use pat_go.Type3.Encryption.{encrypt_origin_token_request}
use pat_go.Type3.Client.{RequestState, unauthenticated, sign_request, create_token_request}

-- The request before it is signed.
abbrev pub unsigned : Bytes → Bytes → Bytes → RateLimitedRequest
unsigned request_key name_key_id encrypted = record {
  raw = none;
  request_key = request_key;
  name_key_id = name_key_id;
  encrypted_token_request = encrypted;
  signature = [];
}

module _ (cb : Cryptobyte) (ec : Ecdsa) (dg : Digests) (h : Hpke) (b : BlindRsa) (rs : Response)
    (sha256 : Bytes → Bytes) (key : ec.PrivateKey) (ec_rnd : ec.Random) (b_rnd : b.Random)
    (h_rnd : h.Random) (challenge nonce blind_enc token_key_id origin_name : Bytes)
    (token_key : b.PublicKey) (name_key : EncapKey h) where
  -- The values that the client comes to on its way to the state `st`, and the calls that give them.
  pub record Created (st : RequestState cb ec dg h b rs sha256) : Type 0 where
    pub blind : ec.PrivateKey
    pub context : Bytes
    pub public : ec.PublicKey
    pub input : Bytes
    pub message : Bytes
    pub verifier : b.VerifierState
    pub id : ℕ
    pub name_key_id : Bytes
    pub encrypted : Bytes
    pub secret : Bytes
    pub signature : Bytes
    pub encap_enc : Bytes
    pub created : ec.create_key blind_enc ≡ ok blind
    pub contexts : client_blind cb ec dg ≡ ok context
    pub blinds : ec.blind_public_key_with_context (ec.public key) blind context ≡ ok public
    pub authenticated :
        authenticator_input cb (unauthenticated cb ec dg h b rs sha256 challenge nonce token_key_id)
        ≡ some input
    pub blinded : b.blind token_key b_rnd input ≡ ok (message, verifier)
    pub identified : get_elem? token_key_id 0 ≡ some id
    pub encrypts :
        encrypt_origin_token_request cb h sha256 h_rnd name_key id message
          (ec.marshal_compressed public)
          origin_name
        ≡ ok (name_key_id, encrypted, secret)
    pub signed :
        sign_request cb ec dg h b rs sha256 ec_rnd key blind context
          (unsigned (ec.marshal_compressed public) name_key_id encrypted)
        ≡ ok signature
    pub sliced : slice_to (h.public_key_size name_key.suite) encrypted ≡ some encap_enc
    pub is_state : st ≡ record {
      token_input = input;
      client_key = ec.marshal_compressed (ec.public key);
      request = record {
        raw = none;
        request_key = ec.marshal_compressed public;
        name_key_id = name_key_id;
        encrypted_token_request = encrypted;
        signature = signature;
      };
      encap_secret = secret;
      encap_enc = encap_enc;
      name_key = name_key;
      verification_key = token_key;
      verifier = verifier;
    }

  pub create_token_request-Created :
      (state : RequestState cb ec dg h b rs sha256)
      → create_token_request cb ec dg h b rs sha256 key ec_rnd b_rnd h_rnd challenge nonce blind_enc
          token_key_id token_key origin_name name_key
        ≡ ok state
      → Created state
  unfolding create_token_request
  create_token_request-Created state made =
      after (ec.create_key blind_enc) _
        (λ blind created. after (client_blind cb ec dg) _ (λ context contexts.
          after (ec.blind_public_key_with_context (ec.public key) blind context) _ (λ public blinds.
            after
              (or_panic (
                authenticator_input cb
                  (unauthenticated cb ec dg h b rs sha256 challenge nonce token_key_id)))
              _
              (λ input authenticated.
                after (b.blind token_key b_rnd input) _ (λ (message, verifier) blinded.
                  after (or_panic (get_elem? token_key_id 0)) _ (λ id identified.
                    after
                      (encrypt_origin_token_request cb h sha256 h_rnd name_key id message
                        (ec.marshal_compressed public) origin_name)
                      _
                      (λ (name_key_id, encrypted, secret) encrypts.
                        after
                          (sign_request cb ec dg h b rs sha256 ec_rnd key blind context
                            (unsigned (ec.marshal_compressed public) name_key_id encrypted))
                          _
                          (λ signature signed.
                            after (or_panic (slice_to (h.public_key_size name_key.suite) encrypted))
                              _
                              (λ encap_enc sliced st returned.
                                let made : Created st = record {
                                  blind = blind;
                                  context = context;
                                  public = public;
                                  input = input;
                                  message = message;
                                  verifier = verifier;
                                  id = id;
                                  name_key_id = name_key_id;
                                  encrypted = encrypted;
                                  secret = secret;
                                  signature = signature;
                                  encap_enc = encap_enc;
                                  created = created;
                                  contexts = contexts;
                                  blinds = blinds;
                                  authenticated = or_panic-inv authenticated;
                                  blinded = blinded;
                                  identified = or_panic-inv identified;
                                  encrypts = encrypts;
                                  signed = signed;
                                  sliced = or_panic-inv sliced;
                                  is_state = sym (ok-injective returned);
                                } in
                                made)))))))))
        state made
