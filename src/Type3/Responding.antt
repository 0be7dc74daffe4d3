-- ===== src/Type3/Responding.antt =====
-- The response of the issuer of rate-limited tokens, and what the client makes of it.
use pat_go.Base.{
  ◌≡◌, true, some, ◌++◌, Bytes, length, drop, drop-append, slice_to, slice_to-append, ok, ap, sym,
  ◌∙◌, ℕ, Outcome,
}
use pat_go.Base.Strings.{codes}
use pat_go.Wire.{Cryptobyte}
use pat_go.Ecdsa.{Ecdsa}
use pat_go.BlindRsa.{BlindRsa}
use pat_go.Hpke.{Hpke}
use pat_go.Tokens.{Token}
use pat_go.Tokens.Layout.{
  HasShape, input_layout, authenticator_input_lem, unmarshal_token-input_layout,
}
use pat_go.Type3.{unmarshal_rate_limited_token}
use pat_go.Type3.Request.{RateLimitedRequest, empty_limited, unmarshal}
use pat_go.Type3.Inner.{InnerRequest}
use pat_go.Type3.Padding.{unpad_origin_name}
use pat_go.Type3.Encryption.{decrypt_origin_token_request}
use pat_go.Type3.Attester.{Digests, unmarshal_public_key}
use pat_go.Type3.Response.{Response, ResponseLaws}
use pat_go.Type3.Issuer.{
  RateLimitedIssuer, origin_index_key, check_signature, issuer_blind, seal_response, max, respond,
  answer, evaluate,
}
use pat_go.Type3.Client.{RequestState, open_response, finalize_token}

module _ (cb : Cryptobyte) (ec : Ecdsa) (dg : Digests) (h : Hpke) (b : BlindRsa) (rs : Response)
    (sha256 : Bytes → Bytes) where
  -- A response that is sealed for the client's secret is opened by the client.
  pub open-seal_response :
      (laws : ResponseLaws rs) (enc secret nonce blind_signature : Bytes)
      → length nonce ≡ max rs.key_size rs.nonce_size
      → (response : Bytes) × (seal_response cb ec dg h b rs sha256 enc secret nonce blind_signature
          ≡ ok response)
        × ((state : RequestState cb ec dg h b rs sha256)
            → state.encap_enc ≡ enc
            → state.encap_secret ≡ secret
            → open_response cb ec dg h b rs sha256 state response ≡ ok blind_signature)
  unfolding seal_response open_response
  open-seal_response laws enc secret nonce blind_signature sized =
      let prk = rs.extract (enc ++ nonce) secret in
      let (cipher, keyed) = laws.new_cipher_expand prk (codes "key") in
      let sealed = rs.seal cipher (rs.expand prk (codes "nonce") rs.nonce_size) blind_signature in
      (
        nonce ++ sealed,
        simp (keyed, seal_response),
        λ state same_enc same_secret. simp (
          same_enc,
          same_secret,
          slice_to-append (max rs.key_size rs.nonce_size) nonce sealed sized,
          keyed,
          ap (λ n. drop n (nonce ++ sealed)) (sym sized) ∙ drop-append nonce sealed,
          laws.open_seal cipher (rs.expand prk (codes "nonce") rs.nonce_size) blind_signature,
          open_response,
        ),
      )

  -- The end of `finalize_token`, for a response that the client opens and a signature that verifies.
  pub finalize_token-opened :
      (state : RequestState cb ec dg h b rs sha256) (t : Token)
      (response blind_signature signature : Bytes)
      → HasShape 0 t
      → length signature ≡ 256
      → state.token_input ≡ input_layout t
      → open_response cb ec dg h b rs sha256 state response ≡ ok blind_signature
      → b.finalize state.verifier blind_signature ≡ ok signature
      → b.verify_pss state.verification_key (b.sha384 (input_layout t)) signature ≡ ok tt
      → finalize_token cb ec dg h b rs sha256 state response
        ≡ ok (record t { authenticator = signature })
  unfolding finalize_token unmarshal_rate_limited_token
  finalize_token-opened state t response blind_signature signature shape sized input opened
        finalized valid =
      simp (
        opened,
        finalized,
        input,
        unmarshal_token-input_layout cb 256 t signature shape sized,
        authenticator_input_lem cb (record t { authenticator = signature }) shape.type_fits,
        valid,
        finalize_token,
      )

  module _ (i : RateLimitedIssuer cb ec dg h b rs sha256) (random : ℕ → Outcome Bytes) where
    respond_lem :
        (req : RateLimitedRequest) (msg secret blind_signature nonce enc response : Bytes)
        (blinded : ec.PublicKey)
        → b.blind_sign i.token_key msg ≡ ok blind_signature
        → random (max rs.key_size rs.nonce_size) ≡ ok nonce
        → slice_to (h.public_key_size i.name_key.suite) req.encrypted_token_request ≡ some enc
        → seal_response cb ec dg h b rs sha256 enc secret nonce blind_signature ≡ ok response
        → respond cb ec dg h b rs sha256 i random req msg secret blinded
          ≡ ok (response, ec.marshal_compressed blinded)
    unfolding respond
    respond_lem req msg secret blind_signature nonce enc response blinded signs drawn sliced
          sealed =
        simp (signs, drawn, sliced, sealed, respond)

    -- `Evaluate` answers a request that it can read and decrypt, for an origin that it knows, with a
    -- signature that verifies.
    pub evaluate-granted :
        (encoded : Bytes) (req : RateLimitedRequest) (inner : InnerRequest)
        (secret ctx blind_signature nonce enc response : Bytes) (index_key : ec.PrivateKey)
        (request_key blinded : ec.PublicKey)
        → unmarshal cb empty_limited encoded ≡ (req, true)
        → decrypt_origin_token_request cb h sha256 i.name_key req.request_key
            req.encrypted_token_request
          ≡ ok (inner, secret)
        → origin_index_key cb ec dg h b rs sha256 i (unpad_origin_name inner.padded_origin)
          ≡ some index_key
        → unmarshal_public_key cb ec dg req.request_key ≡ ok request_key
        → check_signature cb ec dg h b rs sha256 req request_key ≡ ok tt
        → issuer_blind cb ec dg h b rs sha256 ≡ ok ctx
        → ec.blind_public_key_with_context request_key index_key ctx ≡ ok blinded
        → b.blind_sign i.token_key inner.blinded_msg ≡ ok blind_signature
        → random (max rs.key_size rs.nonce_size) ≡ ok nonce
        → slice_to (h.public_key_size i.name_key.suite) req.encrypted_token_request ≡ some enc
        → seal_response cb ec dg h b rs sha256 enc secret nonce blind_signature ≡ ok response
        → evaluate cb ec dg h b rs sha256 i random encoded
          ≡ ok (response, ec.marshal_compressed blinded)
    unfolding evaluate answer
    evaluate-granted encoded req inner secret ctx blind_signature nonce enc response index_key
          request_key blinded read decrypted known decoded checked context blinds signs drawn sliced
          sealed =
        simp (
          read,
          decrypted,
          known,
          decoded,
          checked,
          context,
          blinds,
          respond_lem req inner.blinded_msg secret blind_signature nonce enc response blinded signs
              drawn sliced sealed,
          evaluate,
          answer,
        )
