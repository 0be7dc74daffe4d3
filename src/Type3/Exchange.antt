-- ===== src/Type3/Exchange.antt =====
-- The exchange of rate-limited tokens from end to end: client, wire, issuer, client.
use pat_go.Base.{
  ◌≡◌, ◌<◌, ℕ, true, some, Bytes, length, Outcome, ok, no_error-inv, arith, ap, sym, refl, ◌∙◌,
}
use mathlib.Core.Option.{some-injective}
use pat_go.Wire.{Cryptobyte}
use pat_go.Ecdsa.{Ecdsa}
use pat_go.BlindRsa.{BlindRsa}
use pat_go.Hpke.{Hpke}
use pat_go.Tokens.{Token}
use pat_go.Tokens.Layout.{HasShape, input_layout, authenticator_input_lem}
use pat_go.Type2.Issuance.{Verifies}
use pat_go.Type3.Request.{empty_limited, marshal, unmarshal}
use pat_go.Type3.EncapKey.{public}
use pat_go.Type3.Attester.{Digests}
use pat_go.Type3.Response.{Response}
use pat_go.Type3.Setup.{new_rate_limited_client_from_secret}
use pat_go.Type3.Issuer.{RateLimitedIssuer, max, evaluate}
use pat_go.Type3.Client.{
  RequestState, unauthenticated, create_token_request, open_response, finalize_token,
}
use pat_go.Type3.Arrival.{
  Assumptions, HasKeys, Asks, Made, request_of, arrived, blinded-Signed, recovered, decoded,
  checked,
}
use pat_go.Type3.Verification.{client_context}
use pat_go.Type3.Created.{create_token_request-Created}
use pat_go.Type3.Sent.{issuer_context, issuer_blind_lem}
use pat_go.Type3.Responding.{open-seal_response, finalize_token-opened, evaluate-granted}

module _ (cb : Cryptobyte) (ec : Ecdsa) (dg : Digests) (h : Hpke) (b : BlindRsa) (rs : Response)
    (sha256 : Bytes → Bytes) where
  -- The request `state.request` is written, the issuer answers it, and the client makes a token of the
  -- answer: `t` with a signature that verifies under the key of the issuer.
  abbrev pub Exchanges :
      RateLimitedIssuer cb ec dg h b rs sha256
      → (ℕ → Outcome Bytes)
      → RequestState cb ec dg h b rs sha256
      → Token
      → Type 0
  Exchanges i random state t =
      (out : Bytes) × (response : Bytes) × (key_out : Bytes) × (authenticator : Bytes) × (marshal cb
          state.request
        ≡ some (out, record state.request { raw = some out }))
      × (evaluate cb ec dg h b rs sha256 i random out ≡ ok (response, key_out))
      × (finalize_token cb ec dg h b rs sha256 state response
          ≡ ok (record t { authenticator = authenticator }))
      × Verifies cb b sha256 (b.public i.token_key) (record t { authenticator = authenticator })

  module _ (assume : Assumptions ec h b rs sha256) (i : RateLimitedIssuer cb ec dg h b rs sha256)
      (keys : HasKeys cb ec dg h b rs sha256 i) (random : ℕ → Outcome Bytes)
      (draws : (n : ℕ) → (xs : Bytes) × (random n ≡ ok xs) × (length xs ≡ n)) (key : ec.PrivateKey)
      (ec_rnd : ec.Random) (b_rnd : b.Random) (h_rnd : h.Random)
      (challenge nonce blind_enc token_key_id origin_name : Bytes) (index_key : ec.PrivateKey)
      (asks : Asks cb ec dg h b rs sha256 assume i nonce token_key_id origin_name index_key) where
    abbrev bare : Token
    bare = unauthenticated cb ec dg h b rs sha256 challenge nonce token_key_id

    bare-HasShape : HasShape 0 bare
    bare-HasShape = record {
      type_fits = omega arith;
      nonce_length = asks.lengths.nonce_length;
      context_length = assume.hash_length challenge;
      key_id_length = asks.lengths.key_id_length;
      authenticator_length = refl;
    }

    module _ (state : RequestState cb ec dg h b rs sha256)
        (m : Made cb ec dg h b rs sha256 assume i keys key ec_rnd b_rnd h_rnd challenge nonce
          blind_enc token_key_id origin_name index_key asks state) where
      input_is : m.input ≡ input_layout bare
      input_is =
          some-injective m.input (input_layout bare)
            (sym m.authenticated ∙ authenticator_input_lem cb bare bare-HasShape.type_fits)

      -- The issuer answers the request that has arrived, with a response that the client opens.
      answered :
          (out blind_signature : Bytes)
          → assume.ecdsa.IsPair key
          → ((blind : ec.PrivateKey)
              → ec.create_key blind_enc ≡ ok blind
              → assume.IsBlind blind client_context)
          → unmarshal cb empty_limited out ≡ (
            request_of cb ec dg h b rs sha256 assume i keys key ec_rnd b_rnd h_rnd challenge nonce
                blind_enc token_key_id origin_name index_key asks state m,
            true,
          )
          → b.blind_sign i.token_key m.message ≡ ok blind_signature
          → (response : Bytes) × (key_out : Bytes) × (evaluate cb ec dg h b rs sha256 i random out
              ≡ ok (response, key_out))
            × (open_response cb ec dg h b rs sha256 state response ≡ ok blind_signature)
      answered out blind_signature pair usable read signs =
          let (inner, decrypted, message_is, known) =
            recovered cb ec dg h b rs sha256 assume i keys key ec_rnd b_rnd h_rnd challenge nonce
              blind_enc token_key_id origin_name index_key asks state m in
          let (on_curve, decodes) =
            decoded cb ec dg h b rs sha256 assume i keys key ec_rnd b_rnd h_rnd challenge nonce
              blind_enc token_key_id origin_name index_key asks state pair usable m in
          let (drawn, draw, sized) = draws (max rs.key_size rs.nonce_size) in
          let (response, sealed, opens) =
            open-seal_response cb ec dg h b rs sha256 assume.response m.encap_enc m.secret drawn
              blind_signature sized in
          let (twice, blinds) =
            assume.ecdsa.blind_applies m.public index_key issuer_context on_curve
              asks.index_usable in
          (
            response,
            ec.marshal_compressed twice,
            evaluate-granted cb ec dg h b rs sha256 i random out
                (request_of cb ec dg h b rs sha256 assume i keys key ec_rnd b_rnd h_rnd challenge
                  nonce blind_enc token_key_id origin_name index_key asks state m)
                inner m.secret issuer_context blind_signature drawn m.encap_enc response index_key
                m.public twice read decrypted known decodes
                (checked cb ec dg h b rs sha256 assume i keys key ec_rnd b_rnd h_rnd challenge nonce
                  blind_enc token_key_id origin_name index_key asks state pair usable m)
                (issuer_blind_lem cb ec dg h b rs sha256 assume.ecdsa) blinds
                (ap (b.blind_sign i.token_key) message_is ∙ signs) draw m.sliced sealed,
            opens state (ap (λ st. st.encap_enc) m.is_state)
                (ap (λ st. st.encap_secret) m.is_state),
          )

      -- The client makes a token of a response that it opens.
      tokened :
          (response blind_signature authenticator : Bytes)
          → open_response cb ec dg h b rs sha256 state response ≡ ok blind_signature
          → length authenticator ≡ 256
          → b.finalize m.verifier blind_signature ≡ ok authenticator
          → b.verify_pss (b.public i.token_key) (b.sha384 (input_layout bare)) authenticator ≡ ok tt
          → finalize_token cb ec dg h b rs sha256 state response
            ≡ ok (record bare { authenticator = authenticator })
      tokened response blind_signature authenticator opened long finalized valid =
          finalize_token-opened cb ec dg h b rs sha256 state bare response blind_signature
            authenticator bare-HasShape long (ap (λ st. st.token_input) m.is_state ∙ input_is)
            opened (ap (λ st. b.finalize st.verifier blind_signature) m.is_state ∙ finalized)
            (ap
                (λ st.
                  b.verify_pss st.verification_key (b.sha384 (input_layout bare)) authenticator)
                m.is_state
              ∙ valid)

      Created-Exchanges :
          assume.ecdsa.IsPair key
          → ((blind : ec.PrivateKey)
              → ec.create_key blind_enc ≡ ok blind
              → assume.IsBlind blind client_context)
          → length state.request.encrypted_token_request < 65536
          → Exchanges i random state bare
      Created-Exchanges pair usable fits =
          let (out, written, read) =
            arrived cb ec dg h b rs sha256 assume i keys key ec_rnd b_rnd h_rnd challenge nonce
              blind_enc token_key_id origin_name index_key asks state pair usable m fits in
          let (signature, authenticator, _, signs, finalized, long, valid) =
            blinded-Signed cb ec dg h b rs sha256 assume i keys key ec_rnd b_rnd h_rnd challenge
              nonce blind_enc token_key_id origin_name index_key asks state m in
          let (response, key_out, granted, opened) =
            answered out signature pair usable read signs in
          let verifies =
            ap (λ x. b.verify_pss (b.public i.token_key) (b.sha384 x) authenticator) (sym input_is)
            ∙ valid in
          (
            out,
            response,
            key_out,
            authenticator,
            written,
            granted,
            tokened response signature authenticator opened (long ∙ keys.token_key_length) finalized
                verifies,
            (
              input_layout bare,
              authenticator_input_lem cb (record bare { authenticator = authenticator })
                  bare-HasShape.type_fits,
              verifies,
            ),
          )

    -- The exchange of rate-limited tokens: for an issuer whose name key is a pair, whose token key
    -- has 256 bytes and that knows the origin with a key that does not hash to zero, every request
    -- that a client makes from its secret, with a nonce and a key identifier of 32 bytes, is
    -- written, the issuer answers the bytes, and the client makes of the answer a token over its
    -- nonce, challenge and key identifier whose signature verifies under the key of the issuer,
    -- given the laws of the libraries, a secret whose number is not a multiple of the order, a
    -- blind that does not hash to zero, hashes of 32 bytes, points of 49 bytes but for the one at
    -- infinity, and an encrypted request that fits its length field.
    pub create_token_request-Exchanges :
        (secret : Bytes) (state : RequestState cb ec dg h b rs sha256)
        → new_rate_limited_client_from_secret cb ec dg h b rs sha256 secret ≡ ok key
        → assume.IsSecret secret
        → ((blind : ec.PrivateKey)
            → ec.create_key blind_enc ≡ ok blind
            → assume.IsBlind blind client_context)
        → create_token_request cb ec dg h b rs sha256 key ec_rnd b_rnd h_rnd challenge nonce
            blind_enc token_key_id
            (b.public i.token_key)
            origin_name
            (public h i.name_key)
          ≡ ok state
        → length state.request.encrypted_token_request < 65536
        → Exchanges i random state bare
    create_token_request-Exchanges secret state from_secret is_secret usable made fits =
        Created-Exchanges state
          (create_token_request-Created cb ec dg h b rs sha256 key ec_rnd b_rnd h_rnd challenge
            nonce blind_enc token_key_id origin_name (b.public i.token_key) (public h i.name_key)
            state made)
          (assume.ecdsa.create_key-IsPair secret key is_secret (no_error-inv _ from_secret)) usable
          fits
