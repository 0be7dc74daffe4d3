-- ===== src/Type3/Honest.antt =====
-- The attester lets in a client that follows the protocol.
use pat_go.Base.{
  no_error-inv, or_panic-inv, ◌≡◌, ◌++◌, Bytes, ok, or_panic, >>=-eq-ok, ok-injective, ap, ap₂, sym,
  subst, refl, ◌∙◌,
}
use pat_go.Wire.{Cryptobyte}
use pat_go.Ecdsa.{Ecdsa, EcdsaLaws, fill_bytes}
use pat_go.BlindRsa.{BlindRsa}
use pat_go.Hpke.{Hpke}
use pat_go.Type3.Request.{RateLimitedRequest, add_signed}
use pat_go.Type3.EncapKey.{EncapKey}
use pat_go.Type3.Clients.{ClientStateCache}
use pat_go.Type3.Attester.{Digests, client_blind, register, verify_request}
use pat_go.Type3.Response.{Response}
use pat_go.Type3.Setup.{new_rate_limited_client_from_secret}
use pat_go.Type3.Client.{RequestState, sign_request, create_token_request}
use pat_go.Type3.Created.{unsigned, create_token_request-Created}
use pat_go.Ecdsa.Big.{fill_bytes-inv}
use pat_go.Type3.Verification.{
  client_context, client_blind_lem, Halves, inner_verify_request-signed, decoded_public,
  verify_request-admitted, blinded_key-made,
}

module _ (cb : Cryptobyte) (ec : Ecdsa) (dg : Digests) (h : Hpke) (b : BlindRsa) (rs : Response)
    (sha256 : Bytes → Bytes) {IsSecret : Bytes → Type 0} {IsBlind : ec.PrivateKey → Bytes → Type 0}
    (laws : EcdsaLaws ec IsSecret IsBlind) where
  pub sign_request-inv :
      (rnd : ec.Random) (key blind : ec.PrivateKey) (ctx signature : Bytes)
      (request : RateLimitedRequest)
      → sign_request cb ec dg h b rs sha256 rnd key blind ctx request ≡ ok signature
      → Halves cb ec dg laws rnd key blind ctx request signature
  unfolding sign_request
  sign_request-inv rnd key blind ctx signature request signed =
      let (message, written, s1) =
        >>=-eq-ok (or_panic (cb.bytes_or_panic (add_signed cb request))) _ signed in
      let ((r, s), signs, s2) =
        >>=-eq-ok (ec.blind_key_sign_with_context rnd key blind (dg.sha384 message) ctx) _ s1 in
      let (r_enc, filled, s3) = >>=-eq-ok (fill_bytes 48 r) _ s2 in
      let (s_enc, filled', s4) = >>=-eq-ok (fill_bytes 48 s) _ s3 in
      let halves =
        ap₂ (λ x y. x ++ y) (fill_bytes-inv 48 r filled).0 (fill_bytes-inv 48 s filled').0 in
      (message, (r, (s, (or_panic-inv written, (signs, halves ∙ ok-injective s4)))))

  admitted_signed :
      (cs : ClientStateCache) (c : cs.Cache) (key blind : ec.PrivateKey) (rnd : ec.Random)
      (blind_enc ctx signature : Bytes) (request : RateLimitedRequest) (public : ec.PublicKey)
      → laws.IsPair key
      → IsBlind blind ctx
      → ec.create_key blind_enc ≡ ok blind
      → client_blind cb ec dg ≡ ok ctx
      → ec.blind_public_key_with_context (ec.public key) blind ctx ≡ ok public
      → request.request_key ≡ ec.marshal_compressed public
      → sign_request cb ec dg h b rs sha256 rnd key blind ctx request ≡ ok signature
      → verify_request cb ec dg cs c
          (record request { signature = signature })
          blind_enc
          (ec.marshal_compressed (ec.public key))
        ≡ (ok tt, register cb ec dg cs c (dg.hex (ec.marshal_compressed (ec.public key))))
  admitted_signed cs c key blind rnd blind_enc ctx signature request public pair usable created
        context blinds is_key signed =
      verify_request-admitted cb ec dg laws cs c (record request { signature = signature })
        blind_enc (ec.marshal_compressed (ec.public key)) (ec.public key) blind
        (inner_verify_request-signed cb ec dg laws rnd key blind ctx signature request public pair
          usable blinds is_key (sign_request-inv rnd key blind ctx signature request signed))
        (decoded_public cb ec dg laws (ec.marshal_compressed (ec.public key)) (ec.public key)
          (laws.compressed (ec.public key) (laws.public-IsPublic key pair)))
        created
        (blinded_key-made cb ec dg laws (ec.public key) public blind ctx context blinds
          ∙ ap ok (sym is_key))

  -- A client that follows the protocol is let in: whatever request a client made from its secret makes,
  -- the attester, given the request, the blind that the client chose and the client's public key, finds it
  -- valid, and knows the client from then on, given the laws of the
  -- package ecdsa, a secret that is not a multiple of the order, and a blind that can be used.
  pub verify_request-create_token_request :
      (cs : ClientStateCache) (c : cs.Cache) (key : ec.PrivateKey) (ec_rnd : ec.Random)
      (b_rnd : b.Random) (h_rnd : h.Random)
      (secret challenge nonce blind_enc token_key_id origin_name : Bytes) (token_key : b.PublicKey)
      (name_key : EncapKey h) (state : RequestState cb ec dg h b rs sha256)
      → new_rate_limited_client_from_secret cb ec dg h b rs sha256 secret ≡ ok key
      → IsSecret secret
      → ((blind : ec.PrivateKey)
          → ec.create_key blind_enc ≡ ok blind
          → IsBlind blind client_context)
      → create_token_request cb ec dg h b rs sha256 key ec_rnd b_rnd h_rnd challenge nonce blind_enc
          token_key_id token_key origin_name name_key
        ≡ ok state
      → verify_request cb ec dg cs c state.request blind_enc state.client_key
        ≡ (ok tt, register cb ec dg cs c (dg.hex state.client_key))
  verify_request-create_token_request cs c key ec_rnd b_rnd h_rnd secret challenge nonce blind_enc
        token_key_id origin_name token_key name_key state from_secret is_secret usable made =
      let m =
        create_token_request-Created cb ec dg h b rs sha256 key ec_rnd b_rnd h_rnd challenge nonce
          blind_enc token_key_id origin_name token_key name_key state made in
      subst
        (λ st.
          verify_request cb ec dg cs c st.request blind_enc st.client_key
          ≡ (ok tt, register cb ec dg cs c (dg.hex st.client_key)))
        (sym m.is_state)
        (admitted_signed cs c key m.blind ec_rnd blind_enc m.context m.signature
          (unsigned (ec.marshal_compressed m.public) m.name_key_id m.encrypted) m.public
          (laws.create_key-IsPair secret key is_secret (no_error-inv _ from_secret))
          (subst (IsBlind m.blind) (ok-injective (sym (client_blind_lem cb ec dg) ∙ m.contexts))
            (usable m.blind m.created))
          m.created m.contexts m.blinds refl m.signed)
