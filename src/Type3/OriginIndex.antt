-- ===== src/Type3/OriginIndex.antt =====
-- The anonymous identifier of an origin: what the attester computes from the issuer's answer.
use pat_go.Base.{
  ◌≡◌, ◌<◌, ℕ, true, some, Bytes, length, Outcome, ok, ◌>>=◌, no_error-inv, ap, sym, ◌∙◌,
}
use mathlib.Core.Option.{some-injective}
use pat_go.Wire.{Cryptobyte}
use pat_go.Ecdsa.{Ecdsa}
use pat_go.BlindRsa.{BlindRsa}
use pat_go.Hpke.{Hpke}
use pat_go.Type3.Request.{RateLimitedRequest, empty_limited, marshal, unmarshal}
use pat_go.Type3.EncapKey.{public}
use pat_go.Type3.Attester.{Digests, compute_index, index_of}
use pat_go.Type3.Response.{Response}
use pat_go.Type3.Setup.{new_rate_limited_client_from_secret}
use pat_go.Type3.Issuer.{RateLimitedIssuer, evaluate}
use pat_go.Type3.Client.{RequestState, create_token_request}
use pat_go.Type3.Created.{create_token_request-Created}
use pat_go.Type3.Verification.{decoded_public}
use pat_go.Type3.Arrival.{Assumptions, HasKeys, Asks, Made, request_of, arrived}
use pat_go.Type3.Verification.{client_context}
use pat_go.Type3.AnonymousId.{anonymous_id, index_of-unblinded, returned_key, unblinded_key}

module _ (cb : Cryptobyte) (ec : Ecdsa) (dg : Digests) (h : Hpke) (b : BlindRsa) (rs : Response)
    (sha256 : Bytes → Bytes) (assume : Assumptions ec h b rs sha256)
    (i : RateLimitedIssuer cb ec dg h b rs sha256) (keys : HasKeys cb ec dg h b rs sha256 i)
    (random : ℕ → Outcome Bytes) (key : ec.PrivateKey) (ec_rnd : ec.Random) (b_rnd : b.Random)
    (h_rnd : h.Random) (challenge nonce blind_enc token_key_id origin_name : Bytes)
    (index_key : ec.PrivateKey)
    (asks : Asks cb ec dg h b rs sha256 assume i nonce token_key_id origin_name index_key)
    (state : RequestState cb ec dg h b rs sha256) where
  Made-anonymous_id :
      (m : Made cb ec dg h b rs sha256 assume i keys key ec_rnd b_rnd h_rnd challenge nonce
        blind_enc token_key_id origin_name index_key asks state)
      (out response key_out : Bytes)
      → assume.ecdsa.IsPair key
      → ((blind : ec.PrivateKey)
          → ec.create_key blind_enc ≡ ok blind
          → assume.IsBlind blind client_context)
      → unmarshal cb empty_limited out ≡ (
        request_of cb ec dg h b rs sha256 assume i keys key ec_rnd b_rnd h_rnd challenge nonce
            blind_enc token_key_id origin_name index_key asks state m,
        true,
      )
      → evaluate cb ec dg h b rs sha256 i random out ≡ ok (response, key_out)
      → index_of cb ec dg state.client_key blind_enc key_out
        ≡ anonymous_id cb ec dg (ec.public key) index_key
  Made-anonymous_id m out response key_out pair usable read granted =
      let (blinded, blinds, key_is) =
        returned_key cb ec dg h b rs sha256 assume i keys random key ec_rnd b_rnd h_rnd challenge
          nonce blind_enc token_key_id origin_name index_key asks state m out response key_out pair
          usable read granted in
      let (on_curve, (client_blinded, applies, undone)) =
        unblinded_key cb ec dg h b rs sha256 assume i keys random key ec_rnd b_rnd h_rnd challenge
          nonce blind_enc token_key_id origin_name index_key asks state m blinded pair usable
          blinds in
      let index_is =
        index_of-unblinded cb ec dg state.client_key blind_enc (ec.marshal_compressed blinded)
          blinded client_blinded m.blind
          (decoded_public cb ec dg assume.ecdsa (ec.marshal_compressed blinded) blinded
            (assume.ecdsa.compressed blinded on_curve))
          m.created undone in
      ap (index_of cb ec dg state.client_key blind_enc) key_is
      ∙ index_is
      ∙ ap (λ st. compute_index cb ec dg st.client_key (ec.marshal_compressed client_blinded))
          m.is_state
      ∙ ap
          (λ o. o >>= λ p.
            compute_index cb ec dg (ec.marshal_compressed (ec.public key))
              (ec.marshal_compressed p))
          (sym applies)

  -- What the attester computes from the key that the issuer returns for an honest client's request
  -- is the identifier that is made of the client's public key and the issuer's key for the origin:
  -- it does not depend on the blind, the nonce, the challenge or the randomness of the request;
  -- given the laws of the libraries, an issuer and an origin as in the exchange, a secret whose
  -- number is not a multiple of the order, a blind that does not hash to zero.
  pub index_of-evaluate :
      (secret out response key_out : Bytes) (written : RateLimitedRequest)
      → new_rate_limited_client_from_secret cb ec dg h b rs sha256 secret ≡ ok key
      → assume.IsSecret secret
      → create_token_request cb ec dg h b rs sha256 key ec_rnd b_rnd h_rnd challenge nonce blind_enc
          token_key_id
          (b.public i.token_key)
          origin_name
          (public h i.name_key)
        ≡ ok state
      → length state.request.encrypted_token_request < 65536
      → ((blind : ec.PrivateKey)
          → ec.create_key blind_enc ≡ ok blind
          → assume.IsBlind blind client_context)
      → marshal cb state.request ≡ some (out, written)
      → evaluate cb ec dg h b rs sha256 i random out ≡ ok (response, key_out)
      → index_of cb ec dg state.client_key blind_enc key_out
        ≡ anonymous_id cb ec dg (ec.public key) index_key
  index_of-evaluate secret out response key_out written from_secret is_secret made fits usable
        marshals granted =
      let m =
        create_token_request-Created cb ec dg h b rs sha256 key ec_rnd b_rnd h_rnd challenge nonce
          blind_enc token_key_id origin_name (b.public i.token_key) (public h i.name_key) state
          made in
      let pair = assume.ecdsa.create_key-IsPair secret key is_secret (no_error-inv _ from_secret) in
      let (out', marshals', read) =
        arrived cb ec dg h b rs sha256 assume i keys key ec_rnd b_rnd h_rnd challenge nonce
          blind_enc token_key_id origin_name index_key asks state pair usable m fits in
      let same_out : out' ≡ out =
        ap (λ p. p.0) (some-injective (out', _) (out, written) (sym marshals' ∙ marshals)) in
      Made-anonymous_id m out response key_out pair usable
        (ap (unmarshal cb empty_limited) (sym same_out) ∙ read) granted
