-- ===== src/Type3/AnonymousId.antt =====
-- The key that an issuer of rate-limited tokens returns for an honest client's request, and what is
-- left of it when the client's blind is taken off.
use pat_go.Base.{◌≡◌, ℕ, true, Bytes, Outcome, ok, ◌>>=◌, ok-injective, ap, sym, ◌∙◌}
use mathlib.Core.Option.{some-injective}
use pat_go.Wire.{Cryptobyte}
use pat_go.Ecdsa.{Ecdsa}
use pat_go.BlindRsa.{BlindRsa}
use pat_go.Hpke.{Hpke}
use pat_go.Type3.Request.{empty_limited, unmarshal}
use pat_go.Type3.Inner.{InnerRequest}
use pat_go.Type3.Attester.{Digests, unmarshal_public_key, compute_index, index_of}
use pat_go.Type3.Response.{Response}
use pat_go.Type3.Padding.{unpad_origin_name}
use pat_go.Type3.Encryption.{decrypt_origin_token_request}
use pat_go.Type3.Issuer.{RateLimitedIssuer, origin_index_key, evaluate}
use pat_go.Type3.Client.{RequestState}
use pat_go.Type3.Grants.{evaluate-Grants}
use pat_go.Type3.Sent.{issuer_context, issuer_blind_lem}
use pat_go.Type3.Verification.{client_context, client_blind_lem}
use pat_go.Type3.Arrival.{Assumptions, HasKeys, Asks, Made, request_of, recovered, decoded}

module _ (cb : Cryptobyte) (ec : Ecdsa) (dg : Digests) where
  -- What the identifier should be: it depends on the client's public key and the key of the origin.
  abbrev pub anonymous_id : ec.PublicKey → ec.PrivateKey → Outcome Bytes
  anonymous_id client index_key = do
    blinded ← ec.blind_public_key_with_context client index_key issuer_context
    compute_index cb ec dg (ec.marshal_compressed client) (ec.marshal_compressed blinded)

  pub index_of-unblinded :
      (client_key blind_enc key_out : Bytes) (blinded unblinded : ec.PublicKey)
      (blind : ec.PrivateKey)
      → unmarshal_public_key cb ec dg key_out ≡ ok blinded
      → ec.create_key blind_enc ≡ ok blind
      → ec.unblind_public_key_with_context blinded blind client_context ≡ ok unblinded
      → index_of cb ec dg client_key blind_enc key_out
        ≡ compute_index cb ec dg client_key (ec.marshal_compressed unblinded)
  unfolding index_of
  index_of-unblinded client_key blind_enc key_out blinded unblinded blind decodes created undone =
      simp (decodes, created, client_blind_lem, undone, index_of)

module _ (cb : Cryptobyte) (ec : Ecdsa) (dg : Digests) (h : Hpke) (b : BlindRsa) (rs : Response)
    (sha256 : Bytes → Bytes) (assume : Assumptions ec h b rs sha256)
    (i : RateLimitedIssuer cb ec dg h b rs sha256) (keys : HasKeys cb ec dg h b rs sha256 i)
    (random : ℕ → Outcome Bytes) (key : ec.PrivateKey) (ec_rnd : ec.Random) (b_rnd : b.Random)
    (h_rnd : h.Random) (challenge nonce blind_enc token_key_id origin_name : Bytes)
    (index_key : ec.PrivateKey)
    (asks : Asks cb ec dg h b rs sha256 assume i nonce token_key_id origin_name index_key)
    (state : RequestState cb ec dg h b rs sha256) where
  -- The key that the issuer returns is the key of the request, blinded with the key of the origin.
  pub returned_key :
      (m : Made cb ec dg h b rs sha256 assume i keys key ec_rnd b_rnd h_rnd challenge nonce
        blind_enc token_key_id origin_name index_key asks state)
      (out response key_out : Bytes)
      → assume.ecdsa.IsPair key
      → ((blind : ec.PrivateKey)
          → ec.create_key blind_enc ≡ ok blind
          → assume.IsBlind blind client_context)
      → unmarshal cb empty_limited out ≡ (
        request_of cb ec dg h b rs sha256 assume i keys key ec_rnd b_rnd h_rnd challenge nonce
            blind_enc token_key_id origin_name index_key asks state m,
        true,
      )
      → evaluate cb ec dg h b rs sha256 i random out ≡ ok (response, key_out)
      → (blinded : ec.PublicKey) × (ec.blind_public_key_with_context m.public index_key
            issuer_context
          ≡ ok blinded)
        × (key_out ≡ ec.marshal_compressed blinded)
  returned_key m out response key_out pair usable read granted =
      let (
        req,
        read',
        (inner', secret', index', request_key', ctx', blinded, e1, e2, e3, _, e5, e6, out_is),
      ) =
        evaluate-Grants cb ec dg h b rs sha256 i random out granted in
      let (inner, decrypted, _, known) =
        recovered cb ec dg h b rs sha256 assume i keys key ec_rnd b_rnd h_rnd challenge nonce
          blind_enc token_key_id origin_name index_key asks state m in
      let (_, decodes) =
        decoded cb ec dg h b rs sha256 assume i keys key ec_rnd b_rnd h_rnd challenge nonce
          blind_enc token_key_id origin_name index_key asks state pair usable m in
      let same_request : request_of cb ec dg h b rs sha256 assume i keys key ec_rnd b_rnd h_rnd
            challenge nonce blind_enc token_key_id origin_name index_key asks state m
          ≡ req =
        ap (λ p. p.0) (sym read ∙ read') in
      let same_inner : ◌≡◌ {A = InnerRequest × Bytes} (inner, m.secret) (inner', secret') =
        ok-injective (
          sym decrypted
          ∙ ap
              (λ r.
                decrypt_origin_token_request cb h sha256 i.name_key r.request_key
                  r.encrypted_token_request)
              same_request
          ∙ e1) in
      let same_index : index_key ≡ index' = some-injective index_key index' (
        sym known
        ∙ ap (λ p. origin_index_key cb ec dg h b rs sha256 i (unpad_origin_name p.0.padded_origin))
            same_inner
        ∙ e2) in
      let same_key : m.public ≡ request_key' =
        ok-injective
          (sym decodes ∙ ap (λ r. unmarshal_public_key cb ec dg r.request_key) same_request ∙ e3) in
      let same_context : issuer_context ≡ ctx' =
        ok-injective (sym (issuer_blind_lem cb ec dg h b rs sha256 assume.ecdsa) ∙ e5) in
      (
        blinded,
        ap (λ p. ec.blind_public_key_with_context p index_key issuer_context) same_key
            ∙ ap (λ k. ec.blind_public_key_with_context request_key' k issuer_context) same_index
            ∙ ap (λ c. ec.blind_public_key_with_context request_key' index' c) same_context
            ∙ e6,
        out_is,
      )

  -- The attester's unblinding takes the client's blind off again.
  pub unblinded_key :
      (m : Made cb ec dg h b rs sha256 assume i keys key ec_rnd b_rnd h_rnd challenge nonce
        blind_enc token_key_id origin_name index_key asks state)
      (blinded : ec.PublicKey)
      → assume.ecdsa.IsPair key
      → ((blind : ec.PrivateKey)
          → ec.create_key blind_enc ≡ ok blind
          → assume.IsBlind blind client_context)
      → ec.blind_public_key_with_context m.public index_key issuer_context ≡ ok blinded
      → (assume.ecdsa.IsPublic blinded)
        × ((client_blinded : ec.PublicKey) × (ec.blind_public_key_with_context
                (ec.public key)
                index_key
                issuer_context
              ≡ ok client_blinded)
            × (ec.unblind_public_key_with_context blinded m.blind client_context
                ≡ ok client_blinded))
  unblinded_key m blinded pair usable blinds =
      let laws = assume.ecdsa in
      let client = laws.public-IsPublic key pair in
      let (on_curve, _) =
        decoded cb ec dg h b rs sha256 assume i keys key ec_rnd b_rnd h_rnd challenge nonce
          blind_enc token_key_id origin_name index_key asks state pair usable m in
      let context_is : m.context ≡ client_context =
        ok-injective (sym m.contexts ∙ client_blind_lem cb ec dg) in
      let (client_blinded, applies) =
        laws.blind_applies (ec.public key) index_key issuer_context client asks.index_usable in
      let first : ec.blind_public_key_with_context (ec.public key) m.blind client_context
          ≡ ok m.public =
        ap (λ c. ec.blind_public_key_with_context (ec.public key) m.blind c) (sym context_is)
        ∙ m.blinds in
      (
        laws.blinded-IsPublic m.public index_key issuer_context blinded on_curve asks.index_usable
            blinds,
        (
          client_blinded,
          applies,
          laws.unblind_blinded client_blinded m.blind client_context blinded
              (laws.blinded-IsPublic (ec.public key) index_key issuer_context client_blinded client
                asks.index_usable applies)
              (usable m.blind m.created)
              (laws.blinds_commute (ec.public key) m.blind index_key client_context issuer_context
                m.public blinded client_blinded client first blinds applies),
        ),
      )
