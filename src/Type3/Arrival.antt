-- ===== src/Type3/Arrival.antt =====
-- What an honest client asks of an issuer of rate-limited tokens, and what the issuer finds in it.
use pat_go.Base.{
  ◌≡◌, ◌≢◌, ◌<◌, true, some, Bytes, length, last_byte, IsBytes, ok, ok-injective, subst, sym, ap,
  ◌∙◌,
}
use pat_go.Wire.{Cryptobyte}
use pat_go.Ecdsa.{Ecdsa, EcdsaLaws}
use pat_go.BlindRsa.{BlindRsa, BlindRsaLaws, Signed}
use pat_go.Hpke.{Hpke, HpkeLaws}
use pat_go.Tokens.Layout.{HasLengths}
use pat_go.Type3.Request.{RateLimitedRequest, empty_limited, marshal, unmarshal}
use pat_go.Type3.Inner.{InnerRequest}
use pat_go.Type3.Padding.{unpad_origin_name}
use pat_go.Type3.EncapKey.{public}
use pat_go.Type3.Encryption.{decrypt_origin_token_request, decrypt-encrypt_origin_token_request}
use pat_go.Type3.Attester.{Digests, unmarshal_public_key}
use pat_go.Type3.Response.{Response, ResponseLaws}
use pat_go.Type3.Issuer.{RateLimitedIssuer, origin_index_key, check_signature}
use pat_go.Type3.Client.{RequestState}
use pat_go.Type3.Created.{Created, unsigned}
use pat_go.Type3.Verification.{client_context, client_blind_lem, decoded_public}
use pat_go.Type3.Honest.{sign_request-inv}
use pat_go.Type3.Sent.{head-IsBytes, issuer_context, check_signature-signed, unmarshal-Created}

-- What holds of the libraries and of the issuer's keys.
pub record Assumptions (ec : Ecdsa) (h : Hpke) (b : BlindRsa) (rs : Response)
    (sha256 : Bytes → Bytes) : Type 1 where
  pub IsSecret : Bytes → Type 0
  pub IsBlind : ec.PrivateKey → Bytes → Type 0
  pub ecdsa : EcdsaLaws ec IsSecret IsBlind
  pub hpke : HpkeLaws h
  pub blind_rsa : BlindRsaLaws b
  pub response : ResponseLaws rs
  pub point_length : (p : ec.PublicKey) → ecdsa.IsPublic p → length (ec.marshal_compressed p) ≡ 49
  pub hash_length : (x : Bytes) → length (sha256 x) ≡ 32

module _ (cb : Cryptobyte) (ec : Ecdsa) (dg : Digests) (h : Hpke) (b : BlindRsa) (rs : Response)
    (sha256 : Bytes → Bytes) where
  -- The keys of an issuer fit: its name key is a pair with room for a point, and its token key has
  -- 256 bytes.
  pub record HasKeys (i : RateLimitedIssuer cb ec dg h b rs sha256) : Type 0 where
    pub name_pair : i.name_key.public_key ≡ h.public i.name_key.suite i.name_key.private_key
    pub name_size : 0 < h.public_key_size i.name_key.suite
    pub token_key_length : b.key_length (b.public i.token_key) ≡ 256

  -- What the client asks for: a nonce and a key identifier of 32 bytes each, and the name of an
  -- origin that is not too long, does not end in a zero byte, and whose key the issuer knows and can
  -- blind with.
  pub record Asks (assume : Assumptions ec h b rs sha256)
      (i : RateLimitedIssuer cb ec dg h b rs sha256) (nonce token_key_id origin_name : Bytes)
      (index_key : ec.PrivateKey) : Type 0 where
    pub lengths : HasLengths nonce token_key_id
    pub id_bytes : IsBytes token_key_id
    pub origin_short : length origin_name < 65504
    pub origin_end : last_byte origin_name ≢ some 0
    pub known : origin_index_key cb ec dg h b rs sha256 i origin_name ≡ some index_key
    pub index_usable : assume.IsBlind index_key issuer_context

  module _ (assume : Assumptions ec h b rs sha256) (i : RateLimitedIssuer cb ec dg h b rs sha256)
      (keys : HasKeys i) (key : ec.PrivateKey) (ec_rnd : ec.Random) (b_rnd : b.Random)
      (h_rnd : h.Random) (challenge nonce blind_enc token_key_id origin_name : Bytes)
      (index_key : ec.PrivateKey) (asks : Asks assume i nonce token_key_id origin_name index_key)
      (state : RequestState cb ec dg h b rs sha256) where
    abbrev pub Made : Type 0
    Made =
        Created cb ec dg h b rs sha256 key ec_rnd b_rnd h_rnd challenge nonce blind_enc token_key_id
          origin_name (b.public i.token_key) (public h i.name_key) state

    abbrev pub request_of : Made → RateLimitedRequest
    request_of m = record (unsigned (ec.marshal_compressed m.public) m.name_key_id m.encrypted) {
      signature = m.signature;
    }

    pub blinded-Signed : (m : Made) → Signed b i.token_key m.input m.message m.verifier
    blinded-Signed m =
        assume.blind_rsa.blind_signed i.token_key b_rnd m.input m.message m.verifier m.blinded

    -- The issuer decrypts the inner request, and finds the client's message and origin in it.
    pub recovered :
        (m : Made)
        → (inner : InnerRequest) × (decrypt_origin_token_request cb h sha256 i.name_key
              (ec.marshal_compressed m.public)
              m.encrypted
            ≡ ok (inner, m.secret))
          × (inner.blinded_msg ≡ m.message)
          × (origin_index_key cb ec dg h b rs sha256 i (unpad_origin_name inner.padded_origin)
              ≡ some index_key)
    recovered m =
        let (_, _, sized, _, _, _, _) = blinded-Signed m in
        let (inner, decrypted, _, message_is, origin_is) =
          decrypt-encrypt_origin_token_request cb h sha256 assume.hpke i.name_key
            (ec.marshal_compressed m.public) m.message origin_name m.id h_rnd m.name_key_id
            m.encrypted m.secret keys.name_pair
            (head-IsBytes token_key_id asks.id_bytes m.identified) (sized ∙ keys.token_key_length)
            asks.origin_short asks.origin_end m.encrypts in
        (
          inner,
          decrypted,
          message_is,
          ap (origin_index_key cb ec dg h b rs sha256 i) origin_is ∙ asks.known,
        )

    module _ (pair : assume.ecdsa.IsPair key)
        (usable : (blind : ec.PrivateKey)
          → ec.create_key blind_enc ≡ ok blind
          → assume.IsBlind blind client_context) where
      pub blind_usable : (m : Made) → assume.IsBlind m.blind m.context
      blind_usable m =
          subst (assume.IsBlind m.blind)
            (ok-injective (sym (client_blind_lem cb ec dg) ∙ m.contexts)) (usable m.blind m.created)

      on_curve : (m : Made) → assume.ecdsa.IsPublic m.public
      on_curve m =
          assume.ecdsa.blinded-IsPublic (ec.public key) m.blind m.context m.public
            (assume.ecdsa.public-IsPublic key pair) (blind_usable m) m.blinds

      -- The request is written, and read as it was made.
      pub arrived :
          (m : Made)
          → length state.request.encrypted_token_request < 65536
          → (out : Bytes) × (marshal cb state.request
              ≡ some (out, record state.request { raw = some out }))
            × (unmarshal cb empty_limited out ≡ (request_of m, true))
      arrived m fits =
          let (out, written, read) =
            unmarshal-Created cb ec dg h b rs sha256 assume.ecdsa key ec_rnd b_rnd h_rnd challenge
              nonce blind_enc token_key_id origin_name (b.public i.token_key) (public h i.name_key)
              assume.point_length assume.hash_length keys.name_size m (on_curve m) fits in
          (out, written, read ∙ ap (λ st. (st.request, true)) m.is_state)

      -- The key of the request is read, and its signature passes the check.
      pub decoded :
          (m : Made)
          → (assume.ecdsa.IsPublic m.public)
            × (unmarshal_public_key cb ec dg (ec.marshal_compressed m.public) ≡ ok m.public)
      decoded m = (
        on_curve m,
        decoded_public cb ec dg assume.ecdsa (ec.marshal_compressed m.public) m.public
            (assume.ecdsa.compressed m.public (on_curve m)),
      )

      pub checked :
          (m : Made) → check_signature cb ec dg h b rs sha256 (request_of m) m.public ≡ ok tt
      checked m =
          let plain = unsigned (ec.marshal_compressed m.public) m.name_key_id m.encrypted in
          check_signature-signed cb ec dg h b rs sha256 assume.ecdsa ec_rnd key m.blind m.context
            m.signature plain m.public pair m.blinds
            (sign_request-inv cb ec dg h b rs sha256 assume.ecdsa ec_rnd key m.blind m.context
              m.signature plain m.signed)
