-- ===== src/Type3/Sent.antt =====
-- The request of a client of rate-limited tokens when it has come to the issuer.
use pat_go.Base.{
  ◌≡◌, ◌≢◌, ◌<◌, ◌^◌, ℕ, zero, suc, true, some, [], ◌∷◌, ◌++◌, Bytes, length, length-append,
  slice_to, get_elem?, IsBytes, ok, or_panic, after, ok-injective, arith, ap, sym, refl, ◌∙◌, subst,
}
use pat_go.Base.Strings.{codes}
use pat_go.Wire.{Cryptobyte, be16}
use pat_go.Ecdsa.{Ecdsa, EcdsaLaws, digits}
use pat_go.Ecdsa.Big.{big_endian-digits, length-digits}
use pat_go.BlindRsa.{BlindRsa}
use pat_go.Hpke.{Hpke}
use pat_go.Type3.{rate_limited_token_type}
use pat_go.Type3.Request.{RateLimitedRequest, empty_limited, add_signed, marshal, unmarshal}
use pat_go.Type3.Layout.{HasParts, unmarshal-marshal_limited}
use pat_go.Type3.EncapKey
use pat_go.Type3.Inner
use pat_go.Type3.EncapKey.{EncapKey}
use pat_go.Type3.Attester.{Digests}
use pat_go.Type3.Response.{Response}
use pat_go.Type3.Encryption.{encrypt_origin_token_request, associated_data, sent}
use pat_go.Type3.Issuer.{check_signature, issuer_blind}
use pat_go.Type3.Client.{RequestState}
use pat_go.Type3.Created.{Created, unsigned}
use pat_go.Type3.Verification.{Halves}
use pat_go.Type3.Honest.{sign_request-inv}

sliced-nonempty : (n : ℕ) (xs : Bytes) {ys : Bytes} → 0 < n → slice_to n xs ≡ some ys → xs ≢ []
sliced-nonempty zero xs positive h = absurd (omega arith)
sliced-nonempty (suc n) [] positive h = cc
sliced-nonempty (suc n) (x ∷ xs) positive h = λ e. cc

pub head-IsBytes : (xs : Bytes) {x : ℕ} → IsBytes xs → get_elem? xs 0 ≡ some x → x < 256
head-IsBytes [] bytes h = cc
head-IsBytes (y ∷ xs) bytes h = ground (arith, bytes.0)

module _ (cb : Cryptobyte) (h : Hpke) (sha256 : Bytes → Bytes)
    (hash_length : (x : Bytes) → length (sha256 x) ≡ 32) where
  -- The identifier of the name key is a hash.
  length-name_key_id :
      (rnd : h.Random) (name_key : EncapKey h) (id : ℕ) (message request_key origin_name : Bytes)
      (sealed : Bytes × Bytes × Bytes)
      → encrypt_origin_token_request cb h sha256 rnd name_key id message request_key origin_name
        ≡ ok sealed
      → length sealed.0 ≡ 32
  unfolding encrypt_origin_token_request
  length-name_key_id rnd name_key id message request_key origin_name =
      after {P = λ s. length s.0 ≡ 32} (or_panic (EncapKey.marshal h cb name_key)) _ (λ key _.
        after (h.setup_base_s name_key.suite rnd name_key.public_key (codes "TokenRequest")) _
          (λ _ _.
            after (or_panic (Inner.marshal cb (sent cb h sha256 id message origin_name))) _ (λ _ _.
              after (associated_data cb h sha256 name_key request_key (sha256 key)) _
                (λ _ _ s returned.
                  ap (λ s. length s.0) (sym (ok-injective returned)) ∙ hash_length key))))

-- The context of the issuer's blinding, in bytes.
abbrev pub issuer_context : Bytes
issuer_context = be16 rate_limited_token_type ++ codes "IssuerBlind"

module _ (cb : Cryptobyte) (ec : Ecdsa) (dg : Digests) (h : Hpke) (b : BlindRsa) (rs : Response)
    (sha256 : Bytes → Bytes) {IsSecret : Bytes → Type 0} {IsBlind : ec.PrivateKey → Bytes → Type 0}
    (laws : EcdsaLaws ec IsSecret IsBlind) where
  pub issuer_blind_lem : issuer_blind cb ec dg h b rs sha256 ≡ ok issuer_context
  unfolding issuer_blind
  issuer_blind_lem = ap or_panic (
      cb.add_bytes_lem _ (codes "IssuerBlind")
        (cb.add_uint16_lem _ rate_limited_token_type (omega arith) cb.new_builder_lem))

  length-signature :
      (rnd : ec.Random) (key blind : ec.PrivateKey) (ctx signature : Bytes)
      (request : RateLimitedRequest)
      → Halves cb ec dg laws rnd key blind ctx request signature
      → length signature ≡ 96
  length-signature rnd key blind ctx signature request (_, (r, (s, (_, (_, halves))))) =
      ap length (sym halves)
      ∙ length-append (digits 48 r) (digits 48 s)
      ∙ omega (arith, length-digits 48 r, length-digits 48 s)

  -- A request whose signature is two halves of 48 bytes each passes the issuer's check.
  check_signature-halves :
      (request : RateLimitedRequest) (public : ec.PublicKey) (message : Bytes) (r s : ℕ)
      → cb.bytes_or_panic (add_signed cb request) ≡ some message
      → request.signature ≡ digits 48 r ++ digits 48 s
      → r < 256 ^ 48
      → s < 256 ^ 48
      → ec.verify public (dg.sha384 message) r s ≡ true
      → check_signature cb ec dg h b rs sha256 request public ≡ ok tt
  unfolding check_signature
  check_signature-halves request public message r s written halves r_small s_small accepted = simp (
    written,
    halves,
    big_endian-digits 48 r r_small,
    big_endian-digits 48 s s_small,
    accepted,
    check_signature,
  )

  pub check_signature-signed :
      (rnd : ec.Random) (key blind : ec.PrivateKey) (ctx signature : Bytes)
      (request : RateLimitedRequest) (public : ec.PublicKey)
      → laws.IsPair key
      → ec.blind_public_key_with_context (ec.public key) blind ctx ≡ ok public
      → Halves cb ec dg laws rnd key blind ctx request signature
      → check_signature cb ec dg h b rs sha256 (record request { signature = signature }) public
        ≡ ok tt
  check_signature-signed rnd key blind ctx signature request public pair blinds
        (message, (r, (s, (written, (signs, halves))))) =
      let (r_small, (s_small, accepted)) =
        laws.blind_signed rnd key blind (dg.sha384 message) ctx r s public pair signs blinds in
      check_signature-halves (record request { signature = signature }) public message r s written
        (sym halves) r_small s_small accepted

  -- The bytes of a request that a client made are read as the request.
  pub unmarshal-Created :
      (key : ec.PrivateKey) (ec_rnd : ec.Random) (b_rnd : b.Random) (h_rnd : h.Random)
      (challenge nonce blind_enc token_key_id origin_name : Bytes) (token_key : b.PublicKey)
      (name_key : EncapKey h) {state : RequestState cb ec dg h b rs sha256}
      → ((p : ec.PublicKey) → laws.IsPublic p → length (ec.marshal_compressed p) ≡ 49)
      → ((x : Bytes) → length (sha256 x) ≡ 32)
      → 0 < h.public_key_size name_key.suite
      → (m : Created cb ec dg h b rs sha256 key ec_rnd b_rnd h_rnd challenge nonce blind_enc
          token_key_id origin_name token_key name_key state)
      → laws.IsPublic m.public
      → length state.request.encrypted_token_request < 65536
      → (out : Bytes) × (marshal cb state.request
          ≡ some (out, record state.request { raw = some out }))
        × (unmarshal cb empty_limited out ≡ (state.request, true))
  unmarshal-Created key ec_rnd b_rnd h_rnd challenge nonce blind_enc token_key_id origin_name
        token_key name_key point_length hash_length sized m on_curve fits =
      let request = record (unsigned (ec.marshal_compressed m.public) m.name_key_id m.encrypted) {
        signature = m.signature;
      } in
      let parts : HasParts request = record {
        request_key_length = point_length m.public on_curve;
        name_key_id_length =
            length-name_key_id cb h sha256 hash_length h_rnd name_key m.id m.message
              (ec.marshal_compressed m.public) origin_name (m.name_key_id, m.encrypted, m.secret)
              m.encrypts;
        encrypted_nonempty =
            sliced-nonempty (h.public_key_size name_key.suite) m.encrypted sized m.sliced;
        encrypted_fits =
            omega (arith, ap (λ st. length st.request.encrypted_token_request) m.is_state, fits);
      } in
      subst
        (λ st.
          (out : Bytes) × (marshal cb st.request ≡ some (out, record st.request { raw = some out }))
          × (unmarshal cb empty_limited out ≡ (st.request, true)))
        (sym m.is_state)
        (unmarshal-marshal_limited cb request empty_limited parts
          (length-signature ec_rnd key m.blind m.context m.signature
            (unsigned (ec.marshal_compressed m.public) m.name_key_id m.encrypted)
            (sign_request-inv cb ec dg h b rs sha256 laws ec_rnd key m.blind m.context m.signature
              (unsigned (ec.marshal_compressed m.public) m.name_key_id m.encrypted) m.signed))
          refl)
