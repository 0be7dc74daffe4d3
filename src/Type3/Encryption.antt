-- ===== src/Type3/Encryption.antt =====
-- `encryptOriginTokenRequest` of tokens/type3/client.go and `decryptOriginTokenRequest` of
-- tokens/type3/issuer.go: the inner request on its way from the client to the issuer.
use pat_go.Base.{
  ℕ, ◌<◌, ◌≡◌, ◌≢◌, refl, sym, ap, ◌∙◌, subst, Bool, true, false, none, some, [], ◌++◌, Bytes,
  length, drop, drop-append, slice_to, slice_to-append, last_byte, Outcome, ok, ◌>>=◌, or_panic,
  arith, Outcome-cases, Option-cases, inl, inr, append-nil,
}
use pat_go.Base.Strings.{codes}
use pat_go.Wire.{Cryptobyte}
use pat_go.Hpke.{Hpke, HpkeLaws}
use pat_go.Type3.{rate_limited_token_type}
use pat_go.Type3.Inner
use pat_go.Type3.Inner.{InnerRequest}
use pat_go.Type3.Padding.{pad_origin_name, unpad_origin_name, unpad-pad_origin_name, pad_fits}
use pat_go.Type3.EncapKey
use pat_go.Type3.EncapKey.{PrivateEncapKey, EncapKey, public}

abbrev pub empty_inner : InnerRequest
empty_inner = record { raw = none; token_key_id = 0; blinded_msg = []; padded_origin = [] }

module _ (cb : Cryptobyte) (h : Hpke) (sha256 : Bytes → Bytes) where
  -- The associated data, which binds the key and the request key.
  unfoldable pub associated_data : EncapKey h → Bytes → Bytes → Outcome Bytes
  associated_data k request_key issuer_key_id =
      let b = cb.add_uint8 cb.new_builder k.id in
      let b = cb.add_uint16 b (h.kem_id k.suite) in
      let b = cb.add_uint16 b (h.kdf_id k.suite) in
      let b = cb.add_uint16 b (h.aead_id k.suite) in
      let b = cb.add_uint16 b rate_limited_token_type in
      let b = cb.add_bytes b request_key in
      or_panic (cb.bytes_or_panic (cb.add_bytes b issuer_key_id))

  -- The result is the identifier of the name key, the encrypted request and the secret for the
  -- response.
  unfoldable pub encrypt_origin_token_request :
      h.Random → EncapKey h → ℕ → Bytes → Bytes → Bytes → Outcome (Bytes × Bytes × Bytes)
  encrypt_origin_token_request rnd name_key token_key_id blinded_message request_key origin_name =
      do
        issuer_key_enc ← or_panic (EncapKey.marshal h cb name_key)
        let issuer_key_id = sha256 issuer_key_enc
        (enc, context) ←
            h.setup_base_s name_key.suite rnd name_key.public_key (codes "TokenRequest")
        (input, _) ← or_panic (
            Inner.marshal cb (record {
              raw = none;
              token_key_id = token_key_id;
              blinded_msg = blinded_message;
              padded_origin = pad_origin_name origin_name;
            }))
        aad ← associated_data name_key request_key issuer_key_id
        ok (
          issuer_key_id,
          enc ++ h.seal context aad input,
          h.export_sender context (codes "TokenResponse") (h.aead_key_size name_key.suite),
        )

  -- What is decrypted but is not an inner request comes back as an empty one, without an error.
  abbrev pub read_inner : h.Receiver → ℕ → InnerRequest × Bool → Outcome (InnerRequest × Bytes)
  read_inner context n (r, false) = ok (empty_inner, [])
  read_inner context n (r, true) = ok (r, h.export_receiver context (codes "TokenResponse") n)

  unfoldable pub decrypt_origin_token_request :
      PrivateEncapKey h → Bytes → Bytes → Outcome (InnerRequest × Bytes)
  decrypt_origin_token_request name_key request_key encrypted = do
    issuer_key_enc ← or_panic (EncapKey.marshal h cb (public h name_key))
    aad ← associated_data (public h name_key) request_key (sha256 issuer_key_enc)
    enc ← or_panic (slice_to (h.public_key_size name_key.suite) encrypted)
    let ct = drop (h.public_key_size name_key.suite) encrypted
    context ← h.setup_base_r name_key.suite name_key.private_key enc (codes "TokenRequest")
    text ← h.open_ context aad ct
    read_inner context (h.aead_key_size name_key.suite) (Inner.unmarshal cb empty_inner text)

  -- The inner request that the client encrypts.
  abbrev pub sent : ℕ → Bytes → Bytes → InnerRequest
  sent token_key_id blinded_message origin_name = record {
    raw = none;
    token_key_id = token_key_id;
    blinded_msg = blinded_message;
    padded_origin = pad_origin_name origin_name;
  }

  -- What comes out of the issuer's decryption.
  abbrev Recovers : PrivateEncapKey h → Bytes → Bytes → Bytes → ℕ → Bytes → Bytes → Type 0
  Recovers k request_key encrypted secret token_key_id message origin_name =
      (r : InnerRequest) × (decrypt_origin_token_request k request_key encrypted ≡ ok (r, secret))
      × (r.token_key_id ≡ token_key_id)
      × (r.blinded_msg ≡ message)
      × (unpad_origin_name r.padded_origin ≡ origin_name)

  module _ (laws : HpkeLaws h) (k : PrivateEncapKey h) (request_key message origin_name : Bytes)
      (token_key_id : ℕ) where
    decrypted :
        (key_enc aad enc secret : Bytes) (sender : h.Sender) (rnd : h.Random)
        → k.public_key ≡ h.public k.suite k.private_key
        → length message ≡ 256
        → last_byte origin_name ≢ some 0
        → EncapKey.marshal h cb (public h k) ≡ some key_enc
        → associated_data (public h k) request_key (sha256 key_enc) ≡ ok aad
        → h.setup_base_s k.suite rnd k.public_key (codes "TokenRequest") ≡ ok (enc, sender)
        → h.export_sender sender (codes "TokenResponse") (h.aead_key_size k.suite) ≡ secret
        → Recovers k request_key
            (enc ++ h.seal sender aad (Inner.layout cb (sent token_key_id message origin_name)))
            secret
            token_key_id
            message
            origin_name
    unfolding decrypt_origin_token_request
    decrypted key_enc aad enc secret sender rnd pair hm named e1 e2 e3 e4 =
        let text = Inner.layout cb (sent token_key_id message origin_name) in
        let (receiver, size, set, opened, exported) =
          laws.setup_lem k.suite rnd k.private_key (codes "TokenRequest") enc sender
            (rw pair at e3) in
        let back = rw append-nil at (
          Inner.unmarshal-inner_layout cb (sent token_key_id message origin_name) empty_inner []
            hm) in
        (
          sent token_key_id message origin_name,
          simp (
            e1,
            e2,
            slice_to-append (h.public_key_size k.suite) enc (h.seal sender aad text) size,
            set,
            ap (λ n. drop n (enc ++ h.seal sender aad text)) (sym size)
                ∙ drop-append enc (h.seal sender aad text),
            opened aad text,
            back,
            exported (codes "TokenResponse") (h.aead_key_size k.suite),
            e4,
            decrypt_origin_token_request,
          ),
          refl,
          refl,
          unpad-pad_origin_name origin_name named,
        )

    -- What the client encrypts to the name key of an issuer, for a key identifier that is a byte, a
    -- blinded message of 256 bytes and an origin name that is not too long and does not end in a
    -- zero byte, the issuer decrypts with the private key, for the same request key, and recovers
    -- the identifier, the message, the name and the client's secret, given the laws of the
    -- encryption.
    pub decrypt-encrypt_origin_token_request :
        (rnd : h.Random) (key_id encrypted secret : Bytes)
        → k.public_key ≡ h.public k.suite k.private_key
        → token_key_id < 256
        → length message ≡ 256
        → length origin_name < 65504
        → last_byte origin_name ≢ some 0
        → encrypt_origin_token_request rnd (public h k) token_key_id message request_key origin_name
          ≡ ok (key_id, encrypted, secret)
        → (r : InnerRequest) × (decrypt_origin_token_request k request_key encrypted
            ≡ ok (r, secret))
          × (r.token_key_id ≡ token_key_id)
          × (r.blinded_msg ≡ message)
          × (unpad_origin_name r.padded_origin ≡ origin_name)
    unfolding encrypt_origin_token_request
    decrypt-encrypt_origin_token_request rnd key_id encrypted secret pair hi hm short named made =
        let input =
          Inner.marshal_inner_lem cb (sent token_key_id message origin_name) hi refl
            (omega (arith, pad_fits origin_name)) in
        elim (Option-cases (EncapKey.marshal h cb (public h k))) [
          | inl e ↦ ground arith
          | inr (key_enc, e1) ↦
              elim (Outcome-cases
                (h.setup_base_s k.suite rnd k.public_key (codes "TokenRequest"))) [
                  | inr e ↦ ground arith
                  | inl ((enc, sender), e3) ↦
                      elim (Outcome-cases
                        (associated_data (public h k) request_key (sha256 key_enc))) [
                          | inr e ↦ ground arith
                          | inl (aad, e2) ↦
                              let text = Inner.layout cb (sent token_key_id message origin_name) in
                              let e4 : h.export_sender sender (codes "TokenResponse")
                                    (h.aead_key_size k.suite)
                                  ≡ secret =
                                ground arith in
                              let e5 : enc ++ h.seal sender aad text ≡ encrypted = ground arith in
                              subst
                                (λ x.
                                  Recovers k request_key x secret token_key_id message origin_name)
                                e5
                                (decrypted key_enc aad enc secret sender rnd pair hm named e1 e2 e3
                                  e4)
                        ]
                ]
        ]
