-- ===== src/Type3/Issuer.antt =====
-- tokens/type3/issuer.go. The randomness of `Evaluate` is an argument.
use pat_go.Base.{
  ℕ, Option, none, some, List, [], ◌∷◌, ◌++◌, Bytes, drop, slice_to, bytes_equal, Outcome, ok, err,
  ◌>>=◌, ◌>>◌, guard, or_err, or_panic, ltb, if◌then◌else◌,
}
use pat_go.Base.Strings.{codes}
use pat_go.Wire.{Cryptobyte}
use pat_go.Ecdsa.{Ecdsa, big_endian}
use pat_go.BlindRsa.{BlindRsa}
use pat_go.Hpke.{Hpke}
use pat_go.Type3.{rate_limited_token_type}
use pat_go.Type3.Request.{RateLimitedRequest, empty_limited, add_signed, unmarshal}
use pat_go.Type3.Padding.{unpad_origin_name}
use pat_go.Type3.EncapKey.{PrivateEncapKey}
use pat_go.Type3.Encryption.{decrypt_origin_token_request}
use pat_go.Type3.Attester.{Digests, unmarshal_public_key}
use pat_go.Type3.Response.{Response}

abbrev pub max : ℕ → ℕ → ℕ
max a b = if ltb b a then a else b

module _ (cb : Cryptobyte) (ec : Ecdsa) (dg : Digests) (h : Hpke) (b : BlindRsa) (rs : Response)
    (sha256 : Bytes → Bytes) where
  -- A map from origin names to keys: what was stored last is found first.
  pub record RateLimitedIssuer : Type 0 where
    pub name_key : PrivateEncapKey h
    pub token_key : b.PrivateKey
    pub origin_index_keys : List (Bytes × ec.PrivateKey)

  unfoldable pub find_key : Bytes → List (Bytes × ec.PrivateKey) → Option ec.PrivateKey
  find_key name [] = none
  find_key name ((name', key) ∷ keys) =
      let rest = find_key name keys in if bytes_equal name name' then some key else rest

  abbrev pub add_origin_with_index_key :
      RateLimitedIssuer → Bytes → ec.PrivateKey → RateLimitedIssuer
  add_origin_with_index_key i origin key = record i {
    origin_index_keys = (origin, key) ∷ i.origin_index_keys;
  }

  unfoldable pub add_origin : ec.Random → RateLimitedIssuer → Bytes → Outcome RateLimitedIssuer
  add_origin rnd i origin = do
    key ← ec.generate_key rnd
    ok (add_origin_with_index_key i origin key)

  -- `none` is nil.
  abbrev pub origin_index_key : RateLimitedIssuer → Bytes → Option ec.PrivateKey
  origin_index_key i origin = find_key origin i.origin_index_keys

  -- The context of the issuer's blinding.
  unfoldable pub issuer_blind : Outcome Bytes
  issuer_blind =
      let bd = cb.add_uint16 cb.new_builder rate_limited_token_type in
      or_panic (cb.bytes_or_panic (cb.add_bytes bd (codes "IssuerBlind")))

  -- The check of the request's signature, with this function's message for a signature that fails.
  unfoldable pub check_signature : RateLimitedRequest → ec.PublicKey → Outcome (Unit {0})
  check_signature req request_key = do
    r_enc ← or_panic (slice_to 48 req.signature)
    message ← or_panic (cb.bytes_or_panic (add_signed cb req))
    guard
        (ec.verify request_key (dg.sha384 message) (big_endian 0 r_enc)
          (big_endian 0 (drop 48 req.signature)))
        "invalid request signature"

  -- The blind signature under keys derived from the secret, behind the fresh
  -- nonce.
  unfoldable pub seal_response : Bytes → Bytes → Bytes → Bytes → Outcome Bytes
  seal_response enc secret response_nonce blind_signature = do
    let prk = rs.extract (enc ++ response_nonce) secret
    cipher ← rs.new_cipher (rs.expand prk (codes "key") rs.key_size)
    ok (
        response_nonce
        ++ rs.seal cipher (rs.expand prk (codes "nonce") rs.nonce_size) blind_signature)

  -- The end of `Evaluate`, from the blind signature on.
  unfoldable pub respond :
      RateLimitedIssuer
      → (ℕ → Outcome Bytes)
      → RateLimitedRequest
      → Bytes
      → Bytes
      → ec.PublicKey
      → Outcome (Bytes × Bytes)
  respond i random req blinded_msg secret blinded = do
    blind_signature ← b.blind_sign i.token_key blinded_msg
    response_nonce ← random (max rs.key_size rs.nonce_size)
    enc ← or_panic (slice_to (h.public_key_size i.name_key.suite) req.encrypted_token_request)
    response ← seal_response enc secret response_nonce blind_signature
    ok (response, ec.marshal_compressed blinded)

  -- `Evaluate` after its request is read. The error for an origin that is not known carries its name
  -- too.
  unfoldable pub answer :
      RateLimitedIssuer → (ℕ → Outcome Bytes) → RateLimitedRequest → Outcome (Bytes × Bytes)
  answer i random req = do
    (inner, secret) ←
        decrypt_origin_token_request cb h sha256 i.name_key req.request_key
          req.encrypted_token_request
    index_key ← or_err "unknown origin" (origin_index_key i (unpad_origin_name inner.padded_origin))
    request_key ← unmarshal_public_key cb ec dg req.request_key
    check_signature req request_key
    ctx ← issuer_blind
    blinded ← ec.blind_public_key_with_context request_key index_key ctx
    respond i random req inner.blinded_msg secret blinded

  unfoldable pub evaluate :
      RateLimitedIssuer → (ℕ → Outcome Bytes) → Bytes → Outcome (Bytes × Bytes)
  evaluate i random encoded_request =
      let (req, read_all) = unmarshal cb empty_limited encoded_request in
      if read_all then answer i random req else err "malformed request"
