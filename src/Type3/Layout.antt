-- ===== src/Type3/Layout.antt =====
-- Writing and reading a rate-limited request.
use pat_go.Base.{
  ◌<◌, ◌≡◌, ◌≢◌, ◌↔◌, refl, ap, ◌∙◌, true, not, none, some, [], ◌∷◌, ◌++◌, Bytes, length, arith,
  bytes_equal_refl, bytes_equal→eq, ==_refl, append_assoc, append-nil,
}
use pat_go.Wire.{Cryptobyte, be16, prefixed16}
use pat_go.Wire.Steps.{
  accepted, after-read, after-into, after-check, after-attempt, after-attempt-none, check_rest_lem,
  after-store,
}
use pat_go.Wire.Read.{read_uint16-be16, read_uint16_length_prefixed-prefixed16}
use pat_go.Type3.{rate_limited_token_type}
use pat_go.Type3.Request.{RateLimitedRequest, equal, read_signature, add_signed, marshal, unmarshal}

-- `Equal` says true of two requests exactly when they agree in the four parts that are sent,
-- whatever their caches hold.
pub equal_iff_limited :
    (r r2 : RateLimitedRequest)
    → (equal r r2 ≡ true) ↔ (
        (r.request_key ≡ r2.request_key)
        × (r.name_key_id ≡ r2.name_key_id)
        × (r.encrypted_token_request ≡ r2.encrypted_token_request)
        × (r.signature ≡ r2.signature))
unfolding equal
equal_iff_limited r r2 = (
  λ h. ground (
    arith,
    bytes_equal→eq r.request_key r2.request_key,
    bytes_equal→eq r.name_key_id r2.name_key_id,
    bytes_equal→eq r.encrypted_token_request r2.encrypted_token_request,
    bytes_equal→eq r.signature r2.signature,
  ),
  λ (e, f, g, k).
      rw (e, f, g, k)
        (ground (
          arith,
          bytes_equal_refl r2.request_key,
          bytes_equal_refl r2.name_key_id,
          bytes_equal_refl r2.encrypted_token_request,
          bytes_equal_refl r2.signature,
        )),
)

-- What is signed, and the whole encoding.
abbrev pub signed_layout : RateLimitedRequest → Bytes
signed_layout r =
    be16 rate_limited_token_type
    ++ (r.request_key ++ (r.name_key_id ++ prefixed16 r.encrypted_token_request))

abbrev pub layout : RateLimitedRequest → Bytes
layout r = signed_layout r ++ r.signature

-- The parts that a reader insists on.
pub record HasParts (r : RateLimitedRequest) : Type 0 where
  pub request_key_length : length r.request_key ≡ 49
  pub name_key_id_length : length r.name_key_id ≡ 32
  pub encrypted_nonempty : r.encrypted_token_request ≢ []
  pub encrypted_fits : length r.encrypted_token_request < 65536

module _ (cb : Cryptobyte) where
  pub add_signed_lem :
      (r : RateLimitedRequest)
      → length r.encrypted_token_request < 65536
      → cb.bytes_or_panic (add_signed cb r) ≡ some (signed_layout r)
  add_signed_lem r h =
      rw (append_assoc, append_assoc) at
        (cb.add_uint16_length_prefixed_lem _ (λ child. cb.add_bytes child r.encrypted_token_request)
          (cb.add_bytes_lem _ r.name_key_id (
            cb.add_bytes_lem _ r.request_key
              (cb.add_uint16_lem _ rate_limited_token_type (omega arith) cb.new_builder_lem)))
          (λ c e. cb.add_bytes_lem c r.encrypted_token_request e) h)

  pub marshal_limited_lem :
      (r : RateLimitedRequest)
      → r.raw ≡ none
      → length r.encrypted_token_request < 65536
      → marshal cb r ≡ some (layout r, record r { raw = some (layout r) })
  unfolding marshal
  marshal_limited_lem r hr h =
      simp (hr, cb.add_bytes_lem (add_signed cb r) r.signature (add_signed_lem r h), marshal)

  nonempty : (xs : Bytes) → xs ≢ [] → not (cb.is_empty xs) ≡ true
  nonempty [] h = absurd (h refl)
  nonempty (x ∷ xs) h = rw (cb.is_empty_cons x xs)

  -- What is left to do after the reads up to the signature.
  reads_signed :
      (r r0 : RateLimitedRequest) (rest : Bytes)
      → HasParts r
      → unmarshal cb r0 (signed_layout r ++ rest)
        ≡ accepted (read_signature cb (record r { raw = r0.raw; signature = r0.signature }) rest)
  unfolding unmarshal
  reads_signed r r0 rest h = simp append_assoc (
      ap accepted (
        after-read _ _ (read_uint16-be16 cb rate_limited_token_type _)
        ∙ after-check _ _ (==_refl rate_limited_token_type)
        ∙ after-into _ _ _ (cb.read_bytes_lem 49 r.request_key _ h.request_key_length)
        ∙ after-into _ _ _ (cb.read_bytes_lem 32 r.name_key_id _ h.name_key_id_length)
        ∙ after-read _ _ (read_uint16_length_prefixed-prefixed16 cb r.encrypted_token_request rest)
        ∙ after-check _ _ (nonempty r.encrypted_token_request h.encrypted_nonempty)
        ∙ after-store _ _))

  -- A request with parts of the right lengths, an encrypted request that is there and fits its
  -- length field, and a signature of 96 bytes, without a cached encoding, is written, and is read
  -- back into any receiver, of which the reader keeps the cached encoding.
  pub unmarshal-marshal_limited :
      (r r0 : RateLimitedRequest)
      → HasParts r
      → length r.signature ≡ 96
      → r.raw ≡ none
      → (out : Bytes) × (marshal cb r ≡ some (out, record r { raw = some out }))
        × (unmarshal cb r0 out ≡ (record r { raw = r0.raw }, true))
  unfolding accepted
  unmarshal-marshal_limited r r0 h hs hr = (
    layout r,
    marshal_limited_lem r hr h.encrypted_fits,
    reads_signed r r0 r.signature h
        ∙ ap accepted (
            after-attempt _ _ _ (rw append-nil at (cb.read_bytes_lem 96 r.signature [] hs))
            ∙ check_rest_lem _ _ _ cb.is_empty_nil),
  )

  -- The bytes of a request with its parts but without its signature are accepted, and leave the
  -- signature that the receiver had.
  pub unmarshal-unsigned :
      (r r0 : RateLimitedRequest)
      → HasParts r
      → unmarshal cb r0 (signed_layout r)
        ≡ (record r { raw = r0.raw; signature = r0.signature }, true)
  unfolding accepted
  unmarshal-unsigned r r0 h =
      rw append-nil at (reads_signed r r0 [] h)
      ∙ ap accepted (
          after-attempt-none _ _ _ (cb.read_bytes_short 96 [] (omega arith))
          ∙ check_rest_lem _ _ _ cb.is_empty_nil)
