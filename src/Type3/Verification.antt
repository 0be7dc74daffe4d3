-- ===== src/Type3/Verification.antt =====
-- The attester finds a request that its client signed valid.
use pat_go.Base.{
  ◌≡◌, ◌<◌, ◌^◌, ℕ, true, some, ◌++◌, Bytes, bytes_equal_refl, ok, or_panic, arith, ap, sym, refl,
  ◌∙◌,
}
use pat_go.Base.Strings.{codes}
use pat_go.Wire.{Cryptobyte, be16}
use pat_go.Type3.{rate_limited_token_type}
use pat_go.Ecdsa.{Ecdsa, EcdsaLaws, digits}
use pat_go.Ecdsa.Big.{big_endian-digits}
use pat_go.Type3.Request.{RateLimitedRequest, add_signed}
use pat_go.Type3.Clients.{ClientStateCache}
use pat_go.Type3.Attester.{
  Digests, inner_verify_request, unmarshal_public_key, client_blind, blinded_key, register,
  verify_request,
}

-- The context of the client's blinding, in bytes.
abbrev pub client_context : Bytes
client_context = be16 rate_limited_token_type ++ codes "ClientBlind"

module _ (cb : Cryptobyte) (ec : Ecdsa) (dg : Digests) where
  pub client_blind_lem : client_blind cb ec dg ≡ ok client_context
  unfolding client_blind
  client_blind_lem = ap or_panic (
      cb.add_bytes_lem _ (codes "ClientBlind")
        (cb.add_uint16_lem _ rate_limited_token_type (omega arith) cb.new_builder_lem))

module _ (cb : Cryptobyte) (ec : Ecdsa) (dg : Digests) {IsSecret : Bytes → Type 0}
    {IsBlind : ec.PrivateKey → Bytes → Type 0} (laws : EcdsaLaws ec IsSecret IsBlind) where
  -- A request whose signature is two halves of 48 bytes each is verified with those halves.
  inner_verify_request-halves :
      (request : RateLimitedRequest) (public : ec.PublicKey) (message : Bytes) (r s : ℕ)
      → ec.unmarshal_compressed request.request_key ≡ some public
      → cb.bytes_or_panic (add_signed cb request) ≡ some message
      → request.signature ≡ digits 48 r ++ digits 48 s
      → r < 256 ^ 48
      → s < 256 ^ 48
      → ec.verify public (dg.sha384 message) r s ≡ true
      → inner_verify_request cb ec dg request ≡ ok tt
  unfolding inner_verify_request unmarshal_public_key
  inner_verify_request-halves request public message r s decoded written halves r_small s_small
        accepted =
      simp (
        decoded,
        written,
        halves,
        big_endian-digits 48 r r_small,
        big_endian-digits 48 s s_small,
        accepted,
        inner_verify_request,
        unmarshal_public_key,
      )

  -- What signing a request leads to.
  abbrev pub Halves :
      ec.Random → ec.PrivateKey → ec.PrivateKey → Bytes → RateLimitedRequest → Bytes → Type 0
  Halves rnd key blind ctx request signature =
      (message : Bytes) × ((r : ℕ) × ((s : ℕ) × ((cb.bytes_or_panic (add_signed cb request)
              ≡ some message)
            × ((ec.blind_key_sign_with_context rnd key blind (dg.sha384 message) ctx ≡ ok (r, s))
                × (digits 48 r ++ digits 48 s ≡ signature)))))

  pub decoded_public :
      (encoded : Bytes) (public : ec.PublicKey)
      → ec.unmarshal_compressed encoded ≡ some public
      → unmarshal_public_key cb ec dg encoded ≡ ok public
  unfolding unmarshal_public_key
  decoded_public encoded public decoded = rw (decoded) refl

  pub verify_request-admitted :
      (cs : ClientStateCache) (c : cs.Cache) (request : RateLimitedRequest)
      (blind_enc client_enc : Bytes) (client : ec.PublicKey) (blind : ec.PrivateKey)
      → inner_verify_request cb ec dg request ≡ ok tt
      → unmarshal_public_key cb ec dg client_enc ≡ ok client
      → ec.create_key blind_enc ≡ ok blind
      → blinded_key cb ec dg client blind ≡ ok request.request_key
      → verify_request cb ec dg cs c request blind_enc client_enc
        ≡ (ok tt, register cb ec dg cs c (dg.hex client_enc))
  unfolding verify_request
  verify_request-admitted cs c request blind_enc client_enc client blind verified decoded created
        blinded =
      simp
        (verified, decoded, created, blinded, bytes_equal_refl request.request_key, verify_request)

  pub blinded_key-made :
      (client public : ec.PublicKey) (blind : ec.PrivateKey) (ctx : Bytes)
      → client_blind cb ec dg ≡ ok ctx
      → ec.blind_public_key_with_context client blind ctx ≡ ok public
      → blinded_key cb ec dg client blind ≡ ok (ec.marshal_compressed public)
  unfolding blinded_key
  blinded_key-made client public blind ctx context blinds = rw (context, blinds) refl

  pub inner_verify_request-signed :
      (rnd : ec.Random) (key blind : ec.PrivateKey) (ctx signature : Bytes)
      (request : RateLimitedRequest) (public : ec.PublicKey)
      → laws.IsPair key
      → IsBlind blind ctx
      → ec.blind_public_key_with_context (ec.public key) blind ctx ≡ ok public
      → request.request_key ≡ ec.marshal_compressed public
      → Halves rnd key blind ctx request signature
      → inner_verify_request cb ec dg (record request { signature = signature }) ≡ ok tt
  inner_verify_request-signed rnd key blind ctx signature request public pair usable blinds is_key
        (message, (r, (s, (written, (signs, halves))))) =
      let (r_small, (s_small, accepted)) =
        laws.blind_signed rnd key blind (dg.sha384 message) ctx r s public pair signs blinds in
      inner_verify_request-halves (record request { signature = signature }) public message r s
        (ap ec.unmarshal_compressed is_key
          ∙ laws.compressed public (
              laws.blinded-IsPublic (ec.public key) blind ctx public (laws.public-IsPublic key pair)
                usable blinds))
        written (sym halves) r_small s_small accepted
