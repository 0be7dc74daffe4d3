-- ===== src/Type3/Grants.antt =====
-- What the issuer of rate-limited tokens insists on before it answers.
use pat_go.Base.{
  ℕ, ◌≡◌, refl, true, false, some, Bytes, Outcome, ok, arith, Option-cases, Outcome-cases, inl, inr,
  slice_to, Bool, err, if◌then◌else◌,
}
use pat_go.Wire.{Cryptobyte}
use pat_go.Ecdsa.{Ecdsa}
use pat_go.BlindRsa.{BlindRsa}
use pat_go.Hpke.{Hpke}
use pat_go.Type3.Request.{RateLimitedRequest, empty_limited, unmarshal}
use pat_go.Type3.Inner.{InnerRequest}
use pat_go.Type3.Padding.{unpad_origin_name}
use pat_go.Type3.Encryption.{decrypt_origin_token_request}
use pat_go.Type3.Attester.{Digests, unmarshal_public_key}
use pat_go.Type3.Response.{Response}
use pat_go.Type3.Issuer.{
  RateLimitedIssuer, origin_index_key, check_signature, issuer_blind, seal_response, max, respond,
  answer, evaluate,
}

module _ (cb : Cryptobyte) (ec : Ecdsa) (dg : Digests) (h : Hpke) (b : BlindRsa) (rs : Response)
    (sha256 : Bytes → Bytes) (i : RateLimitedIssuer cb ec dg h b rs sha256)
    (random : ℕ → Outcome Bytes) where
  -- The inner request of `req` names a registered origin, the signature of `req` verifies under its
  -- key, and `out` is that key blinded with the key of the origin.
  abbrev pub Grants : RateLimitedRequest → Bytes → Type 0
  Grants req out =
      (inner : InnerRequest) × (secret : Bytes) × (index_key : ec.PrivateKey)
      × (request_key : ec.PublicKey) × (ctx : Bytes) × (blinded : ec.PublicKey)
      × (decrypt_origin_token_request cb h sha256 i.name_key req.request_key
            req.encrypted_token_request
          ≡ ok (inner, secret))
      × (origin_index_key cb ec dg h b rs sha256 i (unpad_origin_name inner.padded_origin)
          ≡ some index_key)
      × (unmarshal_public_key cb ec dg req.request_key ≡ ok request_key)
      × (check_signature cb ec dg h b rs sha256 req request_key ≡ ok tt)
      × (issuer_blind cb ec dg h b rs sha256 ≡ ok ctx)
      × (ec.blind_public_key_with_context request_key index_key ctx ≡ ok blinded)
      × (out ≡ ec.marshal_compressed blinded)

  respond-key :
      (req : RateLimitedRequest) (msg secret : Bytes) (blinded : ec.PublicKey)
      {response out : Bytes}
      → respond cb ec dg h b rs sha256 i random req msg secret blinded ≡ ok (response, out)
      → out ≡ ec.marshal_compressed blinded
  unfolding respond
  respond-key req msg secret blinded made = elim (Outcome-cases (b.blind_sign i.token_key msg)) [
    | inr e ↦ ground arith
    | inl (sig, e1) ↦ elim (Outcome-cases (random (max rs.key_size rs.nonce_size))) [
      | inr e ↦ ground arith
      | inl (nonce, e2) ↦
          elim (Option-cases
            (slice_to (h.public_key_size i.name_key.suite) req.encrypted_token_request)) [
              | inl e ↦ ground arith
              | inr (enc, e3) ↦
                  elim (Outcome-cases (seal_response cb ec dg h b rs sha256 enc secret nonce sig)) [
                    | inr e ↦ ground arith
                    | inl (response, e4) ↦ ground arith
                  ]
            ]
    ]
  ]

  answer-Grants :
      (req : RateLimitedRequest) {response out : Bytes}
      → answer cb ec dg h b rs sha256 i random req ≡ ok (response, out)
      → Grants req out
  unfolding answer
  answer-Grants req {response} {out} made =
      elim (Outcome-cases (
        decrypt_origin_token_request cb h sha256 i.name_key req.request_key
          req.encrypted_token_request)) [
            | inr e ↦ ground arith
            | inl ((inner, secret), e1) ↦
                elim (Option-cases (
                  origin_index_key cb ec dg h b rs sha256 i
                    (unpad_origin_name inner.padded_origin))) [
                      | inl e ↦ ground arith
                      | inr (index_key, e2) ↦
                          elim (Outcome-cases (unmarshal_public_key cb ec dg req.request_key)) [
                            | inr e ↦ ground arith
                            | inl (request_key, e3) ↦
                                elim (Outcome-cases
                                  (check_signature cb ec dg h b rs sha256 req request_key)) [
                                    | inr e ↦ ground arith
                                    | inl (_, e4) ↦
                                        elim (Outcome-cases (issuer_blind cb ec dg h b rs sha256)) [
                                          | inr e ↦ ground arith
                                          | inl (ctx, e5) ↦
                                              elim (Outcome-cases (
                                                ec.blind_public_key_with_context request_key
                                                  index_key ctx)) [
                                                    | inr e ↦ ground arith
                                                    | inl (blinded, e6) ↦
                                                        let rest : respond cb ec dg h b rs sha256 i
                                                            random req inner.blinded_msg secret
                                                            blinded
                                                            ≡ ok (response, out) =
                                                          ground arith in
                                                        (
                                                          inner,
                                                          secret,
                                                          index_key,
                                                          request_key,
                                                          ctx,
                                                          blinded,
                                                          e1,
                                                          e2,
                                                          e3,
                                                          e4,
                                                          e5,
                                                          e6,
                                                          respond-key req inner.blinded_msg secret
                                                            blinded rest,
                                                        )
                                                  ]
                                        ]
                                  ]
                          ]
                    ]
          ]

  -- When `Evaluate` answers, the bytes that it was given are those of a request whose inner request
  -- names a registered origin and whose signature verifies under its request key, and the key
  -- returned with the answer is that key blinded with the key of the origin.
  pub evaluate-Grants :
      (encoded_request : Bytes) {response out : Bytes}
      → evaluate cb ec dg h b rs sha256 i random encoded_request ≡ ok (response, out)
      → (req : RateLimitedRequest) × (unmarshal cb empty_limited encoded_request ≡ (req, true))
        × Grants req out
  unfolding evaluate
  evaluate-Grants encoded_request {response} {out} made =
      go (unmarshal cb empty_limited encoded_request) refl made
    where
      go :
          (o : RateLimitedRequest × Bool)
          → unmarshal cb empty_limited encoded_request ≡ o
          → (if o.1 then answer cb ec dg h b rs sha256 i random o.0 else err "malformed request")
            ≡ ok (response, out)
          → (req : RateLimitedRequest) × (unmarshal cb empty_limited encoded_request ≡ (req, true))
            × Grants req out
      go (req, true) e granted = (req, e, answer-Grants req granted)
      go (req, false) e refused = cc
