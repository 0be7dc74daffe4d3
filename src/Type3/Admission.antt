-- ===== src/Type3/Admission.antt =====
-- Whom the attester lets in: the ways in which `VerifyRequest` ends without an error.
use pat_go.Base.{
  ◌≡◌, ◌≢◌, ◌⊎◌, ap, ◌∙◌, subst, Bytes, String, bytes_equal, bytes_equal→eq, Outcome, ok, err,
  panic, Bool-cases, Outcome-cases, inl, inr,
}
use pat_go.Wire.{Cryptobyte}
use pat_go.Ecdsa.{Ecdsa}
use pat_go.Type3.Request.{RateLimitedRequest}
use pat_go.Type3.Clients.{ClientStateCache}
use pat_go.Type3.Attester.{
  Digests, inner_verify_request, unmarshal_public_key, blinded_key, register, verify_request,
}

module _ (cb : Cryptobyte) (ec : Ecdsa) (dg : Digests) where
  -- The signature of the request verifies, and the request is under the client's key, blinded.
  abbrev pub Authenticates : RateLimitedRequest → Bytes → Bytes → Type 0
  Authenticates r blind client =
      (client_key : ec.PublicKey) × (blind_key : ec.PrivateKey) × (inner_verify_request cb ec dg r
        ≡ ok tt)
      × (unmarshal_public_key cb ec dg client ≡ ok client_key)
      × (ec.create_key blind ≡ ok blind_key)
      × (blinded_key cb ec dg client_key blind_key ≡ ok r.request_key)

  -- One of the two failures that the handler does not report.
  abbrev pub Unreported : RateLimitedRequest → Bytes → Type 0
  Unreported r blind =
      ((message : String) × (inner_verify_request cb ec dg r ≡ err message))
      ⊎ ((message : String) × (ec.create_key blind ≡ err message))

  module _ (cs : ClientStateCache) (c : cs.Cache) (r : RateLimitedRequest)
      (blind client : Bytes) where
    verify_request-cases :
        (Authenticates r blind client
          × (verify_request cb ec dg cs c r blind client
              ≡ (ok tt, register cb ec dg cs c (dg.hex client))))
        ⊎ ((Unreported r blind × (verify_request cb ec dg cs c r blind client ≡ (ok tt, c)))
            ⊎ ((out : Outcome (Unit {0})) × (◌≢◌ {A = Outcome (Unit {0})} out (ok tt))
                × (verify_request cb ec dg cs c r blind client ≡ (out, c))))
    unfolding verify_request
    verify_request-cases = elim (Outcome-cases (inner_verify_request cb ec dg r)) [
      | inr (inl (m, e)) ↦ inr (inl (inl (m, e), simp (e, verify_request)))
      | inr (inr e) ↦ inr (inr (panic, λ h. cc, simp (e, verify_request)))
      | inl (_, e) ↦ elim (Outcome-cases (unmarshal_public_key cb ec dg client)) [
        | inr (inl (m, e1)) ↦ inr (inr (err m, λ h. cc, simp (e, e1, verify_request)))
        | inr (inr e1) ↦ inr (inr (panic, λ h. cc, simp (e, e1, verify_request)))
        | inl (client_key, e1) ↦ elim (Outcome-cases (ec.create_key blind)) [
          | inr (inl (m, e2)) ↦ inr (inl (inr (m, e2), simp (e, e1, e2, verify_request)))
          | inr (inr e2) ↦ inr (inr (panic, λ h. cc, simp (e, e1, e2, verify_request)))
          | inl (blind_key, e2) ↦ elim (Outcome-cases (blinded_key cb ec dg client_key blind_key)) [
            | inr (inl (m, e3)) ↦ inr (inr (err m, λ h. cc, simp (e, e1, e2, e3, verify_request)))
            | inr (inr e3) ↦ inr (inr (panic, λ h. cc, simp (e, e1, e2, e3, verify_request)))
            | inl (encoded, e3) ↦ elim (Bool-cases (bytes_equal encoded r.request_key)) [
              | inl e4 ↦ inl (
                (
                  client_key,
                  blind_key,
                  e,
                  e1,
                  e2,
                  e3 ∙ ap ok (bytes_equal→eq encoded r.request_key e4),
                ),
                simp (e, e1, e2, e3, e4, verify_request),
              )
              | inr e4 ↦ inr (
                  inr (
                    err "Mismatch blinded public key",
                    λ h. cc,
                    simp (e, e1, e2, e3, e4, verify_request),
                  ))
            ]
          ]
        ]
      ]
    ]

    -- `VerifyRequest` ends without an error only when the request authenticates the client, who is
    -- then known, or when its signature is invalid or the blind is no key, and then the cache is left
    -- as it was.
    pub verify_request-ok :
        (verify_request cb ec dg cs c r blind client).0 ≡ ok tt
        → (Authenticates r blind client
            × ((verify_request cb ec dg cs c r blind client).1
                ≡ register cb ec dg cs c (dg.hex client)))
          ⊎ (Unreported r blind × ((verify_request cb ec dg cs c r blind client).1 ≡ c))
    verify_request-ok h = elim verify_request-cases [
      | inl (a, e) ↦ inl (a, ap (λ o. o.1) e)
      | inr (inl (u, e)) ↦ inr (u, ap (λ o. o.1) e)
      | inr (inr (out, failed, e)) ↦ absurd (failed (subst (λ o. o.0 ≡ ok tt) e h))
    ]
