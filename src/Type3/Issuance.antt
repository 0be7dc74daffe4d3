-- ===== src/Type3/Issuance.antt =====
-- What a client of rate-limited tokens accepts.
use pat_go.Base.{◌≡◌, subst, ◌++◌, Bytes, ok, arith, Option-cases, Outcome-cases, inl, inr}
use pat_go.Wire.{Cryptobyte}
use pat_go.Ecdsa.{Ecdsa}
use pat_go.BlindRsa.{BlindRsa}
use pat_go.Hpke.{Hpke}
use pat_go.Tokens.{Token, authenticator_input}
use pat_go.Type2.Issuance.{Verifies}
use pat_go.Type3.{unmarshal_rate_limited_token}
use pat_go.Type3.Attester.{Digests}
use pat_go.Type3.Response.{Response}
use pat_go.Type3.Client.{RequestState, open_response, finalize_token}

module _ (cb : Cryptobyte) (ec : Ecdsa) (dg : Digests) (h : Hpke) (b : BlindRsa) (rs : Response)
    (sha256 : Bytes → Bytes) where
  -- Whatever encrypted response a client is given, the signature of a token that it returns verifies
  -- under its key.
  pub finalize_token-Verifies_limited :
      (st : RequestState cb ec dg h b rs sha256) (encrypted : Bytes) {t : Token}
      → finalize_token cb ec dg h b rs sha256 st encrypted ≡ ok t
      → Verifies cb b sha256 st.verification_key t
  unfolding finalize_token
  finalize_token-Verifies_limited st encrypted {t} made =
      elim (Outcome-cases (open_response cb ec dg h b rs sha256 st encrypted)) [
        | inr failed ↦ ground arith
        | inl (response, e0) ↦ elim (Outcome-cases (b.finalize st.verifier response)) [
          | inr failed ↦ ground arith
          | inl (sig, e1) ↦
              elim (Outcome-cases (unmarshal_rate_limited_token cb (st.token_input ++ sig))) [
                | inr failed ↦ ground arith
                | inl (token, e2) ↦ elim (Option-cases (authenticator_input cb token)) [
                  | inl missing ↦ ground arith
                  | inr (input, e3) ↦
                      elim (Outcome-cases
                        (b.verify_pss st.verification_key (b.sha384 input) token.authenticator)) [
                          | inr failed ↦ ground arith
                          | inl (_, e4) ↦
                              let e : token ≡ t = ground arith in
                              subst (Verifies cb b sha256 st.verification_key) e (input, e3, e4)
                        ]
                ]
              ]
        ]
      ]
