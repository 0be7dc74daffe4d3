-- ===== src/Type2/Issuance.antt =====
-- The protocol of type 2 from end to end.
use pat_go.Base.{
  ◌≡◌, refl, ◌∙◌, subst, none, some, ◌++◌, Bytes, length, last_byte, ok, arith, Option-cases,
  >>=-eq-ok, Outcome-cases, inl, inr,
}
use pat_go.Wire.{Cryptobyte}
use pat_go.BlindRsa.{BlindRsa, BlindRsaLaws, Signed}
use pat_go.Tokens.{Token, authenticator_input}
use pat_go.Tokens.Layout.{
  HasShape, HasLengths, input_layout, authenticator_input_lem, unmarshal_token-input_layout,
}
use pat_go.Type2.{unmarshal_public_token}
use pat_go.Type2.Client.{
  RequestState, finalize_token, unauthenticated, request_state, create_token_request,
  create_token_request_with_blind, evaluate,
}

module _ (cb : Cryptobyte) (b : BlindRsa) (sha256 : Bytes → Bytes) where
  -- The token's signature verifies under a public key.
  abbrev pub Verifies : b.PublicKey → Token → Type 0
  Verifies key t =
      (input : Bytes) × (authenticator_input cb t ≡ some input)
      × (b.verify_pss key (b.sha384 input) t.authenticator ≡ ok tt)

  -- Whatever response a client is given, a token that it returns verifies under its key.
  pub finalize_token-Verifies :
      (st : RequestState cb b sha256) (response : Bytes) {t : Token}
      → finalize_token cb b sha256 st response ≡ ok t
      → Verifies st.verification_key t
  unfolding finalize_token
  finalize_token-Verifies st response {t} h =
      elim (Outcome-cases (b.finalize st.verifier response)) [
        | inr failed ↦ ground arith
        | inl (sig, e1) ↦ elim (Outcome-cases (unmarshal_public_token cb (st.token_input ++ sig))) [
          | inr failed ↦ ground arith
          | inl (token, e2) ↦ elim (Option-cases (authenticator_input cb token)) [
            | inl missing ↦ ground arith
            | inr (input, e3) ↦
                elim (Outcome-cases
                  (b.verify_pss st.verification_key (b.sha384 input) token.authenticator)) [
                    | inr failed ↦ ground arith
                    | inl (_, e4) ↦
                        let e : token ≡ t = ground arith in
                        subst (Verifies st.verification_key) e (input, e3, e4)
                  ]
          ]
        ]
      ]

  abbrev pub Signs : b.PrivateKey → Token → RequestState cb b sha256 → Type 0
  Signs sk t st =
      (response : Bytes) × (authenticator : Bytes) × (evaluate cb b sha256 sk st.request
        ≡ ok response)
      × (finalize_token cb b sha256 st response ≡ ok (record t { authenticator = authenticator }))
      × Verifies (b.public sk) (record t { authenticator = authenticator })

  module _ (laws : BlindRsaLaws b) (sk : b.PrivateKey) (key_fits : b.key_length (b.public sk) ≡ 256)
      (hash_length : (x : Bytes) → length (sha256 x) ≡ 32) (challenge nonce key_id : Bytes)
      (lengths : HasLengths nonce key_id) (st : RequestState cb b sha256) where
    token_shape : HasShape 0 (unauthenticated cb b sha256 challenge nonce key_id)
    token_shape = record {
      type_fits = omega arith;
      nonce_length = lengths.nonce_length;
      context_length = hash_length challenge;
      key_id_length = lengths.key_id_length;
      authenticator_length = refl;
    }

    Signed-Signs :
        (blinded : Bytes) (state : b.VerifierState)
        → let t = unauthenticated cb b sha256 challenge nonce key_id in
          Signed b sk (input_layout t) blinded state
          → request_state cb b sha256 (input_layout t) key_id (b.public sk) (blinded, state) ≡ ok st
          → Signs sk t st
    unfolding evaluate finalize_token unmarshal_public_token
    Signed-Signs blinded state (bs, sig, _, signed, finalized, len, valid) made =
        let t = unauthenticated cb b sha256 challenge nonce key_id in
        let input =
          authenticator_input_lem cb (record t { authenticator = sig }) token_shape.type_fits in
        elim (Option-cases (last_byte key_id)) [
          | inl missing ↦ ground arith
          | inr (last, found) ↦
              let made' : st ≡ record {
                token_input = input_layout t;
                request = record { raw = none; token_key_id = last; blinded_req = blinded };
                verification_key = b.public sk;
                verifier = state;
              } =
                ground arith in
              rw made' (
                bs,
                sig,
                signed,
                simp (
                  finalized,
                  unmarshal_token-input_layout cb 256 t sig token_shape (len ∙ key_fits),
                  input,
                  valid,
                  finalize_token,
                ),
                (input_layout t, input, valid),
              )
        ]

    -- Every request that the client makes for the issuer's key leads to a token over the client's
    -- nonce, challenge and key identifier whose signature verifies under the issuer's key, given the
    -- laws of blind RSA, a 256-byte modulus and 32-byte hashes and inputs.
    pub create_token_request-Signs :
        (rnd : b.Random)
        → create_token_request cb b sha256 rnd challenge nonce key_id (b.public sk) ≡ ok st
        → Signs sk (unauthenticated cb b sha256 challenge nonce key_id) st
    unfolding create_token_request
    create_token_request-Signs rnd made =
        let t = unauthenticated cb b sha256 challenge nonce key_id in
        let made' = rw (authenticator_input_lem cb t token_shape.type_fits) at made in
        let ((blinded, state), e, rest) =
          >>=-eq-ok (b.blind (b.public sk) rnd (input_layout t))
            (request_state cb b sha256 (input_layout t) key_id (b.public sk)) made' in
        Signed-Signs blinded state (laws.blind_signed sk rnd (input_layout t) blinded state e) rest

    -- Every request that the client makes from the caller's blind and salt for the issuer's key leads
    -- to a token over the client's nonce, challenge and key identifier whose signature verifies under
    -- the issuer's key, given the laws of blind RSA, a 256-byte modulus and 32-byte hashes and inputs.
    pub create_token_request_with_blind-Signs :
        (blind salt : Bytes)
        → create_token_request_with_blind cb b sha256 challenge nonce key_id
            (b.public sk)
            blind
            salt
          ≡ ok st
        → Signs sk (unauthenticated cb b sha256 challenge nonce key_id) st
    unfolding create_token_request_with_blind
    create_token_request_with_blind-Signs blind salt made =
        let t = unauthenticated cb b sha256 challenge nonce key_id in
        let made' = rw (authenticator_input_lem cb t token_shape.type_fits) at made in
        let ((blinded, state), e, rest) =
          >>=-eq-ok (b.fixed_blind (b.public sk) (input_layout t) blind salt)
            (request_state cb b sha256 (input_layout t) key_id (b.public sk)) made' in
        Signed-Signs blinded state
          (laws.fixed_blind_signed sk (input_layout t) blind salt blinded state e) rest
