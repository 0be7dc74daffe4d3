-- ===== src/Type1/Issuance.antt =====
-- The protocol of type 1 from end to end: client, issuer, client, issuer.
use pat_go.Base.{
  ◌≡◌, refl, sym, ap, ◌∙◌, none, List, [], ◌∷◌, ◌++◌, Bytes, length, drop, drop-append,
  slice_to-append, last_byte, ok, ◌>>=◌, bytes_equal_refl, arith, Option-cases, >>=-eq-ok, inl, inr,
}
use pat_go.Wire.{Cryptobyte}
use pat_go.Oprf.{Oprf, OprfLaws, Answered, Outputs}
use pat_go.Tokens.{Token}
use pat_go.Tokens.Layout.{
  HasShape, HasLengths, input_layout, authenticator_input_lem, unmarshal_token-input_layout,
}
use pat_go.Type1.{unmarshal_private_token}
use pat_go.Type1.Client.{
  RequestState, finalize_token, unauthenticated, request_state, create_token_request,
  create_token_request_with_blind,
}
use pat_go.Type1.Issuer.{evaluate, verify}

module _ (cb : Cryptobyte) (o : Oprf) (sha256 : Bytes → Bytes) where
  -- A token for the input of `t` comes out of the exchange: the issuer answers the request, the
  -- client makes a token of the answer, and the issuer verifies it.
  abbrev pub Issues : o.PrivateKey → Token → RequestState cb o sha256 → Type 0
  Issues sk t st =
      (response : Bytes) × (authenticator : Bytes) × (evaluate cb o sha256 sk st.request
        ≡ ok response)
      × (finalize_token cb o sha256 st response ≡ ok (record t { authenticator = authenticator }))
      × (verify cb o sha256 sk (record t { authenticator = authenticator }) ≡ ok tt)

  module _ (laws : OprfLaws o) (output_fits : o.output_length ≡ 48) (sk : o.PrivateKey) (t : Token)
      (shape : HasShape 0 t) where
    answered :
        (key_id : Bytes) (fd : o.FinalizeData) (e v : o.Element) (proof : o.Proof) (out : Bytes)
        (st : RequestState cb o sha256)
        → o.evaluate sk (e ∷ []) ≡ ok (v ∷ [], proof)
        → o.finalize (o.public sk) fd (v ∷ []) proof ≡ ok (out ∷ [])
        → o.full_evaluate sk (input_layout t) ≡ ok out
        → length out ≡ 48
        → request_state cb o sha256 (input_layout t) key_id (o.public sk) (fd, e ∷ []) ≡ ok st
        → Issues sk t st
    unfolding evaluate finalize_token verify unmarshal_private_token
    answered key_id fd e v proof out st evaluated finalized known len made =
        let (enc, e1, _, e2) = laws.element_round_trip e in
        let (enc_v, v1, lv, v2) = laws.element_round_trip v in
        let (enc_p, p1, _, p2) = laws.proof_round_trip proof in
        elim (Option-cases (last_byte key_id)) [
          | inl missing ↦ ground arith
          | inr (last, found) ↦
              let made' : st ≡ record {
                token_input = input_layout t;
                request = record { raw = none; token_key_id = last; blinded_req = enc };
                client = o.public sk;
                verification_key = o.public sk;
                verifier = fd;
              } =
                ground arith in
              rw made' (
                enc_v ++ enc_p,
                out,
                simp (e2, evaluated, v1, p1, evaluate),
                simp (
                  slice_to-append o.element_length enc_v enc_p lv,
                  v2,
                  ap (λ n. drop n (enc_v ++ enc_p)) (sym lv) ∙ drop-append enc_v enc_p,
                  p2,
                  finalized,
                  unmarshal_token-input_layout cb 48 t out shape len,
                  finalize_token,
                ),
                simp (
                  authenticator_input_lem cb (record t { authenticator = out }) shape.type_fits,
                  known,
                  bytes_equal_refl out,
                  verify,
                ),
              )
        ]

    issued :
        (key_id : Bytes) (fd : o.FinalizeData) (elements evaluated : List o.Element)
        (proof : o.Proof) (outputs : List Bytes) (st : RequestState cb o sha256)
        → length elements ≡ 1
        → length evaluated ≡ 1
        → o.evaluate sk elements ≡ ok (evaluated, proof)
        → o.finalize (o.public sk) fd evaluated proof ≡ ok outputs
        → Outputs o sk (input_layout t ∷ []) outputs
        → request_state cb o sha256 (input_layout t) key_id (o.public sk) (fd, elements) ≡ ok st
        → Issues sk t st
    issued key_id fd (e ∷ []) (v ∷ []) proof (out ∷ []) st _ _ ev fin known made =
        answered key_id fd e v proof out st ev fin known.0 (known.1 ∙ output_fits) made
    issued key_id fd [] _ _ _ _ l _ _ _ _ _ = absurd (omega arith)
    issued key_id fd (e ∷ e' ∷ r) _ _ _ _ l _ _ _ _ _ = absurd (omega arith)
    issued key_id fd (e ∷ []) [] _ _ _ _ l _ _ _ _ = absurd (omega arith)
    issued key_id fd (e ∷ []) (v ∷ v' ∷ r) _ _ _ _ l _ _ _ _ = absurd (omega arith)
    issued key_id fd (e ∷ []) (v ∷ []) _ [] _ _ _ _ _ known _ = absurd known
    issued key_id fd (e ∷ []) (v ∷ []) _ (out ∷ out' ∷ r) _ _ _ _ _ known _ = absurd known.2

    blinded-Issues :
        (key_id : Bytes) (fd : o.FinalizeData) (elements : List o.Element)
        (st : RequestState cb o sha256)
        → Answered o sk (input_layout t ∷ []) fd elements
        → request_state cb o sha256 (input_layout t) key_id (o.public sk) (fd, elements) ≡ ok st
        → Issues sk t st
    blinded-Issues key_id fd elements st (evaluated, proof, outputs, l, l', ev, fin, known) made =
        issued key_id fd elements evaluated proof outputs st l l' ev fin known made

  module _ (laws : OprfLaws o) (output_fits : o.output_length ≡ 48)
      (hash_length : (x : Bytes) → length (sha256 x) ≡ 32) (sk : o.PrivateKey)
      (challenge nonce key_id : Bytes) (lengths : HasLengths nonce key_id)
      (st : RequestState cb o sha256) where
    token_shape : HasShape 0 (unauthenticated cb o sha256 challenge nonce key_id)
    token_shape = record {
      type_fits = omega arith;
      nonce_length = lengths.nonce_length;
      context_length = hash_length challenge;
      key_id_length = lengths.key_id_length;
      authenticator_length = refl;
    }

    -- Every request that the client makes for the issuer's public key leads to a token over the
    -- client's nonce, challenge and key identifier that the issuer verifies, given the laws of the
    -- pseudorandom function, its 48-byte outputs and 32-byte hashes and inputs.
    pub create_token_request-Issues :
        (rnd : o.Random)
        → create_token_request cb o sha256 rnd challenge nonce key_id (o.public sk) ≡ ok st
        → Issues sk (unauthenticated cb o sha256 challenge nonce key_id) st
    unfolding create_token_request
    create_token_request-Issues rnd made =
        let t = unauthenticated cb o sha256 challenge nonce key_id in
        let input = input_layout t in
        let made' = rw (authenticator_input_lem cb t token_shape.type_fits) at made in
        let ((fd, elements), blinded, rest) =
          >>=-eq-ok (o.blind (o.public sk) rnd (input ∷ []))
            (request_state cb o sha256 input key_id (o.public sk)) made' in
        blinded-Issues laws output_fits sk t token_shape key_id fd elements st
          (laws.blind_answered sk rnd (input ∷ []) fd elements blinded) rest

    -- Every request that the client makes from the caller's blind for the issuer's public key leads to
    -- a token over the client's nonce, challenge and key identifier that the issuer verifies, given
    -- the laws of the pseudorandom function, its 48-byte outputs and 32-byte hashes and inputs.
    pub create_token_request_with_blind-Issues :
        (blind_enc : Bytes)
        → create_token_request_with_blind cb o sha256 challenge nonce key_id (o.public sk) blind_enc
          ≡ ok st
        → Issues sk (unauthenticated cb o sha256 challenge nonce key_id) st
    unfolding create_token_request_with_blind
    create_token_request_with_blind-Issues blind_enc made =
        let t = unauthenticated cb o sha256 challenge nonce key_id in
        let input = input_layout t in
        let made' = rw (authenticator_input_lem cb t token_shape.type_fits) at made in
        let (blind, _, made'') =
          >>=-eq-ok (o.unmarshal_scalar blind_enc)
            (λ b.
              o.deterministic_blind (o.public sk) (input ∷ []) (b ∷ [])
              >>= request_state cb o sha256 input key_id (o.public sk))
            made' in
        let ((fd, elements), blinded, rest) =
          >>=-eq-ok (o.deterministic_blind (o.public sk) (input ∷ []) (blind ∷ []))
            (request_state cb o sha256 input key_id (o.public sk)) made'' in
        blinded-Issues laws output_fits sk t token_shape key_id fd elements st
          (laws.deterministic_blind_answered sk (input ∷ []) (blind ∷ []) fd elements blinded) rest
