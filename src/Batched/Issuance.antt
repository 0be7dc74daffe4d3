-- ===== src/Batched/Issuance.antt =====
-- The exchange of a batch from end to end: client, wire, issuer, client, issuer.
use pat_go.Base.{
  ◌*◌, ◌<◌, ◌≡◌, ◌≢◌, refl, sym, ◌∙◌, subst, true, none, some, List, [], ◌∷◌, ◌++◌, map, Bytes,
  length, last_byte-IsBytes, ok, ◌>>=◌, arith, Outcome-cases, >>=-eq-ok, inl, inr, All, IsBytes,
  append-nil,
}
use pat_go.Base.Chunks.{concat, HasLength, length-concat}
use pat_go.Wire.{Cryptobyte, prefixed16}
use pat_go.Oprf.{Oprf, OprfLaws, Answered}
use pat_go.Tokens.{Token}
use pat_go.Tokens.Layout.{authenticator_input_lem}
use pat_go.Batched.Request.{BatchedRequest, empty_batch, marshal, unmarshal}
use pat_go.Batched.Layout.{unmarshal-marshal_batch}
use pat_go.Batched.Client.{
  RequestState, finalize_tokens, unauthenticated, request_state, token_input, create_token_request,
  inputs_and_blinds, create_token_request_with_blinds,
}
use pat_go.Batched.Issuer.{evaluate, verify}
use pat_go.Batched.Outputs.{bare, bare_token, input, inputs_made, length-map-input, made_tokens}
use pat_go.Batched.Exchange.{encoded, request_state_made, evaluated_lem, finalized_lem}

module _ (cb : Cryptobyte) (o : Oprf) (sha256 : Bytes → Bytes) where
  -- Tokens for `bares` come out of the exchange: the request is written and read back as it is, the
  -- issuer answers it, the client makes the tokens of the answer, and the issuer verifies each.
  abbrev pub Issues : o.PrivateKey → List Token → RequestState cb o sha256 → Type 0
  Issues sk bares st =
      (out : Bytes) × (response : Bytes) × (tokens : List Token) × (marshal cb st.request
        ≡ some (out, record st.request { raw = some out }))
      × (unmarshal cb empty_batch out ≡ (st.request, true))
      × (evaluate cb o sha256 sk st.request ≡ ok response)
      × (finalize_tokens cb o sha256 st response ≡ ok tokens)
      × (map bare tokens ≡ bares)
      × All (λ t. verify cb o sha256 sk t ≡ ok tt) tokens

  module _ (laws : OprfLaws o) (element_fits : o.element_length ≡ 32)
      (output_fits : o.output_length ≡ 64) (hash_length : (x : Bytes) → length (sha256 x) ≡ 32)
      (sk : o.PrivateKey) (challenge key_id : Bytes) (key_id_length : length key_id ≡ 32) where
    issued :
        (nonces : List Bytes) (fd : o.FinalizeData) (elements : List o.Element)
        (st : RequestState cb o sha256)
        → All (HasLength 32) nonces
        → nonces ≢ []
        → length nonces < 2048
        → IsBytes key_id
        → Answered o sk (map (input cb o sha256 challenge key_id) nonces) fd elements
        → request_state cb o sha256
            (map (input cb o sha256 challenge key_id) nonces)
            key_id
            (o.public sk)
            (fd, elements)
          ≡ ok st
        → Issues sk (map (bare_token cb o sha256 challenge key_id) nonces) st
    issued nonces fd elements st lens ne short bytes
          (evaluated, proof, outputs, le, lv, ev, fin, known) made =
        let count = length-map-input cb o sha256 challenge key_id nonces in
        let (encs, enc) = encoded o laws elements in
        let (encs', enc') = encoded o laws evaluated in
        let (enc_p, p1, lp, p2) = laws.proof_round_trip proof in
        let (tokens, (read_all, same, verified)) =
          made_tokens cb o sha256 challenge key_id output_fits hash_length sk key_id_length nonces
            outputs lens known in
        let fixed : All (HasLength 32) encs =
          subst (λ k. All (HasLength k) encs) element_fits enc.2 in
        let fixed' : All (HasLength 32) encs' =
          subst (λ k. All (HasLength k) encs') element_fits enc'.2 in
        let (last, found, made') =
          request_state_made cb o sha256 (map (input cb o sha256 challenge key_id) nonces) key_id
            (o.public sk) fd elements encs st (sym le) enc made in
        let n : length encs ≡ length nonces = enc.3 ∙ le ∙ count in
        let body : length (concat encs') ≡ length nonces * 32 =
          omega (arith, length-concat 32 encs' fixed', enc'.3, lv, count) in
        let r : BatchedRequest = record { raw = none; token_key_id = last; blinded_req = encs } in
        let (out, written, back) =
          unmarshal-marshal_batch cb r empty_batch [] (last_byte-IsBytes key_id bytes found) refl
            fixed (nonempty_of encs nonces n ne) (omega (arith, n)) in
        let state : RequestState cb o sha256 = record {
          token_inputs = map (input cb o sha256 challenge key_id) nonces;
          request = r;
          client = o.public sk;
          verification_key = o.public sk;
          verifier = fd;
        } in
        rw made' (
          out,
          prefixed16 (concat encs') ++ enc_p,
          tokens,
          written,
          rw append-nil at back,
          evaluated_lem cb o sha256 sk r elements evaluated proof encs' enc_p enc enc' (lv ∙ sym le)
              ev p1 (omega (arith, body)),
          finalized_lem cb o sha256 state evaluated proof encs' outputs enc_p element_fits enc' lv
                (nonempty_of (map (input cb o sha256 challenge key_id) nonces) nonces count ne) lp
                p2 fin
              ∙ read_all,
          same,
          verified,
        )
      where
        nonempty_of :
            {A B : Type 0} (xs : List A) (ys : List B) → length xs ≡ length ys → ys ≢ [] → xs ≢ []
        nonempty_of [] [] h ne = λ _. ne refl
        nonempty_of [] (y ∷ ys) h ne = absurd (omega arith)
        nonempty_of (x ∷ xs) ys h ne = λ e. cc

    -- Every batch that the client makes for the issuer's public key, of one nonce at least and
    -- fewer than 2048, leads to tokens, one for each nonce in order, over that nonce, the challenge
    -- and the key identifier, which the issuer verifies; the request that the issuer reads off the
    -- wire is the one that was made. The laws of the pseudorandom function, its lengths and those
    -- of the hash, the nonces and the key identifier are given.
    pub create_token_request-Issues_batch :
        (rnd : o.Random) (nonces : List Bytes) (st : RequestState cb o sha256)
        → All (HasLength 32) nonces
        → nonces ≢ []
        → length nonces < 2048
        → IsBytes key_id
        → create_token_request cb o sha256 rnd challenge nonces key_id (o.public sk) ≡ ok st
        → Issues sk (map (unauthenticated cb o sha256 challenge key_id) nonces) st
    unfolding create_token_request
    create_token_request-Issues_batch rnd nonces st lens ne short bytes made =
        let made' = rw (inputs_made cb o sha256 challenge key_id nonces) at made in
        let ((fd, elements), blinded, rest) =
          >>=-eq-ok (o.blind (o.public sk) rnd (map (input cb o sha256 challenge key_id) nonces))
            (request_state cb o sha256 (map (input cb o sha256 challenge key_id) nonces) key_id
              (o.public sk))
            made' in
        issued nonces fd elements st lens ne short bytes
          (laws.blind_answered sk rnd (map (input cb o sha256 challenge key_id) nonces) fd elements
            blinded)
          rest

    inputs_and_blinds-inv :
        (nonces encoded_blinds : List Bytes) {inputs : List Bytes} {blinds : List o.Scalar}
        → inputs_and_blinds cb o sha256 challenge key_id nonces encoded_blinds ≡ ok (inputs, blinds)
        → inputs ≡ map (input cb o sha256 challenge key_id) nonces
    unfolding inputs_and_blinds token_input
    inputs_and_blinds-inv [] encoded_blinds h = cc
    inputs_and_blinds-inv (nonce ∷ nonces) [] h = cc
    inputs_and_blinds-inv (nonce ∷ nonces) (enc ∷ encoded_blinds) h =
        let made =
          authenticator_input_lem cb (bare_token cb o sha256 challenge key_id nonce)
            (omega arith) in
        elim (Outcome-cases (o.unmarshal_scalar enc)) [
          | inr failed ↦ ground arith
          | inl (blind, e) ↦
              elim (Outcome-cases
                (inputs_and_blinds cb o sha256 challenge key_id nonces encoded_blinds)) [
                  | inr failed ↦ ground arith
                  | inl ((inputs, blinds), e') ↦
                      ground (arith, inputs_and_blinds-inv nonces encoded_blinds e')
                ]
        ]

    -- Every batch that the client makes of the caller's blinds for the issuer's public key, of one
    -- nonce at least and fewer than 2048, leads to tokens, one for each nonce in order, over that
    -- nonce, the challenge and the key identifier, which the issuer verifies; the request that the
    -- issuer reads off the wire is the one that was made. The laws of the pseudorandom function, its
    -- lengths and those of the hash, the nonces and the key identifier are given.
    pub create_token_request_with_blinds-Issues_batch :
        (nonces encoded_blinds : List Bytes) (st : RequestState cb o sha256)
        → All (HasLength 32) nonces
        → nonces ≢ []
        → length nonces < 2048
        → IsBytes key_id
        → create_token_request_with_blinds cb o sha256 challenge nonces key_id
            (o.public sk)
            encoded_blinds
          ≡ ok st
        → Issues sk (map (unauthenticated cb o sha256 challenge key_id) nonces) st
    unfolding create_token_request_with_blinds
    create_token_request_with_blinds-Issues_batch nonces encoded_blinds st lens ne short bytes
          made =
        let ((inputs, blinds), read_all, made') =
          >>=-eq-ok (inputs_and_blinds cb o sha256 challenge key_id nonces encoded_blinds)
            (λ (inputs, blinds).
              o.deterministic_blind (o.public sk) inputs blinds
              >>= request_state cb o sha256 inputs key_id (o.public sk))
            made in
        let ((fd, elements), blinded, rest) =
          >>=-eq-ok (o.deterministic_blind (o.public sk) inputs blinds)
            (request_state cb o sha256 inputs key_id (o.public sk)) made' in
        let e = inputs_and_blinds-inv nonces encoded_blinds read_all in
        issued nonces fd elements st lens ne short bytes
          (laws.deterministic_blind_answered sk (map (input cb o sha256 challenge key_id) nonces)
            blinds fd elements (rw e at blinded))
          (rw e at rest)
