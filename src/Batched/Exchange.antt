-- ===== src/Batched/Exchange.antt =====
-- The steps of a batched exchange: the encodings of elements, the issuer's answer, and its reading.
use pat_go.Base.{
  ℕ, suc, ◌<◌, ◌≡◌, ◌≢◌, refl, sym, ap, ◌∙◌, subst, none, some, List, [], ◌∷◌, ◌++◌, map, Bytes,
  length, last_byte, ok, arith, Option-cases, inl, inr, collect, All, append-nil,
}
use pat_go.Base.Chunks.{concat, fit, fit_whole, HasLength}
use pat_go.Wire.{Cryptobyte, prefixed16}
use pat_go.Wire.Read.{read_uint16_length_prefixed-prefixed16}
use pat_go.Oprf.{Oprf, OprfLaws}
use pat_go.Batched.Request.{BatchedRequest, add_all}
use pat_go.Batched.Layout.{add_all_lem, batch_shape}
use pat_go.Batched.Client.{
  RequestState, marshal_elements, read_tokens, finalize_tokens, request_state,
}
use pat_go.Batched.Issuer.{evaluate}

-- The encodings of elements: one for each, of the fixed length, and decoded to what was encoded.
abbrev pub Encodes : (o : Oprf) → List o.Element → List Bytes → Type 0
Encodes o es encs =
    (marshal_elements o (length es) es ≡ ok encs)
    × (collect o.unmarshal_element encs ≡ ok es)
    × All (HasLength o.element_length) encs
    × (length encs ≡ length es)

pub encoded :
    (o : Oprf) → OprfLaws o → (es : List o.Element) → (encs : List Bytes) × Encodes o es encs
unfolding marshal_elements
encoded o laws [] = ([], (refl, refl, tt, refl))
encoded o laws (e ∷ es) =
    let (enc, e1, len, e2) = laws.element_round_trip e in
    let (encs, (h1, h2, lens, count)) = encoded o laws es in
    (enc ∷ encs, (simp (e1, h1, marshal_elements), simp (e2, h2), (len, lens), ap suc count))

pub map-fit_whole : (n : ℕ) (encs : List Bytes) → All (HasLength n) encs → map (fit n) encs ≡ encs
map-fit_whole n [] h = refl
map-fit_whole n (e ∷ encs) h = rw (fit_whole n e h.0, map-fit_whole n encs h.1)

module _ (cb : Cryptobyte) (o : Oprf) (sha256 : Bytes → Bytes) where
  -- The state that a client is left with.
  pub request_state_made :
      (inputs : List Bytes) (key_id : Bytes) (key : o.PublicKey) (fd : o.FinalizeData)
      (elements : List o.Element) (encs : List Bytes) (st : RequestState cb o sha256)
      → length inputs ≡ length elements
      → Encodes o elements encs
      → request_state cb o sha256 inputs key_id key (fd, elements) ≡ ok st
      → (last : ℕ) × (last_byte key_id ≡ some last)
        × (st ≡ record {
          token_inputs = inputs;
          request = record { raw = none; token_key_id = last; blinded_req = encs };
          client = key;
          verification_key = key;
          verifier = fd;
        })
  request_state_made inputs key_id key fd elements encs st n (m, _, _, _) made =
      let m' : marshal_elements o (length inputs) elements ≡ ok encs =
        ap (λ k. marshal_elements o k elements) n ∙ m in
      elim (Option-cases (last_byte key_id)) [
        | inl missing ↦ ground arith
        | inr (last, found) ↦ (last, found, ground arith)
      ]

  -- What the issuer writes for elements whose encodings it was sent.
  pub evaluated_lem :
      (sk : o.PrivateKey) (r : BatchedRequest) (elements evaluated : List o.Element)
      (proof : o.Proof) (encs : List Bytes) (enc_p : Bytes)
      → Encodes o elements r.blinded_req
      → Encodes o evaluated encs
      → length evaluated ≡ length elements
      → o.evaluate sk elements ≡ ok (evaluated, proof)
      → o.marshal_proof proof ≡ ok enc_p
      → length (concat encs) < 65536
      → evaluate cb o sha256 sk r ≡ ok (prefixed16 (concat encs) ++ enc_p)
  unfolding evaluate
  evaluated_lem sk r elements evaluated proof encs enc_p (_, d, _, n) (m, _, fixed, _) same ev p
        short =
      simp (
        d,
        ev,
        ap (λ k. marshal_elements o k evaluated) (n ∙ sym same) ∙ m,
        p,
        map-fit_whole o.element_length encs fixed,
        cb.add_bytes_lem _ enc_p (
            cb.add_uint16_length_prefixed_lem cb.new_builder (λ child. add_all cb child encs)
              cb.new_builder_lem (λ c. add_all_lem cb encs c) short),
        evaluate,
      )

  -- What the client makes of that answer.
  pub finalized_lem :
      (st : RequestState cb o sha256) (evaluated : List o.Element) (proof : o.Proof)
      (encs outputs : List Bytes) (enc_p : Bytes)
      → o.element_length ≡ 32
      → Encodes o evaluated encs
      → length evaluated ≡ length st.token_inputs
      → st.token_inputs ≢ []
      → length enc_p ≡ o.proof_length
      → o.unmarshal_proof enc_p ≡ ok proof
      → o.finalize st.client st.verifier evaluated proof ≡ ok outputs
      → finalize_tokens cb o sha256 st (prefixed16 (concat encs) ++ enc_p)
        ≡ read_tokens cb o sha256 st.token_inputs outputs
  unfolding finalize_tokens
  finalized_lem st evaluated proof encs outputs enc_p fits (_, d, fixed, n) same ne lp p fin =
      let fixed' : All (HasLength 32) encs = subst (λ k. All (HasLength k) encs) fits fixed in
      let (filled, divided, counted, pieces) =
        batch_shape cb encs st.token_inputs fixed' (n ∙ same) ne in
      simp (
        read_uint16_length_prefixed-prefixed16 cb (concat encs) enc_p,
        filled,
        fits,
        divided,
        counted,
        pieces,
        d,
        rw (append-nil) at (cb.read_bytes_lem o.proof_length enc_p [] lp),
        p,
        fin,
        finalize_tokens,
      )
