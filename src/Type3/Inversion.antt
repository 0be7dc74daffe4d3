-- ===== src/Type3/Inversion.antt =====
-- What the reader of rate-limited requests accepts.
use pat_go.Base.{
  ◌≡◌, ◌≢◌, ◌⊎◌, refl, ap, ◌∙◌, subst, true, not, [], ◌∷◌, ◌++◌, Bytes, length, IsBytes,
  IsBytes-suffix, inl, inr, ==→eq, append_assoc, append-nil, ℕ,
}
use pat_go.Wire.{Cryptobyte, be16, prefixed16}
use pat_go.Wire.Steps.{
  read-inv, into-inv, check-inv, attempt-inv, check_rest-inv, accepted-inv, after-store-inv,
}
use pat_go.Wire.Read.{read_uint16-inv, read_bytes-inv, read_uint16_length_prefixed-inv}
use pat_go.Type3.{rate_limited_token_type}
use pat_go.Type3.Request.{RateLimitedRequest, unmarshal}
use pat_go.Type3.Layout.{HasParts, layout, signed_layout}

module _ (cb : Cryptobyte) where
  empty-inv : (xs : Bytes) → cb.is_empty xs ≡ true → xs ≡ []
  empty-inv [] h = refl
  empty-inv (x ∷ xs) h = cc (cb.is_empty_cons x xs)

  nonempty-inv : (xs : Bytes) → not (cb.is_empty xs) ≡ true → xs ≢ []
  nonempty-inv [] h = λ _. cc cb.is_empty_nil
  nonempty-inv (x ∷ xs) h = λ e. cc

  -- What a reader may have accepted.
  abbrev Accepts : RateLimitedRequest → Bytes → RateLimitedRequest → Type 0
  Accepts r0 data_ r =
      HasParts r
      × (r.raw ≡ r0.raw)
      × (((length r.signature ≡ 96) × (data_ ≡ layout r))
          ⊎ ((r.signature ≡ r0.signature) × (data_ ≡ signed_layout r)))

  join_parts :
      (t : ℕ) (key id enc s4 : Bytes) {s0 s1 s2 s3 : Bytes}
      → t ≡ rate_limited_token_type
      → s0 ≡ be16 t ++ s1
      → s1 ≡ key ++ s2
      → s2 ≡ id ++ s3
      → s3 ≡ prefixed16 enc ++ s4
      → s0 ≡ (be16 rate_limited_token_type ++ (key ++ (id ++ prefixed16 enc))) ++ s4
  join_parts t key id enc s4 e d1 d2 d3 d4 = rw (d1, e, d2, d3, d4) (simp append_assoc)

  -- Byte strings that the reader of rate-limited requests accepts are the encoding of the request
  -- that it leaves, which has its parts and the receiver's cache; either with a signature of 96
  -- bytes, or without a signature and then the receiver's is left.
  pub unmarshal-inv_limited :
      (r0 : RateLimitedRequest) (data_ : Bytes) {r : RateLimitedRequest}
      → IsBytes data_
      → unmarshal cb r0 data_ ≡ (r, true)
      → HasParts r
        × (r.raw ≡ r0.raw)
        × (((length r.signature ≡ 96) × (data_ ≡ layout r))
            ⊎ ((r.signature ≡ r0.signature) × (data_ ≡ signed_layout r)))
  unfolding unmarshal
  unmarshal-inv_limited r0 data_ {r} b h =
      let (x, e) = accepted-inv _ h in
      let (t, s1, e1, h1) = read-inv _ _ e in
      let (typed, h2) = check-inv _ _ h1 in
      let (key, s2, e2, h3) = into-inv _ _ _ h2 in
      let (id, s3, e3, h4) = into-inv _ _ _ h3 in
      let (enc, s4, e4, h5) = read-inv _ _ h4 in
      let (filled, h6) = check-inv _ _ h5 in
      let h7 = after-store-inv _ _ h6 in
      let (d1, _, b1) = read_uint16-inv cb data_ b e1 in
      let (d2, l2) = read_bytes-inv cb 49 s1 e2 in
      let (d3, l3) = read_bytes-inv cb 32 s2 e3 in
      let b3 = IsBytes-suffix id s3 d3 (IsBytes-suffix key s2 d2 b1) in
      let (d4, l4) = read_uint16_length_prefixed-inv cb s3 b3 e4 in
      let d = join_parts t key id enc s4 (==→eq _ _ typed) d1 d2 d3 d4 in
      let parts : (sig : Bytes)
          → HasParts (record {
            raw = r0.raw;
            request_key = key;
            name_key_id = id;
            encrypted_token_request = enc;
            signature = sig;
          }) =
        λ sig. record {
          request_key_length = l2;
          name_key_id_length = l3;
          encrypted_nonempty = nonempty-inv enc filled;
          encrypted_fits = l4;
        } in
      let front : Bytes = be16 rate_limited_token_type ++ (key ++ (id ++ prefixed16 enc)) in
      elim (attempt-inv _ _ _ h7) [
        | inl (sig, s5, e5, h8) ↦
            let (done, last) = check_rest-inv _ h8 in
            let (d5, l5) = read_bytes-inv cb 96 s4 e5 in
            subst (Accepts r0 data_) last (
              parts sig,
              refl,
              inl (
                l5,
                d
                    ∙ ap (λ s. front ++ s)
                        (d5 ∙ ap (λ s. sig ++ s) (empty-inv s5 done) ∙ append-nil sig),
              ),
            )
        | inr (e5, h8) ↦
            let (done, last) = check_rest-inv _ h8 in
            subst (Accepts r0 data_) last (
              parts r0.signature,
              refl,
              inr (refl, d ∙ ap (λ s. front ++ s) (empty-inv s4 done) ∙ append-nil front),
            )
      ]
