-- ===== src/Challenge/Inversion.antt =====
-- What the reader of challenges accepts.
use pat_go.Base.{
  ◌≡◌, ◌≢◌, refl, subst, true, false, some, [], ◌++◌, Bytes, ok, IsBytes, IsBytes-suffix,
  append_assoc, arith, lt→ltb, Bool-cases, Option-cases, inl, inr,
}
use pat_go.Base.Strings.{split, join-split}
use pat_go.Wire.{Cryptobyte, prefixed16, prefixed8}
use pat_go.Wire.Read.{
  read_uint16-inv, read_uint16_length_prefixed-inv, read_uint8_length_prefixed-inv,
}
use pat_go.Challenge.{TokenChallenge, comma, marshal, unmarshal}
use pat_go.Challenge.RoundTrip.{origins, layout, fits, marshal_challenge_lem}

module _ (cb : Cryptobyte) where
  abbrev Accepts : Bytes → TokenChallenge → Type 0
  Accepts data_ c =
      (c.issuer_name ≢ [])
      × ((out : Bytes) × (rest : Bytes) × (marshal cb c ≡ some out) × (data_ ≡ out ++ rest))

  accepted :
      (data_ joined : Bytes) (c : TokenChallenge) {s1 s2 s3 s4 : Bytes}
      → IsBytes data_
      → cb.read_uint16 data_ ≡ some (c.token_type, s1)
      → cb.read_uint16_length_prefixed s1 ≡ some (c.issuer_name, s2)
      → cb.is_empty c.issuer_name ≡ false
      → cb.read_uint8_length_prefixed s2 ≡ some (c.redemption_nonce, s3)
      → cb.read_uint16_length_prefixed s3 ≡ some (joined, s4)
      → c.origin_info ≡ split comma joined
      → Accepts data_ c
  accepted data_ joined c {s1} {s2} {s3} {s4} b e1 e2 e3 e4 e5 e6 =
      let (d1, typed, b1) = read_uint16-inv cb data_ b e1 in
      let (d2, l2) = read_uint16_length_prefixed-inv cb s1 b1 e2 in
      let b2 = IsBytes-suffix (prefixed16 c.issuer_name) s2 d2 b1 in
      let (d4, l4) = read_uint8_length_prefixed-inv cb s2 b2 e4 in
      let b4 = IsBytes-suffix (prefixed8 c.redemption_nonce) s3 d4 b2 in
      let (d5, l5) = read_uint16_length_prefixed-inv cb s3 b4 e5 in
      let o : origins c ≡ joined = rw e6 (join-split comma joined) in
      let f : fits c ≡ true = rw (o, lt→ltb _ _ l2, lt→ltb _ _ l4, lt→ltb _ _ l5) in
      (
        named,
        (
          layout c,
          s4,
          rw f at (marshal_challenge_lem cb c typed),
          rw (d1, d2, d4, d5, o) (simp append_assoc),
        ),
      )
    where
      named : c.issuer_name ≢ []
      named e = cc (e3, cb.is_empty_nil)

  -- Byte strings that the challenge reader accepts begin with the encoding of the challenge that it
  -- returns, and that challenge names an issuer.
  pub unmarshal-inv_challenge :
      (data_ : Bytes) {c : TokenChallenge}
      → IsBytes data_
      → unmarshal cb data_ ≡ ok c
      → (c.issuer_name ≢ [])
        × ((out : Bytes) × (rest : Bytes) × (marshal cb c ≡ some out) × (data_ ≡ out ++ rest))
  unfolding unmarshal
  unmarshal-inv_challenge data_ {c} b h = elim (Option-cases (cb.read_uint16 data_)) [
    | inl e ↦ ground arith
    | inr ((token_type, s1), e1) ↦ elim (Option-cases (cb.read_uint16_length_prefixed s1)) [
      | inl e ↦ ground arith
      | inr ((issuer_name, s2), e2) ↦ elim (Bool-cases (cb.is_empty issuer_name)) [
        | inl e ↦ ground arith
        | inr e3 ↦ elim (Option-cases (cb.read_uint8_length_prefixed s2)) [
          | inl e ↦ ground arith
          | inr ((nonce, s3), e4) ↦ elim (Option-cases (cb.read_uint16_length_prefixed s3)) [
            | inl e ↦ ground arith
            | inr ((joined, s4), e5) ↦
                let result : TokenChallenge = record {
                  token_type = token_type;
                  issuer_name = issuer_name;
                  redemption_nonce = nonce;
                  origin_info = split comma joined;
                } in
                let e : result ≡ c = ground arith in
                subst (Accepts data_) e (accepted data_ joined result b e1 e2 e3 e4 e5 refl)
          ]
        ]
      ]
    ]
  ]
