-- ===== src/Challenge/RoundTrip.antt =====
-- Writing and reading a challenge.
use pat_go.Base.{
  ◌<◌, ◌≡◌, ◌≢◌, ◌↔◌, refl, ap, Bool, true, false, ◌&&◌, none, some, [], ◌∷◌, ◌++◌, Bytes, length,
  ok, append_assoc, arith, ltb, lt→ltb, not_lt→ltb, if◌then◌else◌, Bool-cases, inl, inr, All,
  bytes_equal_refl, bytes_equal→eq,
}
use native.Mathlib.Decide.{dec_lt}
use pat_go.Base.Strings.{join, split, strings_equal_refl, strings_equal→eq, split-join, Lacks}
use pat_go.Wire.{Cryptobyte, be16, prefixed16, prefixed8}
use pat_go.Wire.Read.{read_uint16-be16, read_uint16_length_prefixed-prefixed16}
use pat_go.Challenge.{TokenChallenge, comma, equals, marshal, unmarshal}

abbrev pub origins : TokenChallenge → Bytes
origins c = join comma c.origin_info

abbrev pub layout : TokenChallenge → Bytes
layout c =
    be16 c.token_type
    ++ (prefixed16 c.issuer_name ++ (prefixed8 c.redemption_nonce ++ prefixed16 (origins c)))

-- Every part fits its length field.
abbrev pub fits : TokenChallenge → Bool
fits c =
    ltb (length c.issuer_name) 65536
    && ltb (length c.redemption_nonce) 256
    && ltb (length (origins c)) 65536

-- `Equals` says true of two challenges exactly when they are equal in all four fields.
pub equals_iff : (c o : TokenChallenge) → (equals c o ≡ true) ↔ (c ≡ o)
unfolding equals
equals_iff c o = (
  λ h. ground (
    arith,
    bytes_equal→eq c.issuer_name o.issuer_name,
    bytes_equal→eq c.redemption_nonce o.redemption_nonce,
    strings_equal→eq c.origin_info o.origin_info,
  ),
  λ e. rw e (
      ground (
        arith,
        bytes_equal_refl o.issuer_name,
        bytes_equal_refl o.redemption_nonce,
        strings_equal_refl o.origin_info,
      )),
)

told_apart :
    (c o : TokenChallenge) → c.origin_info ≡ [] → o.origin_info ≡ [] ∷ [] → equals c o ≡ false
told_apart c o h k = elim (Bool-cases (equals c o)) [
  | inl e ↦ cc (ap (λ (x : TokenChallenge). x.origin_info) ((equals_iff c o).0 e))
  | inr e ↦ e
]

module _ (cb : Cryptobyte) where
  child :
      (xs : Bytes) (c : cb.Builder)
      → cb.bytes_or_panic c ≡ some []
      → cb.bytes_or_panic (cb.add_bytes c xs) ≡ some xs
  child xs c h = cb.add_bytes_lem c xs h

  -- A challenge whose type is a 16-bit number is written as its layout if every part fits its
  -- length field, one byte for the nonce and two for the names, and otherwise `Marshal` panics: the
  -- tighter limits in the comment of the type, 32 bytes for the nonce and an issuer name that is
  -- not empty, are not checked.
  pub marshal_challenge_lem :
      (c : TokenChallenge)
      → c.token_type < 65536
      → marshal cb c ≡ (if fits c then some (layout c) else none)
  unfolding marshal
  marshal_challenge_lem c h = elim (dec_lt (length c.issuer_name) 65536) [
    | no long ↦ rw (not_lt→ltb _ _ long) (
        cb.add_uint16_length_prefixed_none _ _ (
          cb.add_uint8_length_prefixed_none _ _
            (cb.add_uint16_length_prefixed_long _ _ (child c.issuer_name) (omega arith))))
    | yes short ↦ elim (dec_lt (length c.redemption_nonce) 256) [
      | no long ↦
          rw (lt→ltb _ _ short, not_lt→ltb _ _ long)
            (cb.add_uint16_length_prefixed_none _ _
              (cb.add_uint8_length_prefixed_long _ _ (child c.redemption_nonce) (omega arith)))
      | yes short' ↦ elim (dec_lt (length (origins c)) 65536) [
        | no long ↦
            rw (lt→ltb _ _ short, lt→ltb _ _ short', not_lt→ltb _ _ long)
              (cb.add_uint16_length_prefixed_long _ _ (child (origins c)) (omega arith))
        | yes short'' ↦
            rw (lt→ltb _ _ short, lt→ltb _ _ short', lt→ltb _ _ short'')
              (simp append_assoc at (
                cb.add_uint16_length_prefixed_lem _ _
                  (cb.add_uint8_length_prefixed_lem _ _
                    (cb.add_uint16_length_prefixed_lem _ _
                      (cb.add_uint16_lem _ c.token_type h cb.new_builder_lem) (child c.issuer_name)
                      short)
                    (child c.redemption_nonce) short')
                  (child (origins c)) short''))
      ]
    ]
  ]

  nonempty : (xs : Bytes) → xs ≢ [] → cb.is_empty xs ≡ false
  nonempty [] h = absurd (h refl)
  nonempty (x ∷ xs) h = cb.is_empty_cons x xs

  pub unmarshal-layout :
      (c : TokenChallenge) (rest : Bytes)
      → c.issuer_name ≢ []
      → unmarshal cb (layout c ++ rest) ≡ ok (record c { origin_info = split comma (origins c) })
  unfolding unmarshal
  unmarshal-layout c rest h = simp (
    append_assoc,
    read_uint16-be16 cb c.token_type _,
    read_uint16_length_prefixed-prefixed16 cb c.issuer_name _,
    nonempty c.issuer_name h,
    cb.read_uint8_length_prefixed_lem c.redemption_nonce _,
    read_uint16_length_prefixed-prefixed16 cb (origins c) rest,
    unmarshal,
  )

  -- A challenge with an issuer, with one origin or more, no comma in any of them, and every part
  -- within its length field is written, and read back as it was, whatever follows it.
  pub unmarshal-marshal_challenge :
      (c : TokenChallenge) (rest : Bytes)
      → c.token_type < 65536
      → c.issuer_name ≢ []
      → c.origin_info ≢ []
      → All (Lacks comma) c.origin_info
      → fits c ≡ true
      → (out : Bytes) × (marshal cb c ≡ some out) × (unmarshal cb (out ++ rest) ≡ ok c)
  unmarshal-marshal_challenge c rest ht hi ho hl hf = (
    layout c,
    rw hf at (marshal_challenge_lem c ht),
    rw (split-join comma c.origin_info ho hl) at (unmarshal-layout c rest hi),
  )

  -- A challenge with an issuer and no origin, whose parts fit their length fields, is written, and is
  -- read back as one for the empty origin name, which `Equals` tells apart from it.
  pub unmarshal-marshal_no_origins :
      (c : TokenChallenge) (rest : Bytes)
      → c.token_type < 65536
      → c.issuer_name ≢ []
      → c.origin_info ≡ []
      → fits c ≡ true
      → (out : Bytes) × (c' : TokenChallenge) × (marshal cb c ≡ some out)
        × (unmarshal cb (out ++ rest) ≡ ok c')
        × (c'.origin_info ≡ [] ∷ [])
        × (equals c c' ≡ false)
  unmarshal-marshal_no_origins c rest ht hi ho hf =
      let c' : TokenChallenge = record c { origin_info = split comma (origins c) } in
      let o : c'.origin_info ≡ [] ∷ [] = rw ho (unfold join split in refl) in
      (
        layout c,
        c',
        rw hf at (marshal_challenge_lem c ht),
        unmarshal-layout c rest hi,
        o,
        told_apart c c' ho o,
      )
