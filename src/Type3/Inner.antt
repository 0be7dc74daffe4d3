-- ===== src/Type3/Inner.antt =====
-- tokens/type3/inner_token_request.go: what a request carries encrypted, and its encoding.
use pat_go.Base.{
  ℕ, ◌<◌, ◌≡◌, refl, ap, ◌∙◌, subst, Bool, true, Option, none, some, ◌∷◌, ◌++◌, Bytes, length,
  IsBytes, IsBytes-suffix, append_assoc,
}
use pat_go.Wire.{Cryptobyte, prefixed16}
use pat_go.Wire.Steps.{
  Parse, ◌>>◌, into, into_lem, after-into, into-inv, into_last-inv, accepted, accepted-inv,
}
use pat_go.Wire.Read.{
  read_uint8-inv, read_bytes-inv, read_uint16_length_prefixed-inv,
  read_uint16_length_prefixed-prefixed16,
}

-- `raw` is the cached encoding; `none` is nil.
pub record InnerRequest : Type 0 where
  pub raw : Option Bytes
  pub token_key_id : ℕ
  pub blinded_msg : Bytes
  pub padded_origin : Bytes

module _ (cb : Cryptobyte) where
  -- The call may fill the cache of its receiver; `none` is a panic.
  unfoldable pub marshal : InnerRequest → Option (Bytes × InnerRequest)
  marshal r = elim r.raw [
    | some raw ↦ some (raw, r)
    | none ↦
        let b = cb.add_uint8 cb.new_builder r.token_key_id in
        let b = cb.add_bytes b r.blinded_msg in
        let b = cb.add_uint16_length_prefixed b (λ child. cb.add_bytes child r.padded_origin) in
        elim (cb.bytes_or_panic b) [
          | none ↦ none
          | some out ↦ some (out, record r { raw = some out })
        ]
  ]

  abbrev pub reads : Parse InnerRequest (Unit {0})
  reads = do
    into cb.read_uint8 (λ v r. record r { token_key_id = v })
    into (cb.read_bytes 256) (λ v r. record r { blinded_msg = v })
    into cb.read_uint16_length_prefixed (λ v r. record r { padded_origin = v })

  unfoldable pub unmarshal : InnerRequest → Bytes → InnerRequest × Bool
  unmarshal r data_ = accepted (reads r data_)

  abbrev pub layout : InnerRequest → Bytes
  layout r = r.token_key_id ∷ (r.blinded_msg ++ prefixed16 r.padded_origin)

  pub marshal_inner_lem :
      (r : InnerRequest)
      → r.token_key_id < 256
      → r.raw ≡ none
      → length r.padded_origin < 65536
      → marshal r ≡ some (layout r, record r { raw = some (layout r) })
  unfolding marshal
  marshal_inner_lem r hi hr hl = simp (
    hr,
    cb.add_uint16_length_prefixed_lem _ (λ child. cb.add_bytes child r.padded_origin)
        (cb.add_bytes_lem _ r.blinded_msg (cb.add_uint8_lem _ r.token_key_id hi cb.new_builder_lem))
        (λ c h. cb.add_bytes_lem c r.padded_origin h) hl,
    marshal,
  )

  pub unmarshal-inner_layout :
      (r r0 : InnerRequest) (rest : Bytes)
      → length r.blinded_msg ≡ 256
      → unmarshal r0 (layout r ++ rest) ≡ (record r { raw = r0.raw }, true)
  unfolding unmarshal accepted
  unmarshal-inner_layout r r0 rest hb = ap accepted (
      after-into _ _ _ (cb.read_uint8_lem r.token_key_id _)
      ∙ after-into _ _ _ (
          rw append_assoc
            (cb.read_bytes_lem 256 r.blinded_msg (prefixed16 r.padded_origin ++ rest) hb))
      ∙ into_lem _ _ (read_uint16_length_prefixed-prefixed16 cb r.padded_origin rest))

  -- An inner request without a cached encoding, whose blinded message has 256 bytes and whose padded
  -- origin fits its length field, is written, and is read back into any receiver, of which the
  -- reader keeps the cached encoding.
  pub unmarshal-marshal_inner :
      (r r0 : InnerRequest) (rest : Bytes)
      → r.token_key_id < 256
      → r.raw ≡ none
      → length r.blinded_msg ≡ 256
      → length r.padded_origin < 65536
      → (out : Bytes) × (marshal r ≡ some (out, record r { raw = some out }))
        × (unmarshal r0 (out ++ rest) ≡ (record r { raw = r0.raw }, true))
  unmarshal-marshal_inner r r0 rest hi hr hb hl =
      (layout r, marshal_inner_lem r hi hr hl, unmarshal-inner_layout r r0 rest hb)

  -- Byte strings that the reader accepts begin with the fields of the inner request that it leaves,
  -- whose blinded message has 256 bytes; the cache is the receiver's.
  pub unmarshal-inv_inner :
      (r0 : InnerRequest) (data_ : Bytes) {r : InnerRequest}
      → IsBytes data_
      → unmarshal r0 data_ ≡ (r, true)
      → (length r.blinded_msg ≡ 256)
        × (r.raw ≡ r0.raw)
        × ((rest : Bytes) × (data_ ≡ layout r ++ rest))
  unfolding unmarshal
  unmarshal-inv_inner r0 data_ {r} b h =
      let (x, e) = accepted-inv _ h in
      let (id, s1, e1, h1) = into-inv _ _ _ e in
      let (msg, s2, e2, h2) = into-inv _ _ _ h1 in
      let (origin, s3, e3, h3) = into_last-inv _ _ h2 in
      let d1 = read_uint8-inv cb data_ e1 in
      let (d2, l) = read_bytes-inv cb 256 s1 e2 in
      let b1 : IsBytes s1 = (subst IsBytes d1 b).1 in
      let (d3, _) = read_uint16_length_prefixed-inv cb s2 (IsBytes-suffix msg s2 d2 b1) e3 in
      subst
        (λ r.
          (length r.blinded_msg ≡ 256)
          × (r.raw ≡ r0.raw)
          × ((rest : Bytes) × (data_ ≡ layout r ++ rest)))
        h3 (l, refl, (s3, join_parts id msg origin s3 d1 d2 d3))
    where
      join_parts :
          (id : ℕ) (msg origin s3 : Bytes) {s0 s1 s2 : Bytes}
          → s0 ≡ id ∷ s1
          → s1 ≡ msg ++ s2
          → s2 ≡ prefixed16 origin ++ s3
          → s0 ≡ (id ∷ (msg ++ prefixed16 origin)) ++ s3
      join_parts id msg origin s3 d1 d2 d3 = rw (d1, d2, d3) (simp append_assoc)
