-- ===== src/Basic/Layout.antt =====
-- Writing and reading a basic request.
use pat_go.Base.{
  ℕ, ◌<◌, ◌≡◌, ◌↔◌, refl, ap, ◌∙◌, subst, true, false, none, some, ◌∷◌, ◌++◌, Bytes, length, take,
  drop, length-take, take-append-drop, IsBytes, arith, Bool-cases, inl, inr, bytes_equal_refl,
  bytes_equal→eq, ==_refl, ==→eq,
}
use pat_go.Wire.{Cryptobyte, be16}
use pat_go.Wire.Steps.{
  accepted, after-read, after-into, after-check, into_lem, read-inv, into-inv, check-inv,
  into_last-inv, accepted-inv,
}
use pat_go.Wire.Read.{read_uint16-be16, read_uint16-inv, read_uint8-inv, read_bytes-inv}
use pat_go.Basic.{TokenRequest, equal, marshal, unmarshal}

-- `Equal` says true of two requests exactly when they agree in key identifier and blinded element,
-- whatever their caches hold.
pub equal_iff_request :
    (r r2 : TokenRequest)
    → (equal r r2 ≡ true) ↔ ((r.token_key_id ≡ r2.token_key_id) × (r.blinded_req ≡ r2.blinded_req))
unfolding equal
equal_iff_request r r2 = (
  λ h. ground (arith, bytes_equal→eq r.blinded_req r2.blinded_req),
  λ (e, f). rw (e, f) (ground (arith, bytes_equal_refl r2.blinded_req)),
)

module _ (cb : Cryptobyte) (token_type size : ℕ) where
  abbrev pub layout : TokenRequest → Bytes
  layout r = be16 token_type ++ r.token_key_id ∷ r.blinded_req

  pub marshal_lem :
      (r : TokenRequest)
      → token_type < 65536
      → r.token_key_id < 256
      → r.raw ≡ none
      → marshal cb token_type size r ≡ some (layout r, record r { raw = some (layout r) })
  unfolding marshal
  marshal_lem r ht hi hr = simp (
    hr,
    cb.add_bytes_lem _ r.blinded_req (
        cb.add_uint8_lem _ r.token_key_id hi
          (cb.add_uint16_lem _ token_type ht cb.new_builder_lem)),
    marshal,
  )

  -- A request that has been marshalled once is marshalled to the same bytes, and left unchanged, from
  -- then on.
  pub marshal-marshal :
      (r : TokenRequest) {r' : TokenRequest} {out : Bytes}
      → marshal cb token_type size r ≡ some (out, r')
      → marshal cb token_type size r' ≡ some (out, r')
  unfolding marshal
  marshal-marshal r h = ground arith

  pub unmarshal-layout :
      (r r0 : TokenRequest) (rest : Bytes)
      → length r.blinded_req ≡ size
      → unmarshal cb token_type size r0 (layout r ++ rest) ≡ (record r { raw = r0.raw }, true)
  unfolding unmarshal accepted
  unmarshal-layout r r0 rest h = ap accepted (
      after-read _ _ (read_uint16-be16 cb token_type _)
      ∙ after-check _ _ (==_refl token_type)
      ∙ after-into _ _ _ (cb.read_uint8_lem r.token_key_id _)
      ∙ into_lem _ _ (cb.read_bytes_lem size r.blinded_req rest h))

  -- Byte strings that the reader accepts begin with the token type and the fields of the request
  -- that it leaves, whose blinded element has the length asked for; the cache is the receiver's.
  pub unmarshal-inv_request :
      (r0 : TokenRequest) (data_ : Bytes) {r : TokenRequest}
      → IsBytes data_
      → unmarshal cb token_type size r0 data_ ≡ (r, true)
      → (length r.blinded_req ≡ size)
        × (r.raw ≡ r0.raw)
        × ((rest : Bytes) × (data_ ≡ layout r ++ rest))
  unfolding unmarshal
  unmarshal-inv_request r0 data_ {r} b h =
      let (x, e) = accepted-inv _ h in
      let (t, s1, e1, h1) = read-inv _ _ e in
      let (typed, h2) = check-inv _ _ h1 in
      let (id, s2, e2, h3) = into-inv _ _ _ h2 in
      let (blinded, s3, e3, h4) = into_last-inv _ _ h3 in
      let (d1, _, _) = read_uint16-inv cb data_ b e1 in
      let d2 = read_uint8-inv cb s1 e2 in
      let (d3, l) = read_bytes-inv cb size s2 e3 in
      subst
        (λ r.
          (length r.blinded_req ≡ size)
          × (r.raw ≡ r0.raw)
          × ((rest : Bytes) × (data_ ≡ layout r ++ rest)))
        h4 (l, refl, (s3, join_parts t id blinded s3 (==→eq _ _ typed) d1 d2 d3))
    where
      join_parts :
          (t id : ℕ) (blinded s3 : Bytes) {s0 s1 s2 : Bytes}
          → t ≡ token_type
          → s0 ≡ be16 t ++ s1
          → s1 ≡ id ∷ s2
          → s2 ≡ blinded ++ s3
          → s0 ≡ (be16 token_type ++ id ∷ blinded) ++ s3
      join_parts t id blinded s3 e d1 d2 d3 = rw (← e, d1, d2, d3)

  -- A request without a cached encoding, whose type and key identifier are machine numbers and whose
  -- blinded element has the length asked for, is written, and is read back into any receiver, of
  -- which the reader keeps the cached encoding.
  pub unmarshal-marshal_request :
      (r r0 : TokenRequest) (rest : Bytes)
      → token_type < 65536
      → r.token_key_id < 256
      → r.raw ≡ none
      → length r.blinded_req ≡ size
      → (out : Bytes) × (marshal cb token_type size r ≡ some (out, record r { raw = some out }))
        × (unmarshal cb token_type size r0 (out ++ rest) ≡ (record r { raw = r0.raw }, true))
  unmarshal-marshal_request r r0 rest ht hi hr hl =
      (layout r, marshal_lem r ht hi hr, unmarshal-layout r r0 rest hl)

  -- A receiver that holds a cached encoding and then accepts other bytes still marshals the old
  -- encoding.
  pub marshal_stale :
      (r0 : TokenRequest) (data_ old : Bytes) {r : TokenRequest}
      → IsBytes data_
      → r0.raw ≡ some old
      → unmarshal cb token_type size r0 data_ ≡ (r, true)
      → marshal cb token_type size r ≡ some (old, r)
  unfolding marshal
  marshal_stale r0 data_ old {r} b h e =
      let (_, same, _) = unmarshal-inv_request r0 data_ b e in simp (same ∙ h, marshal)

  -- A request whose blinded element is longer than the reader expects is written; the reader accepts
  -- the bytes and returns a request with the element cut short, which `Equal` tells apart.
  pub unmarshal-marshal_long :
      (r r0 : TokenRequest)
      → token_type < 65536
      → r.token_key_id < 256
      → r.raw ≡ none
      → size < length r.blinded_req
      → (out : Bytes) × (r' : TokenRequest) × (marshal cb token_type size r
          ≡ some (out, record r { raw = some out }))
        × (unmarshal cb token_type size r0 out ≡ (r', true))
        × (r'.blinded_req ≡ take size r.blinded_req)
        × (equal r r' ≡ false)
  unmarshal-marshal_long r r0 ht hi hr hl =
      let cut : TokenRequest = record r { blinded_req = take size r.blinded_req } in
      let len : length cut.blinded_req ≡ size = omega (arith, length-take size r.blinded_req) in
      (
        layout r,
        record cut { raw = r0.raw },
        marshal_lem r ht hi hr,
        rw (take-append-drop size r.blinded_req) at
            (unmarshal-layout cut r0 (drop size r.blinded_req) len),
        refl,
        elim (Bool-cases (equal r (record cut { raw = r0.raw }))) [
          | inl e ↦ absurd (omega (arith, ap length (((equal_iff_request r _).0 e).1), len))
          | inr e ↦ e
        ],
      )
