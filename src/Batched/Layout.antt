-- ===== src/Batched/Layout.antt =====
-- Writing and reading a batched request.
use pat_go.Base.{
  ℕ, ◌<◌, ◌*◌, ◌/◌, ◌%◌, ◌≤◌, ◌≡◌, ◌≢◌, ◌↔◌, refl, sym, ap, ◌∙◌, subst, true, not, none, some, List,
  [], ◌∷◌, ◌++◌, Bytes, length, IsBytes, arith, bytes_equal_refl, bytes_equal→eq, ==_refl, ==→eq,
  All, append_assoc, append-nil, ◌==◌,
}
use pat_go.Base.Chunks.{
  chunks, concat, HasLength, length-concat, chunks-concat, concat-chunks, chunks-HasLength,
}
use pat_go.Wire.{Cryptobyte, be16, prefixed16}
use pat_go.Wire.Steps.{
  accepted, after-read, after-into, after-check, read-inv, into-inv, check-inv, accepted-inv,
  store-inv, store,
}
use pat_go.Wire.Read.{
  read_uint16-be16, read_uint16-inv, read_uint8-inv, read_uint16_length_prefixed-inv,
  read_uint16_length_prefixed-prefixed16,
}
use pat_go.Batched.{batched_private_token_type}
use pat_go.Batched.Request.{BatchedRequest, all_equal, equal, add_all, marshal, unmarshal}

all_equal_refl : (xs : List Bytes) → all_equal xs xs ≡ true
unfolding all_equal
all_equal_refl [] = refl
all_equal_refl (x ∷ xs) = ground (arith, bytes_equal_refl x, all_equal_refl xs)

all_equal→eq : (xs ys : List Bytes) → length xs ≡ length ys → all_equal xs ys ≡ true → xs ≡ ys
unfolding all_equal
all_equal→eq [] [] l h = refl
all_equal→eq [] (y ∷ ys) l h = absurd (omega arith)
all_equal→eq (x ∷ xs) [] l h = cc
all_equal→eq (x ∷ xs) (y ∷ ys) l h = ground (arith, bytes_equal→eq x y, all_equal→eq xs ys)

-- `Equal` says true of two batches exactly when they agree in key identifier and in the list of
-- blinded elements, whatever their caches hold.
pub equal_iff_batch :
    (r r2 : BatchedRequest)
    → (equal r r2 ≡ true) ↔ ((r.token_key_id ≡ r2.token_key_id) × (r.blinded_req ≡ r2.blinded_req))
unfolding equal
equal_iff_batch r r2 = (
  λ h. ground (arith, all_equal→eq r.blinded_req r2.blinded_req),
  λ (e, f). rw (e, f) (ground (arith, all_equal_refl r2.blinded_req)),
)

abbrev pub layout : BatchedRequest → Bytes
layout r = be16 batched_private_token_type ++ r.token_key_id ∷ prefixed16 (concat r.blinded_req)

module _ (cb : Cryptobyte) where
  pub add_all_lem :
      (xs : List Bytes) (b : cb.Builder) {out : Bytes}
      → cb.bytes_or_panic b ≡ some out
      → cb.bytes_or_panic (add_all cb b xs) ≡ some (out ++ concat xs)
  add_all_lem [] b {out} h = h ∙ ap some (sym (append-nil out))
  add_all_lem (x ∷ xs) b {out} h =
      rw (append_assoc) at (add_all_lem xs (cb.add_bytes b x) (cb.add_bytes_lem b x h))

  pub marshal_batch_lem :
      (r : BatchedRequest)
      → r.token_key_id < 256
      → r.raw ≡ none
      → length (concat r.blinded_req) < 65536
      → marshal cb r ≡ some (layout r, record r { raw = some (layout r) })
  unfolding marshal
  marshal_batch_lem r hi hr hl = simp (
    hr,
    cb.add_uint16_length_prefixed_lem _ (λ child. add_all cb child r.blinded_req)
        (cb.add_uint8_lem _ r.token_key_id hi
          (cb.add_uint16_lem _ batched_private_token_type (omega arith) cb.new_builder_lem))
        (λ c. add_all_lem r.blinded_req c) hl,
    marshal,
  )

  -- A batch without a cached encoding whose elements are too long together for their length field
  -- makes `Marshal` panic.
  pub marshal_batch_long :
      (r : BatchedRequest)
      → r.raw ≡ none
      → 65536 ≤ length (concat r.blinded_req)
      → marshal cb r ≡ none
  unfolding marshal
  marshal_batch_long r hr hl = simp (
    hr,
    cb.add_uint16_length_prefixed_long
        (cb.add_uint8 (cb.add_uint16 cb.new_builder batched_private_token_type) r.token_key_id)
        (λ child. add_all cb child r.blinded_req) (λ c. add_all_lem r.blinded_req c) hl,
    marshal,
  )

  nonempty : (xs : Bytes) → 32 ≤ length xs → not (cb.is_empty xs) ≡ true
  nonempty [] h = absurd (omega arith)
  nonempty (x ∷ xs) h = rw (cb.is_empty_cons x xs)

  nonempty-inv : (xs : Bytes) → not (cb.is_empty xs) ≡ true → xs ≢ []
  nonempty-inv [] h = λ _. cc cb.is_empty_nil
  nonempty-inv (x ∷ xs) h = λ e. cc

  -- What a reader finds of elements of 32 bytes, of which there is one for each member of a list.
  pub batch_shape :
      {A : Type 0} (encs : List Bytes) (xs : List A)
      → All (HasLength 32) encs
      → length encs ≡ length xs
      → xs ≢ []
      → (not (cb.is_empty (concat encs)) ≡ true)
        × ((length (concat encs) % 32 == 0) ≡ true)
        × ((length (concat encs) / 32 == length xs) ≡ true)
        × (chunks 32 (length (concat encs) / 32) (concat encs) ≡ encs)
  batch_shape encs xs h n ne =
      let len : length (concat encs) ≡ length encs * 32 = length-concat 32 encs h in
      let count : length (concat encs) / 32 ≡ length encs = omega (arith, len) in
      let divided : length (concat encs) % 32 ≡ 0 = omega (arith, len) in
      (
        nonempty (concat encs) (omega (arith, len, n, some_element xs ne)),
        rw divided (==_refl 0),
        rw (count, n) (==_refl (length xs)),
        rw count (chunks-concat 32 encs h),
      )
    where
      some_element : {A : Type 0} (xs : List A) → xs ≢ [] → 1 ≤ length xs
      some_element [] ne = absurd (ne refl)
      some_element (x ∷ xs) ne = omega arith

  pub unmarshal-batch_layout :
      (r r0 : BatchedRequest) (rest : Bytes)
      → All (HasLength 32) r.blinded_req
      → r.blinded_req ≢ []
      → unmarshal cb r0 (layout r ++ rest) ≡ (record r { raw = r0.raw }, true)
  unfolding unmarshal accepted store
  unmarshal-batch_layout r r0 rest h ne =
      let (filled, divided, _, pieces) = batch_shape r.blinded_req r.blinded_req h refl ne in
      ap accepted (
        after-read _ _ (read_uint16-be16 cb batched_private_token_type _)
        ∙ after-check _ _ (==_refl batched_private_token_type)
        ∙ after-into _ _ _ (cb.read_uint8_lem r.token_key_id _)
        ∙ after-read _ _ (read_uint16_length_prefixed-prefixed16 cb (concat r.blinded_req) rest)
        ∙ after-check _ _ filled
        ∙ after-check _ _ divided)
      ∙ rw pieces

  -- A batch of elements of 32 bytes each, one at least and together below 65536 bytes, without a
  -- cached encoding, is written, and is read back into any receiver, of which the reader keeps the
  -- cached encoding.
  pub unmarshal-marshal_batch :
      (r r0 : BatchedRequest) (rest : Bytes)
      → r.token_key_id < 256
      → r.raw ≡ none
      → All (HasLength 32) r.blinded_req
      → r.blinded_req ≢ []
      → length r.blinded_req < 2048
      → (out : Bytes) × (marshal cb r ≡ some (out, record r { raw = some out }))
        × (unmarshal cb r0 (out ++ rest) ≡ (record r { raw = r0.raw }, true))
  unmarshal-marshal_batch r r0 rest hi hr h ne short = (
    layout r,
    marshal_batch_lem r hi hr (omega (arith, length-concat 32 r.blinded_req h)),
    unmarshal-batch_layout r r0 rest h ne,
  )

  -- Byte strings that the reader accepts begin with the type, the key identifier and the elements,
  -- behind their common length, of the request that it leaves: one element at least, each of 32
  -- bytes; the cache is the receiver's.
  pub unmarshal-inv_batch :
      (r0 : BatchedRequest) (data_ : Bytes) {r : BatchedRequest}
      → IsBytes data_
      → unmarshal cb r0 data_ ≡ (r, true)
      → All (HasLength 32) r.blinded_req
        × (r.blinded_req ≢ [])
        × (r.raw ≡ r0.raw)
        × ((rest : Bytes) × (data_ ≡ layout r ++ rest))
  unfolding unmarshal
  unmarshal-inv_batch r0 data_ {r} b h =
      let (x, e) = accepted-inv _ h in
      let (t, s1, e1, h1) = read-inv _ _ e in
      let (typed, h2) = check-inv _ _ h1 in
      let (id, s2, e2, h3) = into-inv _ _ _ h2 in
      let (elements, s3, e3, h4) = read-inv _ _ h3 in
      let (filled, h5) = check-inv _ _ h4 in
      let (divided, h6) = check-inv _ _ h5 in
      let last =
        store-inv (λ r. record r { blinded_req = chunks 32 (length elements / 32) elements }) s3
          h6 in
      let (d1, _, b1) = read_uint16-inv cb data_ b e1 in
      let d2 = read_uint8-inv cb s1 e2 in
      let b2 : IsBytes s2 = (subst IsBytes d2 b1).1 in
      let (d3, _) = read_uint16_length_prefixed-inv cb s2 b2 e3 in
      let len : length elements ≡ length elements / 32 * 32 = omega (arith, ==→eq _ _ divided) in
      let joined : concat (chunks 32 (length elements / 32) elements) ≡ elements =
        concat-chunks 32 _ elements len in
      subst
        (λ r.
          All (HasLength 32) r.blinded_req
          × (r.blinded_req ≢ [])
          × (r.raw ≡ r0.raw)
          × ((rest : Bytes) × (data_ ≡ layout r ++ rest)))
        last
        (
          chunks-HasLength 32 _ elements len,
          λ none_left. nonempty-inv elements filled (sym joined ∙ ap concat none_left),
          refl,
          (s3, join_parts t id elements s3 (==→eq _ _ typed) d1 d2 d3 joined),
        )
    where
      join_parts :
          (t id : ℕ) (elements s3 : Bytes) {s0 s1 s2 whole : Bytes}
          → t ≡ batched_private_token_type
          → s0 ≡ be16 t ++ s1
          → s1 ≡ id ∷ s2
          → s2 ≡ prefixed16 elements ++ s3
          → whole ≡ elements
          → s0 ≡ (be16 batched_private_token_type ++ id ∷ prefixed16 whole) ++ s3
      join_parts t id elements s3 e d1 d2 d3 w = rw (w, d1, e, d2, d3)
