-- ===== src/Tokens/Layout.antt =====
-- What a token is on the wire, and that reading is the inverse of writing.
use pat_go.Base.{
  ℕ, ◌<◌, ◌≡◌, subst, Option, none, some, ◌++◌, Bytes, length, ok, IsBytes, append_assoc, [],
  append-nil,
}
use pat_go.Wire.{Cryptobyte, be16}
use pat_go.Wire.Steps.{after, into, into-inv, into_last-inv}
use pat_go.Wire.Read.{read_uint16-be16, read_uint16-inv, read_bytes-inv}
use pat_go.Tokens.{Token, authenticator_input, marshal, unmarshal_token, finish}

-- The fields have the lengths of the `Token` struct, with an authenticator of `nk` bytes.
pub record HasShape (nk : ℕ) (t : Token) : Type 0 where
  pub type_fits : t.token_type < 65536
  pub nonce_length : length t.nonce ≡ 32
  pub context_length : length t.context ≡ 32
  pub key_id_length : length t.key_id ≡ 32
  pub authenticator_length : length t.authenticator ≡ nk

-- The inputs of a client have the lengths that the token's fields have.
pub record HasLengths (nonce key_id : Bytes) : Type 0 where
  pub nonce_length : length nonce ≡ 32
  pub key_id_length : length key_id ≡ 32

abbrev pub input_layout : Token → Bytes
input_layout t = be16 t.token_type ++ (t.nonce ++ (t.context ++ t.key_id))

abbrev pub layout : Token → Bytes
layout t = be16 t.token_type ++ (t.nonce ++ (t.context ++ (t.key_id ++ t.authenticator)))

finish-inv :
    {A : Type 0} (o : Token × Option A) {t : Token} → finish o ≡ ok t → (x : A) × (o ≡ (t, some x))
finish-inv (t, none) h = cc
finish-inv (t, some x) h = (x, cc)

join_parts :
    (h n c k a s5 : Bytes) {s0 s1 s2 s3 s4 : Bytes}
    → s0 ≡ h ++ s1
    → s1 ≡ n ++ s2
    → s2 ≡ c ++ s3
    → s3 ≡ k ++ s4
    → s4 ≡ a ++ s5
    → s0 ≡ (h ++ (n ++ (c ++ (k ++ a)))) ++ s5
join_parts h n c k a s5 d1 d2 d3 d4 d5 = rw (d1, d2, d3, d4, d5) (simp append_assoc)

module _ (cb : Cryptobyte) where
  pub authenticator_input_lem :
      (t : Token) → t.token_type < 65536 → authenticator_input cb t ≡ some (input_layout t)
  unfolding authenticator_input
  authenticator_input_lem t h =
      rw (append_assoc, append_assoc) at
        (cb.add_bytes_lem _ t.key_id (
          cb.add_bytes_lem _ t.context
            (cb.add_bytes_lem _ t.nonce (cb.add_uint16_lem _ t.token_type h cb.new_builder_lem))))

  pub marshal_lem : (t : Token) → t.token_type < 65536 → marshal cb t ≡ some (layout t)
  unfolding marshal
  marshal_lem t h = simp append_assoc at (
      cb.add_bytes_lem _ t.authenticator (
        cb.add_bytes_lem _ t.key_id (
          cb.add_bytes_lem _ t.context
            (cb.add_bytes_lem _ t.nonce (cb.add_uint16_lem _ t.token_type h cb.new_builder_lem)))))

  pub unmarshal_token-layout :
      (nk : ℕ) (t : Token) (rest : Bytes)
      → HasShape nk t
      → unmarshal_token cb nk (layout t ++ rest) ≡ ok t
  unfolding unmarshal_token after into
  unmarshal_token-layout nk t rest s = simp (
    append_assoc,
    read_uint16-be16 cb t.token_type _,
    cb.read_bytes_lem 32 t.nonce _ s.nonce_length,
    cb.read_bytes_lem 32 t.context _ s.context_length,
    cb.read_bytes_lem 32 t.key_id _ s.key_id_length,
    cb.read_bytes_lem nk t.authenticator _ s.authenticator_length,
    after,
    into,
  )

  -- Byte strings that the reader accepts begin with the layout of the token that it returns, whose
  -- fields have the lengths of the struct.
  pub unmarshal_token-inv :
      (nk : ℕ) (data_ : Bytes) {t : Token}
      → IsBytes data_
      → unmarshal_token cb nk data_ ≡ ok t
      → HasShape nk t × ((rest : Bytes) × (data_ ≡ layout t ++ rest))
  unfolding unmarshal_token
  unmarshal_token-inv nk data_ {t} b h =
      let (x, e) = finish-inv _ h in
      let (token_type, s1, e1, h1) = into-inv _ _ _ e in
      let (nonce, s2, e2, h2) = into-inv _ _ _ h1 in
      let (context, s3, e3, h3) = into-inv _ _ _ h2 in
      let (key_id, s4, e4, h4) = into-inv _ _ _ h3 in
      let (authenticator, s5, e5, h5) = into_last-inv _ _ h4 in
      let (d1, fits, b1) = read_uint16-inv cb data_ b e1 in
      let (d2, l2) = read_bytes-inv cb 32 s1 e2 in
      let (d3, l3) = read_bytes-inv cb 32 s2 e3 in
      let (d4, l4) = read_bytes-inv cb 32 s3 e4 in
      let (d5, l5) = read_bytes-inv cb nk s4 e5 in
      subst (λ t. HasShape nk t × ((rest : Bytes) × (data_ ≡ layout t ++ rest))) h5
        (
          record {
            type_fits = fits;
            nonce_length = l2;
            context_length = l3;
            key_id_length = l4;
            authenticator_length = l5;
          },
          (s5, join_parts (be16 token_type) nonce context key_id authenticator s5 d1 d2 d3 d4 d5),
        )

  -- A token whose fields have the lengths of the struct is written, and is read back from its own
  -- encoding, whatever follows it.
  pub unmarshal_token-marshal :
      (nk : ℕ) (t : Token) (rest : Bytes)
      → HasShape nk t
      → (out : Bytes) × (marshal cb t ≡ some out) × (unmarshal_token cb nk (out ++ rest) ≡ ok t)
  unmarshal_token-marshal nk t rest s =
      (layout t, marshal_lem t s.type_fits, unmarshal_token-layout nk t rest s)

  -- Finalizing: an authenticator of the right length behind the input that it authenticates.
  pub unmarshal_token-input_layout :
      (nk : ℕ) (t : Token) (out : Bytes)
      → HasShape 0 t
      → length out ≡ nk
      → unmarshal_token cb nk (input_layout t ++ out) ≡ ok (record t { authenticator = out })
  unmarshal_token-input_layout nk t out s h =
      let whole : HasShape nk (record t { authenticator = out }) = record {
        type_fits = s.type_fits;
        nonce_length = s.nonce_length;
        context_length = s.context_length;
        key_id_length = s.key_id_length;
        authenticator_length = h;
      } in
      simp append_assoc (
        simp (append_assoc, append-nil) at
          (unmarshal_token-layout nk (record t { authenticator = out }) [] whole))
