-- ===== src/Type3/EncapKey.antt =====
-- tokens/type3/encap_key.go: the key to which the inner request is encrypted, and its encoding.
use pat_go.Base.{
  ℕ, ◌<◌, ◌≡◌, Bool, ◌&&◌, ◌==◌, Option, some, ◌∷◌, ◌++◌, Bytes, Outcome, ok, err, panic, ◌>>=◌,
  or_err, bytes_equal, append_assoc,
}
use pat_go.Wire.{Cryptobyte, be16}
use pat_go.Wire.Read.{read_uint16-be16}
use pat_go.Hpke.{Hpke, HpkeLaws}

module _ (h : Hpke) where
  pub record PrivateEncapKey : Type 0 where
    pub id : ℕ
    pub suite : h.Suite
    pub private_key : h.PrivateKey
    pub public_key : h.PublicKey

  -- The private key of this struct is never set.
  pub record EncapKey : Type 0 where
    pub id : ℕ
    pub suite : h.Suite
    pub public_key : h.PublicKey

  abbrev pub public : PrivateEncapKey → EncapKey
  public k = record { id = k.id; suite = k.suite; public_key = k.public_key }

  unfoldable pub is_equal : PrivateEncapKey → PrivateEncapKey → Bool
  is_equal k o =
      k.id == o.id
      && h.same_suite k.suite o.suite
      && bytes_equal (h.serialize_public_key k.suite k.public_key)
          (h.serialize_public_key k.suite o.public_key)

  module _ (cb : Cryptobyte) where
    unfoldable pub marshal : EncapKey → Option Bytes
    marshal k =
        let b = cb.add_uint8 cb.new_builder k.id in
        let b = cb.add_uint16 b (h.kem_id k.suite) in
        let b = cb.add_bytes b (h.serialize_public_key k.suite k.public_key) in
        let b = cb.add_uint16 b (h.kdf_id k.suite) in
        let b = cb.add_uint16 b (h.aead_id k.suite) in cb.bytes_or_panic b

    -- An error of another package, reported as the reader's own.
    abbrev pub invalid : {A : Type 0} → Outcome A → Outcome A
    invalid (ok a) = ok a
    invalid (err e) = err "Invalid EncapKey"
    invalid panic = panic

    -- The first suite, with a fixed KDF and AEAD, serves for the length of the public key alone.
    unfoldable pub unmarshal : Bytes → Outcome EncapKey
    unmarshal data_ = do
      (id, s) ← or_err "Invalid EncapKey" (cb.read_uint8 data_)
      (kem_id, s) ← or_err "Invalid EncapKey" (cb.read_uint16 s)
      suite ← or_err "Invalid EncapKey" (h.assemble kem_id h.fixed_kdf h.fixed_aead)
      (public_key_bytes, s) ← or_err "Invalid EncapKey" (cb.read_bytes (h.public_key_size suite) s)
      (kdf_id, s) ← or_err "Invalid EncapKey" (cb.read_uint16 s)
      (aead_id, s) ← or_err "Invalid EncapKey" (cb.read_uint16 s)
      suite ← or_err "Invalid EncapKey" (h.assemble kem_id kdf_id aead_id)
      public_key ← invalid (h.deserialize_public_key suite public_key_bytes)
      ok (record { id = id; suite = suite; public_key = public_key })

    abbrev pub layout : EncapKey → Bytes
    layout k =
        k.id
        ∷ (be16 (h.kem_id k.suite)
            ++ (h.serialize_public_key k.suite k.public_key
                ++ (be16 (h.kdf_id k.suite) ++ be16 (h.aead_id k.suite))))

    module _ (laws : HpkeLaws h) where
      pub marshal_key_lem : (k : EncapKey) → k.id < 256 → marshal k ≡ some (layout k)
      unfolding marshal
      marshal_key_lem k hi = simp append_assoc at (
          cb.add_uint16_lem _ (h.aead_id k.suite) (laws.aead_id_fits k.suite) (
            cb.add_uint16_lem _ (h.kdf_id k.suite) (laws.kdf_id_fits k.suite) (
              cb.add_bytes_lem _ (h.serialize_public_key k.suite k.public_key) (
                cb.add_uint16_lem _ (h.kem_id k.suite) (laws.kem_id_fits k.suite)
                  (cb.add_uint8_lem _ k.id hi cb.new_builder_lem)))))

      -- A key whose identifier is a byte is written, and is read back as it was, whatever follows
      -- it, given the laws of the encryption.
      pub unmarshal-marshal_key :
          (k : EncapKey) (rest : Bytes)
          → k.id < 256
          → (out : Bytes) × (marshal k ≡ some out) × (unmarshal (out ++ rest) ≡ ok k)
      unfolding unmarshal
      unmarshal-marshal_key k rest hi =
          let (s', found, size) = laws.assemble_kem k.suite in
          let key = h.serialize_public_key k.suite k.public_key in
          (
            layout k,
            marshal_key_lem k hi,
            simp (
              append_assoc,
              cb.read_uint8_lem k.id _,
              read_uint16-be16 cb (h.kem_id k.suite) _,
              found,
              size,
              cb.read_bytes_lem (h.public_key_size k.suite) key _
                  (laws.serialize_length k.suite k.public_key),
              read_uint16-be16 cb (h.kdf_id k.suite) _,
              read_uint16-be16 cb (h.aead_id k.suite) rest,
              laws.assemble_ids k.suite,
              laws.deserialize_serialize k.suite k.public_key,
              unmarshal,
            ),
          )
