-- ===== src/Type3/Published.antt =====
-- A name key that is made, published and read by a client: what is encrypted to it, its owner decrypts.
use pat_go.Base.{
  ◌≡◌, ◌≢◌, ◌<◌, ◌==◌, ℕ, some, [], ◌++◌, Bytes, length, last_byte, Bool-cases, Option-cases, ok,
  ◌>>=◌, >>=-eq-ok, ok-injective, inl, inr, arith, ap, sym, subst, ◌∙◌, append-nil,
}
use mathlib.Core.Option.{some-injective}
use pat_go.Wire.{Cryptobyte}
use pat_go.Hpke.{Hpke, HpkeLaws}
use pat_go.Type3.Inner.{InnerRequest}
use pat_go.Type3.Padding.{unpad_origin_name}
use pat_go.Type3.EncapKey
use pat_go.Type3.EncapKey.{PrivateEncapKey, EncapKey, public, unmarshal-marshal_key}
use pat_go.Type3.Encryption.{
  encrypt_origin_token_request, decrypt_origin_token_request, decrypt-encrypt_origin_token_request,
}
use pat_go.Type3.Setup.{fixed_suite, derive, create_private_encap_key_from_seed, fresh_name_key}

module _ (h : Hpke) (laws : HpkeLaws h) where
  -- The two halves of a name key belong together, and its identifier is a byte.
  abbrev pub IsMatched : PrivateEncapKey h → Type 0
  IsMatched k = (k.public_key ≡ h.public k.suite k.private_key) × (k.id < 256)

  derive-IsMatched :
      (id : ℕ) (suite : h.Suite) (seed : Bytes) (k : PrivateEncapKey h)
      → id < 256
      → derive h id suite seed ≡ ok k
      → IsMatched k
  derive-IsMatched id suite seed k small made =
      let ((sk, pk), derived, finished) = >>=-eq-ok (h.derive_key_pair suite seed) _ made in
      subst IsMatched (ok-injective finished) (laws.derive_lem suite seed sk pk derived, small)

  pub create_private_encap_key_from_seed-IsMatched :
      (seed : Bytes) (k : PrivateEncapKey h)
      → create_private_encap_key_from_seed h seed ≡ ok k
      → IsMatched k
  unfolding create_private_encap_key_from_seed
  create_private_encap_key_from_seed-IsMatched seed k made = elim (Bool-cases (length seed == 32)) [
    | inr e ↦ ground (arith, made)
    | inl e ↦ elim (Option-cases (fixed_suite h)) [
      | inl missing ↦ ground (arith, made)
      | inr (suite, found) ↦
          derive-IsMatched 1 suite seed k (omega arith) (ground (arith, made, found))
    ]
  ]

  pub fresh_name_key-IsMatched :
      (random : ℕ → Bytes) (k : PrivateEncapKey h) → fresh_name_key h random ≡ ok k → IsMatched k
  unfolding fresh_name_key
  fresh_name_key-IsMatched random k made = elim (Option-cases (fixed_suite h)) [
    | inl missing ↦ ground (arith, made)
    | inr (suite, found) ↦
        derive-IsMatched 0 suite (random (h.private_key_size suite)) k (omega arith)
          (ground (arith, made, found))
  ]

  module _ (cb : Cryptobyte) (sha256 : Bytes → Bytes) where
    unmarshal-published :
        (k : EncapKey h) (published : Bytes)
        → k.id < 256
        → EncapKey.marshal h cb k ≡ some published
        → EncapKey.unmarshal h cb published ≡ ok k
    unmarshal-published k published small marshalled =
        let (out, written, read) = unmarshal-marshal_key h cb laws k [] small in
        let whole : out ++ [] ≡ published =
          append-nil out ∙ some-injective out published (sym written ∙ marshalled) in
        subst (λ s. EncapKey.unmarshal h cb s ≡ ok k) whole read

    -- A name key is made from a seed, published, and read by a client: what the client encrypts to what
    -- it read, for a key identifier that is a byte, a blinded message of 256 bytes and an origin name
    -- that is not too long and does not end in a zero byte, the owner of the key decrypts, for the same
    -- request key, and recovers the identifier, the message, the name and the client's secret, given the
    -- laws of the encryption.
    pub decrypt-encrypt_published :
        (seed : Bytes) (k : PrivateEncapKey h) (published request_key message origin_name : Bytes)
        (token_key_id : ℕ) (rnd : h.Random) (key_id encrypted secret : Bytes)
        → create_private_encap_key_from_seed h seed ≡ ok k
        → EncapKey.marshal h cb (public h k) ≡ some published
        → token_key_id < 256
        → length message ≡ 256
        → length origin_name < 65504
        → last_byte origin_name ≢ some 0
        → (EncapKey.unmarshal h cb published >>= λ name_key.
            encrypt_origin_token_request cb h sha256 rnd name_key token_key_id message request_key
              origin_name)
          ≡ ok (key_id, encrypted, secret)
        → (r : InnerRequest) × (decrypt_origin_token_request cb h sha256 k request_key encrypted
            ≡ ok (r, secret))
          × (r.token_key_id ≡ token_key_id)
          × (r.blinded_msg ≡ message)
          × (unpad_origin_name r.padded_origin ≡ origin_name)
    decrypt-encrypt_published seed k published request_key message origin_name token_key_id rnd
          key_id encrypted secret made marshalled small sized short named sent =
        let (pair, id_small) = create_private_encap_key_from_seed-IsMatched seed k made in
        let read = unmarshal-published (public h k) published id_small marshalled in
        decrypt-encrypt_origin_token_request cb h sha256 laws k request_key message origin_name
          token_key_id rnd key_id encrypted secret pair small sized short named
          (sym (
              ap
                (λ o. o >>= λ name_key.
                  encrypt_origin_token_request cb h sha256 rnd name_key token_key_id message
                    request_key origin_name)
                read)
            ∙ sent)
