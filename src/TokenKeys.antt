-- ===== src/TokenKeys.antt =====
-- util/x509util.go and util/codec.go: the encodings of token keys, with the ASN.1 of cryptobyte and
-- encoding/asn1 and the functions of crypto/x509 and encoding/pem as an interface.
pub mod Hexadecimal
pub mod RoundTrip
pub mod Sample
use pat_go.Base.{
  ◌≡◌, ℕ, Bool, Option, some, none, List, [], ◌∷◌, ◌++◌, Bytes, bytes_equal, if◌then◌else◌, Outcome,
  ok, err, panic, ◌>>=◌, or_err, no_error,
}
use pat_go.Base.Strings.{codes}
use pat_go.Ecdsa.Big.{ℤ}
use pat_go.Oprf.{Oprf}

pub record RsaPublicKey : Type 0 where
  pub n : ℤ
  pub e : ℤ

-- A builder's content is a byte string here; an element that it cannot encode panics at the end.
pub record Der : Type 1 where
  pub PrivateKey : Type 0
  pub BitString : Type 0
  -- the tag and the content
  pub add_asn1 : ℕ → Bytes → Outcome Bytes
  pub add_object_identifier : List ℕ → Outcome Bytes
  pub add_int64 : ℕ → Bytes
  pub add_bit_string : Bytes → Outcome Bytes
  pub read_asn1 : ℕ → Bytes → Option (Bytes × Bytes)
  pub read_bit_string : Bytes → Option (BitString × Bytes)
  pub right_align : BitString → Bytes
  -- `ReadASN1Integer` into a `big.Int` and into an `int`
  pub read_integer : Bytes → Option (ℤ × Bytes)
  pub read_int : Bytes → Option (ℤ × Bytes)
  -- `asn1.Marshal` of the struct of modulus and exponent
  pub marshal_pkcs1 : RsaPublicKey → Outcome Bytes
  pub marshal_pkix : RsaPublicKey → Outcome Bytes
  pub marshal_pkcs8 : PrivateKey → Outcome Bytes
  -- `none` where the key that was read is of another type.
  pub parse_pkcs8 : Bytes → Outcome (Option PrivateKey)
  -- a block's type and bytes
  pub pem_encode : Bytes → Bytes → Bytes
  pub pem_decode : Bytes → Option (Bytes × Bytes)

-- The documented behaviour: what is written is read back, and the encoded struct is a sequence of the
-- two integers.
pub record DerLaws (der : Der) : Type 0 where
  pub read-add_asn1 :
      (tag : ℕ) (content out rest : Bytes)
      → der.add_asn1 tag content ≡ ok out
      → der.read_asn1 tag (out ++ rest) ≡ some (content, rest)
  pub read-add_bit_string :
      (xs out rest : Bytes)
      → der.add_bit_string xs ≡ ok out
      → (bits : der.BitString) × ((der.read_bit_string (out ++ rest) ≡ some (bits, rest))
          × (der.right_align bits ≡ xs))
  pub read-marshal_pkcs1 :
      (key : RsaPublicKey) (out : Bytes)
      → der.marshal_pkcs1 key ≡ ok out
      → (inner : Bytes) × ((after : Bytes) × ((der.read_asn1 48 out ≡ some (inner, []))
            × ((der.read_integer inner ≡ some (key.n, after))
                × (der.read_int after ≡ some (key.e, [])))))
  pub pem_decode-encode :
      (kind xs : Bytes) → der.pem_decode (der.pem_encode kind xs) ≡ some (kind, xs)
  pub parse-marshal_pkcs8 :
      (key : der.PrivateKey) (out : Bytes)
      → der.marshal_pkcs8 key ≡ ok out
      → der.parse_pkcs8 out ≡ ok (some key)

abbrev pub oid_rsa_pss : List ℕ
oid_rsa_pss = 1 ∷ 2 ∷ 840 ∷ 113549 ∷ 1 ∷ 1 ∷ 10 ∷ []

abbrev pub oid_sha384 : List ℕ
oid_sha384 = 2 ∷ 16 ∷ 840 ∷ 1 ∷ 101 ∷ 3 ∷ 4 ∷ 2 ∷ 2 ∷ []

abbrev pub oid_mgf : List ℕ
oid_mgf = 1 ∷ 2 ∷ 840 ∷ 113549 ∷ 1 ∷ 1 ∷ 8 ∷ []

module _ (der : Der) where
  -- An identifier with its parameters, in a sequence.
  abbrev pub algorithm : List ℕ → Bytes → Outcome Bytes
  algorithm oid parameters = do
    name ← der.add_object_identifier oid
    der.add_asn1 48 (name ++ parameters)

  -- RSA-PSS with SHA-384, the mask generation with it, and a salt of 48 bytes.
  unfoldable pub pss_algorithm : Outcome Bytes
  pss_algorithm = do
    sha384 ← algorithm oid_sha384 []
    hash ← der.add_asn1 160 sha384
    mask_function ← algorithm oid_mgf sha384
    mask ← der.add_asn1 161 mask_function
    salt ← der.add_asn1 162 (der.add_int64 48)
    parameters ← der.add_asn1 48 (hash ++ mask ++ salt)
    algorithm oid_rsa_pss parameters

  unfoldable pub marshal_token_key_pss_oid : RsaPublicKey → Outcome Bytes
  marshal_token_key_pss_oid key = do
    public_key_bytes ← der.marshal_pkcs1 key
    identifier ← pss_algorithm
    bits ← der.add_bit_string public_key_bytes
    der.add_asn1 48 (identifier ++ bits)

  abbrev pub marshal_token_key : RsaPublicKey → Bool → Outcome Bytes
  marshal_token_key key legacy_format =
      if legacy_format then der.marshal_pkix key else marshal_token_key_pss_oid key

  -- The key out of the bits: what follows the exponent is not looked at.
  unfoldable pub read_key : Bytes → Outcome RsaPublicKey
  read_key aligned = do
    (inner, _) ← or_err "x509: invalid RSA public key" (der.read_asn1 48 aligned)
    (n, after) ← or_err "x509: invalid RSA modulus" (der.read_integer inner)
    (e, _) ← or_err "x509: invalid RSA public exponent" (der.read_int after)
    ok (record { n = n; e = e })

  -- The algorithm is skipped, and so is what follows the sequence.
  unfoldable pub unmarshal_token_key : Bytes → Outcome RsaPublicKey
  unmarshal_token_key data_ = do
    (sequence, _) ←
        or_err "invalid SPKI token key encoding (failed reading outer sequence)"
          (der.read_asn1 48 data_)
    (_, after) ←
        or_err "invalid SPKI token key encoding (failed reading parameters)"
          (der.read_asn1 48 sequence)
    (bits, _) ←
        or_err "invalid SPKI token key encoding (failed reading public key)"
          (der.read_bit_string after)
    read_key (der.right_align bits)

  unfoldable pub marshal_token_private_key : der.PrivateKey → Outcome Bytes
  marshal_token_private_key key = do
    encoded ← der.marshal_pkcs8 key
    ok (der.pem_encode (codes "PRIVATE KEY") encoded)

  -- The assertion that the key is an RSA key panics.
  abbrev pub rsa_key : Option der.PrivateKey → Outcome der.PrivateKey
  rsa_key none = panic
  rsa_key (some key) = ok key

  abbrev private_key_block : Bytes × Bytes → Outcome Bytes
  private_key_block (kind, block) =
      if bytes_equal kind (codes "PRIVATE KEY")
      then ok block
      else err "invalid private key encoding"

  unfoldable pub unmarshal_token_private_key : Bytes → Outcome der.PrivateKey
  unmarshal_token_private_key data_ = do
    decoded ← or_err "invalid private key encoding" (der.pem_decode data_)
    block ← private_key_block decoded
    parsed ← der.parse_pkcs8 block
    rsa_key parsed

  -- `MustMarshalPublicKey` and the others of its kind panic on an error.
  abbrev pub must_marshal_public_key : RsaPublicKey → Outcome Bytes
  must_marshal_public_key key = no_error (marshal_token_key_pss_oid key)

  abbrev pub must_unmarshal_public_key : Bytes → Outcome RsaPublicKey
  must_unmarshal_public_key data_ = no_error (unmarshal_token_key data_)

  abbrev pub must_marshal_private_key : der.PrivateKey → Outcome Bytes
  must_marshal_private_key key = no_error (marshal_token_private_key key)

  abbrev pub must_unmarshal_private_key : Bytes → Outcome der.PrivateKey
  must_unmarshal_private_key data_ = no_error (unmarshal_token_private_key data_)

  -- `TokenKeyID` of the issuers of types 2 and 3: the digest of the encoded public key.
  unfoldable pub token_key_id : (Bytes → Bytes) → RsaPublicKey → Outcome Bytes
  token_key_id sha256 key = do
    encoded ← no_error (marshal_token_key_pss_oid key)
    ok (sha256 encoded)

-- The helpers for keys of the pseudorandom function, likewise.
module _ (o : Oprf) where
  abbrev pub must_marshal_private_oprf_key : o.PrivateKey → Outcome Bytes
  must_marshal_private_oprf_key key = no_error (o.marshal_private key)

  abbrev pub must_unmarshal_private_oprf_key : Bytes → Outcome o.PrivateKey
  must_unmarshal_private_oprf_key data_ = no_error (o.unmarshal_private data_)

  abbrev pub must_marshal_public_oprf_key : o.PublicKey → Outcome Bytes
  must_marshal_public_oprf_key key = no_error (o.marshal_public key)

  abbrev pub must_unmarshal_public_oprf_key : Bytes → Outcome o.PublicKey
  must_unmarshal_public_oprf_key data_ = no_error (o.unmarshal_public data_)
