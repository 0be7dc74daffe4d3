-- ===== src/Ecdsa/Blinding.antt =====
-- ecdsa/ecdsa.go: keys blinded by the hash of another key and a context, and signatures under them.
use pat_go.Base.{
  ℕ, ◌*◌, ◌++◌, ◌∷◌, [], Bool, Option, none, some, Bytes, bytes_equal, if◌then◌else◌, Outcome, ok,
  ◌>>=◌, or_err, or_panic,
}
use pat_go.Base.Strings.{codes}
use pat_go.Ecdsa.{fill_bytes}
use pat_go.Ecdsa.Big.{byte_len, int_bytes, mod_inverse, modulo}
use pat_go.Ecdsa.Curve.{Curve, Hash, sha256, sha384, sha512, HashToField, Reader, Ciphers}
use pat_go.Ecdsa.Keys.{PublicKey, PrivateKey, key_at, point}
use pat_go.Ecdsa.Signing.{Signature, on_ok, sign}

-- The hash function of a curve, and how many bytes are expanded with it.
abbrev pub blind_hash : Bytes → Option (Hash × ℕ)
blind_hash name =
    if bytes_equal name (codes "P-224")
    then some (sha256, 32)
    else if bytes_equal name (codes "P-256")
    then some (sha256, 48)
    else if bytes_equal name (codes "P-384")
    then some (sha384, 72)
    else if bytes_equal name (codes "P-521")
    then some (sha512, 98)
    else none

module _ (hash_to_field : HashToField) where
  unfoldable pub hash_blind : Curve → PrivateKey → Bytes → Outcome ℕ
  hash_blind c key ctx = do
    (h, size) ← or_err "Unsupported curve" (blind_hash c.name)
    scalar_bytes ← fill_bytes (byte_len key.d) key.d
    hash_to_field h (codes "ECDSA Key Blind") (scalar_bytes ++ 0 ∷ [] ++ ctx) c.order size

  unfoldable pub blind_public_key_with_context :
      Curve → PublicKey → PrivateKey → Bytes → Outcome PublicKey
  blind_public_key_with_context c key blind ctx = do
    k ← hash_blind c blind ctx
    ok (key_at c (c.scalar_mult (point key) (int_bytes k)))

  abbrev pub blind_public_key : Curve → PublicKey → PrivateKey → Outcome PublicKey
  blind_public_key c key blind = blind_public_key_with_context c key blind []

  unfoldable pub unblind_public_key_with_context :
      Curve → PublicKey → PrivateKey → Bytes → Outcome PublicKey
  unblind_public_key_with_context c key blind ctx = do
    k ← hash_blind c blind ctx
    inverse ← or_panic (mod_inverse k c.order)
    ok (key_at c (c.scalar_mult (point key) (int_bytes inverse)))

  abbrev pub unblind_public_key : Curve → PublicKey → PrivateKey → Outcome PublicKey
  unblind_public_key c key blind = unblind_public_key_with_context c key blind []

  -- The signing key times the blind, with its public key.
  unfoldable pub blind_private_key : PrivateKey → PrivateKey → Bytes → Outcome PrivateKey
  blind_private_key key blind ctx = do
    let c = key.public.curve
    blinded ← blind_public_key_with_context c key.public blind ctx
    k ← hash_blind c blind ctx
    d ← modulo (key.d * k) c.order
    ok (record { public = blinded; d = d })

  module _ (rd : Reader) (lib : Ciphers) where
    unfoldable pub blind_key_sign_with_context :
        ℕ → Bool → rd.Source → PrivateKey → PrivateKey → Bytes → Bytes → Option (Outcome Signature)
    blind_key_sign_with_context fuel read source key blind hash ctx =
        on_ok (blind_private_key key blind ctx) λ blinded. sign rd lib fuel read source blinded hash

    abbrev pub blind_key_sign :
        ℕ → Bool → rd.Source → PrivateKey → PrivateKey → Bytes → Option (Outcome Signature)
    blind_key_sign fuel read source key blind hash =
        blind_key_sign_with_context fuel read source key blind hash []
