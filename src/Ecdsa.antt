-- ===== src/Ecdsa.antt =====
-- What tokens/type3 uses of the package ecdsa of this repository and of crypto/elliptic, at the curve
-- P-384, as an interface; and `SetBytes` of math/big.
pub mod Sample
pub mod Big
pub mod Curve
pub mod Keys
pub mod Signing
pub mod Verifying
pub mod Blinding
pub mod Inverses
pub mod Nonces
pub mod Signatures
pub mod BlindKeys
pub mod KeyPairs
pub mod Rejection
pub mod Asn1
pub mod ToyCurve
pub mod Kdsa
pub mod Ambiguity
pub mod PublicKeys
pub mod Package
use pat_go.Base.{
  ◌≡◌, ◌<◌, some, true, zero, suc, ◌/◌, ◌%◌, ◌^◌, ◌++◌, ltb, if◌then◌else◌, ok, panic, ℕ, ◌+◌, ◌*◌,
  Bool, Option, [], ◌∷◌, Bytes, Outcome,
}

pub record Ecdsa : Type 1 where
  pub PublicKey : Type 0
  pub PrivateKey : Type 0
  pub Random : Type 0
  pub public : PrivateKey → PublicKey
  -- `elliptic.UnmarshalCompressed` and `elliptic.MarshalCompressed`
  pub unmarshal_compressed : Bytes → Option PublicKey
  pub marshal_compressed : PublicKey → Bytes
  -- the digest, r and s
  pub verify : PublicKey → Bytes → ℕ → ℕ → Bool
  pub create_key : Bytes → Outcome PrivateKey
  pub blind_public_key_with_context : PublicKey → PrivateKey → Bytes → Outcome PublicKey
  pub generate_key : Random → Outcome PrivateKey
  -- the key, the blind, the digest and the context; r and s
  pub blind_key_sign_with_context :
      Random → PrivateKey → PrivateKey → Bytes → Bytes → Outcome (ℕ × ℕ)
  pub unblind_public_key_with_context : PublicKey → PrivateKey → Bytes → Outcome PublicKey

-- `new(big.Int).SetBytes(xs)`, with the value of what stands in front.
abbrev pub big_endian : ℕ → Bytes → ℕ
big_endian acc [] = acc
big_endian acc (x ∷ xs) = big_endian (acc * 256 + x) xs

-- `FillBytes` into `n` bytes, of a number that fits.
abbrev pub digits : ℕ → ℕ → Bytes
digits zero v = []
digits (suc n) v = digits n (v / 256) ++ v % 256 ∷ []

-- It panics on a number that does not.
unfoldable pub fill_bytes : ℕ → ℕ → Outcome Bytes
fill_bytes n v = if ltb v (256 ^ n) then ok (digits n v) else panic

-- What the package promises. A private key that is made of bytes whose number is not a multiple of the
-- order (`IsSecret`) belongs to its public key (`IsPair`): a signature under the key blinded verifies
-- under the public key blinded, and its halves fit 48 bytes each. A public key that stands for a point
-- of the group other than the point at infinity (`IsPublic`) is read back from its bytes; a blind that
-- hashes to a number that can be inverted (`IsBlind`) blinds it to another; blinds commute, and
-- unblinding undoes blinding.
pub record EcdsaLaws (ec : Ecdsa) (IsSecret : Bytes → Type 0)
    (IsBlind : ec.PrivateKey → Bytes → Type 0) : Type 1 where
  pub IsPair : ec.PrivateKey → Type 0
  pub IsPublic : ec.PublicKey → Type 0
  pub create_key-IsPair :
      (encoded : Bytes) (key : ec.PrivateKey)
      → IsSecret encoded
      → ec.create_key encoded ≡ ok key
      → IsPair key
  pub blind_signed :
      (rnd : ec.Random) (key blind : ec.PrivateKey) (digest ctx : Bytes) (r s : ℕ)
      (public : ec.PublicKey)
      → IsPair key
      → ec.blind_key_sign_with_context rnd key blind digest ctx ≡ ok (r, s)
      → ec.blind_public_key_with_context (ec.public key) blind ctx ≡ ok public
      → (r < 256 ^ 48) × ((s < 256 ^ 48) × (ec.verify public digest r s ≡ true))
  pub public-IsPublic : (key : ec.PrivateKey) → IsPair key → IsPublic (ec.public key)
  pub blinded-IsPublic :
      (key : ec.PublicKey) (blind : ec.PrivateKey) (ctx : Bytes) (public : ec.PublicKey)
      → IsPublic key
      → IsBlind blind ctx
      → ec.blind_public_key_with_context key blind ctx ≡ ok public
      → IsPublic public
  pub compressed :
      (key : ec.PublicKey)
      → IsPublic key
      → ec.unmarshal_compressed (ec.marshal_compressed key) ≡ some key
  pub blind_applies :
      (key : ec.PublicKey) (blind : ec.PrivateKey) (ctx : Bytes)
      → IsPublic key
      → IsBlind blind ctx
      → (public : ec.PublicKey) × (ec.blind_public_key_with_context key blind ctx ≡ ok public)
  pub blinds_commute :
      (key : ec.PublicKey) (first second : ec.PrivateKey) (ctx ctx' : Bytes)
      (once twice other : ec.PublicKey)
      → IsPublic key
      → ec.blind_public_key_with_context key first ctx ≡ ok once
      → ec.blind_public_key_with_context once second ctx' ≡ ok twice
      → ec.blind_public_key_with_context key second ctx' ≡ ok other
      → ec.blind_public_key_with_context other first ctx ≡ ok twice
  pub unblind_blinded :
      (key : ec.PublicKey) (blind : ec.PrivateKey) (ctx : Bytes) (public : ec.PublicKey)
      → IsPublic key
      → IsBlind blind ctx
      → ec.blind_public_key_with_context key blind ctx ≡ ok public
      → ec.unblind_public_key_with_context public blind ctx ≡ ok key
