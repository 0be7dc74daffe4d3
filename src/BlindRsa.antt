-- ===== src/BlindRsa.antt =====
-- RSA blind signatures: github.com/cloudflare/circl/blindsign/blindrsa with SHA-384, and
-- `rsa.VerifyPSS` of Go's standard library with the options that the clients give it, as an
-- interface. The randomness of `Blind` is an argument.
pub mod Sample
use pat_go.Base.{ℕ, ◌≡◌, Bytes, length, Outcome, ok}

pub record BlindRsa : Type 1 where
  pub PrivateKey : Type 0
  pub PublicKey : Type 0
  pub Random : Type 0
  pub VerifierState : Type 0
  pub public : PrivateKey → PublicKey
  pub blind : PublicKey → Random → Bytes → Outcome (Bytes × VerifierState)
  -- the message, the blind and the salt
  pub fixed_blind : PublicKey → Bytes → Bytes → Bytes → Outcome (Bytes × VerifierState)
  pub finalize : VerifierState → Bytes → Outcome Bytes
  pub blind_sign : PrivateKey → Bytes → Outcome Bytes
  -- the digest of the message, and the signature
  pub verify_pss : PublicKey → Bytes → Bytes → Outcome (Unit {0})
  pub sha384 : Bytes → Bytes
  -- the bytes of the modulus
  pub key_length : PublicKey → ℕ

-- What a client that blinded `message` may expect of the holder of the key.
abbrev pub Signed : (b : BlindRsa) → b.PrivateKey → Bytes → Bytes → b.VerifierState → Type 0
Signed b sk message blinded state =
    (blind_signature : Bytes) × (signature : Bytes) × (length blinded ≡ b.key_length (b.public sk))
    × (b.blind_sign sk blinded ≡ ok blind_signature)
    × (b.finalize state blind_signature ≡ ok signature)
    × (length signature ≡ b.key_length (b.public sk))
    × (b.verify_pss (b.public sk) (b.sha384 message) signature ≡ ok tt)

-- The documented behaviour: an honest signature on a blinded message finalizes to a signature on
-- the message that verifies under the key.
pub record BlindRsaLaws (b : BlindRsa) : Type 0 where
  pub blind_signed :
      (sk : b.PrivateKey) (rnd : b.Random) (message blinded : Bytes) (state : b.VerifierState)
      → b.blind (b.public sk) rnd message ≡ ok (blinded, state)
      → Signed b sk message blinded state
  pub fixed_blind_signed :
      (sk : b.PrivateKey) (message blind salt blinded : Bytes) (state : b.VerifierState)
      → b.fixed_blind (b.public sk) message blind salt ≡ ok (blinded, state)
      → Signed b sk message blinded state
