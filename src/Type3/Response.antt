-- ===== src/Type3/Response.antt =====
-- What protects the response of an issuer: `Extract` and `Expand` of the suite's KDF, and its AEAD
-- with a key, as an interface.
use pat_go.Base.{ℕ, ◌≡◌, Bytes, Outcome, ok}

pub record Response : Type 1 where
  pub Cipher : Type 0
  pub extract : Bytes → Bytes → Bytes
  pub expand : Bytes → Bytes → ℕ → Bytes
  pub new_cipher : Bytes → Outcome Cipher
  -- the nonce and the text; the additional data is nil in all calls
  pub seal : Cipher → Bytes → Bytes → Bytes
  pub open_ : Cipher → Bytes → Bytes → Outcome Bytes
  pub key_size : ℕ
  pub nonce_size : ℕ

-- The documented behaviour: a key of the size that is asked for makes a cipher, and a sealed text opens
-- under the same key and nonce.
pub record ResponseLaws (s : Response) : Type 0 where
  pub new_cipher_expand :
      (prk label : Bytes) → (c : s.Cipher) × (s.new_cipher (s.expand prk label s.key_size) ≡ ok c)
  pub open_seal :
      (c : s.Cipher) (nonce text : Bytes) → s.open_ c nonce (s.seal c nonce text) ≡ ok text
