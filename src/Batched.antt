-- ===== src/Batched.antt =====
-- tokens/typeF91A: a batch of privately verifiable tokens over Ristretto255.
pub mod Request
pub mod Layout
pub mod Client
pub mod Issuer
pub mod Exchange
pub mod Outputs
pub mod Issuance
use pat_go.Base.{ℕ, Bytes, Outcome}
use pat_go.Wire.{Cryptobyte}
use pat_go.Tokens.{Token, unmarshal_token}

abbrev pub batched_private_token_type : ℕ
batched_private_token_type = 0xF91A

-- `UnmarshalBatchedPrivateToken`
unfoldable pub unmarshal_batched_private_token : Cryptobyte → Bytes → Outcome Token
unmarshal_batched_private_token cb = unmarshal_token cb 64
