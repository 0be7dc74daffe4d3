-- ===== src/Type1.antt =====
-- tokens/type1: the privately verifiable token over P-384.
pub mod Request
pub mod Client
pub mod Issuer
pub mod Issuance
use pat_go.Base.{ℕ, Bytes, Outcome}
use pat_go.Wire.{Cryptobyte}
use pat_go.Tokens.{Token, unmarshal_token}

abbrev pub basic_private_token_type : ℕ
basic_private_token_type = 0x0001

-- `UnmarshalPrivateToken`
unfoldable pub unmarshal_private_token : Cryptobyte → Bytes → Outcome Token
unmarshal_private_token cb = unmarshal_token cb 48
