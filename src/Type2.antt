-- ===== src/Type2.antt =====
-- tokens/type2: the publicly verifiable token, a blind RSA signature.
pub mod Request
pub mod Client
pub mod Issuance
use pat_go.Base.{ℕ, Bytes, Outcome}
use pat_go.Wire.{Cryptobyte}
use pat_go.Tokens.{Token, unmarshal_token}

abbrev pub basic_public_token_type : ℕ
basic_public_token_type = 0x0002

-- `UnmarshalToken` of type2/token.go
unfoldable pub unmarshal_public_token : Cryptobyte → Bytes → Outcome Token
unmarshal_public_token cb = unmarshal_token cb 256
