-- ===== src/Type3.antt =====
-- tokens/type3: rate-limited tokens, with an attester between the client and the issuer.
pub mod Request
pub mod Layout
pub mod Inversion
pub mod Clients
pub mod Attester
pub mod Indices
pub mod Commitments
pub mod Admission
pub mod Ledger
pub mod Machines
pub mod Interleaving
pub mod Authentication
pub mod Inner
pub mod Padding
pub mod EncapKey
pub mod Encryption
pub mod Response
pub mod Issuer
pub mod Grants
pub mod Client
pub mod Issuance
pub mod Setup
pub mod Published
pub mod Created
pub mod Verification
pub mod Honest
pub mod Sent
pub mod Responding
pub mod Arrival
pub mod Exchange
pub mod AnonymousId
pub mod OriginIndex
pub mod Visits
pub mod Returns
use pat_go.Base.{ℕ, Bytes, Outcome}
use pat_go.Wire.{Cryptobyte}
use pat_go.Tokens.{Token, unmarshal_token}

abbrev pub rate_limited_token_type : ℕ
rate_limited_token_type = 0x0003

-- `UnmarshalToken` of type3/token.go
unfoldable pub unmarshal_rate_limited_token : Cryptobyte → Bytes → Outcome Token
unmarshal_rate_limited_token cb = unmarshal_token cb 256
