-- ===== src/Type1/Request.antt =====
-- tokens/type1/token_request.go
use pat_go.Base.{Bytes, Bool, Option}
use pat_go.Wire.{Cryptobyte}
use pat_go.Basic
use pat_go.Basic.{TokenRequest}
use pat_go.Type1.{basic_private_token_type}

-- `BasicPrivateTokenRequest.Equal`, `.Marshal` and `.Unmarshal`
unfoldable pub equal : TokenRequest → TokenRequest → Bool
equal = Basic.equal

unfoldable pub marshal : Cryptobyte → TokenRequest → Option (Bytes × TokenRequest)
marshal cb = Basic.marshal cb basic_private_token_type 48

unfoldable pub unmarshal : Cryptobyte → TokenRequest → Bytes → TokenRequest × Bool
unmarshal cb = Basic.unmarshal cb basic_private_token_type 48
