-- ===== src/Type2/Request.antt =====
-- tokens/type2/token_request.go
use pat_go.Base.{Bytes, Bool, Option}
use pat_go.Wire.{Cryptobyte}
use pat_go.Basic
use pat_go.Basic.{TokenRequest}
use pat_go.Type2.{basic_public_token_type}

-- `BasicPublicTokenRequest.Equal`, `.Marshal` and `.Unmarshal`
unfoldable pub equal : TokenRequest → TokenRequest → Bool
equal = Basic.equal

unfoldable pub marshal : Cryptobyte → TokenRequest → Option (Bytes × TokenRequest)
marshal cb = Basic.marshal cb basic_public_token_type 256

unfoldable pub unmarshal : Cryptobyte → TokenRequest → Bytes → TokenRequest × Bool
unmarshal cb = Basic.unmarshal cb basic_public_token_type 256
