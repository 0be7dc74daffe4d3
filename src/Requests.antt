-- ===== src/Requests.antt =====
-- tokens/token_request.go: the interface that the requests of all token types implement. A value of
-- the interface is a type of request and a request of it.
pub mod Reading
use pat_go.Base.{Bool, Option, Bytes}
use pat_go.Wire.{Cryptobyte}
use pat_go.Basic.{TokenRequest}
use pat_go.Type1.Request as Private
use pat_go.Type2.Request as Public
use pat_go.Batched.Request as Batch
use pat_go.Batched.Request.{BatchedRequest}
use pat_go.Type3.Request as Limited
use pat_go.Type3.Request.{RateLimitedRequest}

pub data RequestKind : Type 0 where
  basic_private : RequestKind
  basic_public : RequestKind
  batched_private : RequestKind
  rate_limited : RequestKind

abbrev pub Request : RequestKind → Type 0
Request basic_private = TokenRequest
Request basic_public = TokenRequest
Request batched_private = BatchedRequest
Request rate_limited = RateLimitedRequest

-- A call of a method of the interface goes to the request's own.
module _ (cb : Cryptobyte) where
  unfoldable pub marshal : (k : RequestKind) → Request k → Option (Bytes × Request k)
  marshal basic_private r = Private.marshal cb r
  marshal basic_public r = Public.marshal cb r
  marshal batched_private r = Batch.marshal cb r
  marshal rate_limited r = Limited.marshal cb r

  unfoldable pub unmarshal : (k : RequestKind) → Request k → Bytes → Request k × Bool
  unmarshal basic_private r data_ = Private.unmarshal cb r data_
  unmarshal basic_public r data_ = Public.unmarshal cb r data_
  unmarshal batched_private r data_ = Batch.unmarshal cb r data_
  unmarshal rate_limited r data_ = Limited.unmarshal cb r data_
