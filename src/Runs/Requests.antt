-- ===== src/Runs/Requests.antt =====
-- Requests of two token types, by the interface.
use pat_go.Base.{◌≡◌, refl, true, false, some, [], Bytes, arith}
use pat_go.Wire.Sample.{sample}
use pat_go.Requests.{basic_private, rate_limited, marshal, unmarshal}
use pat_go.Requests.Reading.{unmarshal-marshal, unmarshal-other}
use pat_go.Basic.{empty_request}
use pat_go.Type3.Request.{empty_limited}
use pat_go.Type3.Layout.{signed_layout}
use pat_go.Runs.Type3.{request, request_parts, unsigned_read}

unmarshal-marshal_example :
    (out : Bytes) × (marshal sample rate_limited request
      ≡ some (out, record request { raw = some out }))
    × (unmarshal sample rate_limited empty_limited out ≡ (request, true))
unmarshal-marshal_example =
    unmarshal-marshal sample rate_limited request empty_limited (request_parts, refl) refl

read :
    unmarshal sample rate_limited empty_limited (signed_layout request)
    ≡ (record request { signature = [] }, true)
unfolding unmarshal
read = unsigned_read

unmarshal-other_example :
    (unmarshal sample basic_private empty_request (signed_layout request)).1 ≡ false
unmarshal-other_example =
    unmarshal-other sample rate_limited basic_private empty_limited empty_request
      (signed_layout request) (λ e. cc) (omega arith) read
