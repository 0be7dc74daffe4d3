-- ===== src/Type3/Request.antt =====
-- tokens/type3/token_request.go
use pat_go.Base.{Bool, not, ◌&&◌, Option, none, some, [], Bytes, ◌==◌, bytes_equal}
use pat_go.Wire.{Cryptobyte}
use pat_go.Wire.Steps.{Parse, ◌>>=◌, ◌>>◌, into, read, check, store, attempt, check_rest, accepted}
use pat_go.Type3.{rate_limited_token_type}

-- `raw` is the cached encoding; `none` is nil.
pub record RateLimitedRequest : Type 0 where
  pub raw : Option Bytes
  pub request_key : Bytes
  pub name_key_id : Bytes
  pub encrypted_token_request : Bytes
  pub signature : Bytes

abbrev pub empty_limited : RateLimitedRequest
empty_limited = record {
  raw = none;
  request_key = [];
  name_key_id = [];
  encrypted_token_request = [];
  signature = [];
}

unfoldable pub equal : RateLimitedRequest → RateLimitedRequest → Bool
equal r r2 =
    bytes_equal r.request_key r2.request_key
    && bytes_equal r.name_key_id r2.name_key_id
    && bytes_equal r.encrypted_token_request r2.encrypted_token_request
    && bytes_equal r.signature r2.signature

module _ (cb : Cryptobyte) where
  -- The part of the encoding that is signed, into a fresh builder.
  abbrev pub add_signed : RateLimitedRequest → cb.Builder
  add_signed r =
      let b = cb.add_uint16 cb.new_builder rate_limited_token_type in
      let b = cb.add_bytes b r.request_key in
      let b = cb.add_bytes b r.name_key_id in
      cb.add_uint16_length_prefixed b (λ child. cb.add_bytes child r.encrypted_token_request)

  -- The call may fill the cache of its receiver; `none` is a panic.
  unfoldable pub marshal : RateLimitedRequest → Option (Bytes × RateLimitedRequest)
  marshal r = elim r.raw [
    | some raw ↦ some (raw, r)
    | none ↦ elim (cb.bytes_or_panic (cb.add_bytes (add_signed r) r.signature)) [
      | none ↦ none
      | some out ↦ some (out, record r { raw = some out })
    ]
  ]

  -- The end of the reads: the code ignores whether a signature was there to read.
  abbrev pub read_signature : Parse RateLimitedRequest (Unit {0})
  read_signature = do
    attempt (cb.read_bytes 96) (λ v r. record r { signature = v })
    check_rest cb.is_empty

  abbrev pub reads : Parse RateLimitedRequest (Unit {0})
  reads = do
    t ← read cb.read_uint16
    check (t == rate_limited_token_type)
    into (cb.read_bytes 49) (λ v r. record r { request_key = v })
    into (cb.read_bytes 32) (λ v r. record r { name_key_id = v })
    encrypted ← read cb.read_uint16_length_prefixed
    check (not (cb.is_empty encrypted))
    store (λ r. record r { encrypted_token_request = encrypted })
    read_signature

  unfoldable pub unmarshal : RateLimitedRequest → Bytes → RateLimitedRequest × Bool
  unmarshal r data_ = accepted (reads r data_)
