-- ===== src/Batched/Request.antt =====
-- tokens/typeF91A/token_request.go
use pat_go.Base.{
  ℕ, ◌/◌, ◌%◌, Bool, true, false, not, ◌&&◌, Option, none, some, List, [], ◌∷◌, Bytes, length, ◌==◌,
  bytes_equal,
}
use pat_go.Base.Chunks.{chunks}
use pat_go.Wire.{Cryptobyte}
use pat_go.Wire.Steps.{Parse, ◌>>=◌, ◌>>◌, into, read, check, store, accepted}
use pat_go.Batched.{batched_private_token_type}

-- `raw` is the cached encoding; `none` is nil.
pub record BatchedRequest : Type 0 where
  pub raw : Option Bytes
  pub token_key_id : ℕ
  pub blinded_req : List Bytes

abbrev pub empty_batch : BatchedRequest
empty_batch = record { raw = none; token_key_id = 0; blinded_req = [] }

-- The loop of `Equal`, which runs over the first list and stops at the first difference.
unfoldable pub all_equal : List Bytes → List Bytes → Bool
all_equal [] ys = true
all_equal (x ∷ xs) [] = false
all_equal (x ∷ xs) (y ∷ ys) = bytes_equal x y && all_equal xs ys

unfoldable pub equal : BatchedRequest → BatchedRequest → Bool
equal r r2 =
    r.token_key_id == r2.token_key_id
    && length r.blinded_req == length r2.blinded_req
    && all_equal r.blinded_req r2.blinded_req

module _ (cb : Cryptobyte) where
  abbrev pub add_all : cb.Builder → List Bytes → cb.Builder
  add_all b [] = b
  add_all b (x ∷ xs) = add_all (cb.add_bytes b x) xs

  -- The call may fill the cache of its receiver; `none` is a panic.
  unfoldable pub marshal : BatchedRequest → Option (Bytes × BatchedRequest)
  marshal r = elim r.raw [
    | some raw ↦ some (raw, r)
    | none ↦
        let b = cb.add_uint16 cb.new_builder batched_private_token_type in
        let b = cb.add_uint8 b r.token_key_id in
        let b = cb.add_uint16_length_prefixed b (λ child. add_all child r.blinded_req) in
        elim (cb.bytes_or_panic b) [
          | none ↦ none
          | some out ↦ some (out, record r { raw = some out })
        ]
  ]

  abbrev pub reads : Parse BatchedRequest (Unit {0})
  reads = do
    t ← read cb.read_uint16
    check (t == batched_private_token_type)
    into cb.read_uint8 (λ v r. record r { token_key_id = v })
    elements ← read cb.read_uint16_length_prefixed
    check (not (cb.is_empty elements))
    check (length elements % 32 == 0)
    store (λ r. record r { blinded_req = chunks 32 (length elements / 32) elements })

  unfoldable pub unmarshal : BatchedRequest → Bytes → BatchedRequest × Bool
  unmarshal r data_ = accepted (reads r data_)
