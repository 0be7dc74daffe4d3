-- ===== src/Basic.antt =====
-- The token requests of the two basic protocols, tokens/type1/token_request.go and
-- tokens/type2/token_request.go: one text but for the token type and the length of the blinded
-- element, which are parameters here. Type1/Request.antt and Type2/Request.antt give them.
pub mod Layout
use pat_go.Base.{
  ℕ, suc, zero, ◌+◌, ◌<◌, ◌≡◌, Bool, true, false, not, ◌&&◌, Option, none, some, List, [], ◌∷◌,
  ◌++◌, Bytes, ◌==◌, bytes_equal, length, Outcome, ok, err, IsBytes,
}
use pat_go.Wire.{Cryptobyte, be16}
use pat_go.Wire.Steps.{Parse, ◌>>=◌, ◌>>◌, into, read, check, accepted}

-- `raw` is the cached encoding; `none` is nil.
pub record TokenRequest : Type 0 where
  pub raw : Option Bytes
  pub token_key_id : ℕ
  pub blinded_req : Bytes

abbrev pub empty_request : TokenRequest
empty_request = record { raw = none; token_key_id = 0; blinded_req = [] }

unfoldable pub equal : TokenRequest → TokenRequest → Bool
equal r r2 = r.token_key_id == r2.token_key_id && bytes_equal r.blinded_req r2.blinded_req

module _ (cb : Cryptobyte) (token_type size : ℕ) where
  -- The call may fill the cache of its receiver; `none` is a panic.
  unfoldable pub marshal : TokenRequest → Option (Bytes × TokenRequest)
  marshal r = elim r.raw [
    | some raw ↦ some (raw, r)
    | none ↦
        let b = cb.add_uint16 cb.new_builder token_type in
        let b = cb.add_uint8 b r.token_key_id in
        let b = cb.add_bytes b r.blinded_req in
        elim (cb.bytes_or_panic b) [
          | none ↦ none
          | some out ↦ some (out, record r { raw = some out })
        ]
  ]

  abbrev pub reads : Parse TokenRequest (Unit {0})
  reads = do
    t ← read cb.read_uint16
    check (t == token_type)
    into cb.read_uint8 (λ v r. record r { token_key_id = v })
    into (cb.read_bytes size) (λ v r. record r { blinded_req = v })

  unfoldable pub unmarshal : TokenRequest → Bytes → TokenRequest × Bool
  unmarshal r data_ = accepted (reads r data_)
