-- ===== src/Tokens.antt =====
-- tokens/token.go, and the reader of tokens that every token type has a copy of in its token.go
-- (tokens/type1/token.go and its fellows), which differ in the length of the authenticator.
pub mod Layout
use pat_go.Base.{
  ℕ, suc, zero, ◌+◌, ◌<◌, ◌≡◌, Bool, true, false, Option, none, some, List, [], ◌∷◌, ◌++◌, Bytes,
  length, Outcome, ok, err, IsBytes,
}
use pat_go.Wire.{Cryptobyte, be16}
use pat_go.Wire.Steps.{Parse, ◌>>=◌, ◌>>◌, into}

pub record Token : Type 0 where
  pub token_type : ℕ
  pub nonce : Bytes
  pub context : Bytes
  pub key_id : Bytes
  pub authenticator : Bytes

-- `tokens.Token{}`
abbrev pub empty_token : Token
empty_token = record { token_type = 0; nonce = []; context = []; key_id = []; authenticator = [] }

abbrev pub finish : {A : Type 0} → Token × Option A → Outcome Token
finish (t, none) = err "invalid Token encoding"
finish (t, some _) = ok t

module _ (cb : Cryptobyte) where
  -- `none` is the panic of `BytesOrPanic`.
  unfoldable pub authenticator_input : Token → Option Bytes
  authenticator_input t =
      let b = cb.add_uint16 cb.new_builder t.token_type in
      let b = cb.add_bytes b t.nonce in
      let b = cb.add_bytes b t.context in let b = cb.add_bytes b t.key_id in cb.bytes_or_panic b

  unfoldable pub marshal : Token → Option Bytes
  marshal t =
      let b = cb.add_uint16 cb.new_builder t.token_type in
      let b = cb.add_bytes b t.nonce in
      let b = cb.add_bytes b t.context in
      let b = cb.add_bytes b t.key_id in
      let b = cb.add_bytes b t.authenticator in cb.bytes_or_panic b

  -- The reads of `UnmarshalToken`, into the fields of a token; `nk` is the authenticator's length.
  abbrev pub read_token : ℕ → Parse Token (Unit {0})
  read_token nk = do
    into cb.read_uint16 (λ v t. record t { token_type = v })
    into (cb.read_bytes 32) (λ v t. record t { nonce = v })
    into (cb.read_bytes 32) (λ v t. record t { context = v })
    into (cb.read_bytes 32) (λ v t. record t { key_id = v })
    into (cb.read_bytes nk) (λ v t. record t { authenticator = v })

  unfoldable pub unmarshal_token : ℕ → Bytes → Outcome Token
  unmarshal_token nk data_ = finish (read_token nk empty_token data_)
