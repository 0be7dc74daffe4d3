-- ===== src/Challenge.antt =====
-- tokens/token_challenge.go: the challenge of an origin, its equality and its encoding. Strings are
-- their bytes. Slices are compared by content: the model does not tell a nil slice from an empty
-- one, and neither `bytes.Equal` nor the slices that the reader makes depend on it.
pub mod RoundTrip
pub mod Inversion
use pat_go.Base.{
  ℕ, suc, zero, ◌+◌, ◌<◌, ◌≡◌, Bool, true, false, not, ◌&&◌, Option, none, some, List, [], ◌∷◌,
  ◌++◌, Bytes, ◌==◌, bytes_equal, length, Outcome, ok, err, or_err, guard, ◌>>=◌, ◌>>◌, not,
  IsBytes,
}
use pat_go.Base.Strings.{join, split, strings_equal}
use pat_go.Wire.{Cryptobyte, be16}

pub record TokenChallenge : Type 0 where
  pub token_type : ℕ
  pub issuer_name : Bytes
  pub redemption_nonce : Bytes
  pub origin_info : List Bytes

abbrev pub empty_challenge : TokenChallenge
empty_challenge = record {
  token_type = 0;
  issuer_name = [];
  redemption_nonce = [];
  origin_info = [];
}

abbrev pub comma : ℕ
comma = b','

unfoldable pub equals : TokenChallenge → TokenChallenge → Bool
equals c o =
    c.token_type == o.token_type
    && bytes_equal c.issuer_name o.issuer_name
    && bytes_equal c.redemption_nonce o.redemption_nonce
    && strings_equal c.origin_info o.origin_info

module _ (cb : Cryptobyte) where
  unfoldable pub marshal : TokenChallenge → Option Bytes
  marshal c =
      let b = cb.add_uint16 cb.new_builder c.token_type in
      let b = cb.add_uint16_length_prefixed b (λ child. cb.add_bytes child c.issuer_name) in
      let b = cb.add_uint8_length_prefixed b (λ child. cb.add_bytes child c.redemption_nonce) in
      let b =
        cb.add_uint16_length_prefixed b (λ child. cb.add_bytes child (join comma c.origin_info)) in
      cb.bytes_or_panic b

  -- The four reads of `UnmarshalTokenChallenge`, each with its own error message.
  unfoldable pub unmarshal : Bytes → Outcome TokenChallenge
  unmarshal data_ = do
    (token_type, s) ← or_err "invalid TokenChallenge encoding" (cb.read_uint16 data_)
    (issuer_name, s) ← or_err "invalid TokenChallenge encoding" (cb.read_uint16_length_prefixed s)
    guard (not (cb.is_empty issuer_name)) "invalid TokenChallenge encoding"
    (redemption_nonce, s) ←
        or_err "invalid TokenChallenge encoding" (cb.read_uint8_length_prefixed s)
    (origin_info, s) ← or_err "invalid TokenRequest encoding" (cb.read_uint16_length_prefixed s)
    ok (record {
      token_type = token_type;
      issuer_name = issuer_name;
      redemption_nonce = redemption_nonce;
      origin_info = split comma origin_info;
    })
