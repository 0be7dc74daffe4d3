-- ===== src/Wire.antt =====
-- The third-party package golang.org/x/crypto/cryptobyte, by which every message is written and
-- read, as an interface: its operations and the behaviour that its documentation states. A
-- `Builder` is its state behind the pointer; a `cryptobyte.String` is a byte string, and a read
-- returns what is left of it, or `none` where the read reports failure and leaves it as it was.
pub mod Steps
pub mod Read
pub mod Sample
use pat_go.Base.{
  ℕ, ◌+◌, ◌*◌, ◌/◌, ◌%◌, ◌≤◌, ◌<◌, ◌≡◌, Bool, true, false, Option, none, some, List, [], ◌∷◌, ◌++◌,
  Bytes, length,
}

-- A big-endian 16-bit number, and a value behind its length of 8 or 16 bits.
abbrev pub be16 : ℕ → Bytes
be16 v = v / 256 ∷ v % 256 ∷ []

abbrev pub prefixed8 : Bytes → Bytes
prefixed8 xs = length xs ∷ xs

abbrev pub prefixed16 : Bytes → Bytes
prefixed16 xs = be16 (length xs) ++ xs

pub record Cryptobyte : Type 1 where
  pub Builder : Type 0
  pub new_builder : Builder
  pub add_uint8 : Builder → ℕ → Builder
  pub add_uint16 : Builder → ℕ → Builder
  pub add_bytes : Builder → Bytes → Builder
  pub add_uint8_length_prefixed : Builder → (Builder → Builder) → Builder
  pub add_uint16_length_prefixed : Builder → (Builder → Builder) → Builder
  -- `none` is the panic on an error met while building.
  pub bytes_or_panic : Builder → Option Bytes
  pub read_uint8 : Bytes → Option (ℕ × Bytes)
  pub read_uint16 : Bytes → Option (ℕ × Bytes)
  pub read_bytes : ℕ → Bytes → Option (Bytes × Bytes)
  pub read_uint8_length_prefixed : Bytes → Option (Bytes × Bytes)
  pub read_uint16_length_prefixed : Bytes → Option (Bytes × Bytes)
  pub is_empty : Bytes → Bool
  -- The builder appends: fixed-width big-endian numbers, bytes as they are, and what a
  -- continuation writes into a fresh child behind its length.
  pub new_builder_lem : bytes_or_panic new_builder ≡ some []
  pub add_uint8_lem :
      (b : Builder) (v : ℕ) {out : Bytes}
      → v < 256
      → bytes_or_panic b ≡ some out
      → bytes_or_panic (add_uint8 b v) ≡ some (out ++ v ∷ [])
  pub add_uint16_lem :
      (b : Builder) (v : ℕ) {out : Bytes}
      → v < 65536
      → bytes_or_panic b ≡ some out
      → bytes_or_panic (add_uint16 b v) ≡ some (out ++ be16 v)
  pub add_bytes_lem :
      (b : Builder) (v : Bytes) {out : Bytes}
      → bytes_or_panic b ≡ some out
      → bytes_or_panic (add_bytes b v) ≡ some (out ++ v)
  pub add_uint8_length_prefixed_lem :
      (b : Builder) (f : Builder → Builder) {out child : Bytes}
      → bytes_or_panic b ≡ some out
      → ((c : Builder) → bytes_or_panic c ≡ some [] → bytes_or_panic (f c) ≡ some child)
      → length child < 256
      → bytes_or_panic (add_uint8_length_prefixed b f) ≡ some (out ++ prefixed8 child)
  pub add_uint16_length_prefixed_lem :
      (b : Builder) (f : Builder → Builder) {out child : Bytes}
      → bytes_or_panic b ≡ some out
      → ((c : Builder) → bytes_or_panic c ≡ some [] → bytes_or_panic (f c) ≡ some child)
      → length child < 65536
      → bytes_or_panic (add_uint16_length_prefixed b f) ≡ some (out ++ prefixed16 child)
  -- A child too long for its length field is an error, and an error stays until the end.
  pub add_uint8_length_prefixed_long :
      (b : Builder) (f : Builder → Builder) {child : Bytes}
      → ((c : Builder) → bytes_or_panic c ≡ some [] → bytes_or_panic (f c) ≡ some child)
      → 256 ≤ length child
      → bytes_or_panic (add_uint8_length_prefixed b f) ≡ none
  pub add_uint16_length_prefixed_long :
      (b : Builder) (f : Builder → Builder) {child : Bytes}
      → ((c : Builder) → bytes_or_panic c ≡ some [] → bytes_or_panic (f c) ≡ some child)
      → 65536 ≤ length child
      → bytes_or_panic (add_uint16_length_prefixed b f) ≡ none
  pub add_bytes_none :
      (b : Builder) (v : Bytes) → bytes_or_panic b ≡ none → bytes_or_panic (add_bytes b v) ≡ none
  pub add_uint8_length_prefixed_none :
      (b : Builder) (f : Builder → Builder)
      → bytes_or_panic b ≡ none
      → bytes_or_panic (add_uint8_length_prefixed b f) ≡ none
  pub add_uint16_length_prefixed_none :
      (b : Builder) (f : Builder → Builder)
      → bytes_or_panic b ≡ none
      → bytes_or_panic (add_uint16_length_prefixed b f) ≡ none
  -- A read decodes a prefix and advances over it, or fails on input that is too short.
  pub read_uint8_lem : (v : ℕ) (rest : Bytes) → read_uint8 (v ∷ rest) ≡ some (v, rest)
  pub read_uint8_short : read_uint8 [] ≡ none
  pub read_uint16_lem :
      (hi lo : ℕ) (rest : Bytes) → read_uint16 (hi ∷ lo ∷ rest) ≡ some (hi * 256 + lo, rest)
  pub read_uint16_short : (s : Bytes) → length s < 2 → read_uint16 s ≡ none
  pub read_bytes_lem :
      (n : ℕ) (v rest : Bytes) → length v ≡ n → read_bytes n (v ++ rest) ≡ some (v, rest)
  pub read_bytes_short : (n : ℕ) (s : Bytes) → length s < n → read_bytes n s ≡ none
  pub read_uint8_length_prefixed_lem :
      (v rest : Bytes) → read_uint8_length_prefixed (prefixed8 v ++ rest) ≡ some (v, rest)
  pub read_uint8_length_prefixed_short :
      (n : ℕ) (s : Bytes) → length s < n → read_uint8_length_prefixed (n ∷ s) ≡ none
  pub read_uint8_length_prefixed_nil : read_uint8_length_prefixed [] ≡ none
  pub read_uint16_length_prefixed_lem :
      (hi lo : ℕ) (v rest : Bytes)
      → length v ≡ hi * 256 + lo
      → read_uint16_length_prefixed (hi ∷ lo ∷ (v ++ rest)) ≡ some (v, rest)
  pub read_uint16_length_prefixed_short :
      (hi lo : ℕ) (s : Bytes)
      → length s < hi * 256 + lo
      → read_uint16_length_prefixed (hi ∷ lo ∷ s) ≡ none
  pub read_uint16_length_prefixed_nil :
      (s : Bytes) → length s < 2 → read_uint16_length_prefixed s ≡ none
  pub is_empty_nil : is_empty [] ≡ true
  pub is_empty_cons : (b : ℕ) (s : Bytes) → is_empty (b ∷ s) ≡ false
