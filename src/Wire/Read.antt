-- ===== src/Wire/Read.antt =====
-- What a read of cryptobyte that succeeded has taken, from the documented behaviour of the reads.
use pat_go.Base.{
  ℕ, ◌+◌, ◌*◌, ◌/◌, ◌%◌, ◌<◌, ◌≡◌, some, [], ◌∷◌, ◌++◌, Bytes, length, take, drop, take-append-drop,
  length-take, arith, IsBytes,
}
use native.Mathlib.Decide.{dec_lt}
use pat_go.Wire.{Cryptobyte, be16, prefixed16, prefixed8}

module _ (cb : Cryptobyte) where
  pub read_uint8-inv :
      (s : Bytes) {v : ℕ} {rest : Bytes} → cb.read_uint8 s ≡ some (v, rest) → s ≡ v ∷ rest
  read_uint8-inv [] h = cc cb.read_uint8_short
  read_uint8-inv (b ∷ s) h = cc (cb.read_uint8_lem b s)

  pub read_uint16-inv :
      (s : Bytes) {v : ℕ} {rest : Bytes}
      → IsBytes s
      → cb.read_uint16 s ≡ some (v, rest)
      → (s ≡ be16 v ++ rest) × (v < 65536) × IsBytes rest
  read_uint16-inv [] b h = cc (cb.read_uint16_short [] (omega arith))
  read_uint16-inv (x ∷ []) b h = cc (cb.read_uint16_short (x ∷ []) (omega arith))
  read_uint16-inv (x ∷ y ∷ s) b h = ground (arith, cb.read_uint16_lem x y s)

  read_bytes-long :
      (n : ℕ) (s : Bytes)
      → ¬ (length s < n)
      → (cb.read_bytes n s ≡ some (take n s, drop n s)) × (length (take n s) ≡ n)
  read_bytes-long n s h =
      let len : length (take n s) ≡ n = omega (arith, length-take n s) in
      (rw (take-append-drop n s) at (cb.read_bytes_lem n (take n s) (drop n s) len), len)

  pub read_bytes-inv :
      (n : ℕ) (s : Bytes) {v rest : Bytes}
      → cb.read_bytes n s ≡ some (v, rest)
      → (s ≡ v ++ rest) × (length v ≡ n)
  read_bytes-inv n s h = elim (dec_lt (length s) n) [
    | yes short ↦ cc (cb.read_bytes_short n s short)
    | no long ↦ ground (arith, read_bytes-long n s long, take-append-drop n s)
  ]

  read_uint16_length_prefixed-long :
      (hi lo : ℕ) (s : Bytes)
      → ¬ (length s < hi * 256 + lo)
      → let n = hi * 256 + lo in
        (cb.read_uint16_length_prefixed (hi ∷ lo ∷ s) ≡ some (take n s, drop n s))
        × (length (take n s) ≡ n)
  read_uint16_length_prefixed-long hi lo s h =
      let n = hi * 256 + lo in
      let len : length (take n s) ≡ n = omega (arith, length-take n s) in
      let e = cb.read_uint16_length_prefixed_lem hi lo (take n s) (drop n s) len in
      (rw (take-append-drop n s) at e, len)

  pub read_uint16_length_prefixed-inv :
      (s : Bytes) {v rest : Bytes}
      → IsBytes s
      → cb.read_uint16_length_prefixed s ≡ some (v, rest)
      → (s ≡ prefixed16 v ++ rest) × (length v < 65536)
  read_uint16_length_prefixed-inv [] b h = cc (cb.read_uint16_length_prefixed_nil [] (omega arith))
  read_uint16_length_prefixed-inv (x ∷ []) b h =
      cc (cb.read_uint16_length_prefixed_nil (x ∷ []) (omega arith))
  read_uint16_length_prefixed-inv (x ∷ y ∷ s) b h = elim (dec_lt (length s) (x * 256 + y)) [
    | yes short ↦ cc (cb.read_uint16_length_prefixed_short x y s short)
    | no long ↦
        ground
          (arith, read_uint16_length_prefixed-long x y s long, take-append-drop (x * 256 + y) s)
  ]

  read_uint8_length_prefixed-long :
      (n : ℕ) (s : Bytes)
      → ¬ (length s < n)
      → (cb.read_uint8_length_prefixed (n ∷ s) ≡ some (take n s, drop n s))
        × (length (take n s) ≡ n)
  read_uint8_length_prefixed-long n s h =
      let len : length (take n s) ≡ n = omega (arith, length-take n s) in
      let e = cb.read_uint8_length_prefixed_lem (take n s) (drop n s) in
      (rw (len, take-append-drop n s) at e, len)

  pub read_uint8_length_prefixed-inv :
      (s : Bytes) {v rest : Bytes}
      → IsBytes s
      → cb.read_uint8_length_prefixed s ≡ some (v, rest)
      → (s ≡ prefixed8 v ++ rest) × (length v < 256)
  read_uint8_length_prefixed-inv [] b h = cc cb.read_uint8_length_prefixed_nil
  read_uint8_length_prefixed-inv (n ∷ s) b h = elim (dec_lt (length s) n) [
    | yes short ↦ cc (cb.read_uint8_length_prefixed_short n s short)
    | no long ↦ ground (arith, read_uint8_length_prefixed-long n s long, take-append-drop n s)
  ]

  -- The forms that a reader meets: a number as it was written, and a value behind its length.
  pub read_uint16-be16 : (v : ℕ) (rest : Bytes) → cb.read_uint16 (be16 v ++ rest) ≡ some (v, rest)
  read_uint16-be16 v rest = ground (arith, cb.read_uint16_lem (v / 256) (v % 256) rest)

  pub read_uint16_length_prefixed-prefixed16 :
      (v rest : Bytes) → cb.read_uint16_length_prefixed (prefixed16 v ++ rest) ≡ some (v, rest)
  read_uint16_length_prefixed-prefixed16 v rest =
      cb.read_uint16_length_prefixed_lem (length v / 256) (length v % 256) v rest (omega arith)
