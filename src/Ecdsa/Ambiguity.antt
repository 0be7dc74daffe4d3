-- ===== src/Ecdsa/Ambiguity.antt =====
-- The input of the hash that blinds can be cut into a blind and a context in more than one way.
use pat_go.Base.{
  ◌≡◌, ◌==◌, ◌<◌, ◌≤◌, ◌*◌, ◌/◌, ◌%◌, ℕ, zero, suc, false, Bool-cases, Option-cases, [], ◌∷◌, ◌++◌,
  Bytes, append_assoc, inl, inr, arith, ap, sym, refl, ◌∙◌,
}
use pat_go.Base.Strings.{codes}
use pat_go.Ecdsa.{digits}
use pat_go.Ecdsa.Big.{bits, bit_len, byte_len, int_bytes, fill_bytes-byte_len}
use pat_go.Ecdsa.Curve.{Curve, HashToField}
use pat_go.Ecdsa.Keys.{PublicKey, PrivateKey}
use pat_go.Ecdsa.Blinding.{blind_hash, hash_blind, blind_public_key_with_context}

bits-zero : (f : ℕ) → bits f 0 ≡ 0
bits-zero zero = refl
bits-zero (suc f) = refl

-- Any fuel that is enough counts the same bits.
bits-fuel : (f g v : ℕ) → v ≤ f → v ≤ g → bits f v ≡ bits g v
bits-fuel zero g v enough enough' =
    let nothing : v ≡ 0 = omega (arith, enough) in
    ap (bits 0) nothing ∙ sym (bits-zero g) ∙ ap (bits g) (sym nothing)
bits-fuel (suc f) zero v enough enough' =
    let nothing : v ≡ 0 = omega (arith, enough') in
    ap (bits (suc f)) nothing ∙ bits-zero (suc f) ∙ ap (bits 0) (sym nothing)
bits-fuel (suc f) (suc g) v enough enough' = elim (Bool-cases (v == 0)) [
  | inl e ↦ rw (e, bits) refl
  | inr e ↦ rw (e, bits) (ap suc (bits-fuel f g (v / 2) (ground arith) (ground arith)))
]

bits-double : (f v : ℕ) → 0 < v → bits (suc f) (2 * v) ≡ suc (bits f v)
bits-double f v positive =
    let more : (2 * v == 0) ≡ false = ground arith in
    let half : 2 * v / 2 ≡ v = omega arith in rw (more, bits) (ap (λ w. suc (bits f w)) half)

bit_len-double : (v : ℕ) → 0 < v → bit_len (2 * v) ≡ suc (bit_len v)
bit_len-double v positive =
    bits-fuel (2 * v) (suc (2 * v)) (2 * v) (omega arith) (omega arith)
    ∙ bits-double (2 * v) v positive
    ∙ ap suc (bits-fuel (2 * v) v v (omega arith) (omega arith))

byte_len-shifted : (v : ℕ) → 0 < v → byte_len (v * 256) ≡ suc (byte_len v)
byte_len-shifted v positive =
    let eight : v * 256 ≡ 2 * (2 * (2 * (2 * (2 * (2 * (2 * (2 * v))))))) = omega arith in
    omega (
      arith,
      ap bit_len eight,
      bit_len-double v positive,
      bit_len-double (2 * v) (omega arith),
      bit_len-double (2 * (2 * v)) (omega arith),
      bit_len-double (2 * (2 * (2 * v))) (omega arith),
      bit_len-double (2 * (2 * (2 * (2 * v)))) (omega arith),
      bit_len-double (2 * (2 * (2 * (2 * (2 * v))))) (omega arith),
      bit_len-double (2 * (2 * (2 * (2 * (2 * (2 * v)))))) (omega arith),
      bit_len-double (2 * (2 * (2 * (2 * (2 * (2 * (2 * v))))))) (omega arith),
    )

int_bytes-shifted : (v : ℕ) → 0 < v → int_bytes (v * 256) ≡ int_bytes v ++ 0 ∷ []
int_bytes-shifted v positive =
    let front : v * 256 / 256 ≡ v = omega arith in
    let low : v * 256 % 256 ≡ 0 = omega arith in
    ap (λ n. digits n (v * 256)) (byte_len-shifted v positive)
    ∙ ap (λ w. digits (byte_len v) w ++ v * 256 % 256 ∷ []) front
    ∙ ap (λ b. digits (byte_len v) v ++ b ∷ []) low

module _ (hash_to_field : HashToField) (c : Curve) (blind : PrivateKey) (ctx : Bytes) where
  abbrev pub shifted : PrivateKey
  shifted = record blind { d = blind.d * 256 }

  hash_blind-shifted :
      0 < blind.d
      → hash_blind hash_to_field c blind (0 ∷ ctx) ≡ hash_blind hash_to_field c shifted ctx
  unfolding hash_blind
  hash_blind-shifted positive =
      let bytes = int_bytes blind.d in
      let same : (bytes ++ 0 ∷ []) ++ 0 ∷ ctx ≡ (int_bytes shifted.d ++ 0 ∷ []) ++ ctx =
        sym (append_assoc (bytes ++ 0 ∷ []) (0 ∷ []) ctx)
        ∙ ap (λ b. (b ++ 0 ∷ []) ++ ctx) (sym (int_bytes-shifted blind.d positive)) in
      elim (Option-cases (blind_hash c.name)) [
        | inl missing ↦ rw (missing, hash_blind) refl
        | inr ((h, size), found) ↦
            rw (found, fill_bytes-byte_len blind.d, fill_bytes-byte_len shifted.d, hash_blind)
              (ap (λ input. hash_to_field h (codes "ECDSA Key Blind") input c.order size) same)
      ]

  -- Two pairs of a blind and a context blind every key alike: a blind above zero with a context
  -- that begins with a zero byte, and the blind times 256 with the context without that byte.
  pub blind_public_key-ambiguous :
      (key : PublicKey)
      → 0 < blind.d
      → blind_public_key_with_context hash_to_field c key blind (0 ∷ ctx)
        ≡ blind_public_key_with_context hash_to_field c key shifted ctx
  unfolding blind_public_key_with_context
  blind_public_key-ambiguous key positive = rw (hash_blind-shifted positive) refl
