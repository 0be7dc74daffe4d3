-- ===== src/Ecdsa/Asn1.antt =====
-- ecdsa/ecdsa.go: signatures in ASN.1, with the builder and the reader of cryptobyte as an interface.
use pat_go.Base.{
  ◌≡◌, ◌++◌, append-nil, [], ◌∷◌, ℕ, Bool, true, false, none, some, Option, Bytes, Outcome, ok,
  ◌>>=◌, ap, sym, subst, arith, Option-cases, Outcome-cases, inl, inr, >>=-eq-ok, ◌∙◌, refl,
}
use mathlib.Core.Option
use mathlib.Core.Option.{some-injective}
use pat_go.Ecdsa.Big.{ℤ, pos}
use pat_go.Ecdsa.Curve.{Reader, Ciphers, IsCurve}
use pat_go.Ecdsa.Keys.{PublicKey, PrivateKey}
use pat_go.Ecdsa.Signing.{Signature, sign, seed_generator, stream_reader}
use pat_go.Ecdsa.Verifying.{verify}
use pat_go.Ecdsa.Nonces.{IsKeyPair}
use pat_go.Ecdsa.Signatures.{verify-sign_generic}

-- An integer's encoding, the encoding of a sequence with some content, and their readers, which leave
-- the rest of the input. What is written is read back.
pub record Asn1 : Type 0 where
  pub integer : ℕ → Bytes
  pub sequence : Bytes → Outcome Bytes
  pub read_sequence : Bytes → Option (Bytes × Bytes)
  pub read_integer : Bytes → Option (ℤ × Bytes)
  pub read-integer : (n : ℕ) (rest : Bytes) → read_integer (integer n ++ rest) ≡ some (pos n, rest)
  pub read-sequence :
      (inner outer : Bytes) → sequence inner ≡ ok outer → read_sequence outer ≡ some (inner, [])

module _ (asn : Asn1) where
  unfoldable pub encode : Signature → Outcome Bytes
  encode (r, s) = asn.sequence (asn.integer r ++ asn.integer s)

  abbrev pub the_end : Bytes → Option (Unit {0})
  the_end [] = some tt
  the_end (x ∷ xs) = none

  unfoldable pub decode : Bytes → Option (ℤ × ℤ)
  decode sig = Option.bind (asn.read_sequence sig) λ (inner, rest). Option.bind (the_end rest) λ _.
      Option.bind (asn.read_integer inner) λ (r, after_r).
        Option.bind (asn.read_integer after_r)
          λ (s, after_s). Option.bind (the_end after_s) λ _. some (r, s)

  -- `PrivateKey.Sign`, and `SignASN1`, which is no more than a call of it.
  unfoldable pub sign_asn1 :
      (rd : Reader) (lib : Ciphers)
      → ℕ
      → Bool
      → rd.Source
      → PrivateKey
      → Bytes
      → Option (Outcome Bytes)
  sign_asn1 rd lib fuel read source key hash =
      Option.map (λ signed. signed >>= encode) (sign rd lib fuel read source key hash)

  unfoldable pub verify_asn1 : PublicKey → Bytes → Bytes → Outcome Bool
  verify_asn1 key hash sig = elim (decode sig) [
    | none ↦ ok false
    | some (r, s) ↦ verify key hash r s
  ]

  read_last : (n : ℕ) → asn.read_integer (asn.integer n) ≡ some (pos n, [])
  read_last n =
      subst (λ t. asn.read_integer t ≡ some (pos n, [])) (append-nil (asn.integer n))
        (asn.read-integer n [])

  encode-inv : (r s : ℕ) {sig : Bytes} → encode (r, s) ≡ ok sig → decode sig ≡ some (pos r, pos s)
  unfolding encode decode Option.bind
  encode-inv r s {sig} encoded =
      rw
        (
          asn.read-sequence (asn.integer r ++ asn.integer s) sig encoded,
          asn.read-integer r (asn.integer s),
          read_last s,
        )
        refl

module _ (rd : Reader) (lib : Ciphers) (fuel : ℕ) (read : Bool) (source : rd.Source)
    (key : PrivateKey) (hash : Bytes) where
  -- What signing returns for a key pair is accepted by verifying.
  pub verify-sign :
      (r s : ℕ)
      → IsCurve key.public.curve
      → IsKeyPair key
      → sign rd lib fuel read source key hash ≡ some (ok (r, s))
      → verify key.public hash (pos r) (pos s) ≡ ok true
  unfolding sign
  verify-sign r s group pair signed =
      elim (Outcome-cases (seed_generator rd lib read source key hash)) [
        | inl (stream, seeded) ↦
            verify-sign_generic (stream_reader lib) key hash fuel stream r s group pair
              (ground (arith, seeded, signed))
        | inr (inl (e, failed)) ↦ ground arith
        | inr (inr failed) ↦ ground arith
      ]

  sign_asn1-inv :
      (asn : Asn1) {sig : Bytes}
      → sign_asn1 asn rd lib fuel read source key hash ≡ some (ok sig)
      → (o : Outcome Signature) × ((sign rd lib fuel read source key hash ≡ some o)
          × ((o >>= encode asn) ≡ ok sig))
  unfolding sign_asn1
  sign_asn1-inv asn {sig} returned = elim (Option-cases (sign rd lib fuel read source key hash)) [
    | inl missing ↦ ground arith
    | inr (o, signed) ↦ (o, (signed, some-injective _ _ (sym (rw (signed) refl) ∙ returned)))
  ]

  -- An encoded signature that signing returns for a key pair is accepted by verifying encoded
  -- signatures, on a curve that is a group of prime order.
  pub verify_asn1-sign_asn1 :
      (asn : Asn1) (sig : Bytes)
      → IsCurve key.public.curve
      → IsKeyPair key
      → sign_asn1 asn rd lib fuel read source key hash ≡ some (ok sig)
      → verify_asn1 asn key.public hash sig ≡ ok true
  unfolding verify_asn1
  verify_asn1-sign_asn1 asn sig group pair returned =
      let (o, (signed, encoded)) = sign_asn1-inv asn returned in
      let ((r, s), made, written) = >>=-eq-ok o (encode asn) encoded in
      rw (encode-inv asn r s written, verify_asn1)
        (verify-sign r s group pair (signed ∙ ap some made))
