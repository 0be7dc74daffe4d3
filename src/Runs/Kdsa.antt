-- ===== src/Runs/Kdsa.antt =====
-- The implementation of the package ecdsa for s390x, with a toy instruction on a toy curve.
use pat_go.Base.{
  ◌≡◌, ◌==◌, ◌<◌, if◌then◌else◌, Bool-cases, inl, inr, ℕ, Bool, true, false, some, [], ◌∷◌, ◌++◌,
  Bytes, bytes_equal, drop, replicate, Outcome, ok, err, panic, arith, ap, subst, refl, ◌∙◌,
}
use mathlib.Core.Option.{some-injective}
use native.Mathlib.Nat.{mod-lt, lt_of_lt_of_le}
use pat_go.Ecdsa.{digits}
use pat_go.Ecdsa.Big.{big_endian-digits, length-digits}
use pat_go.Ecdsa.Curve.{multiple}
use pat_go.Ecdsa.Keys.{PublicKey, PrivateKey, key_at, rand_field_element}
use pat_go.Ecdsa.Signing.{hash_to_int, draw_nonces, sign_generic}
use pat_go.Ecdsa.ToyCurve.{toy, toy_reader}
use pat_go.Ecdsa.Kdsa.{Instruction, can_use_kdsa, hash_to_bytes, part, sign_kdsa, sign_s390x}
use pat_go.Ecdsa.Kdsa.Digests.{hash_to_bytes-fill_bytes}
use pat_go.Ecdsa.Kdsa.Blocks.{
  part-first, part-next, verify_numbers, commit_number, respond_number, IsKdsa,
}
use pat_go.Ecdsa.Kdsa.Verification.{Fits}
use pat_go.Ecdsa.Kdsa.Signatures.{sign_s390x-sign_generic}
use pat_go.Ecdsa.{fill_bytes}

abbrev code_of : Outcome Bool → ℕ
code_of (ok true) = 0
code_of (ok false) = 1
code_of (err e) = 1
code_of panic = 1

abbrev verified : Bytes → Outcome Bool
verified params =
    verify_numbers toy (part 32 3 params, part 32 4 params) (part 32 2 params) (part 32 0 params)
      (part 32 1 params)

abbrev first_half : Bytes → ℕ
first_half params = commit_number toy (part 32 4 params)

abbrev second_half : Bytes → ℕ
second_half params = respond_number toy (part 32 3 params) (part 32 2 params) (part 32 4 params)

abbrev signed : ℕ → ℕ → Bytes → ℕ × Bytes
signed r s params =
    if r == 0
    then (2, params)
    else if s == 0
    then (2, params)
    else (0, digits 32 r ++ (digits 32 s ++ drop 64 params))

abbrev toy_kdsa : Instruction
toy_kdsa = λ function_code params.
    if function_code == 1
    then (code_of (verified params), params)
    else if part 32 3 params == 0
    then (1, params)
    else signed (first_half params) (second_half params) params

code_of-valid : (valid : Bool) → (code_of (ok valid) == 0) ≡ valid
code_of-valid true = refl
code_of-valid false = refl

signed-code :
    (r s : ℕ) (params : Bytes)
    → (signed r s params).0 ≡ (if r == 0 then 2 else if s == 0 then 2 else 0)
signed-code r s params = elim (Bool-cases (r == 0)) [
  | inl e ↦ rw (e) refl
  | inr e ↦ elim (Bool-cases (s == 0)) [ inl e' ↦ rw (e, e') refl | inr e' ↦ rw (e, e') refl ]
]

signed-halves :
    (r s : ℕ) (params : Bytes)
    → r < 7
    → s < 7
    → (signed r s params).0 ≡ 0
    → (part 32 0 (signed r s params).1 ≡ r) × (part 32 1 (signed r s params).1 ≡ s)
signed-halves r s params r_small s_small done = elim (Bool-cases (r == 0)) [
  | inl e ↦ absurd (ground (arith, signed-code r s params))
  | inr e ↦ elim (Bool-cases (s == 0)) [
    | inl e' ↦ absurd (ground (arith, signed-code r s params))
    | inr e' ↦
        let rest = digits 32 s ++ drop 64 params in
        rw (e, e')
          (
            part-first 32 (digits 32 r) rest (length-digits 32 r)
                ∙ big_endian-digits 32 r (lt_of_lt_of_le r_small (omega arith)),
            part-next 32 0 (digits 32 r) rest (length-digits 32 r)
                ∙ part-first 32 (digits 32 s) (drop 64 params) (length-digits 32 s)
                ∙ big_endian-digits 32 s (lt_of_lt_of_le s_small (omega arith)),
          )
  ]
]

signed-zero : (params : Bytes) → part 32 3 params ≡ 0 → (toy_kdsa 137 params).0 ≡ 1
signed-zero params zero_key =
    let refused : (part 32 3 params == 0) ≡ true = ground (arith, zero_key) in rw (refused) refl

not_zero : (n : ℕ) → 0 < n → (n == 0) ≡ false
not_zero n positive = ground (arith, positive)

toy_kdsa-IsKdsa : IsKdsa toy_kdsa toy 1 32
toy_kdsa-IsKdsa = record {
  verifies = λ params valid e. ap (λ o. code_of o == 0) e ∙ code_of-valid valid;
  signs_zero = λ params zero_key. signed-zero params zero_key;
  signs_code = λ params key_positive key_below positive below.
      rw (not_zero (part 32 3 params) key_positive)
        (signed-code (first_half params) (second_half params) params);
  signs = λ params key_positive key_below positive below.
      rw (not_zero (part 32 3 params) key_positive) (
        signed-halves (first_half params) (second_half params) params (mod-lt _ (omega arith))
          (mod-lt _ (omega arith)));
}

toy-Fits : Fits toy 32
toy-Fits = record { order_fits = omega arith; bits_fit = omega arith }

-- A digest, the key of the number 3, and a signature in range.
abbrev digest : Bytes
digest = 96 ∷ 5 ∷ []

abbrev public_key : PublicKey
public_key = key_at toy (multiple toy 3)

abbrev private_key : PrivateKey
private_key = record { public = public_key; d = 3 }

usable :
    (function_code size : ℕ)
    → can_use_kdsa false true toy ≡ some (function_code, size)
    → ◌≡◌ {A = ℕ × ℕ} (1, 32) (function_code, size)
unfolding can_use_kdsa bytes_equal
usable function_code size e = some-injective (1, 32) (function_code, size) e

hash_to_bytes-fill_bytes_example :
    hash_to_bytes 1 digest (record toy { order = 251 })
    ≡ fill_bytes 1 (hash_to_int digest (record toy { order = 251 }))
hash_to_bytes-fill_bytes_example =
    hash_to_bytes-fill_bytes 1 digest (record toy { order = 251 }) (omega arith)

-- A key of zero is refused with an error after one draw.
refused :
    sign_s390x toy_kdsa toy_reader false true 2
      (record { public = key_at toy (multiple toy 0); d = 0 })
      (replicate 20 3)
      toy
      digest
    ≡ some (err "zero parameter")
unfolding sign_s390x sign_kdsa rand_field_element can_use_kdsa bytes_equal hash_to_bytes fill_bytes
    hash_to_int
refused = refl

sign_s390x-sign_generic_example :
    sign_s390x toy_kdsa toy_reader false true 2 private_key (replicate 20 3) toy digest
    ≡ sign_generic toy_reader 2 private_key (replicate 20 3) toy digest
unfolding sign_s390x sign_generic can_use_kdsa draw_nonces bytes_equal
sign_s390x-sign_generic_example =
    sign_s390x-sign_generic toy_kdsa false true private_key digest toy_reader 2 (replicate 20 3)
      (omega arith) (omega arith) (omega arith)
      (λ function_code size e.
        subst (λ p. Fits toy p.1 × IsKdsa toy_kdsa toy p.0 p.1) (usable function_code size e)
          (toy-Fits, toy_kdsa-IsKdsa))
