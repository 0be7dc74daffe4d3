-- ===== src/Runs/Ecdsa.antt =====
-- Runs of the package ecdsa on a toy curve.
use pat_go.Base.{
  ◌≡◌, ◌==◌, ◌+◌, ◌*◌, ◌%◌, bytes_equal, replicate, ℕ, true, false, some, [], ◌∷◌, Bytes, ok, panic,
  arith, refl, ◌>>=◌,
}
use pat_go.Ecdsa.Big.{pos}
use pat_go.Ecdsa.{fill_bytes}
use pat_go.Ecdsa.Curve.{multiple}
use pat_go.Ecdsa.Keys.{PrivateKey, key_at, rand_field_element, generate_key}
use pat_go.Ecdsa.Signing.{
  hash_to_int, draw_nonces, sign_generic, seed_generator, sign, stream_reader,
}
use pat_go.Ecdsa.Verifying.{verify, verify_generic}
use pat_go.Ecdsa.Blinding.{
  hash_blind, blind_public_key_with_context, unblind_public_key_with_context, blind_private_key,
  blind_key_sign_with_context,
}
use pat_go.Ecdsa.Rejection.{verify-multiple, unblind-panic}
use pat_go.Ecdsa.Ambiguity.{blind_public_key-ambiguous}
use pat_go.Ecdsa.Asn1.{verify_asn1-sign_asn1, sign_asn1, verify_asn1, encode}
use pat_go.Ecdsa.Signatures.{Draws, serves, retry, sign_generic-returns}
use pat_go.Ecdsa.BlindKeys.{verify-blind_key_sign}
use pat_go.Ecdsa.ToyCurve.{toy, toy-IsCurve, toy_hash, toy_ciphers, toy_reader, toy_asn1}

abbrev zeroes : ℕ → Bytes
zeroes n = replicate n 0

abbrev toy_key : ℕ → PrivateKey
toy_key d = record { public = key_at toy (multiple toy d); d = d }

-- The second nonce serves: with the first the second half of the signature is zero.
toy-Draws : Draws (stream_reader toy_ciphers) (toy_key 1) (192 ∷ []) 0 2
unfolding rand_field_element hash_to_int
toy-Draws = retry 0 1 1 1 refl (serves 1 2 4 refl (omega arith, omega arith))

blinded_three : blind_private_key toy_hash (toy_key 3) (toy_key 2) (1 ∷ []) ≡ ok (toy_key 1)
unfolding blind_private_key blind_public_key_with_context hash_blind fill_bytes bytes_equal
blinded_three = refl

seeded : seed_generator toy_reader toy_ciphers false (zeroes 40) (toy_key 1) (192 ∷ []) ≡ ok 0
unfolding seed_generator
seeded = refl

verify-blind_key_sign_example :
    (r : ℕ) × ((s : ℕ) × ((blind_key_sign_with_context toy_hash toy_reader toy_ciphers 2 false
            (zeroes 40)
            (toy_key 3)
            (toy_key 2)
            (192 ∷ [])
            (1 ∷ [])
          ≡ some (ok (r, s)))
        × ((blind_public_key_with_context toy_hash toy
                (key_at toy (multiple toy 3))
                (toy_key 2)
                (1 ∷ [])
              >>= λ public. verify public (192 ∷ []) (pos r) (pos s))
            ≡ ok true)))
verify-blind_key_sign_example =
    verify-blind_key_sign toy_hash toy_reader toy_ciphers 2 2 false (zeroes 40) (toy_key 3)
      (toy_key 2) (192 ∷ []) (1 ∷ []) (toy_key 1) 0 toy-IsCurve refl blinded_three seeded toy-Draws
      (omega arith)

sign_generic-returns_example :
    (r : ℕ) × ((s : ℕ) × ((sign_generic (stream_reader toy_ciphers) 2 (toy_key 1) 0 toy (192 ∷ [])
          ≡ some (ok (r, s)))
        × (verify (key_at toy (multiple toy 1)) (192 ∷ []) (pos r) (pos s) ≡ ok true)))
sign_generic-returns_example =
    sign_generic-returns (stream_reader toy_ciphers) (toy_key 1) (192 ∷ []) 2 2 0 toy-IsCurve refl
      toy-Draws (omega arith)

-- The run itself: the second nonce is four.
signed : sign_generic (stream_reader toy_ciphers) 2 (toy_key 1) 0 toy (192 ∷ []) ≡ some (ok (4, 6))
unfolding sign_generic draw_nonces rand_field_element hash_to_int
signed = refl

blind_five : hash_blind toy_hash toy (toy_key 2) (1 ∷ []) ≡ ok 5
unfolding hash_blind fill_bytes bytes_equal
blind_five = refl

blind_one : hash_blind toy_hash toy (toy_key 2) [] ≡ ok 1
unfolding hash_blind fill_bytes bytes_equal
blind_one = refl

abbrev toy_signature : Bytes
toy_signature = 1 ∷ 1 ∷ 1 ∷ 1 ∷ 0 ∷ 1 ∷ 1 ∷ 1 ∷ 1 ∷ 1 ∷ 1 ∷ 0 ∷ []

signed_asn1 :
    sign_asn1 toy_asn1 toy_reader toy_ciphers 2 false (zeroes 40) (toy_key 1) (192 ∷ [])
    ≡ some (ok toy_signature)
unfolding sign_asn1 sign seed_generator sign_generic draw_nonces rand_field_element hash_to_int
    encode
signed_asn1 = refl

verify_asn1-sign_asn1_example :
    verify_asn1 toy_asn1 (key_at toy (multiple toy 1)) (192 ∷ []) toy_signature ≡ ok true
verify_asn1-sign_asn1_example =
    verify_asn1-sign_asn1 toy_reader toy_ciphers 2 false (zeroes 40) (toy_key 1) (192 ∷ []) toy_asn1
      toy_signature toy-IsCurve refl signed_asn1

accepted : verify (key_at toy (multiple toy 1)) (192 ∷ []) (pos 4) (pos 6) ≡ ok true
unfolding verify verify_generic hash_to_int
accepted = refl

verify-multiple_example :
    (w : ℕ) × ((6 * w % toy.order ≡ 1)
      × (verify (key_at toy (multiple toy 1)) (192 ∷ []) (pos 4) (pos 6)
          ≡ ok ((multiple toy ((1 * 4 + hash_to_int (192 ∷ []) toy) * w)).0 % toy.order == 4)))
verify-multiple_example =
    verify-multiple toy 1 (192 ∷ []) 4 6 toy-IsCurve (omega arith) (omega arith) (omega arith)
      (omega arith)

blind_zero : hash_blind toy_hash toy (toy_key 0) [] ≡ ok 0
unfolding hash_blind fill_bytes bytes_equal
blind_zero = refl

unblind-panic_example :
    unblind_public_key_with_context toy_hash toy (toy_key 3).public (toy_key 0) [] ≡ panic
unblind-panic_example = unblind-panic toy_hash toy (toy_key 3).public (toy_key 0) [] blind_zero

generated : generate_key toy_reader toy (zeroes 40) ≡ ok (toy_key 1, zeroes 31)
unfolding generate_key rand_field_element
generated = refl

-- The number 2 with the context 0, 1 blinds as the number 512 with the context 1.
blind_public_key-ambiguous_example :
    blind_public_key_with_context toy_hash toy (toy_key 3).public (toy_key 2) (0 ∷ 1 ∷ [])
    ≡ blind_public_key_with_context toy_hash toy
        (toy_key 3).public
        (record (toy_key 2) { d = 512 })
        (1 ∷ [])
blind_public_key-ambiguous_example =
    blind_public_key-ambiguous toy_hash toy (toy_key 2) (1 ∷ []) (toy_key 3).public (omega arith)
