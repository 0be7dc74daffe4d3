-- ===== src/Ecdsa/BlindKeys.antt =====
-- What blinding is for: it is undone by unblinding, blinds commute, and a signature with a blinded key
-- is one under the blinded public key.
use pat_go.Base.{
  ◌≡◌, ◌-◌, ◌*◌, ◌%◌, ◌^◌, ◌<◌, ◌≤◌, ℕ, Bool, true, some, Bytes, ok, arith, ap, sym, subst, refl,
  ◌∙◌, ◌>>=◌,
}
use native.Mathlib.Nat.{mul_comm, mul_assoc}
use pat_go.Base.Modular.{mul-inverse}
use pat_go.Ecdsa.Big.{pos, int_bytes, mod_inverse, mod_inverse-found}
use pat_go.Ecdsa.Curve.{
  Curve, IsCurve, Reader, Ciphers, HashToField, multiple, multiple-congruent, scalar_mult-multiple,
}
use pat_go.Ecdsa.Keys.{PublicKey, PrivateKey, key_at, point}
use pat_go.Ecdsa.Signing.{sign_generic, seed_generator, sign, stream_reader}
use pat_go.Ecdsa.Verifying.{verify}
use pat_go.Ecdsa.Blinding.{
  hash_blind, blind_public_key_with_context, unblind_public_key_with_context, blind_private_key,
  blind_key_sign_with_context,
}
use pat_go.Ecdsa.Nonces.{IsKeyPair}
use pat_go.Ecdsa.Signatures.{Draws, sign_generic-returns}
use pat_go.Ecdsa.KeyPairs.{blind_public_key-multiple, blind_private_key-IsKeyPair}

unblind_public_key-hashed :
    (hash_to_field : HashToField) (c : Curve) (key : PublicKey) (blind : PrivateKey) (ctx : Bytes)
    {k w : ℕ}
    → hash_blind hash_to_field c blind ctx ≡ ok k
    → mod_inverse k c.order ≡ some w
    → unblind_public_key_with_context hash_to_field c key blind ctx
      ≡ ok (key_at c (c.scalar_mult (point key) (int_bytes w)))
unfolding unblind_public_key_with_context
unblind_public_key-hashed hash_to_field c key blind ctx hashed found = rw (hashed, found) refl

module _ (hash_to_field : HashToField) (c : Curve) (group : IsCurve c) (d : ℕ) where
  -- A public key that is a multiple of the base point is what unblinding makes of it blinded, with the
  -- same blind and context, when the blind does not hash to zero.
  pub unblind-blind :
      (blind : PrivateKey) (ctx : Bytes) (k : ℕ)
      → hash_blind hash_to_field c blind ctx ≡ ok k
      → 0 < k
      → k < c.order
      → (blind_public_key_with_context hash_to_field c (key_at c (multiple c d)) blind ctx
          >>= λ blinded. unblind_public_key_with_context hash_to_field c blinded blind ctx)
        ≡ ok (key_at c (multiple c d))
  unblind-blind blind ctx k hashed positive below =
      let (w, (found, inverse)) =
        mod_inverse-found k c.order (k ^ (c.order - 2)) (omega (arith, below))
          (group.order_prime k positive below) in
      let blinded_at = key_at c (multiple c (d * k)) in
      ap (λ o. o >>= λ blinded. unblind_public_key_with_context hash_to_field c blinded blind ctx)
        (blind_public_key-multiple hash_to_field c d blind ctx group hashed)
      ∙ unblind_public_key-hashed hash_to_field c blinded_at blind ctx hashed found
      ∙ ap (λ p. ok (key_at c p))
          (scalar_mult-multiple c group (d * k) w
            ∙ multiple-congruent c group (d * k * w) d
                (ap (λ t. t % c.order) (mul_assoc d k w) ∙ mul-inverse c.order d k w inverse))

  blind_twice :
      (first second : PrivateKey) (ctx ctx' : Bytes) (j k : ℕ)
      → hash_blind hash_to_field c first ctx ≡ ok j
      → hash_blind hash_to_field c second ctx' ≡ ok k
      → (blind_public_key_with_context hash_to_field c (key_at c (multiple c d)) first ctx
          >>= λ once. blind_public_key_with_context hash_to_field c once second ctx')
        ≡ ok (key_at c (multiple c (d * j * k)))
  blind_twice first second ctx ctx' j k hashed hashed' =
      ap (λ o. o >>= λ once. blind_public_key_with_context hash_to_field c once second ctx')
        (blind_public_key-multiple hash_to_field c d first ctx group hashed)
      ∙ blind_public_key-multiple hash_to_field c (d * j) second ctx' group hashed'

  -- Two blinds may be applied in either order to a multiple of the base point.
  pub blind-blind :
      (first second : PrivateKey) (ctx ctx' : Bytes) (j k : ℕ)
      → hash_blind hash_to_field c first ctx ≡ ok j
      → hash_blind hash_to_field c second ctx' ≡ ok k
      → (blind_public_key_with_context hash_to_field c (key_at c (multiple c d)) first ctx
          >>= λ once. blind_public_key_with_context hash_to_field c once second ctx')
        ≡ (blind_public_key_with_context hash_to_field c (key_at c (multiple c d)) second ctx'
            >>= λ once. blind_public_key_with_context hash_to_field c once first ctx)
  blind-blind first second ctx ctx' j k hashed hashed' =
      blind_twice first second ctx ctx' j k hashed hashed'
      ∙ ap (λ t. ok (key_at c (multiple c t)))
          (mul_assoc d j k ∙ ap (λ t. d * t) (mul_comm j k) ∙ sym (mul_assoc d k j))
      ∙ sym (blind_twice second first ctx' ctx k j hashed' hashed)

module _ (hash_to_field : HashToField) (rd : Reader) (lib : Ciphers) where
  sign-generated :
      (fuel : ℕ) (read : Bool) (source : rd.Source) (key : PrivateKey) (hash : Bytes)
      {stream : lib.Stream}
      → seed_generator rd lib read source key hash ≡ ok stream
      → sign rd lib fuel read source key hash
        ≡ sign_generic (stream_reader lib) fuel key stream key.public.curve hash
  unfolding sign
  sign-generated fuel read source key hash seeded = rw (seeded) refl

  blind_key_sign-blinded :
      (fuel : ℕ) (read : Bool) (source : rd.Source) (key blind : PrivateKey) (hash ctx : Bytes)
      {blinded : PrivateKey}
      → blind_private_key hash_to_field key blind ctx ≡ ok blinded
      → blind_key_sign_with_context hash_to_field rd lib fuel read source key blind hash ctx
        ≡ sign rd lib fuel read source blinded hash
  unfolding blind_key_sign_with_context
  blind_key_sign-blinded fuel read source key blind hash ctx made = rw (made) refl

  -- A signature with a blinded key is accepted under the blinded public key: when the key blinds to
  -- `blinded`, the generator seeded for it comes, in `n` draws, to a nonce that serves, and there is fuel
  -- for as many, signing returns, and verifying accepts, on a curve that is a group of prime order.
  pub verify-blind_key_sign :
      (fuel n : ℕ) (read : Bool) (source : rd.Source) (key blind : PrivateKey) (hash ctx : Bytes)
      (blinded : PrivateKey) (stream : lib.Stream)
      → IsCurve key.public.curve
      → IsKeyPair key
      → blind_private_key hash_to_field key blind ctx ≡ ok blinded
      → seed_generator rd lib read source blinded hash ≡ ok stream
      → Draws (stream_reader lib) blinded hash stream n
      → n ≤ fuel
      → (r : ℕ) × ((s : ℕ) × ((blind_key_sign_with_context hash_to_field rd lib fuel read source key
                blind hash ctx
              ≡ some (ok (r, s)))
            × ((blind_public_key_with_context hash_to_field key.public.curve key.public blind ctx
                  >>= λ public. verify public hash (pos r) (pos s))
                ≡ ok true)))
  verify-blind_key_sign fuel n read source key blind hash ctx blinded stream group pair made seeded
        draws enough =
      let ((pair', same), public) =
        blind_private_key-IsKeyPair hash_to_field key blind ctx group pair made in
      let (r, (s, (returned, accepted))) =
        sign_generic-returns (stream_reader lib) blinded hash fuel n stream
          (subst IsCurve (sym same) group) pair' draws enough in
      (
        r,
        (
          s,
          (
            blind_key_sign-blinded fuel read source key blind hash ctx made
                ∙ sign-generated fuel read source blinded hash seeded
                ∙ returned,
            ap (λ o. o >>= λ public. verify public hash (pos r) (pos s)) public ∙ accepted,
          ),
        ),
      )
