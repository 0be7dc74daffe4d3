-- ===== src/Ecdsa/KeyPairs.antt =====
-- The keys that the package ecdsa makes are key pairs.
use pat_go.Base.{
  ◌≡◌, ◌<◌, ◌*◌, ◌%◌, ℕ, zero, suc, Outcome-cases, inl, inr, Bytes, ok, refl, ap, sym, subst, ◌∙◌,
  >>=-eq-ok, ok-injective, arith,
}
use pat_go.Ecdsa.{big_endian}
use pat_go.Ecdsa.Big.{int_bytes, modulo}
use pat_go.Ecdsa.Curve.{
  Curve, IsCurve, Reader, HashToField, multiple, multiple-reduced, scalar_mult-multiple,
}
use pat_go.Ecdsa.Keys.{
  PublicKey, PrivateKey, key_at, point, rand_field_element, create_key, generate_key,
}
use pat_go.Ecdsa.Blinding.{hash_blind, blind_public_key_with_context, blind_private_key}
use pat_go.Ecdsa.Nonces.{IsKeyPair}
use pat_go.Ecdsa.Inverses.{rand_field_element-bounds}

-- A key made of its bytes is a key pair on the curve.
pub create_key-IsKeyPair :
    (c : Curve) (encoded : Bytes) {key : PrivateKey}
    → IsCurve c
    → create_key c encoded ≡ ok key
    → IsKeyPair key × (key.public.curve ≡ c)
unfolding create_key
create_key-IsKeyPair c encoded {key} group h =
    subst (λ k. IsKeyPair k × (k.public.curve ≡ c)) (ok-injective h)
      (
        ap (key_at c) (group.base encoded ∙ sym (multiple-reduced c group (big_endian 0 encoded))),
        refl,
      )

-- A key that is drawn is a key pair on the curve, its number above zero and below the order.
pub generate_key-IsKeyPair :
    (rd : Reader) (c : Curve) (source : rd.Source) {key : PrivateKey} {rest : rd.Source}
    → IsCurve c
    → generate_key rd c source ≡ ok (key, rest)
    → (IsKeyPair key × (key.public.curve ≡ c)) × ((0 < key.d) × (key.d < c.order))
unfolding generate_key
generate_key-IsKeyPair rd c source {key} {rest} group h =
    let ((k, left), drawn, returned) = >>=-eq-ok (rand_field_element rd c source) _ h in
    let same : record { public = key_at c (multiple c k); d = k } ≡ key =
      ap (λ p. p.0) (ok-injective returned) in
    subst (λ k. (IsKeyPair k × (k.public.curve ≡ c)) × ((0 < k.d) × (k.d < c.order))) same
      ((refl, refl), rand_field_element-bounds rd c source group.order_large drawn)

modulo-positive : (a n : ℕ) → 0 < n → modulo a n ≡ ok (a % n)
modulo-positive a zero h = absurd (omega arith)
modulo-positive a (suc n) h = refl

module _ (hash_to_field : HashToField) where
  pub blind_public_key-hashed :
      (c : Curve) (key : PublicKey) (blind : PrivateKey) (ctx : Bytes) {k : ℕ}
      → hash_blind hash_to_field c blind ctx ≡ ok k
      → blind_public_key_with_context hash_to_field c key blind ctx
        ≡ ok (key_at c (c.scalar_mult (point key) (int_bytes k)))
  unfolding blind_public_key_with_context
  blind_public_key-hashed c key blind ctx hashed = rw (hashed) refl

  -- A point that is a multiple of the base point stays one.
  pub blind_public_key-multiple :
      (c : Curve) (d : ℕ) (blind : PrivateKey) (ctx : Bytes) {k : ℕ}
      → IsCurve c
      → hash_blind hash_to_field c blind ctx ≡ ok k
      → blind_public_key_with_context hash_to_field c (key_at c (multiple c d)) blind ctx
        ≡ ok (key_at c (multiple c (d * k)))
  blind_public_key-multiple c d blind ctx {k} group hashed =
      blind_public_key-hashed c (key_at c (multiple c d)) blind ctx hashed
      ∙ ap (λ p. ok (key_at c p)) (scalar_mult-multiple c group d k)

  blind_private_key-blinded :
      (key blind : PrivateKey) (ctx : Bytes) {k : ℕ} {public : PublicKey}
      → 0 < key.public.curve.order
      → hash_blind hash_to_field key.public.curve blind ctx ≡ ok k
      → blind_public_key_with_context hash_to_field key.public.curve key.public blind ctx
        ≡ ok public
      → blind_private_key hash_to_field key blind ctx
        ≡ ok (record { public = public; d = key.d * k % key.public.curve.order })
  unfolding blind_private_key
  blind_private_key-blinded key blind ctx {k} positive hashed blinded =
      rw (blinded, hashed, modulo-positive (key.d * k) key.public.curve.order positive) refl

  -- Blinding a key pair multiplies both halves: the result is a key pair, whose public key is the
  -- blinded one.
  pub blind_private_key-IsKeyPair :
      (key blind : PrivateKey) (ctx : Bytes) {blinded : PrivateKey}
      → IsCurve key.public.curve
      → IsKeyPair key
      → blind_private_key hash_to_field key blind ctx ≡ ok blinded
      → (IsKeyPair blinded × (blinded.public.curve ≡ key.public.curve))
        × (blind_public_key_with_context hash_to_field key.public.curve key.public blind ctx
            ≡ ok blinded.public)
  unfolding blind_private_key blind_public_key_with_context
  blind_private_key-IsKeyPair key blind ctx {blinded} group pair h =
      let c = key.public.curve in
      elim (Outcome-cases (hash_blind hash_to_field c blind ctx)) [
        | inl (k, hashed) ↦
            let public : blind_public_key_with_context hash_to_field c key.public blind ctx
                ≡ ok (key_at c (multiple c (key.d * k))) =
              ap (λ p. blind_public_key_with_context hash_to_field c p blind ctx) pair
              ∙ blind_public_key-multiple c key.d blind ctx group hashed in
            subst
              (λ b.
                (IsKeyPair b × (b.public.curve ≡ c))
                × (blind_public_key_with_context hash_to_field c key.public blind ctx
                    ≡ ok b.public))
              (ok-injective (
                sym (
                  blind_private_key-blinded key blind ctx (omega (arith, group.order_large)) hashed
                    public)
                ∙ h))
              ((ap (key_at c) (multiple-reduced c group (key.d * k)), refl), public)
        | inr (inl (e, failed)) ↦ ground arith
        | inr (inr failed) ↦ ground arith
      ]
