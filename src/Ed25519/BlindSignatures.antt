-- ===== src/Ed25519/BlindSignatures.antt =====
-- Keys made from a seed sign what verifying accepts, blinded or not, and unblinding undoes blinding.
use pat_go.Base.{
  ◌≡◌, ◌*◌, ◌%◌, ◌<◌, ℕ, true, [], ◌∷◌, ◌++◌, Bytes, length, take, drop, length-append, length-take,
  ok, arith, ap, sym, ◌∙◌, refl, ◌>>=◌,
}
use native.Mathlib.Nat.{mod-mod, mul_assoc}
use pat_go.Base.Modular.{mul-inverse}
use pat_go.Base.Chunks.{fit_whole, take-length, drop-length}
use pat_go.Ed25519.{Edwards25519, IsEdwards25519}
use pat_go.Ed25519.Keys.{
  new_key_from_seed, blind_digest, blind_scalar, blind_public_key_with_context,
  unblind_public_key_with_context,
}
use pat_go.Ed25519.Signing.{sign_internal, sign, blind_key_sign_with_context, verify}
use pat_go.Ed25519.Signatures.{verify-sign_internal}

module _ (e : Edwards25519) (laws : IsEdwards25519 e) where
  half_digest : (xs : Bytes) → length (take 32 (e.sha512 xs)) ≡ 32
  half_digest xs = omega (arith, length-take 32 (e.sha512 xs), laws.length-sha512 xs)

  new_key-made :
      (seed : Bytes) (s : e.Scalar)
      → length seed ≡ 32
      → e.set_bytes_with_clamping (take 32 (e.sha512 seed)) ≡ ok s
      → new_key_from_seed e seed ≡ ok (seed ++ e.point_bytes (e.scalar_base_mult s))
  unfolding new_key_from_seed
  new_key-made seed s sized clamped =
      rw
        (
          sized,
          clamped,
          fit_whole 32 (e.point_bytes (e.scalar_base_mult s))
              (laws.length-point_bytes (e.scalar_base_mult s)),
        )
        refl

  module _ (seed public message : Bytes) (s : e.Scalar) (sized : length seed ≡ 32)
      (public_sized : length public ≡ 32)
      (clamped : e.set_bytes_with_clamping (take 32 (e.sha512 seed)) ≡ ok s) where
    key_sized : length (seed ++ public) ≡ 64
    key_sized = omega (arith, length-append seed public, sized, public_sized)

    sign-internal :
        sign e (seed ++ public) message ≡ sign_internal e public message (drop 32 (e.sha512 seed)) s
    unfolding sign
    sign-internal =
        rw (key_sized, take-length 32 seed public sized, drop-length 32 seed public sized, clamped)
          refl

    blind_key_sign-internal :
        (blind ctx : Bytes) (r : e.Scalar) (q : e.Point)
        → length blind ≡ 32
        → blind_scalar e blind ctx ≡ ok r
        → e.point public ≡ ok q
        → blind_key_sign_with_context e (seed ++ public) message blind ctx
          ≡ sign_internal e
              (e.point_bytes (e.scalar_mult r q))
              message
              (drop 32 (e.sha512 seed) ++ drop 32 (blind_digest e blind ctx))
              (e.multiply s r)
    unfolding blind_key_sign_with_context
    blind_key_sign-internal blind ctx r q blind_sized blinds decoded =
        rw
          (
            key_sized,
            blind_sized,
            take-length 32 seed public sized,
            drop-length 32 seed public sized,
            clamped,
            blinds,
            decoded,
          )
          refl

  -- A key made from a seed of 32 bytes signs every message, and verifying accepts the signature under
  -- the second half of the key.
  pub verify-sign :
      (seed message : Bytes)
      → length seed ≡ 32
      → (key : Bytes) × ((sig : Bytes) × ((new_key_from_seed e seed ≡ ok key)
            × ((sign e key message ≡ ok sig) × (verify e (drop 32 key) message sig ≡ ok true))))
  verify-sign seed message sized =
      let (s, clamped) = laws.clamping_lem (take 32 (e.sha512 seed)) (half_digest seed) in
      let a = e.scalar_base_mult s in
      let public = e.point_bytes a in
      let (sig, (signed, accepted)) =
        verify-sign_internal e laws public message (drop 32 (e.sha512 seed)) s a refl
          (laws.base_lem s) in
      (
        seed ++ public,
        (
          sig,
          (
            new_key-made seed s sized clamped,
            (
              sign-internal seed public message s sized (laws.length-point_bytes a) clamped
                  ∙ signed,
              ap (λ p. verify e p message sig) (drop-length 32 seed public sized) ∙ accepted,
            ),
          ),
        ),
      )

  blind_public_key-made :
      (key blind ctx : Bytes) (r : e.Scalar) (p : e.Point)
      → blind_scalar e blind ctx ≡ ok r
      → e.point key ≡ ok p
      → blind_public_key_with_context e key blind ctx ≡ ok (e.point_bytes (e.scalar_mult r p))
  unfolding blind_public_key_with_context
  blind_public_key-made key blind ctx r p blinds decoded = rw (blinds, decoded) refl

  unblind_public_key-made :
      (key blind ctx : Bytes) (r t : e.Scalar) (p : e.Point)
      → blind_scalar e blind ctx ≡ ok r
      → e.mod_inverse r ≡ ok t
      → e.point key ≡ ok p
      → unblind_public_key_with_context e key blind ctx ≡ ok (e.point_bytes (e.scalar_mult t p))
  unfolding unblind_public_key_with_context
  unblind_public_key-made key blind ctx r t p blinds inverts decoded =
      rw (blinds, inverts, decoded) refl

  -- A signature with a blinded key is accepted under the blinded public key: for a key made from a seed
  -- of 32 bytes, a blind of 32 bytes, any context and any message, signing and blinding both return.
  pub verify-blind_key_sign_with_context :
      (seed message blind ctx : Bytes)
      → length seed ≡ 32
      → length blind ≡ 32
      → (key : Bytes) × ((sig : Bytes) × ((blinded : Bytes) × ((new_key_from_seed e seed ≡ ok key)
              × ((blind_key_sign_with_context e key message blind ctx ≡ ok sig)
                  × ((blind_public_key_with_context e (drop 32 key) blind ctx ≡ ok blinded)
                      × (verify e blinded message sig ≡ ok true))))))
  verify-blind_key_sign_with_context seed message blind ctx sized blind_sized =
      let (s, clamped) = laws.clamping_lem (take 32 (e.sha512 seed)) (half_digest seed) in
      let (r, blinds) =
        laws.set_bytes_lem (take 32 (blind_digest e blind ctx))
          (half_digest (blind ++ 0 ∷ [] ++ ctx)) in
      let a = e.scalar_base_mult s in
      let public = e.point_bytes a in
      let (q, (decoded, represents)) = laws.point_lem a (laws.value s) (laws.base_lem s) in
      let blinded = e.point_bytes (e.scalar_mult r q) in
      let times : (laws.value s * laws.value r) % laws.order
          ≡ laws.value (e.multiply s r) % laws.order =
        sym (mod-mod (laws.value s * laws.value r) laws.order)
        ∙ ap (λ t. t % laws.order) (sym (laws.value-multiply s r)) in
      let (sig, (signed, accepted)) =
        verify-sign_internal e laws blinded message
          (drop 32 (e.sha512 seed) ++ drop 32 (blind_digest e blind ctx)) (e.multiply s r)
          (e.scalar_mult r q) refl
          (laws.congruent (e.scalar_mult r q) (laws.value s * laws.value r)
            (laws.value (e.multiply s r)) times (laws.mult_lem r q (laws.value s) represents)) in
      (
        seed ++ public,
        (
          sig,
          (
            blinded,
            (
              new_key-made seed s sized clamped,
              (
                blind_key_sign-internal seed public message s sized (laws.length-point_bytes a)
                      clamped blind ctx r q blind_sized blinds decoded
                    ∙ signed,
                (
                  ap (λ k. blind_public_key_with_context e k blind ctx)
                        (drop-length 32 seed public sized)
                      ∙ blind_public_key-made public blind ctx r q blinds decoded,
                  accepted,
                ),
              ),
            ),
          ),
        ),
      )

  -- Unblinding undoes blinding, with the same blind and context, on the bytes of a point that stands for
  -- a multiple of the base point, when the scalar of the blind is not zero.
  pub unblind-blind_public_key :
      (p : e.Point) (d : ℕ) (blind ctx : Bytes) (r : e.Scalar)
      → laws.Represents p d
      → blind_scalar e blind ctx ≡ ok r
      → 0 < laws.value r
      → (blind_public_key_with_context e (e.point_bytes p) blind ctx >>= λ blinded.
          unblind_public_key_with_context e blinded blind ctx)
        ≡ ok (e.point_bytes p)
  unblind-blind_public_key p d blind ctx r represents blinds nonzero =
      let n = laws.order in
      let (q, (decoded, represents_q)) = laws.point_lem p d represents in
      let once = e.scalar_mult r q in
      let (q', (decoded', represents_q')) =
        laws.point_lem once (d * laws.value r) (laws.mult_lem r q d represents_q) in
      let (t, (inverts, cancels)) = laws.inverse_lem r nonzero in
      let back : (d * laws.value r * laws.value t) % n ≡ d % n =
        ap (λ x. x % n) (mul_assoc d (laws.value r) (laws.value t))
        ∙ mul-inverse n d (laws.value r) (laws.value t) cancels in
      ap (λ o. o >>= λ blinded. unblind_public_key_with_context e blinded blind ctx)
        (blind_public_key-made (e.point_bytes p) blind ctx r q blinds decoded)
      ∙ unblind_public_key-made (e.point_bytes once) blind ctx r t q' blinds inverts decoded'
      ∙ ap ok (
          laws.same_bytes (e.scalar_mult t q') p d
            (laws.congruent (e.scalar_mult t q') (d * laws.value r * laws.value t) d back
              (laws.mult_lem t q' (d * laws.value r) represents_q'))
            represents)
