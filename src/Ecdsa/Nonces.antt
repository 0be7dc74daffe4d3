-- ===== src/Ecdsa/Nonces.antt =====
-- A signature made with a nonce that serves is accepted by verifying.
use pat_go.Base.{
  ◌≡◌, ◌≢◌, ◌==◌, ==_refl, ap₂, ◌&&◌, Bool-cases, ◌*◌, ◌%◌, ◌<◌, ℕ, true, Bytes, ok, inl, inr,
  arith, ap, sym, ◌∙◌, refl, subst,
}
use native.Mathlib.Nat.{mod-lt}
use pat_go.Base.Modular.{signature_equation}
use pat_go.Ecdsa.Big.{pos, int_bytes}
use pat_go.Ecdsa.Curve.{Curve, Affine, IsCurve, multiple, multiple-congruent}
use pat_go.Ecdsa.Keys.{PublicKey, PrivateKey, key_at, point}
use pat_go.Ecdsa.Signing.{hash_to_int, nonce_inverse, commitment, response}
use pat_go.Ecdsa.Verifying.{response_inverse, combine, compare_point, verify_generic, verify}
use pat_go.Ecdsa.Inverses.{nonce_inverse_lem, response_inverse_lem, combine-multiple}

-- The public key is the multiple of the base point by the private one.
abbrev pub IsKeyPair : PrivateKey → Type 0
IsKeyPair key = key.public ≡ key_at key.public.curve (multiple key.public.curve key.d)

compare_point-finite :
    (c : Curve) (p : Affine) → p ≢ (0, 0) → compare_point c p (p.0 % c.order) ≡ true
compare_point-finite c (x, y) finite = elim (Bool-cases (x == 0 && y == 0)) [
  | inl both ↦
      let zeroes : (x ≡ 0) × (y ≡ 0) = (ground arith, ground arith) in
      absurd (finite (ap₂ (λ a b. (a, b)) zeroes.0 zeroes.1))
  | inr e ↦ ground (arith, ==_refl (x % c.order))
]

abbrev key_of : Curve → ℕ → PrivateKey
key_of c d = record { public = key_at c (multiple c d); d = d }

-- The signature on a nonce.
pub verify_generic-inverse :
    (c : Curve) (hash : Bytes) (key : PublicKey) (r s w : ℕ)
    → response_inverse c s ≡ ok w
    → verify_generic key c hash r s
      ≡ ok (
          compare_point c
            (combine c
              (point key)
              (int_bytes (hash_to_int hash c * w % c.order))
              (int_bytes (r * w % c.order)))
            r)
unfolding verify_generic
verify_generic-inverse c hash key r s w inverse = rw (inverse) refl

module _ (c : Curve) (group : IsCurve c) (d : ℕ) (hash : Bytes) where
  pub verify-response :
      (k : ℕ)
      → 0 < k
      → k < c.order
      → 0 < response (key_of c d) c hash k
      → verify_generic
          (key_at c (multiple c d))
          c
          hash
          (commitment (key_of c d) c k)
          (response (key_of c d) c hash k)
        ≡ ok true
  verify-response k positive below nonzero =
      let r = commitment (key_of c d) c k in
      let e = hash_to_int hash c in
      let (w, (found, inverse)) =
        response_inverse_lem c group (response (key_of c d) c hash k) nonzero
          (mod-lt _ (omega (arith, below))) in
      verify_generic-inverse c hash (key_at c (multiple c d)) r (response (key_of c d) c hash k) w
        found
      ∙ ap (λ p. ok (compare_point c p r))
          (combine-multiple c group d (e * w % c.order) (r * w % c.order)
            ∙ multiple-congruent c group _ k (
                signature_equation c.order d r e k (nonce_inverse c k) w
                  (nonce_inverse_lem c group k positive below) inverse))
      ∙ ap ok (compare_point-finite c (multiple c k) (group.finite k positive below))

pub verify-in_range :
    (key : PublicKey) (hash : Bytes) (r s : ℕ)
    → 0 < r
    → r < key.curve.order
    → 0 < s
    → s < key.curve.order
    → verify key hash (pos r) (pos s) ≡ verify_generic key key.curve hash r s
unfolding verify
verify-in_range key hash r s r_positive r_below s_positive s_below = ground arith

-- What a nonce must do: both halves of the signature are not zero.
abbrev pub Serves : PrivateKey → Bytes → ℕ → Type 0
Serves key hash k =
    (0 < commitment key key.public.curve k) × (0 < response key key.public.curve hash k)

verify-nonce :
    (c : Curve)
    → IsCurve c
    → (d : ℕ) (hash : Bytes) (k : ℕ) → 0 < k
    → k < c.order
    → Serves (key_of c d) hash k
    → verify
        (key_at c (multiple c d))
        hash
        (pos (commitment (key_of c d) c k))
        (pos (response (key_of c d) c hash k))
      ≡ ok true
verify-nonce c group d hash k positive below (r_positive, s_positive) =
    let order_positive : 0 < c.order = omega (arith, below) in
    verify-in_range (key_at c (multiple c d)) hash _ _ r_positive (mod-lt _ order_positive)
      s_positive (mod-lt _ order_positive)
    ∙ verify-response c group d hash k positive below s_positive

pub verify-serving :
    (key : PrivateKey)
    → IsCurve key.public.curve
    → IsKeyPair key
    → (hash : Bytes) (k : ℕ) → 0 < k
    → k < key.public.curve.order
    → Serves key hash k
    → verify key.public hash
        (pos (commitment key key.public.curve k))
        (pos (response key key.public.curve hash k))
      ≡ ok true
verify-serving key group pair hash k =
    let whole : key_of key.public.curve key.d ≡ key =
      λ i. record { public = sym pair i; d = key.d } in
    subst
      (λ key'.
        0 < k
        → k < key'.public.curve.order
        → Serves key' hash k
        → verify key'.public hash (pos (commitment key' key'.public.curve k))
            (pos (response key' key'.public.curve hash k))
          ≡ ok true)
      whole (verify-nonce key.public.curve group key.d hash k)
