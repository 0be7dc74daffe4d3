-- ===== src/Ecdsa/Rejection.antt =====
-- What verifying refuses, where unblinding panics, and how large the number of a digest is.
use pat_go.Base.{
  ◌≡◌, ◌==◌, ltb, if◌then◌else◌, Bool-cases, ◌+◌, ◌-◌, ◌*◌, ◌/◌, ◌%◌, ◌^◌, ◌<◌, ◌≤◌, ℕ, zero, suc,
  Bool, true, false, ◌&&◌, [], ◌∷◌, Bytes, IsBytes, length, take, Option-cases, ok, panic, inl, inr,
  arith, ap, sym, subst, refl, ◌∙◌,
}
use native.Mathlib.Nat.{
  div-lt_iff_lt-mul, pow-le-pow_right, zero-lt-suc, lt_of_lt_of_le, one-le-pow, zero-mod, pow-suc,
  pow-succ', mul_assoc, mul-one, mul-le-mul_right,
}
use pat_go.Ecdsa.{big_endian}
use pat_go.Ecdsa.Big.{
  ℤ, pos, negsuc, bit_len, byte_len, mod_inverse, inverse_below_sound, pow_octets,
}
use pat_go.Ecdsa.Curve.{Curve, Affine, IsCurve, HashToField, multiple, multiple-congruent}
use pat_go.Base.Modular.{verified_multiple}
use pat_go.Ecdsa.Keys.{PublicKey, PrivateKey, key_at}
use pat_go.Ecdsa.Signing.{hash_to_int}
use pat_go.Ecdsa.Verifying.{compare_point, verify}
use pat_go.Ecdsa.Blinding.{hash_blind, unblind_public_key_with_context}
use pat_go.Ecdsa.Nonces.{verify-in_range, verify_generic-inverse}
use pat_go.Ecdsa.Inverses.{response_inverse_lem, combine-multiple}

-- What verifying accepts has both halves above zero and below the order.
pub verify-inv :
    (key : PublicKey) (hash : Bytes) (r s : ℤ)
    → verify key hash r s ≡ ok true
    → (m : ℕ) × ((n : ℕ) × (((r ≡ pos m) × ((0 < m) × (m < key.curve.order)))
          × ((s ≡ pos n) × ((0 < n) × (n < key.curve.order)))))
unfolding verify
verify-inv key hash (negsuc r) s h = ground arith
verify-inv key hash (pos r) (negsuc s) h = ground arith
verify-inv key hash (pos r) (pos s) h =
    (r, (s, ((refl, (ground arith, ground arith)), (refl, (ground arith, ground arith)))))

-- The point at infinity has no coordinate that a first half above zero equals.
compare_point-positive :
    (c : Curve) (p : Affine) (r : ℕ) → 0 < r → compare_point c p r ≡ (p.0 % c.order == r)
compare_point-positive c (x, y) r positive = elim (Bool-cases (x == 0 && y == 0)) [
  | inr finite ↦ rw (finite) refl
  | inl both ↦
      let none_left : x % c.order ≡ 0 =
        ap (λ t. t % c.order) (ground (arith, both)) ∙ zero-mod c.order in
      let differs : (x % c.order == r) ≡ false = ground (arith, none_left, positive) in
      rw (both, differs) refl
]

-- What verifying decides, for a key that is a multiple of the base point and two halves above zero
-- and below the order: it answers, and says whether the first half is the coordinate, modulo the
-- order, of the multiple of the base point by the number that the key, the digest and the halves
-- determine: the number of the key times the first half, plus that of the digest, times an inverse
-- of the second half; on a curve that is a group of prime order.
pub verify-multiple :
    (c : Curve) (d : ℕ) (hash : Bytes) (r s : ℕ)
    → IsCurve c
    → 0 < r
    → r < c.order
    → 0 < s
    → s < c.order
    → (w : ℕ) × ((s * w % c.order ≡ 1)
        × (verify (key_at c (multiple c d)) hash (pos r) (pos s)
            ≡ ok ((multiple c ((d * r + hash_to_int hash c) * w)).0 % c.order == r)))
verify-multiple c d hash r s group r_positive r_below s_positive s_below =
    let key = key_at c (multiple c d) in
    let e = hash_to_int hash c in
    let (w, (found, inverse)) = response_inverse_lem c group s s_positive s_below in
    let compared =
      ap (λ p. compare_point c p r)
        (combine-multiple c group d (e * w % c.order) (r * w % c.order)
          ∙ multiple-congruent c group _ _ (verified_multiple c.order d r e w))
      ∙ compare_point-positive c _ r r_positive in
    (
      w,
      (
        inverse,
        verify-in_range key hash r s r_positive r_below s_positive s_below
            ∙ verify_generic-inverse c hash key r s w found
            ∙ ap ok compared,
      ),
    )

-- Unblinding with a blind that hashes to zero panics.
pub unblind-panic :
    (hash_to_field : HashToField) (c : Curve) (key : PublicKey) (blind : PrivateKey) (ctx : Bytes)
    → hash_blind hash_to_field c blind ctx ≡ ok 0
    → unblind_public_key_with_context hash_to_field c key blind ctx ≡ panic
unfolding unblind_public_key_with_context
unblind-panic hash_to_field c key blind ctx hashed = elim (Option-cases (mod_inverse 0 c.order)) [
  | inl missing ↦ rw (hashed, missing) refl
  | inr (w, found) ↦
      let product : 0 * w % c.order ≡ 1 = inverse_below_sound c.order 0 c.order found in
      absurd (ground (arith, product, zero-mod c.order))
]

pub below_octets :
    (acc : ℕ) (xs : Bytes) → IsBytes xs → big_endian acc xs < suc acc * 256 ^ length xs
below_octets acc [] h = omega arith
below_octets acc (x ∷ xs) h =
    let later : big_endian (acc * 256 + x) xs < suc (acc * 256 + x) * 256 ^ length xs =
      below_octets (acc * 256 + x) xs h.1 in
    let fits : suc (acc * 256 + x) ≤ suc acc * 256 = omega (arith, h.0) in
    lt_of_lt_of_le later (
      subst (λ t. suc (acc * 256 + x) * 256 ^ length xs ≤ t)
        (mul_assoc (suc acc) 256 (256 ^ length xs)
          ∙ ap (λ t. suc acc * t) (sym (pow-succ' 256 (length xs))))
        (mul-le-mul_right (256 ^ length xs) fits))

pub IsBytes-take : (n : ℕ) (xs : Bytes) → IsBytes xs → IsBytes (take n xs)
IsBytes-take zero xs h = tt
IsBytes-take (suc n) [] h = tt
IsBytes-take (suc n) (x ∷ xs) h = (h.0, IsBytes-take n xs h.1)

-- The leading bits of a byte string, shifted down.
abbrev shifted : ℕ → Bytes → ℕ
shifted n xs =
    if ltb 0 (length xs * 8 - n) then big_endian 0 xs / 2 ^ (length xs * 8 - n) else big_endian 0 xs

pow_sum : (b m : ℕ) → 2 ^ (b + m) ≡ 2 ^ m * 2 ^ b
pow_sum zero m = ap (λ k. 2 ^ k) none_more ∙ sym (mul-one (2 ^ m))
  where
    none_more : 0 + m ≡ m
    none_more = omega arith
pow_sum (suc b) m =
    ap (λ k. 2 ^ k) one_more
    ∙ pow-suc 2 (b + m)
    ∙ ap (λ t. t * 2) (pow_sum b m)
    ∙ mul_assoc (2 ^ m) (2 ^ b) 2
    ∙ ap (λ t. 2 ^ m * t) (sym (pow-suc 2 b))
  where
    one_more : suc b + m ≡ suc (b + m)
    one_more = omega arith

shifted-bounds : (n : ℕ) (xs : Bytes) → IsBytes xs → shifted n xs < 2 ^ n
shifted-bounds n xs bytes =
    let below : big_endian 0 xs < 2 ^ (8 * length xs) =
      subst (λ t. big_endian 0 xs < t) (sym (pow_octets (length xs)))
        (omega (arith, below_octets 0 xs bytes)) in
    elim (Bool-cases (ltb 0 (length xs * 8 - n))) [
      | inl excess ↦
          let e : ℕ = length xs * 8 - n in
          let split : 8 * length xs ≡ e + n = ground arith in
          let cut : big_endian 0 xs / 2 ^ e < 2 ^ n =
            (div-lt_iff_lt-mul {k = 2 ^ e} (one-le-pow e 2 (zero-lt-suc 1))).1
              (subst (λ t. big_endian 0 xs < t) (ap (λ k. 2 ^ k) split ∙ pow_sum e n) below) in
          rw (excess) cut
      | inr short ↦
          let fits : 8 * length xs ≤ n = ground arith in
          rw (short) (lt_of_lt_of_le below (pow-le-pow_right {n = 2} (zero-lt-suc 1) fits))
    ]

IsBytes-either :
    (b : Bool) (xs ys : Bytes) → IsBytes xs → IsBytes ys → IsBytes (if b then xs else ys)
IsBytes-either true xs ys hx hy = hx
IsBytes-either false xs ys hx hy = hy

-- The number of a digest has no more bits than the order of the curve.
pub hash_to_int-bounds :
    (hash : Bytes) (c : Curve) → IsBytes hash → hash_to_int hash c < 2 ^ bit_len c.order
unfolding hash_to_int
hash_to_int-bounds hash c bytes =
    let size = byte_len c.order in
    shifted-bounds (bit_len c.order) (if ltb size (length hash) then take size hash else hash) (
      IsBytes-either (ltb size (length hash)) (take size hash) hash (IsBytes-take size hash bytes)
        bytes)
