-- ===== src/Ecdsa/Inverses.antt =====
-- Lemmas on the inverses that signing and verifying take, and on the nonces drawn.
use pat_go.Base.{
  ◌≡◌, ◌+◌, ◌-◌, ◌*◌, ◌/◌, ◌%◌, ◌^◌, ◌<◌, ℕ, zero, suc, none, some, ok, Option-cases, inl, inr,
  arith, ap, ◌∙◌, sym, subst, ap₂, refl, >>=-eq-ok,
}
use pat_go.Base.Modular.{mul-mod_right}
use pat_go.Ecdsa.{big_endian}
use pat_go.Ecdsa.Big.{int_bytes, mod_inverse, mod_inverse-found, big_endian-int_bytes}
use pat_go.Ecdsa.Curve.{Curve, IsCurve, Reader, multiple, multiple-reduced, scalar_mult-multiple}
use pat_go.Ecdsa.Keys.{field_element, rand_field_element}
use pat_go.Ecdsa.Signing.{fermat_inverse, nonce_inverse}
use pat_go.Ecdsa.Verifying.{response_inverse, combine}

field_element-bounds : (n k : ℕ) {e : ℕ} → 1 < n → field_element n k ≡ ok e → (0 < e) × (e < n)
field_element-bounds zero k large h = absurd (omega arith)
field_element-bounds (suc zero) k large h = cc
field_element-bounds (suc (suc n)) k large h =
    let small : k % suc n < suc n = omega arith in (ground arith, ground arith)

pub rand_field_element-bounds :
    (rd : Reader) (c : Curve) (source : rd.Source) {k : ℕ} {rest : rd.Source}
    → 1 < c.order
    → rand_field_element rd c source ≡ ok (k, rest)
    → (0 < k) × (k < c.order)
unfolding rand_field_element
rand_field_element-bounds rd c source {k} {rest} large h =
    let ((b, left), _, after) = >>=-eq-ok (rd.read_full source (c.bit_size / 8 + 8)) _ h in
    let (e, drawn, returned) = >>=-eq-ok (field_element c.order (big_endian 0 b)) _ after in
    let same : e ≡ k = cc in
    subst (λ e. (0 < e) × (e < c.order)) same
      (field_element-bounds c.order (big_endian 0 b) large drawn)

module _ (c : Curve) (group : IsCurve c) where
  fermat_inverse_lem : (k : ℕ) → 0 < k → k < c.order → k * fermat_inverse k c.order % c.order ≡ 1
  fermat_inverse_lem k positive below =
      mul-mod_right c.order k (k ^ (c.order - 2)) ∙ group.order_prime k positive below

  pub nonce_inverse_lem : (k : ℕ) → 0 < k → k < c.order → k * nonce_inverse c k % c.order ≡ 1
  nonce_inverse_lem k positive below = elim (Option-cases c.inverse) [
    | inl missing ↦ rw (missing) (fermat_inverse_lem k positive below)
    | inr (inv, there) ↦ rw (there) (group.invertible inv there k positive below)
  ]

  response_inverse-searched :
      (s w : ℕ) → c.inverse ≡ none → mod_inverse s c.order ≡ some w → response_inverse c s ≡ ok w
  response_inverse-searched s w missing found = rw (missing, found) refl

  pub response_inverse_lem :
      (s : ℕ)
      → 0 < s
      → s < c.order
      → (w : ℕ) × ((response_inverse c s ≡ ok w) × (s * w % c.order ≡ 1))
  response_inverse_lem s positive below = elim (Option-cases c.inverse) [
    | inl missing ↦
        let (w, (found, inverse)) =
          mod_inverse-found s c.order (s ^ (c.order - 2)) (omega (arith, group.order_large))
            (group.order_prime s positive below) in
        (w, (response_inverse-searched s w missing found, inverse))
    | inr (inv, there) ↦ (inv s, (rw (there) refl, group.invertible inv there s positive below))
  ]

  pub combine-multiple :
      (d u v : ℕ) → combine c (multiple c d) (int_bytes u) (int_bytes v) ≡ multiple c (u + d * v)
  combine-multiple d u v = elim (Option-cases c.combined_mult) [
    | inl missing ↦
        rw (missing) (ap (c.add (multiple c u)) (scalar_mult-multiple c group d v))
        ∙ group.sum u (d * v)
        ∙ sym (multiple-reduced c group (u + d * v))
    | inr (f, there) ↦ rw (there) (
        group.combined f there d (int_bytes u) (int_bytes v)
        ∙ ap₂ (λ s t. multiple c ((s + d * t) % c.order)) (big_endian-int_bytes u)
            (big_endian-int_bytes v)
        ∙ sym (multiple-reduced c group (u + d * v)))
  ]
