-- ===== src/Ecdsa/PublicKeys.antt =====
-- Public keys that stand for multiples of the base point, and how blinding acts on them.
use pat_go.Base.{
  ◌≡◌, ◌<◌, ◌*◌, ◌%◌, ◌^◌, ◌-◌, arith, ℕ, Bytes, Outcome, ok, ◌>>=◌, >>=-eq-ok, ok-injective, ap,
  sym, ◌∙◌,
}
use native.Mathlib.Decide.{dec_lt}
use native.Mathlib.Nat.{mul_assoc, zero-mul, zero-mod}
use pat_go.Base.Modular.{mul-mod_left, mul-inverse}
use pat_go.Ecdsa.Big.{int_bytes}
use pat_go.Ecdsa.BlindKeys.{blind-blind, unblind-blind}
use pat_go.Ecdsa.Curve.{Curve, IsCurve, HashToField, multiple}
use pat_go.Ecdsa.Keys.{PublicKey, PrivateKey, key_at, point}
use pat_go.Ecdsa.Blinding
use pat_go.Ecdsa.Blinding.{hash_blind}
use pat_go.Ecdsa.KeyPairs.{blind_public_key-multiple, blind_public_key-hashed}

module _ (c : Curve) (hash_to_field : HashToField) (group : IsCurve c) where
  -- A public key that stands for a multiple of the base point, not for the point at infinity.
  abbrev pub IsPublicOn : PublicKey → Type 0
  IsPublicOn p = (n : ℕ) × ((p ≡ key_at c (multiple c n)) × (0 < n % c.order))

  -- A blind that hashes to a number that is not zero and is below the order.
  abbrev pub IsBlindOn : PrivateKey → Bytes → Type 0
  IsBlindOn blind ctx =
      (k : ℕ) × ((hash_blind hash_to_field c blind ctx ≡ ok k) × ((0 < k) × (k < c.order)))

  pub blinded-multiple :
      (key public : PublicKey) (blind : PrivateKey) (ctx : Bytes) (n : ℕ)
      → key ≡ key_at c (multiple c n)
      → Blinding.blind_public_key_with_context hash_to_field c key blind ctx ≡ ok public
      → (k : ℕ) × ((hash_blind hash_to_field c blind ctx ≡ ok k)
          × (public ≡ key_at c (multiple c (n * k))))
  unfolding Blinding.blind_public_key_with_context
  blinded-multiple key public blind ctx n at_n blinds =
      let (k, hashed, _) = >>=-eq-ok (hash_blind hash_to_field c blind ctx) _ blinds in
      (
        k,
        (
          hashed,
          ok-injective (
              sym blinds
              ∙ ap (λ p. Blinding.blind_public_key_with_context hash_to_field c p blind ctx) at_n
              ∙ blind_public_key-multiple hash_to_field c n blind ctx group hashed),
        ),
      )

  -- The order is prime, so that a blind does not lead to the point at infinity.
  product_positive : (n k : ℕ) → 0 < n % c.order → 0 < k → k < c.order → 0 < n * k % c.order
  product_positive n k public positive below = elim (dec_lt 0 (n * k % c.order)) [
    | yes found ↦ found
    | no none ↦
        let zero : n * k % c.order ≡ 0 = omega (arith, none) in
        let w : ℕ = k ^ (c.order - 2) in
        let same : n * k * w % c.order ≡ n % c.order =
          ap (λ t. t % c.order) (mul_assoc n k w)
          ∙ mul-inverse c.order n k w (group.order_prime k positive below) in
        let lost : n * k * w % c.order ≡ 0 =
          sym (mul-mod_left c.order (n * k) w)
          ∙ ap (λ t. t * w % c.order) zero
          ∙ ap (λ t. t % c.order) (zero-mul w)
          ∙ zero-mod c.order in
        absurd (omega (arith, public, same, lost))
  ]

  pub blinded-IsPublicOn :
      (key public : PublicKey) (blind : PrivateKey) (ctx : Bytes)
      → IsPublicOn key
      → IsBlindOn blind ctx
      → Blinding.blind_public_key_with_context hash_to_field c key blind ctx ≡ ok public
      → IsPublicOn public
  blinded-IsPublicOn key public blind ctx (n, (at_n, there)) (k, (hashed, (positive, below)))
        blinds =
      let (k', (hashed', at_k)) = blinded-multiple key public blind ctx n at_n blinds in
      let same : k' ≡ k = ok-injective (sym hashed' ∙ hashed) in
      (
        n * k,
        (
          at_k ∙ ap (λ t. key_at c (multiple c (n * t))) same,
          product_positive n k there positive below,
        ),
      )

  pub applies :
      (key : PublicKey) (blind : PrivateKey) (ctx : Bytes)
      → IsBlindOn blind ctx
      → (public : PublicKey) × (Blinding.blind_public_key_with_context hash_to_field c key blind ctx
          ≡ ok public)
  applies key blind ctx (k, (hashed, _)) = (
    key_at c (c.scalar_mult (point key) (int_bytes k)),
    blind_public_key-hashed hash_to_field c key blind ctx hashed,
  )

  pub commute :
      (key : PublicKey) (first second : PrivateKey) (ctx ctx' : Bytes)
      (once twice other : PublicKey)
      → IsPublicOn key
      → Blinding.blind_public_key_with_context hash_to_field c key first ctx ≡ ok once
      → Blinding.blind_public_key_with_context hash_to_field c once second ctx' ≡ ok twice
      → Blinding.blind_public_key_with_context hash_to_field c key second ctx' ≡ ok other
      → Blinding.blind_public_key_with_context hash_to_field c other first ctx ≡ ok twice
  commute key first second ctx ctx' once twice other (n, (at_n, _)) e1 e2 e3 =
      let (j, (hashed, at_j)) = blinded-multiple key once first ctx n at_n e1 in
      let (k, (hashed', _)) = blinded-multiple once twice second ctx' (n * j) at_j e2 in
      let both = blind-blind hash_to_field c group n first second ctx ctx' j k hashed hashed' in
      let then_second : Outcome PublicKey → Outcome PublicKey =
        λ p. p >>= λ q. Blinding.blind_public_key_with_context hash_to_field c q second ctx' in
      let then_first : Outcome PublicKey → Outcome PublicKey =
        λ p. p >>= λ q. Blinding.blind_public_key_with_context hash_to_field c q first ctx in
      sym (ap then_first e3)
      ∙ ap (λ p. then_first (Blinding.blind_public_key_with_context hash_to_field c p second ctx'))
          at_n
      ∙ sym both
      ∙ ap (λ p. then_second (Blinding.blind_public_key_with_context hash_to_field c p first ctx))
          (sym at_n)
      ∙ ap then_second e1
      ∙ e2

  pub unblinded :
      (key : PublicKey) (blind : PrivateKey) (ctx : Bytes) (public : PublicKey)
      → IsPublicOn key
      → IsBlindOn blind ctx
      → Blinding.blind_public_key_with_context hash_to_field c key blind ctx ≡ ok public
      → Blinding.unblind_public_key_with_context hash_to_field c public blind ctx ≡ ok key
  unblinded key blind ctx public (n, (at_n, _)) (k, (hashed, (positive, below))) blinds =
      let then_unblind : Outcome PublicKey → Outcome PublicKey =
        λ o. o >>= λ q. Blinding.unblind_public_key_with_context hash_to_field c q blind ctx in
      sym (ap then_unblind blinds)
      ∙ ap (λ p. then_unblind (Blinding.blind_public_key_with_context hash_to_field c p blind ctx))
          at_n
      ∙ unblind-blind hash_to_field c group n blind ctx k hashed positive below
      ∙ ap ok (sym at_n)
