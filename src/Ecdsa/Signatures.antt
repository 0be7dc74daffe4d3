-- ===== src/Ecdsa/Signatures.antt =====
-- Signing returns a signature as soon as the generator draws a nonce that serves, and verifying accepts
-- what it returns.
use pat_go.Base.{
  ◌≡◌, ◌==◌, ap₂, Bool-cases, ◌<◌, ◌≤◌, ℕ, zero, suc, true, some, Bytes, ok, Outcome-cases, inl,
  inr, arith, sym, ◌∙◌, refl,
}
use pat_go.Ecdsa.Big.{pos}
use pat_go.Ecdsa.Curve.{IsCurve, Reader}
use pat_go.Ecdsa.Keys.{PrivateKey, rand_field_element}
use pat_go.Ecdsa.Signing.{try_nonce, commitment, response, draw_nonces, sign_generic}
use pat_go.Ecdsa.Verifying.{verify}
use pat_go.Ecdsa.Inverses.{rand_field_element-bounds}
use pat_go.Ecdsa.Nonces.{IsKeyPair, Serves, verify-serving}

-- The `n`-th draw from a generator is the first that must be looked at: it serves.
pub data Draws (csprng : Reader) (key : PrivateKey) (hash : Bytes)
    : csprng.Source → ℕ → Type 0 where
  serves :
      (source rest : csprng.Source) (k : ℕ)
      → rand_field_element csprng key.public.curve source ≡ ok (k, rest)
      → Serves key hash k
      → Draws csprng key hash source 1
  retry :
      (source rest : csprng.Source) (k n : ℕ)
      → rand_field_element csprng key.public.curve source ≡ ok (k, rest)
      → Draws csprng key hash rest n
      → Draws csprng key hash source (suc n)

module _ (csprng : Reader) (key : PrivateKey) (hash : Bytes) where
  pub draw_once :
      (fuel k : ℕ) (source rest : csprng.Source)
      → rand_field_element csprng key.public.curve source ≡ ok (k, rest)
      → draw_nonces csprng (suc fuel) key source key.public.curve hash
        ≡ try_nonce key key.public.curve hash k
            (draw_nonces csprng fuel key rest key.public.curve hash)
  unfolding draw_nonces
  draw_once fuel k source rest drawn = rw (drawn, draw_nonces) refl

  -- A signature comes from a nonce in range that serves.
  abbrev SignedWith : ℕ → ℕ → ℕ → Type 0
  SignedWith r s k =
      (0 < k)
      × ((k < key.public.curve.order)
          × (Serves key hash k
              × ((commitment key key.public.curve k ≡ r)
                  × (response key key.public.curve hash k ≡ s))))

  draw_nonces-inv :
      (fuel : ℕ) (source : csprng.Source) (r s : ℕ)
      → 1 < key.public.curve.order
      → draw_nonces csprng fuel key source key.public.curve hash ≡ some (ok (r, s))
      → (k : ℕ) × SignedWith r s k
  unfolding draw_nonces
  draw_nonces-inv zero source r s large h = cc
  draw_nonces-inv (suc fuel) source r s large h =
      elim (Outcome-cases (rand_field_element csprng key.public.curve source)) [
        | inl ((k, rest), drawn) ↦
            let again = draw_nonces-inv fuel rest r s large in
            let range = rand_field_element-bounds csprng key.public.curve source large drawn in
            let tried = sym (draw_once fuel k source rest drawn) ∙ h in
            elim (Bool-cases (commitment key key.public.curve k == 0)) [
              | inl e ↦ again (ground (arith, tried))
              | inr e ↦ elim (Bool-cases (response key key.public.curve hash k == 0)) [
                | inl e' ↦ again (ground (arith, tried))
                | inr e' ↦ (
                  k,
                  (
                    range.0,
                    (
                      range.1,
                      (
                        (ground arith, ground arith),
                        (ground (arith, tried), ground (arith, tried)),
                      ),
                    ),
                  ),
                )
              ]
            ]
        | inr (inl (e, failed)) ↦ ground arith
        | inr (inr failed) ↦ ground arith
      ]

  Draws-draw_nonces :
      (fuel n : ℕ) (source : csprng.Source)
      → Draws csprng key hash source n
      → n ≤ fuel
      → (r : ℕ) × ((s : ℕ) × (draw_nonces csprng fuel key source key.public.curve hash
            ≡ some (ok (r, s))))
  Draws-draw_nonces zero n _ (serves source rest k drawn good) h = absurd (omega arith)
  Draws-draw_nonces zero n _ (retry source rest k m drawn later) h = absurd (omega arith)
  Draws-draw_nonces (suc fuel) n _ (serves source rest k drawn good) h = (
    commitment key key.public.curve k,
    (
      response key key.public.curve hash k,
      draw_once fuel k source rest drawn ∙ ground (arith, good),
    ),
  )
  Draws-draw_nonces (suc fuel) n _ (retry source rest k m drawn later) h =
      let (r, (s, returned)) = Draws-draw_nonces fuel m rest later (omega arith) in
      elim (Bool-cases (commitment key key.public.curve k == 0)) [
        | inl e ↦ (r, (s, draw_once fuel k source rest drawn ∙ ground (arith, returned)))
        | inr e ↦ elim (Bool-cases (response key key.public.curve hash k == 0)) [
          | inl e' ↦ (r, (s, draw_once fuel k source rest drawn ∙ ground (arith, returned)))
          | inr e' ↦ (
            commitment key key.public.curve k,
            (
              response key key.public.curve hash k,
              draw_once fuel k source rest drawn ∙ ground arith,
            ),
          )
        ]
      ]

  sign_generic-drawn :
      (fuel : ℕ) (source : csprng.Source)
      → 1 < key.public.curve.order
      → sign_generic csprng fuel key source key.public.curve hash
        ≡ draw_nonces csprng fuel key source key.public.curve hash
  unfolding sign_generic
  sign_generic-drawn fuel source large = ground arith

  -- Signing: what it returns for a key pair is a signature that verifying accepts, under the public
  -- key and for the digest, on a curve that is a group of prime order.
  pub verify-sign_generic :
      (fuel : ℕ) (source : csprng.Source) (r s : ℕ)
      → IsCurve key.public.curve
      → IsKeyPair key
      → sign_generic csprng fuel key source key.public.curve hash ≡ some (ok (r, s))
      → verify key.public hash (pos r) (pos s) ≡ ok true
  verify-sign_generic fuel source r s group pair returned =
      let (k, (positive, (below, (good, (r_is, s_is))))) =
        draw_nonces-inv fuel source r s group.order_large
          (sym (sign_generic-drawn fuel source group.order_large) ∙ returned) in
      ap₂ (λ a b. verify key.public hash (pos a) (pos b)) (sym r_is) (sym s_is)
      ∙ verify-serving key group pair hash k positive below good

  -- The loops of signing end: when the generator's draws come to a nonce that serves, fuel for as many
  -- draws is enough, and what is returned is a signature that verifying accepts.
  pub sign_generic-returns :
      (fuel n : ℕ) (source : csprng.Source)
      → IsCurve key.public.curve
      → IsKeyPair key
      → Draws csprng key hash source n
      → n ≤ fuel
      → (r : ℕ) × ((s : ℕ) × ((sign_generic csprng fuel key source key.public.curve hash
              ≡ some (ok (r, s)))
            × (verify key.public hash (pos r) (pos s) ≡ ok true)))
  sign_generic-returns fuel n source group pair draws enough =
      let (r, (s, drawn)) = Draws-draw_nonces fuel n source draws enough in
      let returned = sign_generic-drawn fuel source group.order_large ∙ drawn in
      (r, (s, (returned, verify-sign_generic fuel source r s group pair returned)))
