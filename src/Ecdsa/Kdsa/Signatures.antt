-- ===== src/Ecdsa/Kdsa/Signatures.antt =====
-- The implementation for s390x signs as the generic one does.
use pat_go.Base.{
  ◌≡◌, ◌==◌, ◌<◌, ◌+◌, ℕ, zero, suc, Bool, true, false, if◌then◌else◌, none, some, Bool-cases, err,
  ==→eq, Bytes, IsBytes, replicate, length-replicate, Outcome, Outcome-cases, Option, Option-cases,
  ok, inl, inr, arith, ap, sym, subst, refl, ◌∙◌,
}
use native.Mathlib.Nat.{lt_of_lt_of_le}
use pat_go.Ecdsa.{digits}
use pat_go.Ecdsa.Big.{fill_bytes-fits, big_endian-digits, length-digits}
use pat_go.Ecdsa.Curve.{Curve, Reader}
use pat_go.Ecdsa.Keys.{PrivateKey, rand_field_element}
use pat_go.Ecdsa.Inverses.{rand_field_element-bounds}
use pat_go.Ecdsa.Signing.{
  Signature, on_ok, hash_to_int, commitment, response, try_nonce, draw_nonces, sign_generic,
}
use pat_go.Ecdsa.Kdsa.{
  Instruction, can_use_kdsa, block, part, on_code, sign_params, sign_kdsa, sign_s390x,
}
use pat_go.Ecdsa.Kdsa.Blocks.{block-parts, commit_number, respond_number, IsKdsa}
use pat_go.Ecdsa.Kdsa.Verification.{Fits, digest_fits, digest_written}

module _ (kdsa : Instruction) (size : ℕ) where
  -- A condition code of 2 where a half is zero, and of 0 elsewhere, has the outcome of an attempt.
  on_code-attempt :
      (o : ℕ × Bytes) (again : Option (Outcome Signature)) (no_r no_s : Bool) (r s : ℕ)
      → o.0 ≡ (if no_r then 2 else if no_s then 2 else 0)
      → (o.0 ≡ 0 → (part size 0 o.1 ≡ r) × (part size 1 o.1 ≡ s))
      → on_code kdsa size o again
        ≡ (if no_r then again else if no_s then again else some (ok (r, s)))
  on_code-attempt (code, params) again true no_s r s e halves = rw (e) refl
  on_code-attempt (code, params) again false true r s e halves = rw (e) refl
  on_code-attempt (code, params) again false false r s e halves =
      let (r_is, s_is) = halves e in rw (e, r_is, s_is) refl

  on_code-refused :
      (o : ℕ × Bytes) (again : Option (Outcome Signature))
      → o.0 ≡ 1
      → on_code kdsa size o again ≡ some (err "zero parameter")
  on_code-refused (code, params) again e = rw (e) refl

-- A nonce is drawn, and the key of zero is refused without another draw.
abbrev pub refuse_zero : (csprng : Reader) → ℕ → Curve → csprng.Source → Option (Outcome Signature)
refuse_zero csprng zero c source = none
refuse_zero csprng (suc fuel) c source =
    on_ok (rand_field_element csprng c source) λ drawn. some (err "zero parameter")

module _ (key : PrivateKey) (size : ℕ) (fits : Fits key.public.curve size) (hash : Bytes)
    (bytes : IsBytes hash) (kdsa : Instruction) (function_code : ℕ)
    (laws : IsKdsa kdsa key.public.curve function_code size) (large : 1 < key.public.curve.order)
    (key_below : key.d < key.public.curve.order) where
  abbrev sign_block : ℕ → Bytes
  sign_block k =
      block size (replicate size 0) (replicate size 0)
        (digits size (hash_to_int hash key.public.curve)) (digits size key.d) (digits size k)

  sign_params-block :
      (k : ℕ)
      → k < key.public.curve.order
      → sign_params kdsa size key key.public.curve hash k ≡ ok (sign_block k)
  sign_params-block k below = simp (
    digest_written key.public.curve size fits hash bytes,
    fill_bytes-fits size key.d (lt_of_lt_of_le key_below fits.order_fits),
    fill_bytes-fits size k (lt_of_lt_of_le below fits.order_fits),
  )

  sign_block-numbers :
      (k : ℕ)
      → k < key.public.curve.order
      → (part size 2 (sign_block k) ≡ hash_to_int hash key.public.curve)
        × (part size 3 (sign_block k) ≡ key.d)
        × (part size 4 (sign_block k) ≡ k)
  sign_block-numbers k below =
      let e = hash_to_int hash key.public.curve in
      let (_, _, e2, e3, e4) =
        block-parts size (replicate size 0) (replicate size 0) (digits size e) (digits size key.d)
          (digits size k) (length-replicate size 0) (length-replicate size 0) (length-digits size e)
          (length-digits size key.d) (length-digits size k) in
      (
        e2 ∙ big_endian-digits size e (digest_fits key.public.curve size fits hash bytes),
        e3 ∙ big_endian-digits size key.d (lt_of_lt_of_le key_below fits.order_fits),
        e4 ∙ big_endian-digits size k (lt_of_lt_of_le below fits.order_fits),
      )

  -- One execution of the instruction is one attempt with a nonce.
  on_code-try_nonce :
      (k : ℕ) (again : Option (Outcome Signature))
      → 0 < key.d
      → 0 < k
      → k < key.public.curve.order
      → on_code kdsa size (kdsa (function_code + 136) (sign_block k)) again
        ≡ try_nonce key key.public.curve hash k again
  on_code-try_nonce k again key_positive positive below =
      let c = key.public.curve in
      let (f2, f3, f4) = sign_block-numbers k below in
      let params = sign_block k in
      let key_positive' : 0 < part size 3 params = subst (λ t. 0 < t) (sym f3) key_positive in
      let key_below' : part size 3 params < c.order = subst (λ t. t < c.order) (sym f3) key_below in
      let positive' : 0 < part size 4 params = subst (λ t. 0 < t) (sym f4) positive in
      let below' : part size 4 params < c.order = subst (λ t. t < c.order) (sym f4) below in
      let code_is = laws.signs_code params key_positive' key_below' positive' below' in
      let halves = laws.signs params key_positive' key_below' positive' below' in
      on_code-attempt kdsa size (kdsa (function_code + 136) params) again (commitment key c k == 0)
        (response key c hash k == 0) (commitment key c k) (response key c hash k)
        (code_is ∙ (λ i.
          if commit_number c (f4 i) == 0
          then 2
          else if respond_number c (f3 i) (f2 i) (f4 i) == 0
          then 2
          else 0))
        (λ done.
          let (r_is, s_is) = halves done in
          (r_is ∙ ap (commit_number c) f4, s_is ∙ (λ i. respond_number c (f3 i) (f2 i) (f4 i))))

  sign_kdsa-draw_nonces :
      0 < key.d
      → (csprng : Reader) (fuel : ℕ) (source : csprng.Source)
      → sign_kdsa kdsa csprng function_code size fuel key source key.public.curve hash
        ≡ draw_nonces csprng fuel key source key.public.curve hash
  unfolding sign_kdsa draw_nonces
  sign_kdsa-draw_nonces key_positive csprng zero source = refl
  sign_kdsa-draw_nonces key_positive csprng (suc fuel) source =
      elim (Outcome-cases (rand_field_element csprng key.public.curve source)) [
        | inl ((k, rest), drawn) ↦
            let (positive, below) =
              rand_field_element-bounds csprng key.public.curve source large drawn in
            let again = sign_kdsa-draw_nonces key_positive csprng fuel rest in
            rw (drawn, sign_params-block k below, again, sign_kdsa, draw_nonces)
              (on_code-try_nonce k (draw_nonces csprng fuel key rest key.public.curve hash)
                key_positive positive below)
        | inr (inl (e, failed)) ↦ rw (failed, sign_kdsa, draw_nonces) refl
        | inr (inr failed) ↦ rw (failed, sign_kdsa, draw_nonces) refl
      ]

  sign_kdsa-refuse_zero :
      key.d ≡ 0
      → (csprng : Reader) (fuel : ℕ) (source : csprng.Source)
      → sign_kdsa kdsa csprng function_code size fuel key source key.public.curve hash
        ≡ refuse_zero csprng fuel key.public.curve source
  unfolding sign_kdsa
  sign_kdsa-refuse_zero key_zero csprng zero source = refl
  sign_kdsa-refuse_zero key_zero csprng (suc fuel) source =
      elim (Outcome-cases (rand_field_element csprng key.public.curve source)) [
        | inl ((k, rest), drawn) ↦
            let (positive, below) =
              rand_field_element-bounds csprng key.public.curve source large drawn in
            let (f2, f3, f4) = sign_block-numbers k below in
            rw (drawn, sign_params-block k below, sign_kdsa)
              (on_code-refused kdsa size (kdsa (function_code + 136) (sign_block k)) _
                (laws.signs_zero (sign_block k) (f3 ∙ key_zero)))
        | inr (inl (e, failed)) ↦ rw (failed, sign_kdsa) refl
        | inr (inr failed) ↦ rw (failed, sign_kdsa) refl
      ]

-- The implementation for s390x signs as the generic one does, but for a key of zero: for every
-- digest, generator and fuel the results are the same, signature, error or panic, on a curve whose
-- order is above one and exceeds the number of the key; only where the instruction is used and the
-- number of the key is zero does it refuse with an error after one draw; given that the
-- instruction, where it is used, does for the numbers of its block what it is documented to do, and
-- that the order fits a part of the block.
pub sign_s390x-sign_generic :
    (kdsa : Instruction) (disabled has_ecdsa : Bool) (key : PrivateKey) (hash : Bytes)
    (csprng : Reader) (fuel : ℕ) (source : csprng.Source)
    → IsBytes hash
    → 1 < key.public.curve.order
    → key.d < key.public.curve.order
    → ((function_code size : ℕ)
        → can_use_kdsa disabled has_ecdsa key.public.curve ≡ some (function_code, size)
        → Fits key.public.curve size × IsKdsa kdsa key.public.curve function_code size)
    → let generic = sign_generic csprng fuel key source key.public.curve hash in
      sign_s390x kdsa csprng disabled has_ecdsa fuel key source key.public.curve hash
      ≡ elim (can_use_kdsa disabled has_ecdsa key.public.curve) [
        | none ↦ generic
        | some used ↦
            if key.d == 0 then refuse_zero csprng fuel key.public.curve source else generic
      ]
unfolding sign_s390x sign_generic
sign_s390x-sign_generic kdsa disabled has_ecdsa key hash csprng fuel source bytes large key_below
      works =
    elim (Option-cases (can_use_kdsa disabled has_ecdsa key.public.curve)) [
      | inl missing ↦ rw (missing, sign_s390x) refl
      | inr ((function_code, size), usable) ↦
          let (fits, laws) = works function_code size usable in
          let nonzero : (key.public.curve.order == 0) ≡ false = ground arith in
          elim (Bool-cases (key.d == 0)) [
            | inl key_zero ↦
                rw (usable, key_zero, sign_s390x)
                  (sign_kdsa-refuse_zero key size fits hash bytes kdsa function_code laws large
                    key_below (==→eq key.d 0 key_zero) csprng fuel source)
            | inr key_nonzero ↦
                rw (usable, key_nonzero, nonzero, sign_s390x, sign_generic)
                  (sign_kdsa-draw_nonces key size fits hash bytes kdsa function_code laws large
                    key_below (ground (arith, key_nonzero)) csprng fuel source)
          ]
    ]
