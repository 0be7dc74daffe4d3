-- ===== src/Ed25519/Rejection.antt =====
-- Which inputs verifying answers on, and what it refuses.
use pat_go.Base.{
  ◌≡◌, ◌≢◌, ◌==◌, leb, ◌/◌, ◌+◌, ◌%◌, ◌<◌, ℕ, zero, suc, true, false, Bool, some, Bytes,
  bytes_equal, [], ◌∷◌, length, take, drop, get_elem?, Outcome-cases, ok, panic, ◌++◌, Bool-cases,
  inl, inr, arith, refl,
}
use pat_go.Ed25519.{Edwards25519, IsEdwards25519}
use pat_go.Ed25519.Signing.{plausible, verify_equation, verify}

get_elem?-below : (xs : Bytes) (i : ℕ) → i < length xs → (x : ℕ) × (get_elem? xs i ≡ some x)
get_elem?-below [] i below = absurd (omega (arith, below))
get_elem?-below (x ∷ xs) zero below = (x, refl)
get_elem?-below (x ∷ xs) (suc i) below = get_elem?-below xs i (omega (arith, below))

length-drop_half : (n : ℕ) (xs : Bytes) → length xs ≡ n + 32 → length (drop n xs) ≡ 32
length-drop_half zero xs sized = omega (arith, sized)
length-drop_half (suc n) [] sized = absurd (omega (arith, sized))
length-drop_half (suc n) (x ∷ xs) sized = length-drop_half n xs (omega (arith, sized))

-- Whether a signature is refused at once is decided on every byte string, and one that is not has 64
-- bytes, the last with its three highest bits zero.
plausible-answers :
    (sig : Bytes)
    → (good : Bool) × ((plausible sig ≡ ok good)
        × (good ≡ true
            → (length sig ≡ 64)
              × ((top : ℕ) × ((get_elem? sig 63 ≡ some top) × (top / 32 % 8 ≡ 0)))))
plausible-answers sig = elim (Bool-cases (length sig == 64)) [
  | inr differs ↦ (false, (rw (differs) refl, λ e. cc))
  | inl sized ↦
      let (top, there) = get_elem?-below sig 63 (ground arith) in
      (
        top / 32 % 8 == 0,
        (rw (sized, there) refl, λ e. (ground arith, (top, (there, ground (arith, e))))),
      )
]

module _ (e : Edwards25519) (laws : IsEdwards25519 e)
    (point_answers : (xs : Bytes) → length xs ≡ 32 → e.point xs ≢ panic)
    (scalar_answers : (xs : Bytes) → length xs ≡ 32 → e.set_canonical_bytes xs ≢ panic)
    (public_key message sig : Bytes) (key_sized : length public_key ≡ 32) where
  verify_equation-answers :
      length sig ≡ 64 → (b : Bool) × (verify_equation e public_key message sig ≡ ok b)
  unfolding verify_equation
  verify_equation-answers sized =
      let long : leb 32 (length sig) ≡ true = ground (arith, sized) in
      elim (Outcome-cases (e.point public_key)) [
        | inr (inr failed) ↦ absurd (point_answers public_key key_sized failed)
        | inr (inl (message', failed)) ↦ (false, rw (failed) refl)
        | inl (a, decoded) ↦
            let wide = e.sha512 (take 32 sig ++ public_key ++ message) in
            let (k, reduced) =
              laws.uniform_lem wide (laws.length-sha512 (take 32 sig ++ public_key ++ message)) in
            elim (Outcome-cases (e.set_canonical_bytes (drop 32 sig))) [
              | inr (inr failed) ↦
                  absurd (scalar_answers (drop 32 sig) (length-drop_half 32 sig sized) failed)
              | inr (inl (message', failed)) ↦ (false, rw (decoded, long, reduced, failed) refl)
              | inl (s, read) ↦ (
                bytes_equal (take 32 sig)
                    (e.point_bytes (e.double_scalar_base_mult k (e.negate a) s)),
                rw (decoded, long, reduced, read) refl,
              )
            ]
      ]

  -- Verifying answers, true or false and without a panic, on a public key of 32 bytes, every
  -- message and a signature of any length, and what it accepts has 64 bytes, of which the last has
  -- its three highest bits zero; given the laws of the group, and that reading a point and reading
  -- a scalar from 32 bytes do not panic.
  pub verify-answers :
      (b : Bool) × ((verify e public_key message sig ≡ ok b)
        × (b ≡ true
            → (length sig ≡ 64)
              × ((top : ℕ) × ((get_elem? sig 63 ≡ some top) × (top / 32 % 8 ≡ 0)))))
  unfolding verify
  verify-answers =
      let keyed : (length public_key == 32) ≡ true = ground (arith, key_sized) in
      let (good, (judged, shape)) = plausible-answers sig in
      elim (Bool-cases good) [
        | inl passes ↦
            let (b, equation) = verify_equation-answers (shape passes).0 in
            (b, (rw (keyed, judged, passes) equation, λ accepted. shape passes))
        | inr fails ↦ (false, (rw (keyed, judged, fails) refl, λ accepted. cc))
      ]
