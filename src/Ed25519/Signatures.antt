-- ===== src/Ed25519/Signatures.antt =====
-- What signing returns is accepted by verifying.
use pat_go.Base.{
  ◌≡◌, ◌==◌, leb, ◌+◌, ◌*◌, ◌/◌, ◌%◌, ◌<◌, ℕ, zero, suc, true, some, [], ◌∷◌, ◌++◌, List, Bytes,
  bytes_equal_refl, length, get_elem?, length-append, ok, arith, ap, sym, ◌∙◌, refl,
}
use native.Mathlib.Nat.{mod-mod, add_comm}
use pat_go.Base.Chunks.{fit_whole, take-length, drop-length}
use pat_go.Ed25519.{Edwards25519, IsEdwards25519}
use pat_go.Ed25519.Signing.{sign_internal, verify_equation, plausible, verify}

get_elem?-append :
    {A : Type 0} (n : ℕ) (xs ys : List A) (i : ℕ)
    → length xs ≡ n
    → get_elem? (xs ++ ys) (n + i) ≡ get_elem? ys i
get_elem?-append zero [] ys i h = ap (get_elem? ys) (omega arith)
get_elem?-append zero (x ∷ xs) ys i h = absurd (omega arith)
get_elem?-append (suc n) [] ys i h = absurd (omega arith)
get_elem?-append (suc n) (x ∷ xs) ys i h =
    let one_more : suc n + i ≡ suc (n + i) = omega arith in
    ap (get_elem? (x ∷ xs ++ ys)) one_more ∙ get_elem?-append n xs ys i (omega arith)

plausible-low :
    (sig : Bytes) (b : ℕ)
    → length sig ≡ 64
    → get_elem? sig 63 ≡ some b
    → b < 32
    → plausible sig ≡ ok true
plausible-low sig b sized there low =
    let none_set : (b / 32 % 8 == 0) ≡ true = ground arith in rw (sized, there, none_set) refl

module _ (e : Edwards25519) (laws : IsEdwards25519 e) where
  plausible-scalar :
      (commitment : Bytes) (s : e.Scalar)
      → length commitment ≡ 32
      → plausible (commitment ++ e.scalar_bytes s) ≡ ok true
  plausible-scalar commitment s h =
      let (b, (there, low)) = laws.scalar_bytes-top s in
      plausible-low (commitment ++ e.scalar_bytes s) b
        (omega (arith, h, length-append commitment (e.scalar_bytes s), laws.length-scalar_bytes s))
        (get_elem?-append 32 commitment (e.scalar_bytes s) 31 h ∙ there) low

  module _ (public_key message prefix : Bytes) (s : e.Scalar) (a : e.Point) where
    sign_internal-made :
        (r k : e.Scalar)
        → e.set_uniform_bytes (e.sha512 (prefix ++ message)) ≡ ok r
        → e.set_uniform_bytes
            (e.sha512 (e.point_bytes (e.scalar_base_mult r) ++ public_key ++ message))
          ≡ ok k
        → sign_internal e public_key message prefix s
          ≡ ok (e.point_bytes (e.scalar_base_mult r) ++ e.scalar_bytes (e.multiply_add k s r))
    unfolding sign_internal
    sign_internal-made r k drawn challenged =
        rw
          (
            drawn,
            challenged,
            fit_whole 32 (e.point_bytes (e.scalar_base_mult r))
                (laws.length-point_bytes (e.scalar_base_mult r)),
            fit_whole 32 (e.scalar_bytes (e.multiply_add k s r))
                (laws.length-scalar_bytes (e.multiply_add k s r)),
          )
          refl

    same_commitment :
        (r k : e.Scalar) (q : e.Point)
        → laws.Represents q (laws.value s)
        → e.point_bytes (e.double_scalar_base_mult k (e.negate q) (e.multiply_add k s r))
          ≡ e.point_bytes (e.scalar_base_mult r)
    same_commitment r k q represents =
        let n = laws.order in
        let balanced : (laws.value r + laws.value k * laws.value s) % n
            ≡ laws.value (e.multiply_add k s r) % n =
          ap (λ t. t % n) (add_comm (laws.value r) (laws.value k * laws.value s))
          ∙ sym (mod-mod (laws.value k * laws.value s + laws.value r) n)
          ∙ ap (λ t. t % n) (sym (laws.value-multiply_add k s r)) in
        laws.same_bytes _ _ (laws.value r)
          (laws.difference_lem k (e.multiply_add k s r) q (laws.value s) (laws.value r) represents
            balanced)
          (laws.base_lem r)

    verify_equation-holds :
        (r k : e.Scalar) (q : e.Point)
        → e.point public_key ≡ ok q
        → laws.Represents q (laws.value s)
        → e.set_uniform_bytes
            (e.sha512 (e.point_bytes (e.scalar_base_mult r) ++ public_key ++ message))
          ≡ ok k
        → verify_equation e public_key message
            (e.point_bytes (e.scalar_base_mult r) ++ e.scalar_bytes (e.multiply_add k s r))
          ≡ ok true
    unfolding verify_equation
    verify_equation-holds r k q decoded represents challenged =
        let commitment = e.point_bytes (e.scalar_base_mult r) in
        let answer = e.multiply_add k s r in
        let long : leb 32 (length (commitment ++ e.scalar_bytes answer)) ≡ true = ground (
          arith,
          length-append commitment (e.scalar_bytes answer),
          laws.length-point_bytes (e.scalar_base_mult r),
        ) in
        rw
          (
            decoded,
            long,
            take-length 32 commitment (e.scalar_bytes answer)
                (laws.length-point_bytes (e.scalar_base_mult r)),
            drop-length 32 commitment (e.scalar_bytes answer)
                (laws.length-point_bytes (e.scalar_base_mult r)),
            challenged,
            laws.canonical_lem answer,
            same_commitment r k q represents,
            bytes_equal_refl commitment,
          )
          refl

    verify-plausible :
        (sig : Bytes)
        → length public_key ≡ 32
        → plausible sig ≡ ok true
        → verify e public_key message sig ≡ verify_equation e public_key message sig
    unfolding verify
    verify-plausible sig sized good = rw (sized, good) refl

    -- A signature made with a scalar is accepted under the bytes of the point that it stands for.
    pub verify-sign_internal :
        public_key ≡ e.point_bytes a
        → laws.Represents a (laws.value s)
        → (sig : Bytes) × ((sign_internal e public_key message prefix s ≡ ok sig)
            × (verify e public_key message sig ≡ ok true))
    verify-sign_internal is_key represents =
        let (r, drawn) = laws.uniform_lem (e.sha512 (prefix ++ message)) (laws.length-sha512 _) in
        let commitment = e.point_bytes (e.scalar_base_mult r) in
        let (k, challenged) =
          laws.uniform_lem (e.sha512 (commitment ++ public_key ++ message))
            (laws.length-sha512 _) in
        let (q, (decoded, represents')) = laws.point_lem a (laws.value s) represents in
        (
          commitment ++ e.scalar_bytes (e.multiply_add k s r),
          (
            sign_internal-made r k drawn challenged,
            verify-plausible (commitment ++ e.scalar_bytes (e.multiply_add k s r))
                  (ap length is_key ∙ laws.length-point_bytes a)
                  (plausible-scalar commitment (e.multiply_add k s r)
                    (laws.length-point_bytes (e.scalar_base_mult r)))
                ∙ verify_equation-holds r k q (ap e.point is_key ∙ decoded) represents' challenged,
          ),
        )
