-- ===== src/Ed25519/Scalars.antt =====
-- What this repository adds to ed25519/internal/edwards25519/scalar.go: scalars from bytes as they are,
-- and inverses by way of math/big. A scalar is its 32 bytes, the lowest first; the reduction of 64 bytes
-- modulo the order is a parameter.
use pat_go.Base.{
  ◌≡◌, ◌≢◌, ◌==◌, ◌<◌, ◌+◌, ◌*◌, ◌%◌, ◌^◌, ℕ, zero, suc, Option-cases, some, if◌then◌else◌, [], ◌∷◌,
  ◌++◌, Bytes, length, length-append, append-nil, append_assoc, replicate, Outcome, ok, panic,
  ◌>>=◌, or_panic, inl, inr, arith, ap, sym, subst, refl, ◌∙◌,
}
use native.Mathlib.Nat.{lt_trans}
use pat_go.Base.Modular.{mul-mod_left}
use pat_go.Ecdsa.{big_endian, digits, fill_bytes}
use pat_go.Ecdsa.Big

unfoldable pub to_le : Bytes → Bytes
to_le [] = []
to_le (x ∷ xs) = to_le xs ++ x ∷ []

-- The number of a byte string, the lowest byte first.
abbrev pub value : Bytes → ℕ
value xs = big_endian 0 (to_le xs)

-- `scMinusOne`
abbrev pub minus_one : Bytes
minus_one =
    236
      ∷ 211
      ∷ 245
      ∷ 92
      ∷ 26
      ∷ 99
      ∷ 18
      ∷ 88
      ∷ 214
      ∷ 156
      ∷ 247
      ∷ 162
      ∷ 222
      ∷ 249
      ∷ 222
      ∷ 20
      ∷ replicate 15 0
    ++ 16 ∷ []

-- It stays shut in proofs: it is a large number.
unfoldable pub order : ℕ
unfolding to_le
order = value minus_one + 1

unfoldable pub mod_inverse : Bytes → Outcome Bytes
mod_inverse s = do
  z ← or_panic (Big.mod_inverse (value s) order)
  z_enc ← fill_bytes (length s) z
  ok (to_le z_enc)

module _ (reduce : Bytes → Bytes) where
  unfoldable pub set_bytes : Bytes → Outcome Bytes
  set_bytes xs = if length xs == 32 then ok (reduce (xs ++ replicate 32 0)) else panic

order_is : order ≡ 2 ^ 252 + 27742317777372353535851937790883648493
unfolding order
order_is = refl

pub order_positive : 0 < order
order_positive = rw order_is (omega arith)

pub order_fits : order < 256 ^ 32
order_fits = rw order_is (omega arith)

to_le-append : (xs ys : Bytes) → to_le (xs ++ ys) ≡ to_le ys ++ to_le xs
unfolding to_le
to_le-append [] ys = sym (append-nil (to_le ys))
to_le-append (x ∷ xs) ys =
    ap (λ l. l ++ x ∷ []) (to_le-append xs ys) ∙ append_assoc (to_le ys) (to_le xs) (x ∷ [])

pub to_le-to_le : (xs : Bytes) → to_le (to_le xs) ≡ xs
unfolding to_le
to_le-to_le [] = refl
to_le-to_le (x ∷ xs) = to_le-append (to_le xs) (x ∷ []) ∙ ap (λ l. x ∷ l) (to_le-to_le xs)

pub length-to_le : (xs : Bytes) → length (to_le xs) ≡ length xs
unfolding to_le
length-to_le [] = refl
length-to_le (x ∷ xs) = omega (arith, length-append (to_le xs) (x ∷ []), length-to_le xs)

module _ (s : Bytes) (sized : length s ≡ 32) where
  mod_inverse-found :
      (z : ℕ)
      → Big.mod_inverse (value s) order ≡ some z
      → (t : Bytes) × (mod_inverse s ≡ ok t)
        × (length t ≡ 32)
        × (value t < order)
        × (value s * value t % order ≡ 1)
  unfolding mod_inverse
  mod_inverse-found z found =
      let (inverse, below) = Big.mod_inverse-inv (value s) order found in
      let written = Big.fill_bytes-fits 32 z (lt_trans below order_fits) in
      let (long, reads) = Big.fill_bytes-reads 32 z written in
      let value_is : value (to_le (digits 32 z)) ≡ z =
        ap (big_endian 0) (to_le-to_le (digits 32 z)) ∙ reads in
      (
        to_le (digits 32 z),
        rw (found, sized, written) refl,
        length-to_le (digits 32 z) ∙ long,
        subst (λ t. t < order) (sym value_is) below,
        ap (λ t. value s * t % order) value_is ∙ inverse,
      )

  -- A scalar that has an inverse modulo the order is inverted.
  pub mod_inverse-inverse :
      (v : ℕ)
      → value s * v % order ≡ 1
      → (t : Bytes) × (mod_inverse s ≡ ok t)
        × (length t ≡ 32)
        × (value t < order)
        × (value s * value t % order ≡ 1)
  mod_inverse-inverse v inverts =
      let (z, (found, _)) = Big.mod_inverse-found (value s) order v order_positive inverts in
      mod_inverse-found z found

-- A scalar that has none makes the function panic.
pub mod_inverse-panic : (s : Bytes) → ((v : ℕ) → value s * v % order ≢ 1) → mod_inverse s ≡ panic
unfolding mod_inverse
mod_inverse-panic s never = elim (Option-cases (Big.mod_inverse (value s) order)) [
  | inl missing ↦ rw (missing) refl
  | inr (z, found) ↦ absurd (never z (Big.mod_inverse-inv (value s) order found).0)
]

to_le-zeros : (n : ℕ) → big_endian 0 (to_le (replicate n 0)) ≡ 0
unfolding to_le
to_le-zeros zero = refl
to_le-zeros (suc n) =
    Big.big_endian-append 0 0 (to_le (replicate n 0)) ∙ omega (arith, to_le-zeros n)

big_endian-onto :
    (acc : ℕ) (xs ys : Bytes) → big_endian acc (xs ++ ys) ≡ big_endian (big_endian acc xs) ys
big_endian-onto acc [] ys = refl
big_endian-onto acc (x ∷ xs) ys = big_endian-onto (acc * 256 + x) xs ys

-- High zeroes do not count.
value-zeros : (xs : Bytes) (n : ℕ) → value (xs ++ replicate n 0) ≡ value xs
value-zeros xs n =
    ap (big_endian 0) (to_le-append xs (replicate n 0))
    ∙ big_endian-onto 0 (to_le (replicate n 0)) (to_le xs)
    ∙ ap (λ acc. big_endian acc (to_le xs)) (to_le-zeros n)

-- The documented behaviour of `scReduce`: 64 bytes are reduced modulo the order to 32.
pub record Reduces (reduce : Bytes → Bytes) : Type 0 where
  pub reduce_length : (wide : Bytes) → length wide ≡ 64 → length (reduce wide) ≡ 32
  pub reduce_value : (wide : Bytes) → length wide ≡ 64 → value (reduce wide) ≡ value wide % order

module _ (reduce : Bytes → Bytes) (laws : Reduces reduce) (xs : Bytes)
    (sized : length xs ≡ 32) where
  abbrev wide : Bytes
  wide = xs ++ replicate 32 0

  wide_sized : length wide ≡ 64
  wide_sized = omega (arith, length-append xs (replicate 32 0), sized)

  set_bytes-reduced : set_bytes reduce xs ≡ ok (reduce wide)
  unfolding set_bytes
  set_bytes-reduced = rw (sized) refl

  value-reduced : value (reduce wide) ≡ value xs % order
  value-reduced = laws.reduce_value wide wide_sized ∙ ap (λ v. v % order) (value-zeros xs 32)

  -- The scalar that unblinding takes: for 32 bytes whose number has an inverse modulo the order,
  -- SetBytes and ModInverse return 32 bytes, whose number is below the order and is an inverse of
  -- theirs, given that the reduction of 64 bytes reduces them modulo the order to 32.
  pub set_bytes-mod_inverse :
      (v : ℕ)
      → value xs * v % order ≡ 1
      → (t : Bytes) × ((set_bytes reduce xs >>= λ s. mod_inverse s) ≡ ok t)
        × (length t ≡ 32)
        × (value t < order)
        × (value xs * value t % order ≡ 1)
  set_bytes-mod_inverse v inverts =
      let reduced =
        λ (w : ℕ). ap (λ u. u * w % order) value-reduced ∙ mul-mod_left order (value xs) w in
      let (t, inverted, long, below, inverse) =
        mod_inverse-inverse (reduce wide) (laws.reduce_length wide wide_sized) v
          (reduced v ∙ inverts) in
      (
        t,
        ap (λ o. o >>= λ s. mod_inverse s) set_bytes-reduced ∙ inverted,
        long,
        below,
        sym (reduced (value t)) ∙ inverse,
      )
