-- ===== src/Ecdsa/Big.antt =====
-- What the package ecdsa uses of math/big: numbers and their bytes, and inverses modulo a number.
use pat_go.Base.{
  ◌≡◌, true, false, zero, suc, ◌/◌, ◌%◌, ◌^◌, ◌≤◌, ◌<◌, ◌==◌, lt→ltb, ltb, ltb→lt, ==→eq,
  Bool-cases, Option-cases, if◌then◌else◌, ℕ, ◌+◌, ◌*◌, Option, none, some, [], ◌∷◌, ◌++◌, Bytes,
  length, length-append, Outcome, ok, panic, arith, inl, inr, ap, ◌∙◌, sym, refl, subst,
}
use mathlib.Core.Option.{some-injective}
use native.Mathlib.Nat.{mod-lt, pow-succ', pow-le-pow_right, zero-lt-suc, le_refl, lt_of_lt_of_le}
use pat_go.Base.Modular.{mul-mod_right}
use pat_go.Ecdsa.{big_endian, digits, fill_bytes}

-- The numbers that `ReadASN1Integer` yields may be negative.
pub data ℤ : Type 0 where
  pos : ℕ → ℤ
  -- `negsuc n` is `-1 - n`.
  negsuc : ℕ → ℤ

-- `BitLen`, on fuel; the number itself is enough.
abbrev pub bits : ℕ → ℕ → ℕ
bits zero v = 0
bits (suc fuel) v = elim (v == 0) [ true ↦ 0 | false ↦ suc (bits fuel (v / 2)) ]

abbrev pub bit_len : ℕ → ℕ
bit_len v = bits v v

-- `(BitLen() + 7) >> 3`
abbrev pub byte_len : ℕ → ℕ
byte_len v = (bit_len v + 7) / 8

-- `Bytes`
abbrev pub int_bytes : ℕ → Bytes
int_bytes v = digits (byte_len v) v

-- `Mod`, which panics at a modulus of zero.
abbrev pub modulo : ℕ → ℕ → Outcome ℕ
modulo a zero = panic
modulo a (suc n) = ok (a % suc n)

-- `ModInverse` modulo a number above one: the least inverse, or nil.
abbrev pub inverse_below : ℕ → ℕ → ℕ → Option ℕ
inverse_below zero s n = none
inverse_below (suc w) s n = elim (inverse_below w s n) [
  | none ↦ if s * w % n == 1 then some w else none
  | some v ↦ some v
]

abbrev pub mod_inverse : ℕ → ℕ → Option ℕ
mod_inverse s n = inverse_below n s n

below_bits : (fuel v : ℕ) → v ≤ fuel → v < 2 ^ bits fuel v
below_bits zero v h = omega arith
below_bits (suc fuel) v h = elim (Bool-cases (v == 0)) [
  | inl e ↦ ground arith
  | inr e ↦
      let halved : v / 2 < 2 ^ bits fuel (v / 2) = below_bits fuel (v / 2) (ground arith) in
      ground (arith, pow-succ' 2 (bits fuel (v / 2)), halved)
]

eight_more : (m : ℕ) → 2 ^ (8 + m) ≡ 256 * 2 ^ m
eight_more m =
    let counted : 8 + m ≡ suc (suc (suc (suc (suc (suc (suc (suc m))))))) = omega arith in
    ap (λ k. 2 ^ k) counted ∙ omega arith

pub pow_octets : (n : ℕ) → 2 ^ (8 * n) ≡ 256 ^ n
pow_octets zero = refl
pow_octets (suc n) =
    let shifted : 8 * suc n ≡ 8 + 8 * n = omega arith in
    ap (λ k. 2 ^ k) shifted
    ∙ eight_more (8 * n)
    ∙ ap (λ t. 256 * t) (pow_octets n)
    ∙ sym (pow-succ' 256 n)

pub below_bytes : (v : ℕ) → v < 256 ^ byte_len v
below_bytes v =
    let enough : bit_len v ≤ 8 * byte_len v = omega arith in
    subst (λ t. v < t) (pow_octets (byte_len v))
      (lt_of_lt_of_le (below_bits v v (le_refl v))
        (pow-le-pow_right {n = 2} (zero-lt-suc 1) enough))

pub big_endian-append :
    (acc b : ℕ) (xs : Bytes) → big_endian acc (xs ++ b ∷ []) ≡ big_endian acc xs * 256 + b
big_endian-append acc b [] = refl
big_endian-append acc b (x ∷ xs) = big_endian-append (acc * 256 + x) b xs

pub big_endian-digits : (n v : ℕ) → v < 256 ^ n → big_endian 0 (digits n v) ≡ v
big_endian-digits zero v h = omega arith
big_endian-digits (suc n) v h =
    big_endian-append 0 (v % 256) (digits n (v / 256))
    ∙ ap (λ t. t * 256 + v % 256) (big_endian-digits n (v / 256) (omega arith))
    ∙ omega arith

-- `SetBytes` reads back what `Bytes` writes.
pub big_endian-int_bytes : (v : ℕ) → big_endian 0 (int_bytes v) ≡ v
big_endian-int_bytes v = big_endian-digits (byte_len v) v (below_bytes v)

pub inverse_below_sound : (b s n : ℕ) {w : ℕ} → inverse_below b s n ≡ some w → s * w % n ≡ 1
inverse_below_sound zero s n h = cc
inverse_below_sound (suc b) s n h = elim (Option-cases (inverse_below b s n)) [
  | inl missing ↦ elim (Bool-cases (s * b % n == 1)) [
    | inl e ↦
        let found : inverse_below (suc b) s n ≡ some b = ground arith in
        subst (λ w. s * w % n ≡ 1) (some-injective _ _ (sym found ∙ h)) (==→eq (s * b % n) 1 e)
    | inr e ↦ ground arith
  ]
  | inr (v, found) ↦ inverse_below_sound b s n (ground arith)
]

inverse_below-found :
    (b s n w : ℕ) → w < b → s * w % n ≡ 1 → (v : ℕ) × (inverse_below b s n ≡ some v)
inverse_below-found zero s n w h e = absurd (omega arith)
inverse_below-found (suc b) s n w h e = elim (Option-cases (inverse_below b s n)) [
  | inl missing ↦ elim (Bool-cases (s * b % n == 1)) [
    | inl tested ↦ (b, ground arith)
    | inr tested ↦ elim (Bool-cases (ltb w b)) [
      | inl below ↦
          let (v, found) = inverse_below-found b s n w (ltb→lt w b below) e in absurd (ground arith)
      | inr above ↦
          let here : w ≡ b = ground arith in absurd (ground (arith, ap (λ t. s * t % n) here))
    ]
  ]
  | inr (v, found) ↦ (v, ground arith)
]

-- `ModInverse` finds an inverse where there is one.
pub mod_inverse-found :
    (s n v : ℕ) → 0 < n → s * v % n ≡ 1 → (w : ℕ) × ((mod_inverse s n ≡ some w) × (s * w % n ≡ 1))
mod_inverse-found s n v positive e =
    let (w, found) =
      inverse_below-found n s n (v % n) (mod-lt v positive) (mul-mod_right n s v ∙ e) in
    (w, (found, inverse_below_sound n s n found))

pub length-digits : (n v : ℕ) → length (digits n v) ≡ n
length-digits zero v = refl
length-digits (suc n) v =
    length-append (digits n (v / 256)) (v % 256 ∷ []) ∙ omega (arith, length-digits n (v / 256))

pub fill_bytes-inv :
    (n v : ℕ) {out : Bytes} → fill_bytes n v ≡ ok out → (digits n v ≡ out) × (v < 256 ^ n)
unfolding fill_bytes
fill_bytes-inv n v h = elim (Bool-cases (ltb v (256 ^ n))) [
  | inl e ↦ (ground (arith, h), ltb→lt v (256 ^ n) e)
  | inr e ↦ ground (arith, h)
]

-- What a number is written as has the size of the destination, and is read as the number.
pub fill_bytes-reads :
    (n v : ℕ) {out : Bytes} → fill_bytes n v ≡ ok out → (length out ≡ n) × (big_endian 0 out ≡ v)
fill_bytes-reads n v written =
    let (is, fits) = fill_bytes-inv n v written in
    (
      ap length (sym is) ∙ length-digits n v,
      ap (big_endian 0) (sym is) ∙ big_endian-digits n v fits,
    )

pub fill_bytes-fits : (n v : ℕ) → v < 256 ^ n → fill_bytes n v ≡ ok (digits n v)
unfolding fill_bytes
fill_bytes-fits n v fits = ap (λ t. if t then ok (digits n v) else panic) (lt→ltb v (256 ^ n) fits)

pub fill_bytes-byte_len : (v : ℕ) → fill_bytes (byte_len v) v ≡ ok (int_bytes v)
fill_bytes-byte_len v = fill_bytes-fits (byte_len v) v (below_bytes v)

inverse_below-bound : (b s n : ℕ) {w : ℕ} → inverse_below b s n ≡ some w → w < b
inverse_below-bound zero s n h = cc
inverse_below-bound (suc b) s n {w} h = elim (Option-cases (inverse_below b s n)) [
  | inl missing ↦ elim (Bool-cases (s * b % n == 1)) [
    | inl e ↦ let same : b ≡ w = ground arith in omega (arith, same)
    | inr e ↦ ground arith
  ]
  | inr (v, found) ↦
      let same : v ≡ w = ground arith in omega (arith, inverse_below-bound b s n found, same)
]

-- An inverse that `ModInverse` finds is one, and is reduced.
pub mod_inverse-inv : (s n : ℕ) {w : ℕ} → mod_inverse s n ≡ some w → (s * w % n ≡ 1) × (w < n)
mod_inverse-inv s n found = (inverse_below_sound n s n found, inverse_below-bound n s n found)
