-- ===== src/Ecdsa/Kdsa/Digests.antt =====
-- Writing a digest without the detour over a number.
use pat_go.Base.{
  ◌≡◌, ◌==◌, ==→eq, true, false, Bool, ltb, leb, Bool-cases, ◌+◌, ◌-◌, ◌*◌, ◌/◌, ◌%◌, ◌^◌, ◌<◌, ◌≤◌,
  ℕ, zero, suc, [], ◌∷◌, ◌++◌, Bytes, IsBytes, length, take, replicate, length-take, append_assoc,
  append-nil, ok, inl, inr, arith, lt→ltb, if◌then◌else◌, panic, ap, sym, refl, ◌∙◌,
}
use native.Mathlib.Nat.{pow-le-pow_right, zero-lt-suc, lt_of_lt_of_le}
use pat_go.Ecdsa.{big_endian, digits, fill_bytes}
use pat_go.Ecdsa.Big.{bit_len, byte_len}
use pat_go.Ecdsa.Curve.{Curve}
use pat_go.Ecdsa.Signing.{hash_to_int}
use pat_go.Ecdsa.Rejection.{below_octets, IsBytes-take}
use pat_go.Ecdsa.Kdsa.{hash_to_bytes}

-- The bytes of a number that was read from bytes.
digits-big_endian_onto :
    (n acc : ℕ) (xs : Bytes)
    → IsBytes xs
    → digits (n + length xs) (big_endian acc xs) ≡ digits n acc ++ xs
digits-big_endian_onto n acc [] h =
    let none_more : n + 0 ≡ n = omega arith in
    ap (λ m. digits m acc) none_more ∙ sym (append-nil (digits n acc))
digits-big_endian_onto n acc (x ∷ xs) h =
    let one_more : n + suc (length xs) ≡ suc n + length xs = omega arith in
    let front : (acc * 256 + x) / 256 ≡ acc = omega (arith, h.0) in
    let low : (acc * 256 + x) % 256 ≡ x = omega (arith, h.0) in
    ap (λ m. digits m (big_endian (acc * 256 + x) xs)) one_more
    ∙ digits-big_endian_onto (suc n) (acc * 256 + x) xs h.1
    ∙ append_assoc (digits n ((acc * 256 + x) / 256)) ((acc * 256 + x) % 256 ∷ []) xs
    ∙ ap (λ v. digits n v ++ (acc * 256 + x) % 256 ∷ xs) front
    ∙ ap (λ b. digits n acc ++ b ∷ xs) low

replicate-zero : (n : ℕ) → ◌++◌ {A = ℕ} (replicate n 0) (0 ∷ []) ≡ replicate (suc n) 0
replicate-zero zero = refl
replicate-zero (suc n) = ap (λ xs. 0 ∷ xs) (replicate-zero n)

digits-zero : (n : ℕ) → digits n 0 ≡ replicate n 0
digits-zero zero = refl
digits-zero (suc n) = ap (λ xs. xs ++ 0 ∷ []) (digits-zero n) ∙ replicate-zero n

-- A number that was read from few enough bytes is written as those bytes, with zeroes in front.
pub fill_bytes-big_endian :
    (l : ℕ) (xs : Bytes)
    → IsBytes xs
    → length xs ≤ l
    → fill_bytes l (big_endian 0 xs) ≡ ok (replicate (l - length xs) 0 ++ xs)
unfolding fill_bytes
fill_bytes-big_endian l xs bytes short =
    let parts : l ≡ (l - length xs) + length xs = omega (arith, short) in
    let below : big_endian 0 xs < 256 ^ l =
      lt_of_lt_of_le (omega (arith, below_octets 0 xs bytes))
        (pow-le-pow_right {n = 256} (zero-lt-suc 255) short) in
    ap (λ t. if t then ok (digits l (big_endian 0 xs)) else panic)
      (lt→ltb (big_endian 0 xs) (256 ^ l) below)
    ∙ ap (λ m. ok (digits m (big_endian 0 xs))) parts
    ∙ ap ok (
        digits-big_endian_onto (l - length xs) 0 xs bytes
        ∙ ap (λ zs. zs ++ xs) (digits-zero (l - length xs)))

-- The number of a digest, for an order of whole bytes, is that of its first bytes.
hash_to_int-whole :
    (l : ℕ) (hash : Bytes) (c : Curve)
    → bit_len c.order ≡ l * 8
    → hash_to_int hash c ≡ big_endian 0 (if ltb l (length hash) then take l hash else hash)
unfolding hash_to_int
hash_to_int-whole l hash c whole =
    let size : byte_len c.order ≡ l = omega (arith, whole) in
    elim (Bool-cases (ltb l (length hash))) [
      | inl long ↦ ground (arith, size, whole, long, length-take l hash)
      | inr short ↦ ground (arith, size, whole, short)
    ]

take-whole : (xs : Bytes) → take (length xs) xs ≡ xs
take-whole [] = refl
take-whole (x ∷ xs) = ap (λ l. x ∷ l) (take-whole xs)

-- The first bytes of a digest that is long enough.
fill_bytes-cut :
    (l : ℕ) (hash : Bytes)
    → IsBytes hash
    → l ≤ length hash
    → fill_bytes l (big_endian 0 (take l hash)) ≡ ok (take l hash)
fill_bytes-cut l hash bytes long =
    let sized : length (take l hash) ≡ l = omega (arith, length-take l hash, long) in
    let none_left : l - length (take l hash) ≡ 0 = omega (arith, sized) in
    fill_bytes-big_endian l (take l hash) (IsBytes-take l hash bytes) (omega (arith, sized))
    ∙ ap (λ n. ok (replicate n 0 ++ take l hash)) none_left

abbrev cut_at : ℕ → Bytes → Bool → ℕ
cut_at l hash long = big_endian 0 (if long then take l hash else hash)

cut-long :
    (l : ℕ) (hash : Bytes)
    → leb l (length hash) ≡ true
    → cut_at l hash (ltb l (length hash)) ≡ big_endian 0 (take l hash)
cut-long l hash long = elim (Bool-cases (ltb l (length hash))) [
  | inl more ↦ ap (cut_at l hash) more
  | inr same ↦
      let exact : length hash ≡ l = ground arith in
      ap (cut_at l hash) same
      ∙ ap (big_endian 0) (sym (take-whole hash) ∙ ap (λ n. take n hash) exact)
]

-- The path without a number writes what the number would be written as.
pub hash_to_bytes-fill_bytes :
    (l : ℕ) (hash : Bytes) (c : Curve)
    → IsBytes hash
    → hash_to_bytes l hash c ≡ fill_bytes l (hash_to_int hash c)
unfolding hash_to_bytes
hash_to_bytes-fill_bytes l hash c bytes = elim (Bool-cases (bit_len c.order == l * 8)) [
  | inr part ↦ rw (part) refl
  | inl even ↦
      let whole = hash_to_int-whole l hash c (==→eq (bit_len c.order) (l * 8) even) in
      elim (Bool-cases (leb l (length hash))) [
        | inr short ↦
            let below : ltb l (length hash) ≡ false = ground arith in
            rw (even, short)
              (sym (
                ap (fill_bytes l) (whole ∙ ap (cut_at l hash) below)
                ∙ fill_bytes-big_endian l hash bytes (ground arith)))
        | inl long ↦
            rw (even, long)
              (sym (
                ap (fill_bytes l) (whole ∙ cut-long l hash long)
                ∙ fill_bytes-cut l hash bytes (ground arith)))
      ]
]
