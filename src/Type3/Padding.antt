-- ===== src/Type3/Padding.antt =====
-- `padOriginName` and `unpadOriginName` of tokens/type3/client.go.
use native.Mathlib.Decide.{dec_lt}
use pat_go.Base.{
  ℕ, zero, suc, ◌+◌, ◌-◌, ◌%◌, ◌≤◌, ◌<◌, ◌≡◌, ◌≢◌, refl, ap, ◌∙◌, not, [], ◌∷◌, ◌++◌, Bytes, length,
  take, take-append, get_or, replicate, length-append, length-replicate, last_byte, some, ◌==◌,
  if◌then◌else◌, arith,
}

-- `31 - ((len(originName) - 1) % 32)`: Go's remainder of -1 is -1.
abbrev pub pad_length : ℕ → ℕ
pad_length zero = 32
pad_length (suc n) = 31 - n % 32

unfoldable pub pad_origin_name : Bytes → Bytes
pad_origin_name name = name ++ replicate (pad_length (length name)) 0

-- The loop, at `lastNonZero` one below the number: it goes down to the last byte that is not zero.
unfoldable pub unpad_from : Bytes → ℕ → Bytes
unpad_from s zero = []
unpad_from s (suc i) =
    let rest = unpad_from s i in if not (get_or s i 0 == 0) then take (suc i) s else rest

unfoldable pub unpad_origin_name : Bytes → Bytes
unpad_origin_name s = unpad_from s (length s)

-- A padded name is a positive number of blocks of 32 bytes, the fewest that leave the name in front
-- (one more for the empty name).
pub length-pad_origin_name :
    (name : Bytes)
    → (length (pad_origin_name name) % 32 ≡ 0)
      × (0 < length (pad_origin_name name))
      × (length name ≤ length (pad_origin_name name))
      × (name ≢ [] → length (pad_origin_name name) < length name + 32)
unfolding pad_origin_name
length-pad_origin_name [] = (refl, omega arith, omega arith, λ ne. absurd (ne refl))
length-pad_origin_name (c ∷ name) =
    let e = length-append (c ∷ name) (replicate (31 - length name % 32) 0) in
    let e' : length (replicate {A = ℕ} (31 - length name % 32) 0) ≡ 31 - length name % 32 =
      length-replicate (31 - length name % 32) 0 in
    (omega (arith, e, e'), omega (arith, e, e'), omega (arith, e, e'), λ _. omega (arith, e, e'))

pub pad_fits : (name : Bytes) → length (pad_origin_name name) ≤ length name + 32
unfolding pad_origin_name
pad_fits [] = omega arith
pad_fits (c ∷ name) =
    let (_, _, _, below) = length-pad_origin_name (c ∷ name) in omega (arith, below (λ e. cc))

padded_byte : (xs : Bytes) (k i : ℕ) → length xs ≤ i → get_or (xs ++ replicate k 0) i 0 ≡ 0
padded_byte [] zero i h = refl
padded_byte [] (suc k) zero h = refl
padded_byte [] (suc k) (suc i) h = padded_byte [] k i (omega arith)
padded_byte (x ∷ xs) k zero h = absurd (omega arith)
padded_byte (x ∷ xs) k (suc i) h = padded_byte xs k i (omega arith)

-- The loop passes over the padding.
unpad_from-padded :
    (xs : Bytes) (k n : ℕ)
    → length xs ≤ n
    → unpad_from (xs ++ replicate k 0) n ≡ unpad_from (xs ++ replicate k 0) (length xs)
unfolding unpad_from
unpad_from-padded xs k zero h = ap (unpad_from (xs ++ replicate k 0)) {x = 0} (omega arith)
unpad_from-padded xs k (suc n) h = elim (dec_lt n (length xs)) [
  | yes reached ↦ ap (unpad_from (xs ++ replicate k 0)) {x = suc n} (omega arith)
  | no beyond ↦
      let rest = unpad_from-padded xs k n (omega arith) in
      ground (arith, padded_byte xs k n (omega arith), rest)
]

last_byte-get_or :
    (x : ℕ) (xs ys : Bytes) → last_byte (x ∷ xs) ≡ some (get_or (x ∷ (xs ++ ys)) (length xs) 0)
last_byte-get_or x [] ys = refl
last_byte-get_or x (y ∷ xs) ys = last_byte-get_or y xs ys

-- The loop stops at once at a byte that is not zero.
unpad_from-whole : (xs ys : Bytes) → last_byte xs ≢ some 0 → unpad_from (xs ++ ys) (length xs) ≡ xs
unfolding unpad_from
unpad_from-whole [] ys h = refl
unpad_from-whole (x ∷ xs) ys h =
    let kept = take-append (x ∷ xs) ys in ground (arith, last_byte-get_or x xs ys, kept)

-- A name that does not end in a zero byte is what unpadding makes of its padded form.
pub unpad-pad_origin_name :
    (name : Bytes) → last_byte name ≢ some 0 → unpad_origin_name (pad_origin_name name) ≡ name
unfolding unpad_origin_name pad_origin_name
unpad-pad_origin_name name h =
    let zeroes = replicate (pad_length (length name)) 0 in
    unpad_from-padded name (pad_length (length name)) (length (name ++ zeroes))
      (omega (arith, length-append name zeroes))
    ∙ unpad_from-whole name zeroes h
