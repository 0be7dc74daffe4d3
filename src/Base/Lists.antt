-- ===== src/Base/Lists.antt =====
-- Lists measured and cut by native numbers, under the library's names; byte strings.
use Prim.Native.Nat.{ℕ, zero, suc, ◌+◌, ◌-◌, ◌<◌, min}
use mathlib.Core.Path.{◌≡◌, refl, ap, subst}
use mathlib.Core.List.{List, [], ◌∷◌, ◌++◌}
use mathlib.Core.Option.{Option, none, some}
use native.Mathlib.Omega.{arith}

abbrev pub Bytes : Type 0
Bytes = List ℕ

module _ {ℓ} {A : Type ℓ} where
  abbrev pub length : List A → ℕ
  length [] = 0
  length (x ∷ xs) = suc (length xs)

  abbrev pub get_elem? : List A → ℕ → Option A
  get_elem? [] i = none
  get_elem? (x ∷ xs) zero = some x
  get_elem? (x ∷ xs) (suc i) = get_elem? xs i

  abbrev pub get_or : List A → ℕ → A → A
  get_or [] i d = d
  get_or (x ∷ xs) zero d = x
  get_or (x ∷ xs) (suc i) d = get_or xs i d

  abbrev pub take : ℕ → List A → List A
  take zero xs = []
  take (suc n) [] = []
  take (suc n) (x ∷ xs) = x ∷ take n xs

  abbrev pub drop : ℕ → List A → List A
  drop zero xs = xs
  drop (suc n) [] = []
  drop (suc n) (x ∷ xs) = drop n xs

  abbrev pub replicate : ℕ → A → List A
  replicate zero a = []
  replicate (suc n) a = a ∷ replicate n a

  pub length-append : (xs ys : List A) → length (xs ++ ys) ≡ length xs + length ys
  length-append [] ys = omega arith
  length-append (x ∷ xs) ys = omega (arith, length-append xs ys)

  pub length-replicate : (n : ℕ) (a : A) → length (replicate n a) ≡ n
  length-replicate zero a = refl
  length-replicate (suc n) a = ap suc (length-replicate n a)

  pub take-append-drop : (n : ℕ) (xs : List A) → take n xs ++ drop n xs ≡ xs
  take-append-drop zero xs = refl
  take-append-drop (suc n) [] = refl
  take-append-drop (suc n) (x ∷ xs) = rw (take-append-drop n xs)

  pub length-take : (n : ℕ) (xs : List A) → length (take n xs) ≡ min n (length xs)
  length-take zero xs = omega arith
  length-take (suc n) [] = omega arith
  length-take (suc n) (x ∷ xs) = omega (arith, length-take n xs)

  pub length-drop : (n : ℕ) (xs : List A) → length (drop n xs) ≡ length xs - n
  length-drop zero xs = omega arith
  length-drop (suc n) [] = omega arith
  length-drop (suc n) (x ∷ xs) = omega (arith, length-drop n xs)

  pub take-append : (xs ys : List A) → take (length xs) (xs ++ ys) ≡ xs
  take-append [] ys = refl
  take-append (x ∷ xs) ys = ap (λ l. x ∷ l) (take-append xs ys)

  pub drop-append : (xs ys : List A) → drop (length xs) (xs ++ ys) ≡ ys
  drop-append [] ys = refl
  drop-append (x ∷ xs) ys = drop-append xs ys

module _ {ℓ κ} {A : Type ℓ} (P : A → Type κ) where
  abbrev pub All : List A → Type κ
  All [] = Unit
  All (x ∷ xs) = P x × All xs

  pub All-append : (xs ys : List A) → All xs → All ys → All (xs ++ ys)
  All-append [] ys hx hy = hy
  All-append (x ∷ xs) ys (px, hx) hy = (px, All-append xs ys hx hy)

-- Every element is a byte.
abbrev pub IsBytes : Bytes → Type 0
IsBytes = All (λ b. b < 256)

pub IsBytes-suffix : (v rest : Bytes) {s : Bytes} → s ≡ v ++ rest → IsBytes s → IsBytes rest
IsBytes-suffix v rest e b = go v (subst IsBytes e b)
  where
    go : (v : Bytes) → IsBytes (v ++ rest) → IsBytes rest
    go [] h = h
    go (x ∷ v) h = go v h.1

-- `xs[:n]`, `none` where it is out of range (the capacity of a slice is taken for its length).
abbrev pub slice_to : ℕ → Bytes → Option Bytes
slice_to zero xs = some []
slice_to (suc n) [] = none
slice_to (suc n) (x ∷ xs) = elim (slice_to n xs) [ none ↦ none | some ys ↦ some (x ∷ ys) ]

-- `xs[len(xs)-1]`
abbrev pub last_byte : Bytes → Option ℕ
last_byte [] = none
last_byte (x ∷ []) = some x
last_byte (x ∷ y ∷ xs) = last_byte (y ∷ xs)

pub slice_to-append : (n : ℕ) (xs ys : Bytes) → length xs ≡ n → slice_to n (xs ++ ys) ≡ some xs
slice_to-append zero [] ys h = refl
slice_to-append zero (x ∷ xs) ys h = absurd (omega arith)
slice_to-append (suc n) [] ys h = absurd (omega arith)
slice_to-append (suc n) (x ∷ xs) ys h = rw (slice_to-append n xs ys (omega arith))

pub last_byte-IsBytes : (xs : Bytes) {x : ℕ} → IsBytes xs → last_byte xs ≡ some x → x < 256
last_byte-IsBytes [] b h = cc
last_byte-IsBytes (y ∷ []) b h = ground (arith, b.0)
last_byte-IsBytes (y ∷ z ∷ xs) b h = last_byte-IsBytes (z ∷ xs) b.1 h
