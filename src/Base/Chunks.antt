-- ===== src/Base/Chunks.antt =====
-- Byte strings of one size in a row: a list of them in one string, and that string cut up again.
use Prim.Native.Nat.{ℕ, zero, suc, ◌-◌, ◌*◌}
use mathlib.Core.Path.{◌≡◌, refl, sym, ap, ◌∙◌}
use mathlib.Core.List.{List, [], ◌∷◌, ◌++◌, append-nil}
use native.Mathlib.Omega.{arith}
use pat_go.Base.Lists.{
  Bytes, length, take, drop, All, replicate, length-append, length-take, length-drop, take-append,
  drop-append, take-append-drop,
}

abbrev pub concat : List Bytes → Bytes
concat [] = []
concat (p ∷ ps) = p ++ concat ps

-- The first `n` pieces of `size` bytes.
abbrev pub chunks : ℕ → ℕ → Bytes → List Bytes
chunks size zero s = []
chunks size (suc n) s = take size s ∷ chunks size n (drop size s)

-- `copy(make([]byte, n), xs)`: cut or filled up with zeroes to `n` bytes.
abbrev pub fit : ℕ → Bytes → Bytes
fit n xs = take n xs ++ replicate (n - length xs) 0

abbrev pub HasLength : ℕ → Bytes → Type 0
HasLength n xs = length xs ≡ n

pub length-concat :
    (size : ℕ) (ps : List Bytes) → All (HasLength size) ps → length (concat ps) ≡ length ps * size
length-concat size [] h = omega arith
length-concat size (p ∷ ps) h =
    omega (arith, length-append p (concat ps), h.0, length-concat size ps h.1)

pub take-length : (n : ℕ) (xs ys : Bytes) → length xs ≡ n → take n (xs ++ ys) ≡ xs
take-length n xs ys h = ap (λ k. take k (xs ++ ys)) (sym h) ∙ take-append xs ys

pub drop-length : (n : ℕ) (xs ys : Bytes) → length xs ≡ n → drop n (xs ++ ys) ≡ ys
drop-length n xs ys h = ap (λ k. drop k (xs ++ ys)) (sym h) ∙ drop-append xs ys

pub chunks-concat :
    (size : ℕ) (ps : List Bytes)
    → All (HasLength size) ps
    → chunks size (length ps) (concat ps) ≡ ps
chunks-concat size [] h = refl
chunks-concat size (p ∷ ps) h = rw (
  take-length size p (concat ps) h.0,
  drop-length size p (concat ps) h.0,
  chunks-concat size ps h.1,
)

pub concat-chunks : (size n : ℕ) (s : Bytes) → length s ≡ n * size → concat (chunks size n s) ≡ s
concat-chunks size zero [] h = refl
concat-chunks size zero (x ∷ s) h = absurd (omega arith)
concat-chunks size (suc n) s h =
    rw (concat-chunks size n (drop size s) (omega (arith, length-drop size s)))
      (take-append-drop size s)

pub chunks-HasLength :
    (size n : ℕ) (s : Bytes) → length s ≡ n * size → All (HasLength size) (chunks size n s)
chunks-HasLength size zero s h = tt
chunks-HasLength size (suc n) s h = (
  omega (arith, length-take size s),
  chunks-HasLength size n (drop size s) (omega (arith, length-drop size s)),
)

pub length-chunks : (size n : ℕ) (s : Bytes) → length (chunks size n s) ≡ n
length-chunks size zero s = refl
length-chunks size (suc n) s = ap suc (length-chunks size n (drop size s))

pub fit_whole : (n : ℕ) (xs : Bytes) → length xs ≡ n → fit n xs ≡ xs
fit_whole n xs h =
    let none_left : n - length xs ≡ 0 = omega arith in
    rw (none_left, append-nil) (ap (λ k. take k xs) (sym h) ∙ take_all xs)
  where
    take_all : (xs : Bytes) → take (length xs) xs ≡ xs
    take_all [] = refl
    take_all (x ∷ xs) = rw (take_all xs)
