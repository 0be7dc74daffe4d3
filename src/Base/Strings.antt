-- ===== src/Base/Strings.antt =====
-- `strings.Join` and `strings.Split` of Go's standard library, with a separator of one byte. A
-- string is its bytes.
use Prim.Native.Nat.{ℕ}
use Prim.Native.String.{String}
use Prim.Native.Char.{code}
use mathlib.Core.Path.{◌≡◌, refl}
use mathlib.Core.Logic.{◌≢◌}
use mathlib.Core.Bool.{Bool, true, false, ◌&&◌}
use mathlib.Core.List.{List, [], ◌∷◌, ◌++◌}
use native.Mathlib.Omega.{arith}
use pat_go.Base.Tests.{◌==◌, if◌then◌else◌, bytes_equal, bytes_equal_refl, bytes_equal→eq}
use pat_go.Base.Lists.{Bytes, All}

-- The bytes of an ASCII literal.
abbrev pub codes : String → Bytes
codes String.[] = []
codes (String.◌∷◌ c s) = code c ∷ codes s

unfoldable pub join : ℕ → List Bytes → Bytes
join sep [] = []
join sep (p ∷ []) = p
join sep (p ∷ q ∷ ps) = p ++ sep ∷ join sep (q ∷ ps)

-- A byte in front of the first part.
abbrev extend : ℕ → List Bytes → List Bytes
extend c [] = (c ∷ []) ∷ []
extend c (p ∷ ps) = (c ∷ p) ∷ ps

unfoldable pub split : ℕ → Bytes → List Bytes
split sep [] = [] ∷ []
split sep (c ∷ s) = let rest = split sep s in if c == sep then [] ∷ rest else extend c rest

-- `reflect.DeepEqual` on string slices, of which none is nil.
unfoldable pub strings_equal : List Bytes → List Bytes → Bool
strings_equal [] [] = true
strings_equal [] (y ∷ ys) = false
strings_equal (x ∷ xs) [] = false
strings_equal (x ∷ xs) (y ∷ ys) = bytes_equal x y && strings_equal xs ys

pub strings_equal_refl : (xs : List Bytes) → strings_equal xs xs ≡ true
unfolding strings_equal
strings_equal_refl [] = refl
strings_equal_refl (x ∷ xs) = ground (arith, bytes_equal_refl x, strings_equal_refl xs)

pub strings_equal→eq : (xs ys : List Bytes) → strings_equal xs ys ≡ true → xs ≡ ys
unfolding strings_equal
strings_equal→eq [] [] h = refl
strings_equal→eq [] (y ∷ ys) h = cc
strings_equal→eq (x ∷ xs) [] h = cc
strings_equal→eq (x ∷ xs) (y ∷ ys) h = ground (arith, bytes_equal→eq x y, strings_equal→eq xs ys)

abbrev pub Lacks : ℕ → Bytes → Type 0
Lacks sep = All (λ c. c ≢ sep)

pub split-ne-nil : (sep : ℕ) (s : Bytes) → split sep s ≢ []
unfolding split
split-ne-nil sep [] = λ e. cc
split-ne-nil sep (c ∷ s) = ground (arith, split-ne-nil sep s)

join-extend : (sep c : ℕ) (ps : List Bytes) → ps ≢ [] → join sep (extend c ps) ≡ c ∷ join sep ps
unfolding join
join-extend sep c [] h = absurd (h refl)
join-extend sep c (p ∷ []) h = refl
join-extend sep c (p ∷ q ∷ ps) h = refl

join-empty : (sep : ℕ) (ps : List Bytes) → ps ≢ [] → join sep ([] ∷ ps) ≡ sep ∷ join sep ps
unfolding join
join-empty sep [] h = absurd (h refl)
join-empty sep (q ∷ ps) h = refl

-- Joining the parts of a split gives the text back.
pub join-split : (sep : ℕ) (s : Bytes) → join sep (split sep s) ≡ s
unfolding split
join-split sep [] = unfold join in refl
join-split sep (c ∷ s) = ground (
  arith,
  join-split sep s,
  split-ne-nil sep s,
  join-extend sep c (split sep s),
  join-empty sep (split sep s),
)

split_no_sep : (sep : ℕ) (p : Bytes) → Lacks sep p → split sep p ≡ p ∷ []
unfolding split
split_no_sep sep [] h = refl
split_no_sep sep (c ∷ p) h = ground (arith, split_no_sep sep p h.1)

split_at_sep : (sep : ℕ) (p s : Bytes) → Lacks sep p → split sep (p ++ sep ∷ s) ≡ p ∷ split sep s
unfolding split
split_at_sep sep [] s h = ground arith
split_at_sep sep (c ∷ p) s h = ground (arith, split_at_sep sep p s h.1)

-- Splitting a join gives the parts back, if there is a part and none holds the separator.
pub split-join :
    (sep : ℕ) (ps : List Bytes) → ps ≢ [] → All (Lacks sep) ps → split sep (join sep ps) ≡ ps
unfolding join
split-join sep [] h _ = absurd (h refl)
split-join sep (p ∷ []) _ h = split_no_sep sep p h.0
split-join sep (p ∷ q ∷ ps) _ h =
    let rest = split-join sep (q ∷ ps) (cc) h.1 in
    rw (split_at_sep sep p (join sep (q ∷ ps)) h.0, rest)
