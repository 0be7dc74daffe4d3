-- ===== src/Ed25519/ToyGroup.antt =====
-- A toy group of two points, and scalars modulo two.
use pat_go.Base.{
  ◌≡◌, ◌==◌, ◌+◌, ◌*◌, ◌%◌, ◌<◌, ℕ, Bool, true, false, ◌&&◌, not, if◌then◌else◌, [], ◌∷◌, Bytes,
  length, replicate, Outcome, ok, err, panic, arith, refl, ap, sym, ◌∙◌,
}
use pat_go.Ed25519.{Edwards25519, IsEdwards25519}

-- A byte string of which the sum is all that counts.
abbrev total : Bytes → ℕ
total [] = 0
total (x ∷ xs) = x + total xs

abbrev bit : Bool → ℕ
bit true = 1
bit false = 0

abbrev different : Bool → Bool → Bool
different true b = not b
different false b = b

abbrev encoded : Bool → Bytes
encoded b = bit b ∷ replicate 31 0

abbrev decoded : Bytes → Outcome Bool
decoded [] = err "too short"
decoded (x ∷ xs) = ok (x == 1)

-- A scalar from a byte string of the right size.
abbrev read : ℕ → Bytes → Outcome Bool
read n xs = if length xs == n then ok (total xs % 2 == 1) else panic

abbrev pub group : Edwards25519
group = record {
  Scalar = Bool;
  Point = Bool;
  sha512 = λ xs. total xs % 256 ∷ replicate 63 2;
  set_bytes = read 32;
  set_bytes_with_clamping = read 32;
  set_uniform_bytes = read 64;
  set_canonical_bytes = decoded;
  scalar_bytes = encoded;
  mod_inverse = λ s. if s then ok true else panic;
  multiply = λ x y. x && y;
  multiply_add = λ x y z. different (x && y) z;
  point = decoded;
  point_bytes = encoded;
  scalar_base_mult = λ s. s;
  scalar_mult = λ s p. s && p;
  negate = λ p. p;
  double_scalar_base_mult = λ a p b. different (a && p) b;
}

read-ok : (n : ℕ) (xs : Bytes) → length xs ≡ n → (s : Bool) × (read n xs ≡ ok s)
read-ok n xs h = (total xs % 2 == 1, ground arith)

decoded-encoded : (b : Bool) → decoded (encoded b) ≡ ok b
decoded-encoded true = refl
decoded-encoded false = refl

product : (x y : Bool) → bit (x && y) ≡ bit x * bit y % 2
product true true = refl
product true false = refl
product false true = refl
product false false = refl

product_sum : (x y z : Bool) → bit (different (x && y) z) ≡ (bit x * bit y + bit z) % 2
product_sum true true true = refl
product_sum true true false = refl
product_sum true false true = refl
product_sum true false false = refl
product_sum false true true = refl
product_sum false true false = refl
product_sum false false true = refl
product_sum false false false = refl

inverse :
    (s : Bool)
    → 0 < bit s
    → (t : Bool) × (((if s then ok true else panic) ≡ ok t) × (bit s * bit t % 2 ≡ 1))
inverse true h = (true, (refl, refl))
inverse false h = absurd (omega arith)

bit_inj : (p q : Bool) → bit p ≡ bit q → p ≡ q
bit_inj true true h = refl
bit_inj true false h = absurd (omega arith)
bit_inj false true h = absurd (omega arith)
bit_inj false false h = refl

reduced : (s : Bool) → bit s % 2 ≡ bit s
reduced true = refl
reduced false = refl

scaled : (s p : Bool) (d : ℕ) → d % 2 ≡ bit p → d * bit s % 2 ≡ bit (s && p)
scaled true p d h = omega arith
scaled false p d h = omega arith

difference :
    (a b p : Bool) (d m : ℕ)
    → d % 2 ≡ bit p
    → (m + bit a * d) % 2 ≡ bit b % 2
    → m % 2 ≡ bit (different (a && p) b)
difference true true true d m h e = omega arith
difference true true false d m h e = omega arith
difference true false true d m h e = omega arith
difference true false false d m h e = omega arith
difference false true p d m h e = omega arith
difference false false p d m h e = omega arith

pub group-IsEdwards25519 : IsEdwards25519 group
group-IsEdwards25519 = record {
  order = 2;
  value = bit;
  Represents = λ p n. n % 2 ≡ bit p;
  length-sha512 = λ xs. refl;
  set_bytes_lem = read-ok 32;
  clamping_lem = read-ok 32;
  uniform_lem = read-ok 64;
  canonical_lem = decoded-encoded;
  length-scalar_bytes = λ s. refl;
  scalar_bytes-top = λ s. (0, (refl, omega arith));
  value-multiply = product;
  value-multiply_add = product_sum;
  inverse_lem = inverse;
  length-point_bytes = λ p. refl;
  point_lem = λ p d h. (p, (decoded-encoded p, h));
  same_bytes = λ p q d h h'. ap encoded (bit_inj p q (sym h ∙ h'));
  congruent = λ p j k e h. omega arith;
  base_lem = reduced;
  mult_lem = scaled;
  difference_lem = difference;
}

-- The other point is the base point, and one is not zero.
pub true-Represents : group-IsEdwards25519.Represents true 1
unfolding group-IsEdwards25519
true-Represents = refl

pub true_positive : 0 < group-IsEdwards25519.value true
unfolding group-IsEdwards25519
true_positive = omega arith
