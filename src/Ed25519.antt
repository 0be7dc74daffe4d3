-- ===== src/Ed25519.antt =====
-- What the package ed25519 is built on, as an interface: the scalars and points of
-- ed25519/internal/edwards25519, a copy of a package of Go's, and crypto/sha512.
pub mod Keys
pub mod Signing
pub mod Signatures
pub mod BlindSignatures
pub mod Rejection
pub mod Scalars
pub mod ToyGroup
use pat_go.Base.{◌≡◌, ◌≢◌, ◌+◌, ◌*◌, ◌%◌, ◌<◌, ℕ, some, Bytes, length, get_elem?, Outcome, ok}

pub record Edwards25519 : Type 1 where
  pub Scalar : Type 0
  pub Point : Type 0
  pub sha512 : Bytes → Bytes
  -- `Scalar.SetBytes`, `SetBytesWithClamping`, `SetUniformBytes` and `SetCanonicalBytes`
  pub set_bytes : Bytes → Outcome Scalar
  pub set_bytes_with_clamping : Bytes → Outcome Scalar
  pub set_uniform_bytes : Bytes → Outcome Scalar
  pub set_canonical_bytes : Bytes → Outcome Scalar
  pub scalar_bytes : Scalar → Bytes
  pub mod_inverse : Scalar → Outcome Scalar
  pub multiply : Scalar → Scalar → Scalar
  pub multiply_add : Scalar → Scalar → Scalar → Scalar
  -- `Point.SetBytes` and `Point.Bytes`
  pub point : Bytes → Outcome Point
  pub point_bytes : Point → Bytes
  pub scalar_base_mult : Scalar → Point
  pub scalar_mult : Scalar → Point → Point
  pub negate : Point → Point
  -- `VarTimeDoubleScalarBaseMult(a, A, b)`: a times the point A and b times the base point
  pub double_scalar_base_mult : Scalar → Point → Scalar → Point

-- Its documented behaviour. A scalar has a value below the order; a point may represent a multiple of
-- the base point, in many ways with the same bytes, and the multiple counts modulo the order.
pub record IsEdwards25519 (e : Edwards25519) : Type 1 where
  pub order : ℕ
  pub value : e.Scalar → ℕ
  pub Represents : e.Point → ℕ → Type 0
  pub length-sha512 : (xs : Bytes) → length (e.sha512 xs) ≡ 64
  pub set_bytes_lem : (xs : Bytes) → length xs ≡ 32 → (s : e.Scalar) × (e.set_bytes xs ≡ ok s)
  pub clamping_lem :
      (xs : Bytes) → length xs ≡ 32 → (s : e.Scalar) × (e.set_bytes_with_clamping xs ≡ ok s)
  pub uniform_lem : (xs : Bytes) → length xs ≡ 64 → (s : e.Scalar) × (e.set_uniform_bytes xs ≡ ok s)
  pub canonical_lem : (s : e.Scalar) → e.set_canonical_bytes (e.scalar_bytes s) ≡ ok s
  pub length-scalar_bytes : (s : e.Scalar) → length (e.scalar_bytes s) ≡ 32
  -- The order is below the power of two with exponent 253.
  pub scalar_bytes-top :
      (s : e.Scalar) → (b : ℕ) × ((get_elem? (e.scalar_bytes s) 31 ≡ some b) × (b < 32))
  pub value-multiply : (x y : e.Scalar) → value (e.multiply x y) ≡ value x * value y % order
  pub value-multiply_add :
      (x y z : e.Scalar) → value (e.multiply_add x y z) ≡ (value x * value y + value z) % order
  pub inverse_lem :
      (s : e.Scalar)
      → 0 < value s
      → (t : e.Scalar) × ((e.mod_inverse s ≡ ok t) × (value s * value t % order ≡ 1))
  pub length-point_bytes : (p : e.Point) → length (e.point_bytes p) ≡ 32
  pub point_lem :
      (p : e.Point) (d : ℕ)
      → Represents p d
      → (q : e.Point) × ((e.point (e.point_bytes p) ≡ ok q) × Represents q d)
  pub same_bytes :
      (p q : e.Point) (d : ℕ) → Represents p d → Represents q d → e.point_bytes p ≡ e.point_bytes q
  pub congruent : (p : e.Point) (j k : ℕ) → j % order ≡ k % order → Represents p j → Represents p k
  pub base_lem : (s : e.Scalar) → Represents (e.scalar_base_mult s) (value s)
  pub mult_lem :
      (s : e.Scalar) (p : e.Point) (d : ℕ)
      → Represents p d
      → Represents (e.scalar_mult s p) (d * value s)
  -- The second multiple less the first.
  pub difference_lem :
      (a b : e.Scalar) (p : e.Point) (d m : ℕ)
      → Represents p d
      → (m + value a * d) % order ≡ value b % order
      → Represents (e.double_scalar_base_mult a (e.negate p) b) m
