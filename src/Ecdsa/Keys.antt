-- ===== src/Ecdsa/Keys.antt =====
-- ecdsa/ecdsa.go: the keys, how they are compared, made and drawn.
use pat_go.Base.{
  ◌==◌, ℕ, zero, suc, ◌+◌, ◌/◌, ◌%◌, ◌&&◌, Bool, false, Option, none, some, Bytes, Outcome, ok,
  panic, ◌>>=◌,
}
use pat_go.Ecdsa.{big_endian}
use pat_go.Ecdsa.Big.{int_bytes}
use pat_go.Ecdsa.Curve.{Curve, Affine, Reader}

pub record PublicKey : Type 0 where
  pub curve : Curve
  pub x : ℕ
  pub y : ℕ

pub record PrivateKey : Type 0 where
  pub public : PublicKey
  pub d : ℕ

abbrev pub key_at : Curve → Affine → PublicKey
key_at c (x, y) = record { curve = c; x = x; y = y }

abbrev pub point : PublicKey → Affine
point key = (key.x, key.y)

-- The argument of `Equal` is `none` where it has another type.
unfoldable pub public_equal : PublicKey → Option PublicKey → Bool
public_equal key none = false
public_equal key (some other) =
    key.x == other.x && (key.y == other.y && key.curve.id == other.curve.id)

unfoldable pub private_equal : PrivateKey → Option PrivateKey → Bool
private_equal key none = false
private_equal key (some other) = public_equal key.public (some other.public) && key.d == other.d

-- A number modulo one less than the order, and one; `Mod` panics where that modulus is zero, and takes
-- its absolute value where it is negative.
abbrev pub field_element : ℕ → ℕ → Outcome ℕ
field_element zero k = ok (k % 1 + 1)
field_element (suc zero) k = panic
field_element (suc (suc n)) k = ok (k % suc n + 1)

unfoldable pub rand_field_element : (rd : Reader) → Curve → rd.Source → Outcome (ℕ × rd.Source)
rand_field_element rd c source = do
  (b, rest) ← rd.read_full source (c.bit_size / 8 + 8)
  k ← field_element c.order (big_endian 0 b)
  ok (k, rest)

unfoldable pub create_key : Curve → Bytes → Outcome PrivateKey
create_key c encoded =
    ok (record { public = key_at c (c.scalar_base_mult encoded); d = big_endian 0 encoded })

unfoldable pub generate_key : (rd : Reader) → Curve → rd.Source → Outcome (PrivateKey × rd.Source)
generate_key rd c source = do
  (k, rest) ← rand_field_element rd c source
  ok (record { public = key_at c (c.scalar_base_mult (int_bytes k)); d = k }, rest)
