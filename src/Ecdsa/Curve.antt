-- ===== src/Ecdsa/Curve.antt =====
-- The libraries that the package ecdsa is built on, as interfaces: crypto/elliptic, the hashing to a
-- field of circl, io.Reader, and the ciphers of the generator of nonces.
use pat_go.Base.{
  ◌≡◌, ◌≢◌, ◌%◌, ◌*◌, ◌+◌, ◌-◌, ◌^◌, ◌<◌, ℕ, Option, some, Bytes, Outcome, ap, sym, ◌∙◌,
}
use pat_go.Ecdsa.{big_endian}
use pat_go.Ecdsa.Big.{int_bytes, big_endian-int_bytes}

-- The coordinates of a point; those of the point at infinity are both zero.
abbrev pub Affine : Type 0
Affine = ℕ × ℕ

-- A curve and its parameters. `==` on two curves compares their `id`.
pub record Curve : Type 0 where
  pub id : ℕ
  pub name : Bytes
  pub order : ℕ
  pub bit_size : ℕ
  pub scalar_base_mult : Bytes → Affine
  pub scalar_mult : Affine → Bytes → Affine
  pub add : Affine → Affine → Affine
  -- The optional interfaces `invertible` and `combinedMult`.
  pub inverse : Option (ℕ → ℕ)
  pub combined_mult : Option (Affine → Bytes → Bytes → Affine)

-- The multiple of the base point by a number.
abbrev pub multiple : Curve → ℕ → Affine
multiple c k = c.scalar_base_mult (int_bytes k)

-- The documented behaviour of a curve: the multiples of the base point are a group of prime order. The
-- order is prime in the form of Fermat's theorem: each number below it has its power for an inverse. On
-- the coordinates of a point that is none of these multiples the library's behaviour is undefined, and
-- nothing is said here of the operations of a `Curve` there.
pub record IsCurve (c : Curve) : Type 0 where
  pub order_large : 1 < c.order
  pub order_prime : (k : ℕ) → 0 < k → k < c.order → k * k ^ (c.order - 2) % c.order ≡ 1
  pub base : (k : Bytes) → c.scalar_base_mult k ≡ multiple c (big_endian 0 k % c.order)
  pub mult :
      (d : ℕ) (k : Bytes)
      → c.scalar_mult (multiple c d) k ≡ multiple c (d * big_endian 0 k % c.order)
  pub sum : (a b : ℕ) → c.add (multiple c a) (multiple c b) ≡ multiple c ((a + b) % c.order)
  pub finite : (k : ℕ) → 0 < k → k < c.order → multiple c k ≢ (0, 0)
  pub invertible :
      (inv : ℕ → ℕ) → c.inverse ≡ some inv → (k : ℕ) → 0 < k → k < c.order → k * inv k % c.order ≡ 1
  pub combined :
      (f : Affine → Bytes → Bytes → Affine)
      → c.combined_mult ≡ some f
      → (d : ℕ) (b k : Bytes)
      → f (multiple c d) b k ≡ multiple c ((big_endian 0 b + d * big_endian 0 k) % c.order)

pub multiple-reduced : (c : Curve) → IsCurve c → (k : ℕ) → multiple c k ≡ multiple c (k % c.order)
multiple-reduced c group k =
    group.base (int_bytes k) ∙ ap (λ t. multiple c (t % c.order)) (big_endian-int_bytes k)

pub multiple-congruent :
    (c : Curve) → IsCurve c → (j k : ℕ) → j % c.order ≡ k % c.order → multiple c j ≡ multiple c k
multiple-congruent c group j k e =
    multiple-reduced c group j ∙ ap (multiple c) e ∙ sym (multiple-reduced c group k)

-- Multiplying by a number's bytes multiplies by the number.
pub scalar_mult-multiple :
    (c : Curve)
    → IsCurve c
    → (d k : ℕ) → c.scalar_mult (multiple c d) (int_bytes k) ≡ multiple c (d * k)
scalar_mult-multiple c group d k =
    group.mult d (int_bytes k)
    ∙ ap (λ t. multiple c (d * t % c.order)) (big_endian-int_bytes k)
    ∙ sym (multiple-reduced c group (d * k))

-- `io.Reader`: `io.ReadFull`, and a `Read` of one byte whose outcome is ignored.
pub record Reader : Type 1 where
  pub Source : Type 0
  pub read_full : Source → ℕ → Outcome (Bytes × Source)
  pub read_byte : Source → Source

-- crypto/sha512, crypto/aes and crypto/cipher.
pub record Ciphers : Type 1 where
  pub Block : Type 0
  pub Stream : Type 0
  pub sha512 : Bytes → Bytes
  pub new_cipher : Bytes → Outcome Block
  pub new_ctr : Block → Bytes → Outcome Stream
  pub xor_key_stream : Stream → Bytes → Bytes × Stream

-- The hash functions that `hashBlind` chooses from.
pub data Hash : Type 0 where
  sha256 : Hash
  sha384 : Hash
  sha512 : Hash

-- `group.HashToField` with the expander of a hash function and a label: the input, the modulus and the
-- number of bytes expanded. A result is below the modulus.
abbrev pub HashToField : Type 0
HashToField = Hash → Bytes → Bytes → ℕ → ℕ → Outcome ℕ
