-- ===== src/Ed25519/Keys.antt =====
-- ed25519/ed25519.go: keys, which are byte strings, how they are made, and how public keys are blinded.
use pat_go.Base.{
  ◌==◌, Bool, true, false, Option, none, some, [], ◌∷◌, ◌++◌, Bytes, bytes_equal, length, take,
  drop, slice_to, Outcome, ok, panic, ◌>>=◌, or_panic,
}
use pat_go.Base.Chunks.{fit}
use pat_go.Ecdsa.Curve.{Reader}
use pat_go.Ed25519.{Edwards25519}

-- `panic` where a check fails.
abbrev pub require : Bool → Outcome (Unit {0})
require true = ok tt
require false = panic

-- `Equal` of public keys and of private keys; the argument is `none` where it has another type.
unfoldable pub equal : Bytes → Option Bytes → Bool
equal key none = false
equal key (some other) = bytes_equal key other

-- A slice from 32 on, or to 32, is out of range in a shorter key.
unfoldable pub public : Bytes → Outcome Bytes
public key = do _ ← or_panic (slice_to 32 key); ok (fit 32 (drop 32 key))

unfoldable pub seed : Bytes → Outcome Bytes
seed key = do first ← or_panic (slice_to 32 key); ok (fit 32 first)

module _ (e : Edwards25519) where
  unfoldable pub new_key_from_seed : Bytes → Outcome Bytes
  new_key_from_seed seed = do
    _ ← require (length seed == 32)
    s ← e.set_bytes_with_clamping (take 32 (e.sha512 seed))
    ok (seed ++ fit 32 (e.point_bytes (e.scalar_base_mult s)))

  -- The reader is the caller's, or `crypto/rand.Reader` where that is nil.
  unfoldable pub generate_key : (rd : Reader) → rd.Source → Outcome (Bytes × Bytes)
  generate_key rd source = do
    (seed, _) ← rd.read_full source 32
    key ← new_key_from_seed seed
    ok (fit 32 (drop 32 key), key)

  -- The digest that blinds, of the blind, a zero and the context.
  abbrev pub blind_digest : Bytes → Bytes → Bytes
  blind_digest blind ctx = e.sha512 (blind ++ 0 ∷ [] ++ ctx)

  abbrev pub blind_scalar : Bytes → Bytes → Outcome e.Scalar
  blind_scalar blind ctx = e.set_bytes (take 32 (blind_digest blind ctx))

  unfoldable pub blind_public_key_with_context : Bytes → Bytes → Bytes → Outcome Bytes
  blind_public_key_with_context key blind ctx = do
    r ← blind_scalar blind ctx
    p ← e.point key
    ok (e.point_bytes (e.scalar_mult r p))

  abbrev pub blind_public_key : Bytes → Bytes → Outcome Bytes
  blind_public_key key blind = blind_public_key_with_context key blind []

  unfoldable pub unblind_public_key_with_context : Bytes → Bytes → Bytes → Outcome Bytes
  unblind_public_key_with_context key blind ctx = do
    r ← blind_scalar blind ctx
    inverse ← e.mod_inverse r
    p ← e.point key
    ok (e.point_bytes (e.scalar_mult inverse p))

  abbrev pub unblind_public_key : Bytes → Bytes → Outcome Bytes
  unblind_public_key key blind = unblind_public_key_with_context key blind []
