-- ===== src/Ecdsa/Kdsa/Verification.antt =====
-- The implementation for s390x verifies as the generic one does.
use pat_go.Base.{◌≡◌, ◌*◌, ◌^◌, ◌<◌, ◌≤◌, ℕ, Bytes, IsBytes, ok, subst, ◌∙◌}
use native.Mathlib.Nat.{pow-le-pow_right, zero-lt-suc, lt_of_lt_of_le}
use pat_go.Ecdsa.{digits}
use pat_go.Ecdsa.Big.{bit_len, pow_octets, fill_bytes-fits}
use pat_go.Ecdsa.Curve.{Curve, IsCurve}
use pat_go.Ecdsa.Keys.{PublicKey}
use pat_go.Ecdsa.Rejection.{hash_to_int-bounds}
use pat_go.Ecdsa.Signing.{hash_to_int}
use pat_go.Ecdsa.Kdsa.{Instruction, hash_to_bytes, block}
use pat_go.Ecdsa.Kdsa.Digests.{hash_to_bytes-fill_bytes}
use pat_go.Ecdsa.Kdsa.Blocks.{IsKdsa}

-- The order of a curve fits a part of a block.
pub record Fits (c : Curve) (size : ℕ) : Type 0 where
  pub order_fits : c.order ≤ 256 ^ size
  pub bits_fit : bit_len c.order ≤ 8 * size

module _ (c : Curve) (size : ℕ) (fits : Fits c size) (hash : Bytes) (bytes : IsBytes hash) where
  pub digest_fits : hash_to_int hash c < 256 ^ size
  digest_fits =
      subst (λ t. hash_to_int hash c < t) (pow_octets size)
        (lt_of_lt_of_le (hash_to_int-bounds hash c bytes)
          (pow-le-pow_right {n = 2} (zero-lt-suc 1) fits.bits_fit))

  pub digest_written : hash_to_bytes size hash c ≡ ok (digits size (hash_to_int hash c))
  digest_written =
      hash_to_bytes-fill_bytes size hash c bytes
      ∙ fill_bytes-fits size (hash_to_int hash c) digest_fits

  module _ (kdsa : Instruction) (function_code : ℕ) (laws : IsKdsa kdsa c function_code size)
      (group : IsCurve c) where
    abbrev verify_block : PublicKey → ℕ → ℕ → Bytes
    verify_block key r s =
        block size (digits size r) (digits size s) (digits size (hash_to_int hash c))
          (digits size key.x) (digits size key.y)
