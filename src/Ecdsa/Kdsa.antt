-- ===== src/Ecdsa/Kdsa.antt =====
-- ecdsa/ecdsa_s390x.go: signing and verifying by the instruction KDSA, where the machine has it. What
-- the instruction does is a parameter: from a function code and a parameter block to a condition code
-- and the block that it leaves.
pub mod Digests
pub mod Blocks
pub mod Verification
pub mod Signatures
use pat_go.Base.{
  ◌==◌, leb, if◌then◌else◌, ℕ, zero, suc, ◌+◌, ◌-◌, ◌*◌, Bool, ◌||◌, not, Option, none, some, ◌++◌,
  Bytes, bytes_equal, length, take, drop, replicate, Outcome, ok, err, panic, ◌>>=◌,
}
use pat_go.Base.Strings.{codes}
use pat_go.Ecdsa.{big_endian, fill_bytes}
use pat_go.Ecdsa.Big.{bit_len}
use pat_go.Ecdsa.Curve.{Curve, Reader}
use pat_go.Ecdsa.Keys.{PublicKey, PrivateKey, rand_field_element}
use pat_go.Ecdsa.Signing.{Signature, hash_to_int, on_ok, sign_generic}
use pat_go.Ecdsa.Verifying.{verify_generic}

abbrev pub Instruction : Type 0
Instruction = ℕ → Bytes → ℕ × Bytes

-- The function code and the block size of a curve, given whether a test has disabled the instruction
-- and whether the processor has it.
unfoldable pub can_use_kdsa : Bool → Bool → Curve → Option (ℕ × ℕ)
can_use_kdsa disabled has_ecdsa c =
    if disabled
    then none
    else if not has_ecdsa
    then none
    else if bytes_equal c.name (codes "P-256")
    then some (1, 32)
    else if bytes_equal c.name (codes "P-384")
    then some (2, 48)
    else if bytes_equal c.name (codes "P-521")
    then some (3, 80)
    else none

-- What is written into a destination of `l` bytes.
unfoldable pub hash_to_bytes : ℕ → Bytes → Curve → Outcome Bytes
hash_to_bytes l hash c =
    let slow = fill_bytes l (hash_to_int hash c) in
    if bit_len c.order == l * 8
    then if leb l (length hash)
      then ok (take l hash)
      else ok (replicate (l - length hash) 0 ++ hash)
    else slow

-- A parameter block of 4096 bytes: five parts of `size` bytes each, and zeroes.
abbrev pub block : ℕ → Bytes → Bytes → Bytes → Bytes → Bytes → Bytes
block size p0 p1 p2 p3 p4 = p0 ++ (p1 ++ (p2 ++ (p3 ++ (p4 ++ replicate (4096 - 5 * size) 0))))

-- The number in a part of a block.
abbrev pub part : ℕ → ℕ → Bytes → ℕ
part size i params = big_endian 0 (take size (drop (i * size) params))

module _ (kdsa : Instruction) where
  -- What becomes of the condition code of a signature.
  abbrev pub on_code : ℕ → ℕ × Bytes → Option (Outcome Signature) → Option (Outcome Signature)
  on_code size (code, params) again =
      if code == 0
      then some (ok (part size 0 params, part size 1 params))
      else if code == 1
      then some (err "zero parameter")
      else if code == 2
      then again
      else some panic

  abbrev pub sign_params : ℕ → PrivateKey → Curve → Bytes → ℕ → Outcome Bytes
  sign_params size key c hash k = do
    z ← hash_to_bytes size hash c
    d_enc ← fill_bytes size key.d
    k_enc ← fill_bytes size k
    ok (block size (replicate size 0) (replicate size 0) z d_enc k_enc)

  unfoldable pub sign_kdsa :
      (csprng : Reader)
      → ℕ
      → ℕ
      → ℕ
      → PrivateKey
      → csprng.Source
      → Curve
      → Bytes
      → Option (Outcome Signature)
  sign_kdsa csprng function_code size zero key source c hash = none
  sign_kdsa csprng function_code size (suc fuel) key source c hash =
      let again =
        λ (rest : csprng.Source). sign_kdsa csprng function_code size fuel key rest c hash in
      on_ok (rand_field_element csprng c source) λ (k, rest).
        on_ok (sign_params size key c hash k)
          λ params. on_code size (kdsa (function_code + 136) params) (again rest)

  unfoldable pub sign_s390x :
      (csprng : Reader)
      → Bool
      → Bool
      → ℕ
      → PrivateKey
      → csprng.Source
      → Curve
      → Bytes
      → Option (Outcome Signature)
  sign_s390x csprng disabled has_ecdsa fuel key source c hash =
      elim (can_use_kdsa disabled has_ecdsa c) [
        | some (function_code, size) ↦ sign_kdsa csprng function_code size fuel key source c hash
        | none ↦ sign_generic csprng fuel key source c hash
      ]

  unfoldable pub verify_kdsa : ℕ → ℕ → PublicKey → Curve → Bytes → ℕ → ℕ → Outcome Bool
  verify_kdsa function_code size key c hash r s = do
    r_enc ← fill_bytes size r
    s_enc ← fill_bytes size s
    z ← hash_to_bytes size hash c
    x_enc ← fill_bytes size key.x
    y_enc ← fill_bytes size key.y
    ok ((kdsa function_code (block size r_enc s_enc z x_enc y_enc)).0 == 0)

  unfoldable pub verify_s390x : Bool → Bool → PublicKey → Curve → Bytes → ℕ → ℕ → Outcome Bool
  verify_s390x disabled has_ecdsa key c hash r s = elim (can_use_kdsa disabled has_ecdsa c) [
    | some (function_code, size) ↦ verify_kdsa function_code size key c hash r s
    | none ↦ verify_generic key c hash r s
  ]
