-- ===== src/Ecdsa/Kdsa/Blocks.antt =====
-- The numbers in a parameter block, and what the instruction does with them.
use pat_go.Base.{
  ◌≡◌, ◌==◌, ◌+◌, ◌*◌, ◌%◌, ◌-◌, ◌<◌, if◌then◌else◌, ℕ, suc, Bool, [], ◌∷◌, ◌++◌, Bytes, length,
  take, drop, replicate, Outcome, ok, ◌>>=◌, arith, ap, ◌∙◌,
}
use pat_go.Base.Chunks.{take-length}
use pat_go.Ecdsa.{big_endian}
use pat_go.Ecdsa.Big.{int_bytes}
use pat_go.Ecdsa.Curve.{Curve, Affine}
use pat_go.Ecdsa.Signing.{nonce_inverse}
use pat_go.Ecdsa.Verifying.{response_inverse, combine, compare_point}
use pat_go.Ecdsa.Kdsa.{Instruction, block, part}

drop-onto : (n : ℕ) (xs ys : Bytes) → drop (length xs + n) (xs ++ ys) ≡ drop n ys
drop-onto n [] ys = let none_more : 0 + n ≡ n = omega arith in ap (λ m. drop m ys) none_more
drop-onto n (x ∷ xs) ys =
    let one_more : suc (length xs) + n ≡ suc (length xs + n) = omega arith in
    ap (λ m. drop m (x ∷ (xs ++ ys))) one_more ∙ drop-onto n xs ys

pub part-first :
    (size : ℕ) (xs ys : Bytes) → length xs ≡ size → part size 0 (xs ++ ys) ≡ big_endian 0 xs
part-first size xs ys sized =
    let start : 0 * size ≡ 0 = omega arith in
    ap (λ n. big_endian 0 (take size (drop n (xs ++ ys)))) start
    ∙ ap (big_endian 0) (take-length size xs ys sized)

pub part-next :
    (size i : ℕ) (xs ys : Bytes) → length xs ≡ size → part size (suc i) (xs ++ ys) ≡ part size i ys
part-next size i xs ys sized =
    let further : suc i * size ≡ length xs + i * size = omega (arith, sized) in
    ap (λ n. big_endian 0 (take size (drop n (xs ++ ys)))) further
    ∙ ap (λ zs. big_endian 0 (take size zs)) (drop-onto (i * size) xs ys)

-- A block holds the numbers of its parts.
pub block-parts :
    (size : ℕ) (p0 p1 p2 p3 p4 : Bytes)
    → length p0 ≡ size
    → length p1 ≡ size
    → length p2 ≡ size
    → length p3 ≡ size
    → length p4 ≡ size
    → let params = block size p0 p1 p2 p3 p4 in
      (part size 0 params ≡ big_endian 0 p0)
      × (part size 1 params ≡ big_endian 0 p1)
      × (part size 2 params ≡ big_endian 0 p2)
      × (part size 3 params ≡ big_endian 0 p3)
      × (part size 4 params ≡ big_endian 0 p4)
block-parts size p0 p1 p2 p3 p4 h0 h1 h2 h3 h4 =
    let q4 = p4 ++ replicate (4096 - 5 * size) 0 in
    let q3 = p3 ++ q4 in
    let q2 = p2 ++ q3 in
    let q1 = p1 ++ q2 in
    (
      part-first size p0 q1 h0,
      part-next size 0 p0 q1 h0 ∙ part-first size p1 q2 h1,
      part-next size 1 p0 q1 h0 ∙ part-next size 0 p1 q2 h1 ∙ part-first size p2 q3 h2,
      part-next size 2 p0 q1 h0
          ∙ part-next size 1 p1 q2 h1
          ∙ part-next size 0 p2 q3 h2
          ∙ part-first size p3 q4 h3,
      part-next size 3 p0 q1 h0
          ∙ part-next size 2 p1 q2 h1
          ∙ part-next size 1 p2 q3 h2
          ∙ part-next size 0 p3 q4 h3
          ∙ part-first size p4 (replicate (4096 - 5 * size) 0) h4,
    )

-- The equations of ECDSA on numbers: the point of the key, the digest, and the two halves.
abbrev pub verify_numbers : Curve → Affine → ℕ → ℕ → ℕ → Outcome Bool
verify_numbers c p e r s = do
  w ← response_inverse c s
  ok (compare_point c (combine c p (int_bytes (e * w % c.order)) (int_bytes (r * w % c.order))) r)

abbrev pub commit_number : Curve → ℕ → ℕ
commit_number c k = (c.scalar_base_mult (int_bytes k)).0 % c.order

abbrev pub respond_number : Curve → ℕ → ℕ → ℕ → ℕ
respond_number c d e k = (d * commit_number c k + e) * nonce_inverse c k % c.order

-- What the instruction is documented to do for a curve, its function code and its block size. It
-- verifies the numbers of a block; and with the code for a signature it makes one of the digest, the key
-- and the nonce, with code 1 for a key of zero and with code 2 for a nonce that does not serve.
pub record IsKdsa (kdsa : Instruction) (c : Curve) (function_code size : ℕ) : Type 0 where
  pub verifies :
      (params : Bytes) (valid : Bool)
      → verify_numbers c
          (part size 3 params, part size 4 params)
          (part size 2 params)
          (part size 0 params)
          (part size 1 params)
        ≡ ok valid
      → ((kdsa function_code params).0 == 0) ≡ valid
  pub signs_zero :
      (params : Bytes) → part size 3 params ≡ 0 → (kdsa (function_code + 136) params).0 ≡ 1
  pub signs_code :
      (params : Bytes)
      → 0 < part size 3 params
      → part size 3 params < c.order
      → 0 < part size 4 params
      → part size 4 params < c.order
      → (kdsa (function_code + 136) params).0 ≡ (
          if commit_number c (part size 4 params) == 0
          then 2
          else if respond_number c (part size 3 params) (part size 2 params) (part size 4 params)
              == 0
          then 2
          else 0)
  pub signs :
      (params : Bytes)
      → 0 < part size 3 params
      → part size 3 params < c.order
      → 0 < part size 4 params
      → part size 4 params < c.order
      → (kdsa (function_code + 136) params).0 ≡ 0
      → let out = (kdsa (function_code + 136) params).1 in
        (part size 0 out ≡ commit_number c (part size 4 params))
        × (part size 1 out
            ≡ respond_number c (part size 3 params) (part size 2 params) (part size 4 params))
