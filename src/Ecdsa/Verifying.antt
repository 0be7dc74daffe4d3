-- ===== src/Ecdsa/Verifying.antt =====
-- ecdsa/ecdsa.go and ecdsa/ecdsa_noasm.go: verifying.
use pat_go.Base.{
  ◌==◌, leb, if◌then◌else◌, ℕ, ◌*◌, ◌%◌, Bool, false, ◌&&◌, ◌||◌, none, some, Bytes, Outcome, ok,
  ◌>>=◌, or_panic,
}
use pat_go.Ecdsa.Big.{ℤ, pos, negsuc, int_bytes, mod_inverse}
use pat_go.Ecdsa.Curve.{Curve, Affine}
use pat_go.Ecdsa.Keys.{PublicKey, point}
use pat_go.Ecdsa.Signing.{hash_to_int}

-- A method of a nil number panics.
abbrev pub response_inverse : Curve → ℕ → Outcome ℕ
response_inverse c s = elim c.inverse [
  | some inverse ↦ ok (inverse s)
  | none ↦ or_panic (mod_inverse s c.order)
]

-- A multiple of the base point and one of another, added up.
abbrev pub combine : Curve → Affine → Bytes → Bytes → Affine
combine c p base_scalar scalar = elim c.combined_mult [
  | some combined ↦ combined p base_scalar scalar
  | none ↦ c.add (c.scalar_base_mult base_scalar) (c.scalar_mult p scalar)
]

abbrev pub compare_point : Curve → Affine → ℕ → Bool
compare_point c (x, y) r = if x == 0 && y == 0 then false else x % c.order == r

unfoldable pub verify_generic : PublicKey → Curve → Bytes → ℕ → ℕ → Outcome Bool
verify_generic key c hash r s = do
  w ← response_inverse c s
  let u1 = hash_to_int hash c * w % c.order
  let u2 = r * w % c.order
  ok (compare_point c (combine c (point key) (int_bytes u1) (int_bytes u2)) r)

unfoldable pub verify : PublicKey → Bytes → ℤ → ℤ → Outcome Bool
verify key hash (negsuc r) s = ok false
verify key hash (pos r) (negsuc s) = ok false
verify key hash (pos r) (pos s) =
    let n = key.curve.order in
    let checked = verify_generic key key.curve hash r s in
    if r == 0 || s == 0 then ok false else if leb n r || leb n s then ok false else checked
