-- ===== src/Ed25519/Signing.antt =====
-- ed25519/ed25519.go: signing, signing with a blinded key, and verifying.
use pat_go.Base.{
  ◌==◌, ◌/◌, ◌%◌, ℕ, Bool, leb, false, if◌then◌else◌, [], ◌++◌, Bytes, bytes_equal, length, take,
  drop, get_elem?, Outcome, ok, err, panic, ◌>>=◌, no_error, or_panic,
}
use pat_go.Base.Chunks.{fit}
use pat_go.Ed25519.{Edwards25519}
use pat_go.Ed25519.Keys.{require, blind_digest, blind_scalar}

-- `if err != nil { return false }`
abbrev pub or_false {ℓ} : {A : Type ℓ} → Outcome A → (A → Outcome Bool) → Outcome Bool
or_false panic next = panic
or_false (err message) next = ok false
or_false (ok a) next = next a

-- A signature of a wrong length, or with one of the three highest bits of its last byte set, is refused
-- at once: `len(sig) != SignatureSize || sig[63]&224 != 0`. A byte that is not there panics.
abbrev pub plausible : Bytes → Outcome Bool
plausible sig =
    let low = or_panic (get_elem? sig 63) >>= λ top. ok (top / 32 % 8 == 0) in
    if length sig == 64 then low else ok false

module _ (e : Edwards25519) where
  unfoldable pub sign_internal : Bytes → Bytes → Bytes → e.Scalar → Outcome Bytes
  sign_internal public_key message prefix s = do
    r ← e.set_uniform_bytes (e.sha512 (prefix ++ message))
    let commitment = e.point_bytes (e.scalar_base_mult r)
    k ← e.set_uniform_bytes (e.sha512 (commitment ++ public_key ++ message))
    ok (fit 32 commitment ++ fit 32 (e.scalar_bytes (e.multiply_add k s r)))

  unfoldable pub sign : Bytes → Bytes → Outcome Bytes
  sign private_key message = do
    _ ← require (length private_key == 64)
    let h = e.sha512 (take 32 private_key)
    s ← e.set_bytes_with_clamping (take 32 h)
    sign_internal (drop 32 private_key) message (drop 32 h) s

  -- The method `Sign` of a private key: `opts` says which hash function was applied, zero for none.
  unfoldable pub sign_unhashed : Bytes → Bytes → ℕ → Outcome Bytes
  sign_unhashed private_key message hash_func =
      let signed = sign private_key message in
      if hash_func == 0 then signed else err "ed25519: cannot sign hashed message"

  unfoldable pub blind_key_sign_with_context : Bytes → Bytes → Bytes → Bytes → Outcome Bytes
  blind_key_sign_with_context private_key message blind ctx = do
    _ ← require (length private_key == 64)
    _ ← require (length blind == 32)
    r ← blind_scalar e blind ctx
    let h = e.sha512 (take 32 private_key)
    k ← e.set_bytes_with_clamping (take 32 h)
    a ← no_error (e.point (drop 32 private_key))
    sign_internal (e.point_bytes (e.scalar_mult r a)) message
        (drop 32 h ++ drop 32 (blind_digest e blind ctx)) (e.multiply k r)

  abbrev pub blind_key_sign : Bytes → Bytes → Bytes → Outcome Bytes
  blind_key_sign private_key message blind =
      blind_key_sign_with_context private_key message blind []

  -- The equation that verifying checks. The slices `sig[:32]` and `sig[32:]` panic on a shorter signature.
  unfoldable pub verify_equation : Bytes → Bytes → Bytes → Outcome Bool
  verify_equation public_key message sig = or_false (e.point public_key) λ a. do
    _ ← require (leb 32 (length sig))
    k ← e.set_uniform_bytes (e.sha512 (take 32 sig ++ public_key ++ message))
    or_false (e.set_canonical_bytes (drop 32 sig)) λ s.
        ok (bytes_equal (take 32 sig) (e.point_bytes (e.double_scalar_base_mult k (e.negate a) s)))

  unfoldable pub verify : Bytes → Bytes → Bytes → Outcome Bool
  verify public_key message sig = do
    _ ← require (length public_key == 32)
    let equation = verify_equation public_key message sig
    good ← plausible sig
    if good then equation else ok false
