-- ===== src/TokenKeys/Hexadecimal.antt =====
-- util/codec.go: the helpers for hexadecimal texts, with encoding/hex as an interface.
use Prim.Native.String.{String, ◌++◌}
use pat_go.Base.{◌≡◌, Bool, Option, none, some, Bytes, if◌then◌else◌}

-- `hex.DecodeString`, which returns bytes and an error, and `hex.EncodeToString`.
pub record Hex : Type 0 where
  pub decode_string : String → Bytes × Option String
  pub encode_to_string : Bytes → String

-- How a helper ends: it returns, it ends the test that it was given, or it panics.
pub data Ended {ℓ} (A : Type ℓ) : Type ℓ where
  returned : A → Ended A
  fatal : String → Ended A
  panicked : String → Ended A

-- The test is there or nil; `msg` stands before the error.
unfoldable fatal_on_error : Bool → Option String → String → Ended (Unit {0})
fatal_on_error t none msg = returned tt
fatal_on_error t (some e) msg =
    let real_msg = msg ++ ": " ++ e in if t then fatal real_msg else panicked real_msg

module _ (hx : Hex) where
  unfoldable must_unhex : Bool → String → Ended Bytes
  must_unhex t h =
      let (out, error) = hx.decode_string h in
      elim (fatal_on_error t error "Unhex failed") [
        | returned _ ↦ returned out
        | fatal msg ↦ fatal msg
        | panicked msg ↦ panicked msg
      ]

  abbrev must_hex : Bytes → String
  must_hex d = hx.encode_to_string d

  -- A text that was encoded is decoded, with a test and without.
  must_unhex-must_hex :
      ((d : Bytes) → hx.decode_string (hx.encode_to_string d) ≡ (d, none))
      → (t : Bool) (d : Bytes) → must_unhex t (must_hex d) ≡ returned d
  unfolding must_unhex fatal_on_error
  must_unhex-must_hex reads t d = simp (reads d, must_unhex)
