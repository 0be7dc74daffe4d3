-- ===== src/Runs/Ed25519.antt =====
-- Runs of the package ed25519 on a toy group.
use pat_go.Base.{
  ◌≡◌, ◌≢◌, ◌<◌, ◌*◌, ◌%◌, ap, ◌∙◌, Bool, ◌++◌, true, false, ℕ, ◌/◌, some, [], ◌∷◌, Bytes, length,
  drop, replicate, bytes_equal, get_elem?, ok, panic, err, refl, ◌>>=◌,
}
use pat_go.Ed25519.Keys.{
  new_key_from_seed, blind_scalar, blind_public_key_with_context, unblind_public_key_with_context,
}
use pat_go.Ed25519.Signing.{
  sign_internal, sign, sign_unhashed, blind_key_sign_with_context, verify, verify_equation,
}
use pat_go.Ed25519.BlindSignatures.{
  verify-sign, verify-blind_key_sign_with_context, unblind-blind_public_key,
}
use pat_go.Ed25519.Rejection.{verify-answers}
use pat_go.Ed25519.Scalars.{
  to_le, value, order, mod_inverse, set_bytes, order_fits, order_positive, to_le-to_le,
  length-to_le, Reduces, set_bytes-mod_inverse,
}
use native.Mathlib.Nat.{mod-lt, lt_trans}
use pat_go.Ecdsa.{big_endian, digits}
use pat_go.Ecdsa.Big.{length-digits, big_endian-digits}
use pat_go.Ed25519.ToyGroup.{group, group-IsEdwards25519, true-Represents, true_positive}

abbrev a_seed : Bytes
a_seed = 1 ∷ replicate 31 0

abbrev a_blind : Bytes
a_blind = 4 ∷ replicate 31 0

verify-sign_example :
    (key : Bytes) × ((sig : Bytes) × ((new_key_from_seed group a_seed ≡ ok key)
        × ((sign group key (7 ∷ []) ≡ ok sig)
            × (verify group (drop 32 key) (7 ∷ []) sig ≡ ok true))))
verify-sign_example = verify-sign group group-IsEdwards25519 a_seed (7 ∷ []) refl

verify-blind_key_sign_with_context_example :
    (key : Bytes) × ((sig : Bytes) × ((blinded : Bytes) × ((new_key_from_seed group a_seed ≡ ok key)
          × ((blind_key_sign_with_context group key (7 ∷ []) a_blind (1 ∷ []) ≡ ok sig)
              × ((blind_public_key_with_context group (drop 32 key) a_blind (1 ∷ []) ≡ ok blinded)
                  × (verify group blinded (7 ∷ []) sig ≡ ok true))))))
verify-blind_key_sign_with_context_example =
    verify-blind_key_sign_with_context group group-IsEdwards25519 a_seed (7 ∷ []) a_blind (1 ∷ [])
      refl refl

abbrev a_key : Bytes
a_key = 1 ∷ replicate 31 0

blinded_scalar : blind_scalar group a_blind (1 ∷ []) ≡ ok true
blinded_scalar = refl

unblind-blind_public_key_example :
    (blind_public_key_with_context group a_key a_blind (1 ∷ []) >>= λ blinded.
    unblind_public_key_with_context group blinded a_blind (1 ∷ []))
    ≡ ok a_key
unblind-blind_public_key_example =
    unblind-blind_public_key group group-IsEdwards25519 true 1 a_blind (1 ∷ []) true true-Represents
      blinded_scalar true_positive

-- A key and its signature of a message.
abbrev a_signature : Bytes
a_signature = 1 ∷ replicate 31 0 ++ 0 ∷ replicate 31 0

made : new_key_from_seed group a_seed ≡ ok (a_seed ++ a_key)
unfolding new_key_from_seed
made = refl

signed : sign group (a_seed ++ a_key) (7 ∷ []) ≡ ok a_signature
unfolding sign sign_internal
signed = refl

short : sign group a_seed (7 ∷ []) ≡ panic
unfolding sign
short = refl

hashed :
    sign_unhashed group (a_seed ++ a_key) (7 ∷ []) 5 ≡ err "ed25519: cannot sign hashed message"
unfolding sign_unhashed
hashed = refl

accepted : verify group a_key (7 ∷ []) a_signature ≡ ok true
unfolding verify verify_equation bytes_equal
accepted = refl

-- A signature that is too short is refused.
abbrev half_signature : Bytes
half_signature = 1 ∷ replicate 31 0

too_short : verify group a_key (7 ∷ []) half_signature ≡ ok false
unfolding verify verify_equation
too_short = refl

abbrev Answers : Bytes → Type 0
Answers sig =
    (b : Bool) × ((verify group a_key (7 ∷ []) sig ≡ ok b)
      × (b ≡ true
          → (length sig ≡ 64) × ((top : ℕ) × ((get_elem? sig 63 ≡ some top) × (top / 32 % 8 ≡ 0)))))

decodes : (xs : Bytes) → length xs ≡ 32 → group.point xs ≢ panic
decodes [] sized e = cc
decodes (x ∷ xs) sized e = cc

verify-answers_example : Answers a_signature
verify-answers_example =
    verify-answers group group-IsEdwards25519 decodes decodes a_key (7 ∷ []) a_signature refl

abbrev reduce : Bytes → Bytes
reduce wide = to_le (digits 32 (value wide % order))

reduce-Reduces : Reduces reduce
reduce-Reduces = record {
  reduce_length = λ wide sized.
      length-to_le (digits 32 (value wide % order)) ∙ length-digits 32 (value wide % order);
  reduce_value = λ wide sized.
      ap (big_endian 0) (to_le-to_le (digits 32 (value wide % order)))
      ∙ big_endian-digits 32 (value wide % order)
          (lt_trans (mod-lt (value wide) order_positive) order_fits);
}

-- The number two, of which half of the order is the inverse.
abbrev two : Bytes
two = 2 ∷ replicate 31 0

half_order :
    value two * 3618502788666131106986593281521497120428558179689953803000975469142727125495 % order
    ≡ 1
unfolding order to_le
half_order = refl

set_bytes-mod_inverse_example :
    (t : Bytes) × ((set_bytes reduce two >>= λ s. mod_inverse s) ≡ ok t)
    × (length t ≡ 32)
    × (value t < order)
    × (value two * value t % order ≡ 1)
set_bytes-mod_inverse_example =
    set_bytes-mod_inverse reduce reduce-Reduces two refl
      3618502788666131106986593281521497120428558179689953803000975469142727125495 half_order
