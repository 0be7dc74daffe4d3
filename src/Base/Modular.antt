-- ===== src/Base/Modular.antt =====
-- Arithmetic modulo a number: what the signatures of the packages ecdsa and ed25519 compute with.
use Prim.Native.Nat.{ℕ, ◌+◌, ◌*◌, ◌/◌, ◌%◌}
use mathlib.Core.Path.{◌≡◌, sym, ap, ◌∙◌}
use native.Mathlib.Nat.{
  mul_assoc, mul_comm, add-mul, div-add-mod, mul-add-mod_self_left, mod-add-mod, add-mod-mod,
  add_comm, mul-one,
}

-- A factor may be reduced first.
pub mul-mod_left : (n a b : ℕ) → (a % n * b) % n ≡ (a * b) % n
mul-mod_left n a b = sym (
    ap (λ t. (t * b) % n) (sym (div-add-mod a n))
    ∙ ap (λ t. t % n)
        (add-mul (n * (a / n)) (a % n) b ∙ ap (λ t. t + a % n * b) (mul_assoc n (a / n) b))
    ∙ mul-add-mod_self_left n (a / n * b) (a % n * b))

pub mul-mod_right : (n a b : ℕ) → (a * (b % n)) % n ≡ (a * b) % n
mul-mod_right n a b =
    ap (λ t. t % n) (mul_comm a (b % n)) ∙ mul-mod_left n b a ∙ ap (λ t. t % n) (mul_comm b a)

mul-left_comm : (a b c : ℕ) → a * (b * c) ≡ b * (a * c)
mul-left_comm a b c = sym (mul_assoc a b c) ∙ ap (λ t. t * c) (mul_comm a b) ∙ mul_assoc b a c

ruleset products = (mul_assoc, mul_comm, mul-left_comm)

add-mod-mul : (n a d b : ℕ) → (a % n + d * (b % n)) % n ≡ (a + d * b) % n
add-mod-mul n a d b =
    mod-add-mod a n (d * (b % n))
    ∙ sym (add-mod-mod a (d * (b % n)) n)
    ∙ ap (λ t. (a + t) % n) (mul-mod_right n d b)
    ∙ add-mod-mod a (d * b) n

-- A product with a number and its inverse is that product without them.
pub mul-inverse : (n a k i : ℕ) → (k * i) % n ≡ 1 → (a * (k * i)) % n ≡ a % n
mul-inverse n a k i h =
    sym (mul-mod_right n a (k * i)) ∙ ap (λ t. (a * t) % n) h ∙ ap (λ t. t % n) (mul-one a)

-- The multiple that verifying compares with the first half: `w` is the inverse of the second.
pub verified_multiple :
    (n d r e w : ℕ) → ((e * w) % n + d * ((r * w) % n)) % n ≡ ((d * r + e) * w) % n
verified_multiple n d r e w = add-mod-mul n (e * w) d (r * w) ∙ ap (λ t. t % n) collected
  where
    collected : e * w + d * (r * w) ≡ (d * r + e) * w
    collected =
        rw (add-mul) (ap (λ t. e * w + t) (sym (mul_assoc d r w)) ∙ add_comm (e * w) (d * r * w))

-- The equation between signing and verifying: `k` is the nonce and `i` its inverse, `w` the inverse of
-- the second half of the signature.
pub signature_equation :
    (n d r e k i w : ℕ)
    → (k * i) % n ≡ 1
    → ((d * r + e) * i % n * w) % n ≡ 1
    → ((e * w) % n + d * ((r * w) % n)) % n ≡ k % n
signature_equation n d r e k i w inverse_k inverse_s =
    verified_multiple n d r e w
    ∙ sym (mul-inverse n ((d * r + e) * w) k i inverse_k)
    ∙ ap (λ t. t % n) (swapped (d * r + e) w k i)
    ∙ sym (mul-mod_right n k ((d * r + e) * i * w))
    ∙ ap (λ t. (k * t) % n) (sym (mul-mod_left n ((d * r + e) * i) w) ∙ inverse_s)
    ∙ ap (λ t. t % n) (mul-one k)
  where
    swapped : (a w k i : ℕ) → a * w * (k * i) ≡ k * (a * i * w)
    swapped a w k i = simp products
