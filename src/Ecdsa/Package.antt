-- ===== src/Ecdsa/Package.antt =====
-- The package ecdsa at one curve is what tokens/type3 takes it for.
use pat_go.Base.{
  ◌≡◌, ◌<◌, ◌%◌, ◌≤◌, ◌^◌, ℕ, Bool, true, false, Option, some, none, Bytes, Outcome, ok, err, panic,
  ◌>>=◌, ok-injective, arith, ap, sym, subst, refl, ◌∙◌,
}
use mathlib.Core.Option
use mathlib.Core.Option.{some-injective}
use pat_go.Ecdsa.{Ecdsa, EcdsaLaws, big_endian}
use pat_go.Ecdsa.Big.{pos}
use pat_go.Ecdsa.Curve.{Curve, Affine, IsCurve, Reader, Ciphers, HashToField, multiple}
use pat_go.Ecdsa.Keys
use pat_go.Ecdsa.Keys.{PublicKey, PrivateKey, key_at, point}
use pat_go.Ecdsa.Signing.{Signature, on_ok, sign}
use pat_go.Ecdsa.Verifying
use pat_go.Ecdsa.Blinding
use pat_go.Ecdsa.Blinding.{hash_blind, blind_private_key}
use pat_go.Ecdsa.PublicKeys.{IsPublicOn, IsBlindOn, blinded-IsPublicOn, applies, commute, unblinded}
use pat_go.Ecdsa.Nonces.{IsKeyPair}
use pat_go.Ecdsa.KeyPairs.{create_key-IsKeyPair, blind_private_key-IsKeyPair}
use pat_go.Ecdsa.Rejection.{verify-inv}
use pat_go.Ecdsa.Asn1.{verify-sign}

-- A secret whose number is not a multiple of the order.
abbrev pub IsSecretOn : Curve → Bytes → Type 0
IsSecretOn c encoded = 0 < big_endian 0 encoded % c.order

-- `elliptic.MarshalCompressed` and `elliptic.UnmarshalCompressed`.
pub record Compression : Type 0 where
  pub marshal : Affine → Bytes
  pub unmarshal : Bytes → Option Affine

-- A signature that the fuel did not reach stands for a call that does not return.
abbrev pub returned : Option (Outcome Signature) → Outcome Signature
returned none = panic
returned (some o) = o

abbrev pub is_true : Outcome Bool → Bool
is_true (ok b) = b
is_true (err e) = false
is_true panic = false

module _ (c : Curve) (compression : Compression) (hash_to_field : HashToField) (rd : Reader)
    (lib : Ciphers) (fuel : ℕ) where
  abbrev pub ecdsa_at : Ecdsa
  ecdsa_at = record {
    PublicKey = PublicKey;
    PrivateKey = PrivateKey;
    Random = Bool × rd.Source;
    public = λ key. key.public;
    unmarshal_compressed = λ encoded. Option.map (key_at c) (compression.unmarshal encoded);
    marshal_compressed = λ key. compression.marshal (point key);
    verify = λ key digest r s. is_true (Verifying.verify key digest (pos r) (pos s));
    create_key = Keys.create_key c;
    blind_public_key_with_context = Blinding.blind_public_key_with_context hash_to_field c;
    generate_key = λ rnd. Keys.generate_key rd c rnd.1 >>= λ made. ok made.0;
    blind_key_sign_with_context = λ rnd key blind digest ctx. returned (
        Blinding.blind_key_sign_with_context hash_to_field rd lib fuel rnd.0 rnd.1 key blind digest
          ctx);
    unblind_public_key_with_context = Blinding.unblind_public_key_with_context hash_to_field c;
  }

  module _ (group : IsCurve c) (order_small : c.order ≤ 256 ^ 48)
      (read_back : (d : ℕ)
        → 0 < d % c.order
        → compression.unmarshal (compression.marshal (multiple c d)) ≡ some (multiple c d)) where
    abbrev pub IsPairOn : PrivateKey → Type 0
    IsPairOn key = IsKeyPair key × (key.public.curve ≡ c) × (0 < key.d % c.order)

    public-multiple : (key : PrivateKey) → IsPairOn key → key.public ≡ key_at c (multiple c key.d)
    public-multiple key (pair, same, _) =
        subst (λ k. key.public ≡ key_at k (multiple k key.d)) same pair

    created_at :
        (encoded : Bytes) (key : PrivateKey)
        → IsSecretOn c encoded
        → Keys.create_key c encoded ≡ ok key
        → IsPairOn key
    unfolding Keys.create_key
    created_at encoded key secret made =
        let (pair, same) = create_key-IsKeyPair c encoded group made in
        let d_is : big_endian 0 encoded ≡ key.d = ap (λ k. k.d) (ok-injective made) in
        (pair, same, subst (λ d. 0 < d % c.order) d_is secret)

    read_public :
        (key : PublicKey)
        → IsPublicOn c hash_to_field group key
        → Option.map (key_at c) (compression.unmarshal (compression.marshal (point key))) ≡ some key
    read_public key (n, (at_n, there)) =
        subst
          (λ p.
            Option.map (key_at c) (compression.unmarshal (compression.marshal (point p))) ≡ some p)
          (sym at_n) (ap (Option.map (key_at c)) (read_back n there))

    on_ok-inv :
        {X : Type 0} (call : Outcome X) (loop : X → Option (Outcome Signature)) {signed : Signature}
        → on_ok call loop ≡ some (ok signed)
        → (x : X) × ((call ≡ ok x) × (loop x ≡ some (ok signed)))
    on_ok-inv panic loop h = ground arith
    on_ok-inv (err e) loop h = ground arith
    on_ok-inv (ok x) loop h = (x, (refl, h))

    returned-inv :
        (o : Option (Outcome Signature)) {signed : Signature}
        → returned o ≡ ok signed
        → o ≡ some (ok signed)
    returned-inv none h = ground arith
    returned-inv (some o) h = ap some h

    halves_at :
        (key key' : PublicKey)
        → key.curve ≡ c
        → key ≡ key'
        → (digest : Bytes) (r s : ℕ) → Verifying.verify key digest (pos r) (pos s) ≡ ok true
        → (r < 256 ^ 48)
          × ((s < 256 ^ 48) × (is_true (Verifying.verify key' digest (pos r) (pos s)) ≡ true))
    halves_at key key' on_curve same digest r s accepted =
        let (m, (n, ((r_is, (_, r_below)), (s_is, (_, s_below))))) =
          verify-inv key digest (pos r) (pos s) accepted in
        let order_is : key.curve.order ≡ c.order = ap (λ k. k.order) on_curve in
        let r_same : r ≡ m = cc in
        let s_same : s ≡ n = cc in
        (
          omega (arith, order_small, r_below, order_is, r_same),
          (
            omega (arith, order_small, s_below, order_is, s_same),
            ap is_true (ap (λ k. Verifying.verify k digest (pos r) (pos s)) (sym same) ∙ accepted),
          ),
        )

    blind_signed_at :
        (rnd : Bool × rd.Source) (key blind : PrivateKey) (digest ctx : Bytes) (r s : ℕ)
        (public : PublicKey)
        → IsPairOn key
        → returned (
            Blinding.blind_key_sign_with_context hash_to_field rd lib fuel rnd.0 rnd.1 key blind
              digest ctx)
          ≡ ok (r, s)
        → Blinding.blind_public_key_with_context hash_to_field c key.public blind ctx ≡ ok public
        → (r < 256 ^ 48)
          × ((s < 256 ^ 48) × (is_true (Verifying.verify public digest (pos r) (pos s)) ≡ true))
    unfolding Blinding.blind_key_sign_with_context
    blind_signed_at rnd key blind digest ctx r s public (pair, same, _) signs blinds =
        let group' : IsCurve key.public.curve = subst IsCurve (sym same) group in
        let (blinded, (made, signed)) =
          on_ok-inv (blind_private_key hash_to_field key blind ctx)
            (λ blinded. sign rd lib fuel rnd.0 rnd.1 blinded digest) (returned-inv _ signs) in
        let ((pair', same'), public_made) =
          blind_private_key-IsKeyPair hash_to_field key blind ctx group' pair made in
        let accepted =
          verify-sign rd lib fuel rnd.0 rnd.1 blinded digest r s (subst IsCurve (sym same') group')
            pair' signed in
        let is_public : blinded.public ≡ public = ok-injective (
          sym public_made
          ∙ ap (λ k. Blinding.blind_public_key_with_context hash_to_field k key.public blind ctx)
              same
          ∙ blinds) in
        halves_at blinded.public public (same' ∙ same) is_public digest r s accepted

    -- The package at a curve that is a group of prime order, of at most 384 bits, whose points but
    -- for the one at infinity are read back from their bytes, keeps what the protocol of type 3
    -- relies on: what a key made of its bytes signs under a blinded key verifies under the blinded
    -- public key, with halves that fit 48 bytes; the public key of a key made of bytes whose number
    -- is not a multiple of the order is a multiple of the base point other than infinity; such keys
    -- stay so under a blind that hashes to a number above zero and below the order, and are read
    -- back from their bytes; such a blind applies to every such key; blinds commute; and unblinding
    -- with such a blind undoes blinding.
    pub ecdsa_at-EcdsaLaws : EcdsaLaws ecdsa_at (IsSecretOn c) (IsBlindOn c hash_to_field group)
    ecdsa_at-EcdsaLaws = record {
      IsPair = IsPairOn;
      IsPublic = IsPublicOn c hash_to_field group;
      create_key-IsPair = created_at;
      blind_signed = blind_signed_at;
      public-IsPublic = λ key pair. (key.d, (public-multiple key pair, pair.2));
      blinded-IsPublic = λ key blind ctx public is_public usable blinds.
          blinded-IsPublicOn c hash_to_field group key public blind ctx is_public usable blinds;
      compressed = read_public;
      blind_applies =
          λ key blind ctx is_public usable. applies c hash_to_field group key blind ctx usable;
      blinds_commute = commute c hash_to_field group;
      unblind_blinded = unblinded c hash_to_field group;
    }
