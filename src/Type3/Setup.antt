-- ===== src/Type3/Setup.antt =====
-- How tokens/type3 makes keys: an encapsulation key from a seed, an issuer around its token key, and a
-- client from its secret.
use pat_go.Base.{
  ◌==◌, ℕ, Option, none, some, [], Bytes, length, if◌then◌else◌, Outcome, ok, err, panic, ◌>>=◌,
  or_err, no_error,
}
use pat_go.Ecdsa.{Ecdsa}
use pat_go.BlindRsa.{BlindRsa}
use pat_go.Hpke.{Hpke}
use pat_go.Wire.{Cryptobyte}
use pat_go.TokenKeys
use pat_go.TokenKeys.{Der, RsaPublicKey}
use pat_go.Type3.EncapKey.{PrivateEncapKey, EncapKey, public}
use pat_go.Type3.Attester.{Digests}
use pat_go.Type3.Response.{Response}
use pat_go.Type3.Issuer.{RateLimitedIssuer}

module _ (h : Hpke) where
  abbrev pub fixed_suite : Option h.Suite
  fixed_suite = h.assemble h.fixed_kem h.fixed_kdf h.fixed_aead

  -- The key of an identifier from the bytes that it is derived from.
  abbrev pub derive : ℕ → h.Suite → Bytes → Outcome (PrivateEncapKey h)
  derive id suite seed = do
    (private_key, public_key) ← h.derive_key_pair suite seed
    ok (record { id = id; suite = suite; private_key = private_key; public_key = public_key })

  unfoldable pub create_private_encap_key_from_seed : Bytes → Outcome (PrivateEncapKey h)
  create_private_encap_key_from_seed seed =
      let made = or_err "unknown suite" fixed_suite >>= λ suite. derive 1 suite seed in
      if length seed == 32 then made else err "Invalid seed length, expected 32 bytes"

  -- `none` is nil, which the constructor of an issuer returns for an error.
  abbrev pub or_nil : {A : Type 0} → Outcome A → Outcome (Option A)
  or_nil panic = panic
  or_nil (err e) = ok none
  or_nil (ok a) = ok (some a)

  -- `random` gives what the reader leaves in a buffer of some size; its error is ignored.
  unfoldable pub fresh_name_key : (ℕ → Bytes) → Outcome (PrivateEncapKey h)
  fresh_name_key random = or_err "unknown suite" fixed_suite >>= λ suite.
      derive 0 suite (random (h.private_key_size suite))

module _ (cb : Cryptobyte) (ec : Ecdsa) (dg : Digests) (h : Hpke) (b : BlindRsa) (rs : Response)
    (sha256 : Bytes → Bytes) where
  -- An issuer with a fresh name key, and no origins yet.
  unfoldable pub new_rate_limited_issuer :
      (ℕ → Bytes) → b.PrivateKey → Outcome (Option (RateLimitedIssuer cb ec dg h b rs sha256))
  new_rate_limited_issuer random key = or_nil h (
      fresh_name_key h random >>= λ name_key.
      ok (record { name_key = name_key; token_key = key; origin_index_keys = [] }))

  abbrev pub name_key : RateLimitedIssuer cb ec dg h b rs sha256 → EncapKey h
  name_key i = public h i.name_key

  -- `TokenKeyID`; `key_of` gives the modulus and the exponent of a key.
  abbrev pub token_key_id :
      Der → (b.PublicKey → RsaPublicKey) → RateLimitedIssuer cb ec dg h b rs sha256 → Outcome Bytes
  token_key_id der key_of i = TokenKeys.token_key_id der sha256 (key_of (b.public i.token_key))

  -- `NewRateLimitedClientFromSecret`: the client is its key.
  abbrev pub new_rate_limited_client_from_secret : Bytes → Outcome ec.PrivateKey
  new_rate_limited_client_from_secret secret = no_error (ec.create_key secret)
