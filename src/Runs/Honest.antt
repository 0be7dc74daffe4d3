-- ===== src/Runs/Honest.antt =====
-- The package ecdsa on a toy curve under the protocol of type 3.
use pat_go.Base.{
  ◌≡◌, ◌<◌, ◌%◌, ◌==◌, ℕ, ◌++◌, refl, subst, sym, false, if◌then◌else◌, Bool-cases,
  bytes_equal_refl, bytes_equal→eq, inl, inr, none, some, Option, [], ◌∷◌, Bytes, ok, Outcome,
  replicate, bytes_equal, arith,
}
use pat_go.Base.Strings.{codes}
use pat_go.Wire.Sample.{sample}
use pat_go.Ecdsa.{Ecdsa, EcdsaLaws, digits, fill_bytes}
use pat_go.Ecdsa.Curve.{Affine, multiple}
use pat_go.Ecdsa.Keys.{key_at, PrivateKey, create_key, rand_field_element}
use pat_go.Ecdsa.Signing.{hash_to_int, draw_nonces, sign_generic, seed_generator, sign}
use pat_go.Ecdsa.Blinding.{
  hash_blind, blind_public_key_with_context, blind_private_key, blind_key_sign_with_context,
}
use pat_go.Ecdsa.PublicKeys.{IsBlindOn}
use pat_go.Ecdsa.Package.{IsSecretOn, Compression, ecdsa_at, ecdsa_at-EcdsaLaws}
use pat_go.Ecdsa.ToyCurve.{toy, toy-IsCurve, multiple-toy, twice, toy_hash, toy_ciphers, toy_reader}
use pat_go.Hpke.Sample as HpkeSample
use pat_go.BlindRsa.Sample as RsaSample
use pat_go.Tokens.{authenticator_input}
use pat_go.Type3
use pat_go.Type3.Clients.{ClientState, ClientStateCache}
use pat_go.Type3.EncapKey.{EncapKey}
use pat_go.Type3.Padding.{pad_origin_name}
use pat_go.Type3.Encryption.{encrypt_origin_token_request, associated_data}
use pat_go.Type3.Attester.{Digests, client_blind}
use pat_go.Type3.Response.{Response}
use pat_go.Type3.Setup.{new_rate_limited_client_from_secret}
use pat_go.Type3.Client.{RequestState, sign_request, create_token_request}

-- A point of the toy curve is known by its first coordinate; the point at infinity is not read back.
abbrev pub first_coordinate : Compression
first_coordinate = record { marshal = λ p. p.0 ∷ replicate 48 0; unmarshal = λ s. point s }
  where
    point : Bytes → Option Affine
    point [] = none
    point (x ∷ xs) = if x == 0 then none else some (x, x)

abbrev pub toy_ecdsa : Ecdsa
toy_ecdsa = ecdsa_at toy first_coordinate toy_hash toy_reader toy_ciphers 9

read_twice :
    (d : ℕ)
    → 0 < d % 7
    → first_coordinate.unmarshal (first_coordinate.marshal (twice d)) ≡ some (twice d)
read_twice d there = ground arith

read_back :
    (d : ℕ)
    → 0 < d % 7
    → first_coordinate.unmarshal (first_coordinate.marshal (multiple toy d)) ≡ some (multiple toy d)
read_back d there =
    subst (λ p. first_coordinate.unmarshal (first_coordinate.marshal p) ≡ some p)
      (sym (multiple-toy d)) (read_twice d there)

ecdsa_at-EcdsaLaws_example :
    EcdsaLaws toy_ecdsa (IsSecretOn toy) (IsBlindOn toy toy_hash toy-IsCurve)
ecdsa_at-EcdsaLaws_example =
    ecdsa_at-EcdsaLaws toy first_coordinate toy_hash toy_reader toy_ciphers 9 toy-IsCurve
      (omega arith) read_back

pub laws : EcdsaLaws toy_ecdsa (IsSecretOn toy) (IsBlindOn toy toy_hash toy-IsCurve)
laws =
    ecdsa_at-EcdsaLaws toy first_coordinate toy_hash toy_reader toy_ciphers 9 toy-IsCurve
      (omega arith) read_back

abbrev pub digests : Digests
digests = record { sha384 = λ x. 192 ∷ x; hkdf = λ secret salt info n. ok secret; hex = λ x. x }

abbrev pub response : Response
response = record {
  Cipher = Unit;
  extract = λ salt secret. secret;
  expand = λ prk label n. replicate n 0;
  new_cipher = λ key. ok tt;
  seal = λ c nonce text. text;
  open_ = λ c nonce text. ok text;
  key_size = 16;
  nonce_size = 12;
}

abbrev pub sha256 : Bytes → Bytes
sha256 x = replicate 32 1

-- A cache is the function that looks a client up.
abbrev pub stored : (Bytes → Option ClientState) → Bytes → ClientState → Bytes → Option ClientState
stored c k s k' = if bytes_equal k' k then some s else c k'

abbrev pub cache : ClientStateCache
cache = record {
  Cache = Bytes → Option ClientState;
  get = λ c k. c k;
  put = stored;
  get-put_same = λ c k s. ground (arith, bytes_equal_refl k);
  get-put_other = λ c k k' s h. elim (Bool-cases (bytes_equal k k')) [
    | inl e ↦ absurd (h (bytes_equal→eq k k' e))
    | inr e ↦ ground arith
  ];
}

abbrev pub client_key : PrivateKey
client_key = record { public = key_at toy (multiple toy 3); d = 3 }

pub made_client :
    new_rate_limited_client_from_secret sample toy_ecdsa digests HpkeSample.sample RsaSample.sample
      response sha256
      (3 ∷ [])
    ≡ ok client_key
unfolding create_key
made_client = refl

abbrev pub State : Type 0
State = RequestState sample toy_ecdsa digests HpkeSample.sample RsaSample.sample response sha256

abbrev pub name_key : EncapKey HpkeSample.sample
name_key = record { id = 1; suite = tt; public_key = 6 }

abbrev pub requested : Outcome State
requested =
    create_token_request sample toy_ecdsa digests HpkeSample.sample RsaSample.sample response sha256
      client_key (false, replicate 40 0) tt tt (codes "challenge") (replicate 32 9) (3 ∷ [])
      (replicate 32 4) 5 (codes "origin.example") name_key

abbrev pub state : State
state = record {
  token_input = 0 ∷ 3 ∷ replicate 32 9 ++ (replicate 32 1 ++ replicate 32 4);
  client_key = 3 ∷ replicate 48 0;
  request = record {
    raw = none;
    request_key = 6 ∷ replicate 48 0;
    name_key_id = replicate 32 1;
    encrypted_token_request =
        replicate 32 0
        ++ Type3.Inner.layout sample (record {
          raw = none;
          token_key_id = 4;
          blinded_msg = RsaSample.block 5;
          padded_origin = pad_origin_name (codes "origin.example");
        });
    signature = digits 48 1 ++ digits 48 5;
  };
  encap_secret = replicate 16 0;
  encap_enc = replicate 32 0;
  name_key = name_key;
  verification_key = 5;
  verifier = tt;
}

pub requested-state : requested ≡ ok state
unfolding create_token_request create_key client_blind blind_public_key_with_context hash_blind
    fill_bytes bytes_equal authenticator_input encrypt_origin_token_request associated_data
    pad_origin_name Type3.EncapKey.marshal Type3.Inner.marshal RsaSample.block sign_request
    blind_key_sign_with_context blind_private_key sign seed_generator sign_generic draw_nonces
    rand_field_element hash_to_int
requested-state = refl
