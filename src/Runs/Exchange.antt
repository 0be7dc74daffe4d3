-- ===== src/Runs/Exchange.antt =====
-- The exchange of rate-limited tokens with an issuer that knows one origin, over toy cryptography.
use pat_go.Base.{
  ◌≡◌, ◌++◌, false, some, none, [], ◌∷◌, ok, replicate, length-replicate, ok-injective, bytes_equal,
  arith, refl, subst,
}
use pat_go.Base.Strings.{codes}
use pat_go.Wire.Sample.{sample}
use pat_go.Wire.Steps.{after, into, read, check, store, attempt, check_rest, accepted}
use pat_go.Ecdsa.{fill_bytes}
use pat_go.Ecdsa.Curve.{multiple}
use pat_go.Ecdsa.Keys.{key_at, PrivateKey, create_key}
use pat_go.Ecdsa.Verifying
use pat_go.Ecdsa.Signing.{hash_to_int}
use pat_go.Ecdsa.Blinding.{hash_blind, blind_public_key_with_context}
use pat_go.Ecdsa.PublicKeys.{IsBlindOn}
use pat_go.Ecdsa.Package.{IsSecretOn}
use pat_go.Ecdsa.ToyCurve.{toy, toy-IsCurve, toy_hash}
use pat_go.Hpke.Sample as HpkeSample
use pat_go.BlindRsa.Sample as RsaSample
use pat_go.Type3
use pat_go.Type3.Request.{RateLimitedRequest, empty_limited, unmarshal}
use pat_go.Type3.Layout.{layout}
use pat_go.Type3.Padding.{pad_origin_name, unpad_origin_name, unpad_from}
use pat_go.Type3.Encryption.{decrypt_origin_token_request, associated_data}
use pat_go.Type3.Attester.{
  unmarshal_public_key, compute_index, index_of, verify_request, finalize_index,
}
use pat_go.Type3.Commitments.{Remembers}
use pat_go.Type3.Visits.{finalize_index-verify_request}
use pat_go.Type3.Response.{ResponseLaws}
use pat_go.Type3.Issuer.{
  RateLimitedIssuer, evaluate, answer, respond, seal_response, check_signature, issuer_blind,
  find_key,
}
use pat_go.Type3.Client.{unauthenticated}
use pat_go.Type3.Arrival.{Assumptions, HasKeys, Asks}
use pat_go.Type3.Exchange.{Exchanges, create_token_request-Exchanges}
use pat_go.Type3.Verification.{client_context}
use pat_go.Type3.AnonymousId.{anonymous_id}
use pat_go.Type3.OriginIndex.{index_of-evaluate}
use pat_go.Runs.Honest.{
  toy_ecdsa, laws, digests, response, sha256, client_key, cache, made_client, state,
  requested-state,
}

abbrev pub index_key : PrivateKey
index_key = record { public = key_at toy (multiple toy 2); d = 2 }

abbrev pub issuer :
    RateLimitedIssuer sample toy_ecdsa digests HpkeSample.sample RsaSample.sample response sha256
issuer = record {
  name_key = record { id = 1; suite = tt; private_key = 6; public_key = 6 };
  token_key = 5;
  origin_index_keys = (codes "origin.example", index_key) ∷ [];
}

pub response_laws : ResponseLaws response
response_laws = record {
  new_cipher_expand = λ prk label. (tt, refl);
  open_seal = λ c nonce text. refl;
}

abbrev pub assumptions : Assumptions toy_ecdsa HpkeSample.sample RsaSample.sample response sha256
assumptions = record {
  IsSecret = IsSecretOn toy;
  IsBlind = IsBlindOn toy toy_hash toy-IsCurve;
  ecdsa = laws;
  hpke = HpkeSample.sample_laws;
  blind_rsa = RsaSample.sample_laws;
  response = response_laws;
  point_length = λ p on_curve. refl;
  hash_length = λ x. refl;
}

pub keys :
    HasKeys sample toy_ecdsa digests HpkeSample.sample RsaSample.sample response sha256 issuer
keys = record { name_pair = refl; name_size = omega arith; token_key_length = refl }

pub asks :
    Asks sample toy_ecdsa digests HpkeSample.sample RsaSample.sample response sha256 assumptions
      issuer
      (replicate 32 9)
      (replicate 32 4)
      (codes "origin.example")
      index_key
unfolding blind_public_key_with_context hash_blind fill_bytes bytes_equal find_key
asks = record {
  lengths = record { nonce_length = refl; key_id_length = refl };
  id_bytes = omega arith;
  origin_short = omega arith;
  origin_end = λ e. cc;
  known = refl;
  index_usable = (4, (refl, (omega arith, omega arith)));
}

pub usable :
    (blind : PrivateKey)
    → create_key toy (3 ∷ []) ≡ ok blind
    → IsBlindOn toy toy_hash toy-IsCurve blind client_context
unfolding create_key hash_blind fill_bytes bytes_equal
usable blind created =
    subst (λ k. IsBlindOn toy toy_hash toy-IsCurve k client_context) (ok-injective created)
      (2, (refl, (omega arith, omega arith)))

create_token_request-Exchanges_example :
    Exchanges sample toy_ecdsa digests HpkeSample.sample RsaSample.sample response sha256 issuer
      (λ n. ok (replicate n 9))
      state
      (unauthenticated sample toy_ecdsa digests HpkeSample.sample RsaSample.sample response sha256
        (codes "challenge")
        (replicate 32 9)
        (replicate 32 4))
unfolding RsaSample.block pad_origin_name
create_token_request-Exchanges_example =
    create_token_request-Exchanges sample toy_ecdsa digests HpkeSample.sample RsaSample.sample
      response sha256 assumptions issuer keys (λ n. ok (replicate n 9))
      (λ n. (replicate n 9, refl, length-replicate n 9)) client_key (false, replicate 40 0) tt tt
      (codes "challenge") (replicate 32 9) (3 ∷ []) (replicate 32 4) (codes "origin.example")
      index_key asks (3 ∷ []) state made_client (omega arith) usable requested-state (omega arith)

pub granted :
    evaluate sample toy_ecdsa digests HpkeSample.sample RsaSample.sample response sha256 issuer
      (λ n. ok (replicate n 9))
      (layout state.request)
    ≡ ok (replicate 16 9 ++ RsaSample.block 5, 3 ∷ replicate 48 0)
unfolding evaluate answer respond seal_response check_signature issuer_blind find_key unmarshal
    decrypt_origin_token_request associated_data Type3.EncapKey.marshal Type3.Inner.unmarshal
    unmarshal_public_key unpad_origin_name unpad_from bytes_equal after into read check store
    attempt check_rest accepted RsaSample.block blind_public_key_with_context hash_blind fill_bytes
    pad_origin_name Verifying.verify Verifying.verify_generic hash_to_int
granted = refl

abbrev pub written : RateLimitedRequest
written = record state.request { raw = some (layout state.request) }

pub marshalled : Type3.Request.marshal sample state.request ≡ some (layout state.request, written)
unfolding Type3.Request.marshal RsaSample.block pad_origin_name
marshalled = refl

index_of-evaluate_example :
    index_of sample toy_ecdsa digests (3 ∷ replicate 48 0) (3 ∷ []) (3 ∷ replicate 48 0)
    ≡ anonymous_id sample toy_ecdsa digests (key_at toy (multiple toy 3)) index_key
unfolding RsaSample.block pad_origin_name
index_of-evaluate_example =
    index_of-evaluate sample toy_ecdsa digests HpkeSample.sample RsaSample.sample response sha256
      assumptions issuer keys (λ n. ok (replicate n 9)) client_key (false, replicate 40 0) tt tt
      (codes "challenge") (replicate 32 9) (3 ∷ []) (replicate 32 4) (codes "origin.example")
      index_key asks state (3 ∷ []) (layout state.request) (replicate 16 9 ++ RsaSample.block 5)
      (3 ∷ replicate 48 0) written made_client (omega arith) requested-state (omega arith) usable
      marshalled granted

-- The client comes to the origin for the first time.
pub identified :
    anonymous_id sample toy_ecdsa digests (key_at toy (multiple toy 3)) index_key
    ≡ ok (5 ∷ replicate 48 0)
unfolding blind_public_key_with_context hash_blind fill_bytes bytes_equal compute_index
identified = refl

finalize_index-verify_request_example :
    (c1 : cache.Cache) × (c2 : cache.Cache) × (verify_request sample toy_ecdsa digests cache
        (λ k. none)
        state.request
        (3 ∷ [])
        (3 ∷ replicate 48 0)
      ≡ (ok tt, c1))
    × (finalize_index sample toy_ecdsa digests cache c1
          (3 ∷ replicate 48 0)
          (3 ∷ [])
          (3 ∷ replicate 48 0)
          (8 ∷ [])
        ≡ (ok (5 ∷ replicate 48 0), c2))
    × Remembers sample toy_ecdsa digests cache c2 (3 ∷ replicate 48 0) (5 ∷ replicate 48 0) (8 ∷ [])
unfolding RsaSample.block pad_origin_name
finalize_index-verify_request_example =
    finalize_index-verify_request sample toy_ecdsa digests HpkeSample.sample RsaSample.sample
      response sha256 assumptions issuer keys (λ n. ok (replicate n 9)) client_key
      (false, replicate 40 0) tt tt (codes "challenge") (replicate 32 9) (3 ∷ []) (replicate 32 4)
      (codes "origin.example") index_key asks state cache (λ k. none) (3 ∷ [])
      (layout state.request) (replicate 16 9 ++ RsaSample.block 5) (3 ∷ replicate 48 0) (8 ∷ [])
      (5 ∷ replicate 48 0) written made_client (omega arith) requested-state (omega arith) usable
      marshalled granted identified (λ s e. cc)
