-- ===== src/Runs/Returns.antt =====
-- A client that visits an origin twice, with another nonce and a stranger's request in between, over
-- toy cryptography.
use pat_go.Base.{
  ◌≡◌, ◌<◌, ◌++◌, length, false, none, [], ◌∷◌, ok, replicate, bytes_equal, arith, refl,
}
use pat_go.Base.Strings.{codes}
use pat_go.Wire.Sample.{sample}
use pat_go.Ecdsa.{fill_bytes}
use pat_go.Ecdsa.Keys.{create_key, rand_field_element}
use pat_go.Ecdsa.Signing.{hash_to_int, draw_nonces, sign_generic, seed_generator, sign}
use pat_go.Ecdsa.Blinding.{
  hash_blind, blind_public_key_with_context, blind_private_key, blind_key_sign_with_context,
}
use pat_go.Hpke.Sample as HpkeSample
use pat_go.BlindRsa.Sample as RsaSample
use pat_go.Tokens.{authenticator_input}
use pat_go.Type3
use pat_go.Type3.EncapKey
use pat_go.Type3.Inner
use pat_go.Type3.Layout.{layout}
use pat_go.Type3.Padding.{pad_origin_name}
use pat_go.Type3.Encryption.{encrypt_origin_token_request, associated_data}
use pat_go.Type3.Attester.{client_blind, verify_request, finalize_index}
use pat_go.Type3.Commitments.{Step, Run}
use pat_go.Type3.Client.{sign_request, create_token_request}
use pat_go.Type3.Arrival.{Asks}
use pat_go.Type3.Returns.{HonestVisit, finalize_index-Run-verify_request}
use pat_go.Runs.Honest.{
  toy_ecdsa, digests, response, sha256, client_key, cache, made_client, State, name_key, state,
  requested-state,
}
use pat_go.Runs.Exchange.{
  index_key, issuer, assumptions, keys, asks, granted, usable, marshalled, written, identified,
}

-- The second request is for another nonce.
abbrev later : State
later = record state { token_input = 0 ∷ 3 ∷ replicate 32 8 ++ (replicate 32 1 ++ replicate 32 4) }

requested-later :
    create_token_request sample toy_ecdsa digests HpkeSample.sample RsaSample.sample response sha256
      client_key
      (false, replicate 40 0)
      tt
      tt
      (codes "challenge")
      (replicate 32 8)
      (3 ∷ [])
      (replicate 32 4)
      5
      (codes "origin.example")
      name_key
    ≡ ok later
unfolding create_token_request create_key client_blind blind_public_key_with_context hash_blind
    fill_bytes bytes_equal authenticator_input encrypt_origin_token_request associated_data
    pad_origin_name Type3.EncapKey.marshal Type3.Inner.marshal RsaSample.block sign_request
    blind_key_sign_with_context blind_private_key sign seed_generator sign_generic draw_nonces
    rand_field_element hash_to_int
requested-later = refl

asks_later :
    Asks sample toy_ecdsa digests HpkeSample.sample RsaSample.sample response sha256 assumptions
      issuer
      (replicate 32 8)
      (replicate 32 4)
      (codes "origin.example")
      index_key
asks_later = record {
  lengths = record { nonce_length = refl; key_id_length = refl };
  id_bytes = asks.id_bytes;
  origin_short = asks.origin_short;
  origin_end = asks.origin_end;
  known = asks.known;
  index_usable = asks.index_usable;
}

abbrev Visit : Type 0
Visit =
    HonestVisit sample toy_ecdsa digests HpkeSample.sample RsaSample.sample response sha256
      assumptions issuer keys (λ n. ok (replicate n 9)) client_key (codes "origin.example")
      index_key

short : length state.request.encrypted_token_request < 65536
unfolding RsaSample.block pad_origin_name
short = omega arith

abbrev first : Visit
first = record {
  ec_rnd = (false, replicate 40 0);
  b_rnd = tt;
  h_rnd = tt;
  challenge = codes "challenge";
  nonce = replicate 32 9;
  blind_enc = 3 ∷ [];
  token_key_id = replicate 32 4;
  asks = asks;
  state = state;
  secret = 3 ∷ [];
  out = layout state.request;
  response = replicate 16 9 ++ RsaSample.block 5;
  key_out = 3 ∷ replicate 48 0;
  written = written;
  from_secret = made_client;
  is_secret = omega arith;
  made = requested-state;
  fits = short;
  usable = usable;
  marshals = marshalled;
  granted = granted;
}

abbrev second : Visit
second = record first {
  nonce = replicate 32 8;
  asks = asks_later;
  state = later;
  made = requested-later;
}

-- The cache after the first visit, and after a request of a stranger.
abbrev visited : cache.Cache
visited =
    (finalize_index sample toy_ecdsa digests cache
      (verify_request sample toy_ecdsa digests cache (λ k. none) state.request (3 ∷ [])
        (3 ∷ replicate 48 0)).1
      (3 ∷ replicate 48 0) (3 ∷ []) (3 ∷ replicate 48 0) (8 ∷ [])).1

abbrev disturbed : cache.Cache
disturbed =
    (finalize_index sample toy_ecdsa digests cache visited (4 ∷ replicate 48 0) (3 ∷ [])
      (3 ∷ replicate 48 0) (8 ∷ [])).1

finalize_index-Run-verify_request_example :
    (c1 : cache.Cache) × (c2 : cache.Cache) × (verify_request sample toy_ecdsa digests cache
        disturbed later.request
        (3 ∷ [])
        (3 ∷ replicate 48 0)
      ≡ (ok tt, c1))
    × (finalize_index sample toy_ecdsa digests cache c1
          (3 ∷ replicate 48 0)
          (3 ∷ [])
          (3 ∷ replicate 48 0)
          (8 ∷ [])
        ≡ (ok (5 ∷ replicate 48 0), c2))
finalize_index-Run-verify_request_example =
    finalize_index-Run-verify_request sample toy_ecdsa digests HpkeSample.sample RsaSample.sample
      response sha256 assumptions issuer keys (λ n. ok (replicate n 9)) client_key
      (codes "origin.example") index_key cache (8 ∷ []) (5 ∷ replicate 48 0) identified first second
      (λ k. none) disturbed (λ s e. cc)
      (Run.after Run.here
        (Step.finalized visited (4 ∷ replicate 48 0) (3 ∷ []) (3 ∷ replicate 48 0) (8 ∷ [])))
