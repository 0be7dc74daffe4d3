-- ===== src/Type3/Attester.antt =====
-- tokens/type3/attester.go. A handler returns how it ended and the cache that it leaves.
use pat_go.Base.{
  ℕ, none, some, Bytes, drop, slice_to, bytes_equal, Outcome, ok, err, panic, ◌>>=◌, ◌>>◌, guard,
  or_err, or_panic, if◌then◌else◌,
}
use pat_go.Base.Strings.{codes}
use pat_go.Wire.{Cryptobyte}
use pat_go.Ecdsa.{Ecdsa, big_endian}
use pat_go.Type3.{rate_limited_token_type}
use pat_go.Type3.Request.{RateLimitedRequest, add_signed}
use pat_go.Type3.Clients.{ClientState, new_client_state, ClientStateCache, lookup, insert}

-- The library functions that the attester uses besides: SHA-384, HKDF with it (the secret, the salt,
-- the label and the number of bytes read), and `hex.EncodeToString`.
pub record Digests : Type 0 where
  pub sha384 : Bytes → Bytes
  pub hkdf : Bytes → Bytes → Bytes → ℕ → Outcome Bytes
  pub hex : Bytes → Bytes

-- An origin that is new to the client is given the identifier; that of a known origin stays.
abbrev pub visit : ClientState → Bytes → Bytes → ClientState
visit state origin index = record state {
  origin_indices = elim (lookup origin state.origin_indices) [
    | none ↦ insert origin index state.origin_indices
    | some _ ↦ state.origin_indices
  ];
}

abbrev pub commit : ClientState → Bytes → Bytes → ClientState
commit state origin index = record state {
  client_indices = insert index origin state.client_indices;
}

-- What `FinalizeIndex` does with the state of a client, given the two identifiers in hexadecimal.
unfoldable pub record_index : ClientState → Bytes → Bytes → Outcome (Unit {0}) × ClientState
record_index state origin index =
    let visited : ClientState = visit state origin index in
    elim (lookup index visited.client_indices) [
      | none ↦ (ok tt, commit visited origin index)
      | some expected ↦
          if bytes_equal expected origin
          then (ok tt, commit visited origin index)
          else (err "Repeated anonymous origin ID across client-committed origins", visited)
    ]

module _ (cb : Cryptobyte) (ec : Ecdsa) (dg : Digests) where
  unfoldable pub unmarshal_public_key : Bytes → Outcome ec.PublicKey
  unmarshal_public_key encoded = or_err "invalid public key" (ec.unmarshal_compressed encoded)

  -- `innerVerifyRequest`; the scalars of P-384 have 48 bytes.
  unfoldable pub inner_verify_request : RateLimitedRequest → Outcome (Unit {0})
  inner_verify_request request = do
    request_key ← unmarshal_public_key request.request_key
    r_enc ← or_panic (slice_to 48 request.signature)
    message ← or_panic (cb.bytes_or_panic (add_signed cb request))
    guard
        (ec.verify request_key (dg.sha384 message) (big_endian 0 r_enc)
          (big_endian 0 (drop 48 request.signature)))
        "Request signature invalid"

  -- The context of both blindings.
  unfoldable pub client_blind : Outcome Bytes
  client_blind =
      let b = cb.add_uint16 cb.new_builder rate_limited_token_type in
      or_panic (cb.bytes_or_panic (cb.add_bytes b (codes "ClientBlind")))

  -- The key of the client, blinded with the key of the request.
  unfoldable pub blinded_key : ec.PublicKey → ec.PrivateKey → Outcome Bytes
  blinded_key client_key blind_key = do
    ctx ← client_blind
    blinded ← ec.blind_public_key_with_context client_key blind_key ctx
    ok (ec.marshal_compressed blinded)

  unfoldable pub compute_index : Bytes → Bytes → Outcome Bytes
  compute_index client_key index_key = dg.hkdf index_key client_key (codes "IssuerOriginAlias") 48

  -- The part of `FinalizeIndex` that does not look at the cache.
  unfoldable pub index_of : Bytes → Bytes → Bytes → Outcome Bytes
  index_of client_key blind_enc blinded_request_key_enc = do
    blinded_request_key ← unmarshal_public_key blinded_request_key_enc
    blind_key ← ec.create_key blind_enc
    ctx ← client_blind
    index_key ← ec.unblind_public_key_with_context blinded_request_key blind_key ctx
    compute_index client_key (ec.marshal_compressed index_key)

  module _ (cs : ClientStateCache) where
    -- A client that is not known is given an empty state.
    abbrev pub register : cs.Cache → Bytes → cs.Cache
    register c key = elim (cs.get c key) [ none ↦ cs.put c key new_client_state | some _ ↦ c ]

    -- An invalid request and a blind that is no key end the handler early, and without an error.
    unfoldable pub verify_request :
        cs.Cache → RateLimitedRequest → Bytes → Bytes → Outcome (Unit {0}) × cs.Cache
    verify_request c request blind_key_enc client_key_enc = elim (inner_verify_request request) [
      | panic ↦ (panic, c)
      | err e ↦ (ok tt, c)
      | ok _ ↦ elim (unmarshal_public_key client_key_enc) [
        | panic ↦ (panic, c)
        | err e ↦ (err e, c)
        | ok client_key ↦ elim (ec.create_key blind_key_enc) [
          | panic ↦ (panic, c)
          | err e ↦ (ok tt, c)
          | ok blind_key ↦ elim (blinded_key client_key blind_key) [
            | panic ↦ (panic, c)
            | err e ↦ (err e, c)
            | ok encoded ↦
                if bytes_equal encoded request.request_key
                then (ok tt, register c (dg.hex client_key_enc))
                else (err "Mismatch blinded public key", c)
          ]
        ]
      ]
    ]

    -- The error for a client that is not known carries its identifier too.
    unfoldable pub finalize_index :
        cs.Cache → Bytes → Bytes → Bytes → Bytes → Outcome Bytes × cs.Cache
    finalize_index c client_key blind_enc blinded_request_key_enc anon_origin_id =
        elim (index_of client_key blind_enc blinded_request_key_enc) [
          | panic ↦ (panic, c)
          | err e ↦ (err e, c)
          | ok index ↦ elim (cs.get c (dg.hex client_key)) [
            | none ↦ (err "Unknown client ID", c)
            | some state ↦
                let (ended, state') = record_index state (dg.hex anon_origin_id) (dg.hex index) in
                (ended >> ok index, cs.put c (dg.hex client_key) state')
          ]
        ]
