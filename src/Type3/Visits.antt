-- ===== src/Type3/Visits.antt =====
-- A visit of an honest client to an origin, from the attester's side: the request is let in, and the
-- identifier of the origin is found and counted.
use pat_go.Base.{
  ◌≡◌, ◌<◌, ◌⊎◌, ℕ, none, some, Bytes, bytes_equal_refl, length, Outcome, Option-cases, ok, inl,
  inr, refl, ◌∙◌,
}
use pat_go.Wire.{Cryptobyte}
use pat_go.Ecdsa.{Ecdsa}
use pat_go.BlindRsa.{BlindRsa}
use pat_go.Hpke.{Hpke}
use pat_go.Type3.Request.{RateLimitedRequest, marshal}
use pat_go.Type3.EncapKey.{public}
use pat_go.Type3.Clients.{
  ClientState, new_client_state, ClientStateCache, lookup, lookup-insert_same,
}
use pat_go.Type3.Attester.{
  Digests, visit, commit, record_index, index_of, register, verify_request, finalize_index,
}
use pat_go.Type3.Commitments.{Remembers}
use pat_go.Type3.Indices.{Commits, record_index_free, record_index_same}
use pat_go.Type3.Response.{Response}
use pat_go.Type3.Setup.{new_rate_limited_client_from_secret}
use pat_go.Type3.Issuer.{RateLimitedIssuer, evaluate}
use pat_go.Type3.Client.{RequestState, create_token_request}
use pat_go.Type3.Honest.{verify_request-create_token_request}
use pat_go.Type3.Arrival.{Assumptions, HasKeys, Asks}
use pat_go.Type3.Verification.{client_context}
use pat_go.Type3.AnonymousId.{anonymous_id}
use pat_go.Type3.OriginIndex.{index_of-evaluate}

-- The identifier is free, or recorded for the origin.
abbrev pub Agrees : ClientState → Bytes → Bytes → Type 0
Agrees s index origin = (lookup index s.client_indices ≡ none) ⊎ Commits s index origin

record_index-agreed :
    (s : ClientState) (origin index : Bytes)
    → Agrees s index origin
    → record_index s origin index ≡ (ok tt, commit (visit s origin index) origin index)
record_index-agreed s origin index (inl free) = record_index_free s origin index free
record_index-agreed s origin index (inr known) =
    record_index_same s origin index known (bytes_equal_refl origin)

new_client_state-Agrees : (index origin : Bytes) → Agrees new_client_state index origin
unfolding lookup
new_client_state-Agrees index origin = inl refl

module _ (cb : Cryptobyte) (ec : Ecdsa) (dg : Digests) (cs : ClientStateCache) (c : cs.Cache) where
  -- A client that is registered has a state, that which it had or a new one.
  registered :
      (k index origin : Bytes)
      → ((s : ClientState) → cs.get c k ≡ some s → Agrees s index origin)
      → (s : ClientState) × (cs.get (register cb ec dg cs c k) k ≡ some s) × Agrees s index origin
  registered k index origin agreed = elim (Option-cases (cs.get c k)) [
    | inl unknown ↦ (
      new_client_state,
      rw (unknown, register) (cs.get-put_same c k new_client_state),
      new_client_state-Agrees index origin,
    )
    | inr (s, known) ↦ (s, rw (known, register) known, agreed s known)
  ]

  finalize_index-agreed :
      (client_key blind_enc key_out anon_origin_id id : Bytes) (s : ClientState)
      → index_of cb ec dg client_key blind_enc key_out ≡ ok id
      → cs.get c (dg.hex client_key) ≡ some s
      → Agrees s (dg.hex id) (dg.hex anon_origin_id)
      → finalize_index cb ec dg cs c client_key blind_enc key_out anon_origin_id ≡ (
        ok id,
        cs.put c (dg.hex client_key) (
            commit
              (visit s (dg.hex anon_origin_id) (dg.hex id))
              (dg.hex anon_origin_id)
              (dg.hex id)),
      )
  unfolding finalize_index
  finalize_index-agreed client_key blind_enc key_out anon_origin_id id s computed known agrees =
      rw
        (
          computed,
          known,
          record_index-agreed s (dg.hex anon_origin_id) (dg.hex id) agrees,
          finalize_index,
        )
        refl

module _ (cb : Cryptobyte) (ec : Ecdsa) (dg : Digests) (h : Hpke) (b : BlindRsa) (rs : Response)
    (sha256 : Bytes → Bytes) (assume : Assumptions ec h b rs sha256)
    (i : RateLimitedIssuer cb ec dg h b rs sha256) (keys : HasKeys cb ec dg h b rs sha256 i)
    (random : ℕ → Outcome Bytes) (key : ec.PrivateKey) (ec_rnd : ec.Random) (b_rnd : b.Random)
    (h_rnd : h.Random) (challenge nonce blind_enc token_key_id origin_name : Bytes)
    (index_key : ec.PrivateKey)
    (asks : Asks cb ec dg h b rs sha256 assume i nonce token_key_id origin_name index_key)
    (state : RequestState cb ec dg h b rs sha256) (cs : ClientStateCache) (c : cs.Cache) where
  -- A visit of an honest client to an origin: the attester lets its request in, and from the key
  -- that the issuer returned for it finds the identifier that is made of the client's public key
  -- and the issuer's key for the origin, and afterwards remembers that this identifier belongs to
  -- the origin; whatever the cache held before, if the identifier was free or recorded for this
  -- origin, given the laws of the libraries, an issuer and an origin as in the exchange, a secret
  -- whose number is not a multiple of the order, a blind that does not hash to zero, and an
  -- identifier that can be computed.
  pub finalize_index-verify_request :
      (secret out response key_out anon_origin_id id : Bytes) (written : RateLimitedRequest)
      → new_rate_limited_client_from_secret cb ec dg h b rs sha256 secret ≡ ok key
      → assume.IsSecret secret
      → create_token_request cb ec dg h b rs sha256 key ec_rnd b_rnd h_rnd challenge nonce blind_enc
          token_key_id
          (b.public i.token_key)
          origin_name
          (public h i.name_key)
        ≡ ok state
      → length state.request.encrypted_token_request < 65536
      → ((blind : ec.PrivateKey)
          → ec.create_key blind_enc ≡ ok blind
          → assume.IsBlind blind client_context)
      → marshal cb state.request ≡ some (out, written)
      → evaluate cb ec dg h b rs sha256 i random out ≡ ok (response, key_out)
      → anonymous_id cb ec dg (ec.public key) index_key ≡ ok id
      → ((s : ClientState)
          → cs.get c (dg.hex state.client_key) ≡ some s
          → Agrees s (dg.hex id) (dg.hex anon_origin_id))
      → (c1 : cs.Cache) × (c2 : cs.Cache) × (verify_request cb ec dg cs c state.request blind_enc
            state.client_key
          ≡ (ok tt, c1))
        × (finalize_index cb ec dg cs c1 state.client_key blind_enc key_out anon_origin_id
            ≡ (ok id, c2))
        × Remembers cb ec dg cs c2 (dg.hex state.client_key) (dg.hex id) (dg.hex anon_origin_id)
  finalize_index-verify_request secret out response key_out anon_origin_id id written from_secret
        is_secret made fits usable marshals granted identified agreed =
      let k = dg.hex state.client_key in
      let index = dg.hex id in
      let origin = dg.hex anon_origin_id in
      let c1 = register cb ec dg cs c k in
      let (s, known, agrees) = registered cb ec dg cs c k index origin agreed in
      let s' = commit (visit s origin index) origin index in
      let computed =
        index_of-evaluate cb ec dg h b rs sha256 assume i keys random key ec_rnd b_rnd h_rnd
          challenge nonce blind_enc token_key_id origin_name index_key asks state secret out
          response key_out written from_secret is_secret made fits usable marshals granted in
      (
        c1,
        cs.put c1 k s',
        verify_request-create_token_request cb ec dg h b rs sha256 assume.ecdsa cs c key ec_rnd
            b_rnd h_rnd secret challenge nonce blind_enc token_key_id origin_name
            (b.public i.token_key) (public h i.name_key) state from_secret is_secret usable made,
        finalize_index-agreed cb ec dg cs c1 state.client_key blind_enc key_out anon_origin_id id s
            (computed ∙ identified) known agrees,
        (s', cs.get-put_same c1 k s', lookup-insert_same index origin s.client_indices),
      )
