-- ===== src/Type3/Returns.antt =====
-- An honest client that comes back to an origin: whatever the attester handled in between, the
-- identifier of the origin is found again.
use pat_go.Base.{◌≡◌, ◌<◌, ℕ, some, Bytes, length, Outcome, ok, inr, ap, sym, subst, ◌∙◌}
use mathlib.Core.Option.{some-injective}
use pat_go.Wire.{Cryptobyte}
use pat_go.Ecdsa.{Ecdsa}
use pat_go.BlindRsa.{BlindRsa}
use pat_go.Hpke.{Hpke}
use pat_go.Type3.Request.{RateLimitedRequest, marshal}
use pat_go.Type3.EncapKey.{public}
use pat_go.Type3.Clients.{ClientState, ClientStateCache}
use pat_go.Type3.Attester.{Digests, verify_request, finalize_index}
use pat_go.Type3.Commitments.{Remembers, Run, Run-Remembers}
use pat_go.Type3.Response.{Response}
use pat_go.Type3.Setup.{new_rate_limited_client_from_secret}
use pat_go.Type3.Issuer.{RateLimitedIssuer, evaluate}
use pat_go.Type3.Client.{RequestState, create_token_request}
use pat_go.Type3.Created.{create_token_request-Created}
use pat_go.Type3.Arrival.{Assumptions, HasKeys, Asks}
use pat_go.Type3.Verification.{client_context}
use pat_go.Type3.AnonymousId.{anonymous_id}
use pat_go.Type3.Visits.{Agrees, finalize_index-verify_request}

module _ (cb : Cryptobyte) (ec : Ecdsa) (dg : Digests) (h : Hpke) (b : BlindRsa) (rs : Response)
    (sha256 : Bytes → Bytes) (assume : Assumptions ec h b rs sha256)
    (i : RateLimitedIssuer cb ec dg h b rs sha256) (keys : HasKeys cb ec dg h b rs sha256 i)
    (random : ℕ → Outcome Bytes) (key : ec.PrivateKey) (origin_name : Bytes)
    (index_key : ec.PrivateKey) where
  -- What a client with the key `key` does on a visit to the origin, and what the issuer answers.
  pub record HonestVisit : Type 0 where
    pub ec_rnd : ec.Random
    pub b_rnd : b.Random
    pub h_rnd : h.Random
    pub challenge : Bytes
    pub nonce : Bytes
    pub blind_enc : Bytes
    pub token_key_id : Bytes
    pub asks : Asks cb ec dg h b rs sha256 assume i nonce token_key_id origin_name index_key
    pub state : RequestState cb ec dg h b rs sha256
    pub secret : Bytes
    pub out : Bytes
    pub response : Bytes
    pub key_out : Bytes
    pub written : RateLimitedRequest
    pub from_secret : new_rate_limited_client_from_secret cb ec dg h b rs sha256 secret ≡ ok key
    pub is_secret : assume.IsSecret secret
    pub made :
        create_token_request cb ec dg h b rs sha256 key ec_rnd b_rnd h_rnd challenge nonce blind_enc
          token_key_id
          (b.public i.token_key)
          origin_name
          (public h i.name_key)
        ≡ ok state
    pub fits : length state.request.encrypted_token_request < 65536
    pub usable :
        (blind : ec.PrivateKey)
        → ec.create_key blind_enc ≡ ok blind
        → assume.IsBlind blind client_context
    pub marshals : marshal cb state.request ≡ some (out, written)
    pub granted : evaluate cb ec dg h b rs sha256 i random out ≡ ok (response, key_out)

  client_key_lem : (v : HonestVisit) → v.state.client_key ≡ ec.marshal_compressed (ec.public key)
  client_key_lem v =
      let m =
        create_token_request-Created cb ec dg h b rs sha256 key v.ec_rnd v.b_rnd v.h_rnd v.challenge
          v.nonce v.blind_enc v.token_key_id origin_name (b.public i.token_key)
          (public h i.name_key) v.state v.made in
      ap (λ st. st.client_key) m.is_state

  module _ (cs : ClientStateCache) (anon_origin_id id : Bytes)
      (identified : anonymous_id cb ec dg (ec.public key) index_key ≡ ok id) where
    visited :
        (v : HonestVisit) (c : cs.Cache)
        → ((s : ClientState)
            → cs.get c (dg.hex v.state.client_key) ≡ some s
            → Agrees s (dg.hex id) (dg.hex anon_origin_id))
        → (c1 : cs.Cache) × (c2 : cs.Cache) × (verify_request cb ec dg cs c v.state.request
              v.blind_enc v.state.client_key
            ≡ (ok tt, c1))
          × (finalize_index cb ec dg cs c1 v.state.client_key v.blind_enc v.key_out anon_origin_id
              ≡ (ok id, c2))
          × Remembers cb ec dg cs c2 (dg.hex v.state.client_key) (dg.hex id) (dg.hex anon_origin_id)
    visited v c agreed =
        finalize_index-verify_request cb ec dg h b rs sha256 assume i keys random key v.ec_rnd
          v.b_rnd v.h_rnd v.challenge v.nonce v.blind_enc v.token_key_id origin_name index_key
          v.asks v.state cs c v.secret v.out v.response v.key_out anon_origin_id id v.written
          v.from_secret v.is_secret v.made v.fits v.usable v.marshals v.granted identified agreed

    Remembers-Agrees :
        (v : HonestVisit) (c : cs.Cache)
        → Remembers cb ec dg cs c
            (dg.hex (ec.marshal_compressed (ec.public key)))
            (dg.hex id)
            (dg.hex anon_origin_id)
        → (s : ClientState) → cs.get c (dg.hex v.state.client_key) ≡ some s
        → Agrees s (dg.hex id) (dg.hex anon_origin_id)
    Remembers-Agrees v c (t, known, commits) s found =
        let same : t ≡ s =
          some-injective t s
            (sym known ∙ ap (λ k. cs.get c (dg.hex k)) (sym (client_key_lem v)) ∙ found) in
        subst (λ s. Agrees s (dg.hex id) (dg.hex anon_origin_id)) same (inr commits)

    -- An honest client can come back: if it has visited an origin, then whatever requests the
    -- attester handled since, the request of another visit of this client to this origin is let in,
    -- and FinalizeIndex returns the same identifier for it, though the nonces, challenges, blinds
    -- and randomness of the two visits may differ; if the identifier was free or recorded for this
    -- origin before the first visit, under the assumptions on both visits under which a visit
    -- succeeds.
    pub finalize_index-Run-verify_request :
        (first second : HonestVisit) (c c' : cs.Cache)
        → ((s : ClientState)
            → cs.get c (dg.hex first.state.client_key) ≡ some s
            → Agrees s (dg.hex id) (dg.hex anon_origin_id))
        → Run cb ec dg cs
            (finalize_index cb ec dg cs
              (verify_request cb ec dg cs c first.state.request first.blind_enc
                first.state.client_key).1
              first.state.client_key
              first.blind_enc
              first.key_out
              anon_origin_id).1
            c'
        → (c1 : cs.Cache) × (c2 : cs.Cache) × (verify_request cb ec dg cs c' second.state.request
              second.blind_enc second.state.client_key
            ≡ (ok tt, c1))
          × (finalize_index cb ec dg cs c1 second.state.client_key second.blind_enc second.key_out
                anon_origin_id
              ≡ (ok id, c2))
    finalize_index-Run-verify_request first second c c' agreed run =
        let (c1, c2, admitted, counted, remembered) = visited first c agreed in
        let run1 : Run cb ec dg cs
            (finalize_index cb ec dg cs c1 first.state.client_key first.blind_enc first.key_out
              anon_origin_id).1
            c' =
          subst
            (λ o.
              Run cb ec dg cs
                (finalize_index cb ec dg cs o.1 first.state.client_key first.blind_enc first.key_out
                  anon_origin_id).1
                c')
            admitted run in
        let run2 : Run cb ec dg cs c2 c' = subst (λ o. Run cb ec dg cs o.1 c') counted run1 in
        let kept =
          Run-Remembers cb ec dg cs (dg.hex (ec.marshal_compressed (ec.public key))) (dg.hex id)
            (dg.hex anon_origin_id) run2
            (subst (λ k. Remembers cb ec dg cs c2 (dg.hex k) (dg.hex id) (dg.hex anon_origin_id))
              (client_key_lem first) remembered) in
        let (c3, c4, admitted', counted', _) =
          visited second c' (Remembers-Agrees second c' kept) in
        (c3, c4, admitted', counted')
