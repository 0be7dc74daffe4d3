-- ===== src/Type3/Commitments.antt =====
-- What the attester never forgets: an issuer origin identifier that a client has used belongs to one
-- origin, whatever requests the attester handles.
use pat_go.Base.{
  ◌≡◌, ◌≢◌, ◌⊎◌, ap, sym, ◌∙◌, subst, some, Bytes, bytes_equal, bytes_equal_refl, bytes_equal→eq,
  Outcome, ok, err, panic, ◌>>◌, arith, Bool-cases, Option-cases, Outcome-cases, >>=-eq-ok, inl,
  inr,
}
use pat_go.Wire.{Cryptobyte}
use pat_go.Ecdsa.{Ecdsa}
use pat_go.Type3.Request.{RateLimitedRequest}
use pat_go.Type3.Clients.{ClientState, new_client_state, ClientStateCache}
use pat_go.Type3.Attester.{
  Digests, record_index, register, verify_request, index_of, finalize_index,
}
use pat_go.Type3.Ledger.{verdict}
use pat_go.Type3.Machines.{admit-cases, verify_request-verdict}
use pat_go.Type3.Indices.{Commits, record_index-keeps, record_index-ok}

module _ (cb : Cryptobyte) (ec : Ecdsa) (dg : Digests) (cs : ClientStateCache) where
  -- The same for a client of the cache.
  abbrev pub Remembers : cs.Cache → Bytes → Bytes → Bytes → Type 0
  Remembers c client index origin =
      (s : ClientState) × (cs.get c client ≡ some s) × Commits s index origin

  put-Remembers :
      (c : cs.Cache) (key client index origin : Bytes) (s s' : ClientState)
      → cs.get c key ≡ some s
      → (Commits s index origin → Commits s' index origin)
      → Remembers c client index origin
      → Remembers (cs.put c key s') client index origin
  put-Remembers c key client index origin s s' found keeps (t, h, k) =
      elim (Bool-cases (bytes_equal client key)) [
        | inl e ↦
            let same = bytes_equal→eq client key e in
            let t' : t ≡ s = ground (arith, same) in
            (
              s',
              rw same (cs.get-put_same c key s'),
              keeps (subst (λ t. Commits t index origin) t' k),
            )
        | inr e ↦
            let other =
              cs.get-put_other c client key s' (λ same. cc (same, e, bytes_equal_refl client)) in
            (t, other ∙ h, k)
      ]

  register_keeps :
      (c : cs.Cache) (key client : Bytes) {t : ClientState}
      → cs.get c client ≡ some t
      → cs.get (register cb ec dg cs c key) client ≡ some t
  register_keeps c key client {t} h = elim (Option-cases (cs.get c key)) [
    | inl e ↦
        let other = cs.get-put_other c client key new_client_state (λ same. cc (same, e, h)) in
        simp (e, other, h, register)
    | inr (s, e) ↦ simp (e, h, register)
  ]

  -- The two ways in which a handler leaves the cache.
  verify_request-cache :
      (c : cs.Cache) (r : RateLimitedRequest) (blind client : Bytes)
      → ((verify_request cb ec dg cs c r blind client).1 ≡ c)
        ⊎ ((verify_request cb ec dg cs c r blind client).1 ≡ register cb ec dg cs c (dg.hex client))
  verify_request-cache c r blind client =
      let left = ap (λ o. o.1) (verify_request-verdict cb ec dg cs c r blind client) in
      elim (admit-cases cb ec dg cs (verdict cb ec dg r blind client) c (dg.hex client)) [
        | inl e ↦ inl (left ∙ e)
        | inr e ↦ inr (left ∙ e)
      ]

  finalize_index-cases :
      (c : cs.Cache) (client blind key origin : Bytes)
      → ((out : Outcome Bytes) × ((index : Bytes) → ◌≢◌ {A = Outcome Bytes} out (ok index))
          × (finalize_index cb ec dg cs c client blind key origin ≡ (out, c)))
        ⊎ ((s : ClientState) × (index : Bytes) × (cs.get c (dg.hex client) ≡ some s)
            × (finalize_index cb ec dg cs c client blind key origin ≡ (
              (record_index s (dg.hex origin) (dg.hex index)).0 >> ok index,
              cs.put c (dg.hex client) (record_index s (dg.hex origin) (dg.hex index)).1,
            )))
  unfolding finalize_index
  finalize_index-cases c client blind key origin =
      elim (Outcome-cases (index_of cb ec dg client blind key)) [
        | inr (inl (message, e)) ↦ inl (err message, λ index h. cc, simp (e, finalize_index))
        | inr (inr e) ↦ inl (panic, λ index h. cc, simp (e, finalize_index))
        | inl (index, e) ↦ elim (Option-cases (cs.get c (dg.hex client))) [
          | inl e1 ↦ inl (err "Unknown client ID", λ index h. cc, simp (e, e1, finalize_index))
          | inr (s, e1) ↦ inr (s, index, e1, simp (e, e1, finalize_index))
        ]
      ]

  -- One request handled, however it ends.
  pub data Step : cs.Cache → cs.Cache → Type 0 where
    verified :
        (c : cs.Cache) (r : RateLimitedRequest) (blind client : Bytes)
        → Step c (verify_request cb ec dg cs c r blind client).1
    finalized :
        (c : cs.Cache) (client blind key origin : Bytes)
        → Step c (finalize_index cb ec dg cs c client blind key origin).1

  -- Any number of requests.
  pub data Run (c : cs.Cache) : cs.Cache → Type 0 where
    here : Run c c
    after : {c1 c2 : cs.Cache} → Run c c1 → Step c1 c2 → Run c c2

  Step-Remembers :
      {c c' : cs.Cache} (client index origin : Bytes)
      → Step c c'
      → Remembers c client index origin
      → Remembers c' client index origin
  Step-Remembers client index origin (verified c r blind key) (t, h, k) =
      elim (verify_request-cache c r blind key) [
        | inl e ↦ subst (λ c. Remembers c client index origin) (sym e) (t, h, k)
        | inr e ↦
            subst (λ c. Remembers c client index origin) (sym e)
              (t, register_keeps c (dg.hex key) client h, k)
      ]
  Step-Remembers client index origin (finalized c key blind request_key anon) m =
      elim (finalize_index-cases c key blind request_key anon) [
        | inl (out, _, e) ↦ subst (λ o. Remembers o.1 client index origin) (sym e) m
        | inr (s, i, found, e) ↦
            subst (λ o. Remembers o.1 client index origin) (sym e)
              (put-Remembers c (dg.hex key) client index origin s
                (record_index s (dg.hex anon) (dg.hex i)).1 found
                (record_index-keeps s (dg.hex anon) (dg.hex i) index origin) m)
      ]

  pub Run-Remembers :
      {c c' : cs.Cache} (client index origin : Bytes)
      → Run c c'
      → Remembers c client index origin
      → Remembers c' client index origin
  Run-Remembers client index origin here m = m
  Run-Remembers client index origin (after run step) m =
      Step-Remembers client index origin step (Run-Remembers client index origin run m)

  some_inj : {x y : ClientState} → some x ≡ some y → x ≡ y
  some_inj e = cc

  -- A call that returns an index has recorded it, and found nothing else recorded for it.
  finalize_index-ok :
      (c : cs.Cache) (client blind key origin index : Bytes)
      → (finalize_index cb ec dg cs c client blind key origin).0 ≡ ok index
      → Remembers
          (finalize_index cb ec dg cs c client blind key origin).1
          (dg.hex client)
          (dg.hex index)
          (dg.hex origin)
        × ((o : Bytes) → Remembers c (dg.hex client) (dg.hex index) o → o ≡ dg.hex origin)
  finalize_index-ok c client blind key origin index h =
      elim (finalize_index-cases c client blind key origin) [
        | inl (out, failed, e) ↦ absurd (failed index (subst (λ o. o.0 ≡ ok index) e h))
        | inr (s, i, found, e) ↦
            let (_, done, same) =
              >>=-eq-ok (record_index s (dg.hex origin) (dg.hex i)).0 (λ _. ok i)
                (subst (λ o. o.0 ≡ ok index) e h) in
            let i' : i ≡ index = ground arith in
            let (now, agrees) = record_index-ok s (dg.hex origin) (dg.hex i) done in
            subst
              (λ j.
                Remembers (finalize_index cb ec dg cs c client blind key origin).1 (dg.hex client)
                  (dg.hex j) (dg.hex origin)
                × ((o : Bytes) → Remembers c (dg.hex client) (dg.hex j) o → o ≡ dg.hex origin))
              i'
              (
                subst (λ o. Remembers o.1 (dg.hex client) (dg.hex i) (dg.hex origin)) (sym e)
                    (
                      (record_index s (dg.hex origin) (dg.hex i)).1,
                      cs.get-put_same c (dg.hex client) _,
                      now,
                    ),
                λ o (t, h1, k).
                    agrees o (subst (λ t. Commits t (dg.hex i) o) (some_inj (sym h1 ∙ found)) k),
              )
      ]

  -- Two calls for one client that return the same index are for the same origin, whatever requests
  -- are handled between them, given that no two byte strings have the same hexadecimal form.
  pub finalize_index-Run-finalize_index :
      ((x y : Bytes) → dg.hex x ≡ dg.hex y → x ≡ y)
      → (c c' : cs.Cache) (client blind key origin blind' key' origin' index : Bytes)
      → (finalize_index cb ec dg cs c client blind key origin).0 ≡ ok index
      → Run (finalize_index cb ec dg cs c client blind key origin).1 c'
      → (finalize_index cb ec dg cs c' client blind' key' origin').0 ≡ ok index
      → origin ≡ origin'
  finalize_index-Run-finalize_index injective c c' client blind key origin blind' key' origin' index
        h run h' =
      let (m, _) = finalize_index-ok c client blind key origin index h in
      let (_, agrees) = finalize_index-ok c' client blind' key' origin' index h' in
      injective origin origin' (
        agrees (dg.hex origin) (Run-Remembers (dg.hex client) (dg.hex index) (dg.hex origin) run m))
