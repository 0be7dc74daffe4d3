-- ===== src/Type3/Authentication.antt =====
-- Who is served: what the attester's calls so far say of a client that is registered.
use pat_go.Base.{
  ◌≡◌, ◌⊎◌, Bool, true, false, none, some, List, [], ◌∷◌, Bytes, bytes_equal, bytes_equal→eq,
  if◌then◌else◌, String, Outcome, ok, err, panic, >>=-eq-ok, Bool-cases, Option-cases,
  Outcome-cases, inl, inr, ap, sym, subst, refl, ◌∙◌,
}
use pat_go.Wire.{Cryptobyte}
use pat_go.Ecdsa.{Ecdsa}
use pat_go.Type3.Request.{RateLimitedRequest}
use pat_go.Type3.Clients.{ClientStateCache}
use pat_go.Type3.Attester.{
  Digests, inner_verify_request, unmarshal_public_key, blinded_key, index_of, finalize_index,
}
use pat_go.Type3.Ledger.{
  Call, verifying, finalizing, finalized, Notes, unreported, admitted, verdict, client_of,
  entry_step, entry, handle, handle_all,
}
use pat_go.Type3.Interleaving.{handle-entry_step, handle-other, finalize_index-entry}
use pat_go.Type3.Admission.{Authenticates}

unreported-inv {ℓ} :
    {A : Type ℓ} (call : Outcome A) (next : A → Outcome Bool)
    → unreported call next ≡ ok true
    → (a : A) × (call ≡ ok a) × (next a ≡ ok true)
unreported-inv panic next h = cc
unreported-inv (err e) next h = absurd (apart h)
  where
    apart : ok false ≡ ok true → ⊥
    apart h = cc
unreported-inv (ok a) next h = (a, refl, h)

checked-inv :
    (b : Bool) (message : String) → (if b then ok true else err message) ≡ ok true → b ≡ true
checked-inv true message h = refl
checked-inv false message h = cc

admitted-inv : (v : Outcome Bool) {notes : Notes} → admitted v none ≡ some notes → v ≡ ok true
admitted-inv panic h = cc
admitted-inv (err message) h = cc
admitted-inv (ok false) h = cc
admitted-inv (ok true) h = refl

module _ (cb : Cryptobyte) (ec : Ecdsa) (dg : Digests) where
  verdict-Authenticates :
      (r : RateLimitedRequest) (blind client : Bytes)
      → verdict cb ec dg r blind client ≡ ok true
      → Authenticates cb ec dg r blind client
  unfolding verdict
  verdict-Authenticates r blind client h =
      let (_, e, h1) = unreported-inv (inner_verify_request cb ec dg r) _ h in
      let (key, e1, h2) = >>=-eq-ok (unmarshal_public_key cb ec dg client) _ h1 in
      let (blind_key, e2, h3) = unreported-inv (ec.create_key blind) _ h2 in
      let (encoded, e3, h4) = >>=-eq-ok (blinded_key cb ec dg key blind_key) _ h3 in
      let same = bytes_equal→eq encoded r.request_key (checked-inv _ _ h4) in
      (key, blind_key, e, e1, e2, e3 ∙ ap ok same)

  -- One of the calls has authenticated the client.
  abbrev pub Authenticated : List Call → Bytes → Type 0
  Authenticated [] k = ⊥
  Authenticated (verifying r blind client ∷ calls) k =
      ((dg.hex client ≡ k) × Authenticates cb ec dg r blind client) ⊎ Authenticated calls k
  Authenticated (finalizing client blind request_key anon_origin_id ∷ calls) k =
      Authenticated calls k

  -- A machine that is not registered stays so, but for a verdict.
  entry_step-registers :
      (call : Call) (calls : List Call) {notes : Notes}
      → (entry_step cb ec dg call none).1 ≡ some notes
      → Authenticated (call ∷ calls) (client_of cb ec dg call)
  unfolding entry_step
  entry_step-registers (verifying r blind client) calls h = inl (
    refl,
    verdict-Authenticates r blind client (admitted-inv (verdict cb ec dg r blind client) h),
  )
  entry_step-registers (finalizing client blind key origin) calls h =
      elim (Outcome-cases (index_of cb ec dg client blind key)) [
        | inr (inl (message, e)) ↦ cc (rw (e, entry_step) at h)
        | inr (inr e) ↦ cc (rw (e, entry_step) at h)
        | inl (index, e) ↦ cc (rw (e, entry_step) at h)
      ]

  Authenticated-later :
      (call : Call) (calls : List Call) (k : Bytes)
      → Authenticated calls k
      → Authenticated (call ∷ calls) k
  Authenticated-later (verifying r blind client) calls k h = inr h
  Authenticated-later (finalizing client blind key origin) calls k h = h

  -- A machine that is not registered finds no identifier.
  entry_step-unknown :
      (client blind key origin index : Bytes)
      → (entry_step cb ec dg (finalizing client blind key origin) none).0 ≡ finalized (ok index)
      → ⊥
  unfolding entry_step
  entry_step-unknown client blind key origin index h =
      elim (Outcome-cases (index_of cb ec dg client blind key)) [
        | inr (inl (message, e)) ↦ cc (rw (e, entry_step) at h)
        | inr (inr e) ↦ cc (rw (e, entry_step) at h)
        | inl (index', e) ↦ cc (rw (e, entry_step) at h)
      ]

  module _ (cs : ClientStateCache) where
    handle-registers :
        (call : Call) (calls : List Call) (c : cs.Cache) (k : Bytes) {notes : Notes}
        → entry cb ec dg cs c k ≡ none
        → entry cb ec dg cs (handle cb ec dg cs c call).1 k ≡ some notes
        → Authenticated (call ∷ calls) k
    handle-registers call calls c k {notes} unknown known =
        elim (Bool-cases (bytes_equal k (client_of cb ec dg call))) [
          | inr apart ↦ cc (handle-other cb ec dg cs c call k apart, unknown, known)
          | inl own ↦
              let same = bytes_equal→eq k (client_of cb ec dg call) own in
              let step = ap (λ o. o.1) (handle-entry_step cb ec dg cs c call) in
              subst (Authenticated (call ∷ calls)) (sym same) (
                entry_step-registers call calls (
                  ap (λ n. (entry_step cb ec dg call n).1)
                    (sym (subst (λ k. entry cb ec dg cs c k ≡ none) same unknown))
                  ∙ sym step
                  ∙ subst (λ k. entry cb ec dg cs (handle cb ec dg cs c call).1 k ≡ some notes) same
                      known))
        ]

    handle_all-Authenticated :
        (calls : List Call) (c : cs.Cache) (k : Bytes) {notes : Notes}
        → entry cb ec dg cs c k ≡ none
        → entry cb ec dg cs (handle_all cb ec dg cs c calls).1 k ≡ some notes
        → Authenticated calls k
    unfolding handle_all
    handle_all-Authenticated [] c k unknown known = cc
    handle_all-Authenticated (call ∷ calls) c k unknown known =
        let c1 = (handle cb ec dg cs c call).1 in
        elim (Option-cases (entry cb ec dg cs c1 k)) [
          | inl e ↦ Authenticated-later call calls k (handle_all-Authenticated calls c1 k e known)
          | inr (notes', e) ↦ handle-registers call calls c k unknown e
        ]

    -- No client is served that was not authenticated: whatever calls the attester has handled since
    -- it did not know a client, when FinalizeIndex returns an identifier for the client, one of
    -- those calls was a VerifyRequest whose request had a valid signature under the client's key,
    -- blinded with the blind of that call.
    pub finalize_index-Authenticated :
        (calls : List Call) (c : cs.Cache) (client blind key origin index : Bytes)
        → cs.get c (dg.hex client) ≡ none
        → (finalize_index cb ec dg cs (handle_all cb ec dg cs c calls).1 client blind key origin).0
          ≡ ok index
        → Authenticated calls (dg.hex client)
    finalize_index-Authenticated calls c client blind key origin index unknown served =
        let c' = (handle_all cb ec dg cs c calls).1 in
        let k = dg.hex client in
        elim (Option-cases (entry cb ec dg cs c' k)) [
          | inr (notes, e) ↦ handle_all-Authenticated calls c k (simp (unknown, entry)) e
          | inl e ↦ absurd (
              entry_step-unknown client blind key origin index (
                ap (λ n. (entry_step cb ec dg (finalizing client blind key origin) n).0) (sym e)
                ∙ sym (ap (λ o. o.0) (finalize_index-entry cb ec dg cs c' client blind key origin))
                ∙ ap finalized served))
        ]
