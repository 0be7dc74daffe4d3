-- ===== src/Type3/Interleaving.antt =====
-- Calls of the attester for several clients, in any order.
use pat_go.Base.{
  ◌≡◌, false, some, List, [], ◌∷◌, Bytes, bytes_equal, bytes_equal→eq, ok, ◌>>=◌, Bool-cases,
  Option-cases, Outcome-cases, inl, inr, ap, sym, subst, refl, ◌∙◌,
}
use pat_go.Wire.{Cryptobyte}
use pat_go.Ecdsa.{Ecdsa}
use pat_go.Type3.Clients.{ClientStateCache}
use pat_go.Type3.Attester.{Digests, record_index, index_of, finalize_index}
use pat_go.Type3.Ledger.{
  Call, verifying, finalizing, Answer, verified, finalized, Entry, verdict, client_of, entry_step,
  entry_run, calls_of, answers_of, entry, handle, handle_all,
}
use pat_go.Type3.Machines.{
  notes_of, record_index-entered, verify_request-verdict, entry-put_same, entry-put_other,
  entry-admit, entry-admit_other,
}

module _ (cb : Cryptobyte) (ec : Ecdsa) (dg : Digests) (cs : ClientStateCache) where
  pub finalize_index-entry :
      (c : cs.Cache) (client blind key origin : Bytes)
      → (
        finalized (finalize_index cb ec dg cs c client blind key origin).0,
        entry cb ec dg cs (finalize_index cb ec dg cs c client blind key origin).1 (dg.hex client),
      )
        ≡ entry_step cb ec dg
            (finalizing client blind key origin)
            (entry cb ec dg cs c (dg.hex client))
  unfolding finalize_index entry_step
  finalize_index-entry c client blind key origin =
      elim (Outcome-cases (index_of cb ec dg client blind key)) [
        | inr (inl (message, e)) ↦ simp (e, finalize_index, entry_step)
        | inr (inr e) ↦ simp (e, finalize_index, entry_step)
        | inl (index, e) ↦ elim (Option-cases (cs.get c (dg.hex client))) [
          | inl e1 ↦ simp (e, e1, finalize_index, entry_step, entry)
          | inr (s, e1) ↦
              let r = record_index s (dg.hex origin) (dg.hex index) in
              let step : ◌≡◌ {A = Answer × Entry}
                  (
                    finalized (r.0 >>= λ _. ok index),
                    entry cb ec dg cs (cs.put c (dg.hex client) r.1) (dg.hex client),
                  )
                  (finalized (r.0 >>= λ _. ok index), some (notes_of r.1)) =
                ap (λ n. (finalized (r.0 >>= λ _. ok index), n))
                  (entry-put_same cb ec dg cs c (dg.hex client) r.1) in
              rw (e, e1, finalize_index, entry_step)
                (step
                  ∙ ap (λ p. (finalized (p.0 >>= λ _. ok index), some p.1))
                      (record_index-entered s (dg.hex origin) (dg.hex index)))
        ]
      ]

  finalize_index-other :
      (c : cs.Cache) (client blind key origin k : Bytes)
      → bytes_equal k (dg.hex client) ≡ false
      → entry cb ec dg cs (finalize_index cb ec dg cs c client blind key origin).1 k
        ≡ entry cb ec dg cs c k
  unfolding finalize_index
  finalize_index-other c client blind key origin k apart =
      elim (Outcome-cases (index_of cb ec dg client blind key)) [
        | inr (inl (message, e)) ↦ simp (e, finalize_index)
        | inr (inr e) ↦ simp (e, finalize_index)
        | inl (index, e) ↦ elim (Option-cases (cs.get c (dg.hex client))) [
          | inl e1 ↦ simp (e, e1, finalize_index)
          | inr (s, e1) ↦
              let r = record_index s (dg.hex origin) (dg.hex index) in
              let stored : (finalize_index cb ec dg cs c client blind key origin).1
                  ≡ cs.put c (dg.hex client) r.1 =
                simp (e, e1, finalize_index) in
              ap (λ c. entry cb ec dg cs c k) stored
              ∙ entry-put_other cb ec dg cs c k (dg.hex client) r.1 apart
        ]
      ]

  -- A call is a step of its client's machine, and leaves the others where they are.
  pub handle-entry_step :
      (c : cs.Cache) (call : Call)
      → (
        (handle cb ec dg cs c call).0,
        entry cb ec dg cs (handle cb ec dg cs c call).1 (client_of cb ec dg call),
      )
        ≡ entry_step cb ec dg call (entry cb ec dg cs c (client_of cb ec dg call))
  unfolding handle entry_step
  handle-entry_step c (verifying r blind client) =
      ap (λ o. (verified o.0, entry cb ec dg cs o.1 (dg.hex client)))
        (verify_request-verdict cb ec dg cs c r blind client)
      ∙ ap (λ e. (verified (verdict cb ec dg r blind client >>= λ _. ok tt), e))
          (entry-admit cb ec dg cs (verdict cb ec dg r blind client) c (dg.hex client))
  handle-entry_step c (finalizing client blind key origin) =
      finalize_index-entry c client blind key origin

  pub handle-other :
      (c : cs.Cache) (call : Call) (k : Bytes)
      → bytes_equal k (client_of cb ec dg call) ≡ false
      → entry cb ec dg cs (handle cb ec dg cs c call).1 k ≡ entry cb ec dg cs c k
  unfolding handle
  handle-other c (verifying r blind client) k apart =
      ap (λ o. entry cb ec dg cs o.1 k) (verify_request-verdict cb ec dg cs c r blind client)
      ∙ entry-admit_other cb ec dg cs (verdict cb ec dg r blind client) c k (dg.hex client) apart
  handle-other c (finalizing client blind key origin) k apart =
      finalize_index-other c client blind key origin k apart

  -- The attester is a family of machines, one for each client, that do not know of each other: for
  -- any sequence of calls of VerifyRequest and FinalizeIndex, the answers to the calls for one
  -- client, and what the cache then says of it (whether it is registered, and for which origin it
  -- has used an identifier), are those of the client's machine on its own calls alone.
  pub handle_all-entry_run :
      (calls : List Call) (c : cs.Cache) (k : Bytes)
      → (
        answers_of cb ec dg k (handle_all cb ec dg cs c calls).0,
        entry cb ec dg cs (handle_all cb ec dg cs c calls).1 k,
      )
        ≡ entry_run cb ec dg (calls_of cb ec dg k calls) (entry cb ec dg cs c k)
  unfolding handle_all entry_run calls_of answers_of
  handle_all-entry_run [] c k = refl
  handle_all-entry_run (call ∷ calls) c k =
      let c1 = (handle cb ec dg cs c call).1 in
      let rest = handle_all-entry_run calls c1 k in
      elim (Bool-cases (bytes_equal k (client_of cb ec dg call))) [
        | inl e ↦
            let same = bytes_equal→eq k (client_of cb ec dg call) e in
            let step =
              subst
                (λ k'.
                  ((handle cb ec dg cs c call).0, entry cb ec dg cs c1 k')
                  ≡ entry_step cb ec dg call (entry cb ec dg cs c k'))
                (sym same) (handle-entry_step c call) in
            rw (e, handle_all, entry_run, calls_of, answers_of)
              (ap (λ o. ((handle cb ec dg cs c call).0 ∷ o.0, o.1)) rest
                ∙ ap
                    (λ o.
                      let (answers, e2) = entry_run cb ec dg (calls_of cb ec dg k calls) o.1 in
                      (o.0 ∷ answers, e2))
                    step)
        | inr e ↦
            rw (e, handle_all, calls_of, answers_of)
              (rest ∙ ap (entry_run cb ec dg (calls_of cb ec dg k calls)) (handle-other c call k e))
      ]

  -- The order in which the requests of different clients are handled does not matter: two sequences
  -- of calls of the attester that have, for each client, the same calls in the same order give each
  -- client the same answers, and leave the cache saying the same of it.
  pub handle_all-interleaved :
      (calls calls' : List Call) (c : cs.Cache)
      → ((k : Bytes) → calls_of cb ec dg k calls ≡ calls_of cb ec dg k calls')
      → (k : Bytes)
      → (answers_of cb ec dg k (handle_all cb ec dg cs c calls).0
          ≡ answers_of cb ec dg k (handle_all cb ec dg cs c calls').0)
        × (entry cb ec dg cs (handle_all cb ec dg cs c calls).1 k
            ≡ entry cb ec dg cs (handle_all cb ec dg cs c calls').1 k)
  handle_all-interleaved calls calls' c same k =
      let both =
        handle_all-entry_run calls c k
        ∙ ap (λ own. entry_run cb ec dg own (entry cb ec dg cs c k)) (same k)
        ∙ sym (handle_all-entry_run calls' c k) in
      (ap (λ o. o.0) both, ap (λ o. o.1) both)
