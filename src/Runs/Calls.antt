-- ===== src/Runs/Calls.antt =====
-- Calls of the attester for two clients, over toy cryptography.
use pat_go.Base.{
  ◌≡◌, ◌⊎◌, ok, refl, none, [], ◌∷◌, Bytes, arith, bytes_equal, bytes_equal→eq, Bool-cases, inl,
  inr, List,
}
use pat_go.Wire.Sample.{sample}
use pat_go.Ecdsa.Sample.{curve}
use pat_go.Type3.Clients.{lookup}
use pat_go.Type3.Attester.{
  record_index, finalize_index, verify_request, inner_verify_request, unmarshal_public_key,
  blinded_key, client_blind, index_of, compute_index,
}
use pat_go.Type3.Admission.{Authenticates}
use pat_go.Type3.Authentication.{finalize_index-Authenticated}
use pat_go.Type3.Ledger.{
  handle, Call, verifying, finalizing, entry_run, calls_of, answers_of, entry, handle_all,
}
use pat_go.Type3.Interleaving.{handle_all-entry_run, handle_all-interleaved}
use pat_go.Runs.Attester.{request, digests, cache, client}

-- The client comes to an origin; a stranger asks in between.
abbrev calls : List Call
calls =
    verifying request [] client
    ∷ finalizing (2 ∷ []) [] (7 ∷ []) (9 ∷ [])
    ∷ finalizing client [] (7 ∷ []) (9 ∷ [])
    ∷ []

-- The stranger asks first.
abbrev stranger_first : List Call
stranger_first =
    finalizing (2 ∷ []) [] (7 ∷ []) (9 ∷ [])
    ∷ verifying request [] client
    ∷ finalizing client [] (7 ∷ []) (9 ∷ [])
    ∷ []

handle_all-entry_run_example :
    (
      answers_of sample curve digests client (handle_all sample curve digests cache [] calls).0,
      entry sample curve digests cache (handle_all sample curve digests cache [] calls).1 client,
    )
    ≡ entry_run sample curve digests
        (verifying request [] client ∷ finalizing client [] (7 ∷ []) (9 ∷ []) ∷ [])
        none
unfolding calls_of bytes_equal
handle_all-entry_run_example = handle_all-entry_run sample curve digests cache calls [] client

same_calls :
    (k : Bytes)
    → calls_of sample curve digests k calls ≡ calls_of sample curve digests k stranger_first
unfolding calls_of bytes_equal
same_calls k = elim (Bool-cases (bytes_equal k client)) [
  | inl e ↦ rw (bytes_equal→eq k client e) refl
  | inr e ↦ ground (arith, e)
]

handle_all-interleaved_example :
    (answers_of sample curve digests client (handle_all sample curve digests cache [] calls).0
      ≡ answers_of sample curve digests client
          (handle_all sample curve digests cache [] stranger_first).0)
    × (entry sample curve digests cache (handle_all sample curve digests cache [] calls).1 client
        ≡ entry sample curve digests cache
            (handle_all sample curve digests cache [] stranger_first).1
            client)
handle_all-interleaved_example =
    handle_all-interleaved sample curve digests cache calls stranger_first [] same_calls client

served :
    (finalize_index sample curve digests cache
      (handle_all sample curve digests cache [] (verifying request [] client ∷ [])).1
      client
      []
      (7 ∷ [])
      (9 ∷ [])).0
    ≡ ok (7 ∷ [])
unfolding handle_all handle verify_request inner_verify_request unmarshal_public_key blinded_key
    client_blind finalize_index index_of compute_index record_index lookup bytes_equal
served = refl

finalize_index-Authenticated_example :
    ((client ≡ client) × Authenticates sample curve digests request [] client) ⊎ ⊥
finalize_index-Authenticated_example =
    finalize_index-Authenticated sample curve digests cache (verifying request [] client ∷ []) []
      client [] (7 ∷ []) (9 ∷ []) (7 ∷ []) refl served
