-- ===== src/Runs/Attester.antt =====
-- The attester of rate-limited tokens, over toy cryptography.
use pat_go.Base.{
  ◌≡◌, ◌≢◌, ◌⊎◌, refl, none, some, Option, List, [], ◌∷◌, Bytes, ok, replicate, arith, bytes_equal,
  bytes_equal_refl, bytes_equal→eq, if◌then◌else◌, Bool-cases, inl, inr,
}
use pat_go.Wire.Sample.{sample}
use pat_go.Ecdsa.Sample.{curve}
use pat_go.Type3
use pat_go.Type3.Request.{RateLimitedRequest}
use pat_go.Type3.Clients.{ClientState, new_client_state, ClientStateCache, lookup}
use pat_go.Type3.Attester.{
  Digests, record_index, finalize_index, verify_request, inner_verify_request, unmarshal_public_key,
  blinded_key, client_blind, index_of, compute_index, register,
}
use pat_go.Type3.Commitments.{Run}
use pat_go.Type3.Admission.{Authenticates, Unreported}

abbrev pub request : RateLimitedRequest
request = record {
  raw = none;
  request_key = replicate 49 1;
  name_key_id = replicate 32 2;
  encrypted_token_request = 3 ∷ 4 ∷ [];
  signature = replicate 96 5;
}

abbrev pub digests : Digests
digests = record { sha384 = λ x. x; hkdf = λ secret salt info n. ok secret; hex = λ x. x }

abbrev pub assoc_get : List (Bytes × ClientState) → Bytes → Option ClientState
assoc_get [] k = none
assoc_get ((k', s) ∷ c) k = let rest = assoc_get c k in if bytes_equal k k' then some s else rest

pub get_same :
    (c : List (Bytes × ClientState)) (k : Bytes) (s : ClientState)
    → assoc_get ((k, s) ∷ c) k ≡ some s
get_same c k s = ground (arith, bytes_equal_refl k)

pub get_other :
    (c : List (Bytes × ClientState)) (k k' : Bytes) (s : ClientState)
    → k ≢ k'
    → assoc_get ((k', s) ∷ c) k ≡ assoc_get c k
get_other c k k' s h = elim (Bool-cases (bytes_equal k k')) [
  | inl e ↦ absurd (h (bytes_equal→eq k k' e))
  | inr e ↦ ground arith
]

abbrev pub cache : ClientStateCache
cache = record {
  Cache = List (Bytes × ClientState);
  get = assoc_get;
  put = λ c k s. (k, s) ∷ c;
  get-put_same = get_same;
  get-put_other = get_other;
}

abbrev pub client : Bytes
client = replicate 49 1

verified : (verify_request sample curve digests cache [] request [] client).0 ≡ ok tt
unfolding verify_request inner_verify_request unmarshal_public_key blinded_key client_blind
    bytes_equal
verified = refl

verify_request-ok_example :
    (Authenticates sample curve digests request [] client
      × ((verify_request sample curve digests cache [] request [] client).1
          ≡ register sample curve digests cache [] client))
    ⊎ (Unreported sample curve digests request []
        × ((verify_request sample curve digests cache [] request [] client).1 ≡ []))
verify_request-ok_example =
    Type3.Admission.verify_request-ok sample curve digests cache [] request [] client verified

admitted :
    cache.get (verify_request sample curve digests cache [] request [] client).1 client
    ≡ some new_client_state
unfolding verify_request inner_verify_request unmarshal_public_key blinded_key client_blind
    bytes_equal
admitted = refl

abbrev known : List (Bytes × ClientState)
known = (client, new_client_state) ∷ []

abbrev later : List (Bytes × ClientState)
later = (finalize_index sample curve digests cache known client [] (7 ∷ []) (9 ∷ [])).1

first_index :
    (finalize_index sample curve digests cache known client [] (7 ∷ []) (9 ∷ [])).0 ≡ ok (7 ∷ [])
unfolding finalize_index index_of unmarshal_public_key client_blind compute_index record_index
    lookup bytes_equal
first_index = refl

second_index :
    (finalize_index sample curve digests cache later client [] (7 ∷ []) (9 ∷ [])).0 ≡ ok (7 ∷ [])
unfolding finalize_index index_of unmarshal_public_key client_blind compute_index record_index
    lookup bytes_equal
second_index = refl

finalize_index-Run-finalize_index_example : ◌≡◌ {A = Bytes} (9 ∷ []) (9 ∷ [])
finalize_index-Run-finalize_index_example =
    Type3.Commitments.finalize_index-Run-finalize_index sample curve digests cache (λ x y e. e)
      known later client [] (7 ∷ []) (9 ∷ []) [] (7 ∷ []) (9 ∷ []) (7 ∷ []) first_index Run.here
      second_index

abbrev visited : ClientState
visited = record { origin_indices = (9 ∷ [], 7 ∷ []) ∷ []; client_indices = (7 ∷ [], 9 ∷ []) ∷ [] }

known_origin : lookup (9 ∷ []) visited.origin_indices ≡ some (7 ∷ [])
unfolding lookup bytes_equal
known_origin = refl

free_index : lookup (8 ∷ []) visited.client_indices ≡ none
unfolding lookup bytes_equal
free_index = refl
