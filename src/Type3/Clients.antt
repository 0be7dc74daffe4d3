-- ===== src/Type3/Clients.antt =====
-- The state that the attester keeps for each client (tokens/type3/attester.go), and the cache that
-- keeps it.
use pat_go.Base.{
  ◌≡◌, ◌≢◌, Option, none, some, List, [], ◌∷◌, Bytes, bytes_equal, bytes_equal_refl, bytes_equal→eq,
  if◌then◌else◌, arith, Bool-cases, inl, inr,
}

-- A Go map of strings: what was stored last is found first.
abbrev pub StringMap : Type 0
StringMap = List (Bytes × Bytes)

unfoldable pub lookup : Bytes → StringMap → Option Bytes
lookup k [] = none
lookup k ((k', v) ∷ m) = let rest = lookup k m in if bytes_equal k k' then some v else rest

abbrev pub insert : Bytes → Bytes → StringMap → StringMap
insert k v m = (k, v) ∷ m

pub lookup-insert_same : (k v : Bytes) (m : StringMap) → lookup k (insert k v m) ≡ some v
unfolding lookup
lookup-insert_same k v m = ground (arith, bytes_equal_refl k)

pub lookup-insert_other :
    (k k' v : Bytes) (m : StringMap) → k ≢ k' → lookup k (insert k' v m) ≡ lookup k m
unfolding lookup
lookup-insert_other k k' v m h = elim (Bool-cases (bytes_equal k k')) [
  | inl e ↦ absurd (h (bytes_equal→eq k k' e))
  | inr e ↦ ground arith
]

-- `originCounts` is never written or read after it is made.
pub record ClientState : Type 0 where
  pub origin_indices : StringMap
  pub client_indices : StringMap

abbrev pub new_client_state : ClientState
new_client_state = record { origin_indices = []; client_indices = [] }

-- The cache that the attester is given, behind an interface of the code. `Get` returns a pointer to
-- the state that was put, so that a write through it is a `put` here.
pub record ClientStateCache : Type 1 where
  pub Cache : Type 0
  pub get : Cache → Bytes → Option ClientState
  pub put : Cache → Bytes → ClientState → Cache
  pub get-put_same : (c : Cache) (k : Bytes) (s : ClientState) → get (put c k s) k ≡ some s
  pub get-put_other :
      (c : Cache) (k k' : Bytes) (s : ClientState) → k ≢ k' → get (put c k' s) k ≡ get c k
