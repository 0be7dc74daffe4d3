-- ===== src/Type3/Ledger.antt =====
-- An abstract view of the attester (tokens/type3/attester.go): each client has a machine of its own,
-- which knows whether the client is registered, and for which origin it has used an identifier.
use pat_go.Base.{
  Bool, true, false, Option, none, some, List, [], ◌∷◌, Bytes, bytes_equal, if◌then◌else◌, Outcome,
  ok, err, panic, ◌>>=◌,
}
use pat_go.Wire.{Cryptobyte}
use pat_go.Ecdsa.{Ecdsa}
use pat_go.Type3.Request.{RateLimitedRequest}
use pat_go.Type3.Clients.{ClientStateCache, lookup}
use pat_go.Type3.Attester.{
  Digests, inner_verify_request, unmarshal_public_key, blinded_key, index_of, verify_request,
  finalize_index,
}

-- A call of a handler, with its arguments.
pub data Call : Type 0 where
  verifying : (request : RateLimitedRequest) (blind client_key : Bytes) → Call
  finalizing : (client_key blind request_key anon_origin_id : Bytes) → Call

pub data Answer : Type 0 where
  verified : Outcome (Unit {0}) → Answer
  finalized : Outcome Bytes → Answer

-- The origin for which an identifier was used.
abbrev pub Notes : Type 0
Notes = Bytes → Option Bytes

-- `none` is a client that is not registered.
abbrev pub Entry : Type 0
Entry = Option Notes

abbrev pub noted : Notes → Bytes → Bytes → Notes
noted notes index origin index' = if bytes_equal index' index then some origin else notes index'

-- A failure that is not reported, and admits no one.
abbrev pub unreported {ℓ} : {A : Type ℓ} → Outcome A → (A → Outcome Bool) → Outcome Bool
unreported panic next = panic
unreported (err e) next = ok false
unreported (ok a) next = next a

abbrev pub admitted : Outcome Bool → Entry → Entry
admitted (ok true) none = some (λ index. none)
admitted (ok true) (some notes) = some notes
admitted (ok false) e = e
admitted (err message) e = e
admitted panic e = e

-- An identifier belongs to one origin.
abbrev pub entered : Notes → Bytes → Bytes → Outcome (Unit {0}) × Notes
entered notes origin index = elim (notes index) [
  | none ↦ (ok tt, noted notes index origin)
  | some expected ↦
      if bytes_equal expected origin
      then (ok tt, notes)
      else (err "Repeated anonymous origin ID across client-committed origins", notes)
]

module _ (cb : Cryptobyte) (ec : Ecdsa) (dg : Digests) where
  -- What a request, a blind and a key come to, whoever is registered.
  unfoldable pub verdict : RateLimitedRequest → Bytes → Bytes → Outcome Bool
  verdict request blind client_key = unreported (inner_verify_request cb ec dg request) λ _.
      unmarshal_public_key cb ec dg client_key >>= λ key.
      unreported (ec.create_key blind) λ blind_key.
        blinded_key cb ec dg key blind_key >>= λ encoded.
        if bytes_equal encoded request.request_key
        then ok true
        else err "Mismatch blinded public key"

  -- The client that a call is for.
  abbrev pub client_of : Call → Bytes
  client_of (verifying request blind client_key) = dg.hex client_key
  client_of (finalizing client_key blind request_key anon_origin_id) = dg.hex client_key

  -- The machine of a client.
  unfoldable pub entry_step : Call → Entry → Answer × Entry
  entry_step (verifying request blind client_key) e =
      let v = verdict request blind client_key in (verified (v >>= λ _. ok tt), admitted v e)
  entry_step (finalizing client_key blind request_key anon_origin_id) e =
      elim (index_of cb ec dg client_key blind request_key) [
        | panic ↦ (finalized panic, e)
        | err message ↦ (finalized (err message), e)
        | ok index ↦ elim e [
          | none ↦ (finalized (err "Unknown client ID"), none)
          | some notes ↦
              let (ended, notes') = entered notes (dg.hex anon_origin_id) (dg.hex index) in
              (finalized (ended >>= λ _. ok index), some notes')
        ]
      ]

  unfoldable pub entry_run : List Call → Entry → List Answer × Entry
  entry_run [] e = ([], e)
  entry_run (call ∷ calls) e =
      let (answer, e1) = entry_step call e in
      let (answers, e2) = entry_run calls e1 in (answer ∷ answers, e2)

  -- The calls for one client, and the answers to them.
  unfoldable pub calls_of : Bytes → List Call → List Call
  calls_of client [] = []
  calls_of client (call ∷ calls) =
      let rest = calls_of client calls in
      if bytes_equal client (client_of call) then call ∷ rest else rest

  unfoldable pub answers_of : Bytes → List (Bytes × Answer) → List Answer
  answers_of client [] = []
  answers_of client ((client', answer) ∷ answers) =
      let rest = answers_of client answers in
      if bytes_equal client client' then answer ∷ rest else rest

  module _ (cs : ClientStateCache) where
    -- What the cache says of a client.
    abbrev pub entry : cs.Cache → Bytes → Entry
    entry c client = elim (cs.get c client) [
      | none ↦ none
      | some s ↦ some (λ index. lookup index s.client_indices)
    ]

    -- The handlers, one call after the other.
    unfoldable pub handle : cs.Cache → Call → Answer × cs.Cache
    handle c (verifying request blind client_key) =
        let (out, c') = verify_request cb ec dg cs c request blind client_key in (verified out, c')
    handle c (finalizing client_key blind request_key anon_origin_id) =
        let (out, c') = finalize_index cb ec dg cs c client_key blind request_key anon_origin_id in
        (finalized out, c')

    unfoldable pub handle_all : cs.Cache → List Call → List (Bytes × Answer) × cs.Cache
    handle_all c [] = ([], c)
    handle_all c (call ∷ calls) =
        let (answer, c1) = handle c call in
        let (answers, c2) = handle_all c1 calls in ((client_of call, answer) ∷ answers, c2)
