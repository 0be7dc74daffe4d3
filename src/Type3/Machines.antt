-- ===== src/Type3/Machines.antt =====
-- The attester as a family of machines, one for each client.
use pat_go.Base.{
  ◌≡◌, ◌⊎◌, Bool, true, false, none, some, Bytes, bytes_equal, bytes_equal_refl, bytes_equal→eq,
  Outcome, ok, err, panic, ◌>>=◌, Bool-cases, Option-cases, Outcome-cases, inl, inr, ap, sym, refl,
  ◌∙◌,
}
use mathlib.Core.Path.{fun_ext}
use pat_go.Wire.{Cryptobyte}
use pat_go.Ecdsa.{Ecdsa}
use pat_go.Type3.Request.{RateLimitedRequest}
use pat_go.Type3.Clients.{ClientState, new_client_state, ClientStateCache, lookup}
use pat_go.Type3.Attester.{
  Digests, visit, commit, record_index, inner_verify_request, unmarshal_public_key, blinded_key,
  register, verify_request,
}
use pat_go.Type3.Indices.{record_index_free, record_index_same, record_index_other}
use pat_go.Type3.Ledger.{Notes, noted, admitted, entered, verdict, entry}

-- What a state says.
abbrev pub notes_of : ClientState → Notes
notes_of s index = lookup index s.client_indices

-- Noting what is noted already changes nothing.
noted_again :
    (notes : Notes) (index origin : Bytes)
    → notes index ≡ some origin
    → noted notes index origin ≡ notes
noted_again notes index origin known = fun_ext λ index'.
    elim (Bool-cases (bytes_equal index' index)) [
      | inl e ↦ let same = bytes_equal→eq index' index e in rw (e, same) (sym known)
      | inr e ↦ rw e refl
    ]

notes_of-commit :
    (s : ClientState) (origin index : Bytes)
    → notes_of (commit (visit s origin index) origin index) ≡ noted (notes_of s) index origin
unfolding lookup
notes_of-commit s origin index = refl

pub record_index-entered :
    (s : ClientState) (origin index : Bytes)
    → ((record_index s origin index).0, notes_of (record_index s origin index).1)
      ≡ entered (notes_of s) origin index
record_index-entered s origin index = elim (Option-cases (lookup index s.client_indices)) [
  | inl e ↦
      ap (λ r. (r.0, notes_of r.1)) (record_index_free s origin index e)
      ∙ ap (λ n. (ok tt, n)) (notes_of-commit s origin index)
      ∙ simp (e, entered)
  | inr (expected, e) ↦ elim (Bool-cases (bytes_equal expected origin)) [
    | inl e' ↦
        let same = bytes_equal→eq expected origin e' in
        ap (λ r. (r.0, notes_of r.1)) (record_index_same s origin index e e')
        ∙ ap (λ n. (ok tt, n))
            (notes_of-commit s origin index
              ∙ noted_again (notes_of s) index origin (e ∙ ap some same))
        ∙ simp (e, e', entered)
    | inr e' ↦
        ap (λ r. (r.0, notes_of r.1)) (record_index_other s origin index e e')
        ∙ simp (e, e', entered)
  ]
]

module _ (cb : Cryptobyte) (ec : Ecdsa) (dg : Digests) (cs : ClientStateCache) where
  -- Who is registered after a verdict.
  abbrev pub admit : Outcome Bool → cs.Cache → Bytes → cs.Cache
  admit (ok true) c key = register cb ec dg cs c key
  admit (ok false) c key = c
  admit (err message) c key = c
  admit panic c key = c

  pub admit-cases :
      (v : Outcome Bool) (c : cs.Cache) (key : Bytes)
      → (admit v c key ≡ c) ⊎ (admit v c key ≡ register cb ec dg cs c key)
  admit-cases (ok true) c key = inr refl
  admit-cases (ok false) c key = inl refl
  admit-cases (err message) c key = inl refl
  admit-cases panic c key = inl refl

  pub verify_request-verdict :
      (c : cs.Cache) (r : RateLimitedRequest) (blind client : Bytes)
      → verify_request cb ec dg cs c r blind client ≡ (
        verdict cb ec dg r blind client >>= λ _. ok tt,
        admit (verdict cb ec dg r blind client) c (dg.hex client),
      )
  unfolding verify_request verdict
  verify_request-verdict c r blind client = elim (Outcome-cases (inner_verify_request cb ec dg r)) [
    | inr (inl (_, e)) ↦ simp (e, verify_request, verdict)
    | inr (inr e) ↦ simp (e, verify_request, verdict)
    | inl (_, e) ↦ elim (Outcome-cases (unmarshal_public_key cb ec dg client)) [
      | inr (inl (_, e1)) ↦ simp (e, e1, verify_request, verdict)
      | inr (inr e1) ↦ simp (e, e1, verify_request, verdict)
      | inl (client_key, e1) ↦ elim (Outcome-cases (ec.create_key blind)) [
        | inr (inl (_, e2)) ↦ simp (e, e1, e2, verify_request, verdict)
        | inr (inr e2) ↦ simp (e, e1, e2, verify_request, verdict)
        | inl (blind_key, e2) ↦ elim (Outcome-cases (blinded_key cb ec dg client_key blind_key)) [
          | inr (inl (_, e3)) ↦ simp (e, e1, e2, e3, verify_request, verdict)
          | inr (inr e3) ↦ simp (e, e1, e2, e3, verify_request, verdict)
          | inl (encoded, e3) ↦ elim (Bool-cases (bytes_equal encoded r.request_key)) [
            | inl e4 ↦ simp (e, e1, e2, e3, e4, verify_request, verdict)
            | inr e4 ↦ simp (e, e1, e2, e3, e4, verify_request, verdict)
          ]
        ]
      ]
    ]
  ]

  pub entry-put_same :
      (c : cs.Cache) (k : Bytes) (s : ClientState)
      → entry cb ec dg cs (cs.put c k s) k ≡ some (notes_of s)
  entry-put_same c k s = rw (cs.get-put_same c k s, entry) refl

  pub entry-put_other :
      (c : cs.Cache) (k k' : Bytes) (s : ClientState)
      → bytes_equal k k' ≡ false
      → entry cb ec dg cs (cs.put c k' s) k ≡ entry cb ec dg cs c k
  entry-put_other c k k' s apart =
      ap (λ g. elim g [ none ↦ none | some s ↦ some (notes_of s) ])
        (cs.get-put_other c k k' s (λ same. cc (same, apart, bytes_equal_refl k)))

  pub entry-admit :
      (v : Outcome Bool) (c : cs.Cache) (k : Bytes)
      → entry cb ec dg cs (admit v c k) k ≡ admitted v (entry cb ec dg cs c k)
  unfolding lookup
  entry-admit panic c k = refl
  entry-admit (err message) c k = refl
  entry-admit (ok false) c k = refl
  entry-admit (ok true) c k = elim (Option-cases (cs.get c k)) [
    | inl e ↦ simp (e, entry, register, admitted, cs.get-put_same c k new_client_state)
    | inr (s, e) ↦ simp (e, entry, register, admitted)
  ]

  pub entry-admit_other :
      (v : Outcome Bool) (c : cs.Cache) (k k' : Bytes)
      → bytes_equal k k' ≡ false
      → entry cb ec dg cs (admit v c k') k ≡ entry cb ec dg cs c k
  entry-admit_other panic c k k' apart = refl
  entry-admit_other (err message) c k k' apart = refl
  entry-admit_other (ok false) c k k' apart = refl
  entry-admit_other (ok true) c k k' apart = elim (Option-cases (cs.get c k')) [
    | inl e ↦
        ap (λ c. entry cb ec dg cs c k) (simp (e, register))
        ∙ entry-put_other c k k' new_client_state apart
    | inr (s, e) ↦ ap (λ c. entry cb ec dg cs c k) (simp (e, register))
  ]
