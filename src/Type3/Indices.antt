-- ===== src/Type3/Indices.antt =====
-- What `record_index` of the attester does with the identifiers that a client has used.
use pat_go.Base.{
  ◌≡◌, ◌⊎◌, sym, ap, ◌∙◌, subst, none, some, true, false, Bytes, bytes_equal, bytes_equal_refl,
  bytes_equal→eq, ok, err, arith, Bool-cases, Option-cases, inl, inr,
}
use pat_go.Type3.Clients.{ClientState, lookup, lookup-insert_same, lookup-insert_other}
use pat_go.Type3.Attester.{visit, commit, record_index}

-- The client has used the issuer origin identifier for the origin.
abbrev pub Commits : ClientState → Bytes → Bytes → Type 0
Commits s index origin = lookup index s.client_indices ≡ some origin

module _ (s : ClientState) (origin index : Bytes) where
  -- An identifier that is free, or recorded for the origin, is recorded; another is refused.
  pub record_index_free :
      lookup index s.client_indices ≡ none
      → record_index s origin index ≡ (ok tt, commit (visit s origin index) origin index)
  unfolding record_index
  record_index_free e = rw (e, record_index)

  pub record_index_same :
      {expected : Bytes}
      → lookup index s.client_indices ≡ some expected
      → bytes_equal expected origin ≡ true
      → record_index s origin index ≡ (ok tt, commit (visit s origin index) origin index)
  unfolding record_index
  record_index_same e e' = simp (e, e', record_index)

  pub record_index_other :
      {expected : Bytes}
      → lookup index s.client_indices ≡ some expected
      → bytes_equal expected origin ≡ false
      → record_index s origin index
        ≡ (err "Repeated anonymous origin ID across client-committed origins", visit s origin index)
  unfolding record_index
  record_index_other e e' = simp (e, e', record_index)

  -- An identifier that is recorded is recorded for the origin asked for, and was free or recorded for
  -- it already; whatever else was recorded stays, also when it is refused.
  record_index-cases :
      ((record_index s origin index ≡ (ok tt, commit (visit s origin index) origin index))
        × ((o : Bytes) → Commits s index o → o ≡ origin))
      ⊎ (record_index s origin index ≡ (
        err "Repeated anonymous origin ID across client-committed origins",
        visit s origin index,
      ))
  record_index-cases = elim (Option-cases (lookup index s.client_indices)) [
    | inl e ↦ inl (record_index_free e, λ o h. cc)
    | inr (expected, e) ↦ elim (Bool-cases (bytes_equal expected origin)) [
      | inl e' ↦ inl (record_index_same e e', λ o h. ground (arith, bytes_equal→eq expected origin))
      | inr e' ↦ inr (record_index_other e e')
    ]
  ]

  commit-keeps :
      (k o : Bytes)
      → Commits s k o
      → ((o : Bytes) → Commits s index o → o ≡ origin)
      → Commits (commit (visit s origin index) origin index) k o
  commit-keeps k o h agrees = elim (Bool-cases (bytes_equal k index)) [
    | inl e ↦
        let same = bytes_equal→eq k index e in
        rw same (
          lookup-insert_same index origin s.client_indices
          ∙ ap some (sym (agrees o (rw same at h))))
    | inr e ↦
        lookup-insert_other k index origin s.client_indices
          (λ same. cc (same, e, bytes_equal_refl k))
        ∙ h
  ]

  pub record_index-keeps :
      (k o : Bytes) → Commits s k o → Commits (record_index s origin index).1 k o
  record_index-keeps k o h = elim record_index-cases [
    | inl (e, agrees) ↦ subst (λ r. Commits r.1 k o) (sym e) (commit-keeps k o h agrees)
    | inr e ↦ subst (λ r. Commits r.1 k o) (sym e) h
  ]

  pub record_index-ok :
      (record_index s origin index).0 ≡ ok tt
      → Commits (record_index s origin index).1 index origin
        × ((o : Bytes) → Commits s index o → o ≡ origin)
  record_index-ok h = elim record_index-cases [
    | inl (e, agrees) ↦ (
      subst (λ r. Commits r.1 index origin) (sym e)
          (lookup-insert_same index origin s.client_indices),
      agrees,
    )
    | inr e ↦ cc
  ]

  -- An origin that the client has visited under an old identifier, and that comes with an identifier
  -- not used before, is recorded without an error: it keeps the old identifier in one map, and the
  -- new one is recorded for it in the other.
  pub record_index_known_origin :
      (old : Bytes)
      → lookup origin s.origin_indices ≡ some old
      → lookup index s.client_indices ≡ none
      → ((record_index s origin index).0 ≡ ok tt)
        × (lookup origin (record_index s origin index).1.origin_indices ≡ some old)
        × Commits (record_index s origin index).1 index origin
  record_index_known_origin old known free =
      let e = record_index_free free in
      (
        ap (λ r. r.0) e,
        ap (λ r. lookup origin r.1.origin_indices) e ∙ kept,
        subst (λ r. Commits r.1 index origin) (sym e)
            (lookup-insert_same index origin s.client_indices),
      )
    where
      kept : lookup origin (visit s origin index).origin_indices ≡ some old
      kept = rw (known, visit) known
