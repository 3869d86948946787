-- ===== src/GoMap/Keys.antt =====
-- The keys of a map stay distinct, and a predicate of the entries is kept.
use ninj_os_proxie_edge_fabr.Prelude.{
  ◌≡◌, ◌≢◌, List, [], ◌∷◌, ◌++◌, arith, Text, ◌==◌, text_beq_iff, select, All, All-append,
  Bool-cases, Option-cases, subst, inl, inr, some,
}
use ninj_os_proxie_edge_fabr.GoMap.{insert, delete, differs, Distinct, lookup, value_or}

module _ {ℓ} {V : Type ℓ} where
  All-delete {κ} :
      (P : Text × V → Type κ) (key : Text) (entries : List (Text × V))
      → All P entries
      → All P (delete key entries)
  unfolding delete select
  All-delete P key [] h = tt
  All-delete P key (e ∷ entries) h = elim (Bool-cases (differs key e)) [
    | inl y ↦ rw y (h.0, All-delete P key entries h.1)
    | inr n ↦ rw n (All-delete P key entries h.1)
  ]

  pub All-insert {κ} :
      (P : Text × V → Type κ) (key : Text) (v : V) (entries : List (Text × V))
      → All P entries
      → P (key, v)
      → All P (insert key v entries)
  unfolding insert
  All-insert P key v entries h p =
      All-append P (delete key entries) ((key, v) ∷ []) (All-delete P key entries h) (p, tt)

  delete-All : (key : Text) (entries : List (Text × V)) → All (λ e. e.0 ≢ key) (delete key entries)
  unfolding delete select
  delete-All key [] = tt
  delete-All key ((k, v) ∷ entries) = elim (Bool-cases (k == key)) [
    | inl y ↦ rw y (delete-All key entries)
    | inr n ↦ rw n (λ e. ground (arith, e, n, text_beq_iff k key), delete-All key entries)
  ]

  Distinct-delete :
      (key : Text) (entries : List (Text × V)) → Distinct entries → Distinct (delete key entries)
  unfolding delete select
  Distinct-delete key [] h = tt
  Distinct-delete key (e ∷ entries) h = elim (Bool-cases (differs key e)) [
    | inl y ↦ rw y (All-delete (λ b. e.0 ≢ b.0) key entries h.0, Distinct-delete key entries h.1)
    | inr n ↦ rw n (Distinct-delete key entries h.1)
  ]

  Distinct-snoc :
      (key : Text) (v : V) (entries : List (Text × V))
      → Distinct entries
      → All (λ e. e.0 ≢ key) entries
      → Distinct (entries ++ ((key, v) ∷ []))
  Distinct-snoc key v [] d h = (tt, tt)
  Distinct-snoc key v (e ∷ entries) d h = (
    All-append (λ b. e.0 ≢ b.0) entries ((key, v) ∷ []) d.0 (h.0, tt),
    Distinct-snoc key v entries d.1 h.1,
  )

  pub Distinct-insert :
      (key : Text) (v : V) (entries : List (Text × V))
      → Distinct entries
      → Distinct (insert key v entries)
  unfolding insert
  Distinct-insert key v entries d =
      Distinct-snoc key v (delete key entries) (Distinct-delete key entries d)
        (delete-All key entries)

  lookup-All {κ} :
      (P : V → Type κ) (key : Text) (v : V) (entries : List (Text × V))
      → All (λ e. P e.1) entries
      → lookup key entries ≡ some v
      → P v
  unfolding lookup
  lookup-All P key v [] h e = absurd (cc e)
  lookup-All P key v ((k, w) ∷ entries) h e = elim (Bool-cases (k == key)) [
    | inl y ↦ let same : w ≡ v = ground (arith, y, e) in subst P same h.0
    | inr n ↦ lookup-All P key v entries h.1 (ground (arith, n, e))
  ]

  -- What holds of all entries holds of one that is found.
  pub lookup-entry {κ} :
      (P : Text × V → Type κ) (key : Text) (v : V) (entries : List (Text × V))
      → All P entries
      → lookup key entries ≡ some v
      → P (key, v)
  unfolding lookup
  lookup-entry P key v [] h e = absurd (cc e)
  lookup-entry P key v ((k, w) ∷ entries) h e = elim (Bool-cases (k == key)) [
    | inl y ↦
        let same : (k, w) ≡ (key, v) = ground (arith, y, e, text_beq_iff k key) in subst P same h.0
    | inr n ↦ lookup-entry P key v entries h.1 (ground (arith, n, e))
  ]

  -- What holds of all values and of the default holds of the value read.
  pub value_or-All {κ} :
      (P : V → Type κ) (fallback : V) (key : Text) (entries : List (Text × V))
      → P fallback
      → All (λ e. P e.1) entries
      → P (value_or fallback key entries)
  unfolding value_or
  value_or-All P fallback key entries p h = elim (Option-cases (lookup key entries)) [
    | inl e ↦ subst P (ground (arith, e)) p
    | inr (v, e) ↦ subst P (ground (arith, e)) (lookup-All P key v entries h e)
  ]
