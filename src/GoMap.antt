-- ===== src/GoMap.antt =====
-- A Go map with text keys: its entries, one for a key. The order of the list stands for the order in
-- which a `range` loop visits the map, which Go leaves open. A write drops the key's old entry and
-- puts the new one last.
pub mod Keys
use ninj_os_proxie_edge_fabr.Prelude.{
  ◌≡◌, ◌≢◌, refl, Bool, true, false, not, ◌||◌, All, Pairwise, Option, none, some, List, [], ◌∷◌,
  ◌++◌, arith, if◌then◌else◌, Text, ◌==◌, text_beq_iff, select,
}

module _ {ℓ} {V : Type ℓ} where
  abbrev pub differs : Text → Text × V → Bool
  differs key entry = not (entry.0 == key)

  -- `v, ok := m[key]`
  unfoldable pub lookup : Text → List (Text × V) → Option V
  lookup key [] = none
  lookup key (entry ∷ entries) =
      let later = lookup key entries in if differs key entry then later else some entry.1

  -- `m[key]`, with the value for a missing key.
  unfoldable pub value_or : V → Text → List (Text × V) → V
  unfolding lookup
  value_or fallback key entries = elim (lookup key entries) [ none ↦ fallback | some v ↦ v ]

  -- `delete(m, key)`
  unfoldable pub delete : Text → List (Text × V) → List (Text × V)
  delete key = select (differs key)

  -- `m[key] = v`
  unfoldable pub insert : Text → V → List (Text × V) → List (Text × V)
  unfolding delete
  insert key v entries = delete key entries ++ ((key, v) ∷ [])

  -- A read after a write sees the written value at its key, and the old ones elsewhere.
  pub lookup-insert :
      (key other : Text) (v : V) (entries : List (Text × V))
      → lookup other (insert key v entries)
        ≡ (if key == other then some v else lookup other entries)
  unfolding lookup insert delete select
  lookup-insert key other v [] = ground arith
  lookup-insert key other v ((k, w) ∷ entries) = ground (
    arith,
    text_beq_iff key other,
    text_beq_iff k key,
    text_beq_iff k other,
    lookup-insert key other v entries,
  )

  pub value_or-insert :
      (fallback : V) (key other : Text) (v : V) (entries : List (Text × V))
      → value_or fallback other (insert key v entries)
        ≡ (if key == other then v else value_or fallback other entries)
  unfolding value_or
  value_or-insert fallback key other v entries = ground (arith, lookup-insert key other v entries)

  -- `_, ok := m[key]`
  unfoldable pub has_key : Text → List (Text × V) → Bool
  unfolding lookup
  has_key key entries = elim (lookup key entries) [ none ↦ false | some v ↦ true ]

  pub has_key-insert :
      (key other : Text) (v : V) (entries : List (Text × V))
      → has_key other (insert key v entries) ≡ (key == other || has_key other entries)
  unfolding has_key
  has_key-insert key other v entries = ground (arith, lookup-insert key other v entries)

  -- No key has two entries.
  abbrev pub Distinct : List (Text × V) → Type 0
  Distinct = Pairwise (λ a b. a.0 ≢ b.0)

  pub lookup-Distinct :
      (key : Text) (entries : List (Text × V))
      → All (λ b. key ≢ b.0) entries
      → lookup key entries ≡ none
  unfolding lookup
  lookup-Distinct key [] h = refl
  lookup-Distinct key ((k, v) ∷ entries) h =
      ground (arith, h.0, text_beq_iff k key, lookup-Distinct key entries h.1)
