-- ===== src/Identity/Selecting.antt =====
-- Which grant a consume call takes (dashboard/identity_bridge.go: handleIdentityConsume).
use ninj_os_proxie_edge_fabr.Prelude.{
  ℕ, ◌≡◌, refl, true, ◌||◌, Option, none, some, List, [], ◌∷◌, arith, Text, ◌==◌, text_beq,
  Bool-cases, inl, inr, All,
}
use ninj_os_proxie_edge_fabr.Prelude.Int.{ℤ, ◌≤ℤ◌, ltb_ℤ}
use ninj_os_proxie_edge_fabr.Identity.{
  Grant, Grants, ConsumeRequest, is_waiting, newer, consider, select_grant,
}

module _ (now : ℕ) (r : ConsumeRequest) (grants : Grants) where
  -- A selected grant is one of the store and waits.
  abbrev pub Stands : Option (Text × Grant) → Type 0
  Stands none = Unit {0}
  Stands (some (id, g)) = (grants id ≡ some g) × (is_waiting now r g ≡ true)

  -- Something is selected, and it is not older than `n`.
  abbrev pub AtLeast : ℤ → Option (Text × Grant) → Type 0
  AtLeast n none = ⊥
  AtLeast n (some (id, g)) = n ≤ℤ g.created_at

  newer-Stands :
      (best : Option (Text × Grant)) (id : Text) (g : Grant)
      → Stands best
      → Stands (some (id, g))
      → Stands (newer best id g)
  newer-Stands none id g s k = k
  newer-Stands (some (id', g')) id g s k =
      elim (Bool-cases (id' == [] || ltb_ℤ g'.created_at g.created_at)) [
        | inl b ↦ rw b k
        | inr b ↦ rw b s
      ]

  consider-Stands :
      (best : Option (Text × Grant)) (id : Text) (o : Option Grant)
      → grants id ≡ o
      → Stands best
      → Stands (consider now r best id o)
  unfolding consider
  consider-Stands best id none e s = s
  consider-Stands best id (some g) e s = elim (Bool-cases (is_waiting now r g)) [
    | inl w ↦ rw w (newer-Stands best id g s (e, w))
    | inr w ↦ rw w s
  ]

  newer_keeps :
      (n : ℤ) (best : Option (Text × Grant)) (id : Text) (g : Grant)
      → grants [] ≡ none
      → Stands best
      → AtLeast n best
      → AtLeast n (newer best id g)
  unfolding text_beq
  newer_keeps n none id g e s l = absurd l
  newer_keeps n (some ([], g')) id g e s l = absurd (cc (e, s.0))
  newer_keeps n (some (c ∷ id', g')) id g e s l =
      elim (Bool-cases (ltb_ℤ g'.created_at g.created_at)) [
        | inl b ↦ rw b (ground arith)
        | inr b ↦ rw b l
      ]

  newer_new :
      (best : Option (Text × Grant)) (id : Text) (g : Grant)
      → AtLeast g.created_at (newer best id g)
  newer_new none id g = omega arith
  newer_new (some (id', g')) id g =
      elim (Bool-cases (id' == [] || ltb_ℤ g'.created_at g.created_at)) [
        | inl b ↦ rw b (omega arith)
        | inr b ↦ rw b (ground arith)
      ]

  consider_keeps :
      (n : ℤ) (best : Option (Text × Grant)) (id : Text) (o : Option Grant)
      → grants [] ≡ none
      → Stands best
      → AtLeast n best
      → AtLeast n (consider now r best id o)
  unfolding consider
  consider_keeps n best id none e s l = l
  consider_keeps n best id (some g) e s l = elim (Bool-cases (is_waiting now r g)) [
    | inl w ↦ rw w (newer_keeps n best id g e s l)
    | inr w ↦ rw w l
  ]

  consider_new :
      (g : Grant) (best : Option (Text × Grant)) (id : Text)
      → grants id ≡ some g
      → is_waiting now r g ≡ true
      → AtLeast g.created_at (consider now r best id (grants id))
  unfolding consider
  consider_new g best id e w = rw (e, w) (newer_new best id g)

  pub select-Stands :
      (best : Option (Text × Grant)) (ids : List Text)
      → Stands best
      → Stands (select_grant now r grants best ids)
  unfolding select_grant
  select-Stands best [] s = s
  select-Stands best (id ∷ ids) s =
      select-Stands (consider now r best id (grants id)) ids
        (consider-Stands best id (grants id) refl s)

  select_keeps :
      (n : ℤ) (best : Option (Text × Grant)) (ids : List Text)
      → grants [] ≡ none
      → Stands best
      → AtLeast n best
      → AtLeast n (select_grant now r grants best ids)
  unfolding select_grant
  select_keeps n best [] e s l = l
  select_keeps n best (id ∷ ids) e s l =
      select_keeps n (consider now r best id (grants id)) ids e
        (consider-Stands best id (grants id) refl s) (consider_keeps n best id (grants id) e s l)

  -- Every waiting grant that is visited is matched by the selected one.
  abbrev pub Covered : Option (Text × Grant) → List Text → Type 0
  Covered chosen = All (λ id.
      (g : Grant) → grants id ≡ some g → is_waiting now r g ≡ true → AtLeast g.created_at chosen)

  pub select_covers :
      (best : Option (Text × Grant)) (ids : List Text)
      → grants [] ≡ none
      → Stands best
      → Covered (select_grant now r grants best ids) ids
  unfolding select_grant
  select_covers best [] e s = tt
  select_covers best (id ∷ ids) e s =
      let s' = consider-Stands best id (grants id) refl s in
      (
        λ g f w.
            select_keeps g.created_at (consider now r best id (grants id)) ids e s'
              (consider_new g best id f w),
        select_covers (consider now r best id (grants id)) ids e s',
      )
