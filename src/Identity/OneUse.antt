-- ===== src/Identity/OneUse.antt =====
-- A grant is used once, over any sequence of grants and consume calls (dashboard/identity_bridge.go).
use ninj_os_proxie_edge_fabr.Prelude.{
  ℕ, ◌<◌, ◌≡◌, ◌≢◌, ◌⊎◌, refl, sym, ap, ◌∙◌, subst, Option, none, some, List, [], ◌∷◌, ◌++◌, arith,
  Text, ◌==◌, text_beq_iff, Bool-cases, inl, inr, All, All-append,
}
use ninj_os_proxie_edge_fabr.Prelude.Int.{pos}
use ninj_os_proxie_edge_fabr.Identity.{
  Grant, Grants, cleanup_identity_grants, store_grant, GrantEnv, handle_identity_grant, clean_grant,
  ConsumeRequest, consume_grant,
}
use ninj_os_proxie_edge_fabr.Identity.Granting.{handle-kept}
use ninj_os_proxie_edge_fabr.Identity.Consuming.{consume-key, consume_none-store}

pub data Event : Type 0 where
  grant : GrantEnv → Grant → Event
  consume : ℕ → List Text → ConsumeRequest → Event

taken : Option Grant → List Grant
taken none = []
taken (some g) = g ∷ []

-- The grants that a consume call gives out, and the store.
unfoldable pub event : Event → Grants → List Grant × Grants
unfolding taken
event (grant env g) grants = ([], (handle_identity_grant env g grants).1)
event (consume now order r) grants =
    let (o, grants') = consume_grant now order r grants in (taken o, grants')

unfoldable pub events : List Event → Grants → List Grant × Grants
events [] grants = ([], grants)
events (e ∷ es) grants =
    let (gs, grants') = event e grants in
    let (hs, grants'') = events es grants' in (gs ++ hs, grants'')

-- A grant stands under its own id.
abbrev pub WellKeyed : Grants → Type 0
WellKeyed grants = (id : Text) (g : Grant) → grants id ≡ some g → g.grant_id ≡ id

-- If the id still stands for a grant, that one has been consumed.
abbrev pub IsUsed : Text → Grants → Type 0
IsUsed id grants = (g : Grant) → grants id ≡ some g → g.consumed_at ≢ pos 0

-- No new grant takes the id.
abbrev pub Avoids : Text → Event → Type 0
Avoids id (grant env g) = ((clean_grant g).grant_id ≢ id) × (env.random_id ≢ some id)
Avoids id (consume now order r) = Unit {0}

module _ (now : ℕ) (grants : Grants) where
  cleanup-present :
      (id : Text) (g : Grant) → cleanup_identity_grants now grants id ≡ some g → grants id ≡ some g
  unfolding cleanup_identity_grants
  cleanup-present id g e = ground arith

  store-present :
      (key id : Text) (g h : Grant)
      → store_grant key g (cleanup_identity_grants now grants) id ≡ some h
      → ((id ≡ key) × (g ≡ h)) ⊎ ((id ≢ key) × (grants id ≡ some h))
  unfolding store_grant
  store-present key id g h e = elim (Bool-cases (id == key)) [
    | inl y ↦ let same : some g ≡ some h = rw y at e in inl ((text_beq_iff id key).0 y, cc same)
    | inr n ↦ inr (λ q. ground (arith, text_beq_iff id key), cleanup-present id h (rw n at e))
  ]

  cleanup-WellKeyed : WellKeyed grants → WellKeyed (cleanup_identity_grants now grants)
  cleanup-WellKeyed k id g e = k id g (cleanup-present id g e)

  store-WellKeyed :
      (g : Grant) (key : Text)
      → g.grant_id ≡ key
      → WellKeyed grants
      → WellKeyed (store_grant key g (cleanup_identity_grants now grants))
  store-WellKeyed g key own k id h e = elim (store-present key id g h e) [
    | inl (same, gh) ↦ ap (λ (x : Grant). x.grant_id) (sym gh) ∙ own ∙ sym same
    | inr (other, f) ↦ k id h f
  ]

  store-IsUsed :
      (g : Grant) (key id : Text)
      → key ≢ id
      → IsUsed id grants
      → IsUsed id (store_grant key g (cleanup_identity_grants now grants))
  store-IsUsed g key id ne used h e = elim (store-present key id g h e) [
    | inl (same, gh) ↦ absurd (ne (sym same))
    | inr (other, f) ↦ used h f
  ]

-- What an event must leave for a used id.
abbrev Leaves : Text → List Grant × Grants → Type 0
Leaves id (gs, grants) = All (λ g. g.grant_id ≢ id) gs × WellKeyed grants × IsUsed id grants

grant-Leaves :
    (id : Text) (env : GrantEnv) (g : Grant) (grants : Grants)
    → Avoids id (grant env g)
    → WellKeyed grants
    → IsUsed id grants
    → Leaves id (event (grant env g) grants)
unfolding event
grant-Leaves id env g grants a k used = elim (handle-kept env g grants) [
  | inl same ↦ (tt, rw same k, rw same used)
  | inr (h, asked, stored) ↦
      let ne : h.grant_id ≢ id =
        λ e. elim asked [ inl q ↦ a.0 (q ∙ e) | inr q ↦ a.1 (q ∙ ap (λ (i : Text). some i) e) ] in
      (
        tt,
        rw stored (store-WellKeyed env.now grants h h.grant_id refl k),
        rw stored (store-IsUsed env.now grants h h.grant_id id ne used),
      )
]

consume-Leaves :
    (id : Text) (now : ℕ) (order : List Text) (r : ConsumeRequest) (grants : Grants)
    → WellKeyed grants
    → IsUsed id grants
    → Leaves id (event (consume now order r) grants)
unfolding event taken
consume-Leaves id now order r grants k used = go (consume_grant now order r grants).0 _ refl
  where
    go :
        (o : Option Grant) (grants' : Grants)
        → consume_grant now order r grants ≡ (o, grants')
        → Leaves id (taken o, grants')
    go none grants' e =
        rw (consume_none-store now order r grants grants' e)
          (tt, cleanup-WellKeyed now grants k, λ g f. used g (cleanup-present now grants id g f))
    go (some g') grants' e =
        let (key, g, present, unused, made, stored) = consume-key now order r grants g' grants' e in
        let had = cleanup-present now grants key g present in
        let own : g'.grant_id ≡ key = ap (λ (x : Grant). x.grant_id) made ∙ k key g had in
        let ne : key ≢ id = λ q. used g (subst (λ i. grants i ≡ some g) q had) unused in
        (
          (λ q. ne (sym own ∙ q), tt),
          rw stored (store-WellKeyed now grants g' key own k),
          rw stored (store-IsUsed now grants g' key id ne used),
        )

event-Leaves :
    (id : Text) (e : Event) (grants : Grants)
    → Avoids id e
    → WellKeyed grants
    → IsUsed id grants
    → Leaves id (event e grants)
event-Leaves id (grant env g) grants a k used = grant-Leaves id env g grants a k used
event-Leaves id (consume now order r) grants a k used = consume-Leaves id now order r grants k used

events-Leaves :
    (id : Text) (es : List Event) (grants : Grants)
    → All (Avoids id) es
    → WellKeyed grants
    → IsUsed id grants
    → Leaves id (events es grants)
unfolding events
events-Leaves id [] grants a k used = (tt, k, used)
events-Leaves id (e ∷ es) grants a k used =
    let one = event-Leaves id e grants a.0 k used in
    let rest = events-Leaves id es (event e grants).1 a.1 one.1 one.2 in
    (All-append (λ g. g.grant_id ≢ id) (event e grants).0 _ one.0 rest.0, rest.1, rest.2)

-- A grant that a call has given out, at a clock that does not read 0, is given out by no later call,
-- however grants and consume calls follow each other, as long as no new grant takes its id.
pub one_use :
    (now : ℕ) (order : List Text) (r : ConsumeRequest) (grants grants' : Grants) (g' : Grant)
    (es : List Event)
    → 0 < now
    → WellKeyed grants
    → consume_grant now order r grants ≡ (some g', grants')
    → All (Avoids g'.grant_id) es
    → All (λ g. g.grant_id ≢ g'.grant_id) (events es grants').0
one_use now order r grants grants' g' es running k h avoid =
    let (key, g, present, unused, made, stored) = consume-key now order r grants g' grants' h in
    let own : g'.grant_id ≡ key =
      ap (λ (x : Grant). x.grant_id) made ∙ k key g (cleanup-present now grants key g present) in
    let marked : g'.consumed_at ≢ pos 0 = rw made (λ e. ground arith) in
    (events-Leaves g'.grant_id es grants' avoid
      (rw stored (store-WellKeyed now grants g' key own k))
      (λ x e. elim (store-present now grants key g'.grant_id g' x (rw stored at e)) [
        | inl (same, gh) ↦ rw (sym gh) marked
        | inr (other, f) ↦ absurd (other own)
      ])).0
