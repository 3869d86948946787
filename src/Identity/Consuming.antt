-- ===== src/Identity/Consuming.antt =====
-- What a consume call answers (dashboard/identity_bridge.go: handleIdentityConsume).
use mathlib.Core.List.{Memᴰ}
use ninj_os_proxie_edge_fabr.Prelude.{
  ℕ, ◌≡◌, ◌≢◌, refl, sym, ap, ◌∙◌, subst, true, false, Option, none, some, List, [], ◌∷◌, arith,
  Text, ◌==◌, text_beq_iff, Option-cases, Bool-cases, inl, inr, All,
}
use ninj_os_proxie_edge_fabr.Prelude.Int.{ℤ, pos, ◌≤ℤ◌, ltb_ℤ}
use ninj_os_proxie_edge_fabr.GoText.{equal_fold}
use ninj_os_proxie_edge_fabr.Identity.{
  Grant, Grants, cleanup_identity_grants, store_grant, ConsumeRequest, is_waiting, select_grant,
  clean_consume, take_grant, consume_grant,
}
use ninj_os_proxie_edge_fabr.Identity.Selecting.{
  select-Stands, select_covers, Stands, AtLeast, Covered,
}

-- The grant that a call takes, and what it leaves.
pub record IsTaken (now : ℕ) (order : List Text) (r : ConsumeRequest) (g' : Grant)
    (grants grants' : Grants) : Type 0 where
  pub id : Text
  pub g : Grant
  pub present : grants id ≡ some g
  pub unused : g.consumed_at ≡ pos 0
  pub live : ltb_ℤ g.expires_at (pos now) ≡ false
  pub server : g.server_id ≡ (clean_consume r).server_id
  pub player : equal_fold g.username (clean_consume r).username ≡ true
  pub session : r.session_id ≢ [] → g.session_id ≡ r.session_id
  pub marked : g' ≡ record g { consumed_at = pos now }
  pub newest :
      All
        (λ k.
          (h : Grant)
          → cleanup_identity_grants now grants k ≡ some h
          → is_waiting now (clean_consume r) h ≡ true
          → h.created_at ≤ℤ g.created_at)
        order
  pub store : grants' ≡ store_grant id g' (cleanup_identity_grants now grants)

take-some :
    (now : ℕ) (kept : Grants) (o : Option (Text × Grant)) (id : Text) (g : Grant)
    → id ≢ []
    → o ≡ some (id, g)
    → (take_grant now o kept).0 ≡ some (record g { consumed_at = pos now })
unfolding take_grant
take-some now kept o id g named c = ground (arith, c, text_beq_iff id [])

module _ (now : ℕ) (order : List Text) (r : ConsumeRequest) (grants : Grants) where
  kept : Grants
  kept = cleanup_identity_grants now grants

  kept-present : (id : Text) (g : Grant) → kept id ≡ some g → grants id ≡ some g
  unfolding kept cleanup_identity_grants
  kept-present id g e = ground arith

  kept_blank : grants [] ≡ none → kept [] ≡ none
  unfolding kept cleanup_identity_grants
  kept_blank e = ground arith

  chosen : Option (Text × Grant)
  unfolding kept
  chosen = select_grant now (clean_consume r) kept none order

  consume_chosen : consume_grant now order r grants ≡ take_grant now chosen kept
  unfolding consume_grant chosen kept
  consume_chosen = refl

  taken-chosen :
      (g' : Grant) (grants' : Grants)
      → take_grant now chosen kept ≡ (some g', grants')
      → (id : Text) × (g : Grant) × (chosen ≡ some (id, g))
        × (g' ≡ record g { consumed_at = pos now })
        × (grants' ≡ store_grant id g' kept)
  unfolding take_grant
  taken-chosen g' grants' e = elim (Option-cases chosen) [
    | inl n ↦ ground arith
    | inr ((id, g), c) ↦ (id, g, c, ground arith, ground arith)
  ]

  chosen-Stands :
      (id : Text) (g : Grant)
      → chosen ≡ some (id, g)
      → (kept id ≡ some g) × (is_waiting now (clean_consume r) g ≡ true)
  unfolding chosen
  chosen-Stands id g c =
      subst (Stands now (clean_consume r) kept) c
        (select-Stands now (clean_consume r) kept none order tt)

  chosen-Covered : grants [] ≡ none → Covered now (clean_consume r) kept chosen order
  unfolding chosen
  chosen-Covered e = select_covers now (clean_consume r) kept none order (kept_blank e) tt

  -- What `is_waiting` asks of a grant.
  record Waits (g : Grant) : Type 0 where
    unused : g.consumed_at ≡ pos 0
    live : ltb_ℤ g.expires_at (pos now) ≡ false
    server : g.server_id ≡ (clean_consume r).server_id
    player : equal_fold g.username (clean_consume r).username ≡ true
    session : r.session_id ≢ [] → g.session_id ≡ r.session_id

  is_waiting-Waits : (g : Grant) → is_waiting now (clean_consume r) g ≡ true → Waits g
  unfolding is_waiting
  is_waiting-Waits g w = record {
    unused = ground arith;
    live = ground arith;
    server = ground (arith, text_beq_iff g.server_id (clean_consume r).server_id);
    player = ground arith;
    session =
        λ n. ground (arith, text_beq_iff r.session_id [], text_beq_iff g.session_id r.session_id);
  }

  -- The key and the grant that a call takes.
  pub consume-key :
      (g' : Grant) (grants' : Grants)
      → consume_grant now order r grants ≡ (some g', grants')
      → (id : Text) × (g : Grant) × (cleanup_identity_grants now grants id ≡ some g)
        × (g.consumed_at ≡ pos 0)
        × (g' ≡ record g { consumed_at = pos now })
        × (grants' ≡ store_grant id g' (cleanup_identity_grants now grants))
  consume-key g' grants' h =
      let (id, g, c, made, stored) = taken-chosen g' grants' (sym consume_chosen ∙ h) in
      let s = chosen-Stands id g c in
      unfold kept in (id, g, s.0, (is_waiting-Waits g s.1).unused, made, stored)

  -- A call that finds no grant leaves the cleaned store.
  pub consume_none-store :
      (grants' : Grants)
      → consume_grant now order r grants ≡ (none, grants')
      → grants' ≡ cleanup_identity_grants now grants
  unfolding take_grant kept
  consume_none-store grants' h = go chosen (sym consume_chosen ∙ h)
    where
      go : (o : Option (Text × Grant)) → take_grant now o kept ≡ (none, grants') → grants' ≡ kept
      go none e = ap (λ (x : Option Grant × Grants). x.1) (sym e)
      go (some (id, g)) e = elim (Bool-cases (id == [])) [
        | inl b ↦ ap (λ (x : Option Grant × Grants). x.1) (sym (rw b at e))
        | inr b ↦ let first = ap (λ (x : Option Grant × Grants). x.0) (rw b at e) in cc first
      ]

  -- A consume call that answers with a grant takes one that waited for this server and player (and
  -- session, if one is named): unused, not expired, and no waiting grant that the loop visits is
  -- newer. It is marked with the time, and all else stays, unless it is spent.
  pub consume-IsTaken :
      (g' : Grant) (grants' : Grants)
      → grants [] ≡ none
      → consume_grant now order r grants ≡ (some g', grants')
      → IsTaken now order r g' grants grants'
  consume-IsTaken g' grants' blank h =
      let (id, g, c, made, stored) = taken-chosen g' grants' (sym consume_chosen ∙ h) in
      let s = chosen-Stands id g c in
      let w = is_waiting-Waits g s.1 in
      record {
        id = id;
        g = g;
        present = kept-present id g s.0;
        unused = w.unused;
        live = w.live;
        server = w.server;
        player = w.player;
        session = w.session;
        marked = made;
        newest =
            unfold kept in
            subst (λ o. Covered now (clean_consume r) kept o order) c (chosen-Covered blank);
        store = unfold kept in stored;
      }

  AtLeast-some :
      (n : ℤ) (o : Option (Text × Grant))
      → AtLeast now (clean_consume r) kept n o
      → (id : Text) × (g : Grant) × (o ≡ some (id, g))
  AtLeast-some n none a = absurd a
  AtLeast-some n (some (id, g)) a = (id, g, refl)

  covers-mem :
      (ids : List Text) (id : Text) (g : Grant) (o : Option (Text × Grant))
      → Covered now (clean_consume r) kept o ids
      → Memᴰ id ids
      → kept id ≡ some g
      → is_waiting now (clean_consume r) g ≡ true
      → AtLeast now (clean_consume r) kept g.created_at o
  covers-mem [] id g o c m k w = elim m [ ]
  covers-mem (x ∷ ids) id g o c (Memᴰ.head e) k w = c.0 g (ap kept (sym e) ∙ k) w
  covers-mem (x ∷ ids) id g o c (Memᴰ.tail m) k w = covers-mem ids id g o c.1 m k w

  -- A grant that waits and is not spent is never missed: whatever the order of the visit, if the loop
  -- visits its key, the call answers with a grant.
  pub waiting_grant_consumed :
      (id : Text) (g : Grant)
      → grants [] ≡ none
      → Memᴰ id order
      → cleanup_identity_grants now grants id ≡ some g
      → is_waiting now (clean_consume r) g ≡ true
      → (g' : Grant) × ((consume_grant now order r grants).0 ≡ some g')
  unfolding kept
  waiting_grant_consumed id g blank m k w =
      let (id', g', c) =
        AtLeast-some g.created_at chosen
          (covers-mem order id g chosen (chosen-Covered blank) m k w) in
      let s = chosen-Stands id' g' c in
      let named : id' ≢ [] = λ e. cc (ap kept e, kept_blank blank, s.0) in
      (
        record g' { consumed_at = pos now },
        ap (λ (x : Option Grant × Grants). x.0) consume_chosen
            ∙ take-some now kept chosen id' g' named c,
      )
