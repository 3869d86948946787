-- ===== src/Identity/Granting.antt =====
-- What a granted identity is (dashboard/identity_bridge.go: handleIdentityGrant).
use ninj_os_proxie_edge_fabr.Prelude.{
  ℕ, ◌+◌, ◌≡◌, ◌≢◌, ◌⊎◌, refl, true, false, Option, none, some, [], ◌∷◌, arith, Text, text_beq_iff,
  Option-cases, inl, inr, ap,
}
use ninj_os_proxie_edge_fabr.Prelude.Int.{ℤ, pos, ◌-ℤ◌, ◌≤ℤ◌, ltb_ℤ}
use ninj_os_proxie_edge_fabr.GoText.{codes, or_else}
use ninj_os_proxie_edge_fabr.GoMap.{lookup}
use ninj_os_proxie_edge_fabr.Identity.{
  Grant, Grants, role_operator, role_permissions, session_core_authorized, unless_spent,
  cleanup_identity_grants, store_grant, profile_identity, GrantOutcome, granted, GrantEnv,
  clean_grant, expiry, fill_grant, grant_refusal, chosen_id, keep_grant, with_id, after_checks,
  handle_identity_grant,
}

expiry-ahead : (now : ℕ) (asked : ℤ) → ltb_ℤ (pos now) (expiry now asked) ≡ true
unfolding expiry
expiry-ahead now asked = ground arith

expiry-near : (now : ℕ) (asked : ℤ) → expiry now asked ≤ℤ pos (now + 120000)
unfolding expiry ◌-ℤ◌
expiry-near now asked = ground arith

-- How a grant came about.
record Steps (env : GrantEnv) (request : Grant) (g : Grant) (grants grants' : Grants) : Type 0 where
  id : Text
  role : Text
  accepted : grant_refusal env (clean_grant request) ≡ none
  made : g ≡ fill_grant env.now role id (clean_grant request)
  kept : grants' ≡ store_grant g.grant_id g (cleanup_identity_grants env.now grants)

module _ (env : GrantEnv) (request g : Grant) (grants grants' : Grants) where
  handle-Steps :
      handle_identity_grant env request grants ≡ (granted g, grants')
      → Steps env request g grants grants'
  unfolding handle_identity_grant keep_grant with_id after_checks
  handle-Steps h = elim (Option-cases (grant_refusal env (clean_grant request))) [
    | inr (e, r) ↦
        let outcome = ap (λ (x : GrantOutcome × Grants). x.0) (rw r at h) in absurd (cc outcome)
    | inl a ↦ elim (Option-cases (chosen_id env.random_id (clean_grant request).grant_id)) [
      | inl n ↦
          let outcome = ap (λ (x : GrantOutcome × Grants). x.0) (rw (a, n) at h) in
          absurd (cc outcome)
      | inr (id, n) ↦ record {
        id = id;
        role =
            or_else (profile_identity (clean_grant request).xuid env.profiles).role
              (codes "member");
        accepted = a;
        made = ground arith;
        kept = ground arith;
      }
    ]
  ]

-- What a granted identity is and what becomes of the store.
pub record IsGranted (env : GrantEnv) (g : Grant) (grants grants' : Grants) : Type 0 where
  pub core : session_core_authorized env.header env.token ≡ true
  pub named : (g.server_id ≢ []) × (g.username ≢ []) × (g.session_id ≢ [])
  pub not_banned : (profile_identity g.xuid env.profiles).banned ≡ false
  pub allowed : lookup g.server_id (profile_identity g.xuid env.profiles).access ≢ some false
  pub rights : (g.operator ≡ role_operator g.role) × (g.permissions ≡ role_permissions g.role)
  pub live : ltb_ℤ (pos env.now) g.expires_at ≡ true
  pub brief : g.expires_at ≤ℤ pos (env.now + 120000)
  pub stored : grants' g.grant_id ≡ some g
  pub others : (id : Text) → id ≢ g.grant_id → grants' id ≡ unless_spent env.now (grants id)

-- The session core's token is needed for a grant. A granted identity names a server, a player and a
-- session; the player is neither banned nor refused there; the operator flag and the permissions are
-- those of the role; it lasts at most two minutes. It is stored under its id, and every other grant
-- stays, unless it is spent.
pub granted-IsGranted :
    (env : GrantEnv) (request g : Grant) (grants grants' : Grants)
    → handle_identity_grant env request grants ≡ (granted g, grants')
    → IsGranted env g grants grants'
unfolding grant_refusal store_grant cleanup_identity_grants fill_grant
granted-IsGranted env request g grants grants' h =
    let s = handle-Steps env request g grants grants' h in
    let c = clean_grant request in
    let server = text_beq_iff c.server_id [] in
    let user = text_beq_iff c.username [] in
    let session = text_beq_iff c.session_id [] in
    record {
      core = ground (arith, s.accepted);
      named = rw s.made (
        ground (arith, s.accepted, server),
        ground (arith, s.accepted, user),
        ground (arith, s.accepted, session),
      );
      not_banned = rw s.made (ground (arith, s.accepted));
      allowed = rw s.made (ground (arith, s.accepted));
      rights = rw s.made (refl, refl);
      live = rw s.made (expiry-ahead env.now c.expires_at);
      brief = rw s.made (expiry-near env.now c.expires_at);
      stored = ground (arith, s.kept, text_beq_iff g.grant_id g.grant_id);
      others = λ id ne. ground (arith, s.kept, text_beq_iff id g.grant_id);
    }

given :
    (random : Option Text) (asked id : Text)
    → chosen_id random asked ≡ some id
    → (asked ≡ id) ⊎ (random ≡ some id)
unfolding chosen_id
given random [] id e = inr e
given random (c ∷ asked) id e = inl (cc e)

-- Either nothing is stored, or one grant under the id that was asked for or drawn.
pub handle-kept :
    (env : GrantEnv) (request : Grant) (grants : Grants)
    → ((handle_identity_grant env request grants).1 ≡ grants)
      ⊎ ((g : Grant) × (((clean_grant request).grant_id ≡ g.grant_id)
            ⊎ (env.random_id ≡ some g.grant_id))
          × ((handle_identity_grant env request grants).1
              ≡ store_grant g.grant_id g (cleanup_identity_grants env.now grants)))
unfolding handle_identity_grant keep_grant with_id after_checks fill_grant
handle-kept env request grants = elim (Option-cases (grant_refusal env (clean_grant request))) [
  | inr (e, r) ↦ inl (rw r refl)
  | inl a ↦ elim (Option-cases (chosen_id env.random_id (clean_grant request).grant_id)) [
    | inl n ↦ inl (rw (a, n) refl)
    | inr (id, n) ↦ inr (
      fill_grant env.now
          (or_else (profile_identity (clean_grant request).xuid env.profiles).role (codes "member"))
          id (clean_grant request),
      given env.random_id _ id n,
      rw (a, n) refl,
    )
  ]
]
