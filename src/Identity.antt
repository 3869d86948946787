-- ===== src/Identity.antt =====
-- The identity bridge (dashboard/identity_bridge.go): grants that the session core issues and that a
-- backend's bridge consumes. The map of grants is a function, and the order in which Go's `range`
-- visits its keys is an argument, which may be any list. The logs and the answers' texts are left out.
pub mod Granting
pub mod Selecting
pub mod Consuming
pub mod OneUse
pub mod Bridge
mod Examples
use ninj_os_proxie_edge_fabr.Prelude.{
  ℕ, ◌+◌, Bool, true, false, not, ◌&&◌, ◌||◌, Option, none, some, List, [], ◌∷◌, if◌then◌else◌,
  Text, ◌==◌, drop, length,
}
use ninj_os_proxie_edge_fabr.Prelude.Int.{ℤ, pos, ◌-ℤ◌, ltb_ℤ, leb_ℤ, beq_ℤ}
use ninj_os_proxie_edge_fabr.GoText.{codes, to_lower, trim_space, equal_fold, has_prefix, or_else}
use ninj_os_proxie_edge_fabr.GoMap.{lookup}
use ninj_os_proxie_edge_fabr.Replay.{
  normalize_server_id, Call, Seen, Verdict, authorized, verify_signed_body, secret_of,
}

pub record Grant : Type 0 where
  pub grant_id : Text
  pub session_id : Text
  pub server_id : Text
  pub username : Text
  pub xuid : Text
  pub uuid : Text
  pub original_ip : Text
  pub device_os : Text
  pub client_version : Text
  pub protocol_version : ℤ
  pub role : Text
  pub operator : Bool
  pub permissions : List Text
  pub created_at : ℤ
  pub expires_at : ℤ
  pub consumed_at : ℤ

-- `d.identityGrants`
abbrev pub Grants : Type 0
Grants = Text → Option Grant

-- `roleOperator`
unfoldable pub role_operator : Text → Bool
role_operator role =
    let r = to_lower (trim_space role) in
    r == codes "owner" || r == codes "administrator" || r == codes "admin" || r == codes "operator"

-- `rolePermissions`
unfoldable pub role_permissions : Text → List Text
role_permissions role =
    let r = to_lower (trim_space role) in
    if r == codes "owner"
    then codes "*" ∷ []
    else if r == codes "administrator" || r == codes "admin"
    then codes "ninjos.admin.*" ∷ codes "ninjos.command.*" ∷ codes "endstone.command.*" ∷ []
    else if r == codes "operator"
    then codes "ninjos.command.*" ∷ codes "endstone.command.*" ∷ []
    else if r == codes "moderator" || r == codes "mod"
    then codes "ninjos.command.server"
      ∷ codes "ninjos.command.hub"
      ∷ codes "ninjos.moderation.*"
      ∷ []
    else codes "ninjos.command.server"
      ∷ codes "ninjos.command.hub"
      ∷ codes "ninjos.command.glist"
      ∷ []

-- `strings.TrimPrefix`
unfoldable pub trim_prefix : Text → Text → Text
trim_prefix s prefix = if has_prefix s prefix then drop (length prefix) s else s

-- `sessionCoreAuthorized`: the header and the configured token.
unfoldable pub session_core_authorized : Text → Text → Bool
session_core_authorized header token =
    let supplied = trim_space (trim_prefix header (codes "Bearer ")) in
    if supplied == [] || token == [] then false else supplied == token

-- The test of `cleanupIdentityGrants`.
unfoldable pub is_spent : ℕ → Grant → Bool
is_spent now g =
    ltb_ℤ g.expires_at (pos now)
    || ltb_ℤ (pos 0) g.consumed_at && ltb_ℤ (pos 60000) (pos now -ℤ g.consumed_at)

abbrev pub unless_spent : ℕ → Option Grant → Option Grant
unless_spent now none = none
unless_spent now (some g) = if is_spent now g then none else some g

-- `cleanupIdentityGrants`
unfoldable pub cleanup_identity_grants : ℕ → Grants → Grants
cleanup_identity_grants now grants id = unless_spent now (grants id)

-- `d.identityGrants[id] = g`
unfoldable pub store_grant : Text → Grant → Grants → Grants
store_grant id g grants = λ key. if key == id then some g else grants key

-- A player's row for `profileIdentity`, with the access map that its JSON text holds.
pub record IdentityProfile : Type 0 where
  pub role : Text
  pub banned : Bool
  pub access : List (Text × Bool)

abbrev pub member : IdentityProfile
member = record { role = codes "member"; banned = false; access = [] }

-- `profileIdentity`
unfoldable pub profile_identity : Text → List (Text × IdentityProfile) → IdentityProfile
profile_identity xuid profiles =
    if trim_space xuid == [] then member else elim (lookup xuid profiles) [
      | none ↦ member
      | some p ↦ record p { role = or_else p.role (codes "member") }
    ]

pub data GrantRefusal : Type 0 where
  core_unauthorized incomplete banned_player not_allowed no_random : GrantRefusal

pub data GrantOutcome : Type 0 where
  refused : GrantRefusal → GrantOutcome
  granted : Grant → GrantOutcome

-- What a call of `handleIdentityGrant` finds.
pub record GrantEnv : Type 0 where
  pub header : Text
  pub token : Text
  pub profiles : List (Text × IdentityProfile)
  pub random_id : Option Text
  pub now : ℕ

unfoldable pub clean_grant : Grant → Grant
clean_grant g = record g {
  server_id = normalize_server_id g.server_id;
  username = trim_space g.username;
  xuid = trim_space g.xuid;
  session_id = trim_space g.session_id;
}

-- The expiry that is kept: the one asked for, if it lies ahead and within two minutes.
unfoldable pub expiry : ℕ → ℤ → ℤ
expiry now asked =
    if leb_ℤ asked (pos now) || ltb_ℤ (pos 120000) (asked -ℤ pos now)
    then pos (now + 30000)
    else asked

unfoldable pub fill_grant : ℕ → Text → Text → Grant → Grant
fill_grant now role id g = record g {
  role = role;
  operator = role_operator role;
  permissions = role_permissions role;
  created_at = pos now;
  expires_at = expiry now g.expires_at;
  grant_id = id;
}

abbrev refuses : Option Bool → Bool
refuses (some false) = true
refuses _ = false

chosen_id : Option Text → Text → Option Text
chosen_id random [] = random
chosen_id random id = some id

-- The checks of `handleIdentityGrant` after the method and the JSON, in their order.
unfoldable pub grant_refusal : GrantEnv → Grant → Option GrantRefusal
grant_refusal env g =
    if not (session_core_authorized env.header env.token)
    then some core_unauthorized
    else if g.server_id == [] || g.username == [] || g.session_id == []
    then some incomplete
    else let p = profile_identity g.xuid env.profiles in
      if p.banned
      then some banned_player
      else if refuses (lookup g.server_id p.access)
      then some not_allowed
      else none

pub keep_grant : ℕ → Grant → Grants → GrantOutcome × Grants
keep_grant now g grants = (granted g, store_grant g.grant_id g (cleanup_identity_grants now grants))

with_id : GrantEnv → Grant → Grants → Option Text → GrantOutcome × Grants
unfolding keep_grant
with_id env g grants none = (refused no_random, grants)
with_id env g grants (some id) =
    keep_grant env.now
      (fill_grant env.now (or_else (profile_identity g.xuid env.profiles).role (codes "member")) id
        g)
      grants

after_checks : GrantEnv → Grant → Grants → Option GrantRefusal → GrantOutcome × Grants
unfolding with_id chosen_id
after_checks env g grants (some e) = (refused e, grants)
after_checks env g grants none = with_id env g grants (chosen_id env.random_id g.grant_id)

-- `handleIdentityGrant` on a decoded grant.
unfoldable pub handle_identity_grant : GrantEnv → Grant → Grants → GrantOutcome × Grants
unfolding after_checks
handle_identity_grant env request grants =
    let g = clean_grant request in after_checks env g grants (grant_refusal env g)

pub record ConsumeRequest : Type 0 where
  pub server_id : Text
  pub username : Text
  pub session_id : Text

-- A grant that the loop of `handleIdentityConsume` does not pass over.
unfoldable pub is_waiting : ℕ → ConsumeRequest → Grant → Bool
is_waiting now r g =
    beq_ℤ g.consumed_at (pos 0)
    && not (ltb_ℤ g.expires_at (pos now))
    && g.server_id == r.server_id
    && (r.session_id == [] || g.session_id == r.session_id)
    && equal_fold g.username r.username

-- The newer of the grant selected so far and the one at hand.
abbrev pub newer : Option (Text × Grant) → Text → Grant → Option (Text × Grant)
newer none id g = some (id, g)
newer (some (id', g')) id g =
    if id' == [] || ltb_ℤ g'.created_at g.created_at then some (id, g) else some (id', g')

consider : ℕ → ConsumeRequest → Option (Text × Grant) → Text → Option Grant → Option (Text × Grant)
consider now r best id none = best
consider now r best id (some g) = if is_waiting now r g then newer best id g else best

-- The loop over the keys in the order in which `range` visits them.
unfoldable pub select_grant :
    ℕ → ConsumeRequest → Grants → Option (Text × Grant) → List Text → Option (Text × Grant)
unfolding consider
select_grant now r grants best [] = best
select_grant now r grants best (id ∷ ids) =
    select_grant now r grants (consider now r best id (grants id)) ids

abbrev pub clean_consume : ConsumeRequest → ConsumeRequest
clean_consume r = record r {
  server_id = normalize_server_id r.server_id;
  username = trim_space r.username;
}

take_grant : ℕ → Option (Text × Grant) → Grants → Option Grant × Grants
take_grant now none grants = (none, grants)
take_grant now (some (id, g)) grants = if id == [] then (none, grants) else (
  some (record g { consumed_at = pos now }),
  store_grant id (record g { consumed_at = pos now }) grants,
)

-- `handleIdentityConsume` from the lock on: `none` is the answer that no grant waits.
unfoldable pub consume_grant : ℕ → List Text → ConsumeRequest → Grants → Option Grant × Grants
unfolding take_grant
consume_grant now order request grants =
    let kept = cleanup_identity_grants now grants in
    take_grant now (select_grant now (clean_consume request) kept none order) kept

module _ (mac : Text → Text → Text) where
  -- `verifyBridgeBody`: a signed request, or the server's secret in the header `X-NinjOS-Bridge-Token`.
  unfoldable pub verify_bridge_body : Call → Text → Seen → Bool × Seen
  verify_bridge_body c token seen =
      let (verdict, seen') = verify_signed_body mac c seen in
      elim verdict [
        | authorized ↦ (true, seen')
        | _ ↦
            let supplied = trim_space token in
            let expected = secret_of c.secrets c.request in
            (
              not (normalize_server_id c.request.server == [] || supplied == [] || expected == [])
                  && supplied == expected,
              seen',
            )
      ]

pub data ConsumeAnswer : Type 0 where
  bridge_unauthorized bad_json no_grant : ConsumeAnswer
  consumed : Grant → ConsumeAnswer

answer : Option Grant × Grants → ConsumeAnswer × Grants
answer (none, grants) = (no_grant, grants)
answer (some g, grants) = (consumed g, grants)

-- What a call of `handleIdentityConsume` finds; `order` is the order in which the keys are visited.
pub record ConsumeCall : Type 0 where
  pub call : Call
  pub token : Text
  pub now : ℕ
  pub order : List Text

-- `handleIdentityConsume`; `decode` is the JSON decoder.
unfoldable pub handle_identity_consume :
    (Text → Text → Text)
    → (Text → Option ConsumeRequest)
    → ConsumeCall
    → Seen
    → Grants
    → (ConsumeAnswer × Grants) × Seen
unfolding answer
handle_identity_consume mac decode c seen grants =
    let (ok, seen') = verify_bridge_body mac c.call c.token seen in
    if not ok then ((bridge_unauthorized, grants), seen') else elim (decode c.call.request.body) [
      | none ↦ ((bad_json, grants), seen')
      | some r ↦ (answer (consume_grant c.now c.order r grants), seen')
    ]
