-- ===== src/Sessions.antt =====
-- Browser sessions, logins and roles (dashboard/storage_sqlite.go: createSession, session,
-- deleteSession, revokeUserSessions, cleanupSessions, clearSessions; dashboard/main.go: roleRank,
-- authenticate, requireRole; dashboard/control_plane.go: validTOTP, handleLogin, handleLogout,
-- bearerToken; dashboard/auth_accounts.go: verifyUserCredential, setupRequired, createBrowserSession).
-- Each SQL statement is a function on the rows, and succeeds. Hashes, the check of a password and the
-- Base32 decoder are given. Texts are compared in constant time by the code, here by their equality.
pub mod Table
pub mod Login
pub mod Entry
pub mod Standing
mod Examples
use ninj_os_proxie_edge_fabr.Prelude.{
  ℕ, ◌+◌, ◌*◌, ◌/◌, ◌%◌, ◌^◌, zero, suc, ◌≡◌, refl, Bool, true, false, not, ◌&&◌, ◌||◌, Option,
  none, some, List, [], ◌∷◌, ◌++◌, ltb, leb, nat_beq, if◌then◌else◌, Text, ◌==◌, any, select,
  length, get_elem?, map, drop,
}
use ninj_os_proxie_edge_fabr.Prelude.Int.{ℤ, pos, ◌+ℤ◌, leb_ℤ, ltb_ℤ}
use ninj_os_proxie_edge_fabr.GoText.{
  codes, to_lower, to_upper, trim_space, equal_fold, has_prefix, or_else,
}
use ninj_os_proxie_edge_fabr.GoText.Decimal.{format_nat}
use ninj_os_proxie_edge_fabr.Accounts.{User, is_owner_user}

-- A row of `dashboard_sessions`, whose primary key is the token's hash.
pub record Session : Type 0 where
  pub token_hash : Text
  pub username : Text
  pub role : Text
  pub created_at : ℤ
  pub expires_at : ℤ
  pub last_seen : ℤ
  pub totp_verified : Bool

-- `principal`
pub record Principal : Type 0 where
  pub username : Text
  pub role : Text

abbrev pub has_hash : Text → Session → Bool
has_hash hash s = s.token_hash == hash

-- `deleteSession`
unfoldable pub delete_session : Text → List Session → List Session
delete_session hash = select (λ s. not (has_hash hash s))

-- `createSession`: INSERT OR REPLACE.
unfoldable pub create_session : Session → List Session → List Session
unfolding delete_session
create_session s rows = delete_session s.token_hash rows ++ (s ∷ [])

unfoldable pub find_session : Text → List Session → Option Session
find_session hash [] = none
find_session hash (s ∷ rows) =
    let rest = find_session hash rows in if has_hash hash s then some s else rest

-- `UPDATE dashboard_sessions SET last_seen=? WHERE token_hash=?`
unfoldable pub touch : ℤ → Text → List Session → List Session
touch now hash = map (λ s. if has_hash hash s then record s { last_seen = now } else s)

unfoldable pub session_found :
    ℤ → Text → List Session → Option Session → Option Principal × List Session
unfolding delete_session touch
session_found now hash rows none = (none, rows)
session_found now hash rows (some s) =
    if leb_ℤ s.expires_at now
    then (none, delete_session hash rows)
    else (some (record { username = s.username; role = s.role }), touch now hash rows)

-- `session`
unfoldable pub session : ℤ → Text → List Session → Option Principal × List Session
unfolding session_found
session now hash rows = session_found now hash rows (find_session hash rows)

-- `revokeUserSessions`
unfoldable pub revoke_user_sessions : Text → List Session → List Session
revoke_user_sessions username = select (λ s. not (equal_fold s.username username))

-- `cleanupSessions`
unfoldable pub cleanup_sessions : ℤ → List Session → List Session
cleanup_sessions now = select (λ s. not (ltb_ℤ s.expires_at now))

-- `roleRank`
unfoldable pub role_rank : Text → ℕ
role_rank role =
    let r = to_lower role in
    if r == codes "owner"
    then 50
    else if r == codes "admin"
    then 40
    else if r == codes "operator"
    then 30
    else if r == codes "moderator"
    then 20
    else if r == codes "viewer"
    then 10
    else 0

-- What the code takes from Go's cryptography and from the Base32 decoder.
pub record Crypto : Type 0 where
  pub token_hash : Text → Text
  pub verify_password : User → Text → Bool
  pub base32_decode : Text → Option Text
  pub hmac_sha1 : Text → Text → Text

-- The headers and the query of a request.
pub record Credential : Type 0 where
  pub authorization : Text
  pub query_token : Text

abbrev trim_bearer : Text → Text
trim_bearer header = if has_prefix header (codes "Bearer ") then drop 7 header else header

-- The token that `authenticate` takes from a request.
unfoldable pub provided_token : Credential → Text
provided_token c = or_else (trim_space (trim_bearer c.authorization)) c.query_token

-- `bearerToken`
unfoldable pub bearer_token : Credential → Text
bearer_token c = or_else (trim_space (trim_bearer c.authorization)) (trim_space c.query_token)

unfoldable pub user_of_token : Text → List User → Option Principal
user_of_token hash [] = none
user_of_token hash (u ∷ us) =
    let rest = user_of_token hash us in
    if u.enabled && hash == to_lower u.token_hash
    then some (record { username = u.username; role = u.role })
    else rest

abbrev or_principal : Option Principal → Option Principal → Option Principal
or_principal none p = p
or_principal (some a) p = some a

-- `authenticate`
unfoldable pub authenticate :
    Crypto → ℤ → List User → Credential → List Session → Option Principal × List Session
unfolding session user_of_token provided_token
authenticate crypto now users c rows =
    let token = provided_token c in
    let hash = crypto.token_hash token in
    let (found, rows') = session now hash rows in
    if token == [] then (none, rows) else (or_principal found (user_of_token hash users), rows')

pub data Access : Type 0 where
  unauthorized insufficient_role : Access
  granted : Principal → Access

unfoldable pub admit : Text → Option Principal → Access
unfolding role_rank
admit required none = unauthorized
admit required (some actor) =
    if ltb (role_rank actor.role) (role_rank required) then insufficient_role else granted actor

-- `requireRole`
unfoldable pub require_role :
    Crypto → ℤ → List User → Text → Credential → List Session → Access × List Session
unfolding authenticate admit
require_role crypto now users required c rows =
    let (actor, rows') = authenticate crypto now users c rows in (admit required actor, rows')

-- `handleLogout`
unfoldable pub handle_logout : Crypto → Credential → List Session → List Session
unfolding delete_session bearer_token
handle_logout crypto c rows =
    let token = bearer_token c in
    if token == [] then rows else delete_session (crypto.token_hash token) rows
