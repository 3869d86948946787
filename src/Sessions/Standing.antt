-- ===== src/Sessions/Standing.antt =====
-- How long a login lasts (dashboard/control_plane.go: handleLogin; dashboard/main.go: authenticate,
-- requireRole; dashboard/storage_sqlite.go: the table of sessions).
use ninj_os_proxie_edge_fabr.Prelude.{
  ◌≤◌, ◌<◌, ◌≡◌, ◌≢◌, refl, ap, ◌∙◌, inl, inr, Bool, false, not, Option, some, List, [], ◌∷◌, arith,
  Text, ◌==◌, text_beq_iff, Option-cases, All,
}
use ninj_os_proxie_edge_fabr.Prelude.Int.{ℤ, pos, leb_ℤ, ◌+ℤ◌, ◌≤ℤ◌}
use ninj_os_proxie_edge_fabr.GoText.{codes, to_lower, trim_space, or_else, equal_fold}
use ninj_os_proxie_edge_fabr.Accounts.{User}
use ninj_os_proxie_edge_fabr.Sessions.{
  Session, Principal, Crypto, Credential, provided_token, create_session, delete_session, session,
  authenticate, admit, require_role, role_rank, granted, insufficient_role,
}
use ninj_os_proxie_edge_fabr.Sessions.Table.{
  Grant, answer_of, session-grant, grant_in, grant_of, grant-append, grant-delete, SessionEvent,
  opened, looked_up, closed, revoked, cleaned, cleared, step, standing_step, step-grant,
  step-Unique, Unique, rows_after, rows_after-Unique,
}
use ninj_os_proxie_edge_fabr.Sessions.Login.{
  Server, LoginRequest, logged_in, new_session, create_browser_session, login_as, handle_login,
}

-- The grant of a new session.
abbrev granted_to : Server → Principal → Option Grant
granted_to server actor = some (record {
  username = actor.username;
  role = actor.role;
  expires_at = pos server.expires_from +ℤ server.session_ttl;
})

grant-create :
    (s : Session) (rows : List Session)
    → grant_in s.token_hash (create_session s rows) ≡ some (grant_of s)
unfolding create_session
grant-create s rows = ground (
  arith,
  text_beq_iff s.token_hash s.token_hash,
  grant-append s.token_hash (delete_session s.token_hash rows) s,
  grant-delete s.token_hash s.token_hash rows,
)

browser-grant :
    (server : Server) (username role : Text) (totp : Bool) (rows : List Session) (token : Text)
    (actor : Principal)
    → (create_browser_session server username role totp rows).0 ≡ logged_in token actor
    → grant_in
        (server.crypto.token_hash token)
        (create_browser_session server username role totp rows).1
      ≡ granted_to server actor
unfolding create_browser_session
browser-grant server username role totp rows token actor h = elim (Option-cases server.new_token) [
  | inl e ↦ absurd (ground (arith, e, h))
  | inr (t, e) ↦ ground (arith, e, h, grant-create (new_session server username role totp t) rows)
]

login_as-grant :
    (server : Server) (username provided totp : Text) (us : List User) (rows : List Session)
    (token : Text) (actor : Principal)
    → (login_as server username provided totp us rows).0 ≡ logged_in token actor
    → grant_in (server.crypto.token_hash token) (login_as server username provided totp us rows).1
      ≡ granted_to server actor
unfolding login_as
login_as-grant server username provided totp [] rows token actor h = absurd (cc h)
login_as-grant server username provided totp (u ∷ us) rows token actor h = ground (
  arith,
  h,
  login_as-grant server username provided totp us rows token actor,
  browser-grant server u.username u.role (not (u.totp_secret == [])) rows token actor,
)

handle_login-grant :
    (server : Server) (r : LoginRequest) (rows : List Session) (token : Text) (actor : Principal)
    → (handle_login server r rows).0 ≡ logged_in token actor
    → grant_in (server.crypto.token_hash token) (handle_login server r rows).1
      ≡ granted_to server actor
unfolding handle_login
handle_login-grant server r rows token actor h =
    let username = to_lower (trim_space r.username) in
    let provided = or_else r.password r.token in
    ground (
      arith,
      h,
      browser-grant server (codes "recovery") (codes "owner") false rows token actor,
      login_as-grant server username provided r.totp server.users rows token actor,
    )

authenticate-grant :
    (crypto : Crypto) (now : ℤ) (users : List User) (c : Credential) (rows : List Session)
    (token : Text) (actor : Principal) (expires : ℤ)
    → grant_in (crypto.token_hash token) rows
      ≡ some (record { username = actor.username; role = actor.role; expires_at = expires })
    → token ≢ []
    → provided_token c ≡ token
    → leb_ℤ expires now ≡ false
    → (authenticate crypto now users c rows).0 ≡ some actor
unfolding authenticate
authenticate-grant crypto now users c rows token actor expires g n p fresh =
    let found : (session now (crypto.token_hash token) rows).0 ≡ some actor =
      session-grant now (crypto.token_hash token) rows ∙ rw g (unfold answer_of in rw fresh refl) in
    let filled : (token == []) ≡ false = ground (arith, n, text_beq_iff token []) in
    rw (p, filled, found) refl

-- The rows after further events, the newest first.
unfoldable pub steps : List SessionEvent → List Session → List Session
unfolding step
steps [] rows = rows
steps (e ∷ es) rows = step e (steps es rows)

-- The event does not end the session of the hash, which lasts until a time: it opens no other session
-- under the hash, closes none under it, revokes no user of its name, and looks it up or cleans up
-- only before its end.
abbrev pub Spares : Text → Text → ℤ → SessionEvent → Type 0
Spares hash username expires (opened s) = s.token_hash ≢ hash
Spares hash username expires (looked_up now h) = h ≡ hash → ¬ (expires ≤ℤ now)
Spares hash username expires (closed h) = h ≢ hash
Spares hash username expires (revoked name) = equal_fold username name ≡ false
Spares hash username expires (cleaned now) = now ≤ℤ expires
Spares hash username expires cleared = ⊥

spared_step :
    (hash : Text) (g : Grant) (e : SessionEvent)
    → Spares hash g.username g.expires_at e
    → standing_step hash e (some g) ≡ some g
unfolding standing_step
spared_step hash g (opened s) h = ground (arith, h, text_beq_iff s.token_hash hash)
spared_step hash g (looked_up now k) h = ground (arith, h, text_beq_iff k hash)
spared_step hash g (closed k) h = ground (arith, h, text_beq_iff k hash)
spared_step hash g (revoked name) h = ground (arith, h)
spared_step hash g (cleaned now) h = ground (arith, h)
spared_step hash g cleared h = elim h [ ]

steps-Unique : (es : List SessionEvent) (rows : List Session) → Unique rows → Unique (steps es rows)
unfolding steps
steps-Unique [] rows u = u
steps-Unique (e ∷ es) rows u = step-Unique e (steps es rows) (steps-Unique es rows u)

steps-grant :
    (hash : Text) (g : Grant) (es : List SessionEvent) (rows : List Session)
    → Unique rows
    → All (Spares hash g.username g.expires_at) es
    → grant_in hash rows ≡ some g
    → grant_in hash (steps es rows) ≡ some g
unfolding steps
steps-grant hash g [] rows u a h = h
steps-grant hash g (e ∷ es) rows u a h =
    step-grant hash e (steps es rows) (steps-Unique es rows u)
    ∙ ap (standing_step hash e) (steps-grant hash g es rows u a.1 h)
    ∙ spared_step hash g e a.0

browser-Unique :
    (server : Server) (username role : Text) (totp : Bool) (rows : List Session)
    → Unique rows
    → Unique (create_browser_session server username role totp rows).1
unfolding create_browser_session
browser-Unique server username role totp rows u = elim (Option-cases server.new_token) [
  | inl e ↦ rw e u
  | inr (t, e) ↦
      rw e (unfold step in step-Unique (opened (new_session server username role totp t)) rows u)
]

login_as-Unique :
    (server : Server) (username provided totp : Text) (us : List User) (rows : List Session)
    → Unique rows
    → Unique (login_as server username provided totp us rows).1
unfolding login_as
login_as-Unique server username provided totp [] rows u = u
login_as-Unique server username provided totp (x ∷ us) rows u = ground (
  arith,
  u,
  login_as-Unique server username provided totp us rows u,
  browser-Unique server x.username x.role (not (x.totp_secret == [])) rows u,
)

handle_login-Unique :
    (server : Server) (r : LoginRequest) (rows : List Session)
    → Unique rows
    → Unique (handle_login server r rows).1
unfolding handle_login
handle_login-Unique server r rows u = ground (
  arith,
  u,
  browser-Unique server (codes "recovery") (codes "owner") false rows u,
  login_as-Unique server (to_lower (trim_space r.username)) (or_else r.password r.token) r.totp
      server.users rows u,
)

-- By the ranks of the two roles.
admit-rank :
    (required : Text) (actor : Principal)
    → (role_rank required ≤ role_rank actor.role → admit required (some actor) ≡ granted actor)
      × (role_rank actor.role < role_rank required
          → admit required (some actor) ≡ insufficient_role)
unfolding admit
admit-rank required actor = (λ h. ground (arith, h), λ h. ground (arith, h))

-- After a login on a table that any events left, and any later events that spare the session (open no
-- other under its hash, do not close it, revoke no user of its name, and look it up or clean up only before
-- its end), a request with the login's token, which is not empty, is let in before the end as the login's
-- principal if the rank of its role is at least the required one's, and is refused for its role
-- otherwise.
pub handle_login-require_role :
    (server : Server) (r : LoginRequest) (past : List SessionEvent) (token : Text)
    (actor : Principal)
    → (handle_login server r (rows_after past)).0 ≡ logged_in token actor
    → token ≢ []
    → (later : List SessionEvent)
    → All
        (Spares
          (server.crypto.token_hash token)
          actor.username
          (pos server.expires_from +ℤ server.session_ttl))
        later
    → (now : ℤ) (c : Credential) → provided_token c ≡ token
    → ¬ ((pos server.expires_from +ℤ server.session_ttl) ≤ℤ now)
    → (users : List User) (required : Text)
    → let rows = steps later (handle_login server r (rows_after past)).1 in
      let answer = (require_role server.crypto now users required c rows).0 in
      (role_rank required ≤ role_rank actor.role → answer ≡ granted actor)
      × (role_rank actor.role < role_rank required → answer ≡ insufficient_role)
unfolding require_role
handle_login-require_role server r past token actor h n later spared now c p fresh users required =
    let rows = (handle_login server r (rows_after past)).1 in
    let unique = handle_login-Unique server r (rows_after past) (rows_after-Unique past) in
    let expires = pos server.expires_from +ℤ server.session_ttl in
    let g =
      steps-grant (server.crypto.token_hash token)
        (record { username = actor.username; role = actor.role; expires_at = expires }) later rows
        unique spared (handle_login-grant server r (rows_after past) token actor h) in
    let found =
      authenticate-grant server.crypto now users c (steps later rows) token actor expires g n p
        (ground (arith, fresh)) in
    rw found (admit-rank required actor)
