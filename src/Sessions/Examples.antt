-- ===== src/Sessions/Examples.antt =====
-- Tests of logins and sessions, and their theorems at concrete requests.
use ninj_os_proxie_edge_fabr.GoText.Decimal.{format_nat}
use ninj_os_proxie_edge_fabr.Prelude.{
  select, any, select, any, ◌≡◌, ◌≢◌, refl, ◌⊎◌, true, false, some, List, [], ◌∷◌, ◌++◌, text_beq,
  ◌==◌, ◌≤◌, ◌<◌, All, arith,
}
use ninj_os_proxie_edge_fabr.Prelude.Int.{pos, ◌+ℤ◌}
use ninj_os_proxie_edge_fabr.GoText.{
  equal_fold, is_space, has_prefix, trim_left, trim_right, is_space, trim_left, trim_right,
  to_upper, is_space, trim_left, trim_right, equal_fold, to_upper, is_space, trim_left, trim_right,
  equal_fold, codes, to_lower, trim_space, or_else,
}
use ninj_os_proxie_edge_fabr.Accounts.{User}
use ninj_os_proxie_edge_fabr.Sessions.{
  Session, Principal, Crypto, Credential, session, provided_token, admit, require_role, granted,
  insufficient_role, role_rank,
}
use ninj_os_proxie_edge_fabr.Sessions.Table.{
  SessionEvent, opened, looked_up, closed, revoked, cleaned, rows_after, standing, answer_of,
  session-standing,
}
use ninj_os_proxie_edge_fabr.Sessions.Login.{
  Server, LoginRequest, logged_in, invalid_login, handle_login, valid_totp,
}
use ninj_os_proxie_edge_fabr.Sessions.Entry.{IsSetUp, IsRecovery, Enters, handle_login-Enters}
use ninj_os_proxie_edge_fabr.Sessions.Standing.{steps, Spares, handle_login-require_role}

-- Stand-ins for the hash, the check of a password and HMAC.
abbrev crypto : Crypto
crypto = record {
  token_hash = λ t. t;
  verify_password = λ u p. p == u.password_hash;
  base32_decode = λ s. some s;
  hmac_sha1 = λ key block. block ++ (1 ∷ []);
}

abbrev ann : User
ann = record {
  username = codes "Ann";
  role = codes "Admin";
  password_hash = codes "secret";
  password_salt = [];
  password_iterations = pos 1;
  token_hash = [];
  totp_secret = [];
  enabled = true;
}

abbrev boss : User
boss = record ann { username = codes "Boss"; role = codes "owner"; password_hash = codes "other" }

abbrev server : Server
server = record {
  crypto = crypto;
  recovery_token = codes "rescue";
  setup_complete = true;
  users = boss ∷ ann ∷ [];
  checked_at = 998;
  expires_from = 1000;
  created_at = 1001;
  session_ttl = pos 500;
  new_token = some (codes "t1");
}

abbrev request : LoginRequest
request = record { username = codes " ANN "; password = codes "secret"; token = []; totp = [] }

abbrev admin_ann : Principal
admin_ann = record { username = codes "Ann"; role = codes "Admin" }

enters : (handle_login server request []).0 ≡ logged_in (codes "t1") admin_ann
unfolding handle_login any equal_fold trim_space trim_right trim_left is_space or_else select
    to_upper
enters = refl

rejects : (handle_login server (record request { password = codes "wrong" }) []).0 ≡ invalid_login
unfolding handle_login any equal_fold trim_space trim_right trim_left is_space or_else
rejects = refl

checks_code :
    (valid_totp crypto (codes "abcd") (codes "000007") 210 ≡ false)
    × (valid_totp crypto [] (codes "1") 210 ≡ true)
unfolding valid_totp text_beq select to_upper trim_space trim_right trim_left is_space format_nat
checks_code = (refl, refl)

handle_login-Enters_example :
    IsSetUp server
    × ((IsRecovery server
            (to_lower (trim_space request.username))
            (or_else request.password request.token)
          × (admin_ann ≡ record { username = codes "recovery"; role = codes "owner" }))
        ⊎ Enters server
            (to_lower (trim_space request.username))
            (or_else request.password request.token)
            request.totp
            admin_ann
            server.users)
handle_login-Enters_example = handle_login-Enters server request [] (codes "t1") admin_ann enters

abbrev bearer : Credential
bearer = record { authorization = codes "Bearer t1"; query_token = [] }

carries : provided_token bearer ≡ codes "t1"
unfolding provided_token or_else trim_space trim_right trim_left has_prefix is_space
carries = refl

not_empty : codes "t1" ≢ []
not_empty h = absurd (cc h)

abbrev row : Session
row = record {
  token_hash = codes "t1";
  username = codes "Ann";
  role = codes "Admin";
  created_at = pos 1000;
  expires_at = pos 1500;
  last_seen = pos 1000;
  totp_verified = false;
}

-- Before the login, and after it.
abbrev past : List SessionEvent
past = opened (record row { token_hash = codes "t0" }) ∷ []

abbrev later : List SessionEvent
later =
    looked_up (pos 1400) (codes "t1")
    ∷ cleaned (pos 1300)
    ∷ closed (codes "t0")
    ∷ revoked (codes "BOSS")
    ∷ []

enters_again : (handle_login server request (rows_after past)).0 ≡ logged_in (codes "t1") admin_ann
unfolding handle_login any equal_fold trim_space trim_right trim_left is_space or_else select
    to_upper
enters_again = refl

later-Spares : All (Spares (codes "t1") (codes "Ann") (pos 1000 +ℤ pos 500)) later
unfolding ◌+ℤ◌ equal_fold text_beq
later-Spares = (λ e. omega arith, (omega arith, (λ e. ground (arith, e), (refl, tt))))

handle_login-require_role_example :
    let rows = steps later (handle_login server request (rows_after past)).1 in
    let answer = (require_role crypto (pos 1499) [] (codes "owner") bearer rows).0 in
    (role_rank (codes "owner") ≤ role_rank (codes "Admin") → answer ≡ granted admin_ann)
    × (role_rank (codes "Admin") < role_rank (codes "owner") → answer ≡ insufficient_role)
unfolding ◌+ℤ◌
handle_login-require_role_example =
    handle_login-require_role server request past (codes "t1") admin_ann enters_again not_empty
      later later-Spares (pos 1499) bearer carries (omega arith) [] (codes "owner")

ranks :
    (admit (codes "owner") (some admin_ann) ≡ insufficient_role)
    × (admit (codes "operator") (some admin_ann) ≡ granted admin_ann)
unfolding admit text_beq to_lower
ranks = (refl, refl)

abbrev events : List SessionEvent
events =
    cleaned (pos 1200)
    ∷ looked_up (pos 1100) (codes "t1")
    ∷ revoked (codes "BOSS")
    ∷ opened row
    ∷ []

session-standing_example :
    (session (pos 1300) (codes "t1") (rows_after events)).0
    ≡ answer_of (pos 1300) (standing (codes "t1") events)
session-standing_example = session-standing (pos 1300) (codes "t1") events

stands : answer_of (pos 1300) (standing (codes "t1") events) ≡ some admin_ann
unfolding answer_of standing text_beq equal_fold
stands = refl
