-- ===== src/Sessions/Login.antt =====
-- Logging in (dashboard/control_plane.go: normalizeTOTPSecret, validTOTP, handleLogin;
-- dashboard/auth_accounts.go: verifyUserCredential, setupRequired, createBrowserSession).
use ninj_os_proxie_edge_fabr.Prelude.{
  ℕ, ◌+◌, ◌-◌, ◌*◌, ◌/◌, ◌%◌, ◌^◌, zero, suc, Bool, true, false, not, ◌&&◌, ◌||◌, Option, none,
  some, List, [], ◌∷◌, ◌++◌, nat_beq, if◌then◌else◌, Text, ◌==◌, any, select, length, get_elem?,
}
use ninj_os_proxie_edge_fabr.Prelude.Int.{ℤ, pos, ◌+ℤ◌}
use ninj_os_proxie_edge_fabr.GoText.{codes, to_lower, to_upper, trim_space, or_else}
use ninj_os_proxie_edge_fabr.GoText.Decimal.{format_nat}
use ninj_os_proxie_edge_fabr.Accounts.{User, is_owner_user}
use ninj_os_proxie_edge_fabr.Sessions.{Session, Principal, Crypto, create_session}

abbrev without : ℕ → Text → Text
without b = select (λ c. not (nat_beq c b))

-- `normalizeTOTPSecret`
unfoldable pub normalize_totp_secret : Text → Text
normalize_totp_secret secret = without b'-' (without b' ' (to_upper (trim_space secret)))

-- The eight bytes of a counter, the highest first.
abbrev pub big_endian : ℕ → ℕ → Text
big_endian zero v = []
big_endian (suc n) v = big_endian n (v / 256) ++ ((v % 256) ∷ [])

abbrev byte_at : Text → ℕ → ℕ
byte_at s i = elim (get_elem? s i) [ none ↦ 0 | some b ↦ b ]

-- The six digits that a hash stands for; `%06d` pads with zeros.
unfoldable pub totp_code : Text → Text
totp_code sum =
    let truncate = byte_at sum (length sum - 1) % 16 in
    let number =
      (byte_at sum truncate % 128) * 2 ^ 24
      + byte_at sum (truncate + 1) * 2 ^ 16
      + byte_at sum (truncate + 2) * 2 ^ 8
      + byte_at sum (truncate + 3) in
    let digits = format_nat (number % 1000000) in zeros (6 - length digits) ++ digits
  where
    zeros : ℕ → Text
    zeros zero = []
    zeros (suc n) = b'0' ∷ zeros n

-- The code of the counter's period and one offset from it: 2 ^ 64 - 1 is the offset -1 of the code.
unfoldable pub expected_code : Crypto → Text → ℕ → ℕ → Text
unfolding totp_code
expected_code crypto key counter offset =
    totp_code (crypto.hmac_sha1 key (big_endian 8 ((counter + offset) % 2 ^ 64)))

-- `validTOTP`, with the Unix time in seconds.
unfoldable pub valid_totp : Crypto → Text → Text → ℕ → Bool
unfolding normalize_totp_secret expected_code
valid_totp crypto secret code seconds =
    let secret' = normalize_totp_secret secret in
    let code' = trim_space code in
    let counter = seconds / 30 in
    if secret' == []
    then true
    else if not (nat_beq (length code') 6)
    then false
    else elim (crypto.base32_decode secret') [
      | none ↦ false
      | some key ↦
          expected_code crypto key counter (2 ^ 64 - 1) == code'
          || expected_code crypto key counter 0 == code'
          || expected_code crypto key counter 1 == code'
    ]

-- `verifyUserCredential`
unfoldable pub verify_user_credential : Crypto → User → Text → Bool
verify_user_credential crypto u provided =
    if not (u.password_hash == [])
    then crypto.verify_password u provided
    else if not (u.token_hash == [])
    then crypto.token_hash provided == to_lower u.token_hash
    else false

-- `setupRequired`
unfoldable pub setup_required : Bool → List User → Bool
setup_required setup_complete users =
    if not setup_complete then true else not (any (λ u. u.enabled && is_owner_user u) users)

pub record LoginRequest : Type 0 where
  pub username : Text
  pub password : Text
  pub token : Text
  pub totp : Text

-- The server: its recovery token, its accounts, how long a session lasts, and the token of a new session,
-- if one can be made. The login reads the clock for the code (`checked_at`), for the end of the session
-- (`expires_from`) and for the row of the session (`created_at`), in milliseconds.
pub record Server : Type 0 where
  pub crypto : Crypto
  pub recovery_token : Text
  pub setup_complete : Bool
  pub users : List User
  pub checked_at : ℕ
  pub expires_from : ℕ
  pub created_at : ℕ
  pub session_ttl : ℤ
  pub new_token : Option Text

pub data LoginOutcome : Type 0 where
  setup_needed invalid_login no_session : LoginOutcome
  logged_in : Text → Principal → LoginOutcome

abbrev pub new_session : Server → Text → Text → Bool → Text → Session
new_session server username role totp token = record {
  token_hash = server.crypto.token_hash token;
  username = username;
  role = role;
  created_at = pos server.created_at;
  expires_at = pos server.expires_from +ℤ server.session_ttl;
  last_seen = pos server.created_at;
  totp_verified = totp;
}

-- `createBrowserSession`, and the answer.
unfoldable pub create_browser_session :
    Server → Text → Text → Bool → List Session → LoginOutcome × List Session
create_browser_session server username role totp rows = elim server.new_token [
  | none ↦ (no_session, rows)
  | some token ↦ (
    logged_in token (record { username = username; role = role }),
    create_session (new_session server username role totp token) rows,
  )
]

abbrev pub is_login_name : Text → User → Bool
is_login_name username u = to_lower u.username == username

-- The loop over the accounts.
unfoldable pub login_as :
    Server → Text → Text → Text → List User → List Session → LoginOutcome × List Session
unfolding verify_user_credential valid_totp create_browser_session
login_as server username provided totp [] rows = (invalid_login, rows)
login_as server username provided totp (u ∷ us) rows =
    let later = login_as server username provided totp us rows in
    if not u.enabled || not (is_login_name username u)
    then later
    else if not (verify_user_credential server.crypto u provided)
    then (invalid_login, rows)
    else if not (valid_totp server.crypto u.totp_secret totp (server.checked_at / 1000))
    then (invalid_login, rows)
    else create_browser_session server u.username u.role (not (u.totp_secret == [])) rows

abbrev pub is_recovery : Server → Text → Text → Bool
is_recovery server username provided =
    not (server.recovery_token == [])
    && username == codes "recovery"
    && server.crypto.token_hash provided == server.crypto.token_hash server.recovery_token

-- `handleLogin`
unfoldable pub handle_login : Server → LoginRequest → List Session → LoginOutcome × List Session
unfolding setup_required login_as create_browser_session
handle_login server r rows =
    let username = to_lower (trim_space r.username) in
    let provided = or_else r.password r.token in
    if setup_required server.setup_complete server.users
    then (setup_needed, rows)
    else if is_recovery server username provided
    then create_browser_session server (codes "recovery") (codes "owner") false rows
    else login_as server username provided r.totp server.users rows
