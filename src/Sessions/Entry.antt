-- ===== src/Sessions/Entry.antt =====
-- Who may log in (dashboard/control_plane.go: validTOTP, handleLogin; dashboard/auth_accounts.go:
-- verifyUserCredential, setupRequired).
use ninj_os_proxie_edge_fabr.Prelude.{
  ℕ, ◌+◌, ◌-◌, ◌%◌, ◌^◌, ◌/◌, ◌≡◌, ◌≢◌, ap, sym, ◌∙◌, inl, inr, ◌⊎◌, Bool, true, false, not, ◌||◌,
  some, List, [], ◌∷◌, arith, length, any, ◌&&◌, Text, ◌==◌, text_beq_iff, Bool-cases, Option-cases,
}
use ninj_os_proxie_edge_fabr.GoText.{codes, to_lower, trim_space, or_else, equal_fold}
use ninj_os_proxie_edge_fabr.Accounts.{User}
use ninj_os_proxie_edge_fabr.Sessions.{Session, Principal, Crypto}
use ninj_os_proxie_edge_fabr.Sessions.Login.{
  Server, LoginRequest, logged_in, create_browser_session, login_as, is_login_name, setup_required,
  normalize_totp_secret, totp_code, big_endian, expected_code, is_recovery, verify_user_credential,
  valid_totp, handle_login,
}

-- The request has the recovery token, which is set, and the name that goes with it.
pub record IsRecovery (server : Server) (username provided : Text) : Type 0 where
  pub is_set : server.recovery_token ≢ []
  pub named : username ≡ codes "recovery"
  pub same_token :
      server.crypto.token_hash provided ≡ server.crypto.token_hash server.recovery_token

-- The credential is the account's password or, where it has no password, its token.
abbrev pub HasCredential : Crypto → User → Text → Type 0
HasCredential crypto u provided =
    ((u.password_hash ≢ []) × (crypto.verify_password u provided ≡ true))
    ⊎ ((u.password_hash ≡ [])
        × (u.token_hash ≢ [])
        × (crypto.token_hash provided ≡ to_lower u.token_hash))

-- The code of a counter.
abbrev pub code_at : Crypto → Text → ℕ → Text
code_at crypto key counter = totp_code (crypto.hmac_sha1 key (big_endian 8 (counter % 2 ^ 64)))

-- Six digits that are the code of the time's period of 30 seconds, the one before or the one after,
-- under the key that the secret decodes to.
pub record IsCode (crypto : Crypto) (secret code : Text) (seconds : ℕ) : Type 0 where
  pub six : length code ≡ 6
  pub key : Text
  pub decodes : crypto.base32_decode (normalize_totp_secret secret) ≡ some key
  pub current :
      (code_at crypto key (seconds / 30 + (2 ^ 64 - 1)) ≡ code)
      ⊎ (code_at crypto key (seconds / 30) ≡ code)
      ⊎ (code_at crypto key (seconds / 30 + 1) ≡ code)

-- The account has no secret for codes, or the code is right.
abbrev pub HasCode : Crypto → Text → Text → ℕ → Type 0
HasCode crypto secret code seconds =
    (normalize_totp_secret secret ≡ []) ⊎ IsCode crypto secret (trim_space code) seconds

-- An account that a request logs in to.
pub record MayEnter (server : Server) (username provided totp : Text) (u : User) : Type 0 where
  pub enabled : u.enabled ≡ true
  pub named : to_lower u.username ≡ username
  pub credential : HasCredential server.crypto u provided
  pub code : HasCode server.crypto u.totp_secret totp (server.checked_at / 1000)

IsRecovery-is_recovery :
    (server : Server) (username provided : Text)
    → is_recovery server username provided ≡ true
    → IsRecovery server username provided
IsRecovery-is_recovery server username provided h = record {
  is_set = ground (arith, h, text_beq_iff server.recovery_token []);
  named = ground (arith, h, text_beq_iff username (codes "recovery"));
  same_token = ground (
    arith,
    h,
    text_beq_iff (server.crypto.token_hash provided)
        (server.crypto.token_hash server.recovery_token),
  );
}

HasCredential-verify :
    (crypto : Crypto) (u : User) (provided : Text)
    → verify_user_credential crypto u provided ≡ true
    → HasCredential crypto u provided
unfolding verify_user_credential
HasCredential-verify crypto u provided h = ground (
  arith,
  h,
  text_beq_iff u.password_hash [],
  text_beq_iff u.token_hash [],
  text_beq_iff (crypto.token_hash provided) (to_lower u.token_hash),
)

some_equal : (a b d c : Text) → (a == c || b == c || d == c) ≡ true → (a ≡ c) ⊎ (b ≡ c) ⊎ (d ≡ c)
some_equal a b d c h = ground (arith, h, text_beq_iff a c, text_beq_iff b c, text_beq_iff d c)

expected-code_at :
    (crypto : Crypto) (key : Text) (counter : ℕ)
    → expected_code crypto key counter 0 ≡ code_at crypto key counter
unfolding expected_code
expected-code_at crypto key counter =
    let same : counter + 0 ≡ counter = omega arith in ap (λ n. code_at crypto key n) same

valid-expected :
    (crypto : Crypto) (secret code key : Text) (seconds : ℕ)
    → crypto.base32_decode (normalize_totp_secret secret) ≡ some key
    → (normalize_totp_secret secret == []) ≡ false
    → valid_totp crypto secret code seconds ≡ true
    → (expected_code crypto key (seconds / 30) (2 ^ 64 - 1) == trim_space code
        || expected_code crypto key (seconds / 30) 0 == trim_space code
        || expected_code crypto key (seconds / 30) 1 == trim_space code)
      ≡ true
unfolding valid_totp
valid-expected crypto secret code key seconds e filled h = ground (arith, h, e, filled)

IsCode-valid :
    (crypto : Crypto) (secret code key : Text) (seconds : ℕ)
    → crypto.base32_decode (normalize_totp_secret secret) ≡ some key
    → (normalize_totp_secret secret == []) ≡ false
    → valid_totp crypto secret code seconds ≡ true
    → IsCode crypto secret (trim_space code) seconds
IsCode-valid crypto secret code key seconds e filled h = record {
  six = unfold valid_totp in ground (arith, h, filled);
  key = key;
  decodes = e;
  current =
      elim (some_equal _ _ _ (trim_space code)
        (valid-expected crypto secret code key seconds e filled h)) [
          | inl a ↦ inl (unfold expected_code in a)
          | inr (inl b) ↦ inr (inl (sym (expected-code_at crypto key (seconds / 30)) ∙ b))
          | inr (inr d) ↦ inr (inr (unfold expected_code in d))
        ];
}

HasCode-valid :
    (crypto : Crypto) (secret code : Text) (seconds : ℕ)
    → valid_totp crypto secret code seconds ≡ true
    → HasCode crypto secret code seconds
HasCode-valid crypto secret code seconds h =
    let secret' = normalize_totp_secret secret in
    elim (Bool-cases (secret' == [])) [
      | inl empty ↦ inl ((text_beq_iff secret' []).0 empty)
      | inr filled ↦ elim (Option-cases (crypto.base32_decode secret')) [
        | inl e ↦ absurd (unfold valid_totp in ground (arith, h, e, filled))
        | inr (key, e) ↦ inr (IsCode-valid crypto secret code key seconds e filled h)
      ]
    ]

-- One of the accounts may enter, and is the principal.
pub data Enters (server : Server) (username provided totp : Text) (actor : Principal)
    : List User → Type 0 where
  enters_here :
      (u : User) (us : List User)
      → MayEnter server username provided totp u
      → actor ≡ record { username = u.username; role = u.role }
      → Enters server username provided totp actor (u ∷ us)
  enters_later :
      (u : User) (us : List User)
      → Enters server username provided totp actor us
      → Enters server username provided totp actor (u ∷ us)

browser-principal :
    (server : Server) (username role : Text) (totp : Bool) (rows : List Session) (token : Text)
    (actor : Principal)
    → (create_browser_session server username role totp rows).0 ≡ logged_in token actor
    → actor ≡ record { username = username; role = role }
unfolding create_browser_session
browser-principal server username role totp rows token actor h = ground (arith, h)

login_as-Enters :
    (server : Server) (username provided totp : Text) (us : List User) (rows : List Session)
    (token : Text) (actor : Principal)
    → (login_as server username provided totp us rows).0 ≡ logged_in token actor
    → Enters server username provided totp actor us
unfolding login_as
login_as-Enters server username provided totp [] rows token actor h = absurd (cc h)
login_as-Enters server username provided totp (u ∷ us) rows token actor h =
    elim (Bool-cases (not u.enabled || not (is_login_name username u))) [
      | inl other ↦ enters_later u us (
          login_as-Enters server username provided totp us rows token actor
            (ground (arith, h, other)))
      | inr mine ↦
          enters_here u us
            (record {
              enabled = ground (arith, mine);
              named = ground (arith, mine, text_beq_iff (to_lower u.username) username);
              credential = HasCredential-verify server.crypto u provided (ground (arith, h, mine));
              code =
                  HasCode-valid server.crypto u.totp_secret totp (server.checked_at / 1000)
                    (ground (arith, h, mine));
            })
            (browser-principal server u.username u.role (not (u.totp_secret == [])) rows token actor
              (ground (arith, h, mine)))
    ]

-- The setup is done, and an owner's account is enabled.
abbrev pub IsSetUp : Server → Type 0
IsSetUp server =
    (server.setup_complete ≡ true)
    × (any (λ u. u.enabled && equal_fold u.role (codes "owner")) server.users ≡ true)

login-IsSetUp :
    (server : Server) (r : LoginRequest) (rows : List Session) (token : Text) (actor : Principal)
    → (handle_login server r rows).0 ≡ logged_in token actor
    → IsSetUp server
unfolding handle_login setup_required
login-IsSetUp server r rows token actor h = (ground (arith, h), ground (arith, h))

-- A login succeeds only when the setup is done and an enabled account has the owner's role, and only
-- with the recovery token, if one is set, under the name `recovery`, for an owner's
-- session, or for an account that is enabled and has the given name in lower case. That account has a
-- password, and the given one verifies, or it has no password but a token, and the given one has its
-- hash; and it has no secret for codes, or the given code has six digits, the secret decodes to a key, and
-- the code is the key's for the current period of 30 seconds, the one before or the one after. The
-- session then has the account's own name and role.
pub handle_login-Enters :
    (server : Server) (r : LoginRequest) (rows : List Session) (token : Text) (actor : Principal)
    → (handle_login server r rows).0 ≡ logged_in token actor
    → IsSetUp server
      × ((IsRecovery server (to_lower (trim_space r.username)) (or_else r.password r.token)
            × (actor ≡ record { username = codes "recovery"; role = codes "owner" }))
          ⊎ Enters server
              (to_lower (trim_space r.username))
              (or_else r.password r.token)
              r.totp
              actor
              server.users)
unfolding handle_login
handle_login-Enters server r rows token actor h =
    let username = to_lower (trim_space r.username) in
    let provided = or_else r.password r.token in
    (
      login-IsSetUp server r rows token actor h,
      elim (Bool-cases (is_recovery server username provided)) [
        | inl y ↦ inl (
          IsRecovery-is_recovery server username provided y,
          browser-principal server (codes "recovery") (codes "owner") false rows token actor
              (ground (arith, h, y)),
        )
        | inr n ↦ inr (
            login_as-Enters server username provided r.totp server.users rows token actor
              (ground (arith, h, n)))
      ],
    )
