-- ===== src/Accounts.antt =====
-- The dashboard's accounts (dashboard/auth_accounts.go: validateOwnerUsername,
-- validateOwnerPassword, normalizeDashboardRole, managedDashboardUser, findDashboardUser,
-- dashboardUsersFile, loadUsersFile, handleDashboardUsers; dashboard/main.go: dashboardUser). What is
-- saved is the list of users. Decoding the users file is a parameter, hashing a password and drawing
-- its salt too, and so is whether the file can be written. Listing, the revoking of sessions and the
-- audit log are left out.
pub mod Protected
pub mod Names
mod Examples
use ninj_os_proxie_edge_fabr.Prelude.{
  ℕ, Bool, true, false, not, ◌&&◌, ◌||◌, Option, none, some, List, [], ◌∷◌, ◌++◌, leb, ltb, nat_beq,
  length, if◌then◌else◌, Text, ◌==◌,
}
use ninj_os_proxie_edge_fabr.Prelude.Int.{ℤ, pos, ltb_ℤ}
use ninj_os_proxie_edge_fabr.GoText.{codes, to_lower, trim_space, equal_fold}

pub record User : Type 0 where
  pub username : Text
  pub role : Text
  pub password_hash : Text
  pub password_salt : Text
  pub password_iterations : ℤ
  pub token_hash : Text
  pub totp_secret : Text
  pub enabled : Bool

pub data AccountError : Type 0 where
  bad_length bad_character bad_role short_password long_password password_is_username : AccountError
  no_credentials name_taken not_found is_owner is_managed not_removable unwritable : AccountError

abbrev is_name_byte : ℕ → Bool
is_name_byte c =
    leb b'a' c && leb c b'z'
    || leb b'A' c && leb c b'Z'
    || leb b'0' c && leb c b'9'
    || nat_beq c b'_'
    || nat_beq c b'-'
    || nat_beq c b'.'

unfoldable pub all_name_bytes : Text → Bool
all_name_bytes [] = true
all_name_bytes (c ∷ s) = is_name_byte c && all_name_bytes s

-- `validateOwnerUsername`
unfoldable pub validate_username : Text → Option AccountError
validate_username username =
    if ltb (length username) 3 || ltb 32 (length username)
    then some bad_length
    else if not (all_name_bytes username)
    then some bad_character
    else none

-- `validateOwnerPassword`
unfoldable pub validate_password : Text → Text → Option AccountError
validate_password username password =
    if ltb (length password) 12
    then some short_password
    else if ltb 256 (length password)
    then some long_password
    else if equal_fold username password
    then some password_is_username
    else none

-- `normalizeDashboardRole`
unfoldable pub normalize_role : Text → Option Text
normalize_role role =
    let r = to_lower (trim_space role) in
    if r == codes "admin" || r == codes "operator" || r == codes "viewer" then some r else none

-- `managedDashboardUser`
unfoldable pub is_managed_user : User → Bool
is_managed_user u = u.password_hash == [] && not (u.token_hash == [])

abbrev pub is_owner_user : User → Bool
is_owner_user u = equal_fold u.role (codes "owner")

abbrev pub is_named : Text → User → Bool
is_named username u = equal_fold (trim_space u.username) (trim_space username)

-- `findDashboardUser`, with the user at the index that it gives.
unfoldable pub find_user : Text → List User → Option User
find_user username [] = none
find_user username (u ∷ us) =
    let rest = find_user username us in if is_named username u then some u else rest

pub record UserRequest : Type 0 where
  pub username : Text
  pub password : Text
  pub role : Text
  pub enabled : Option Bool

pub record Credentials : Type 0 where
  pub hash : Text
  pub salt : Text
  pub iterations : ℤ

pub data AccountOutcome : Type 0 where
  refused : AccountError → AccountOutcome
  saved : List User → AccountOutcome

-- `saveUsersFile`
unfoldable pub save : Bool → List User → AccountOutcome
save can_write users = if can_write then saved users else refused unwritable

-- `payload.Users[index] = f(user)`, at the index of the first user of that name.
unfoldable pub change_first : Text → (User → User) → List User → List User
change_first username f [] = []
change_first username f (u ∷ us) =
    let rest = change_first username f us in if is_named username u then f u ∷ us else u ∷ rest

-- Its removal.
unfoldable pub remove_first : Text → List User → List User
remove_first username [] = []
remove_first username (u ∷ us) =
    let rest = remove_first username us in if is_named username u then us else u ∷ rest

-- The user that a POST adds.
abbrev pub new_user : Text → Text → Credentials → User
new_user username role c = record {
  username = username;
  role = role;
  password_hash = c.hash;
  password_salt = c.salt;
  password_iterations = c.iterations;
  token_hash = [];
  totp_secret = [];
  enabled = true;
}

-- What becomes of the user in a PUT; no credentials are given where no password was.
unfoldable pub edit_user : Text → Option Bool → Option Credentials → User → User
edit_user role enabled none u = record u {
  role = role;
  enabled = elim enabled [ none ↦ u.enabled | some b ↦ b ];
}
edit_user role enabled (some c) u = record u {
  role = role;
  enabled = elim enabled [ none ↦ u.enabled | some b ↦ b ];
  password_hash = c.hash;
  password_salt = c.salt;
  password_iterations = c.iterations;
  token_hash = [];
}

-- `handleDashboardUsers`, POST. `credentials` is the outcome of `newPasswordCredentials`.
unfoldable pub create_user : Option Credentials → Bool → UserRequest → List User → AccountOutcome
create_user credentials can_write r users =
    let username = trim_space r.username in
    elim (validate_username username) [
      | some e ↦ refused e
      | none ↦ elim (normalize_role r.role) [
        | none ↦ refused bad_role
        | some role ↦ elim (validate_password username r.password) [
          | some e ↦ refused e
          | none ↦ elim credentials [
            | none ↦ refused no_credentials
            | some c ↦ elim (find_user username users) [
              | some u ↦ refused name_taken
              | none ↦ save can_write (users ++ (new_user username role c ∷ []))
            ]
          ]
        ]
      ]
    ]

-- The last part of the PUT: a password is hashed only if one was given.
store_edit : Option Credentials → Bool → UserRequest → Text → List User → AccountOutcome
store_edit credentials can_write r role users =
    if r.password == []
    then save can_write (change_first (trim_space r.username) (edit_user role r.enabled none) users)
    else elim credentials [
      | none ↦ refused no_credentials
      | some c ↦
          save can_write
            (change_first (trim_space r.username) (edit_user role r.enabled (some c)) users)
    ]

password_error : Text → Text → Option AccountError
password_error username password =
    if password == [] then none else validate_password username password

-- `handleDashboardUsers`, PUT.
unfoldable pub update_user : Option Credentials → Bool → UserRequest → List User → AccountOutcome
unfolding store_edit password_error
update_user credentials can_write r users =
    let username = trim_space r.username in
    elim (normalize_role r.role) [
      | none ↦ refused bad_role
      | some role ↦ elim (password_error username r.password) [
        | some e ↦ refused e
        | none ↦ elim (find_user username users) [
          | none ↦ refused not_found
          | some u ↦
              if is_owner_user u
              then refused is_owner
              else if is_managed_user u
              then refused is_managed
              else store_edit credentials can_write r role users
        ]
      ]
    ]

-- `handleDashboardUsers`, DELETE.
unfoldable pub delete_user : Bool → UserRequest → List User → AccountOutcome
delete_user can_write r users =
    let username = trim_space r.username in
    elim (find_user username users) [
      | none ↦ refused not_found
      | some u ↦
          if is_owner_user u || is_managed_user u
          then refused not_removable
          else save can_write (remove_first username users)
    ]

-- `dashboardUsersFile`; a missing list is `none`.
pub record UsersFile : Type 0 where
  pub version : ℤ
  pub setup_complete : Bool
  pub users : Option (List User)

abbrev pub empty_users_file : UsersFile
empty_users_file = record { version = pos 2; setup_complete = false; users = some [] }

-- The upgrade of a version 1 file.
abbrev upgraded : UsersFile → UsersFile
upgraded p =
    if ltb_ℤ p.version (pos 2)
    then record p {
      setup_complete = elim p.users [ none ↦ false | some us ↦ ltb 0 (length us) ];
      version = pos 2;
    }
    else p

abbrev pub value_or_nil : Option (List User) → List User
value_or_nil none = []
value_or_nil (some us) = us

-- `loadUsersFile`: `file` is the file's bytes, if it can be read, and `unmarshal` decodes them over the
-- empty list, if they are JSON of that form. A file that cannot be read or decoded counts as empty.
unfoldable pub load_users_file : (Text → Option UsersFile) → Option Text → UsersFile
load_users_file unmarshal none = empty_users_file
load_users_file unmarshal (some bytes) = elim (unmarshal bytes) [
  | none ↦ empty_users_file
  | some p ↦ record (upgraded p) { users = some (value_or_nil (upgraded p).users) }
]

abbrev pub users_of : UsersFile → List User
users_of p = value_or_nil p.users

pub data UserMethod : Type 0 where
  post put delete : UserMethod

-- The methods of `handleDashboardUsers` that change the accounts, on the users file.
unfoldable pub handle_dashboard_users :
    (Text → Option UsersFile)
    → Option Credentials
    → Bool
    → UserMethod
    → UserRequest
    → Option Text
    → AccountOutcome
unfolding create_user update_user delete_user load_users_file
handle_dashboard_users unmarshal credentials can_write post r file =
    create_user credentials can_write r (users_of (load_users_file unmarshal file))
handle_dashboard_users unmarshal credentials can_write put r file =
    update_user credentials can_write r (users_of (load_users_file unmarshal file))
handle_dashboard_users unmarshal credentials can_write delete r file =
    delete_user can_write r (users_of (load_users_file unmarshal file))
