-- ===== src/Accounts/Examples.antt =====
-- Tests of the accounts, and their theorems at concrete requests.
use ninj_os_proxie_edge_fabr.Prelude.{
  ◌≡◌, refl, true, Option, none, some, List, [], ◌∷◌, Text, ◌==◌, text_beq, select, if◌then◌else◌,
}
use ninj_os_proxie_edge_fabr.Prelude.Int.{pos}
use ninj_os_proxie_edge_fabr.GoText.{
  codes, to_lower, lower_byte, trim_space, trim_left, trim_right, is_space, equal_fold,
}
use ninj_os_proxie_edge_fabr.Accounts.{
  User, UserRequest, Credentials, saved, refused, is_owner, name_taken, is_managed_user, find_user,
  change_first, remove_first, save, normalize_role, validate_username, validate_password,
  all_name_bytes, edit_user, create_user, update_user, delete_user, post, put, delete,
  handle_dashboard_users, UsersFile, users_of, load_users_file,
}
use ninj_os_proxie_edge_fabr.Accounts.Protected.{Holds, IsLost, is_protected, handle-is_protected}
use ninj_os_proxie_edge_fabr.Accounts.Names.{DistinctNames, handle-DistinctNames}

abbrev owner : User
owner = record {
  username = codes "Root";
  role = codes "Owner";
  password_hash = codes "h";
  password_salt = codes "s";
  password_iterations = pos 1;
  token_hash = [];
  totp_secret = [];
  enabled = true;
}

abbrev bob : User
bob = record owner { username = codes "bob"; role = codes "viewer" }

abbrev made : Credentials
made = record { hash = codes "h2"; salt = codes "s2"; iterations = pos 1 }

abbrev promote : UserRequest
promote = record { username = codes " BOB"; password = []; role = codes "Admin"; enabled = none }

abbrev admin_bob : User
admin_bob = record bob { role = codes "admin" }

-- A stand-in for the decoder: the file `1` holds the two accounts.
abbrev unmarshal : Text → Option UsersFile
unmarshal bytes =
    if bytes == codes "1"
    then some (record { version = pos 2; setup_complete = true; users = some (owner ∷ bob ∷ []) })
    else none

abbrev file : Option Text
file = some (codes "1")

promotes :
    (handle_dashboard_users unmarshal none true put promote file ≡ saved (owner ∷ admin_bob ∷ []))
    × (handle_dashboard_users unmarshal none true delete promote file ≡ saved (owner ∷ []))
    × (handle_dashboard_users unmarshal none true put
          (record promote { username = codes "root" })
          file
        ≡ refused is_owner)
    × (handle_dashboard_users unmarshal
          (some made)
          true
          post
          (record promote { password = codes "long password" })
          file
        ≡ refused name_taken)
unfolding handle_dashboard_users load_users_file create_user update_user delete_user find_user
    change_first remove_first save normalize_role validate_username validate_password all_name_bytes
    edit_user is_managed_user to_lower lower_byte trim_space trim_left trim_right is_space
    equal_fold text_beq
promotes = (refl, refl, refl, refl)

holds : Holds unmarshal file (owner ∷ bob ∷ [])
unfolding text_beq
holds = (
  codes "1",
  record { version = pos 2; setup_complete = true; users = some (owner ∷ bob ∷ []) },
  refl,
  refl,
  refl,
)

handle-is_protected_example :
    ((users : List User)
      → Holds unmarshal file users
      → select is_protected (owner ∷ admin_bob ∷ []) ≡ select is_protected users)
    × (IsLost unmarshal file → select is_protected (owner ∷ admin_bob ∷ []) ≡ [])
handle-is_protected_example =
    handle-is_protected unmarshal none true put promote file (owner ∷ admin_bob ∷ []) promotes.0

-- The owner stays where the file was read, and is gone where it was lost.
owner_stays : select is_protected (owner ∷ admin_bob ∷ []) ≡ select is_protected (owner ∷ bob ∷ [])
owner_stays =
    (handle-is_protected unmarshal none true put promote file (owner ∷ admin_bob ∷ []) promotes.0).0
      (owner ∷ bob ∷ []) holds

names : DistinctNames (users_of (load_users_file unmarshal file))
unfolding load_users_file to_lower lower_byte trim_space trim_left trim_right is_space equal_fold
    text_beq
names = ((refl, tt), (tt, tt))

handle-DistinctNames_example : DistinctNames (owner ∷ admin_bob ∷ [])
handle-DistinctNames_example =
    handle-DistinctNames unmarshal none true put promote file (owner ∷ admin_bob ∷ []) names
      promotes.0
