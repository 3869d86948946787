-- ===== src/Accounts/Protected.antt =====
-- What `handleDashboardUsers` does to the owner's account and the accounts of startup tokens, where the
-- users file can be read and where it cannot (dashboard/auth_accounts.go).
use ninj_os_proxie_edge_fabr.Prelude.{
  ◌≡◌, ◌⊎◌, refl, ap, ◌∙◌, Bool, false, ◌||◌, Option, none, some, List, [], ◌∷◌, ◌++◌, arith, Text,
  ◌==◌, text_beq, text_beq_iff, select, Option-cases, Bool-cases, inl, inr,
}
use ninj_os_proxie_edge_fabr.GoText.{codes, to_lower, lower_byte, trim_space, equal_fold}
use ninj_os_proxie_edge_fabr.Accounts.{
  User, UserRequest, Credentials, saved, normalize_role, is_managed_user, is_owner_user, find_user,
  change_first, remove_first, new_user, edit_user, create_user, update_user, delete_user, save,
  store_edit, is_named, UserMethod, post, put, delete, UsersFile, users_of, load_users_file,
  handle_dashboard_users,
}

-- An account that only the owner page or the environment may change.
abbrev pub is_protected : User → Bool
is_protected u = is_owner_user u || is_managed_user u

select-append :
    (xs : List User) (u : User)
    → is_protected u ≡ false
    → select is_protected (xs ++ (u ∷ [])) ≡ select is_protected xs
unfolding select
select-append [] u h = rw h refl
select-append (x ∷ xs) u h = ground (arith, select-append xs u h)

select-remove_first :
    (username : Text) (users : List User) (u : User)
    → find_user username users ≡ some u
    → is_protected u ≡ false
    → select is_protected (remove_first username users) ≡ select is_protected users
unfolding select remove_first find_user
select-remove_first username [] u f h = refl
select-remove_first username (x ∷ xs) u f h = elim (Bool-cases (is_named username x)) [
  | inl y ↦
      let same : some x ≡ some u = rw y at f in let found : x ≡ u = cc same in rw (y, found, h) refl
  | inr n ↦ ground (arith, select-remove_first username xs u (rw n at f) h)
]

select-change_first :
    (username : Text) (f : User → User) (users : List User) (u : User)
    → find_user username users ≡ some u
    → is_protected u ≡ false
    → is_protected (f u) ≡ false
    → select is_protected (change_first username f users) ≡ select is_protected users
unfolding select change_first find_user
select-change_first username f [] u e h k = refl
select-change_first username f (x ∷ xs) u e h k = elim (Bool-cases (is_named username x)) [
  | inl y ↦
      let same : some x ≡ some u = rw y at e in
      let found : x ≡ u = cc same in rw (y, found, h, k) refl
  | inr n ↦ ground (arith, select-change_first username f xs u (rw n at e) h k)
]

known_role :
    (role r : Text)
    → normalize_role role ≡ some r
    → (r ≡ codes "admin") ⊎ (r ≡ codes "operator") ⊎ (r ≡ codes "viewer")
unfolding normalize_role
known_role role r h =
    let asked = to_lower (trim_space role) in
    ground (
      arith,
      text_beq_iff asked (codes "admin"),
      text_beq_iff asked (codes "operator"),
      text_beq_iff asked (codes "viewer"),
    )

-- A role that a request may set is not the owner's.
normalize_role-other :
    (role r : Text) → normalize_role role ≡ some r → equal_fold r (codes "owner") ≡ false
unfolding equal_fold to_lower lower_byte text_beq
normalize_role-other role r h = elim (known_role role r h) [
  | inl e ↦ rw e refl
  | inr (inl e) ↦ rw e refl
  | inr (inr e) ↦ rw e refl
]

new_user-unprotected :
    (username role r : Text) (c : Credentials)
    → normalize_role role ≡ some r
    → is_protected (new_user username r c) ≡ false
unfolding is_managed_user text_beq
new_user-unprotected username role r c h = ground (arith, normalize_role-other role r h)

edit_user-unprotected :
    (role r : Text) (enabled : Option Bool) (o : Option Credentials) (u : User)
    → normalize_role role ≡ some r
    → is_protected u ≡ false
    → is_protected (edit_user r enabled o u) ≡ false
unfolding is_managed_user edit_user text_beq
edit_user-unprotected role r enabled none u h k = ground (arith, normalize_role-other role r h)
edit_user-unprotected role r enabled (some c) u h k = ground (arith, normalize_role-other role r h)

module _ (credentials : Option Credentials) (can_write : Bool) (r : UserRequest)
    (users users' : List User) where
  pub create_user-saved :
      create_user credentials can_write r users ≡ saved users'
      → (role : Text) × (c : Credentials) × (normalize_role r.role ≡ some role)
        × (find_user (trim_space r.username) users ≡ none)
        × (users' ≡ users ++ (new_user (trim_space r.username) role c ∷ []))
  unfolding create_user save
  create_user-saved h = elim (Option-cases (normalize_role r.role)) [
    | inl n ↦ ground arith
    | inr (role, n) ↦ elim (Option-cases credentials) [
      | inl m ↦ ground arith
      | inr (c, m) ↦ (role, c, n, ground arith, ground arith)
    ]
  ]

  pub delete_user-saved :
      delete_user can_write r users ≡ saved users'
      → (u : User) × (find_user (trim_space r.username) users ≡ some u)
        × (is_protected u ≡ false)
        × (users' ≡ remove_first (trim_space r.username) users)
  unfolding delete_user save
  delete_user-saved h = elim (Option-cases (find_user (trim_space r.username) users)) [
    | inl n ↦ ground arith
    | inr (u, n) ↦ (u, n, ground arith, ground arith)
  ]

  store_edit-saved :
      (role : Text)
      → store_edit credentials can_write r role users ≡ saved users'
      → (o : Option Credentials) × (users'
          ≡ change_first (trim_space r.username) (edit_user role r.enabled o) users)
  unfolding store_edit save
  store_edit-saved role h = elim (Bool-cases (r.password == [])) [
    | inl b ↦ (none, ground arith)
    | inr b ↦ elim (Option-cases credentials) [
      | inl m ↦ ground arith
      | inr (c, m) ↦ (some c, ground arith)
    ]
  ]

  pub update_user-saved :
      update_user credentials can_write r users ≡ saved users'
      → (role : Text) × (u : User) × (o : Option Credentials) × (normalize_role r.role ≡ some role)
        × (find_user (trim_space r.username) users ≡ some u)
        × (is_protected u ≡ false)
        × (users' ≡ change_first (trim_space r.username) (edit_user role r.enabled o) users)
  unfolding update_user
  update_user-saved h = elim (Option-cases (normalize_role r.role)) [
    | inl n ↦ ground arith
    | inr (role, n) ↦ elim (Option-cases (find_user (trim_space r.username) users)) [
      | inl m ↦ ground arith
      | inr (u, m) ↦
          let (o, e) = store_edit-saved role (ground arith) in (role, u, o, n, m, ground arith, e)
    ]
  ]

users_after_request-is_protected :
    (unmarshal : Text → Option UsersFile) (credentials : Option Credentials) (can_write : Bool)
    (m : UserMethod) (r : UserRequest) (file : Option Text) (users' : List User)
    → handle_dashboard_users unmarshal credentials can_write m r file ≡ saved users'
    → select is_protected users' ≡ select is_protected (users_of (load_users_file unmarshal file))
unfolding handle_dashboard_users
users_after_request-is_protected unmarshal credentials can_write post r file users' h =
    let users = users_of (load_users_file unmarshal file) in
    let (role, c, n, f, e) = create_user-saved credentials can_write r users users' h in
    rw e (select-append users _ (new_user-unprotected (trim_space r.username) r.role role c n))
users_after_request-is_protected unmarshal credentials can_write put r file users' h =
    let users = users_of (load_users_file unmarshal file) in
    let (role, u, o, n, f, k, e) = update_user-saved credentials can_write r users users' h in
    rw e (
      select-change_first (trim_space r.username) (edit_user role r.enabled o) users u f k
        (edit_user-unprotected r.role role r.enabled o u n k))
users_after_request-is_protected unmarshal credentials can_write delete r file users' h =
    let users = users_of (load_users_file unmarshal file) in
    let (u, f, k, e) = delete_user-saved credentials can_write r users users' h in
    rw e (select-remove_first (trim_space r.username) users u f k)

-- The users file was read, and holds these accounts.
abbrev pub Holds : (Text → Option UsersFile) → Option Text → List User → Type 0
Holds unmarshal file users =
    (bytes : Text) × (p : UsersFile) × (file ≡ some bytes)
    × (unmarshal bytes ≡ some p)
    × (users ≡ users_of p)

-- It could not be read, or not be decoded.
abbrev pub IsLost : (Text → Option UsersFile) → Option Text → Type 0
IsLost unmarshal file =
    (file ≡ none) ⊎ ((bytes : Text) × (file ≡ some bytes) × (unmarshal bytes ≡ none))

load-Holds :
    (unmarshal : Text → Option UsersFile) (file : Option Text) (users : List User)
    → Holds unmarshal file users
    → users_of (load_users_file unmarshal file) ≡ users
unfolding load_users_file
load-Holds unmarshal file users (bytes, p, f, u, e) = ground (arith, f, u, e)

load-IsLost :
    (unmarshal : Text → Option UsersFile) (file : Option Text)
    → IsLost unmarshal file
    → users_of (load_users_file unmarshal file) ≡ []
unfolding load_users_file
load-IsLost unmarshal file (inl f) = ground (arith, f)
load-IsLost unmarshal file (inr (bytes, f, u)) = ground (arith, f, u)

-- A request of any method that is saved keeps the accounts of an owner and those that a startup token
-- logs in, all of them and in order, if the users file was read and decoded; if it could not be read
-- or decoded, the list that is saved in its place holds no such account, whatever the file held.
pub handle-is_protected :
    (unmarshal : Text → Option UsersFile) (credentials : Option Credentials) (can_write : Bool)
    (m : UserMethod) (r : UserRequest) (file : Option Text) (users' : List User)
    → handle_dashboard_users unmarshal credentials can_write m r file ≡ saved users'
    → ((users : List User)
        → Holds unmarshal file users
        → select is_protected users' ≡ select is_protected users)
      × (IsLost unmarshal file → select is_protected users' ≡ [])
handle-is_protected unmarshal credentials can_write m r file users' h =
    let kept = users_after_request-is_protected unmarshal credentials can_write m r file users' h in
    (
      λ users read. kept ∙ ap (select is_protected) (load-Holds unmarshal file users read),
      λ lost.
          kept
          ∙ ap (select is_protected) (load-IsLost unmarshal file lost)
          ∙ (unfold select in refl),
    )
