-- ===== src/Accounts/Names.antt =====
-- The names of the accounts stay distinct (dashboard/auth_accounts.go: handleDashboardUsers).
use ninj_os_proxie_edge_fabr.Prelude.{
  ◌≡◌, refl, Bool, false, Option, none, some, List, [], ◌∷◌, ◌++◌, arith, Text, All, Pairwise,
  Bool-cases, inl, inr,
}
use ninj_os_proxie_edge_fabr.GoText.{trim_space}
use ninj_os_proxie_edge_fabr.Accounts.{
  User, UserRequest, Credentials, saved, find_user, change_first, remove_first, edit_user, is_named,
  UserMethod, post, put, delete, UsersFile, users_of, load_users_file, handle_dashboard_users,
}
use ninj_os_proxie_edge_fabr.Accounts.Protected.{
  create_user-saved, update_user-saved, delete_user-saved,
}

-- The later name does not name the earlier account.
abbrev pub Apart : User → User → Type 0
Apart u v = is_named v.username u ≡ false

abbrev pub DistinctNames : List User → Type 0
DistinctNames = Pairwise Apart

not_named :
    (username : Text) (users : List User)
    → find_user username users ≡ none
    → All (λ u. is_named username u ≡ false) users
unfolding find_user
not_named username [] h = tt
not_named username (u ∷ us) h = (ground arith, not_named username us (ground arith))

All-last : (P : User → Type 0) (xs : List User) (u : User) → All P xs → P u → All P (xs ++ (u ∷ []))
All-last P [] u h p = (p, tt)
All-last P (x ∷ xs) u h p = (h.0, All-last P xs u h.1 p)

Distinct-last :
    (xs : List User) (v : User)
    → All (λ u. is_named v.username u ≡ false) xs
    → DistinctNames xs
    → DistinctNames (xs ++ (v ∷ []))
Distinct-last [] v h d = (tt, tt)
Distinct-last (x ∷ xs) v h d = (All-last (Apart x) xs v d.0 h.0, Distinct-last xs v h.1 d.1)

All-remove_first :
    (P : User → Type 0) (username : Text) (xs : List User)
    → All P xs
    → All P (remove_first username xs)
unfolding remove_first
All-remove_first P username [] h = tt
All-remove_first P username (x ∷ xs) h = elim (Bool-cases (is_named username x)) [
  | inl y ↦ rw y h.1
  | inr n ↦ rw n (h.0, All-remove_first P username xs h.1)
]

Distinct-remove_first :
    (username : Text) (xs : List User) → DistinctNames xs → DistinctNames (remove_first username xs)
unfolding remove_first
Distinct-remove_first username [] d = tt
Distinct-remove_first username (x ∷ xs) d = elim (Bool-cases (is_named username x)) [
  | inl y ↦ rw y d.1
  | inr n ↦ rw n (All-remove_first (Apart x) username xs d.0, Distinct-remove_first username xs d.1)
]

edit_user-username :
    (role : Text) (enabled : Option Bool) (o : Option Credentials) (u : User)
    → (edit_user role enabled o u).username ≡ u.username
unfolding edit_user
edit_user-username role enabled none u = refl
edit_user-username role enabled (some c) u = refl

module _ (username role : Text) (enabled : Option Bool) (o : Option Credentials) where
  edit : User → User
  edit = edit_user role enabled o

  All-change_first :
      (x : User) (xs : List User) → All (Apart x) xs → All (Apart x) (change_first username edit xs)
  unfolding change_first edit
  All-change_first x [] h = tt
  All-change_first x (y ∷ ys) h = elim (Bool-cases (is_named username y)) [
    | inl e ↦ rw (e, edit_user-username role enabled o y) h
    | inr e ↦ rw e (h.0, All-change_first x ys h.1)
  ]

  All-edited : (x : User) (xs : List User) → All (Apart x) xs → All (Apart (edit x)) xs
  unfolding edit
  All-edited x [] h = tt
  All-edited x (y ∷ ys) h = rw (edit_user-username role enabled o x) (h.0, All-edited x ys h.1)

  Distinct-change_first :
      (xs : List User) → DistinctNames xs → DistinctNames (change_first username edit xs)
  unfolding change_first
  Distinct-change_first [] d = tt
  Distinct-change_first (x ∷ xs) d = elim (Bool-cases (is_named username x)) [
    | inl e ↦ rw e (All-edited x xs d.0, d.1)
    | inr e ↦ rw e (All-change_first x xs d.0, Distinct-change_first xs d.1)
  ]

-- If no two accounts that the users file gives have names that differ only in case and outer spaces,
-- that is so of the accounts that any saved request leaves.
pub handle-DistinctNames :
    (unmarshal : Text → Option UsersFile) (credentials : Option Credentials) (can_write : Bool)
    (m : UserMethod) (r : UserRequest) (file : Option Text) (users' : List User)
    → DistinctNames (users_of (load_users_file unmarshal file))
    → handle_dashboard_users unmarshal credentials can_write m r file ≡ saved users'
    → DistinctNames users'
unfolding handle_dashboard_users
handle-DistinctNames unmarshal credentials can_write post r file users' d h =
    let users = users_of (load_users_file unmarshal file) in
    let (role, c, n, f, e) = create_user-saved credentials can_write r users users' h in
    rw e (Distinct-last users _ (not_named (trim_space r.username) users f) d)
handle-DistinctNames unmarshal credentials can_write put r file users' d h =
    let users = users_of (load_users_file unmarshal file) in
    let (role, u, o, n, f, k, e) = update_user-saved credentials can_write r users users' h in
    rw e (unfold edit in Distinct-change_first (trim_space r.username) role r.enabled o users d)
handle-DistinctNames unmarshal credentials can_write delete r file users' d h =
    let users = users_of (load_users_file unmarshal file) in
    let (u, f, k, e) = delete_user-saved credentials can_write r users users' h in
    rw e (Distinct-remove_first (trim_space r.username) users d)
