-- ===== src/Sessions/Table.antt =====
-- The table of sessions is a map from hashes to the grants that stand (dashboard/storage_sqlite.go).
use ninj_os_proxie_edge_fabr.Prelude.{
  All-select, ◌≡◌, ◌≢◌, refl, ap, ◌∙◌, inl, inr, Bool, true, false, not, Option, none, some, List,
  [], ◌∷◌, ◌++◌, arith, if◌then◌else◌, Text, ◌==◌, text_beq_iff, select, All, All-append, Pairwise,
  Bool-cases,
}
use ninj_os_proxie_edge_fabr.Prelude.Int.{ℤ, leb_ℤ, ltb_ℤ}
use ninj_os_proxie_edge_fabr.GoText.{equal_fold}
use ninj_os_proxie_edge_fabr.Sessions.{
  Session, Principal, has_hash, delete_session, create_session, find_session, touch, session,
  session_found, revoke_user_sessions, cleanup_sessions,
}

-- What happens to the table.
pub data SessionEvent : Type 0 where
  opened : Session → SessionEvent
  looked_up : ℤ → Text → SessionEvent
  closed : Text → SessionEvent
  revoked : Text → SessionEvent
  cleaned : ℤ → SessionEvent
  cleared : SessionEvent

unfoldable pub step : SessionEvent → List Session → List Session
unfolding session
step (opened s) rows = create_session s rows
step (looked_up now hash) rows = (session now hash rows).1
step (closed hash) rows = delete_session hash rows
step (revoked username) rows = revoke_user_sessions username rows
step (cleaned now) rows = cleanup_sessions now rows
step cleared rows = []

-- The rows after events, the newest first, from the empty table.
unfoldable pub rows_after : List SessionEvent → List Session
unfolding step
rows_after [] = []
rows_after (e ∷ es) = step e (rows_after es)

-- What a session grants, and until when.
pub record Grant : Type 0 where
  pub username : Text
  pub role : Text
  pub expires_at : ℤ

abbrev pub grant_of : Session → Grant
grant_of s = record { username = s.username; role = s.role; expires_at = s.expires_at }

abbrev keep_if : (Grant → Bool) → Option Grant → Option Grant
keep_if p none = none
keep_if p (some g) = if p g then some g else none

-- The grant of a hash after one more event.
unfoldable pub standing_step : Text → SessionEvent → Option Grant → Option Grant
standing_step hash (opened s) g = if has_hash hash s then some (grant_of s) else g
standing_step hash (looked_up now h) g =
    if h == hash then keep_if (λ x. not (leb_ℤ x.expires_at now)) g else g
standing_step hash (closed h) g = if h == hash then none else g
standing_step hash (revoked username) g = keep_if (λ x. not (equal_fold x.username username)) g
standing_step hash (cleaned now) g = keep_if (λ x. not (ltb_ℤ x.expires_at now)) g
standing_step hash cleared g = none

unfoldable pub standing : Text → List SessionEvent → Option Grant
unfolding standing_step
standing hash [] = none
standing hash (e ∷ es) = standing_step hash e (standing hash es)

pub Unique : List Session → Type 0
Unique = Pairwise (λ a b. a.token_hash ≢ b.token_hash)

select-Unique : (p : Session → Bool) (rows : List Session) → Unique rows → Unique (select p rows)
unfolding select Unique
select-Unique p [] h = tt
select-Unique p (s ∷ rows) h = elim (Bool-cases (p s)) [
  | inl y ↦
      rw y (All-select (λ b. s.token_hash ≢ b.token_hash) p rows h.0, select-Unique p rows h.1)
  | inr n ↦ rw n (select-Unique p rows h.1)
]

delete-All :
    (hash : Text) (rows : List Session) → All (λ s. s.token_hash ≢ hash) (delete_session hash rows)
unfolding delete_session select
delete-All hash [] = tt
delete-All hash (s ∷ rows) = elim (Bool-cases (has_hash hash s)) [
  | inl y ↦ rw y (delete-All hash rows)
  | inr n ↦ rw n (λ e. ground (arith, e, n, text_beq_iff s.token_hash hash), delete-All hash rows)
]

snoc-Unique :
    (s : Session) (rows : List Session)
    → Unique rows
    → All (λ r. r.token_hash ≢ s.token_hash) rows
    → Unique (rows ++ (s ∷ []))
unfolding Unique
snoc-Unique s [] u h = (tt, tt)
snoc-Unique s (r ∷ rows) u h = (
  All-append (λ b. r.token_hash ≢ b.token_hash) rows (s ∷ []) u.0 (h.0, tt),
  snoc-Unique s rows u.1 h.1,
)

touched : ℤ → Text → Session → Session
touched now hash s = if has_hash hash s then record s { last_seen = now } else s

touch-All :
    (h : Text) (now : ℤ) (hash : Text) (rows : List Session)
    → All (λ b. h ≢ b.token_hash) rows
    → All (λ b. h ≢ b.token_hash) (touch now hash rows)
unfolding touch
touch-All h now hash [] a = tt
touch-All h now hash (s ∷ rows) a = (ground (arith, a.0), touch-All h now hash rows a.1)

touch-Unique :
    (now : ℤ) (hash : Text) (rows : List Session) → Unique rows → Unique (touch now hash rows)
unfolding touch Unique
touch-Unique now hash [] u = tt
touch-Unique now hash (s ∷ rows) u = (head (has_hash hash s), touch-Unique now hash rows u.1)
  where
    head :
        (b : Bool)
        → All
            (λ r. (if b then record s { last_seen = now } else s).token_hash ≢ r.token_hash)
            (touch now hash rows)
    head true = touch-All s.token_hash now hash rows u.0
    head false = touch-All s.token_hash now hash rows u.0

-- The grant of a hash in a table.
unfoldable pub grant_in : Text → List Session → Option Grant
grant_in hash rows = elim (find_session hash rows) [ none ↦ none | some s ↦ some (grant_of s) ]

find-fresh :
    (hash : Text) (rows : List Session)
    → All (λ b. hash ≢ b.token_hash) rows
    → find_session hash rows ≡ none
unfolding find_session
find-fresh hash [] h = refl
find-fresh hash (s ∷ rows) h =
    ground (arith, h.0, text_beq_iff s.token_hash hash, find-fresh hash rows h.1)

pub grant-delete :
    (hash h : Text) (rows : List Session)
    → grant_in hash (delete_session h rows) ≡ (if h == hash then none else grant_in hash rows)
unfolding grant_in find_session delete_session select
grant-delete hash h [] = ground arith
grant-delete hash h (s ∷ rows) = ground (
  arith,
  text_beq_iff s.token_hash hash,
  text_beq_iff s.token_hash h,
  text_beq_iff h hash,
  grant-delete hash h rows,
)

pub grant-append :
    (hash : Text) (rows : List Session) (s : Session)
    → grant_in hash (rows ++ (s ∷ [])) ≡ elim (grant_in hash rows) [
      | some g ↦ some g
      | none ↦ if has_hash hash s then some (grant_of s) else none
    ]
unfolding grant_in find_session
grant-append hash [] s = ground arith
grant-append hash (r ∷ rows) s = ground (arith, grant-append hash rows s)

grant-touch :
    (hash : Text) (now : ℤ) (h : Text) (rows : List Session)
    → grant_in hash (touch now h rows) ≡ grant_in hash rows
unfolding grant_in find_session touch
grant-touch hash now h [] = refl
grant-touch hash now h (s ∷ rows) = ground (arith, grant-touch hash now h rows)

-- A statement that deletes by what a session grants.
grant-select :
    (hash : Text) (q : Grant → Bool) (rows : List Session)
    → Unique rows
    → grant_in hash (select (λ s. q (grant_of s)) rows) ≡ keep_if q (grant_in hash rows)
unfolding grant_in find_session select Unique
grant-select hash q [] u = refl
grant-select hash q (s ∷ rows) u = elim (Bool-cases (q (grant_of s))) [
  | inl y ↦ rw y (ground (arith, y, grant-select hash q rows u.1))
  | inr n ↦ rw n (
      ground (
        arith,
        n,
        text_beq_iff s.token_hash hash,
        find-fresh s.token_hash rows u.0,
        grant-select hash q rows u.1,
      ))
]

lookup-grant :
    (hash : Text) (now : ℤ) (h : Text) (rows : List Session)
    → grant_in hash (session now h rows).1
      ≡ standing_step hash (looked_up now h) (grant_in hash rows)
unfolding session session_found standing_step grant_in
lookup-grant hash now h rows =
    ground (arith, text_beq_iff h hash, grant-delete hash h rows, grant-touch hash now h rows)

pub step-grant :
    (hash : Text) (e : SessionEvent) (rows : List Session)
    → Unique rows
    → grant_in hash (step e rows) ≡ standing_step hash e (grant_in hash rows)
unfolding step standing_step create_session revoke_user_sessions cleanup_sessions
step-grant hash (opened s) rows u = ground (
  arith,
  grant-append hash (delete_session s.token_hash rows) s,
  grant-delete hash s.token_hash rows,
)
step-grant hash (looked_up now h) rows u = lookup-grant hash now h rows
step-grant hash (closed h) rows u = grant-delete hash h rows
step-grant hash (revoked username) rows u =
    grant-select hash (λ g. not (equal_fold g.username username)) rows u
step-grant hash (cleaned now) rows u = grant-select hash (λ g. not (ltb_ℤ g.expires_at now)) rows u
step-grant hash cleared rows u = unfold grant_in find_session in refl

session_found-Unique :
    (now : ℤ) (h : Text) (rows : List Session) (found : Option Session)
    → Unique rows
    → Unique (session_found now h rows found).1
unfolding session_found delete_session
session_found-Unique now h rows none u = u
session_found-Unique now h rows (some s) u = elim (Bool-cases (leb_ℤ s.expires_at now)) [
  | inl y ↦ rw y (select-Unique (λ r. not (has_hash h r)) rows u)
  | inr n ↦ rw n (touch-Unique now h rows u)
]

pub step-Unique : (e : SessionEvent) (rows : List Session) → Unique rows → Unique (step e rows)
unfolding step create_session revoke_user_sessions cleanup_sessions delete_session
step-Unique (opened s) rows u =
    snoc-Unique s (delete_session s.token_hash rows)
      (select-Unique (λ r. not (has_hash s.token_hash r)) rows u) (delete-All s.token_hash rows)
step-Unique (looked_up now h) rows u =
    unfold session in session_found-Unique now h rows (find_session h rows) u
step-Unique (closed h) rows u = select-Unique (λ s. not (has_hash h s)) rows u
step-Unique (revoked username) rows u =
    select-Unique (λ s. not (equal_fold s.username username)) rows u
step-Unique (cleaned now) rows u = select-Unique (λ s. not (ltb_ℤ s.expires_at now)) rows u
step-Unique cleared rows u = unfold Unique in tt

pub rows_after-Unique : (es : List SessionEvent) → Unique (rows_after es)
unfolding rows_after Unique
rows_after-Unique [] = tt
rows_after-Unique (e ∷ es) = step-Unique e (rows_after es) (rows_after-Unique es)

rows_after-standing :
    (hash : Text) (es : List SessionEvent) → grant_in hash (rows_after es) ≡ standing hash es
unfolding rows_after standing grant_in find_session
rows_after-standing hash [] = refl
rows_after-standing hash (e ∷ es) =
    step-grant hash e (rows_after es) (rows_after-Unique es)
    ∙ ap (standing_step hash e) (rows_after-standing hash es)

-- The answer of a lookup, from the grant that stands.
unfoldable pub answer_of : ℤ → Option Grant → Option Principal
answer_of now none = none
answer_of now (some g) =
    if leb_ℤ g.expires_at now then none else some (record { username = g.username; role = g.role })

pub session-grant :
    (now : ℤ) (hash : Text) (rows : List Session)
    → (session now hash rows).0 ≡ answer_of now (grant_in hash rows)
unfolding session session_found answer_of grant_in
session-grant now hash rows = ground arith

-- After any events from the empty table, a lookup at any time gives the principal that the events
-- themselves give: the one of the last session opened under the hash, if it was not closed, revoked,
-- cleaned away or found expired since, and has not expired.
pub session-standing :
    (now : ℤ) (hash : Text) (es : List SessionEvent)
    → (session now hash (rows_after es)).0 ≡ answer_of now (standing hash es)
session-standing now hash es =
    session-grant now hash (rows_after es) ∙ ap (answer_of now) (rows_after-standing hash es)

abbrev pub opens : Text → SessionEvent → Bool
opens hash (opened s) = has_hash hash s
opens hash e = false

standing-closed :
    (hash : Text) (later es : List SessionEvent)
    → All (λ e. opens hash e ≡ false) later
    → standing hash (later ++ (closed hash ∷ es)) ≡ none
unfolding standing standing_step
standing-closed hash [] es h = ground (arith, text_beq_iff hash hash)
standing-closed hash (e ∷ later) es h = ground (arith, h.0, standing-closed hash later es h.1)

-- A session that was closed is not found again, whatever happens before and later, until one is opened
-- under the same hash.
pub session-closed :
    (now : ℤ) (hash : Text) (later es : List SessionEvent)
    → All (λ e. opens hash e ≡ false) later
    → (session now hash (rows_after (later ++ (closed hash ∷ es)))).0 ≡ none
session-closed now hash later es h =
    session-standing now hash (later ++ (closed hash ∷ es))
    ∙ rw (standing-closed hash later es h) (unfold answer_of in refl)
