-- ===== src/Transfers/Lifecycle.antt =====
-- How the state of a transfer may change, and what an arrival and the time limit do.
use ninj_os_proxie_edge_fabr.Prelude.{
  ℕ, ◌≡◌, ◌≢◌, refl, Bool, true, false, none, some, List, [], ◌∷◌, arith, if◌then◌else◌, Text, ◌==◌,
  All, Pairwise, Bool-cases, Option-cases, inl, inr, subst, All-weaken,
}
use mathlib.Core.List.{Memᴰ}
use ninj_os_proxie_edge_fabr.Prelude.Int.{ℤ, pos, ◌≤ℤ◌, ltb_ℤ}
use ninj_os_proxie_edge_fabr.Transfers.{
  TransferState, ticketed, proxy_connected, arrived, expired, failed, Transaction, in_flight,
  is_ticketed, update_row, newest, is_overdue, timed_out,
}

-- The changes of state that the ledger makes. `arrived` and `expired` are left only by a failure.
pub data Moves : TransferState → TransferState → Type 0 where
  stay : {s : TransferState} → Moves s s
  connect : Moves ticketed proxy_connected
  arrive : {s : TransferState} → in_flight s ≡ true → Moves s arrived
  expire : {s : TransferState} → in_flight s ≡ true → Moves s expired
  fail : {s : TransferState} → Moves s failed

connected-Moves : (s : TransferState) → is_ticketed s ≡ true → Moves s proxy_connected
connected-Moves ticketed h = connect
connected-Moves _ h = cc

pub connect_row :
    (ts : ℤ) (id failure : Text) (r : Transaction)
    → let r' = if r.ticket_id == id then update_row proxy_connected failure ts r else r in
      (r.ticket_id ≡ r'.ticket_id) × Moves r.state r'.state
unfolding update_row
connect_row ts id failure r = elim (Bool-cases (r.ticket_id == id)) [
  | inr other ↦ rw other (refl, stay)
  | inl same ↦ elim (Bool-cases (is_ticketed r.state)) [
    | inl waiting ↦ rw (same, waiting) (refl, connected-Moves r.state waiting)
    | inr not_waiting ↦ rw (same, not_waiting) (refl, stay)
  ]
]

pub fail_row :
    (ts : ℤ) (id failure : Text) (r : Transaction)
    → let r' = if r.ticket_id == id then update_row failed failure ts r else r in
      (r.ticket_id ≡ r'.ticket_id) × Moves r.state r'.state
unfolding update_row
fail_row ts id failure r = elim (Bool-cases (r.ticket_id == id)) [
  | inr other ↦ rw other (refl, stay)
  | inl same ↦ rw same (refl, fail)
]

pub expire_row :
    (now : ℕ) (r : Transaction)
    → let r' =
        if is_overdue now r
        then record r { state = expired; updated_at = pos now; failure_reason = some timed_out }
        else r in
      (r.ticket_id ≡ r'.ticket_id) × Moves r.state r'.state
expire_row now r = elim (Bool-cases (is_overdue now r)) [
  | inr early ↦ rw early (refl, stay)
  | inl late ↦ rw late (refl, expire {s = r.state} (unfold is_overdue in ground arith))
]

-- A row with the given id.
abbrev pub DistinctIds : List Transaction → Type 0
DistinctIds = Pairwise (λ r s. r.ticket_id ≢ s.ticket_id)

-- The row that the query picks passes the test, and no row that passes it was requested later.
pub record IsNewest (p : Transaction → Bool) (rows : List Transaction) (r : Transaction)
    : Type 0 where
  pub passes : p r ≡ true
  pub present : Memᴰ r rows
  pub latest : All (λ s. p s ≡ true → s.requested_at ≤ℤ r.requested_at) rows

pub newest_none :
    (p : Transaction → Bool) (rows : List Transaction)
    → newest p rows ≡ none
    → All (λ s. p s ≡ false) rows
unfolding newest
newest_none p [] h = tt
newest_none p (r ∷ rows) h = (ground arith, newest_none p rows (ground arith))

module _ (p : Transaction → Bool) where
  abbrev Until : Transaction → Transaction → Type 0
  Until r s = p s ≡ true → s.requested_at ≤ℤ r.requested_at

  IsNewest-only :
      (x : Transaction) (rows : List Transaction)
      → p x ≡ true
      → newest p rows ≡ none
      → IsNewest p (x ∷ rows) x
  IsNewest-only x rows y e = record {
    passes = y;
    present = Memᴰ.head refl;
    latest = (
      λ _. omega arith,
      All-weaken (λ s. p s ≡ false) (Until x) (λ s n y'. cc) rows (newest_none p rows e),
    );
  }

  IsNewest-later :
      (x : Transaction) (rows : List Transaction) (r : Transaction)
      → (p x ≡ true → x.requested_at ≤ℤ r.requested_at)
      → IsNewest p rows r
      → IsNewest p (x ∷ rows) r
  IsNewest-later x rows r le n = record {
    passes = n.passes;
    present = Memᴰ.tail n.present;
    latest = (le, n.latest);
  }

  IsNewest-first :
      (x : Transaction) (rows : List Transaction) (r : Transaction)
      → p x ≡ true
      → r.requested_at ≤ℤ x.requested_at
      → IsNewest p rows r
      → IsNewest p (x ∷ rows) x
  IsNewest-first x rows r y le n = record {
    passes = y;
    present = Memᴰ.head refl;
    latest = (
      λ _. omega arith,
      All-weaken (Until r) (Until x) (λ s f q. omega (arith, f q)) rows n.latest,
    );
  }

  pub newest_some :
      (rows : List Transaction) (r : Transaction) → newest p rows ≡ some r → IsNewest p rows r
  unfolding newest
  newest_some [] r h = cc
  newest_some (x ∷ rows) r h = elim (Bool-cases (p x)) [
    | inr fails ↦ IsNewest-later x rows r (λ y. cc) (newest_some rows r (ground arith))
    | inl passes ↦ elim (Option-cases (newest p rows)) [
      | inl e ↦ subst (IsNewest p (x ∷ rows)) (ground arith) (IsNewest-only x rows passes e)
      | inr (s, e) ↦ elim (Bool-cases (ltb_ℤ x.requested_at s.requested_at)) [
        | inl before ↦
            subst (IsNewest p (x ∷ rows)) (ground arith)
              (IsNewest-later x rows s (λ _. ground arith) (newest_some rows s e))
        | inr after ↦
            subst (IsNewest p (x ∷ rows)) (ground arith)
              (IsNewest-first x rows s passes (ground arith) (newest_some rows s e))
      ]
    ]
  ]
