-- ===== src/Replay/Window.antt =====
-- How long the guard of `acceptReplayKey` remembers a signature.
use ninj_os_proxie_edge_fabr.Prelude.{
  ℕ, ◌+◌, ◌≤◌, ◌≡◌, true, false, some, List, [], ◌∷◌, arith, Text, text_beq_iff, select, All,
}
use ninj_os_proxie_edge_fabr.GoMap.{lookup, lookup-insert}
use ninj_os_proxie_edge_fabr.Replay.{
  Seen, is_kept, retention_millis, accept_replay_key, Call, verify_signed_body, after_calls,
}

lookup-select :
    (k : Text) (now at : ℕ) (seen : Seen)
    → now ≤ at + retention_millis
    → lookup k seen ≡ some at
    → lookup k (select (is_kept now) seen) ≡ some at
unfolding lookup select
lookup-select k now at [] fits h = cc
lookup-select k now at ((j, t) ∷ seen) fits h = ground (arith, lookup-select k now at seen fits)

-- A signature whose entry is at most the retention time old keeps its entry.
pub accept_replay_key_keeps :
    (k signature : Text) (now at : ℕ) (seen : Seen)
    → now ≤ at + retention_millis
    → lookup k seen ≡ some at
    → lookup k (accept_replay_key signature now seen).1 ≡ some at
unfolding accept_replay_key
accept_replay_key_keeps k signature now at seen fits h =
    let kept = select (is_kept now) seen in
    ground (
      arith,
      lookup-select k now at seen fits h,
      lookup-insert signature k now kept,
      text_beq_iff signature k,
    )

-- A signature that is remembered and in time is refused.
pub accept_replay_key_refuses :
    (k : Text) (now at : ℕ) (seen : Seen)
    → now ≤ at + retention_millis
    → lookup k seen ≡ some at
    → (accept_replay_key k now seen).0 ≡ false
unfolding accept_replay_key
accept_replay_key_refuses k now at seen fits h = ground (arith, lookup-select k now at seen fits h)

-- What is accepted is remembered with its time.
pub accept_replay_key_remembers :
    (k : Text) (now : ℕ) (seen : Seen)
    → (accept_replay_key k now seen).0 ≡ true
    → lookup k (accept_replay_key k now seen).1 ≡ some now
unfolding accept_replay_key
accept_replay_key_remembers k now seen h =
    let kept = select (is_kept now) seen in
    ground (arith, lookup-insert k k now kept, text_beq_iff k k)

module _ (mac : Text → Text → Text) (k : Text) (at : ℕ) where
  verify_keeps :
      (c : Call) (seen : Seen)
      → c.now' ≤ at + retention_millis
      → lookup k seen ≡ some at
      → lookup k (verify_signed_body mac c seen).1 ≡ some at
  unfolding verify_signed_body
  verify_keeps c seen fits h =
      ground (arith, accept_replay_key_keeps k c.request.signature c.now' at seen fits h)

  pub after_calls_keeps :
      (cs : List Call) (seen : Seen)
      → All (λ c. c.now' ≤ at + retention_millis) cs
      → lookup k seen ≡ some at
      → lookup k (after_calls mac cs seen) ≡ some at
  unfolding after_calls
  after_calls_keeps [] seen fits h = h
  after_calls_keeps (c ∷ cs) seen fits h =
      after_calls_keeps cs (verify_signed_body mac c seen).1 fits.1 (verify_keeps c seen fits.0 h)
