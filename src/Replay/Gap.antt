-- ===== src/Replay/Gap.antt =====
-- The retention time of the guard is exactly twice the window of the stamp, so a check that waits
-- between its two readings of the clock can outlive the guard's memory.
use ninj_os_proxie_edge_fabr.Prelude.{
  ℕ, ◌+◌, ◌^◌, ◌<◌, ◌≡◌, true, none, some, [], ◌∷◌, arith, Text, text_beq_iff, select, inl,
}
use ninj_os_proxie_edge_fabr.Prelude.Int.{pos}
use ninj_os_proxie_edge_fabr.GoText.Decimal.{parse_int}
use ninj_os_proxie_edge_fabr.GoMap.{lookup, insert}
use ninj_os_proxie_edge_fabr.Replay.{
  Seen, Call, accept_replay_key, is_kept, retention_millis, window_millis, verify_signed_body,
}
use ninj_os_proxie_edge_fabr.Replay.Signing.{
  IsAuthorized, IsAuthorized-Checked, Checked-IsAuthorized, is_stale_iff,
}

module _ (k : Text) (now : ℕ) where
  select-none : (seen : Seen) → lookup k seen ≡ none → lookup k (select (is_kept now) seen) ≡ none
  unfolding lookup select
  select-none [] h = h
  select-none ((j, t) ∷ seen) h = ground (arith, select-none seen)

  -- Once its time is past, the entry of a signature that was accepted is gone.
  forgets :
      (at : ℕ) (seen : Seen)
      → at + retention_millis < now
      → lookup k seen ≡ none
      → lookup k (select (is_kept now) (insert k at seen)) ≡ none
  unfolding lookup select insert
  forgets at [] late h = ground arith
  forgets at ((j, t) ∷ seen) late h = ground (arith, forgets at seen late, text_beq_iff j k)

accepts_again :
    (k : Text) (at now : ℕ) (seen : Seen)
    → at + retention_millis < now
    → (accept_replay_key k at seen).0 ≡ true
    → (accept_replay_key k now (accept_replay_key k at seen).1).0 ≡ true
unfolding accept_replay_key
accepts_again k at now seen late h =
    ground (arith, forgets k now at (select (is_kept at) seen) late)

memory_after :
    (mac : Text → Text → Text) (c : Call) (seen : Seen)
    → IsAuthorized mac c seen
    → (verify_signed_body mac c seen).1 ≡ (accept_replay_key c.request.signature c.now' seen).1
unfolding verify_signed_body
memory_after mac c seen h = ground arith

-- The same request, two minutes later to the millisecond, with a wait before the second reading.
abbrev pub resend : Call → ℕ → Call
resend c wait = record c { now = c.now + retention_millis; now' = c.now + retention_millis + wait }

-- A request whose stamp is a minute ahead of the check that lets it pass is let pass once more two
-- minutes later, if that second check waits longer between its two readings of the clock than the
-- first did, and its clock is below 2^62.
pub replay_in_gap :
    (mac : Text → Text → Text) (c : Call) (seen : Seen) (wait : ℕ)
    → IsAuthorized mac c seen
    → parse_int c.request.timestamp ≡ some (pos (c.now + window_millis))
    → c.now' < c.now + wait
    → c.now + retention_millis < 2 ^ 62
    → IsAuthorized mac (resend c wait) (verify_signed_body mac c seen).1
replay_in_gap mac c seen wait h stamp longer top =
    let p = IsAuthorized-Checked mac c seen h in
    Checked-IsAuthorized mac (resend c wait) _ (record {
      millis = pos (c.now + window_millis);
      stamped = stamp;
      fresh =
          (is_stale_iff (c.now + retention_millis) (pos (c.now + window_millis)) top
              (omega arith)).1
            (inl (omega arith));
      named = p.named;
      signed = p.signed;
      first = rw (memory_after mac c seen h) (
          accepts_again c.request.signature c.now' (c.now + retention_millis + wait) seen
            (omega arith) p.first);
    })
