-- ===== src/Replay/Signing.antt =====
-- What an accepted request proves of its sender and its time, and that it is accepted only once.
use ninj_os_proxie_edge_fabr.Prelude.{
  ℕ, ◌+◌, ◌^◌, ◌≤◌, ◌<◌, ◌≡◌, ◌≢◌, ◌⊎◌, true, false, some, List, [], ◌∷◌, arith, Text, text_beq_iff,
  Option-cases, All, inl, inr, ◌↔◌,
}
use ninj_os_proxie_edge_fabr.Prelude.Int.{ℤ, pos, negsuc, pos_part, neg_part}
use ninj_os_proxie_edge_fabr.GoText.Decimal.{parse_int, InInt64}
use ninj_os_proxie_edge_fabr.GoMap.{lookup}
use ninj_os_proxie_edge_fabr.Replay.{
  Seen, accept_replay_key, Call, verify_signed_body, after_calls, authorized, unauthorized,
  is_stale, normalize_server_id, secret_of, signed_text, retention_millis,
}
use ninj_os_proxie_edge_fabr.Replay.Window.{
  after_calls_keeps, accept_replay_key_refuses, accept_replay_key_remembers,
}

-- The two times are at most a minute apart.
abbrev pub IsClose : ℕ → ℤ → Type 0
IsClose now millis =
    (pos_part millis ≤ now + 60000 + neg_part millis)
    × (now + neg_part millis ≤ pos_part millis + 60000)

-- The difference of the two times is 2^63, the one value that `abs64` leaves negative.
abbrev pub IsHalfTurn : ℕ → ℤ → Type 0
IsHalfTurn now millis = now + neg_part millis ≡ pos_part millis + 2 ^ 63

-- For a clock below 2^62 and a stamp in the range of int64, the test for freshness passes
-- exactly when the two are at most a minute apart, or differ by 2^63.
pub is_stale_iff :
    (now : ℕ) (millis : ℤ)
    → now < 2 ^ 62
    → InInt64 millis
    → (is_stale now millis ≡ false) ↔ (IsClose now millis ⊎ IsHalfTurn now millis)
unfolding is_stale
is_stale_iff now (pos n) h k = (λ e. ground arith, λ d. ground arith)
is_stale_iff now (negsuc n) h k = (λ e. ground arith, λ d. ground arith)

-- `parse_int` only returns integers in the range of int64.
pub parse_int-InInt64 : (s : Text) {z : ℤ} → parse_int s ≡ some z → InInt64 z
unfolding parse_int
parse_int-InInt64 [] h = cc
parse_int-InInt64 (c ∷ s) {z = pos n} h = ground arith
parse_int-InInt64 (c ∷ s) {z = negsuc n} h = ground arith

module _ (mac : Text → Text → Text) where
  abbrev pub IsAuthorized : Call → Seen → Type 0
  IsAuthorized c seen = (verify_signed_body mac c seen).0 ≡ authorized

  -- What the check computes of a request that it lets pass.
  pub record Checked (c : Call) (seen : Seen) : Type 0 where
    pub millis : ℤ
    pub stamped : parse_int c.request.timestamp ≡ some millis
    pub fresh : is_stale c.now millis ≡ false
    pub named : normalize_server_id c.request.server ≢ []
    pub signed : c.request.signature ≡ mac (secret_of c.secrets c.request) (signed_text c.request)
    pub first : (accept_replay_key c.request.signature c.now' seen).0 ≡ true

  Checked-intro :
      (c : Call) (seen : Seen) (millis : ℤ)
      → parse_int c.request.timestamp ≡ some millis
      → IsAuthorized c seen
      → Checked c seen
  unfolding verify_signed_body
  Checked-intro c seen millis e h = record {
    millis = millis;
    stamped = e;
    fresh = ground arith;
    named = ground (arith, text_beq_iff (normalize_server_id c.request.server) []);
    signed = ground (
      arith,
      text_beq_iff c.request.signature
          (mac (secret_of c.secrets c.request) (signed_text c.request)),
    );
    first = ground arith;
  }

  pub IsAuthorized-Checked : (c : Call) (seen : Seen) → IsAuthorized c seen → Checked c seen
  unfolding verify_signed_body
  IsAuthorized-Checked c seen h = elim (Option-cases (parse_int c.request.timestamp)) [
    | inl e ↦ ground arith
    | inr (millis, e) ↦ Checked-intro c seen millis e h
  ]

  pub Checked-IsAuthorized : (c : Call) (seen : Seen) → Checked c seen → IsAuthorized c seen
  unfolding verify_signed_body
  Checked-IsAuthorized c seen p = ground (
    arith,
    p.stamped,
    p.fresh,
    p.named,
    p.signed,
    p.first,
    text_beq_iff (normalize_server_id c.request.server) [],
    text_beq_iff c.request.signature (mac (secret_of c.secrets c.request) (signed_text c.request)),
  )

  -- A refused request leaves the guard as it was, unless the guard itself refused it.
  pub unauthorized_unchanged :
      (c : Call) (seen : Seen)
      → (verify_signed_body mac c seen).0 ≡ unauthorized
      → (verify_signed_body mac c seen).1 ≡ seen
  unfolding verify_signed_body
  unauthorized_unchanged c seen h = ground arith

  remembers :
      (c : Call) (seen : Seen)
      → IsAuthorized c seen
      → lookup c.request.signature (verify_signed_body mac c seen).1 ≡ some c.now'
  unfolding verify_signed_body
  remembers c seen h = ground (arith, accept_replay_key_remembers c.request.signature c.now' seen)

  -- Two fresh uses of one stamp are at most two minutes apart.
  uses_close :
      (now later : ℕ) (millis : ℤ)
      → now ≤ later
      → later < 2 ^ 62
      → InInt64 millis
      → is_stale now millis ≡ false
      → is_stale later millis ≡ false
      → later ≤ now + retention_millis
  uses_close now later millis le top r h h' =
      apart millis r ((is_stale_iff now millis (omega arith) r).0 h)
        ((is_stale_iff later millis top r).0 h')
    where
      apart :
          (millis : ℤ)
          → InInt64 millis
          → IsClose now millis ⊎ IsHalfTurn now millis
          → IsClose later millis ⊎ IsHalfTurn later millis
          → later ≤ now + retention_millis
      apart (pos n) r d d' = omega arith
      apart (negsuc n) r d d' = omega arith

  -- A request that passed once is never let pass again, whatever calls come between, if the clock
  -- does not run backwards and the later check spends no more time between its two readings of the
  -- clock than the earlier one did. The later request has the stamp and the signature of the first.
  pub no_replay :
      (c c' : Call) (cs : List Call) (seen : Seen)
      → IsAuthorized c seen
      → c'.request.timestamp ≡ c.request.timestamp
      → c'.request.signature ≡ c.request.signature
      → c.now ≤ c'.now
      → c'.now < 2 ^ 62
      → All (λ b. b.now' ≤ c'.now') cs
      → c'.now' + c.now ≤ c'.now + c.now'
      → (verify_signed_body mac c' (after_calls mac cs (verify_signed_body mac c seen).1)).0
        ≢ authorized
  no_replay c c' cs seen h stamp sig le top before quick again =
      let p = IsAuthorized-Checked c seen h in
      let p' = IsAuthorized-Checked c' _ again in
      let range = parse_int-InInt64 c.request.timestamp p.stamped in
      let same : some p'.millis ≡ some p.millis = cc (p.stamped, p'.stamped, stamp) in
      let fresh' : is_stale c'.now p.millis ≡ false = cc (same, p'.fresh) in
      let near = uses_close c.now c'.now p.millis le top range p.fresh fresh' in
      let kept =
        after_calls_keeps mac c.request.signature c.now' cs _ (weaken cs before (omega arith))
          (remembers c seen h) in
      cc (
        sig,
        p'.first,
        accept_replay_key_refuses c.request.signature c'.now' c.now' _ (omega arith) kept,
      )
    where
      weaken :
          {a b : ℕ} (cs : List Call) → All (λ d. d.now' ≤ a) cs → a ≤ b → All (λ d. d.now' ≤ b) cs
      weaken [] h le = tt
      weaken (d ∷ cs) h le = (omega arith, weaken cs h.1 le)
