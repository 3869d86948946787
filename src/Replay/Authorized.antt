-- ===== src/Replay/Authorized.antt =====
-- Exactly which requests `verifySignedBody` lets pass (dashboard/main.go), in the terms of the clock, the
-- secrets file and the remembered signatures.
use ninj_os_proxie_edge_fabr.Prelude.{
  ℕ, ◌+◌, ◌^◌, ◌<◌, ◌≡◌, ◌≢◌, ◌⊎◌, ◌↔◌, refl, true, none, some, [], ◌∷◌, ◌++◌, arith, Text,
  text_beq_iff, ◌==◌, select, All, Bool-cases, inl, inr,
}
use ninj_os_proxie_edge_fabr.Prelude.Int.{ℤ}
use ninj_os_proxie_edge_fabr.GoText.{codes, or_else}
use ninj_os_proxie_edge_fabr.GoText.Decimal.{parse_int}
use ninj_os_proxie_edge_fabr.GoMap.{lookup}
use ninj_os_proxie_edge_fabr.Replay.{
  Seen, is_kept, accept_replay_key, Call, secret_values, text_at, companion_secret, secret_of,
  signed_text, normalize_server_id,
}
use ninj_os_proxie_edge_fabr.Replay.Signing.{
  IsClose, IsHalfTurn, is_stale_iff, parse_int-InInt64, IsAuthorized, Checked, IsAuthorized-Checked,
  Checked-IsAuthorized,
}

-- Each entry of the signature was remembered more than two minutes before.
abbrev pub IsForgotten : Text → ℕ → Seen → Type 0
IsForgotten signature now = All (λ e. e.0 ≡ signature → e.1 + 120000 < now)

-- The secret: the server's own entry of the file, else the `default` entry, else the fallback.
abbrev pub IsSecret : Text → Text → Text → Text → Type 0
IsSecret own general fallback secret =
    ((own ≢ []) × (secret ≡ own))
    ⊎ ((own ≡ []) × (general ≢ []) × (secret ≡ general))
    ⊎ ((own ≡ []) × (general ≡ []) × (secret ≡ fallback))

-- The name under which the secret is looked up, and the two entries.
abbrev pub own_entry : Call → Text
own_entry c =
    text_at (normalize_server_id (normalize_server_id c.request.server))
      (secret_values c.secrets.file)

abbrev pub general_entry : Call → Text
general_entry c = text_at (codes "default") (secret_values c.secrets.file)

-- A request that may pass.
pub record Passed (mac : Text → Text → Text) (c : Call) (seen : Seen) : Type 0 where
  pub millis : ℤ
  pub stamped : parse_int c.request.timestamp ≡ some millis
  pub fresh : IsClose c.now millis ⊎ IsHalfTurn c.now millis
  pub named : normalize_server_id c.request.server ≢ []
  pub secret : Text
  pub chosen : IsSecret (own_entry c) (general_entry c) c.secrets.fallback secret
  pub signed : c.request.signature ≡ mac secret (c.request.timestamp ++ (b'\n' ∷ c.request.body))
  pub first : IsForgotten c.request.signature c.now' seen

absent-IsForgotten :
    (k : Text) (now : ℕ) (seen : Seen)
    → lookup k (select (is_kept now) seen) ≡ none
    → IsForgotten k now seen
unfolding lookup select
absent-IsForgotten k now [] h = tt
absent-IsForgotten k now ((j, t) ∷ seen) h = elim (Bool-cases (is_kept now (j, t))) [
  | inl kept ↦
      let h' = rw kept at h in
      (
        λ e. absurd (ground (arith, e, h', text_beq_iff j k)),
        absent-IsForgotten k now seen (ground (arith, h')),
      )
  | inr dropped ↦ (λ e. ground (arith, dropped), absent-IsForgotten k now seen (rw dropped at h))
]

IsForgotten-absent :
    (k : Text) (now : ℕ) (seen : Seen)
    → IsForgotten k now seen
    → lookup k (select (is_kept now) seen) ≡ none
unfolding lookup select
IsForgotten-absent k now [] h = refl
IsForgotten-absent k now ((j, t) ∷ seen) h = elim (Bool-cases (is_kept now (j, t))) [
  | inl kept ↦ elim (Bool-cases (j == k)) [
    | inl same ↦
        let late : t + 120000 < now = h.0 ((text_beq_iff j k).0 same) in
        absurd (ground (arith, late, kept))
    | inr other ↦ rw (kept, other) (IsForgotten-absent k now seen h.1)
  ]
  | inr dropped ↦ rw dropped (IsForgotten-absent k now seen h.1)
]

accepts-IsForgotten :
    (k : Text) (now : ℕ) (seen : Seen)
    → ((accept_replay_key k now seen).0 ≡ true) ↔ IsForgotten k now seen
unfolding accept_replay_key
accepts-IsForgotten k now seen = (
  λ h. absent-IsForgotten k now seen (ground (arith, h)),
  λ f. ground (arith, IsForgotten-absent k now seen f),
)

or_else-IsSecret :
    (own general fallback : Text)
    → IsSecret own general fallback (or_else own (or_else general fallback))
unfolding or_else
or_else-IsSecret own general fallback = ground (arith, text_beq_iff own [], text_beq_iff general [])

IsSecret-unique :
    (own general fallback s s' : Text)
    → IsSecret own general fallback s
    → IsSecret own general fallback s'
    → s ≡ s'
IsSecret-unique own general fallback s s' h k = ground (arith, h, k)

secret_of-IsSecret :
    (c : Call)
    → IsSecret (own_entry c) (general_entry c) c.secrets.fallback (secret_of c.secrets c.request)
unfolding secret_of companion_secret
secret_of-IsSecret c = or_else-IsSecret (own_entry c) (general_entry c) c.secrets.fallback

module _ (mac : Text → Text → Text) (c : Call) (seen : Seen) where
  Checked-Passed : c.now < 2 ^ 62 → Checked mac c seen → Passed mac c seen
  unfolding signed_text
  Checked-Passed low p = record {
    millis = p.millis;
    stamped = p.stamped;
    fresh =
        (is_stale_iff c.now p.millis low (parse_int-InInt64 c.request.timestamp p.stamped)).0
          p.fresh;
    named = p.named;
    secret = secret_of c.secrets c.request;
    chosen = secret_of-IsSecret c;
    signed = p.signed;
    first = (accepts-IsForgotten c.request.signature c.now' seen).0 p.first;
  }

  Passed-Checked : c.now < 2 ^ 62 → Passed mac c seen → Checked mac c seen
  unfolding signed_text
  Passed-Checked low p = record {
    millis = p.millis;
    stamped = p.stamped;
    fresh =
        (is_stale_iff c.now p.millis low (parse_int-InInt64 c.request.timestamp p.stamped)).1
          p.fresh;
    named = p.named;
    signed =
        rw
          (IsSecret-unique (own_entry c) (general_entry c) c.secrets.fallback
            (secret_of c.secrets c.request) p.secret (secret_of-IsSecret c) p.chosen)
          p.signed;
    first = (accepts-IsForgotten c.request.signature c.now' seen).1 p.first;
  }

  -- With a clock below 2^62, the check lets a request pass exactly when its stamp parses and is within
  -- a minute of the clock (or at the distance 2^63, where the difference overflows), it names a server,
  -- its signature is the keyed hash of the stamp, a line break and the body under the server's secret
  -- (its own in the file, else the default, else the fallback), and every entry of that signature
  -- that the guard remembers is more than 120,000 ms older than its own reading of the clock.
  pub IsAuthorized-iff : c.now < 2 ^ 62 → IsAuthorized mac c seen ↔ Passed mac c seen
  IsAuthorized-iff low = (
    λ h. Checked-Passed low (IsAuthorized-Checked mac c seen h),
    λ p. Checked-IsAuthorized mac c seen (Passed-Checked low p),
  )
