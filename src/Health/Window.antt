-- ===== src/Health/Window.antt =====
-- A backend is disabled only after it was unhealthy throughout the set time, and enabled again only
-- after it was healthy throughout (dashboard/control_plane.go: healthActionLoop).
use ninj_os_proxie_edge_fabr.Prelude.{
  ℕ, ◌*◌, ◌^◌, ◌<◌, ap, ◌≤◌, ◌≡◌, ◌≢◌, refl, Bool, true, false, some, List, [], ◌∷◌, arith, Text,
  text_beq_iff, All, All-weaken, Bool-cases, inl, inr, ◌⊎◌, sym, subst, ◌∙◌,
}
use ninj_os_proxie_edge_fabr.Prelude.Int.{ℤ, pos, ◌-ℤ◌, ◌≤ℤ◌, ltb_ℤ, beq_ℤ}
use ninj_os_proxie_edge_fabr.Prelude.Int64.{wrap64, to_signed}
use ninj_os_proxie_edge_fabr.GoText.{codes}
use ninj_os_proxie_edge_fabr.GoMap.{lookup, value_or, value_or-insert}
use ninj_os_proxie_edge_fabr.Health.{
  HealthSettings, settings_of, millis_of, property_int, HealthState, no_state, since, start_at,
  Look, look_at, on_healthy, on_unhealthy,
}

module _ (server : Text) where
  -- Of the looks at the server after the time, all found it in this health.
  abbrev pub Throughout : Bool → ℤ → List Look → Type 0
  Throughout health from =
      All (λ p. p.server ≡ server → ltb_ℤ from (pos p.now) ≡ true → p.healthy ≡ health)

  -- The times that a look leaves as the start of a health.
  abbrev Continues : Bool → ℤ → ℤ → Look → Type 0
  Continues health old new l =
      (new ≡ pos 0)
      ⊎ (new ≡ start_at l.now old ⊎ new ≡ old) × (l.server ≡ server → l.healthy ≡ health)

  -- What the two times of the state say of the looks so far, the last of which was at `t`.
  record Tracks (t : ℕ) (past : List Look) (st : HealthState) : Type 0 where
    unhealthy :
        since server st.unhealthy_from ≢ pos 0
        → Throughout false (since server st.unhealthy_from) past
    healthy :
        since server st.healthy_from ≢ pos 0 → Throughout true (since server st.healthy_from) past
    clock : All (λ p. p.now ≤ t) past

  Throughout-now :
      (health : Bool) (t now : ℕ) (past : List Look)
      → t ≤ now
      → All (λ p. p.now ≤ t) past
      → Throughout health (pos now) past
  Throughout-now health t now past le c =
      All-weaken (λ p. p.now ≤ t)
        (λ p. p.server ≡ server → ltb_ℤ (pos now) (pos p.now) ≡ true → p.healthy ≡ health)
        (λ p h e k. absurd (ground arith)) past c

  Throughout-start :
      (health : Bool) (t now : ℕ) (from : ℤ) (past : List Look)
      → t ≤ now
      → All (λ p. p.now ≤ t) past
      → (from ≢ pos 0 → Throughout health from past)
      → Throughout health (start_at now from) past
  Throughout-start health t now from past le c h = elim (Bool-cases (beq_ℤ from (pos 0))) [
    | inl z ↦ rw z (Throughout-now health t now past le c)
    | inr n ↦ rw n (h (λ e. ground (arith, e)))
  ]

  Throughout-step :
      (health : Bool) (t : ℕ) (old new : ℤ) (past : List Look) (l : Look)
      → t ≤ l.now
      → All (λ p. p.now ≤ t) past
      → Continues health old new l
      → (old ≢ pos 0 → Throughout health old past)
      → new ≢ pos 0
      → Throughout health new (l ∷ past)
  Throughout-step health t old new past l le c (inl z) h n = absurd (n z)
  Throughout-step health t old new past l le c (inr (inl e, k)) h n = (
    λ at _. k at,
    subst (λ f. Throughout health f past) (sym e) (Throughout-start health t l.now old past le c h),
  )
  Throughout-step health t old new past l le c (inr (inr e, k)) h n =
      (λ at _. k at, subst (λ f. Throughout health f past) (sym e) (h (λ z. n (e ∙ z))))

  look-unhealthy_from :
      (l : Look) (st : HealthState)
      → Continues false
          (since server st.unhealthy_from)
          (since server (look_at l st).1.unhealthy_from)
          l
  unfolding look_at on_healthy on_unhealthy
  look-unhealthy_from l st = ground (
    arith,
    text_beq_iff l.server server,
    value_or-insert (pos 0) l.server server (pos 0) st.unhealthy_from,
    value_or-insert (pos 0) l.server server (start_at l.now (since l.server st.unhealthy_from))
        st.unhealthy_from,
  )

  look-healthy_from :
      (l : Look) (st : HealthState)
      → Continues true (since server st.healthy_from) (since server (look_at l st).1.healthy_from) l
  unfolding look_at on_healthy on_unhealthy
  look-healthy_from l st = ground (
    arith,
    text_beq_iff l.server server,
    value_or-insert (pos 0) l.server server (pos 0) st.healthy_from,
    value_or-insert (pos 0) l.server server (start_at l.now (since l.server st.healthy_from))
        st.healthy_from,
  )

  look-Tracks :
      (t : ℕ) (past : List Look) (st : HealthState) (l : Look)
      → t ≤ l.now
      → Tracks t past st
      → Tracks l.now (l ∷ past) (look_at l st).1
  look-Tracks t past st l le h = record {
    unhealthy =
        Throughout-step false t (since server st.unhealthy_from)
          (since server (look_at l st).1.unhealthy_from) past l le h.clock
          (look-unhealthy_from l st) h.unhealthy;
    healthy =
        Throughout-step true t (since server st.healthy_from)
          (since server (look_at l st).1.healthy_from) past l le h.clock (look-healthy_from l st)
          h.healthy;
    clock = (
      omega arith,
      All-weaken (λ p. p.now ≤ t) (λ p. p.now ≤ l.now) (λ p k. omega (arith, k, le)) past h.clock,
    );
  }

-- The looks of the loop, the newest first, the time of the newest, and the state after it. The clock
-- does not run backwards.
pub data Reached : ℕ → List Look → HealthState → Type 0 where
  reached_start : Reached 0 [] no_state
  reached_look :
      (t : ℕ) (past : List Look) (st : HealthState) (l : Look)
      → t ≤ l.now
      → Reached t past st
      → Reached l.now (l ∷ past) (look_at l st).1

Reached-Tracks :
    (server : Text) (t : ℕ) (past : List Look) (st : HealthState)
    → Reached t past st
    → Tracks server t past st
unfolding value_or lookup
Reached-Tracks server _ _ _ reached_start = record {
  unhealthy = λ n. absurd (n refl);
  healthy = λ n. absurd (n refl);
  clock = tt;
}
Reached-Tracks server _ _ _ (reached_look t past old l le h) =
    look-Tracks server t past old l le (Reached-Tracks server t past old h)

Throughout-later :
    (server : Text) (health : Bool) (from to : ℤ) (past : List Look)
    → from ≤ℤ to
    → Throughout server health from past
    → Throughout server health to past
Throughout-later server health from to past le h =
    All-weaken (λ p. p.server ≡ server → ltb_ℤ from (pos p.now) ≡ true → p.healthy ≡ health)
      (λ p. p.server ≡ server → ltb_ℤ to (pos p.now) ≡ true → p.healthy ≡ health)
      (λ p k at gt. k at (ground (arith, gt, le))) past h

-- A command comes when the time of the state lies as far back as is set.
false-since :
    (l : Look) (st : HealthState)
    → (look_at l st).0 ≡ some false
    → l.healthy ≡ false
      × start_at l.now (since l.server st.unhealthy_from)
        ≤ℤ (pos l.now -ℤ l.settings.degraded_after)
unfolding look_at on_healthy on_unhealthy ◌-ℤ◌
false-since l st h = ground (arith, h)

true-since :
    (l : Look) (st : HealthState)
    → (look_at l st).0 ≡ some true
    → l.healthy ≡ true
      × start_at l.now (since l.server st.healthy_from) ≤ℤ (pos l.now -ℤ l.settings.recovery_after)
unfolding look_at on_healthy on_unhealthy ◌-ℤ◌
true-since l st h = ground (arith, h)

Throughout-look :
    (server : Text) (health : Bool) (t : ℕ) (from to : ℤ) (past : List Look) (l : Look)
    → t ≤ l.now
    → All (λ p. p.now ≤ t) past
    → (from ≢ pos 0 → Throughout server health from past)
    → l.healthy ≡ health × start_at l.now from ≤ℤ to
    → Throughout server health to (l ∷ past)
Throughout-look server health t from to past l le c h (e, early) = (
  λ _ _. e,
  Throughout-later server health (start_at l.now from) to past early
      (Throughout-start server health t l.now from past le c h),
)

millis_of-small : (n : ℕ) → n * 1000 < 2 ^ 63 → millis_of (pos n) ≡ pos (n * 1000)
unfolding millis_of wrap64 to_signed
millis_of-small n h = ground arith

degraded-millis :
    (values : List (Text × Text)) (n : ℕ)
    → property_int values (codes "degraded_after_seconds") (pos 30) ≡ pos n
    → n * 1000 < 2 ^ 63
    → (settings_of values).degraded_after ≡ pos (n * 1000)
unfolding settings_of
degraded-millis values n e h = ap millis_of e ∙ millis_of-small n h

recovery-millis :
    (values : List (Text × Text)) (n : ℕ)
    → property_int values (codes "recovery_seconds") (pos 60) ≡ pos n
    → n * 1000 < 2 ^ 63
    → (settings_of values).recovery_after ≡ pos (n * 1000)
unfolding settings_of
recovery-millis values n e h = ap millis_of e ∙ millis_of-small n h

-- The loop disables a backend only if each look at it of the last `degraded_after_seconds`, this one
-- included, found it unhealthy: the clock is in milliseconds, so the window is a thousand times the
-- seconds n that the properties of the round set, where n is not negative and 1000 n is below 2^63.
-- The looks are those since the start, on a clock that does not run back.
pub disable-Throughout :
    (t : ℕ) (past : List Look) (st : HealthState) (l : Look)
    → Reached t past st
    → t ≤ l.now
    → (values : List (Text × Text)) → l.settings ≡ settings_of values
    → (n : ℕ) → property_int values (codes "degraded_after_seconds") (pos 30) ≡ pos n
    → n * 1000 < 2 ^ 63
    → (look_at l st).0 ≡ some false
    → Throughout l.server false (pos l.now -ℤ pos (n * 1000)) (l ∷ past)
disable-Throughout t past st l r le values s n e small h =
    let tracks = Reached-Tracks l.server t past st r in
    let set : l.settings.degraded_after ≡ pos (n * 1000) =
      ap (λ (x : HealthSettings). x.degraded_after) s ∙ degraded-millis values n e small in
    let at = false-since l st h in
    Throughout-look l.server false t (since l.server st.unhealthy_from)
      (pos l.now -ℤ pos (n * 1000)) past l le tracks.clock tracks.unhealthy
      (
        at.0,
        subst (λ d. start_at l.now (since l.server st.unhealthy_from) ≤ℤ (pos l.now -ℤ d)) set at.1,
      )

-- The loop enables a backend again only if each look at it of the last `recovery_seconds`, this one
-- included, found it healthy: the window is a thousand times the seconds n that the properties of the
-- round set, on a clock in milliseconds, where n is not negative and 1000 n is below 2^63. The looks
-- are those since the start, on a clock that does not run back.
pub enable-Throughout :
    (t : ℕ) (past : List Look) (st : HealthState) (l : Look)
    → Reached t past st
    → t ≤ l.now
    → (values : List (Text × Text)) → l.settings ≡ settings_of values
    → (n : ℕ) → property_int values (codes "recovery_seconds") (pos 60) ≡ pos n
    → n * 1000 < 2 ^ 63
    → (look_at l st).0 ≡ some true
    → Throughout l.server true (pos l.now -ℤ pos (n * 1000)) (l ∷ past)
enable-Throughout t past st l r le values s n e small h =
    let tracks = Reached-Tracks l.server t past st r in
    let set : l.settings.recovery_after ≡ pos (n * 1000) =
      ap (λ (x : HealthSettings). x.recovery_after) s ∙ recovery-millis values n e small in
    let at = true-since l st h in
    Throughout-look l.server true t (since l.server st.healthy_from) (pos l.now -ℤ pos (n * 1000))
      past l le tracks.clock tracks.healthy
      (
        at.0,
        subst (λ d. start_at l.now (since l.server st.healthy_from) ≤ℤ (pos l.now -ℤ d)) set at.1,
      )
