-- ===== src/Health.antt =====
-- Automatic actions on a backend's health (dashboard/control_plane.go: parseSimpleProperties,
-- propertyBool, propertyInt, healthActionState, healthActionLoop). The comparisons of the floating
-- point TPS and MSPT values with their limits are given with a companion's report. Alerts, events and
-- the state file are left out: the state goes from one round to the next.
pub mod Window
pub mod Switch
mod Examples
use ninj_os_proxie_edge_fabr.Prelude.{
  ℕ, ◌+◌, ◌*◌, Bool, true, false, not, ◌&&◌, ◌||◌, Option, none, some, List, [], ◌∷◌, ◌++◌,
  if◌then◌else◌, Text, ◌==◌,
}
use ninj_os_proxie_edge_fabr.Prelude.Int.{ℤ, pos, negsuc, ◌-ℤ◌, ltb_ℤ, leb_ℤ, beq_ℤ}
use ninj_os_proxie_edge_fabr.Prelude.Int64.{wrap64}
use ninj_os_proxie_edge_fabr.GoText.{codes, trim_space, cut, split}
use ninj_os_proxie_edge_fabr.GoText.Decimal.{parse_int}
use ninj_os_proxie_edge_fabr.GoMap.{lookup, insert, value_or}

add_property_parts : Text × Option Text → List (Text × Text) → List (Text × Text)
add_property_parts (key, none) values = values
add_property_parts (key, some value) values = insert (trim_space key) (trim_space value) values

-- One line of `parseSimpleProperties`.
unfoldable pub add_simple_property : Text → List (Text × Text) → List (Text × Text)
unfolding add_property_parts
add_simple_property raw values =
    let line = trim_space (cut b'#' raw).0 in
    if line == [] then values else add_property_parts (cut b'=' line) values

add_all : List Text → List (Text × Text) → List (Text × Text)
unfolding add_simple_property
add_all [] values = values
add_all (line ∷ lines) values = add_all lines (add_simple_property line values)

-- `parseSimpleProperties` on the file's bytes, which are empty if it cannot be read.
unfoldable pub parse_simple_properties : Text → List (Text × Text)
unfolding add_all
parse_simple_properties bytes = add_all (split b'\n' bytes) []

abbrev is_yes : Text → Bool
is_yes v = v == codes "true" || v == codes "1" || v == codes "yes" || v == codes "on"

-- `propertyBool`
unfoldable pub property_bool : List (Text × Text) → Text → Bool → Bool
property_bool values key fallback = elim (lookup key values) [ none ↦ fallback | some v ↦ is_yes v ]

-- `propertyInt`
unfoldable pub property_int : List (Text × Text) → Text → ℤ → ℤ
property_int values key fallback = elim (parse_int (value_or [] key values)) [
  | none ↦ fallback
  | some n ↦ n
]

-- `int64` seconds as milliseconds: the product wraps around.
unfoldable pub millis_of : ℤ → ℤ
millis_of (pos n) = wrap64 (pos (n * 1000))
millis_of (negsuc n) = wrap64 (negsuc (n * 1000 + 999))

-- The settings of one round. The times are in milliseconds.
pub record HealthSettings : Type 0 where
  pub require_companion : Bool
  pub stale_after : ℤ
  pub degraded_after : ℤ
  pub recovery_after : ℤ

-- The settings that the properties file gives, in whole seconds, and what stands in for a missing one.
unfoldable pub settings_of : List (Text × Text) → HealthSettings
unfolding property_bool property_int millis_of
settings_of values = record {
  require_companion = property_bool values (codes "require_companion") false;
  stale_after = millis_of (property_int values (codes "companion_stale_seconds") (pos 45));
  degraded_after = millis_of (property_int values (codes "degraded_after_seconds") (pos 30));
  recovery_after = millis_of (property_int values (codes "recovery_seconds") (pos 60));
}

pub record Report : Type 0 where
  pub timestamp : ℤ
  pub low_tps : Bool
  pub high_mspt : Bool

-- Is a backend healthy? The gateway's word, and what its companion reports.
unfoldable pub is_healthy : HealthSettings → ℕ → Bool → Option Report → Bool
is_healthy s now gateway_healthy none = gateway_healthy && not s.require_companion
is_healthy s now gateway_healthy (some r) =
    gateway_healthy
    && not (ltb_ℤ s.stale_after (pos now -ℤ r.timestamp))
    && not r.low_tps
    && not r.high_mspt

-- `healthActionState`
pub record HealthState : Type 0 where
  pub disabled : List (Text × Bool)
  pub unhealthy_from : List (Text × ℤ)
  pub healthy_from : List (Text × ℤ)

abbrev pub no_state : HealthState
no_state = record { disabled = []; unhealthy_from = []; healthy_from = [] }

abbrev pub since : Text → List (Text × ℤ) → ℤ
since = value_or (pos 0)

abbrev pub is_disabled : Text → HealthState → Bool
is_disabled server st = value_or false server st.disabled

-- A time that stands for none where it is 0.
abbrev pub start_at : ℕ → ℤ → ℤ
start_at now from = if beq_ℤ from (pos 0) then pos now else from

-- The branch for a backend that is not healthy; `some false` is the command that disables it.
unfoldable pub on_unhealthy : HealthSettings → ℕ → Text → HealthState → Option Bool × HealthState
on_unhealthy s now server st =
    let from = start_at now (since server st.unhealthy_from) in
    let st' = record st {
      healthy_from = insert server (pos 0) st.healthy_from;
      unhealthy_from = insert server from st.unhealthy_from;
    } in
    if not (is_disabled server st) && leb_ℤ s.degraded_after (pos now -ℤ from)
    then (some false, record st' { disabled = insert server true st.disabled })
    else (none, st')

-- The branch for a healthy one; `some true` is the command that enables it.
unfoldable pub on_healthy : HealthSettings → ℕ → Text → HealthState → Option Bool × HealthState
on_healthy s now server st =
    let st' = record st { unhealthy_from = insert server (pos 0) st.unhealthy_from } in
    if not (is_disabled server st)
    then (none, st')
    else let from = start_at now (since server st.healthy_from) in
      if leb_ℤ s.recovery_after (pos now -ℤ from)
      then (
        some true,
        record st' {
          disabled = insert server false st.disabled;
          healthy_from = insert server (pos 0) st.healthy_from;
        },
      )
      else (none, record st' { healthy_from = insert server from st.healthy_from })

-- One backend in one round.
pub record Look : Type 0 where
  pub settings : HealthSettings
  pub now : ℕ
  pub server : Text
  pub healthy : Bool

unfoldable pub look_at : Look → HealthState → Option Bool × HealthState
unfolding on_unhealthy on_healthy
look_at l st =
    if l.healthy
    then on_healthy l.settings l.now l.server st
    else on_unhealthy l.settings l.now l.server st

-- What a round finds: the bytes of health-actions.properties, the clock, what the gateway says of each
-- backend, and the companions' reports.
pub record Round : Type 0 where
  pub properties : Text
  pub now : ℕ
  pub backends : List (Text × Bool)
  pub companions : List (Text × Report)

unfoldable pub looks_of : HealthSettings → Round → List (Text × Bool) → List Look
unfolding is_healthy
looks_of settings r [] = []
looks_of settings r ((server, gateway_healthy) ∷ backends) =
    record {
      settings = settings;
      now = r.now;
      server = server;
      healthy = is_healthy settings r.now gateway_healthy (lookup server r.companions);
    }
    ∷ looks_of settings r backends

unfoldable pub look_all : List Look → HealthState → List (Text × Bool) × HealthState
look_all [] st = ([], st)
look_all (l ∷ ls) st =
    let (command, st') = look_at l st in
    let (commands, st'') = look_all ls st' in
    (elim command [ none ↦ commands | some b ↦ (l.server, b) ∷ commands ], st'')

-- One round of `healthActionLoop`: the commands it queues, and the state.
unfoldable pub health_round : Round → HealthState → List (Text × Bool) × HealthState
unfolding parse_simple_properties property_bool settings_of looks_of look_all
health_round r st =
    let values = parse_simple_properties r.properties in
    if not (property_bool values (codes "enabled") true)
    then ([], st)
    else look_all (looks_of (settings_of values) r r.backends) st
