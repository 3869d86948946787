-- ===== src/Health/Examples.antt =====
-- Tests of the health actions, and their theorems at concrete rounds.
use ninj_os_proxie_edge_fabr.GoText.Decimal.{parse_int}
use ninj_os_proxie_edge_fabr.Prelude.{
  select, select, select, select, ℕ, Text, ◌≡◌, refl, Bool, true, false, some, List, [], ◌∷◌,
  text_beq, arith, ◌*◌,
}
use ninj_os_proxie_edge_fabr.Prelude.Int.{pos, ◌-ℤ◌}
use ninj_os_proxie_edge_fabr.Prelude.Int64.{wrap64, to_signed}
use ninj_os_proxie_edge_fabr.GoText.{is_space, cut, trim_left, trim_right, trim_space, split, codes}
use ninj_os_proxie_edge_fabr.GoMap.{lookup, insert, value_or}
use ninj_os_proxie_edge_fabr.Health.{
  settings_of, millis_of, HealthState, no_state, is_disabled, Look, look_at, Round, health_round,
  is_healthy, parse_simple_properties, property_bool, property_int,
}
use ninj_os_proxie_edge_fabr.Health.Window.{
  reached_start, reached_look, Throughout, disable-Throughout, enable-Throughout,
}
use ninj_os_proxie_edge_fabr.Health.Switch.{turn_all, health_rounds, health_rounds-turn_all}

abbrev file : Text
file = codes "require_companion=1\ndegraded_after_seconds = 20\nrecovery_seconds=10 # s\n"

abbrev values : List (Text × Text)
values =
    (codes "require_companion", codes "1")
    ∷ (codes "degraded_after_seconds", codes "20")
    ∷ (codes "recovery_seconds", codes "10")
    ∷ []

read_file : parse_simple_properties file ≡ values
unfolding parse_simple_properties split text_beq trim_space trim_right trim_left cut is_space insert
    select
read_file = refl

set_times :
    ((settings_of values).stale_after ≡ pos 45000)
    × ((settings_of values).degraded_after ≡ pos 20000)
unfolding settings_of property_int lookup text_beq parse_int value_or millis_of wrap64 to_signed
set_times = (refl, refl)

abbrev lobby : Text
lobby = codes "lobby"

abbrev seen : ℕ → Bool → Look
seen now healthy = record {
  settings = settings_of values;
  now = now;
  server = lobby;
  healthy = healthy;
}

abbrev down_once : HealthState
down_once = (look_at (seen 100000 false) no_state).1

abbrev down : HealthState
down = (look_at (seen 125000 false) down_once).1

abbrev up_once : HealthState
up_once = (look_at (seen 130000 true) down).1

disables : (look_at (seen 125000 false) down_once).0 ≡ some false
unfolding look_at settings_of property_int lookup parse_int millis_of wrap64 to_signed value_or ◌-ℤ◌
    insert select text_beq
disables = refl

enables : (look_at (seen 140000 true) up_once).0 ≡ some true
unfolding look_at settings_of property_int lookup parse_int millis_of wrap64 to_signed value_or ◌-ℤ◌
    insert select text_beq
enables = refl

degraded_seconds : property_int values (codes "degraded_after_seconds") (pos 30) ≡ pos 20
unfolding property_int lookup text_beq parse_int value_or
degraded_seconds = refl

recovery_seconds : property_int values (codes "recovery_seconds") (pos 60) ≡ pos 10
unfolding property_int lookup text_beq parse_int value_or
recovery_seconds = refl

disable-Throughout_example :
    Throughout lobby false
      (pos 125000 -ℤ pos (20 * 1000))
      (seen 125000 false ∷ seen 100000 false ∷ [])
disable-Throughout_example =
    disable-Throughout 100000 (seen 100000 false ∷ []) down_once (seen 125000 false)
      (reached_look 0 [] no_state (seen 100000 false) (omega arith) reached_start) (omega arith)
      values refl 20 degraded_seconds (omega arith) disables

enable-Throughout_example :
    Throughout lobby true
      (pos 140000 -ℤ pos (10 * 1000))
      (seen 140000 true ∷ seen 130000 true ∷ seen 125000 false ∷ seen 100000 false ∷ [])
enable-Throughout_example =
    enable-Throughout 130000 (seen 130000 true ∷ seen 125000 false ∷ seen 100000 false ∷ []) up_once
      (seen 140000 true)
      (reached_look 125000 (seen 125000 false ∷ seen 100000 false ∷ []) down (seen 130000 true)
        (omega arith)
        (reached_look 100000 (seen 100000 false ∷ []) down_once (seen 125000 false) (omega arith)
          (reached_look 0 [] no_state (seen 100000 false) (omega arith) reached_start)))
      (omega arith) values refl 10 recovery_seconds (omega arith) enables

abbrev round : ℕ → Bool → Round
round now up = record {
  properties = file;
  now = now;
  backends = (lobby, up) ∷ [];
  companions = (lobby, record { timestamp = pos now; low_tps = false; high_mspt = false }) ∷ [];
}

abbrev rounds : List Round
rounds =
    round 100000 false
    ∷ round 125000 false
    ∷ round 126000 false
    ∷ round 130000 true
    ∷ round 140000 true
    ∷ []

health_rounds-turn_all_example :
    turn_all lobby false (health_rounds rounds no_state).0
    ≡ some (is_disabled lobby (health_rounds rounds no_state).1)
unfolding value_or
health_rounds-turn_all_example = health_rounds-turn_all lobby rounds no_state

commands : (health_rounds rounds no_state).0 ≡ (lobby, false) ∷ (lobby, true) ∷ []
unfolding health_rounds health_round parse_simple_properties property_bool property_int settings_of
    parse_int millis_of wrap64 to_signed split trim_space trim_right trim_left cut is_space look_at
    is_healthy lookup text_beq value_or ◌-ℤ◌ insert select
commands = refl

properties :
    (property_bool
        (parse_simple_properties (codes "a = YES # b\nb=on\n#c=1\nb = off"))
        (codes "b")
        true
      ≡ false)
    × (property_int (parse_simple_properties (codes "a = 12 # b")) (codes "a") (pos 1) ≡ pos 12)
unfolding property_bool lookup parse_simple_properties split text_beq trim_space trim_right
    trim_left cut is_space insert select property_int parse_int value_or
properties = (refl, refl)
