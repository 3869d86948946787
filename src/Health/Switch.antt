-- ===== src/Health/Switch.antt =====
-- The commands that the loop queues and its record of what it disabled (dashboard/control_plane.go:
-- healthActionLoop).
use ninj_os_proxie_edge_fabr.Prelude.{
  ◌≡◌, refl, ◌∙◌, Bool-cases, inl, inr, Bool, true, false, not, ◌&&◌, ◌||◌, Option, none, some,
  List, [], ◌∷◌, ◌++◌, arith, if◌then◌else◌, Text, ◌==◌, text_beq_iff,
}
use ninj_os_proxie_edge_fabr.GoText.{codes}
use ninj_os_proxie_edge_fabr.GoMap.{value_or-insert}
use ninj_os_proxie_edge_fabr.Health.{
  HealthState, is_disabled, Look, look_at, look_all, on_healthy, on_unhealthy, Round, looks_of,
  health_round, parse_simple_properties, property_bool, settings_of,
}

-- Rounds one after the other.
unfoldable pub health_rounds : List Round → HealthState → List (Text × Bool) × HealthState
health_rounds [] st = ([], st)
health_rounds (r ∷ rs) st =
    let (commands, st') = health_round r st in
    let (later, st'') = health_rounds rs st' in (commands ++ later, st'')

-- A switch that is off or not: `false` may turn it off, and `true` on.
unfoldable turn : Text → Bool → Text × Bool → Option Bool
turn server off (id, on) =
    if not (id == server)
    then some off
    else if on && off || not on && not off
    then some (not on)
    else none

unfoldable pub turn_all : Text → Bool → List (Text × Bool) → Option Bool
unfolding turn
turn_all server off [] = some off
turn_all server off (c ∷ cs) = elim (turn server off c) [
  | none ↦ none
  | some off' ↦ turn_all server off' cs
]

unfoldable turn_maybe : Text → Bool → Text → Option Bool → Option Bool
turn_maybe server off id none = some off
turn_maybe server off id (some on) = turn server off (id, on)

look_at-turn :
    (server : Text) (l : Look) (st : HealthState)
    → turn_maybe server (is_disabled server st) l.server (look_at l st).0
      ≡ some (is_disabled server (look_at l st).1)
unfolding look_at on_healthy on_unhealthy turn_maybe turn
look_at-turn server l st = ground (
  arith,
  text_beq_iff l.server server,
  value_or-insert false l.server server true st.disabled,
  value_or-insert false l.server server false st.disabled,
)

look_all-turn_all :
    (server : Text) (ls : List Look) (st : HealthState)
    → turn_all server (is_disabled server st) (look_all ls st).0
      ≡ some (is_disabled server (look_all ls st).1)
unfolding look_all turn_all turn_maybe
look_all-turn_all server [] st = refl
look_all-turn_all server (l ∷ ls) st =
    ground (arith, look_at-turn server l st, look_all-turn_all server ls (look_at l st).1)

turn_all-append :
    (server : Text) (off off' : Bool) (cs ds : List (Text × Bool))
    → turn_all server off cs ≡ some off'
    → turn_all server off (cs ++ ds) ≡ turn_all server off' ds
unfolding turn_all
turn_all-append server off off' [] ds h = ground (arith, h)
turn_all-append server off off' (c ∷ cs) ds h =
    ground
      (arith, h, turn_all-append server true off' cs ds, turn_all-append server false off' cs ds)

health_round-turn_all :
    (server : Text) (r : Round) (st : HealthState)
    → turn_all server (is_disabled server st) (health_round r st).0
      ≡ some (is_disabled server (health_round r st).1)
unfolding health_round turn_all
health_round-turn_all server r st =
    let values = parse_simple_properties r.properties in
    elim (Bool-cases (property_bool values (codes "enabled") true)) [
      | inl e ↦ rw e (look_all-turn_all server (looks_of (settings_of values) r r.backends) st)
      | inr e ↦ rw e refl
    ]

-- The commands for a backend in any rounds take turns: one that disables it comes only while it is
-- not disabled, and one that enables it only while it is; the state after them is what the last left.
pub health_rounds-turn_all :
    (server : Text) (rs : List Round) (st : HealthState)
    → turn_all server (is_disabled server st) (health_rounds rs st).0
      ≡ some (is_disabled server (health_rounds rs st).1)
unfolding health_rounds turn_all
health_rounds-turn_all server [] st = refl
health_rounds-turn_all server (r ∷ rs) st =
    turn_all-append server (is_disabled server st) (is_disabled server (health_round r st).1)
      (health_round r st).0 (health_rounds rs (health_round r st).1).0
      (health_round-turn_all server r st)
    ∙ health_rounds-turn_all server rs (health_round r st).1
