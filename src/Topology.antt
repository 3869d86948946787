-- ===== src/Topology.antt =====
-- The backend registry: its data, and the check that every change passes
-- (dashboard/backends.go: backendDefinition, topologyConfig, validateTopology, staticPublicPorts).
-- Error values name the messages of the source; the texts that they quote are left out.
pub mod Valid
pub mod Decide
pub mod Registry
pub mod Preserve
mod Examples
use ninj_os_proxie_edge_fabr.Prelude.{
  ℕ, ◌≡◌, refl, Bool, true, false, not, ◌&&◌, ◌||◌, Option, none, some, List, [], ◌∷◌, ltb, leb,
  nat_beq, if◌then◌else◌, Text, ◌==◌, any, length,
}
use ninj_os_proxie_edge_fabr.Prelude.Int.{ℤ, pos, ltb_ℤ, beq_ℤ}
use ninj_os_proxie_edge_fabr.GoText.{codes, trim_space, contains_byte, or_else}
use ninj_os_proxie_edge_fabr.GoMap.{lookup, insert}

pub record Backend : Type 0 where
  pub id : Text
  pub display_name : Text
  pub host : Text
  pub backend_port : ℤ
  pub public_port : ℤ
  pub fallback : Bool
  pub fallback_backend : Text
  pub profile : Text
  pub enabled : Bool
  pub connection_mode : Text
  pub backend_adapter : Text
  pub backend_online_mode : Bool
  pub require_proxy_identity : Bool
  pub capacity : ℤ
  pub companion_secret_env : Text

pub record Topology : Type 0 where
  pub version : ℤ
  pub primary_backend : Text
  pub routing_mode : Text
  pub backends : List Backend

pub data TopologyError : Type 0 where
  bad_version bad_routing_mode no_backend bad_id duplicate_id no_display_name bad_display_name :
      TopologyError
  bad_host bad_backend_port bad_public_port duplicate_public_port bad_profile : TopologyError
  bad_connection_mode bad_adapter bad_capacity full_proxy_online full_proxy_no_port : TopologyError
  identity_needs_full_proxy self_fallback bad_secret_env no_primary : TopologyError

abbrev is_lower : ℕ → Bool
is_lower c = leb b'a' c && leb c b'z'

abbrev pub is_upper : ℕ → Bool
is_upper c = leb b'A' c && leb c b'Z'

abbrev is_digit : ℕ → Bool
is_digit c = leb b'0' c && leb c b'9'

abbrev pub is_id_byte : ℕ → Bool
is_id_byte c = is_lower c || is_digit c || nat_beq c b'_' || nat_beq c b'-'

abbrev pub is_env_byte : ℕ → Bool
is_env_byte c = is_upper c || is_digit c || nat_beq c b'_'

unfoldable pub every : (ℕ → Bool) → Text → Bool
every p [] = true
every p (c ∷ s) = p c && every p s

-- `backendIDPattern`, ^[a-z][a-z0-9_-]{1,31}$
unfoldable pub is_backend_id : Text → Bool
is_backend_id [] = false
is_backend_id (c ∷ s) = is_lower c && every is_id_byte s && leb 1 (length s) && leb (length s) 31

-- ^[A-Z][A-Z0-9_]{2,63}$
unfoldable pub is_env_name : Text → Bool
is_env_name [] = false
is_env_name (c ∷ s) = is_upper c && every is_env_byte s && leb 2 (length s) && leb (length s) 63

-- `strings.ContainsAny(s, "|;\r\n")`
unfoldable pub has_reserved : Text → Bool
has_reserved s =
    contains_byte b'|' s || contains_byte b';' s || contains_byte b'\r' s || contains_byte b'\n' s

abbrev pub full_proxy : Text
full_proxy = codes "full_proxy"

abbrev pub transparent : Text
transparent = codes "transparent"

unfoldable pub is_routing_mode : Text → Bool
is_routing_mode m =
    m == codes "primary"
    || m == codes "failover"
    || m == codes "round_robin"
    || m == codes "least_sessions"

unfoldable pub is_adapter : Text → Bool
is_adapter a =
    a == codes "endstone"
    || a == codes "vanilla_bridge"
    || a == codes "vanilla_agent"
    || a == codes "proxy_only"

infixr 20 ◌&>◌
-- The first error of a row of checks.
abbrev pub ◌&>◌ : Option TopologyError → Option TopologyError → Option TopologyError
none &> e = e
some x &> e = some x

abbrev pub when : Bool → TopologyError → Option TopologyError
when true e = some e
when false e = none

-- The checks of one backend that stand before the look at its public port's owner.
unfoldable pub check_fields : Backend → Option TopologyError
check_fields b =
    when (trim_space b.display_name == []) no_display_name
    &> when (has_reserved b.display_name) bad_display_name
    &> when (trim_space b.host == [] || has_reserved b.host) bad_host
    &> when (ltb_ℤ b.backend_port (pos 1) || ltb_ℤ (pos 65535) b.backend_port) bad_backend_port
    &> when (ltb_ℤ b.public_port (pos 0) || ltb_ℤ (pos 65535) b.public_port) bad_public_port

-- Those that stand after it.
unfoldable pub check_policy : Backend → Option TopologyError
check_policy b =
    let mode = or_else b.connection_mode transparent in
    when (b.profile == [] || has_reserved b.profile) bad_profile
    &> when (not (mode == transparent) && not (mode == full_proxy)) bad_connection_mode
    &> when (not (is_adapter (or_else b.backend_adapter (codes "proxy_only")))) bad_adapter
    &> when (ltb_ℤ b.capacity (pos 1) || ltb_ℤ (pos 100000) b.capacity) bad_capacity
    &> when (mode == full_proxy && b.backend_online_mode) full_proxy_online
    &> when (mode == full_proxy && beq_ℤ b.public_port (pos 0)) full_proxy_no_port
    &> when (b.require_proxy_identity && not (mode == full_proxy)) identity_needs_full_proxy
    &> when (not (b.fallback_backend == []) && b.fallback_backend == b.id) self_fallback
    &> when (not (b.companion_secret_env == []) && not (is_env_name b.companion_secret_env))
        bad_secret_env

abbrev pub has_public_port : Backend → Bool
has_public_port b = ltb_ℤ (pos 0) b.public_port

-- The loop of `validateTopology`: `earlier` are the backends before, whose ids and public ports
-- the source keeps in two maps, and `found` is `primaryFound`.
unfoldable pub validate_backends : Text → List Backend → Bool → List Backend → Option TopologyError
validate_backends primary earlier found [] = when (not found) no_primary
validate_backends primary earlier found (b ∷ rest) =
    when (not (is_backend_id b.id)) bad_id
    &> when (any (λ e. e.id == b.id) earlier) duplicate_id
    &> check_fields b
    &> when
        (has_public_port b
          && any (λ e. has_public_port e && beq_ℤ e.public_port b.public_port) earlier)
        duplicate_public_port
    &> check_policy b
    &> validate_backends primary (b ∷ earlier) (b.id == primary || found) rest

-- `validateTopology`; `none` is a valid topology.
unfoldable pub validate_topology : Topology → Option TopologyError
unfolding validate_backends
validate_topology t =
    when (not (beq_ℤ t.version (pos 1))) bad_version
    &> when (not (is_routing_mode t.routing_mode)) bad_routing_mode
    &> when (elim t.backends [ [] ↦ true | _ ↦ false ]) no_backend
    &> validate_backends t.primary_backend [] false t.backends

-- `staticPublicPorts`: who owns a port. A later backend overwrites an earlier one.
unfoldable pub static_owner : ℤ → List Backend → Option Text
static_owner p [] = none
static_owner p (b ∷ bs) = elim (static_owner p bs) [
  | some o ↦ some o
  | none ↦ if has_public_port b && beq_ℤ b.public_port p then some b.id else none
]
