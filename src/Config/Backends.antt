-- ===== src/Config/Backends.antt =====
-- The backend topology in the document (dashboard/config.go: topologyFromUnified,
-- applyTopologyToUnified; dashboard/backends.go: humanizeBackendID).
pub mod Sections
pub mod Tidy
pub mod Edge
pub mod RoundTrip
mod Examples
use ninj_os_proxie_edge_fabr.Prelude.{
  ℕ, ◌≡◌, refl, Bool, true, false, not, ◌&&◌, ◌||◌, Option, none, some, List, [], ◌∷◌, ◌++◌, map,
  nat_beq, if◌then◌else◌, Text, ◌==◌, any, select, drop,
}
use ninj_os_proxie_edge_fabr.Prelude.Int.{ℤ, pos}
use ninj_os_proxie_edge_fabr.GoText.{codes, trim_space, is_space, upper_byte, split, join, or_else}
use ninj_os_proxie_edge_fabr.GoText.Decimal.{format_int}
use ninj_os_proxie_edge_fabr.GoText.Sort.{sort_strings}
use ninj_os_proxie_edge_fabr.GoMap.{lookup, insert, value_or}
use ninj_os_proxie_edge_fabr.Topology.{Backend, Topology, TopologyError, validate_topology}
use ninj_os_proxie_edge_fabr.Config.{
  Document, get, value_or_default, int_or, bool_or, env_name_from_reference, set_value, add_section,
}
use ninj_os_proxie_edge_fabr.Config.Secrets.{section_name}
use ninj_os_proxie_edge_fabr.Config.Render.{is_backend_section, keys_of}

abbrev capitalized : Text → Text
capitalized [] = []
capitalized (c ∷ s) = upper_byte c ∷ s

-- `humanizeBackendID`
unfoldable pub humanize_backend_id : Text → Text
humanize_backend_id id = join b' ' (
    map capitalized (
      select (λ w. not (w == []))
        (split b' '
          (map (λ c. if is_space c || nat_beq c b'-' || nat_beq c b'_' then b' ' else c) id))))

abbrev pub prefix : Text
prefix = codes "backend."

-- `strings.TrimPrefix(section, "backend.")`, for a name with that prefix.
abbrev pub id_of : Text → Text
id_of section = drop 8 section

-- The backend that a section describes.
unfoldable pub backend_from : Text → List (Text × Text) → Backend
unfolding humanize_backend_id
backend_from id values = record {
  id = id;
  display_name = value_or_default values (codes "display_name") (humanize_backend_id id);
  host = value_or_default values (codes "host") (codes "127.0.0.1");
  backend_port = int_or values (codes "backend_port") (pos 19132);
  public_port = int_or values (codes "public_port") (pos 0);
  fallback = bool_or values (codes "fallback") false;
  fallback_backend = value_or_default values (codes "fallback_backend") [];
  profile = value_or_default values (codes "protection_profile") id;
  enabled = bool_or values (codes "enabled") true;
  connection_mode = value_or_default values (codes "connection_mode") (codes "transparent");
  backend_adapter = value_or_default values (codes "backend_adapter") (codes "proxy_only");
  backend_online_mode = bool_or values (codes "backend_online_mode") true;
  require_proxy_identity = bool_or values (codes "require_proxy_identity") false;
  capacity = int_or values (codes "capacity") (pos 50);
  companion_secret_env =
      env_name_from_reference (trim_space (value_or [] (codes "companion_secret") values));
}

unfoldable pub backends_from : List Text → Document → List Backend
backends_from [] doc = []
backends_from (section ∷ sections) doc =
    backend_from (id_of section) (value_or [] section doc) ∷ backends_from sections doc

unfoldable pub primary_or_first : Text → List Backend → Text
primary_or_first primary [] = primary
primary_or_first primary (b ∷ bs) = or_else primary b.id

-- The topology that `topologyFromUnified` returns; its error is that of `validateTopology`.
unfoldable pub topology_from_unified : Document → Topology
unfolding backends_from primary_or_first
topology_from_unified doc =
    let backends = backends_from (sort_strings (select is_backend_section (keys_of doc))) doc in
    record {
      version = pos 1;
      primary_backend =
          primary_or_first (get doc (codes "edge") (codes "primary_backend") []) backends;
      routing_mode = get doc (codes "edge") (codes "routing_mode") (codes "primary");
      backends = backends;
    }

-- `existingSecrets`
unfoldable pub existing_secrets : Document → List (Text × Text)
existing_secrets [] = []
existing_secrets ((section, values) ∷ doc) =
    let rest = existing_secrets doc in
    if is_backend_section section
    then (id_of section, value_or [] (codes "companion_secret") values) ∷ rest
    else rest

abbrev pub format_bool : Bool → Text
format_bool true = codes "true"
format_bool false = codes "false"

-- The values that a save writes for a backend.
unfoldable pub backend_values : Backend → Text → List (Text × Text)
backend_values b secret =
    (codes "display_name", b.display_name)
    ∷ (codes "host", b.host)
    ∷ (codes "backend_port", format_int b.backend_port)
    ∷ (codes "public_port", format_int b.public_port)
    ∷ (codes "enabled", format_bool b.enabled)
    ∷ (codes "fallback", format_bool b.fallback)
    ∷ (codes "fallback_backend", b.fallback_backend)
    ∷ (codes "protection_profile", b.profile)
    ∷ (codes "connection_mode", b.connection_mode)
    ∷ (codes "backend_adapter", b.backend_adapter)
    ∷ (codes "backend_online_mode", format_bool b.backend_online_mode)
    ∷ (codes "require_proxy_identity", format_bool b.require_proxy_identity)
    ∷ (codes "capacity", format_int b.capacity)
    ∷ (codes "companion_secret", secret)
    ∷ []

unfoldable pub set_values : Text → List (Text × Text) → Document → Document
set_values section [] doc = doc
set_values section ((key, v) ∷ values) doc = set_values section values (set_value section key v doc)

unfoldable pub write_backends : List (Text × Text) → List Backend → Document → Document
unfolding set_values backend_values
write_backends secrets [] doc = doc
write_backends secrets (b ∷ bs) doc =
    let section = section_name (prefix ++ b.id) in
    write_backends secrets bs
      (set_values section (backend_values b (value_or [] b.id secrets)) (add_section section doc))

-- `applyTopologyToUnified` on a valid topology.
unfoldable pub written_topology : Document → Topology → Document
unfolding existing_secrets write_backends
written_topology doc t =
    let kept = select (λ entry. not (is_backend_section entry.0)) doc in
    let edge = add_section (codes "edge") kept in
    write_backends (existing_secrets doc) t.backends (
      set_values (codes "edge")
        ((codes "primary_backend", t.primary_backend) ∷ (codes "routing_mode", t.routing_mode) ∷ [])
        edge)

pub data Applied : Type 0 where
  refused : TopologyError → Applied
  applied : Document → Applied

unfoldable pub apply_topology_to_unified : Document → Topology → Applied
unfolding written_topology
apply_topology_to_unified doc t = elim (validate_topology t) [
  | some e ↦ refused e
  | none ↦ applied (written_topology doc t)
]
